-- ===== src/Risk/Coverage.antt =====
-- What a passed decision on the reserve says of the latest treasury snapshot and of the liabilities
-- on record.
use mathlib.Core.Path.{subst}
use gigveyro.Common.{
  ℕ, ◌+◌, ◌-◌, ◌*◌, ◌≤◌, ◌<◌, ◌≡◌, refl, true, false, Option, none, some, ◌⊎◌, inl, inr, arith,
  Bool-cases, List, [], ◌∷◌, Option-cases, if◌then◌else◌, ltb,
}
use gigveyro.Common.Int.{ℤ, pos, ◌+ℤ◌, ◌≤ℤ◌}
use gigveyro.Common.Table.{sum_by, All}
use gigveyro.Models.Deal.{Deal}
use gigveyro.Models.Wallet.{Decimal, finite, UserWallet, MerchantWallet}
use gigveyro.Models.Withdrawal.{Withdrawal}
use gigveyro.Models.Risk.{
  RiskPolicy, ProviderStatus, Liabilities, TreasurySnapshot, is_connected, unknown_provider,
}
use gigveyro.Db.{Db}
use gigveyro.Db.Queries.{select}
use gigveyro.Db.RiskQueries.{liabilities, latest, is_open_deal, is_open_withdrawal, or_zero}
use gigveyro.Risk.{
  calculate_snapshot, all_amounts, amount_of, since, age_at, within, or_none, reserve,
}
use gigveyro.Risk.Reserve.{
  WhenSome, WhenSome-known, IsBalanced, IsCovering, is_block, since-IsBalanced, reserve-IsCovering,
}

-- The amounts of the requests of merchants that are PENDING or APPROVED.
abbrev pub pending_withdrawals : Db → ℤ
pending_withdrawals db =
    sum_by (λ (w : Withdrawal). w.amount)
      (select (λ (w : Withdrawal). is_open_withdrawal w.status) db.merchant_withdrawals)

-- The amounts of the deals that are ACCEPTED, PAYMENT_PENDING or DISPUTED.
abbrev pub open_deals : Db → ℤ
open_deals db =
    sum_by (λ (d : Deal). or_zero d.amount_usdt)
      (select (λ (d : Deal). is_open_deal d.status) db.deals)

abbrev pub user_funds : Db → ℤ
user_funds db =
    sum_by (λ (w : UserWallet). w.available_balance +ℤ w.insurance_balance +ℤ w.frozen_balance)
      db.wallets

abbrev pub merchant_funds : Db → ℤ
merchant_funds db =
    sum_by (λ (w : MerchantWallet). w.available_balance +ℤ w.held_balance) db.merchant_wallets

-- No snapshot was generated later.
abbrev pub IsUpTo : ℕ → List TreasurySnapshot → Type 0
IsUpTo t rows = All (λ (r : TreasurySnapshot). r.generated_at ≤ t) rows

-- The data of the latest treasury snapshot are of a connected provider and recent, and its external
-- funds cover the balances of users and merchants times the minimum ratio, rounded half up to a
-- unit, and the minimum, if it is enabled and set.
pub record Covers (now : ℕ) (policy : RiskPolicy) (db : Db) : Type 0 where
  pub last : TreasurySnapshot
  pub is_last : latest db.treasury_snapshots ≡ some last
  pub newest : IsUpTo last.generated_at db.treasury_snapshots
  pub connected : is_connected last.provider_status ≡ true
  pub observed_at : ℕ
  pub is_observed : last.external_observed_at ≡ some observed_at
  pub recent : now - observed_at ≤ policy.values.max_treasury_data_age_seconds
  pub total : ℕ
  pub is_total : user_funds db +ℤ merchant_funds db ≡ pos total
  pub required : ℕ
  pub nearest :
      (20000 * required ≤ 2 * (total * policy.values.minimum_reserve_ratio_bps) + 10000)
      × (2 * (total * policy.values.minimum_reserve_ratio_bps) + 10000 < 20000 * (required + 1))
  pub covered : pos required ≤ℤ last.external_bybit_usdt
  pub minimum :
      policy.values.minimum_external_reserve_enabled ≡ true
      → (m : ℤ) → policy.values.minimum_external_usdt_reserve ≡ some (finite m)
      → m ≤ℤ last.external_bybit_usdt

IsUpTo-trans : (t u : ℕ) (rows : List TreasurySnapshot) → t ≤ u → IsUpTo t rows → IsUpTo u rows
IsUpTo-trans t u [] h k = tt
IsUpTo-trans t u (r ∷ rows) h (low, k) = (omega arith, IsUpTo-trans t u rows h k)

latest-none : (t : ℕ) (rows : List TreasurySnapshot) → latest rows ≡ none → IsUpTo t rows
unfolding latest
latest-none t [] h = tt
latest-none t (r ∷ rows) h = elim (Option-cases (latest rows)) [
  | inl absent ↦ absurd (let x : some r ≡ none = rw absent at h in cc)
  | inr (u, eu) ↦
      absurd (
        let x : some (if ltb r.generated_at u.generated_at then u else r) ≡ none = rw eu at h in cc)
]

latest-newest :
    (rows : List TreasurySnapshot) (s : TreasurySnapshot)
    → latest rows ≡ some s
    → IsUpTo s.generated_at rows
unfolding latest
latest-newest [] s h = tt
latest-newest (r ∷ rows) s h = elim (Option-cases (latest rows)) [
  | inl absent ↦
      let e : r ≡ s = cc (rw absent at h) in
      subst (λ x. IsUpTo x.generated_at (r ∷ rows)) e
        (omega arith, latest-none r.generated_at rows absent)
  | inr (u, eu) ↦ elim (Bool-cases (ltb r.generated_at u.generated_at)) [
    | inl later ↦
        let e : u ≡ s = cc (rw later at (rw eu at h)) in
        subst (λ x. IsUpTo x.generated_at (r ∷ rows)) e
          (ground (arith, later), latest-newest rows u eu)
    | inr first ↦
        let e : r ≡ s = cc (rw first at (rw eu at h)) in
        subst (λ x. IsUpTo x.generated_at (r ∷ rows)) e
          (
            omega arith,
            IsUpTo-trans u.generated_at r.generated_at rows (ground (arith, first))
                (latest-newest rows u eu),
          )
  ]
]

-- What a snapshot takes over.
record Takes (now : ℕ) (observed_at : Option ℕ) (provider : ProviderStatus) (usdt : Decimal)
    (l : Liabilities) (s : TreasurySnapshot) : Type 0 where
  pending : s.pending_withdrawal_usdt ≡ l.pending
  deals : s.open_deal_exposure_usdt ≡ l.open_deals
  external : s.external_bybit_usdt ≡ amount_of usdt
  provided : s.provider_status ≡ provider
  age : s.data_age_seconds ≡ age_at now observed_at

calculate_snapshot-Takes :
    (now : ℕ) (observed_at : Option ℕ) (provider : ProviderStatus) (usdt usdc : Decimal)
    (l : Liabilities) (policy : RiskPolicy)
    → WhenSome
        (Takes now observed_at provider usdt l)
        (calculate_snapshot now observed_at provider usdt usdc l policy)
unfolding calculate_snapshot
calculate_snapshot-Takes now observed_at provider usdt usdc l policy =
    elim (Bool-cases (all_amounts usdt usdc l)) [
      | inr bad ↦ rw bad tt
      | inl good ↦
          rw good
            (record { pending = refl; deals = refl; external = refl; provided = refl; age = refl })
    ]

observed_within :
    (now limit : ℕ) (o : Option ℕ)
    → within (age_at now o) limit ≡ true
    → (t : ℕ) × (o ≡ some t) × (now - t ≤ limit)
observed_within now limit none h = absurd (cc)
observed_within now limit (some t) h = (t, refl, ground arith)

module _ (now : ℕ) (policy : RiskPolicy) (l : Liabilities) (s : TreasurySnapshot) where
  since-Takes :
      (last : Option TreasurySnapshot)
      → since now last l policy ≡ some s
      → (Takes now none unknown_provider (finite (pos 0)) l s)
        ⊎ ((t : TreasurySnapshot) × (last ≡ some t)
            × Takes now t.external_observed_at t.provider_status (finite t.external_bybit_usdt) l s)
  since-Takes none e = inl (
      WhenSome-known (Takes now none unknown_provider (finite (pos 0)) l) _ s e (
        calculate_snapshot-Takes now none unknown_provider (finite (pos 0)) (finite (pos 0)) l
          policy))
  since-Takes (some t) e = inr (
    t,
    refl,
    WhenSome-known
        (Takes now t.external_observed_at t.provider_status (finite t.external_bybit_usdt) l) _ s e
        (calculate_snapshot-Takes now t.external_observed_at t.provider_status
          (finite t.external_bybit_usdt) (finite t.external_bybit_usdc) l policy),
  )

module _ (now : ℕ) (policy : RiskPolicy) (db : Db) (s : TreasurySnapshot)
    (e : since now (latest db.treasury_snapshots) (liabilities db) policy ≡ some s) where
  pub since-pending : s.pending_withdrawal_usdt ≡ pending_withdrawals db
  unfolding liabilities
  since-pending =
      elim (since-Takes now policy (liabilities db) s (latest db.treasury_snapshots) e) [
        | inl t ↦ t.pending
        | inr (last, el, t) ↦ t.pending
      ]

  pub since-deals : s.open_deal_exposure_usdt ≡ open_deals db
  unfolding liabilities
  since-deals = elim (since-Takes now policy (liabilities db) s (latest db.treasury_snapshots) e) [
    | inl t ↦ t.deals
    | inr (last, el, t) ↦ t.deals
  ]

  covering-Covers :
      IsBalanced policy (liabilities db) s → IsCovering policy s → Covers now policy db
  unfolding liabilities
  covering-Covers b k =
      elim (since-Takes now policy (liabilities db) s (latest db.treasury_snapshots) e) [
        | inl t ↦ absurd (let p = k.connected in let q = t.provided in cc)
        | inr (last, el, t) ↦
            let (observed_at, is_observed, recent) =
              observed_within now policy.values.max_treasury_data_age_seconds
                last.external_observed_at
                (subst (λ o. within o policy.values.max_treasury_data_age_seconds ≡ true) t.age
                  k.recent) in
            record {
              last = last;
              is_last = el;
              newest = latest-newest db.treasury_snapshots last el;
              connected = subst (λ x. is_connected x ≡ true) t.provided k.connected;
              observed_at = observed_at;
              is_observed = is_observed;
              recent = recent;
              total = b.total;
              is_total = b.liabilities;
              required = b.required;
              nearest = b.nearest;
              covered =
                  subst (λ x. pos b.required ≤ℤ x) t.external
                    (subst (λ x. x ≤ℤ s.external_bybit_usdt) b.is_required k.covered);
              minimum = λ enabled m em.
                  subst (λ x. m ≤ℤ x) t.external
                    (subst (λ o. or_none o ≤ℤ s.external_bybit_usdt) em (k.minimum enabled));
            }
      ]

  pub reserve-Covers :
      policy.values.reserve_coverage_enabled ≡ true
      → is_block (reserve s policy).0 ≡ false
      → Covers now policy db
  reserve-Covers enabled h =
      covering-Covers
        (since-IsBalanced now policy (liabilities db) (latest db.treasury_snapshots) s e)
        (reserve-IsCovering now policy (liabilities db) (latest db.treasury_snapshots) s e enabled
          h)
