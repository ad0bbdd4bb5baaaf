-- ===== src/Risk/Reserve.antt =====
-- What the snapshot of the treasury and the decision on its reserve guarantee.
use mathlib.Core.Path.{subst}
use native.Mathlib.Nat.{mul-div-le, lt-mul-div-succ}
use gigveyro.Common.{
  ◌&&◌, refl, ◌<◌, ℕ, ◌+◌, ◌*◌, ◌≤◌, ◌≡◌, Bool, true, false, Option, none, some, arith, Bool-cases,
  inl, inr, ◌⊎◌, Option-cases,
}
use gigveyro.Common.Int.{ℤ, leb_ℤ, pos, pos_part, ◌+ℤ◌, ◌-ℤ◌, ◌≤ℤ◌, max_ℤ, ltb_ℤ, int_laws}
use gigveyro.Models.Wallet.{Decimal, finite}
use gigveyro.Models.Risk.{
  RiskPolicy, RiskValues, RiskDecision, ProviderStatus, Liabilities, TreasurySnapshot, block,
  is_connected, unknown_provider,
}
use gigveyro.Risk.{
  half_up, required_reserve, calculate_snapshot, status_of, all_amounts, is_amount, amount_of,
  reserve, or_none, is_unknown_or_stale, within, age_at, coverage_of, since,
}

-- A quotient rounded half up.
pub half_up_lem :
    (n d : ℕ) → 1 ≤ d → (2 * d * half_up n d ≤ 2 * n + d) × (2 * n + d < 2 * d * (half_up n d + 1))
unfolding half_up
half_up_lem n d h = (mul-div-le (2 * n + d) (2 * d), lt-mul-div-succ (2 * n + d) (omega arith))

-- What a snapshot says of the reserve.
pub record IsBalanced (policy : RiskPolicy) (l : Liabilities) (s : TreasurySnapshot) : Type 0 where
  pub total : ℕ
  pub liabilities : l.user +ℤ l.merchant ≡ pos total
  pub required : ℕ
  pub is_required : s.required_reserve_usdt ≡ pos required
  pub nearest :
      (20000 * required ≤ 2 * (total * policy.values.minimum_reserve_ratio_bps) + 10000)
      × (2 * (total * policy.values.minimum_reserve_ratio_bps) + 10000 < 20000 * (required + 1))
  pub balance :
      s.required_reserve_usdt +ℤ s.reserve_surplus_usdt
      ≡ s.external_bybit_usdt +ℤ s.reserve_deficit_usdt
  pub surplus : pos 0 ≤ℤ s.reserve_surplus_usdt
  pub deficit : pos 0 ≤ℤ s.reserve_deficit_usdt
  pub one_sided : (s.reserve_surplus_usdt ≡ pos 0) ⊎ (s.reserve_deficit_usdt ≡ pos 0)

abbrev pub WhenSome : (TreasurySnapshot → Type 0) → Option TreasurySnapshot → Type 0
WhenSome P none = Unit
WhenSome P (some s) = P s

one_side : (a b : ℤ) → (max_ℤ (a -ℤ b) (pos 0) ≡ pos 0) ⊎ (max_ℤ (b -ℤ a) (pos 0) ≡ pos 0)
one_side a b = elim (Bool-cases (leb_ℤ a b)) [
  | inl low ↦ inl (grind int_laws)
  | inr high ↦ inr (grind int_laws)
]

sum_of :
    (u m : ℤ) → leb_ℤ (pos 0) u ≡ true → leb_ℤ (pos 0) m ≡ true → u +ℤ m ≡ pos (pos_part (u +ℤ m))
sum_of u m hu hm = grind int_laws

third_and_fourth :
    (a b c d e f g h : Bool)
    → (a && b && c && d && e && f && g && h) ≡ true
    → (c ≡ true) × (d ≡ true)
third_and_fourth true true true true e f g h x = (refl, refl)
third_and_fourth false b c d e f g h x = absurd (cc)
third_and_fourth true false c d e f g h x = absurd (cc)
third_and_fourth true true false d e f g h x = absurd (cc)
third_and_fourth true true true false e f g h x = absurd (cc)

both_amounts :
    (usdt usdc : Decimal) (l : Liabilities)
    → all_amounts usdt usdc l ≡ true
    → (leb_ℤ (pos 0) l.user ≡ true) × (leb_ℤ (pos 0) l.merchant ≡ true)
both_amounts usdt usdc l h =
    third_and_fourth (is_amount usdt) (is_amount usdc) (leb_ℤ (pos 0) l.user)
      (leb_ℤ (pos 0) l.merchant) (leb_ℤ (pos 0) l.frozen) (leb_ℤ (pos 0) l.pending)
      (leb_ℤ (pos 0) l.open_deals) (leb_ℤ (pos 0) l.profit) h

balanced : (a b : ℤ) → b +ℤ max_ℤ (a -ℤ b) (pos 0) ≡ a +ℤ max_ℤ (b -ℤ a) (pos 0)
balanced a b = grind int_laws

not_negative : (a : ℤ) → pos 0 ≤ℤ max_ℤ a (pos 0)
not_negative a = ground arith

known_lem :
    (fresh : Bool) (observed_at : Option ℕ) (total usdt required : ℤ) (coverage : Option ℕ)
    (values : RiskValues)
    → is_unknown_or_stale (status_of fresh observed_at total usdt required coverage values) ≡ false
    → fresh ≡ true
unfolding status_of
known_lem true observed_at total usdt required coverage values h = refl
known_lem false none total usdt required coverage values h = absurd (cc)
known_lem false (some t) total usdt required coverage values h = absurd (cc)

both_true : (a b : Bool) → (a && b) ≡ true → (a ≡ true) × (b ≡ true)
both_true true true h = (refl, refl)
both_true true false h = absurd (cc)
both_true false b h = absurd (cc)

module _ (now : ℕ) (observed_at : Option ℕ) (provider : ProviderStatus) (usdt usdc : Decimal)
    (l : Liabilities) (policy : RiskPolicy) where
  -- A snapshot of amounts that are not negative has the liabilities of users and merchants times the
  -- minimum ratio, rounded half up to a unit, as its required reserve; required reserve and surplus
  -- are together what external funds and deficit are; neither surplus nor deficit is negative, and
  -- one of them is zero.
  pub calculate_snapshot-IsBalanced :
      WhenSome
        (IsBalanced policy l)
        (calculate_snapshot now observed_at provider usdt usdc l policy)
  unfolding calculate_snapshot
  calculate_snapshot-IsBalanced = elim (Bool-cases (all_amounts usdt usdc l)) [
    | inr bad ↦ rw bad tt
    | inl good ↦ rw good (record {
      total = pos_part (l.user +ℤ l.merchant);
      liabilities = (let b = both_amounts usdt usdc l good in sum_of l.user l.merchant b.0 b.1);
      required =
          half_up (pos_part (l.user +ℤ l.merchant) * policy.values.minimum_reserve_ratio_bps) 10000;
      is_required = unfold required_reserve in refl;
      nearest =
          half_up_lem (pos_part (l.user +ℤ l.merchant) * policy.values.minimum_reserve_ratio_bps)
            10000 (omega arith);
      balance = balanced (amount_of usdt) (required_reserve (l.user +ℤ l.merchant) policy.values);
      surplus =
          not_negative (amount_of usdt -ℤ required_reserve (l.user +ℤ l.merchant) policy.values);
      deficit =
          not_negative (required_reserve (l.user +ℤ l.merchant) policy.values -ℤ amount_of usdt);
      one_sided = one_side (amount_of usdt) (required_reserve (l.user +ℤ l.merchant) policy.values);
    })
  ]

  pub known-IsFresh :
      WhenSome
        (λ s.
          is_unknown_or_stale s.risk_status ≡ false
          → (is_connected s.provider_status ≡ true)
            × (within s.data_age_seconds policy.values.max_treasury_data_age_seconds ≡ true))
        (calculate_snapshot now observed_at provider usdt usdc l policy)
  unfolding calculate_snapshot status_of
  known-IsFresh = elim (Bool-cases (all_amounts usdt usdc l)) [
    | inr bad ↦ rw bad tt
    | inl good ↦ rw good (λ h.
        both_true (is_connected provider)
          (within (age_at now observed_at) policy.values.max_treasury_data_age_seconds)
          (known_lem
            (is_connected provider
              && within (age_at now observed_at) policy.values.max_treasury_data_age_seconds)
            observed_at (l.user +ℤ l.merchant) (amount_of usdt)
            (required_reserve (l.user +ℤ l.merchant) policy.values)
            (coverage_of (amount_of usdt) (l.user +ℤ l.merchant)) policy.values h))
  ]

abbrev pub is_block : RiskDecision → Bool
is_block block = true
is_block _ = false

passed :
    (s : TreasurySnapshot) (policy : RiskPolicy)
    → policy.values.reserve_coverage_enabled ≡ true
    → is_block (reserve s policy).0 ≡ false
    → (is_unknown_or_stale s.risk_status ≡ false)
      × (ltb_ℤ (pos 0) s.reserve_deficit_usdt ≡ false)
      × (policy.values.minimum_external_reserve_enabled ≡ true
          → or_none policy.values.minimum_external_usdt_reserve ≤ℤ s.external_bybit_usdt)
unfolding reserve
passed s policy enabled h = elim (Bool-cases (is_unknown_or_stale s.risk_status)) [
  | inl old ↦ absurd (let x : true ≡ false = rw old at (rw enabled at h) in cc)
  | inr known ↦ elim (Bool-cases (ltb_ℤ (pos 0) s.reserve_deficit_usdt)) [
    | inl short ↦ absurd (let x : true ≡ false = rw short at (rw known at (rw enabled at h)) in cc)
    | inr covered ↦ (
      known,
      covered,
      λ minimum.
          elim (Bool-cases
            (ltb_ℤ s.external_bybit_usdt (or_none policy.values.minimum_external_usdt_reserve))) [
              | inl low ↦ absurd (
                  let x : true ≡ false =
                    rw low at (rw minimum at (rw covered at (rw known at (rw enabled at h)))) in
                  cc)
              | inr enough ↦ ground (arith, enough)
            ],
    )
  ]
]

-- What the guard demands when it lets a deal or a withdrawal pass: the data are fresh, the external
-- funds cover the required reserve and reach the minimum that is set for them.
pub record IsCovering (policy : RiskPolicy) (s : TreasurySnapshot) : Type 0 where
  pub connected : is_connected s.provider_status ≡ true
  pub recent : within s.data_age_seconds policy.values.max_treasury_data_age_seconds ≡ true
  pub covered : s.required_reserve_usdt ≤ℤ s.external_bybit_usdt
  pub minimum :
      policy.values.minimum_external_reserve_enabled ≡ true
      → or_none policy.values.minimum_external_usdt_reserve ≤ℤ s.external_bybit_usdt

pub WhenSome-known :
    (P : TreasurySnapshot → Type 0) (o : Option TreasurySnapshot) (s : TreasurySnapshot)
    → o ≡ some s
    → WhenSome P o
    → P s
WhenSome-known P o s e h = subst (WhenSome P) e h

covers_required :
    (r x surplus deficit : ℤ)
    → r +ℤ surplus ≡ x +ℤ deficit
    → pos 0 ≤ℤ surplus
    → ltb_ℤ (pos 0) deficit ≡ false
    → r ≤ℤ x
covers_required r x surplus deficit b p q = grind int_laws

module _ (now : ℕ) (policy : RiskPolicy) (l : Liabilities) (last : Option TreasurySnapshot)
    (s : TreasurySnapshot) (e : since now last l policy ≡ some s) where
  -- The snapshot that the guard takes balances the treasury.
  pub since-IsBalanced : IsBalanced policy l s
  since-IsBalanced = elim (Option-cases last) [
    | inl absent ↦ WhenSome-known (IsBalanced policy l) _ s (rw absent at e) (
        calculate_snapshot-IsBalanced now none unknown_provider (finite (pos 0)) (finite (pos 0)) l
          policy)
    | inr (t, et) ↦ WhenSome-known (IsBalanced policy l) _ s (rw et at e) (
        calculate_snapshot-IsBalanced now t.external_observed_at t.provider_status
          (finite t.external_bybit_usdt) (finite t.external_bybit_usdc) l policy)
  ]

  fresh :
      is_unknown_or_stale s.risk_status ≡ false
      → (is_connected s.provider_status ≡ true)
        × (within s.data_age_seconds policy.values.max_treasury_data_age_seconds ≡ true)
  fresh = elim (Option-cases last) [
    | inl absent ↦
        WhenSome-known IsKnownFresh _ s (rw absent at e)
          (known-IsFresh now none unknown_provider (finite (pos 0)) (finite (pos 0)) l policy)
    | inr (t, et) ↦ WhenSome-known IsKnownFresh _ s (rw et at e) (
        known-IsFresh now t.external_observed_at t.provider_status (finite t.external_bybit_usdt)
          (finite t.external_bybit_usdc) l policy)
  ]
    where
      IsKnownFresh : TreasurySnapshot → Type 0
      IsKnownFresh s =
          is_unknown_or_stale s.risk_status ≡ false
          → (is_connected s.provider_status ≡ true)
            × (within s.data_age_seconds policy.values.max_treasury_data_age_seconds ≡ true)

  pub reserve-IsCovering :
      policy.values.reserve_coverage_enabled ≡ true
      → is_block (reserve s policy).0 ≡ false
      → IsCovering policy s
  reserve-IsCovering enabled h =
      let (known, covered, minimum) = passed s policy enabled h in
      let (connected, recent) = fresh known in
      let b = since-IsBalanced in
      record {
        connected = connected;
        recent = recent;
        covered =
            covers_required s.required_reserve_usdt s.external_bybit_usdt s.reserve_surplus_usdt
              s.reserve_deficit_usdt b.balance b.surplus covered;
        minimum = minimum;
      }
