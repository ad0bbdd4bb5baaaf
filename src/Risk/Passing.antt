-- ===== src/Risk/Passing.antt =====
-- What holds when the guard lets a deal or a withdrawal pass.
use gigveyro.Common.{
  ℕ, ◌≡◌, refl, Bool, true, false, ◌&&◌, Option, none, some, List, [], ◌∷◌, Bool-cases, inl, inr,
  arith,
}
use gigveyro.Common.Int.{ℤ, ◌+ℤ◌, ◌≤ℤ◌, ltb_ℤ}
use gigveyro.Common.Table.{All}
use gigveyro.Models.Risk.{
  RiskPolicy, RiskDecision, RiskReason, TreasurySnapshot, allow, warn, block, is_active_policy,
}
use gigveyro.Db.{
  Db, Action, raise_if, Error, Result, ok, err, or_raise, gets, ◌>>=◌, ◌>>◌, risk_policy_error,
}
use gigveyro.Db.RiskQueries.{active_risk_policy, liabilities, user_frozen, latest, frozen_of}
use gigveyro.Db.DealQueries.{scalar_one}
use gigveyro.Db.Queries.{select, find_wallet}
use gigveyro.Wallet.Posting.{EndsBy}
use gigveyro.Wallet.Posting.Rules.{EndsBy-weaken}
use gigveyro.Deal.Profit.{Any}
use gigveyro.Risk.{current, reserve, since}
use gigveyro.Risk.Guard.{
  Limit, exceeds, limits, unless_blocked, deal_limits, check_deal, withdrawal_limits,
  check_withdrawal,
}
use gigveyro.Risk.Reserve.{is_block}
use mathlib.Core.Path.{subst}
use gigveyro.Models.Wallet.{Decimal, finite}
use gigveyro.Risk.Coverage.{
  Covers, reserve-Covers, since-pending, since-deals, pending_withdrawals, open_deals,
}

-- The call returns what `P` holds of, or raises; and writes nothing.
abbrev pub Looks : {A : Type 0} → (A → Type 0) → Db → Result A × Db → Type 0
Looks P db = EndsBy (λ e db'. db' ≡ db) (λ a db'. (db' ≡ db) × P a)

module _ {A B : Type 0} (Q : A → Type 0) (db : Db) (P : B → Type 0) (f : B → Action A) where
  Looks-then :
      (x : Result B × Db)
      → Looks P db x
      → ((b : B) → P b → Looks Q db (f b db))
      → Looks Q db (elim x.0 [ ok b ↦ f b x.1 | err e ↦ (err e, x.1) ])
  Looks-then (ok b, db') (same, p) h = rw same (h b p)
  Looks-then (err e, db') same h = same

  pub Looks-bind :
      (m : Action B)
      → Looks P db (m db)
      → ((b : B) → P b → Looks Q db (f b db))
      → Looks Q db ((m >>= f) db)
  Looks-bind m = Looks-then (m db)

pub Looks-weaken :
    {A : Type 0} (P Q : A → Type 0) (db : Db) (x : Result A × Db)
    → ((a : A) → P a → Q a)
    → Looks P db x
    → Looks Q db x
Looks-weaken P Q db (ok a, db') h p = (p.0, h a p.1)
Looks-weaken P Q db (err e, db') h p = p

-- The rule for a statement that writes nothing, before statements that write.
module _ {A B : Type 0} (Q : A → Db → Type 0) (db : Db) (P : B → Type 0) (f : B → Action A) where
  EndsBy-after :
      (x : Result B × Db)
      → Looks P db x
      → ((b : B) → P b → EndsBy Any Q (f b db))
      → EndsBy Any Q (elim x.0 [ ok b ↦ f b x.1 | err e ↦ (err e, x.1) ])
  EndsBy-after (ok b, db') (same, p) h = rw same (h b p)
  EndsBy-after (err e, db') same h = tt

  pub EndsBy-Looks :
      (m : Action B)
      → Looks P db (m db)
      → ((b : B) → P b → EndsBy Any Q (f b db))
      → EndsBy Any Q ((m >>= f) db)
  EndsBy-Looks m = EndsBy-after (m db)

pub Looks-raise_if : (db : Db) (b : Bool) (e : Error) → Looks (λ _. b ≡ false) db (raise_if b e db)
Looks-raise_if db true e = refl
Looks-raise_if db false e = (refl, refl)

pub Looks-or_raise :
    {A : Type 0} (db : Db) (o : Option A) (e : Error) → Looks (λ a. o ≡ some a) db (or_raise o e db)
Looks-or_raise db none e = refl
Looks-or_raise db (some a) e = (refl, refl)

Looks-scalar_one :
    {A : Type 0} (db : Db) (l : List A) → Looks (λ a. l ≡ a ∷ []) db (scalar_one l db)
unfolding scalar_one
Looks-scalar_one db [] = refl
Looks-scalar_one db (x ∷ []) = (refl, refl)
Looks-scalar_one db (x ∷ y ∷ l) = refl

-- The limit is not enabled, or has no threshold, or the amount does not pass it.
abbrev pub IsWithin : Limit → Type 0
IsWithin l = (l.enabled && exceeds l.current l.threshold) ≡ false

Looks-limits : (db : Db) (ls : List Limit) → Looks (λ _. All IsWithin ls) db (limits ls db)
unfolding limits
Looks-limits db [] = (refl, tt)
Looks-limits db (l ∷ ls) = elim (Bool-cases (l.enabled && exceeds l.current l.threshold)) [
  | inl passed ↦ rw passed refl
  | inr low ↦ rw low (
      EndsBy-weaken (λ e db'. db' ≡ db) (λ e db'. db' ≡ db) (λ _ db'. (db' ≡ db) × All IsWithin ls)
        _ (limits ls db) (λ e db' h. h) (λ _ db' h. (h.0, (refl, h.1))) (Looks-limits db ls))
]

not_block :
    (db : Db) (d : RiskDecision × Option RiskReason)
    → Looks (λ _. is_block d.0 ≡ false) db (unless_blocked d db)
not_block db (block, some reason) = refl
not_block db (block, none) = refl
not_block db (allow, reason) = (refl, refl)
not_block db (warn, reason) = (refl, refl)

-- The amount is at most the threshold, if the limit is enabled and set.
abbrev pub AtMost : Bool → Option Decimal → ℤ → Type 0
AtMost enabled threshold amount =
    enabled ≡ true → (t : ℤ) → threshold ≡ some (finite t) → amount ≤ℤ t

IsWithin-AtMost :
    (enabled : Bool) (threshold : Option Decimal) (amount : ℤ)
    → (enabled && exceeds amount threshold) ≡ false
    → AtMost enabled threshold amount
IsWithin-AtMost enabled threshold amount h on t e = low (rw e at (rw on at h))
  where
    low : ltb_ℤ t amount ≡ false → amount ≤ℤ t
    low x = ground arith

-- The guard of `db` has let an amount pass that `Within` bounds under the active policy.
pub record Passes (now : ℕ) (db : Db) (Within : RiskPolicy → Type 0) : Type 0 where
  pub policy : RiskPolicy
  pub active : select (λ p. is_active_policy p.status) db.risk_policies ≡ policy ∷ []
  pub covering : policy.values.reserve_coverage_enabled ≡ true → Covers now policy db
  pub within : Within policy

-- The amount, with the pending withdrawals, is within its limit.
abbrev pub IsWithdrawable : Db → ℤ → RiskPolicy → Type 0
IsWithdrawable db amount p =
    AtMost p.values.pending_withdrawals_enabled p.values.max_pending_withdrawals_usdt
      (pending_withdrawals db +ℤ amount)

-- The amount alone, with the user's frozen balance, and with the open deals is within its limits.
abbrev pub IsAffordable : Db → ℕ → ℤ → RiskPolicy → Type 0
IsAffordable db user_id amount p =
    AtMost p.values.single_deal_enabled p.values.max_single_deal_usdt amount
    × AtMost p.values.user_exposure_enabled p.values.max_user_exposure_usdt
        (frozen_of (find_wallet user_id db) +ℤ amount)
    × AtMost p.values.total_open_deals_enabled p.values.max_total_open_deals_usdt
        (open_deals db +ℤ amount)

module _ (now : ℕ) (db : Db) (ls : RiskPolicy → TreasurySnapshot → List Limit)
    (Within : RiskPolicy → Type 0)
    (within : (p : RiskPolicy) (s : TreasurySnapshot)
      → since now (latest db.treasury_snapshots) (liabilities db) p ≡ some s
      → All IsWithin (ls p s)
      → Within p)
    (last : RiskPolicy → TreasurySnapshot → Action (Unit {0}))
    (ends : (p : RiskPolicy) (s : TreasurySnapshot)
      → Looks (λ _. All IsWithin (ls p s)) db (last p s db)) where
  guarded-Passes :
      (p : RiskPolicy) (s : TreasurySnapshot)
      → select (λ p. is_active_policy p.status) db.risk_policies ≡ p ∷ []
      → since now (latest db.treasury_snapshots) (liabilities db) p ≡ some s
      → is_block (reserve s p).0 ≡ false
      → All IsWithin (ls p s)
      → Passes now db Within
  guarded-Passes p s active e h low = record {
    policy = p;
    active = active;
    covering = λ enabled. reserve-Covers now p db s e enabled h;
    within = within p s e low;
  }

  guarded :
      Looks
        (λ _. Passes now db Within)
        db
        ((active_risk_policy >>= λ p.
            current now p >>= λ s. unless_blocked (reserve s p) >> last p s)
          db)
  unfolding active_risk_policy current
  guarded =
      Looks-bind (λ _. Passes now db Within) db
        (λ p. select (λ p. is_active_policy p.status) db.risk_policies ≡ p ∷ [])
        (λ p. current now p >>= λ s. unless_blocked (reserve s p) >> last p s) active_risk_policy
        (Looks-scalar_one db (select (λ p. is_active_policy p.status) db.risk_policies))
        λ p active.
          Looks-bind (λ _. Passes now db Within) db
            (λ s. since now (latest db.treasury_snapshots) (liabilities db) p ≡ some s)
            (λ s. unless_blocked (reserve s p) >> last p s) (current now p)
            (Looks-or_raise db (since now (latest db.treasury_snapshots) (liabilities db) p)
              risk_policy_error)
            λ s e.
              Looks-bind (λ _. Passes now db Within) db (λ _. is_block (reserve s p).0 ≡ false)
                (λ _. last p s) (unless_blocked (reserve s p)) (not_block db (reserve s p))
                λ _ h.
                  EndsBy-weaken (λ e db'. db' ≡ db) (λ e db'. db' ≡ db)
                    (λ _ db'. (db' ≡ db) × All IsWithin (ls p s))
                    (λ _ db'. (db' ≡ db) × Passes now db Within) (last p s db) (λ e db' x. x)
                    (λ _ db' x. (x.0, guarded-Passes p s active e h x.1)) (ends p s)

module _ (now : ℕ) (db : Db) (amount : ℤ) where
  -- The guard of a withdrawal writes nothing. It lets the amount pass only if there is exactly one
  -- active policy; where the reserve coverage is enabled, only if the latest treasury snapshot is
  -- of a connected provider and recent, and its external funds cover the balances of users and
  -- merchants at the minimum ratio, rounded half up, and the minimum; and only if the amount, with
  -- the withdrawals of merchants that are pending or approved, is within the enabled limit.
  pub check_withdrawal_lem :
      Looks (λ _. Passes now db (IsWithdrawable db amount)) db (check_withdrawal now amount db)
  unfolding check_withdrawal withdrawal_limits
  check_withdrawal_lem =
      guarded now db (λ p s. withdrawal_limits p s amount) (IsWithdrawable db amount) within
        (λ p s. limits (withdrawal_limits p s amount))
        (λ p s. Looks-limits db (withdrawal_limits p s amount))
    where
      within :
          (p : RiskPolicy) (s : TreasurySnapshot)
          → since now (latest db.treasury_snapshots) (liabilities db) p ≡ some s
          → All IsWithin (withdrawal_limits p s amount)
          → IsWithdrawable db amount p
      within p s e (low, _) =
          IsWithin-AtMost p.values.pending_withdrawals_enabled p.values.max_pending_withdrawals_usdt
            (pending_withdrawals db +ℤ amount)
            (subst
              (λ x.
                (p.values.pending_withdrawals_enabled
                  && exceeds (x +ℤ amount) p.values.max_pending_withdrawals_usdt)
                ≡ false)
              (since-pending now p db s e) low)

  -- The guard of a deal writes nothing. It lets the amount pass only if there is exactly one active
  -- policy; where the reserve coverage is enabled, only if the latest treasury snapshot is of a
  -- connected provider and recent, and its external funds cover the balances of users and merchants
  -- at the minimum ratio, rounded half up, and the minimum; and only if the amount, the amount with
  -- the user's frozen balance, and the amount with all open deals are within the enabled limits.
  pub check_deal_lem :
      (user_id : ℕ)
      → Looks
          (λ _. Passes now db (IsAffordable db user_id amount))
          db
          (check_deal now user_id amount db)
  unfolding check_deal deal_limits user_frozen
  check_deal_lem user_id =
      guarded now db (λ p s. deal_limits p s (user_frozen user_id db) amount)
        (IsAffordable db user_id amount) within
        (λ p s. gets (user_frozen user_id) >>= λ frozen. limits (deal_limits p s frozen amount))
        (λ p s. Looks-limits db (deal_limits p s (user_frozen user_id db) amount))
    where
      within :
          (p : RiskPolicy) (s : TreasurySnapshot)
          → since now (latest db.treasury_snapshots) (liabilities db) p ≡ some s
          → All IsWithin (deal_limits p s (user_frozen user_id db) amount)
          → IsAffordable db user_id amount p
      within p s e (single, (exposure, (total, _))) = (
        IsWithin-AtMost p.values.single_deal_enabled p.values.max_single_deal_usdt amount single,
        IsWithin-AtMost p.values.user_exposure_enabled p.values.max_user_exposure_usdt
            (frozen_of (find_wallet user_id db) +ℤ amount) exposure,
        IsWithin-AtMost p.values.total_open_deals_enabled p.values.max_total_open_deals_usdt
            (open_deals db +ℤ amount)
            (subst
              (λ x.
                (p.values.total_open_deals_enabled
                  && exceeds (x +ℤ amount) p.values.max_total_open_deals_usdt)
                ≡ false)
              (since-deals now p db s e) total),
      )
