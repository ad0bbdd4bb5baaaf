-- ===== src/Risk/Activation.antt =====
-- The activation of a policy leaves it the only active one.
use gigveyro.Common.{
  ℕ, ◌≡◌, ◌≢◌, refl, ap, ◌∙◌, Bool, true, false, not, ◌&&◌, some, List, [], ◌∷◌, ◌==◌, ◌⊎◌,
  Bool-cases, Option-cases, inl, inr, arith,
}
use gigveyro.Common.Table.{find, put, All, All-find, find-key}
use gigveyro.Models.Risk.{
  RiskPolicy, policy_key, is_active_policy, is_draft_policy, is_admissible_policy, active,
}
use gigveyro.Db.{Db, Error, ok, risk_policy_error}
use gigveyro.Db.Queries.{select}
use gigveyro.Db.RiskQueries.{save_policy}
use gigveyro.Wallet.Posting.{EndsBy}
use gigveyro.Wallet.Posting.Rules.{EndsBy-at}
use gigveyro.Risk.Policies.{retire_active, activate_draft, activate_risk_policy}

is_active : RiskPolicy → Bool
is_active p = is_active_policy p.status

abbrev pub active_policies : List RiskPolicy → List RiskPolicy
active_policies rows = select (λ p. is_active_policy p.status) rows

-- The partial unique index on the status of an active policy.
abbrev pub HasOneActive : List RiskPolicy → Type 0
HasOneActive rows =
    (active_policies rows ≡ []) ⊎ ((p : RiskPolicy) × (active_policies rows ≡ p ∷ []))

retired_none : (rows : List RiskPolicy) → active_policies (retire_active rows) ≡ []
unfolding select retire_active
retired_none [] = refl
retired_none (p ∷ ps) = elim (Bool-cases (is_active_policy p.status)) [
  | inl on ↦ rw on (retired_none ps)
  | inr off ↦ rw off (rw off (retired_none ps))
]

find-retired :
    (id : ℕ) (rows : List RiskPolicy) (t : RiskPolicy)
    → find policy_key id rows ≡ some t
    → is_active_policy t.status ≡ false
    → find policy_key id (retire_active rows) ≡ some t
unfolding find retire_active
find-retired id [] t h off = cc
find-retired id (p ∷ ps) t h off = elim (Bool-cases (p.id == id)) [
  | inl same ↦
      let e : p ≡ t = cc (rw same at h) in
      let p_off : is_active_policy p.status ≡ false = rw e off in rw p_off (rw same (ap some e))
  | inr other ↦ elim (Bool-cases (is_active_policy p.status)) [
    | inl on ↦ rw on (rw other (find-retired id ps t (rw other at h) off))
    | inr p_off ↦ rw p_off (rw other (find-retired id ps t (rw other at h) off))
  ]
]

found_active :
    (id : ℕ) (rows : List RiskPolicy) (t : RiskPolicy)
    → find policy_key id rows ≡ some t
    → is_active_policy t.status ≡ true
    → active_policies rows ≢ []
unfolding find select
found_active id [] t h on none_active = cc
found_active id (p ∷ ps) t h on none_active = elim (Bool-cases (is_active_policy p.status)) [
  | inl p_on ↦ let x : p ∷ active_policies ps ≡ [] = rw p_on at none_active in cc
  | inr p_off ↦ elim (Bool-cases (p.id == id)) [
    | inl same ↦ let e : p ≡ t = cc (rw same at h) in cc
    | inr other ↦ found_active id ps t (rw other at h) on (rw p_off at none_active)
  ]
]

one_of :
    (p : RiskPolicy) (ps : List RiskPolicy)
    → ((p ∷ ps ≡ []) ⊎ ((q : RiskPolicy) × (p ∷ ps ≡ q ∷ [])))
    → ps ≡ []
one_of p [] h = refl
one_of p (r ∷ rs) (inl h) = absurd (cc)
one_of p (r ∷ rs) (inr (q, h)) = absurd (cc)

-- The active policy is the one that is found, where there is at most one.
only_active :
    (id : ℕ) (rows : List RiskPolicy) (t : RiskPolicy)
    → find policy_key id rows ≡ some t
    → is_active_policy t.status ≡ true
    → HasOneActive rows
    → active_policies rows ≡ t ∷ []
unfolding find select
only_active id [] t h on one = absurd (cc)
only_active id (p ∷ ps) t h on one = elim (Bool-cases (is_active_policy p.status)) [
  | inl p_on ↦
      let others : active_policies ps ≡ [] = one_of p (active_policies ps) (rw p_on at one) in
      elim (Bool-cases (p.id == id)) [
        | inl same ↦ let e : p ≡ t = cc (rw same at h) in rw p_on (rw (others, e) refl)
        | inr other ↦ absurd (found_active id ps t (rw other at h) on others)
      ]
  | inr p_off ↦ elim (Bool-cases (p.id == id)) [
    | inl same ↦ absurd (let e : p ≡ t = cc (rw same at h) in cc)
    | inr other ↦ rw p_off (only_active id ps t (rw other at h) on (rw p_off at one))
  ]
]

put_active :
    (rows : List RiskPolicy) (t t' : RiskPolicy)
    → find policy_key t'.id rows ≡ some t
    → is_active_policy t'.status ≡ true
    → active_policies rows ≡ []
    → active_policies (put policy_key t' rows) ≡ t' ∷ []
unfolding find put select
put_active [] t t' h on none_active = absurd (cc)
put_active (p ∷ ps) t t' h on none_active = elim (Bool-cases (is_active_policy p.status)) [
  | inl p_on ↦ absurd (let x : p ∷ active_policies ps ≡ [] = rw p_on at none_active in cc)
  | inr p_off ↦ elim (Bool-cases (p.id == t'.id)) [
    | inl same ↦ rw same (rw on (ap (λ l. t' ∷ l) (rw p_off at none_active)))
    | inr other ↦
        rw other (rw p_off (put_active ps t t' (rw other at h) on (rw p_off at none_active)))
  ]
]

no_rival :
    (id : ℕ) (rows : List RiskPolicy)
    → active_policies rows ≡ []
    → select (λ r. is_active_policy r.status && not (r.id == id)) rows ≡ []
unfolding select
no_rival id [] h = refl
no_rival id (p ∷ ps) h = elim (Bool-cases (is_active_policy p.status)) [
  | inl on ↦ absurd (let x : p ∷ active_policies ps ≡ [] = rw on at h in cc)
  | inr off ↦ rw off (no_rival id ps (rw off at h))
]

admissible_retired :
    (rows : List RiskPolicy)
    → All (λ p. is_admissible_policy p ≡ true) rows
    → (id : ℕ) (t : RiskPolicy) → find policy_key id rows ≡ some t
    → is_admissible_policy t ≡ true
admissible_retired rows all id t found =
    All-find policy_key (λ p. is_admissible_policy p ≡ true) id rows t all found

-- The flush of an admissible policy when no other is active.
saved_alone :
    (p : RiskPolicy) (db : Db)
    → is_admissible_policy p ≡ true
    → active_policies db.risk_policies ≡ []
    → save_policy p db ≡ (ok p, record db { risk_policies = put policy_key p db.risk_policies })
unfolding save_policy
saved_alone p db good none_active =
    let alone = no_rival p.id db.risk_policies none_active in rw good (rw alone (ground arith))

module _ (now id : ℕ) (db : Db)
    (admissible : All (λ p. is_admissible_policy p ≡ true) db.risk_policies)
    (one : HasOneActive db.risk_policies) where
  abbrev pub IsActivated : RiskPolicy → Db → Type 0
  IsActivated p db' = (p.id ≡ id) × (active_policies db'.risk_policies ≡ p ∷ [])

  abbrev pub IsRefused : Error → Db → Type 0
  IsRefused e db' = (e ≡ risk_policy_error) × (db' ≡ db)

  activate_found :
      (t : RiskPolicy)
      → find policy_key id db.risk_policies ≡ some t
      → EndsBy IsRefused IsActivated (activate_draft now t db)
  unfolding activate_draft save_policy
  activate_found t found = elim (Bool-cases (is_active_policy t.status)) [
    | inl on ↦ rw on (
      find-key policy_key id db.risk_policies t found,
      only_active id db.risk_policies t found on one,
    )
    | inr off ↦ elim (Bool-cases (is_draft_policy t.status)) [
      | inr other ↦ rw off (rw other (refl, refl))
      | inl fresh ↦
          let good = admissible_retired db.risk_policies admissible id t found in
          let t' : RiskPolicy = record t {
            status = active;
            effective_from = some now;
            activated_at = some now;
          } in
          let rows = retire_active db.risk_policies in
          let db' : Db = record db { risk_policies = rows } in
          let e : save_policy t' db'
              ≡ (ok t', record db' { risk_policies = put policy_key t' rows }) =
            saved_alone t' db' (unfold is_admissible_policy in good)
              (retired_none db.risk_policies) in
          let same = find-key policy_key id db.risk_policies t found in
          rw off (
            rw fresh (
              EndsBy-at IsRefused IsActivated (save_policy t' db') _ e (
                same,
                put_active rows t t'
                    (ap (λ i. find policy_key i rows) same
                      ∙ find-retired id db.risk_policies t found off)
                    refl (retired_none db.risk_policies),
              )))
    ]
  ]

  -- Where the policies on record obey their check constraints and at most one is active, an
  -- activation returns the policy of the given id, which is then the only active one; or it raises
  -- RiskPolicyError and has written nothing.
  pub activate_risk_policy_lem : EndsBy IsRefused IsActivated (activate_risk_policy now id db)
  unfolding activate_risk_policy
  activate_risk_policy_lem = elim (Option-cases (find policy_key id db.risk_policies)) [
    | inl absent ↦ rw absent (refl, refl)
    | inr (t, found) ↦ rw found (activate_found t found)
  ]
