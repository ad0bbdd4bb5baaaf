-- ===== src/Withdrawal/Calls/Sequences.antt =====
-- Any sequence of calls on the requests, and what a request that is over allows.
use mathlib.Core.Path.{subst}
use gigveyro.Common.{
  sym, ap, ℕ, ◌≡◌, refl, Bool, true, false, Option, some, List, [], ◌∷◌, ◌⊎◌, inl, inr, arith,
  Bool-cases, ◌==◌,
}
use gigveyro.Common.Int.{ℤ}
use gigveyro.Models.Withdrawal.{
  Text, Withdrawal, WithdrawalStatus, approved, paid, rejected, cancelled, is_paid, is_pending,
  is_approved, is_rejected, is_cancelled,
}
use gigveyro.Db.{
  Db, Action, ◌>>=◌, or_raise, Result, ok, err, request, invalid_withdrawal_transition,
  withdrawal_not_found,
}
use gigveyro.Db.WithdrawalQueries.{
  WithdrawalTable, find_withdrawal, lock_withdrawal, merchant_withdrawals, user_withdrawals,
  team_lead_withdrawals,
}
use gigveyro.Wallet.Withdrawals.{
  release_for_withdrawal, release_for_user_withdrawal, pay_for_user_withdrawal,
}
use gigveyro.Deal.Profit.{Any}
use gigveyro.Deal.Session.{IsConsistent}
use gigveyro.Wallet.Posting.{EndsBy}
use gigveyro.Wallet.Posting.Rules.{EndsBy-weaken}
use gigveyro.Withdrawal.Merchant
use gigveyro.Withdrawal.User
use gigveyro.Withdrawal.TeamLead
use gigveyro.Withdrawal.Requests.{
  Movement, cancel_locked, approve_locked, reject_locked, mark_paid_locked,
}
use gigveyro.Withdrawal.Calls.{
  Kind, merchant, user, team_lead, table, Call, cancel, approve, reject, mark_paid, act, serve,
  serve_all,
}
use gigveyro.Withdrawal.Calls.Tracking.{IsTracked}
use gigveyro.Withdrawal.Calls.Closing.{Leaves}
use gigveyro.Withdrawal.Calls.Effects.{cancel_lem, approve_lem, reject_lem, mark_paid_lem}

abbrev pub kind_of : Call → Kind
kind_of (cancel k now actor id) = k
kind_of (approve k now actor id comment) = k
kind_of (reject k now actor id comment) = k
kind_of (mark_paid k now actor id comment) = k

abbrev pub id_of : Call → ℕ
id_of (cancel k now actor id) = id
id_of (approve k now actor id comment) = id
id_of (reject k now actor id comment) = id
id_of (mark_paid k now actor id comment) = id

-- The status that a call aims at.
abbrev pub target : Call → WithdrawalStatus
target (cancel k now actor id) = cancelled
target (approve k now actor id comment) = approved
target (reject k now actor id comment) = rejected
target (mark_paid k now actor id comment) = paid

module _ (share : ℕ → ℤ) (db : Db) (c : IsConsistent share db) (tracked : IsTracked db) where
  -- From a consistent session that tracks its requests, a call that returns leaves such a session
  -- again, in which the row of the request is on record as returned, with the status that the call
  -- aims at.
  pub act_lem :
      (call : Call)
      → EndsBy Any (Leaves share (kind_of call) (id_of call) (target call)) (act call db)
  act_lem (cancel k now actor id) =
      EndsBy-weaken Any Any _ (Leaves share k id cancelled) (act (cancel k now actor id) db)
        (λ e db' x. x) (λ w' db' x. x.2.1.0) (cancel_lem share db c tracked id k now actor)
  act_lem (approve k now actor id comment) =
      EndsBy-weaken Any Any _ (Leaves share k id approved) (act (approve k now actor id comment) db)
        (λ e db' x. x) (λ w' db' x. x.2.0) (approve_lem share db c tracked id k now actor comment)
  act_lem (reject k now actor id comment) =
      EndsBy-weaken Any Any _ (Leaves share k id rejected) (act (reject k now actor id comment) db)
        (λ e db' x. x) (λ w' db' x. x.2.0) (reject_lem share db c tracked id k now actor comment)
  act_lem (mark_paid k now actor id comment) =
      EndsBy-weaken Any Any _ (Leaves share k id paid) (act (mark_paid k now actor id comment) db)
        (λ e db' x. x) (λ w' db' x. x.2.0) (mark_paid_lem share db c tracked id k now actor comment)

  abbrev InOrder : Db → Type 0
  InOrder db' = IsConsistent share db' × IsTracked db'

  committed :
      (call : Call) (x : Result Withdrawal × Db)
      → EndsBy Any (Leaves share (kind_of call) (id_of call) (target call)) x
      → InOrder (
          (elim x.0 as (λ _. Result Withdrawal × Db) [
            | ok a ↦ (ok a, x.1)
            | err e ↦ (err e, db)
          ]).1)
  committed call (ok w, db') h = (h.consistent, h.tracked)
  committed call (err e, db') h = (c, tracked)

  serve-IsTracked : (call : Call) → InOrder (serve call db)
  unfolding serve request
  serve-IsTracked call = committed call (act call db) (act_lem call)

-- Whatever calls the owner and the requesters make, one request each and in any order, from a
-- consistent session that tracks its requests, the session stays such: no balance is negative, every
-- settlement is whole, and of every request on record the reserved amount has been given back once
-- if it is REJECTED or CANCELLED and else never, and paid out once if it is PAID and else never.
pub serve_all-IsTracked :
    (share : ℕ → ℤ) (db : Db) (calls : List Call)
    → IsConsistent share db
    → IsTracked db
    → IsConsistent share (serve_all calls db) × IsTracked (serve_all calls db)
unfolding serve_all
serve_all-IsTracked share db [] c tracked = (c, tracked)
serve_all-IsTracked share db (call ∷ calls) c tracked =
    let first = serve-IsTracked share db c tracked call in
    serve_all-IsTracked share (serve call db) calls first.0 first.1

abbrev pub is_over : WithdrawalStatus → Bool
is_over paid = true
is_over rejected = true
is_over cancelled = true
is_over _ = false

-- The call returns the request as it is, or refuses, and writes nothing.
abbrev pub Stays : Withdrawal → Db → Result Withdrawal × Db → Type 0
Stays w db x =
    (x ≡ (ok w, db))
    ⊎ ((x ≡ (err withdrawal_not_found, db)) ⊎ (x ≡ (err invalid_withdrawal_transition, db)))

module _ (T : WithdrawalTable) (w : Withdrawal) (db : Db) (over : is_over w.status ≡ true)
    (now actor : ℕ) where
  cancel-Stays : (release : Movement) → Stays w db (cancel_locked T release now actor w db)
  unfolding cancel_locked
  cancel-Stays release = elim (Bool-cases (w.account_id == actor)) [
    | inr other ↦ inr (inl (rw other refl))
    | inl own ↦ elim (Bool-cases (is_cancelled w.status)) [
      | inl done ↦ inl (rw own (rw done refl))
      | inr undone ↦
          let closed : is_pending w.status ≡ false = ground (arith, over) in
          inr (inr (rw own (rw undone (rw closed refl))))
    ]
  ]

  approve-Stays : (comment : Option Text) → Stays w db (approve_locked T now actor comment w db)
  unfolding approve_locked
  approve-Stays comment =
      let open_not : is_approved w.status ≡ false = ground (arith, over) in
      let closed : is_pending w.status ≡ false = ground (arith, over) in
      inr (inr (rw open_not (rw closed refl)))

  reject-Stays :
      (release : Movement) (comment : Option Text)
      → Stays w db (reject_locked T release now actor comment w db)
  unfolding reject_locked
  reject-Stays release comment = elim (Bool-cases (is_rejected w.status)) [
    | inl done ↦ inl (rw done refl)
    | inr undone ↦
        let closed : is_pending w.status ≡ false = ground (arith, over) in
        inr (inr (rw undone (rw closed refl)))
  ]

  mark_paid-Stays :
      (pay : Movement) (comment : Option Text)
      → Stays w db (mark_paid_locked T pay now actor comment w db)
  unfolding mark_paid_locked
  mark_paid-Stays pay comment = elim (Bool-cases (is_paid w.status)) [
    | inl done ↦ inl (rw done refl)
    | inr undone ↦
        let closed : is_approved w.status ≡ false = ground (arith, over) in
        inr (inr (rw undone (rw closed refl)))
  ]

merchant-Stays :
    (w : Withdrawal) (db : Db)
    → is_over w.status ≡ true
    → Stays w db (Merchant.mark_paid_locked w db)
unfolding Merchant.mark_paid_locked
merchant-Stays w db over = elim (Bool-cases (is_paid w.status)) [
  | inl done ↦ inl (rw done refl)
  | inr undone ↦
      let closed : is_approved w.status ≡ false = ground (arith, over) in
      inr (inr (rw undone (rw closed refl)))
]

locked-Stays :
    (k : Kind) (id : ℕ) (w : Withdrawal) (db : Db) (rest : Withdrawal → Action Withdrawal)
    → find_withdrawal (table k) id db ≡ some w
    → Stays w db (rest w db)
    → Stays w db ((lock_withdrawal (table k) id >>= rest) db)
locked-Stays k id w db rest found h =
    subst (Stays w db)
      (ap (λ o. ((λ d. or_raise o withdrawal_not_found d) >>= rest) db) (sym found)) h

-- A call on a request that is PAID, REJECTED or CANCELLED changes nothing: it returns the request
-- as it is, or raises.
pub act-final :
    (db : Db) (call : Call) (w : Withdrawal)
    → find_withdrawal (table (kind_of call)) (id_of call) db ≡ some w
    → is_over w.status ≡ true
    → Stays w db (act call db)
unfolding act Merchant.cancel_by_merchant User.cancel_by_user TeamLead.cancel_by_team_lead
    Merchant.reject_by_owner User.reject_by_owner TeamLead.reject_by_owner Merchant.approve_by_owner
    User.approve_by_owner TeamLead.approve_by_owner Merchant.mark_paid_by_owner
    User.mark_paid_by_owner TeamLead.mark_paid_by_owner
act-final db (cancel merchant now actor id) w found over =
    locked-Stays merchant id w db
      (cancel_locked merchant_withdrawals release_for_withdrawal now actor) found
      (cancel-Stays merchant_withdrawals w db over now actor release_for_withdrawal)
act-final db (cancel user now actor id) w found over =
    locked-Stays user id w db (cancel_locked user_withdrawals release_for_user_withdrawal now actor)
      found (cancel-Stays user_withdrawals w db over now actor release_for_user_withdrawal)
act-final db (cancel team_lead now actor id) w found over =
    locked-Stays team_lead id w db
      (cancel_locked team_lead_withdrawals release_for_user_withdrawal now actor) found
      (cancel-Stays team_lead_withdrawals w db over now actor release_for_user_withdrawal)
act-final db (approve merchant now actor id comment) w found over =
    locked-Stays merchant id w db (approve_locked merchant_withdrawals now actor comment) found
      (approve-Stays merchant_withdrawals w db over now actor comment)
act-final db (approve user now actor id comment) w found over =
    locked-Stays user id w db (approve_locked user_withdrawals now actor comment) found
      (approve-Stays user_withdrawals w db over now actor comment)
act-final db (approve team_lead now actor id comment) w found over =
    locked-Stays team_lead id w db (approve_locked team_lead_withdrawals now actor comment) found
      (approve-Stays team_lead_withdrawals w db over now actor comment)
act-final db (reject merchant now actor id comment) w found over =
    locked-Stays merchant id w db
      (reject_locked merchant_withdrawals release_for_withdrawal now actor comment) found
      (reject-Stays merchant_withdrawals w db over now actor release_for_withdrawal comment)
act-final db (reject user now actor id comment) w found over =
    locked-Stays user id w db
      (reject_locked user_withdrawals release_for_user_withdrawal now actor comment) found
      (reject-Stays user_withdrawals w db over now actor release_for_user_withdrawal comment)
act-final db (reject team_lead now actor id comment) w found over =
    locked-Stays team_lead id w db
      (reject_locked team_lead_withdrawals release_for_user_withdrawal now actor comment) found
      (reject-Stays team_lead_withdrawals w db over now actor release_for_user_withdrawal comment)
act-final db (mark_paid merchant now actor id comment) w found over =
    locked-Stays merchant id w db Merchant.mark_paid_locked found (merchant-Stays w db over)
act-final db (mark_paid user now actor id comment) w found over =
    locked-Stays user id w db
      (mark_paid_locked user_withdrawals pay_for_user_withdrawal now actor comment) found
      (mark_paid-Stays user_withdrawals w db over now actor pay_for_user_withdrawal comment)
act-final db (mark_paid team_lead now actor id comment) w found over =
    locked-Stays team_lead id w db
      (mark_paid_locked team_lead_withdrawals pay_for_user_withdrawal now actor comment) found
      (mark_paid-Stays team_lead_withdrawals w db over now actor pay_for_user_withdrawal comment)
