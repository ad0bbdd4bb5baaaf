-- ===== src/Withdrawal/Calls/Outcome.antt =====
-- How the calls on a request on record end.
use mathlib.Core.Path.{subst}
use gigveyro.Common.{
  ℕ, ◌≡◌, refl, ap, ◌∙◌, Option, none, some, List, [], ◌∷◌, ◌⊎◌, ◌==◌, arith, Bool-cases, inl, inr,
}
use gigveyro.Common.Int.{ℤ}
use gigveyro.Common.Table.{find-key, put}
use gigveyro.Models.Ledger.{LedgerEntry, LedgerEntryType, withdrawal_release, withdrawal_paid}
use gigveyro.Models.Withdrawal.{
  Text, Withdrawal, WithdrawalStatus, withdrawal_key, pending, approved, paid, rejected, cancelled,
  is_pending, is_approved, is_paid, is_rejected, is_cancelled,
}
use gigveyro.Db.{Db}
use gigveyro.Db.WithdrawalQueries.{find_withdrawal}
use gigveyro.Deal.Profit.{Any}
use gigveyro.Deal.Session.{IsConsistent}
use gigveyro.Wallet.Posting.{EndsBy}
use gigveyro.Wallet.Posting.Rules.{EndsBy-weaken}
use gigveyro.Withdrawal.{actioned}
use gigveyro.Withdrawal.Requests.{
  Movement, with_comment, close, move_and_close, cancel_locked, approve_locked, reject_locked,
  mark_paid_locked,
}
use gigveyro.Withdrawal.Calls.{Kind, table}
use gigveyro.Withdrawal.Calls.Tracking.{
  IsBooked, IsTracked, Adds, rows_for, own_request, other_rows,
}
use gigveyro.Withdrawal.Calls.Movements.{Effect, IsMovement}
use gigveyro.Withdrawal.Calls.Closing.{Leaves, MovesAndCloses, move_and_close-Leaves, close-Leaves}

with_comment-id : (comment : Option Text) (w : Withdrawal) → (with_comment comment w).id ≡ w.id
with_comment-id none w = refl
with_comment-id (some []) w = refl
with_comment-id (some (c ∷ cs)) w = refl

-- The row that gives the amount of an open request back, or that pays it, changes its status in
-- the ledger.
module _ (id : ℕ) (ledger ledger' : List LedgerEntry) where
  released :
      IsBooked id pending ledger
      → Adds id withdrawal_release ledger ledger'
      → IsBooked id cancelled ledger'
  released b p = (
    (p.entry, own_request id withdrawal_release ledger ledger' p ∙ ap (λ l. p.entry ∷ l) b.0),
    other_rows id withdrawal_release ledger ledger' p withdrawal_paid (omega arith) ∙ b.1,
  )

  paid_out :
      IsBooked id approved ledger
      → Adds id withdrawal_paid ledger ledger'
      → IsBooked id paid ledger'
  paid_out b p = (
    other_rows id withdrawal_paid ledger ledger' p withdrawal_release (omega arith) ∙ b.0,
    (p.entry, own_request id withdrawal_paid ledger ledger' p ∙ ap (λ l. p.entry ∷ l) b.1),
  )

module _ (share : ℕ → ℤ) (k : Kind) (id : ℕ) (w : Withdrawal) (db : Db) where
  -- The request has this status already, and nothing is written; or it had the status `s₀`, and
  -- takes the new one as `Changes` says.
  abbrev pub Ending :
      WithdrawalStatus → WithdrawalStatus → (Withdrawal → Db → Type 0) → Withdrawal → Db → Type 0
  Ending s s₀ Changes w' db' =
      Leaves share k id s w' db' × (((w' ≡ w) × (db' ≡ db)) ⊎ ((w.status ≡ s₀) × Changes w' db'))

  -- An approval writes the row of the request only.
  abbrev pub Approves : ℕ → ℕ → Option Text → Withdrawal → Db → Type 0
  Approves now owner_id comment w' db' =
      (w' ≡ actioned now approved owner_id (with_comment comment w))
      × (db' ≡ (table k).write (put withdrawal_key w' ((table k).rows db)) db)

module _ (share : ℕ → ℤ) (k : Kind) (id : ℕ) (w : Withdrawal) (db : Db) (c : IsConsistent share db)
    (tracked : IsTracked db) (found : find_withdrawal (table k) id db ≡ some w) where
  same_id : w.id ≡ id
  same_id = find-key withdrawal_key id ((table k).rows db) w found

  commented : (comment : Option Text) → (with_comment comment w).id ≡ id
  commented comment = with_comment-id comment w ∙ same_id

  status-IsBooked : (s : WithdrawalStatus) → w.status ≡ s → IsBooked id s db.ledger
  status-IsBooked s h = subst (λ x. IsBooked id x db.ledger) h (tracked.booked k id w found)

  unchanged :
      (s s₀ : WithdrawalStatus) (Changes : Withdrawal → Db → Type 0)
      → w.status ≡ s
      → Ending share k id w db s s₀ Changes w db
  unchanged s s₀ Changes h =
      (record { consistent = c; tracked = tracked; recorded = found; status = h }, inl (refl, refl))

  module _ (move : Movement) (t : LedgerEntryType) (Moves : Effect) (M : IsMovement move t Moves)
      (now account_id : ℕ) (s s₀ : WithdrawalStatus) (actor_id : ℕ) (w₁ : Withdrawal)
      (same : w₁.id ≡ id) where
    abbrev Moved : Withdrawal → Db → Type 0
    Moved = MovesAndCloses k id db Moves now account_id w₁ s actor_id

    ending :
        w.status ≡ s₀
        → rows_for id t db ≡ []
        → ((ledger : List LedgerEntry) → Adds id t db.ledger ledger → IsBooked id s ledger)
        → EndsBy Any
            (Ending share k id w db s s₀ Moved)
            (move_and_close (table k) move now account_id w₁ s actor_id db)
    ending h unused booked =
        EndsBy-weaken Any Any (λ w' db'. Leaves share k id s w' db' × Moved w' db')
          (Ending share k id w db s s₀ Moved)
          (move_and_close (table k) move now account_id w₁ s actor_id db) (λ e db' x. x)
          (λ w' db' x. (x.0, inr (h, x.1)))
          (move_and_close-Leaves share k id w db c tracked found move t Moves M now account_id w₁ s
            actor_id same unused booked)

  pub cancel-Ending :
      (release : Movement) (Moves : Effect) (M : IsMovement release withdrawal_release Moves)
      (now account_id : ℕ)
      → EndsBy Any
          (λ w' db'.
            (w.account_id ≡ account_id)
            × Ending share k id w db cancelled pending
                (MovesAndCloses k id db Moves now account_id w cancelled account_id)
                w'
                db')
          (cancel_locked (table k) release now account_id w db)
  unfolding cancel_locked
  cancel-Ending release Moves M now account_id = elim (Bool-cases (w.account_id == account_id)) [
    | inr other ↦ rw other tt
    | inl own ↦ rw own (elim (Bool-cases (is_cancelled w.status)) [
      | inl done ↦ rw done (
        ground (arith, own),
        unchanged cancelled pending
            (MovesAndCloses k id db Moves now account_id w cancelled account_id)
            (ground (arith, done)),
      )
      | inr undone ↦ rw undone (elim (Bool-cases (is_pending w.status)) [
        | inr other ↦ rw other tt
        | inl new ↦
            let h : w.status ≡ pending = ground (arith, new) in
            rw new (
              EndsBy-weaken Any Any
                (Ending share k id w db cancelled pending
                  (MovesAndCloses k id db Moves now account_id w cancelled account_id))
                (λ w' db'.
                  (w.account_id ≡ account_id)
                  × Ending share k id w db cancelled pending
                      (MovesAndCloses k id db Moves now account_id w cancelled account_id) w' db')
                (move_and_close (table k) release now account_id w cancelled account_id db)
                (λ e db' x. x) (λ w' db' x. (ground (arith, own), x))
                (ending release withdrawal_release Moves M now account_id cancelled pending
                  account_id w same_id h (status-IsBooked pending h).0
                  (λ ledger p. released id db.ledger ledger (status-IsBooked pending h) p)))
      ])
    ])
  ]

  pub reject-Ending :
      (release : Movement) (Moves : Effect) (M : IsMovement release withdrawal_release Moves)
      (now owner_id : ℕ) (comment : Option Text)
      → EndsBy Any
          (Ending share k id w db rejected pending (
            MovesAndCloses k id db Moves now w.account_id
              (with_comment comment w)
              rejected
              owner_id))
          (reject_locked (table k) release now owner_id comment w db)
  unfolding reject_locked
  reject-Ending release Moves M now owner_id comment = elim (Bool-cases (is_rejected w.status)) [
    | inl done ↦ rw done (
        unchanged rejected pending
          (MovesAndCloses k id db Moves now w.account_id (with_comment comment w) rejected owner_id)
          (ground (arith, done)))
    | inr undone ↦ rw undone (elim (Bool-cases (is_pending w.status)) [
      | inr other ↦ rw other tt
      | inl new ↦
          let h : w.status ≡ pending = ground (arith, new) in
          rw new (
            ending release withdrawal_release Moves M now w.account_id rejected pending owner_id
              (with_comment comment w) (commented comment) h (status-IsBooked pending h).0
              (λ ledger p. released id db.ledger ledger (status-IsBooked pending h) p))
    ])
  ]

  pub mark_paid-Ending :
      (pay : Movement) (Moves : Effect) (M : IsMovement pay withdrawal_paid Moves)
      (now owner_id : ℕ) (comment : Option Text)
      → EndsBy Any
          (Ending share k id w db paid approved
            (MovesAndCloses k id db Moves now w.account_id (with_comment comment w) paid owner_id))
          (mark_paid_locked (table k) pay now owner_id comment w db)
  unfolding mark_paid_locked
  mark_paid-Ending pay Moves M now owner_id comment = elim (Bool-cases (is_paid w.status)) [
    | inl done ↦ rw done (
        unchanged paid approved
          (MovesAndCloses k id db Moves now w.account_id (with_comment comment w) paid owner_id)
          (ground (arith, done)))
    | inr undone ↦ rw undone (elim (Bool-cases (is_approved w.status)) [
      | inr other ↦ rw other tt
      | inl ready ↦
          let h : w.status ≡ approved = ground (arith, ready) in
          rw ready (
            ending pay withdrawal_paid Moves M now w.account_id paid approved owner_id
              (with_comment comment w) (commented comment) h (status-IsBooked approved h).1
              (λ ledger p. paid_out id db.ledger ledger (status-IsBooked approved h) p))
    ])
  ]

  pub approve-Ending :
      (now owner_id : ℕ) (comment : Option Text)
      → EndsBy Any
          (Ending share k id w db approved pending (Approves share k id w db now owner_id comment))
          (approve_locked (table k) now owner_id comment w db)
  unfolding approve_locked
  approve-Ending now owner_id comment = elim (Bool-cases (is_approved w.status)) [
    | inl done ↦ rw done (
        unchanged approved pending (Approves share k id w db now owner_id comment)
          (ground (arith, done)))
    | inr undone ↦ rw undone (elim (Bool-cases (is_pending w.status)) [
      | inr other ↦ rw other tt
      | inl new ↦
          let h : w.status ≡ pending = ground (arith, new) in
          rw new (
            EndsBy-weaken Any Any
              (λ w' db'.
                Leaves share k id approved w' db'
                × (w' ≡ actioned now approved owner_id (with_comment comment w))
                × (db' ≡ (table k).write (put withdrawal_key w' ((table k).rows db)) db))
              (Ending share k id w db approved pending
                (Approves share k id w db now owner_id comment))
              (close (table k) now (with_comment comment w) approved owner_id db) (λ e db' x. x)
              (λ w' db' x. (x.0, inr (h, (x.1, x.2))))
              (close-Leaves share k id w now approved owner_id (with_comment comment w) db
                (record {
                  consistent = c;
                  found = found;
                  booked = status-IsBooked pending h;
                  others = λ k' i v old other. tracked.booked k' i v old;
                  separate = tracked.separate;
                })
                (commented comment)))
    ])
  ]
