-- ===== src/Withdrawal/Calls/Effects.antt =====
-- What each method of the three services does to the money and to the request.
use gigveyro.Common.{ℕ, ◌≡◌, refl, Option, some, arith, Bool-cases, inl, inr}
use gigveyro.Common.Int.{ℤ}
use gigveyro.Models.Withdrawal.{
  Text, Withdrawal, pending, approved, paid, rejected, cancelled, is_paid, is_approved,
}
use gigveyro.Models.Ledger.{withdrawal_release}
use gigveyro.Wallet.Withdrawals.{
  release_for_withdrawal, release_for_user_withdrawal, pay_for_user_withdrawal,
}
use gigveyro.Db.{Db, Action, ◌>>=◌, withdrawal_not_found}
use gigveyro.Db.WithdrawalQueries.{find_withdrawal, lock_withdrawal}
use gigveyro.Deal.Profit.{Any}
use gigveyro.Deal.Session.{IsConsistent}
use gigveyro.Wallet.Posting.{EndsBy}
use gigveyro.Wallet.Posting.Rules.{EndsBy-weaken, Reads-or_raise}
use gigveyro.Wallet.Posting.Reads.{EndsBy-Reads}
use gigveyro.Withdrawal.Merchant
use gigveyro.Withdrawal.User
use gigveyro.Withdrawal.TeamLead
use gigveyro.Withdrawal.Requests.{
  Movement, with_comment, cancel_locked, approve_locked, reject_locked, mark_paid_locked,
}
use gigveyro.Withdrawal.Calls.{
  Kind, merchant, user, team_lead, table, cancel, approve, reject, mark_paid, act,
}
use gigveyro.Withdrawal.Calls.Tracking.{IsTracked}
use gigveyro.Withdrawal.Calls.Movements.{
  Effect, IsMovement, Releases, ReleasesUser, PaysUser, release-IsMovement, release_user-IsMovement,
  pay_user-IsMovement,
}
use gigveyro.Withdrawal.Calls.Closing.{MovesAndCloses}
use gigveyro.Withdrawal.Calls.Outcome.{
  Ending, Approves, cancel-Ending, approve-Ending, reject-Ending, mark_paid-Ending,
}

-- How the amount of a request goes back to the available balance: out of the merchant's held
-- balance, or out of the frozen balance of the user or team lead.
abbrev pub GivesBack : Kind → Effect
GivesBack merchant = Releases
GivesBack user = ReleasesUser
GivesBack team_lead = ReleasesUser

-- How a payment by the owner ends: of a merchant's request nothing is ever moved; the reserved
-- amount of another request that was APPROVED leaves the frozen balance, once.
abbrev pub Pays : Kind → ℕ → Db → ℕ → ℕ → Option Text → Withdrawal → Withdrawal → Db → Type 0
Pays merchant id db now owner_id comment w w' db' = ⊥
Pays user id db now owner_id comment w w' db' =
    MovesAndCloses user id db PaysUser now w.account_id (with_comment comment w) paid owner_id w'
      db'
Pays team_lead id db now owner_id comment w w' db' =
    MovesAndCloses team_lead id db PaysUser now w.account_id (with_comment comment w) paid owner_id
      w' db'

module _ (share : ℕ → ℤ) (db : Db) (c : IsConsistent share db) (tracked : IsTracked db)
    (id : ℕ) where
  -- The method locks the request first.
  locked :
      (k : Kind) (Q : Withdrawal → Withdrawal → Db → Type 0) (rest : Withdrawal → Action Withdrawal)
      → ((w : Withdrawal) → find_withdrawal (table k) id db ≡ some w → EndsBy Any (Q w) (rest w db))
      → EndsBy Any
          (λ w' db'. (w : Withdrawal) × (find_withdrawal (table k) id db ≡ some w) × Q w w' db')
          ((lock_withdrawal (table k) id >>= rest) db)
  locked k Q rest h =
      EndsBy-Reads Any
        (λ w' db'. (w : Withdrawal) × (find_withdrawal (table k) id db ≡ some w) × Q w w' db') db
        (λ w. find_withdrawal (table k) id db ≡ some w) rest (λ e x. tt)
        (lock_withdrawal (table k) id)
        (Reads-or_raise db (find_withdrawal (table k) id db) withdrawal_not_found tt)
        (λ w found.
          EndsBy-weaken Any Any (Q w)
            (λ w' db'. (w : Withdrawal) × (find_withdrawal (table k) id db ≡ some w) × Q w w' db')
            (rest w db) (λ e db' x. x) (λ w' db' q. (w, found, q)) (h w found))

  cancel_at :
      (k : Kind) (release : Movement) (Moves : Effect)
      → IsMovement release withdrawal_release Moves
      → (now account_id : ℕ)
      → EndsBy Any
          (λ w' db'.
            (w : Withdrawal) × (find_withdrawal (table k) id db ≡ some w)
            × ((w.account_id ≡ account_id)
                × Ending share k id w db cancelled pending
                    (MovesAndCloses k id db Moves now account_id w cancelled account_id)
                    w'
                    db'))
          ((lock_withdrawal (table k) id >>= cancel_locked (table k) release now account_id) db)
  cancel_at k release Moves M now account_id =
      locked k
        (λ w w' db'.
          (w.account_id ≡ account_id)
          × Ending share k id w db cancelled pending
              (MovesAndCloses k id db Moves now account_id w cancelled account_id) w' db')
        (cancel_locked (table k) release now account_id)
        (λ w found. cancel-Ending share k id w db c tracked found release Moves M now account_id)

  reject_at :
      (k : Kind) (release : Movement) (Moves : Effect)
      → IsMovement release withdrawal_release Moves
      → (now owner_id : ℕ) (comment : Option Text)
      → EndsBy Any
          (λ w' db'.
            (w : Withdrawal) × (find_withdrawal (table k) id db ≡ some w)
            × Ending share k id w db rejected pending
                (MovesAndCloses k id db Moves now w.account_id
                  (with_comment comment w)
                  rejected
                  owner_id)
                w'
                db')
          ((lock_withdrawal (table k) id >>= reject_locked (table k) release now owner_id comment)
            db)
  reject_at k release Moves M now owner_id comment =
      locked k
        (λ w. Ending share k id w db rejected pending (
          MovesAndCloses k id db Moves now w.account_id (with_comment comment w) rejected owner_id))
        (reject_locked (table k) release now owner_id comment)
        (λ w found.
          reject-Ending share k id w db c tracked found release Moves M now owner_id comment)

  approve_at :
      (k : Kind) (now owner_id : ℕ) (comment : Option Text)
      → EndsBy Any
          (λ w' db'.
            (w : Withdrawal) × (find_withdrawal (table k) id db ≡ some w)
            × Ending share k id w db approved pending
                (Approves share k id w db now owner_id comment)
                w'
                db')
          ((lock_withdrawal (table k) id >>= approve_locked (table k) now owner_id comment) db)
  approve_at k now owner_id comment =
      locked k
        (λ w.
          Ending share k id w db approved pending (Approves share k id w db now owner_id comment))
        (approve_locked (table k) now owner_id comment)
        (λ w found. approve-Ending share k id w db c tracked found now owner_id comment)

  mark_paid_at :
      (k : Kind) (now owner_id : ℕ) (comment : Option Text)
      → EndsBy Any
          (λ w' db'.
            (w : Withdrawal) × (find_withdrawal (table k) id db ≡ some w)
            × Ending share k id w db paid approved
                (MovesAndCloses k id db PaysUser now w.account_id
                  (with_comment comment w)
                  paid
                  owner_id)
                w'
                db')
          ((lock_withdrawal (table k) id
              >>= mark_paid_locked (table k) pay_for_user_withdrawal now owner_id comment)
            db)
  mark_paid_at k now owner_id comment =
      locked k
        (λ w.
          Ending share k id w db paid approved (
            MovesAndCloses k id db PaysUser now w.account_id (with_comment comment w) paid
              owner_id))
        (mark_paid_locked (table k) pay_for_user_withdrawal now owner_id comment)
        (λ w found.
          mark_paid-Ending share k id w db c tracked found pay_for_user_withdrawal PaysUser
            pay_user-IsMovement now owner_id comment)

  -- From a consistent session that tracks its requests, a cancellation that returns is the requester's own, and leaves the request CANCELLED: it was so
  -- before and nothing is written, or it was PENDING and the reserved amount is moved back, once,
  -- before its row is flushed. The session is consistent and tracks its requests.
  pub cancel_lem :
      (k : Kind) (now account_id : ℕ)
      → EndsBy Any
          (λ w' db'.
            (w : Withdrawal) × (find_withdrawal (table k) id db ≡ some w)
            × ((w.account_id ≡ account_id)
                × Ending share k id w db cancelled pending
                    (MovesAndCloses k id db (GivesBack k) now account_id w cancelled account_id)
                    w'
                    db'))
          (act (cancel k now account_id id) db)
  unfolding act Merchant.cancel_by_merchant User.cancel_by_user TeamLead.cancel_by_team_lead
  cancel_lem merchant = cancel_at merchant release_for_withdrawal Releases release-IsMovement
  cancel_lem user = cancel_at user release_for_user_withdrawal ReleasesUser release_user-IsMovement
  cancel_lem team_lead =
      cancel_at team_lead release_for_user_withdrawal ReleasesUser release_user-IsMovement

  -- From a consistent session that tracks its requests, a rejection that returns leaves the request REJECTED: it was so before and nothing is written,
  -- or it was PENDING and the reserved amount is moved back, once, before its row is flushed. The
  -- session is consistent and tracks its requests.
  pub reject_lem :
      (k : Kind) (now owner_id : ℕ) (comment : Option Text)
      → EndsBy Any
          (λ w' db'.
            (w : Withdrawal) × (find_withdrawal (table k) id db ≡ some w)
            × Ending share k id w db rejected pending
                (MovesAndCloses k id db
                  (GivesBack k)
                  now
                  w.account_id
                  (with_comment comment w)
                  rejected
                  owner_id)
                w'
                db')
          (act (reject k now owner_id id comment) db)
  unfolding act Merchant.reject_by_owner User.reject_by_owner TeamLead.reject_by_owner
  reject_lem merchant = reject_at merchant release_for_withdrawal Releases release-IsMovement
  reject_lem user = reject_at user release_for_user_withdrawal ReleasesUser release_user-IsMovement
  reject_lem team_lead =
      reject_at team_lead release_for_user_withdrawal ReleasesUser release_user-IsMovement

  -- From a consistent session that tracks its requests, an approval that returns leaves the request APPROVED: it was so before and nothing is written,
  -- or it was PENDING and only its row is flushed. The session is consistent and tracks its
  -- requests.
  pub approve_lem :
      (k : Kind) (now owner_id : ℕ) (comment : Option Text)
      → EndsBy Any
          (λ w' db'.
            (w : Withdrawal) × (find_withdrawal (table k) id db ≡ some w)
            × Ending share k id w db approved pending
                (Approves share k id w db now owner_id comment)
                w'
                db')
          (act (approve k now owner_id id comment) db)
  unfolding act Merchant.approve_by_owner User.approve_by_owner TeamLead.approve_by_owner
  approve_lem merchant = approve_at merchant
  approve_lem user = approve_at user
  approve_lem team_lead = approve_at team_lead

  -- From a consistent session that tracks its requests, a payment by the owner that returns leaves the request PAID: it was so before and nothing is
  -- written, or it is a user's or a team lead's request that was APPROVED, and the reserved amount
  -- leaves the frozen balance, once, before its row is flushed. A merchant's request that is not
  -- PAID is never paid in this way. The session is consistent and tracks its requests.
  pub mark_paid_lem :
      (k : Kind) (now owner_id : ℕ) (comment : Option Text)
      → EndsBy Any
          (λ w' db'.
            (w : Withdrawal) × (find_withdrawal (table k) id db ≡ some w)
            × Ending share k id w db paid approved (Pays k id db now owner_id comment w) w' db')
          (act (mark_paid k now owner_id id comment) db)
  unfolding act Merchant.mark_paid_by_owner Merchant.mark_paid_locked User.mark_paid_by_owner
      TeamLead.mark_paid_by_owner
  mark_paid_lem merchant now owner_id comment =
      locked merchant
        (λ w.
          Ending share merchant id w db paid approved (Pays merchant id db now owner_id comment w))
        Merchant.mark_paid_locked
        λ w found. elim (Bool-cases (is_paid w.status)) [
          | inl done ↦ rw done (
            record {
              consistent = c;
              tracked = tracked;
              recorded = found;
              status = ground (arith, done);
            },
            inl (refl, refl),
          )
          | inr undone ↦ rw undone (elim (Bool-cases (is_approved w.status)) [
            | inl ready ↦ rw ready tt
            | inr other ↦ rw other tt
          ])
        ]
  mark_paid_lem user now owner_id comment = mark_paid_at user now owner_id comment
  mark_paid_lem team_lead now owner_id comment = mark_paid_at team_lead now owner_id comment
