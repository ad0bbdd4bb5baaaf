-- ===== src/Deal/Final.antt =====
-- A deal ends once: a second completion or cancellation changes nothing, and the other one raises.
use gigveyro.Common.{ℕ, ◌≡◌, Option, some, arith}
use gigveyro.Common.Int.{ℤ}
use gigveyro.Models.Deal.{Deal, completed, cancelled}
use gigveyro.Db.{Db, ok, err, invalid_deal_transition}
use gigveyro.Db.DealQueries.{find_deal}
use gigveyro.Deal.Session.{IsConsistent}
use gigveyro.Deal.Outcome.{LeavesEnded, complete_deal_lem, cancel_or_release_deal_lem}
use gigveyro.Deal.Service.{complete_deal, cancel_or_release_deal, complete_locked, cancel_locked}
use gigveyro.Deal.Payment.{Pays, Releases}

module _ (now : ℕ) (id : ℕ) (actor : Option ℕ) (d : Deal) (db : Db)
    (found : find_deal id db ≡ some d) where
  at_completed :
      d.status ≡ completed
      → (complete_deal now id actor db ≡ (ok d, db))
        × (cancel_or_release_deal now id db ≡ (err invalid_deal_transition, db))
  unfolding complete_deal cancel_or_release_deal complete_locked cancel_locked
  at_completed h = (ground (arith, found, h), ground (arith, found, h))

  at_cancelled :
      d.status ≡ cancelled
      → (cancel_or_release_deal now id db ≡ (ok d, db))
        × (complete_deal now id actor db ≡ (err invalid_deal_transition, db))
  unfolding complete_deal cancel_or_release_deal complete_locked cancel_locked
  at_cancelled h = (ground (arith, found, h), ground (arith, found, h))

module _ (share : ℕ → ℤ) (now now' : ℕ) (db db' : Db) (c : IsConsistent share db) (id : ℕ)
    (actor actor' : Option ℕ) (d : Deal) where
  -- Once complete_deal has returned from a consistent session, a second call returns the same deal
  -- and changes nothing, and cancel_or_release_deal raises.
  pub complete_deal-final :
      complete_deal now id actor db ≡ (ok d, db')
      → (complete_deal now' id actor' db' ≡ (ok d, db'))
        × (cancel_or_release_deal now' id db' ≡ (err invalid_deal_transition, db'))
  complete_deal-final h =
      let ended : LeavesEnded share now db c id completed
          (λ deal u a db'. Pays deal u a actor db db') d db' =
        rw h at (complete_deal_lem share now db c id actor) in
      let left = ended.2 in at_completed now' id actor' d db' left.recorded left.status

  -- Once cancel_or_release_deal has returned from a consistent session, a second call returns the
  -- same deal and changes nothing, and complete_deal raises.
  pub cancel_or_release_deal-final :
      cancel_or_release_deal now id db ≡ (ok d, db')
      → (cancel_or_release_deal now' id db' ≡ (ok d, db'))
        × (complete_deal now' id actor' db' ≡ (err invalid_deal_transition, db'))
  cancel_or_release_deal-final h =
      let ended : LeavesEnded share now db c id cancelled (λ deal u a db'. Releases deal u a db db')
          d db' =
        rw h at (cancel_or_release_deal_lem share now db c id) in
      let left = ended.2 in at_cancelled now' id actor' d db' left.recorded left.status
