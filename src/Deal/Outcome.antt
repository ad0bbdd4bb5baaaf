-- ===== src/Deal/Outcome.antt =====
-- How complete_deal and cancel_or_release_deal end.
use gigveyro.Common.{
  ℕ, ◌≡◌, refl, inl, inr, Option, none, some, arith, Bool-cases, Option-cases, ◌⊎◌, true,
}
use gigveyro.Common.Int.{ℤ}
use gigveyro.Models.Deal.{Deal, DealStatus, completed, cancelled}
use gigveyro.Db.{Db, Action, deal_not_found, Result}
use gigveyro.Db.DealQueries.{find_deal, lock_deal}
use gigveyro.Deal.Profit.{Any}
use gigveyro.Deal.Service.{
  is_in_progress, is_completed, is_cancelled, settle_in_progress, with_terms, complete_locked,
  complete_deal, release_in_progress, cancel_locked, cancel_or_release_deal,
}
use gigveyro.Wallet.Posting.{EndsBy}
use gigveyro.Wallet.Posting.Rules.{EndsBy-weaken, Reads-or_raise}
use gigveyro.Wallet.Posting.Reads.{EndsBy-Reads}
use gigveyro.Deal.Session.{IsConsistent}
use gigveyro.Deal.Payment.{Leaves, Pays, Releases, settle-Leaves, release-Leaves}

-- A call has found the deal ended and written nothing, or has had the effect for its user and amount.
abbrev pub EndsOnce : Deal → DealStatus → (ℕ → ℤ → Db → Type 0) → Db → Db → Type 0
EndsOnce deal s Effect db db' =
    ((deal.status ≡ s) × (db' ≡ db))
    ⊎ ((user_id : ℕ) × (amount : ℤ) × (is_in_progress deal.status ≡ true)
        × (deal.user_id ≡ some user_id)
        × (deal.amount_usdt ≡ some amount)
        × Effect user_id amount db')

module _ (Q : Deal → Db → Type 0) (now : ℕ) (db : Db) (deal : Deal) where
  with_terms_rule :
      (rest : ℕ → ℤ → Action Deal)
      → ((u : ℕ) (a : ℤ)
          → deal.user_id ≡ some u
          → deal.amount_usdt ≡ some a
          → EndsBy Any Q (rest u a db))
      → EndsBy Any Q (with_terms deal rest db)
  with_terms_rule rest h = elim (Option-cases deal.user_id) [
    | inl absent ↦ rw absent tt
    | inr (u, eu) ↦ elim (Option-cases deal.amount_usdt) [
      | inl absent ↦ rw eu (rw absent tt)
      | inr (a, ea) ↦ rw eu (rw ea (h u a eu ea))
    ]
  ]

  complete_locked_rule :
      (actor : Option ℕ)
      → (is_completed deal.status ≡ true → Q deal db)
      → (is_in_progress deal.status ≡ true
          → (u : ℕ) (a : ℤ) → deal.user_id ≡ some u
          → deal.amount_usdt ≡ some a
          → EndsBy Any Q (settle_in_progress now deal u a actor db))
      → EndsBy Any Q (complete_locked now actor deal db)
  unfolding complete_locked
  complete_locked_rule actor early h = elim (Bool-cases (is_completed deal.status)) [
    | inl done ↦ rw done (early done)
    | inr pending ↦ rw pending (elim (Bool-cases (is_in_progress deal.status)) [
      | inl progress ↦
          rw progress (with_terms_rule (λ u a. settle_in_progress now deal u a actor) (h progress))
      | inr other ↦ rw other tt
    ])
  ]

  cancel_locked_rule :
      (is_cancelled deal.status ≡ true → Q deal db)
      → (is_in_progress deal.status ≡ true
          → (u : ℕ) (a : ℤ) → deal.user_id ≡ some u
          → deal.amount_usdt ≡ some a
          → EndsBy Any Q (release_in_progress now deal u a db))
      → EndsBy Any Q (cancel_locked now deal db)
  unfolding cancel_locked
  cancel_locked_rule early h = elim (Bool-cases (is_cancelled deal.status)) [
    | inl done ↦ rw done (early done)
    | inr pending ↦ rw pending (elim (Bool-cases (is_in_progress deal.status)) [
      | inl progress ↦ rw progress (with_terms_rule (release_in_progress now deal) (h progress))
      | inr other ↦ rw other tt
    ])
  ]

done-completed : (s : DealStatus) → is_completed s ≡ true → s ≡ completed
done-completed s h = ground arith

done-cancelled : (s : DealStatus) → is_cancelled s ≡ true → s ≡ cancelled
done-cancelled s h = ground arith

module _ (share : ℕ → ℤ) (now : ℕ) (db : Db) (c : IsConsistent share db) (id : ℕ) where
  -- The deal of the session has been ended so, and is left so.
  abbrev pub LeavesEnded : DealStatus → (Deal → ℕ → ℤ → Db → Type 0) → Deal → Db → Type 0
  LeavesEnded s Effect d db' =
      (deal : Deal) × (find_deal id db ≡ some deal)
      × Leaves share id s (EndsOnce deal s (Effect deal) db) d db'

  module _ (s : DealStatus) (Effect : Deal → ℕ → ℤ → Db → Type 0) (deal : Deal)
      (found : find_deal id db ≡ some deal) where
    unchanged : deal.status ≡ s → LeavesEnded s Effect deal db
    unchanged h = (
      deal,
      found,
      record { consistent = c; recorded = found; status = h; effect = inl (h, refl) },
    )

    changed :
        (u : ℕ) (a : ℤ) (x : Result Deal × Db)
        → is_in_progress deal.status ≡ true
        → deal.user_id ≡ some u
        → deal.amount_usdt ≡ some a
        → EndsBy Any (Leaves share id s (Effect deal u a)) x
        → EndsBy Any (LeavesEnded s Effect) x
    changed u a x progress eu ea =
        EndsBy-weaken Any Any (Leaves share id s (Effect deal u a)) (LeavesEnded s Effect) x
          (λ e db' h. h)
          λ d db' left. (
            deal,
            found,
            record {
              consistent = left.consistent;
              recorded = left.recorded;
              status = left.status;
              effect = inr (u, a, progress, eu, ea, left.effect);
            },
          )

  pub complete_deal_lem :
      (actor : Option ℕ)
      → EndsBy Any
          (LeavesEnded completed (λ deal u a db'. Pays deal u a actor db db'))
          (complete_deal now id actor db)
  unfolding complete_deal
  complete_deal_lem actor =
      EndsBy-Reads Any (LeavesEnded completed (λ deal u a db'. Pays deal u a actor db db')) db
        (λ deal. find_deal id db ≡ some deal) (complete_locked now actor) (λ e x. tt) (lock_deal id)
        (Reads-or_raise db (find_deal id db) deal_not_found tt)
        λ deal found.
          complete_locked_rule (LeavesEnded completed (λ deal u a db'. Pays deal u a actor db db'))
            now db deal actor
            (λ done.
              unchanged completed (λ deal u a db'. Pays deal u a actor db db') deal found
                (done-completed deal.status done))
            λ progress u a eu ea.
              changed completed (λ deal u a db'. Pays deal u a actor db db') deal found u a
                (settle_in_progress now deal u a actor db) progress eu ea
                (settle-Leaves share now db c id deal found u a actor ea)

  pub cancel_or_release_deal_lem :
      EndsBy Any
        (LeavesEnded cancelled (λ deal u a db'. Releases deal u a db db'))
        (cancel_or_release_deal now id db)
  unfolding cancel_or_release_deal
  cancel_or_release_deal_lem =
      EndsBy-Reads Any (LeavesEnded cancelled (λ deal u a db'. Releases deal u a db db')) db
        (λ deal. find_deal id db ≡ some deal) (cancel_locked now) (λ e x. tt) (lock_deal id)
        (Reads-or_raise db (find_deal id db) deal_not_found tt)
        λ deal found.
          cancel_locked_rule (LeavesEnded cancelled (λ deal u a db'. Releases deal u a db db')) now
            db deal
            (λ done.
              unchanged cancelled (λ deal u a db'. Releases deal u a db db') deal found
                (done-cancelled deal.status done))
            λ progress u a eu ea.
              changed cancelled (λ deal u a db'. Releases deal u a db db') deal found u a
                (release_in_progress now deal u a db) progress eu ea
                (release-Leaves share now db c id deal found u a none ea)
