-- ===== src/Withdrawal/Creation/Insertion.antt =====
-- The insertion of a request under a fresh identifier, and the reservation of its amount.
use mathlib.Core.Path.{subst}
use gigveyro.Common.{
  ℕ, ◌≡◌, ◌≢◌, refl, sym, ap, ◌∙◌, not, ◌||◌, ◌==◌, none, some, [], ◌∷◌, ◌⊎◌, arith, Bool-cases,
  inl, inr,
}
use gigveyro.Common.Int.{ℤ, ltb_ℤ}
use gigveyro.Common.Table.{find, find-first, find-other}
use gigveyro.Models.Wallet.{Decimal, finite, money_limit}
use gigveyro.Models.Ledger
use gigveyro.Models.Ledger.{
  LedgerEntry, LedgerEntryType, withdrawal_hold, withdrawal_release, withdrawal_paid, held, frozen,
}
use gigveyro.Models.Withdrawal.{Withdrawal, withdrawal_key, pending, is_admissible_withdrawal}
use gigveyro.Db.{Db, Action, pure, ◌>>=◌}
use gigveyro.Db.Queries.{select, has_reference}
use gigveyro.Db.DealQueries.{is_empty}
use gigveyro.Db.WithdrawalQueries.{find_withdrawal}
use gigveyro.Deal.Profit.{Any}
use gigveyro.Deal.Session.{IsConsistent}
use gigveyro.Wallet.Posting.{EndsBy}
use gigveyro.Wallet.Posting.Rules.{EndsBy-bind, EndsBy-weaken, Replays}
use gigveyro.Withdrawal.Calls.{Kind, table}
use gigveyro.Withdrawal.Calls.Tracking.{
  IsBooked, IsTracked, rows_for, write-rows, write-ledger, write-others, other_rows,
}
use gigveyro.Withdrawal.Calls.Movements.{Effect, IsMovement}
use gigveyro.Withdrawal.Calls.Closing.{Leaves, IsMoved, write-IsConsistent, Adds-IsMoved}
use gigveyro.Withdrawal.Creation.{insert_withdrawal, insert_and_hold}

-- No request and no ledger row has the identifier, as a new uuid.
pub record IsFresh (id : ℕ) (db : Db) : Type 0 where
  pub absent : (k : Kind) → find_withdrawal (table k) id db ≡ none
  pub unused : (t : LedgerEntryType) → rows_for id t db ≡ []

module _ (share : ℕ → ℤ) (k : Kind) (w : Withdrawal) (status : w.status ≡ pending) where
  -- The session tracks the request that has been moved to, if it is still PENDING.
  moved-Leaves : (db : Db) → IsMoved share k w.id w pending db → Leaves share k w.id pending w db
  moved-Leaves db m = record {
    consistent = m.consistent;
    tracked = record {
      booked = λ k' i v h. elim (Bool-cases (w.id == i)) [
        | inl at_id ↦
            let ids : w.id ≡ i = ground (arith, at_id) in
            let at_k : k ≡ k' = m.separate k k' i w v (rw (← ids) m.found) h in
            let e : v ≡ w = same_row k' i v at_k ids h in
            subst (λ j. IsBooked j v.status db.ledger) ids
              (subst (λ (x : Withdrawal). IsBooked w.id x.status db.ledger) (sym e)
                (subst (λ s. IsBooked w.id s db.ledger) (sym status) m.booked))
        | inr other ↦ m.others k' i v h (λ _ q. ground (arith, other, q))
      ];
      separate = m.separate;
    };
    recorded = m.found;
    status = status;
  }
    where
      same_row :
          (k' : Kind) (i : ℕ) (v : Withdrawal)
          → k ≡ k'
          → w.id ≡ i
          → find_withdrawal (table k') i db ≡ some v
          → v ≡ w
      same_row k' i v at_k ids h =
          let here : find_withdrawal (table k) w.id db ≡ some v =
            subst (λ j. find_withdrawal (table j) w.id db ≡ some v) (sym at_k) (rw ids h) in
          let found = m.found in cc

  module _ (db : Db) (c : IsConsistent share db) (tracked : IsTracked db)
      (fresh : IsFresh w.id db) where
    abbrev pub inserted : Db
    inserted = (table k).write (w ∷ (table k).rows db) db

    inserted-found : find_withdrawal (table k) w.id inserted ≡ some w
    inserted-found =
        ap (find withdrawal_key w.id) (write-rows k (w ∷ (table k).rows db) db)
        ∙ find-first withdrawal_key w.id w ((table k).rows db) refl

    inserted-cases :
        (k' : Kind) (i : ℕ) (v : Withdrawal)
        → find_withdrawal (table k') i inserted ≡ some v
        → ((k ≡ k') × (w.id ≡ i) × (v ≡ w))
          ⊎ ((find_withdrawal (table k') i db ≡ some v) × (w.id ≢ i))
    inserted-cases k' i v h = elim (write-others k k' (w ∷ (table k).rows db) db) [
      | inl at_k ↦
          let here : find withdrawal_key i (w ∷ (table k).rows db) ≡ some v =
            ap (find withdrawal_key i) (sym (write-rows k (w ∷ (table k).rows db) db))
            ∙ subst (λ j. find_withdrawal (table j) i inserted ≡ some v) (sym at_k) h in
          elim (Bool-cases (w.id == i)) [
            | inl at_id ↦
                let ids : w.id ≡ i = ground (arith, at_id) in
                let first = find-first withdrawal_key i w ((table k).rows db) ids in
                let e : v ≡ w = cc in inl (at_k, ids, e)
            | inr apart ↦
                let ne : w.id ≢ i = λ q. ground (arith, apart, q) in
                let old = sym (find-other withdrawal_key i w ((table k).rows db) ne) ∙ here in
                inr (subst (λ j. find_withdrawal (table j) i db ≡ some v) at_k old, ne)
          ]
      | inr (other, kept) ↦
          let old : find_withdrawal (table k') i db ≡ some v =
            ap (find withdrawal_key i) (sym kept) ∙ h in
          inr (old, not_fresh k' i v old)
    ]
      where
        not_fresh :
            (k' : Kind) (i : ℕ) (v : Withdrawal)
            → find_withdrawal (table k') i db ≡ some v
            → w.id ≢ i
        not_fresh k' i v old q =
            let gone : find_withdrawal (table k') i db ≡ none = rw (← q) (fresh.absent k') in cc

    inserted-IsMoved : IsMoved share k w.id w pending inserted
    inserted-IsMoved = record {
      consistent = write-IsConsistent share k (w ∷ (table k).rows db) db c;
      found = inserted-found;
      booked =
          subst (IsBooked w.id pending) (sym (write-ledger k (w ∷ (table k).rows db) db))
            (fresh.unused withdrawal_release, fresh.unused withdrawal_paid);
      others = λ k' i v h other. elim (inserted-cases k' i v h) [
        | inl (at_k, at_id, e) ↦ absurd (other at_k at_id)
        | inr (old, ne) ↦
            subst (IsBooked i v.status) (sym (write-ledger k (w ∷ (table k).rows db) db))
              (tracked.booked k' i v old)
      ];
      separate = λ k₁ k₂ i v v' h h'. elim (inserted-cases k₁ i v h) [
        | inl (at₁, id₁, e) ↦ elim (inserted-cases k₂ i v' h') [
          | inl (at₂, id₂, e') ↦ sym at₁ ∙ at₂
          | inr (old', ne') ↦ absurd (ne' id₁)
        ]
        | inr (old, ne) ↦ elim (inserted-cases k₂ i v' h') [
          | inl (at₂, id₂, e') ↦ absurd (ne id₂)
          | inr (old', ne') ↦ tracked.separate k₁ k₂ i v v' old old'
        ]
      ];
    }

    -- The new row, then one movement of the amount.
    abbrev pub InsertsAndHolds : Effect → Withdrawal → Db → Type 0
    InsertsAndHolds Moves w' db' =
        (w' ≡ w)
        × ((e : LedgerEntry) × Moves w.account_id (finite w.amount) w.id w.account_id inserted e
              db')

    insert_ends : EndsBy Any (λ _ db'. db' ≡ inserted) (insert_withdrawal (table k) w db)
    unfolding insert_withdrawal
    insert_ends = elim (Bool-cases (not (ltb_ℤ w.amount money_limit))) [
      | inl large ↦ rw large tt
      | inr fits ↦
          elim (Bool-cases (
            not (is_admissible_withdrawal w)
            || not (
                is_empty (
                  select (λ r. (r.id == w.id) || (r.public_id == w.public_id))
                    ((table k).rows db))))) [
                      | inl refused ↦ rw fits (rw refused tt)
                      | inr unique ↦ rw fits (rw unique refl)
                    ]
    ]

    at_insertion : Leaves share k w.id pending w inserted
    at_insertion = moved-Leaves inserted inserted-IsMoved

    module _ (Moves : Effect) (move : ℕ → Decimal → ℕ → ℕ → Action LedgerEntry)
        (M : IsMovement move withdrawal_hold Moves) where
      abbrev HoldsAmount : LedgerEntry → Db → Type 0
      HoldsAmount e db' = Moves w.account_id (finite w.amount) w.id w.account_id inserted e db'

      fresh_hold :
          (e : LedgerEntry) (db' : Db)
          → Replays (Ledger.Reference.withdrawal w.id) withdrawal_hold inserted e db'
            ⊎ HoldsAmount e db'
          → HoldsAmount e db'
      fresh_hold e db' (inl replay) = absurd (
          let old : rows_for w.id withdrawal_hold inserted ≡ e ∷ [] = replay.1 in
          let new : rows_for w.id withdrawal_hold inserted ≡ [] =
            ap (select (has_reference (Ledger.Reference.withdrawal w.id) withdrawal_hold))
              (write-ledger k (w ∷ (table k).rows db) db)
            ∙ fresh.unused withdrawal_hold in
          cc)
      fresh_hold e db' (inr p) = p

      held-Leaves :
          (e : LedgerEntry) (db' : Db) → HoldsAmount e db' → Leaves share k w.id pending w db'
      held-Leaves e db' p =
          let add = M.adds w.account_id (finite w.amount) w.id w.account_id inserted db' e p in
          let before = at_insertion.tracked.booked k w.id w at_insertion.recorded in
          let b : IsBooked w.id pending inserted.ledger =
            subst (λ s. IsBooked w.id s inserted.ledger) status before in
          moved-Leaves db' (
            Adds-IsMoved share k w.id w inserted at_insertion.consistent at_insertion.tracked
              at_insertion.recorded pending withdrawal_hold db'
              (M.evolves share w.account_id (finite w.amount) w.id w.account_id inserted db' e p)
              add
              (
                other_rows w.id withdrawal_hold inserted.ledger db'.ledger add withdrawal_release
                      (omega arith)
                    ∙ b.0,
                other_rows w.id withdrawal_hold inserted.ledger db'.ledger add withdrawal_paid
                      (omega arith)
                    ∙ b.1,
              ))

    pub insert_and_hold-Leaves :
        (hold : ℕ → Decimal → ℕ → Action LedgerEntry) (Moves : Effect)
        → IsMovement
            (λ account_id amount i actor_id. hold account_id amount i)
            withdrawal_hold
            Moves
        → EndsBy Any
            (λ w' db'. Leaves share k w.id pending w' db' × InsertsAndHolds Moves w' db')
            (insert_and_hold (table k) hold w db)
    unfolding insert_and_hold
    insert_and_hold-Leaves hold Moves M =
        EndsBy-bind Any (λ _ db'. db' ≡ inserted)
          (λ w' db'. Leaves share k w.id pending w' db' × InsertsAndHolds Moves w' db')
          (λ _. hold w.account_id (finite w.amount) w.id >>= λ _. pure w)
          (insert_withdrawal (table k) w) db insert_ends
          λ _ db₁ at.
            EndsBy-bind Any (HoldsAmount Moves move M)
              (λ w' db'. Leaves share k w.id pending w' db' × InsertsAndHolds Moves w' db')
              (λ _. pure w) (hold w.account_id (finite w.amount) w.id) db₁
              (rw at (
                EndsBy-weaken _ Any
                  (λ e db'.
                    Replays (Ledger.Reference.withdrawal w.id) withdrawal_hold inserted e db'
                    ⊎ HoldsAmount Moves move M e db')
                  (HoldsAmount Moves move M) (hold w.account_id (finite w.amount) w.id inserted)
                  (λ e db' x. tt) (fresh_hold Moves move M)
                  (M.outcome w.account_id (finite w.amount) w.id w.account_id inserted
                    at_insertion.consistent.sound)))
              λ e db' p. (held-Leaves Moves move M e db' p, (refl, (e, p)))
      where
        move : ℕ → Decimal → ℕ → ℕ → Action LedgerEntry
        move account_id amount i actor_id = hold account_id amount i
