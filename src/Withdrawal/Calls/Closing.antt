-- ===== src/Withdrawal/Calls/Closing.antt =====
-- The last statements of a transition, and a transition that moves the amount first.
use mathlib.Core.Path.{subst}
use gigveyro.Common.{
  ℕ, ◌≡◌, ◌≢◌, refl, sym, ap, ◌∙◌, some, List, [], ◌⊎◌, arith, Bool-cases, inl, inr,
}
use gigveyro.Common.Int.{ℤ}
use gigveyro.Common.Table.{All, put, find}
use gigveyro.Models.Wallet.{finite}
use gigveyro.Models.Ledger
use gigveyro.Models.Ledger.{LedgerEntry, LedgerEntryType, withdrawal_release, withdrawal_paid}
use gigveyro.Models.Withdrawal.{
  Withdrawal, WithdrawalStatus, is_admissible_withdrawal, withdrawal_key, is_paid,
}
use gigveyro.Db.{Db}
use gigveyro.Db.WithdrawalQueries.{find_withdrawal, save_withdrawal}
use gigveyro.Deal.Profit.{Any}
use gigveyro.Deal.Session.{IsConsistent, HasShare}
use gigveyro.Wallet.Posting.{EndsBy}
use gigveyro.Wallet.Posting.Rules.{EndsBy-bind, EndsBy-weaken, Replays}
use gigveyro.Wallet.Calls.Evolution.{Evolves, Steps-IsSound, Steps-deals}
use gigveyro.Withdrawal.{is_allowed, actioned, transition_withdrawal}
use gigveyro.Withdrawal.Requests.{Movement, close, move_and_close}
use gigveyro.Withdrawal.Calls.{Kind, merchant, user, team_lead, table}
use gigveyro.Withdrawal.Calls.Tracking.{
  IsBooked, IsTracked, Adds, Occurs, is_given_back, rows_for, other_request, write-ledger, written,
  written-found, written-cases,
}
use gigveyro.Withdrawal.Calls.Movements.{Effect, IsMovement, Steps-requests}

pub write-IsConsistent :
    (share : ℕ → ℤ) (k : Kind) (l : List Withdrawal) (db : Db)
    → IsConsistent share db
    → IsConsistent share ((table k).write l db)
write-IsConsistent share merchant l db c = record {
  sound = record {
    users = c.sound.users;
    merchants = c.sound.merchants;
    references = c.sound.references;
    keys = c.sound.keys;
  };
  whole = c.whole;
  shares = c.shares;
}
write-IsConsistent share user l db c = record {
  sound = record {
    users = c.sound.users;
    merchants = c.sound.merchants;
    references = c.sound.references;
    keys = c.sound.keys;
  };
  whole = c.whole;
  shares = c.shares;
}
write-IsConsistent share team_lead l db c = record {
  sound = record {
    users = c.sound.users;
    merchants = c.sound.merchants;
    references = c.sound.references;
    keys = c.sound.keys;
  };
  whole = c.whole;
  shares = c.shares;
}

actioned-id :
    (now : ℕ) (s : WithdrawalStatus) (actor_id : ℕ) (w : Withdrawal)
    → (actioned now s actor_id w).id ≡ w.id
unfolding actioned
actioned-id now s actor_id w = ground arith

actioned-status :
    (now : ℕ) (s : WithdrawalStatus) (actor_id : ℕ) (w : Withdrawal)
    → (actioned now s actor_id w).status ≡ s
unfolding actioned
actioned-status now s actor_id w = ground arith

-- A request that a service returns: its row is on record with this status, and the session is
-- consistent and tracks its requests.
pub record Leaves (share : ℕ → ℤ) (k : Kind) (id : ℕ) (s : WithdrawalStatus) (w : Withdrawal)
    (db' : Db) : Type 0 where
  pub consistent : IsConsistent share db'
  pub tracked : IsTracked db'
  pub recorded : find_withdrawal (table k) id db' ≡ some w
  pub status : w.status ≡ s

-- The amount is moved by one new row, then the row of the request is flushed.
abbrev pub MovesAndCloses :
    Kind → ℕ → Db → Effect → ℕ → ℕ → Withdrawal → WithdrawalStatus → ℕ → Withdrawal → Db → Type 0
MovesAndCloses k id db Moves now account_id w s actor_id w' db' =
    (e : LedgerEntry) × (db₁ : Db) × Moves account_id (finite w.amount) id actor_id db e db₁
    × (w' ≡ actioned now s actor_id w)
    × (db' ≡ (table k).write (put withdrawal_key w' ((table k).rows db₁)) db₁)

module _ (share : ℕ → ℤ) (k : Kind) (id : ℕ) (w : Withdrawal) where
  -- The session in which the amount of the request has been moved: all but its status is in order.
  pub record IsMoved (s : WithdrawalStatus) (db : Db) : Type 0 where
    pub consistent : IsConsistent share db
    pub found : find_withdrawal (table k) id db ≡ some w
    pub booked : IsBooked id s db.ledger
    pub others :
        (k' : Kind) (id' : ℕ) (v : Withdrawal)
        → find_withdrawal (table k') id' db ≡ some v
        → ((k ≡ k') → id ≢ id')
        → IsBooked id' v.status db.ledger
    pub separate :
        (k k' : Kind) (i : ℕ) (v v' : Withdrawal)
        → find_withdrawal (table k) i db ≡ some v
        → find_withdrawal (table k') i db ≡ some v'
        → k ≡ k'

  module _ (s : WithdrawalStatus) (db : Db) (m : IsMoved s db) (w' : Withdrawal) (same : w'.id ≡ id)
      (status : w'.status ≡ s) where
    abbrev saved : Db
    saved = written k id w w' db m.found same

    was_there :
        (k' : Kind) (i : ℕ) (v : Withdrawal)
        → find_withdrawal (table k') i saved ≡ some v
        → (v₀ : Withdrawal) × (find_withdrawal (table k') i db ≡ some v₀)
    was_there k' i v h = elim (written-cases k id w w' db m.found same k' i v h) [
      | inl (at_k, at_id, e) ↦
          (w, subst (λ j. find_withdrawal (table j) i db ≡ some w) at_k (rw (← at_id) m.found))
      | inr (old, other) ↦ (v, old)
    ]

    saved-IsBooked :
        (k' : Kind) (i : ℕ) (v : Withdrawal)
        → find_withdrawal (table k') i saved ≡ some v
        → IsBooked i v.status db.ledger
    saved-IsBooked k' i v h = elim (written-cases k id w w' db m.found same k' i v h) [
      | inl (at_k, at_id, e) ↦
          let es : s ≡ v.status = sym status ∙ ap (λ (x : Withdrawal). x.status) (sym e) in
          subst (λ x. IsBooked i x db.ledger) es
            (subst (λ x. IsBooked x s db.ledger) at_id m.booked)
      | inr (old, other) ↦ m.others k' i v old other
    ]

    saved-Leaves : Leaves share k id s w' saved
    saved-Leaves = record {
      consistent =
          write-IsConsistent share k (put withdrawal_key w' ((table k).rows db)) db m.consistent;
      tracked = record {
        booked = λ k' i v h.
            subst (IsBooked i v.status)
              (sym (write-ledger k (put withdrawal_key w' ((table k).rows db)) db))
              (saved-IsBooked k' i v h);
        separate = λ k₁ k₂ i v v' h h'.
            let (a, ha) = was_there k₁ i v h in
            let (b, hb) = was_there k₂ i v' h' in m.separate k₁ k₂ i a b ha hb;
      };
      recorded = written-found k id w w' db m.found same;
      status = status;
    }

  -- The flush of the request whose amount has been moved.
  pub close-Leaves :
      (now : ℕ) (s : WithdrawalStatus) (actor_id : ℕ) (w₁ : Withdrawal) (db : Db)
      → IsMoved s db
      → w₁.id ≡ id
      → EndsBy Any
          (λ w' db'.
            Leaves share k id s w' db'
            × (w' ≡ actioned now s actor_id w₁)
            × (db' ≡ (table k).write (put withdrawal_key w' ((table k).rows db)) db))
          (close (table k) now w₁ s actor_id db)
  unfolding close transition_withdrawal save_withdrawal
  close-Leaves now s actor_id w₁ db m same = elim (Bool-cases (is_allowed w₁.status s)) [
    | inl allowed ↦ elim (Bool-cases (is_admissible_withdrawal (actioned now s actor_id w₁))) [
      | inl admissible ↦ rw allowed (
          rw admissible (
            saved-Leaves s db m (actioned now s actor_id w₁) (actioned-id now s actor_id w₁ ∙ same)
                (actioned-status now s actor_id w₁),
            refl,
            refl,
          ))
      | inr refused ↦ rw allowed (rw refused tt)
    ]
    | inr refused ↦ rw refused tt
  ]

  module _ (db : Db) (c : IsConsistent share db) (tracked : IsTracked db)
      (found : find_withdrawal (table k) id db ≡ some w) where
    -- After a movement for the request.
    pub Adds-IsMoved :
        (s : WithdrawalStatus) (t : LedgerEntryType) (db' : Db)
        → Evolves share db db'
        → Adds id t db.ledger db'.ledger
        → IsBooked id s db'.ledger
        → IsMoved s db'
    Adds-IsMoved s t db' e add booked = record {
      consistent = record {
        sound = Steps-IsSound e.steps c.sound;
        whole = e.whole c.whole;
        shares = subst (All (HasShare share)) (sym (Steps-deals e.steps)) c.shares;
      };
      found = back k id w found;
      booked = booked;
      others = λ k' i v h other.
          let old = there k' i v h in
          let ne : id ≢ i = λ q. other (tracked.separate k k' i w v (rw (← q) found) old) q in
          let b = tracked.booked k' i v old in
          (
            subst (Occurs (is_given_back v.status))
                (sym (other_request id i t withdrawal_release db.ledger db'.ledger add ne)) b.0,
            subst (Occurs (is_paid v.status))
                (sym (other_request id i t withdrawal_paid db.ledger db'.ledger add ne)) b.1,
          );
      separate =
          λ k₁ k₂ i v v' h h'. tracked.separate k₁ k₂ i v v' (there k₁ i v h) (there k₂ i v' h');
    }
      where
        there :
            (k' : Kind) (i : ℕ) (v : Withdrawal)
            → find_withdrawal (table k') i db' ≡ some v
            → find_withdrawal (table k') i db ≡ some v
        there k' i v h = ap (find withdrawal_key i) (sym (Steps-requests k' e.steps)) ∙ h

        back :
            (k' : Kind) (i : ℕ) (v : Withdrawal)
            → find_withdrawal (table k') i db ≡ some v
            → find_withdrawal (table k') i db' ≡ some v
        back k' i v h = ap (find withdrawal_key i) (Steps-requests k' e.steps) ∙ h

    pub move_and_close-Leaves :
        (move : Movement) (t : LedgerEntryType) (Moves : Effect)
        → IsMovement move t Moves
        → (now account_id : ℕ) (w₁ : Withdrawal) (s : WithdrawalStatus) (actor_id : ℕ) → w₁.id ≡ id
        → rows_for id t db ≡ []
        → ((ledger : List LedgerEntry) → Adds id t db.ledger ledger → IsBooked id s ledger)
        → EndsBy Any
            (λ w' db'.
              Leaves share k id s w' db'
              × MovesAndCloses k id db Moves now account_id w₁ s actor_id w' db')
            (move_and_close (table k) move now account_id w₁ s actor_id db)
    unfolding move_and_close
    move_and_close-Leaves move t Moves M now account_id w₁ s actor_id same unused booked =
        EndsBy-bind Any (λ e db₁. Moves account_id (finite w₁.amount) id actor_id db e db₁)
          (λ w' db'.
            Leaves share k id s w' db'
            × MovesAndCloses k id db Moves now account_id w₁ s actor_id w' db')
          (λ _. close (table k) now w₁ s actor_id)
          (move account_id (finite w₁.amount) w₁.id actor_id) db
          (rw same (
            EndsBy-weaken _ Any
              (λ e db'.
                Replays (Ledger.Reference.withdrawal id) t db e db'
                ⊎ Moves account_id (finite w₁.amount) id actor_id db e db')
              (λ e db'. Moves account_id (finite w₁.amount) id actor_id db e db')
              (move account_id (finite w₁.amount) id actor_id db) (λ e db' h. tt)
              (λ e db' h. fresh e db' h)
              (M.outcome account_id (finite w₁.amount) id actor_id db c.sound)))
          (λ e db₁ p.
            let add = M.adds account_id (finite w₁.amount) id actor_id db db₁ e p in
            let m =
              Adds-IsMoved s t db₁
                (M.evolves share account_id (finite w₁.amount) id actor_id db db₁ e p) add
                (booked db₁.ledger add) in
            EndsBy-weaken Any Any
              (λ w' db'.
                Leaves share k id s w' db'
                × (w' ≡ actioned now s actor_id w₁)
                × (db' ≡ (table k).write (put withdrawal_key w' ((table k).rows db₁)) db₁))
              (λ w' db'.
                Leaves share k id s w' db'
                × MovesAndCloses k id db Moves now account_id w₁ s actor_id w' db')
              (close (table k) now w₁ s actor_id db₁) (λ e' db' h. h)
              (λ w' db' h. (h.0, (e, db₁, p, h.1, h.2)))
              (close-Leaves now s actor_id w₁ db₁ m same))
      where
        fresh :
            (e : LedgerEntry) (db' : Db)
            → Replays (Ledger.Reference.withdrawal id) t db e db'
              ⊎ Moves account_id (finite w₁.amount) id actor_id db e db'
            → Moves account_id (finite w₁.amount) id actor_id db e db'
        fresh e db' (inl replay) = absurd (let q = replay.1 in cc)
        fresh e db' (inr p) = p
