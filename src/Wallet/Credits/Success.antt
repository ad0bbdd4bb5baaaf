-- ===== src/Wallet/Credits/Success.antt =====
-- When credit_deposit posts a deposit.
use gigveyro.Wallet.Credits.Outcome.{allocated, deposited-IsFunded, deposited-allocated}
use gigveyro.Common.{ℕ, ◌≡◌, refl, true, false, some, none, []}
use gigveyro.Common.Int.{ℤ, pos, ◌≤ℤ◌}
use gigveyro.Models.Wallet.{finite, UserWallet, in_range_user}
use gigveyro.Models.Ledger.{deposit_credit, available}
use gigveyro.Db.{Db, ok}
use gigveyro.Db.Queries.{find_wallet, has_reference, select}
use gigveyro.Wallet.Common.{user_entry}
use gigveyro.Wallet.Credits.{credit_deposit, deposited}
use gigveyro.Wallet.Posting.{IsSound}
use gigveyro.Wallet.Posting.Moves.{found-IsFunded}
use gigveyro.Wallet.RoundTrips.{succeeds_user, posted_user}
use mathlib.Core.Path.{subst}
use gigveyro.Models.Ledger

credit_deposited :
    (id : ℕ) (a : ℤ) (deposit_id : ℕ) (db : Db) (w : UserWallet)
    → IsSound db
    → pos 1 ≤ℤ a
    → select (has_reference (Ledger.Reference.deposit deposit_id) deposit_credit) db.ledger ≡ []
    → find_wallet id db ≡ some w
    → in_range_user (deposited w a) ≡ true
    → credit_deposit id (finite a) deposit_id db ≡ (
      ok (
          user_entry deposit_credit available a
            (Ledger.Reference.deposit deposit_id)
            none
            w
            (deposited w a)),
      posted_user
          (deposited w a)
          (user_entry deposit_credit available a
            (Ledger.Reference.deposit deposit_id)
            none
            w
            (deposited w a))
          db,
    )
unfolding credit_deposit
credit_deposited id a deposit_id db w sound pa new found fits =
    succeeds_user deposit_credit available (λ x. x) (Ledger.Reference.deposit deposit_id) none a pa
      id db new w (λ x u. false) (λ x u. deposited u x) found refl
      (deposited-IsFunded w a pa (found-IsFunded db sound id w found)) fits

-- From a sound session, a deposit of at least one unit with no row yet, to an account that has a
-- wallet and whose new balances are in range, is posted, to the insurance balance up to
-- its target, and the rest to the available balance.
pub credit_deposit_returns :
    (id : ℕ) (a : ℤ) (deposit_id : ℕ) (db : Db) (w : UserWallet)
    → IsSound db
    → pos 1 ≤ℤ a
    → select (has_reference (Ledger.Reference.deposit deposit_id) deposit_credit) db.ledger ≡ []
    → find_wallet id db ≡ some w
    → in_range_user (allocated a w) ≡ true
    → credit_deposit id (finite a) deposit_id db ≡ (
      ok (
          user_entry deposit_credit available a
            (Ledger.Reference.deposit deposit_id)
            none
            w
            (allocated a w)),
      posted_user
          (allocated a w)
          (user_entry deposit_credit available a
            (Ledger.Reference.deposit deposit_id)
            none
            w
            (allocated a w))
          db,
    )
credit_deposit_returns id a deposit_id db w sound pa new found =
    subst
      (λ w'.
        in_range_user w' ≡ true
        → credit_deposit id (finite a) deposit_id db ≡ (
          ok (
              user_entry deposit_credit available a (Ledger.Reference.deposit deposit_id) none w
                w'),
          posted_user w'
              (user_entry deposit_credit available a (Ledger.Reference.deposit deposit_id) none w
                w')
              db,
        ))
      (deposited-allocated w a pa) (credit_deposited id a deposit_id db w sound pa new found)
