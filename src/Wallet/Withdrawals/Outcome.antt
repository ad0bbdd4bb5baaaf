-- ===== src/Wallet/Withdrawals/Outcome.antt =====
-- How the reservations of withdrawals, their releases and their payments end.
use gigveyro.Common.{ℕ, refl, ◌⊎◌, some}
use gigveyro.Common.Int.{ℤ, neg, ◌+ℤ◌, ◌-ℤ◌, ltb_ℤ, int_laws}
use gigveyro.Models.Wallet.{Decimal, MerchantWallet}
use gigveyro.Models.Ledger
use gigveyro.Models.Ledger.{
  withdrawal_hold, withdrawal_release, withdrawal_paid, available, frozen, held,
}
use gigveyro.Db.{Db, insufficient_balance}
use gigveyro.Wallet.Deals.{deducted}
use gigveyro.Wallet.Deals.Outcome.{freeze, unfreeze}
use gigveyro.Wallet.Withdrawals.{
  hold_for_withdrawal, release_for_withdrawal, pay_withdrawal, hold_for_user_withdrawal,
  release_for_user_withdrawal, pay_for_user_withdrawal,
}
use gigveyro.Wallet.Posting.{IsSound, Ends}
use gigveyro.Wallet.Posting.Rules.{Replays}
use gigveyro.Wallet.Posting.Moves.{MovesUser, MovesMerchant, Ends-move_user, Ends-move_merchant}

-- From a merchant's available balance to the held one, and back; and out of the held one.
abbrev pub hold : ℤ → MerchantWallet → MerchantWallet
hold a w = record w {
  available_balance = w.available_balance -ℤ a;
  held_balance = w.held_balance +ℤ a;
}

abbrev pub unhold : ℤ → MerchantWallet → MerchantWallet
unhold a w = record w {
  available_balance = w.available_balance +ℤ a;
  held_balance = w.held_balance -ℤ a;
}

abbrev pub pay_out : ℤ → MerchantWallet → MerchantWallet
pay_out a w = record w { held_balance = w.held_balance -ℤ a }

module _ (account_id : ℕ) (amount : Decimal) (id : ℕ) (db : Db) (sound : IsSound db) where
  -- From a sound session, hold_for_withdrawal raises an expected exception and writes nothing, or
  -- returns the row that is on record and writes nothing, or posts one movement of the positive
  -- amount from the merchant's available balance to its held balance, which leaves no balance
  -- negative.
  pub hold_for_withdrawal_lem :
      Ends
        (λ e db'.
          Replays (Ledger.Reference.withdrawal id) withdrawal_hold db e db'
          ⊎ MovesMerchant account_id withdrawal_hold held
              (λ a. a)
              (Ledger.Reference.withdrawal id)
              (some account_id)
              amount
              hold
              db
              e
              db')
        db
        (hold_for_withdrawal account_id amount id db)
  unfolding hold_for_withdrawal
  hold_for_withdrawal_lem =
      Ends-move_merchant account_id withdrawal_hold held (λ a. a) (Ledger.Reference.withdrawal id)
        (some account_id) amount insufficient_balance tt db sound
        (λ a w. ltb_ℤ w.available_balance a) hold (λ a w. refl) (λ a w pa enough h. grind int_laws)

  -- From a sound session, release_for_withdrawal raises an expected exception and writes nothing,
  -- or returns the row that is on record and writes nothing, or posts one movement of the positive
  -- amount from the merchant's held balance to its available balance, which leaves no balance
  -- negative.
  pub release_for_withdrawal_lem :
      (actor_id : ℕ)
      → Ends
          (λ e db'.
            Replays (Ledger.Reference.withdrawal id) withdrawal_release db e db'
            ⊎ MovesMerchant account_id withdrawal_release available
                (λ a. a)
                (Ledger.Reference.withdrawal id)
                (some actor_id)
                amount
                unhold
                db
                e
                db')
          db
          (release_for_withdrawal account_id amount id actor_id db)
  unfolding release_for_withdrawal
  release_for_withdrawal_lem actor_id =
      Ends-move_merchant account_id withdrawal_release available (λ a. a)
        (Ledger.Reference.withdrawal id) (some actor_id) amount insufficient_balance tt db sound
        (λ a w. ltb_ℤ w.held_balance a) unhold (λ a w. refl) (λ a w pa enough h. grind int_laws)

  -- From a sound session, pay_withdrawal raises an expected exception and writes nothing, or
  -- returns the row that is on record and writes nothing, or posts one movement of the positive
  -- amount out of the merchant's held balance, which leaves no balance negative.
  pub pay_withdrawal_lem :
      (actor_id : ℕ)
      → Ends
          (λ e db'.
            Replays (Ledger.Reference.withdrawal id) withdrawal_paid db e db'
            ⊎ MovesMerchant account_id withdrawal_paid held neg
                (Ledger.Reference.withdrawal id)
                (some actor_id)
                amount
                pay_out
                db
                e
                db')
          db
          (pay_withdrawal account_id amount id actor_id db)
  unfolding pay_withdrawal
  pay_withdrawal_lem actor_id =
      Ends-move_merchant account_id withdrawal_paid held neg (Ledger.Reference.withdrawal id)
        (some actor_id) amount insufficient_balance tt db sound (λ a w. ltb_ℤ w.held_balance a)
        pay_out (λ a w. refl) (λ a w pa enough h. grind int_laws)

  -- From a sound session, hold_for_user_withdrawal raises an expected exception and writes
  -- nothing, or returns the row that is on record and writes nothing, or posts one movement of the
  -- positive amount from the user's available balance to its frozen balance, which leaves no
  -- balance negative.
  pub hold_for_user_withdrawal_lem :
      Ends
        (λ e db'.
          Replays (Ledger.Reference.withdrawal id) withdrawal_hold db e db'
          ⊎ MovesUser account_id withdrawal_hold frozen
              (λ a. a)
              (Ledger.Reference.withdrawal id)
              (some account_id)
              amount
              freeze
              db
              e
              db')
        db
        (hold_for_user_withdrawal account_id amount id db)
  unfolding hold_for_user_withdrawal
  hold_for_user_withdrawal_lem =
      Ends-move_user account_id withdrawal_hold frozen (λ a. a) (Ledger.Reference.withdrawal id)
        (some account_id) amount insufficient_balance tt db sound
        (λ a w. ltb_ℤ w.available_balance a) freeze (λ a w. refl)
        (λ a w pa enough h. grind int_laws)

  -- From a sound session, release_for_user_withdrawal raises an expected exception and writes
  -- nothing, or returns the row that is on record and writes nothing, or posts one movement of the
  -- positive amount from the user's frozen balance to its available balance, which leaves no
  -- balance negative.
  pub release_for_user_withdrawal_lem :
      (actor_id : ℕ)
      → Ends
          (λ e db'.
            Replays (Ledger.Reference.withdrawal id) withdrawal_release db e db'
            ⊎ MovesUser account_id withdrawal_release available
                (λ a. a)
                (Ledger.Reference.withdrawal id)
                (some actor_id)
                amount
                unfreeze
                db
                e
                db')
          db
          (release_for_user_withdrawal account_id amount id actor_id db)
  unfolding release_for_user_withdrawal
  release_for_user_withdrawal_lem actor_id =
      Ends-move_user account_id withdrawal_release available (λ a. a)
        (Ledger.Reference.withdrawal id) (some actor_id) amount insufficient_balance tt db sound
        (λ a w. ltb_ℤ w.frozen_balance a) unfreeze (λ a w. refl) (λ a w pa enough h. grind int_laws)

  -- From a sound session, pay_for_user_withdrawal raises an expected exception and writes nothing,
  -- or returns the row that is on record and writes nothing, or posts one movement of the positive
  -- amount out of the user's frozen balance, which leaves no balance negative.
  pub pay_for_user_withdrawal_lem :
      (actor_id : ℕ)
      → Ends
          (λ e db'.
            Replays (Ledger.Reference.withdrawal id) withdrawal_paid db e db'
            ⊎ MovesUser account_id withdrawal_paid frozen neg
                (Ledger.Reference.withdrawal id)
                (some actor_id)
                amount
                (λ a w. deducted w a)
                db
                e
                db')
          db
          (pay_for_user_withdrawal account_id amount id actor_id db)
  unfolding pay_for_user_withdrawal
  pay_for_user_withdrawal_lem actor_id =
      Ends-move_user account_id withdrawal_paid frozen neg (Ledger.Reference.withdrawal id)
        (some actor_id) amount insufficient_balance tt db sound (λ a w. ltb_ℤ w.frozen_balance a)
        (λ a w. deducted w a) (λ a w. refl) (λ a w pa enough h. grind int_laws)
