-- ===== src/Wallet/Withdrawals.antt =====
-- GIGVEYRO_Backend/app/services/wallet.py: the reservations of merchant and user withdrawals, their
-- release and their payment.
pub mod Outcome
use gigveyro.Common.{ℕ, some}
use gigveyro.Common.Int.{neg, ◌+ℤ◌, ◌-ℤ◌, ltb_ℤ}
use gigveyro.Models.Wallet.{Decimal}
use gigveyro.Models.Ledger
use gigveyro.Models.Ledger.{
  LedgerEntry, withdrawal_hold, withdrawal_release, withdrawal_paid, available, frozen, held,
}
use gigveyro.Db.{Action, ◌>>=◌, ◌>>◌, raise_if, insufficient_balance}
use gigveyro.Wallet.Common.{positive, lock_wallet, lock_merchant, once, post_wallet, post_merchant}

unfoldable pub hold_for_withdrawal : ℕ → Decimal → ℕ → Action LedgerEntry
hold_for_withdrawal merchant_id amount id = do
  a ← positive amount
  once (Ledger.Reference.withdrawal id) withdrawal_hold do
    w ← lock_merchant merchant_id
    raise_if (ltb_ℤ w.available_balance a) insufficient_balance
    post_merchant withdrawal_hold held a (Ledger.Reference.withdrawal id) (some merchant_id) w
        (record w {
          available_balance = w.available_balance -ℤ a;
          held_balance = w.held_balance +ℤ a;
        })

unfoldable pub release_for_withdrawal : ℕ → Decimal → ℕ → ℕ → Action LedgerEntry
release_for_withdrawal merchant_id amount id actor_id = do
  a ← positive amount
  once (Ledger.Reference.withdrawal id) withdrawal_release do
    w ← lock_merchant merchant_id
    raise_if (ltb_ℤ w.held_balance a) insufficient_balance
    post_merchant withdrawal_release available a (Ledger.Reference.withdrawal id) (some actor_id) w
        (record w {
          available_balance = w.available_balance +ℤ a;
          held_balance = w.held_balance -ℤ a;
        })

unfoldable pub pay_withdrawal : ℕ → Decimal → ℕ → ℕ → Action LedgerEntry
pay_withdrawal merchant_id amount id actor_id = do
  a ← positive amount
  once (Ledger.Reference.withdrawal id) withdrawal_paid do
    w ← lock_merchant merchant_id
    raise_if (ltb_ℤ w.held_balance a) insufficient_balance
    post_merchant withdrawal_paid held (neg a) (Ledger.Reference.withdrawal id) (some actor_id) w
        (record w { held_balance = w.held_balance -ℤ a })

unfoldable pub hold_for_user_withdrawal : ℕ → Decimal → ℕ → Action LedgerEntry
hold_for_user_withdrawal user_id amount id = do
  a ← positive amount
  once (Ledger.Reference.withdrawal id) withdrawal_hold do
    w ← lock_wallet user_id
    raise_if (ltb_ℤ w.available_balance a) insufficient_balance
    post_wallet withdrawal_hold frozen a (Ledger.Reference.withdrawal id) (some user_id) w
        (record w {
          available_balance = w.available_balance -ℤ a;
          frozen_balance = w.frozen_balance +ℤ a;
        })

unfoldable pub release_for_user_withdrawal : ℕ → Decimal → ℕ → ℕ → Action LedgerEntry
release_for_user_withdrawal user_id amount id actor_id = do
  a ← positive amount
  once (Ledger.Reference.withdrawal id) withdrawal_release do
    w ← lock_wallet user_id
    raise_if (ltb_ℤ w.frozen_balance a) insufficient_balance
    post_wallet withdrawal_release available a (Ledger.Reference.withdrawal id) (some actor_id) w
        (record w {
          available_balance = w.available_balance +ℤ a;
          frozen_balance = w.frozen_balance -ℤ a;
        })

unfoldable pub pay_for_user_withdrawal : ℕ → Decimal → ℕ → ℕ → Action LedgerEntry
pay_for_user_withdrawal user_id amount id actor_id = do
  a ← positive amount
  once (Ledger.Reference.withdrawal id) withdrawal_paid do
    w ← lock_wallet user_id
    raise_if (ltb_ℤ w.frozen_balance a) insufficient_balance
    post_wallet withdrawal_paid frozen (neg a) (Ledger.Reference.withdrawal id) (some actor_id) w
        (record w { frozen_balance = w.frozen_balance -ℤ a })
