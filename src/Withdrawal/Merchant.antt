-- ===== src/Withdrawal/Merchant.antt =====
-- The methods of WithdrawalService in GIGVEYRO_Backend/app/services/withdrawal.py that act on a request on record.
use gigveyro.Common.{ℕ, Option, not, if◌then◌else◌}
use gigveyro.Models.Withdrawal.{Text, Withdrawal, is_approved, is_paid}
use gigveyro.Db.{Action, pure, raise, ◌>>=◌, ◌>>◌, raise_if, invalid_withdrawal_transition}
use gigveyro.Db.WithdrawalQueries.{merchant_withdrawals, lock_withdrawal}
use gigveyro.Wallet.Withdrawals.{release_for_withdrawal}
use gigveyro.Withdrawal.Requests.{cancel_locked, approve_locked, reject_locked}

unfoldable pub cancel_by_merchant : ℕ → ℕ → ℕ → Action Withdrawal
cancel_by_merchant now merchant_id withdrawal_id =
    lock_withdrawal merchant_withdrawals withdrawal_id
    >>= cancel_locked merchant_withdrawals release_for_withdrawal now merchant_id

unfoldable pub approve_by_owner : ℕ → ℕ → ℕ → Option Text → Action Withdrawal
approve_by_owner now owner_id withdrawal_id comment =
    lock_withdrawal merchant_withdrawals withdrawal_id
    >>= approve_locked merchant_withdrawals now owner_id comment

unfoldable pub reject_by_owner : ℕ → ℕ → ℕ → Option Text → Action Withdrawal
reject_by_owner now owner_id withdrawal_id comment =
    lock_withdrawal merchant_withdrawals withdrawal_id
    >>= reject_locked merchant_withdrawals release_for_withdrawal now owner_id comment

-- Only a controlled payout may pay a merchant.
unfoldable pub mark_paid_locked : Withdrawal → Action Withdrawal
mark_paid_locked w = if is_paid w.status then pure w else (do
  raise_if (not (is_approved w.status)) invalid_withdrawal_transition
  raise invalid_withdrawal_transition)

unfoldable pub mark_paid_by_owner : ℕ → ℕ → ℕ → Option Text → Action Withdrawal
mark_paid_by_owner now owner_id withdrawal_id comment =
    lock_withdrawal merchant_withdrawals withdrawal_id >>= mark_paid_locked
