-- ===== src/Withdrawal/User.antt =====
-- The methods of UserWithdrawalService in GIGVEYRO_Backend/app/services/user_withdrawal.py that act on a request on record.
use gigveyro.Common.{ℕ, Option}
use gigveyro.Models.Withdrawal.{Text, Withdrawal}
use gigveyro.Db.{Action, ◌>>=◌}
use gigveyro.Db.WithdrawalQueries.{user_withdrawals, lock_withdrawal}
use gigveyro.Wallet.Withdrawals.{release_for_user_withdrawal, pay_for_user_withdrawal}
use gigveyro.Withdrawal.Requests.{cancel_locked, approve_locked, reject_locked, mark_paid_locked}

unfoldable pub cancel_by_user : ℕ → ℕ → ℕ → Action Withdrawal
cancel_by_user now user_id withdrawal_id =
    lock_withdrawal user_withdrawals withdrawal_id
    >>= cancel_locked user_withdrawals release_for_user_withdrawal now user_id

unfoldable pub approve_by_owner : ℕ → ℕ → ℕ → Option Text → Action Withdrawal
approve_by_owner now owner_id withdrawal_id comment =
    lock_withdrawal user_withdrawals withdrawal_id
    >>= approve_locked user_withdrawals now owner_id comment

unfoldable pub reject_by_owner : ℕ → ℕ → ℕ → Option Text → Action Withdrawal
reject_by_owner now owner_id withdrawal_id comment =
    lock_withdrawal user_withdrawals withdrawal_id
    >>= reject_locked user_withdrawals release_for_user_withdrawal now owner_id comment

unfoldable pub mark_paid_by_owner : ℕ → ℕ → ℕ → Option Text → Action Withdrawal
mark_paid_by_owner now owner_id withdrawal_id comment =
    lock_withdrawal user_withdrawals withdrawal_id
    >>= mark_paid_locked user_withdrawals pay_for_user_withdrawal now owner_id comment
