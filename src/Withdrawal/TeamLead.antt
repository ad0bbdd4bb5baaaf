-- ===== src/Withdrawal/TeamLead.antt =====
-- The methods of TeamLeadWithdrawalService in GIGVEYRO_Backend/app/services/team_lead_withdrawal.py that act on a request on record.
use gigveyro.Common.{ℕ, Option}
use gigveyro.Models.Withdrawal.{Text, Withdrawal}
use gigveyro.Db.{Action, ◌>>=◌}
use gigveyro.Db.WithdrawalQueries.{team_lead_withdrawals, lock_withdrawal}
use gigveyro.Wallet.Withdrawals.{release_for_user_withdrawal, pay_for_user_withdrawal}
use gigveyro.Withdrawal.Requests.{cancel_locked, approve_locked, reject_locked, mark_paid_locked}

unfoldable pub cancel_by_team_lead : ℕ → ℕ → ℕ → Action Withdrawal
cancel_by_team_lead now team_lead_id withdrawal_id =
    lock_withdrawal team_lead_withdrawals withdrawal_id
    >>= cancel_locked team_lead_withdrawals release_for_user_withdrawal now team_lead_id

unfoldable pub approve_by_owner : ℕ → ℕ → ℕ → Option Text → Action Withdrawal
approve_by_owner now owner_id withdrawal_id comment =
    lock_withdrawal team_lead_withdrawals withdrawal_id
    >>= approve_locked team_lead_withdrawals now owner_id comment

unfoldable pub reject_by_owner : ℕ → ℕ → ℕ → Option Text → Action Withdrawal
reject_by_owner now owner_id withdrawal_id comment =
    lock_withdrawal team_lead_withdrawals withdrawal_id
    >>= reject_locked team_lead_withdrawals release_for_user_withdrawal now owner_id comment

unfoldable pub mark_paid_by_owner : ℕ → ℕ → ℕ → Option Text → Action Withdrawal
mark_paid_by_owner now owner_id withdrawal_id comment =
    lock_withdrawal team_lead_withdrawals withdrawal_id
    >>= mark_paid_locked team_lead_withdrawals pay_for_user_withdrawal now owner_id comment
