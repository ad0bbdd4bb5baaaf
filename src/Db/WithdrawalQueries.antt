-- ===== src/Db/WithdrawalQueries.antt =====
-- GIGVEYRO_Backend/app/repositories/withdrawal.py, user_withdrawal.py and team_lead_withdrawal.py:
-- the queries and flushes of a request's transitions, on one of the three tables.
use gigveyro.Common.{ℕ, Option, List, not}
use gigveyro.Common.Table.{find, put}
use gigveyro.Models.Withdrawal.{Withdrawal, withdrawal_key, is_admissible_withdrawal}
use gigveyro.Db.{Db, Action, or_raise, ◌>>◌, raise_if, modify, integrity, withdrawal_not_found}

-- One of the tables of withdrawal requests.
pub record WithdrawalTable : Type 0 where
  pub rows : Db → List Withdrawal
  pub write : List Withdrawal → Db → Db

abbrev pub merchant_withdrawals : WithdrawalTable
merchant_withdrawals = record {
  rows = λ db. db.merchant_withdrawals;
  write = λ l db. record db { merchant_withdrawals = l };
}

abbrev pub user_withdrawals : WithdrawalTable
user_withdrawals = record {
  rows = λ db. db.user_withdrawals;
  write = λ l db. record db { user_withdrawals = l };
}

abbrev pub team_lead_withdrawals : WithdrawalTable
team_lead_withdrawals = record {
  rows = λ db. db.team_lead_withdrawals;
  write = λ l db. record db { team_lead_withdrawals = l };
}

abbrev pub find_withdrawal : WithdrawalTable → ℕ → Db → Option Withdrawal
find_withdrawal T id db = find withdrawal_key id (T.rows db)

-- `get_by_id_for_update`, and the test for None
abbrev pub lock_withdrawal : WithdrawalTable → ℕ → Action Withdrawal
lock_withdrawal T id db = or_raise (find_withdrawal T id db) withdrawal_not_found db

-- `save` of the three repositories
unfoldable pub save_withdrawal : WithdrawalTable → Withdrawal → Action (Unit {0})
save_withdrawal T w = do
  raise_if (not (is_admissible_withdrawal w)) integrity
  modify (λ db. T.write (put withdrawal_key w (T.rows db)) db)
