-- ===== src/Models/Withdrawal.antt =====
-- GIGVEYRO_Backend/app/models/withdrawal.py, user_withdrawal.py and team_lead_withdrawal.py, and
-- app/enums/withdrawal.py. The three tables have the same columns, but for the name of the
-- requester's and of the wallet's. `created_at` and `updated_at`, which are only displayed, are left
-- out. A text is a list of code points, a time is a number.
use gigveyro.Common.{ℕ, Bool, true, false, Option, List}
use gigveyro.Common.Int.{ℤ, pos, ltb_ℤ}
use gigveyro.Models.Wallet.{Currency}

abbrev pub Text : Type 0
Text = List ℕ

pub data WithdrawalStatus : Type 0 where
  pending approved paid rejected cancelled : WithdrawalStatus

pub data WithdrawalDestinationType : Type 0 where
  usdt_trc20_address bybit_uid : WithdrawalDestinationType

pub record Withdrawal : Type 0 where
  pub id : ℕ
  pub public_id : ℕ
  pub account_id : ℕ
  pub wallet_id : ℕ
  pub amount : ℤ
  pub currency : Currency
  pub destination_type : WithdrawalDestinationType
  pub destination : Text
  pub status : WithdrawalStatus
  pub comment : Option Text
  pub owner_comment : Option Text
  pub approved_at : Option ℕ
  pub rejected_at : Option ℕ
  pub paid_at : Option ℕ
  pub cancelled_at : Option ℕ
  pub created_by_account_id : ℕ
  pub actioned_by_account_id : Option ℕ

-- `account_id` is the column `merchant_id`, `user_id` or `team_lead_id`.
abbrev pub MerchantWithdrawal : Type 0
MerchantWithdrawal = Withdrawal

abbrev pub UserWithdrawal : Type 0
UserWithdrawal = Withdrawal

abbrev pub TeamLeadWithdrawal : Type 0
TeamLeadWithdrawal = Withdrawal

abbrev pub withdrawal_key : Withdrawal → ℕ
withdrawal_key w = w.id

abbrev pub is_pending : WithdrawalStatus → Bool
is_pending pending = true
is_pending _ = false

abbrev pub is_approved : WithdrawalStatus → Bool
is_approved approved = true
is_approved _ = false

abbrev pub is_paid : WithdrawalStatus → Bool
is_paid paid = true
is_paid _ = false

abbrev pub is_rejected : WithdrawalStatus → Bool
is_rejected rejected = true
is_rejected _ = false

abbrev pub is_cancelled : WithdrawalStatus → Bool
is_cancelled cancelled = true
is_cancelled _ = false

-- The check constraint of the three tables.
unfoldable pub is_admissible_withdrawal : Withdrawal → Bool
is_admissible_withdrawal w = ltb_ℤ (pos 0) w.amount
