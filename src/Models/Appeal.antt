-- ===== src/Models/Appeal.antt =====
-- GIGVEYRO_Backend/app/models/appeal.py and app/enums/appeal.py. `created_at` and `updated_at`,
-- which are only displayed, are left out. `opened` is OPEN.
use gigveyro.Common.{ℕ, Bool, true, false, Option}
use gigveyro.Models.Account.{UserRole}
use gigveyro.Models.Deal.{DealStatus}
use gigveyro.Models.Withdrawal.{Text}

pub data AppealStatus : Type 0 where
  opened under_review resolved cancelled : AppealStatus

pub data AppealReason : Type 0 where
  payment_not_received wrong_amount payment_proof_issue timeout_dispute other : AppealReason

pub data AppealResolution : Type 0 where
  settle_to_merchant release_to_user : AppealResolution

pub record DealAppeal : Type 0 where
  pub id : ℕ
  pub public_id : ℕ
  pub deal_id : ℕ
  pub opened_by_account_id : ℕ
  pub opened_by_role : UserRole
  pub reason_code : AppealReason
  pub message : Text
  pub status : AppealStatus
  pub resolution : Option AppealResolution
  pub owner_note : Option Text
  pub previous_deal_status : DealStatus
  pub resolved_by_account_id : Option ℕ
  pub resolved_at : Option ℕ

abbrev pub appeal_key : DealAppeal → ℕ
appeal_key a = a.id

-- OPEN or UNDER_REVIEW
abbrev pub is_active_appeal : AppealStatus → Bool
is_active_appeal opened = true
is_active_appeal under_review = true
is_active_appeal _ = false

abbrev pub is_opened : AppealStatus → Bool
is_opened opened = true
is_opened _ = false

abbrev pub is_under_review : AppealStatus → Bool
is_under_review under_review = true
is_under_review _ = false

abbrev pub is_resolved : AppealStatus → Bool
is_resolved resolved = true
is_resolved _ = false
