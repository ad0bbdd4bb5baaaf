-- ===== src/Withdrawal.antt =====
-- GIGVEYRO_Backend/app/services/withdrawal.py, user_withdrawal.py and team_lead_withdrawal.py: the
-- requests to withdraw money, from their reservation to their payment, rejection or cancellation.
pub mod Requests
pub mod Merchant
pub mod User
pub mod TeamLead
pub mod Calls
pub mod Address
pub mod Creation
use gigveyro.Common.{ℕ, Bool, true, false, some, not}
use gigveyro.Models.Withdrawal.{
  Withdrawal, WithdrawalStatus, pending, approved, paid, rejected, cancelled,
}
use gigveyro.Db.{Action, pure, ◌>>◌, raise_if, invalid_withdrawal_transition}

-- `ALLOWED_TRANSITIONS`
unfoldable pub is_allowed : WithdrawalStatus → WithdrawalStatus → Bool
is_allowed pending approved = true
is_allowed pending rejected = true
is_allowed pending cancelled = true
is_allowed approved paid = true
is_allowed approved cancelled = true
is_allowed _ _ = false

-- The columns that `transition_withdrawal` writes; `now` is the clock of the call.
unfoldable pub actioned : ℕ → WithdrawalStatus → ℕ → Withdrawal → Withdrawal
actioned now pending actor_id w = record w {
  status = pending;
  actioned_by_account_id = some actor_id;
}
actioned now approved actor_id w = record w {
  status = approved;
  actioned_by_account_id = some actor_id;
  approved_at = some now;
}
actioned now rejected actor_id w = record w {
  status = rejected;
  actioned_by_account_id = some actor_id;
  rejected_at = some now;
}
actioned now paid actor_id w = record w {
  status = paid;
  actioned_by_account_id = some actor_id;
  paid_at = some now;
}
actioned now cancelled actor_id w = record w {
  status = cancelled;
  actioned_by_account_id = some actor_id;
  cancelled_at = some now;
}

unfoldable pub transition_withdrawal : ℕ → Withdrawal → WithdrawalStatus → ℕ → Action Withdrawal
transition_withdrawal now w s actor_id = do
  raise_if (not (is_allowed w.status s)) invalid_withdrawal_transition
  pure (actioned now s actor_id w)
