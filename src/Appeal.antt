-- ===== src/Appeal.antt =====
-- GIGVEYRO_Backend/app/services/appeal.py: the appeals of users and merchants about a deal in
-- progress, which is DISPUTED meanwhile, and their resolution by the owner. `now` is the clock of a
-- call. The realtime events and the notifications are left out: they are rows of outboxes.
pub mod Outcome
pub mod Opening
pub mod Cancellation
use gigveyro.Common.{
  ℕ, Bool, true, false, not, ◌&&◌, ◌==◌, Option, none, some, List, [], ◌∷◌, if◌then◌else◌, is_some,
}
use gigveyro.Models.Account.{Account, UserRole}
use gigveyro.Models.Withdrawal.{Text}
use gigveyro.Models.Deal
use gigveyro.Models.Deal.{Deal, DealStatus, disputed}
use gigveyro.Models.Appeal.{
  DealAppeal, AppealStatus, AppealReason, AppealResolution, settle_to_merchant, release_to_user,
  opened, under_review, resolved, cancelled, is_opened, is_under_review, is_resolved,
}
use gigveyro.Common.Int.{ℤ}
use gigveyro.Db.{
  Action, pure, raise, gets, or_raise, ◌>>=◌, ◌>>◌, raise_if, deal_not_found, appeal_not_found,
  appeal_not_allowed, invalid_appeal_transition,
}
use gigveyro.Db.AppealQueries.{lock_appeal, get_active_by_deal_id, create_appeal, save_appeal}
use gigveyro.Db.DealQueries.{find_deal, lock_deal, save_deal}
use gigveyro.Deal.{transition_deal}
use gigveyro.Deal.Service.{is_in_progress, settle_in_progress, release_in_progress}

-- `ALLOWED_APPEAL_TRANSITIONS`
unfoldable pub is_allowed_appeal : AppealStatus → AppealStatus → Bool
is_allowed_appeal opened under_review = true
is_allowed_appeal opened cancelled = true
is_allowed_appeal under_review resolved = true
is_allowed_appeal _ _ = false

unfoldable pub transition_appeal : DealAppeal → AppealStatus → Action DealAppeal
transition_appeal a s = do
  raise_if (not (is_allowed_appeal a.status s)) invalid_appeal_transition
  pure (record a { status = s })

abbrev pub is_user : Option ℕ → ℕ → Bool
is_user none id = false
is_user (some user_id) id = user_id == id

-- The participant test of `open_appeal`.
abbrev pub check_participant : UserRole → Account → Deal → Action (Unit {0})
check_participant UserRole.user account deal =
    raise_if (not (is_user deal.user_id account.id)) deal_not_found
check_participant UserRole.merchant account deal =
    raise_if (not (deal.merchant_id == account.id)) deal_not_found
check_participant _ account deal = raise appeal_not_allowed

-- The row that `open_appeal` inserts. `id` and `public_id` are the values that uuid and secrets draw.
abbrev pub new_appeal : ℕ → ℕ → Account → Deal → AppealReason → Text → DealAppeal
new_appeal id public_id account deal reason_code message = record {
  id = id;
  public_id = public_id;
  deal_id = deal.id;
  opened_by_account_id = account.id;
  opened_by_role = account.role;
  reason_code = reason_code;
  message = message;
  status = opened;
  resolution = none;
  owner_note = none;
  previous_deal_status = deal.status;
  resolved_by_account_id = none;
  resolved_at = none;
}

unfoldable pub insert_and_dispute : ℕ → Deal → DealAppeal → Action DealAppeal
insert_and_dispute now deal new = do
  appeal ← create_appeal new
  in_dispute ← transition_deal now deal disputed
  save_deal in_dispute
  pure appeal

-- The test of the status of the deal and of its other appeals.
unfoldable pub open_checked : ℕ → Deal → DealAppeal → Action DealAppeal
open_checked now deal new = do
  raise_if (not (is_in_progress deal.status)) appeal_not_allowed
  active_appeal ← get_active_by_deal_id deal.id
  raise_if (is_some active_appeal) appeal_not_allowed
  insert_and_dispute now deal new

unfoldable pub open_appeal : ℕ → ℕ → ℕ → Account → ℕ → AppealReason → Text → Action DealAppeal
open_appeal now id public_id account deal_id reason_code message = do
  deal ← lock_deal deal_id
  check_participant account.role account deal
  open_checked now deal (new_appeal id public_id account deal reason_code message)

abbrev pub is_disputed : DealStatus → Bool
is_disputed disputed = true
is_disputed _ = false

-- `if deal.status == DealStatus.DISPUTED: …`
unfoldable pub restore_deal : ℕ → Deal → DealStatus → Action (Unit {0})
restore_deal now deal previous =
    if is_disputed deal.status
    then (do restored ← transition_deal now deal previous; save_deal restored)
    else pure tt

unfoldable pub cancel_appeal : ℕ → Account → ℕ → Action DealAppeal
cancel_appeal now account appeal_id = do
  appeal ← lock_appeal appeal_id
  raise_if (not (appeal.opened_by_account_id == account.id)) appeal_not_found
  raise_if (not (is_opened appeal.status)) invalid_appeal_transition
  found ← gets (find_deal appeal.deal_id)
  deal ← or_raise found appeal_not_found
  cancelled_appeal ← transition_appeal appeal cancelled
  restore_deal now deal appeal.previous_deal_status
  save_appeal cancelled_appeal

-- `if owner_note: appeal.owner_note = owner_note`
abbrev pub with_note : Option Text → DealAppeal → DealAppeal
with_note none a = a
with_note (some []) a = a
with_note (some (c ∷ cs)) a = record a { owner_note = some (c ∷ cs) }

abbrev pub review_again : Option Text → DealAppeal → Action DealAppeal
review_again none a = pure a
review_again (some []) a = pure a
review_again (some (c ∷ cs)) a = save_appeal (record a { owner_note = some (c ∷ cs) })

unfoldable pub take_under_review : ℕ → Option Text → Action DealAppeal
take_under_review appeal_id owner_note = do
  appeal ← lock_appeal appeal_id
  if is_under_review appeal.status then review_again owner_note appeal else (do
    raise_if (not (is_opened appeal.status)) invalid_appeal_transition
    reviewed ← transition_appeal (with_note owner_note appeal) under_review
    save_appeal reviewed)

-- The settlement or the release of the deal, and the flush of its row, as complete_deal and
-- cancel_or_release_deal make them after their guards.
unfoldable pub resolve_deal : ℕ → ℕ → AppealResolution → Deal → ℕ → ℤ → Action Deal
resolve_deal now owner_id settle_to_merchant deal user_id amount =
    settle_in_progress now deal user_id amount (some owner_id)
resolve_deal now owner_id release_to_user deal user_id amount =
    release_in_progress now deal user_id amount

-- The guards on the user and the amount of the deal.
abbrev pub with_valid_deal : Deal → (ℕ → ℤ → Action Deal) → Action Deal
with_valid_deal deal rest = elim deal.user_id [
  | none ↦ raise appeal_not_found
  | some user_id ↦ elim deal.amount_usdt [
    | none ↦ raise appeal_not_found
    | some amount ↦ rest user_id amount
  ]
]

-- `if appeal.status == OPEN: transition …; elif appeal.status != UNDER_REVIEW: raise …`
unfoldable pub review_first : DealAppeal → Action DealAppeal
review_first a =
    if is_opened a.status
    then transition_appeal a under_review
    else (do raise_if (not (is_under_review a.status)) invalid_appeal_transition; pure a)

unfoldable pub close_appeal : ℕ → ℕ → AppealResolution → Text → DealAppeal → Action DealAppeal
close_appeal now owner_id resolution owner_note reviewed = do
  a ← transition_appeal reviewed resolved
  save_appeal (record a {
    resolution = some resolution;
    owner_note = some owner_note;
    resolved_by_account_id = some owner_id;
    resolved_at = some now;
  })

unfoldable pub resolve_locked : ℕ → ℕ → AppealResolution → Text → DealAppeal → Action DealAppeal
resolve_locked now owner_id resolution owner_note appeal =
    if is_resolved appeal.status then pure appeal else (do
      reviewed ← review_first appeal
      found ← gets (find_deal appeal.deal_id)
      deal ← or_raise found appeal_not_found
      with_valid_deal deal (resolve_deal now owner_id resolution deal)
      close_appeal now owner_id resolution owner_note reviewed)

unfoldable pub resolve_appeal : ℕ → ℕ → ℕ → AppealResolution → Text → Action DealAppeal
resolve_appeal now owner_id appeal_id resolution owner_note =
    lock_appeal appeal_id >>= resolve_locked now owner_id resolution owner_note
