-- ===== src/Tests/Appeals.antt =====
-- Appeals about the deal of the sample session: one under review that is resolved, and one that its
-- opener takes back.
use gigveyro.Common.{false, true, Bool, ◌≡◌, refl, none, [], ◌∷◌}
use gigveyro.Deal.{is_allowed, stamped, transition_deal}
use gigveyro.Models.Deal.{is_admissible_deal, accepted, disputed}
use gigveyro.Db.DealQueries.{save_deal}
use gigveyro.Common.Table.{find}
use gigveyro.Db.Queries.{scalar, select}
use gigveyro.Db.AppealQueries.{create_appeal, get_active_by_deal_id}
use gigveyro.Appeal.{insert_and_dispute, open_checked, open_appeal}
use gigveyro.Appeal.Cancellation.{open_appeal-cancel_appeal, IsReversible}
use gigveyro.Tests.{account_of, sample_deal, sample_db}
use gigveyro.Db.{Result, Db, ok, err}
use gigveyro.Models.Account.{UserRole}
use gigveyro.Models.Appeal.{DealAppeal, payment_not_received, under_review}
use gigveyro.Deal.Profit.{Any}
use gigveyro.Wallet.Posting.{EndsBy}

abbrev sample_appeal : DealAppeal
sample_appeal = record {
  id = 70;
  public_id = 71;
  deal_id = 7;
  opened_by_account_id = 2;
  opened_by_role = UserRole.merchant;
  reason_code = payment_not_received;
  message = 97 ∷ [];
  status = under_review;
  resolution = none;
  owner_note = none;
  previous_deal_status = accepted;
  resolved_by_account_id = none;
  resolved_at = none;
}

abbrev is_ok : Result DealAppeal → Bool
is_ok (ok a) = true
is_ok (err e) = false

abbrev dispute_db : Db
dispute_db = record sample_db {
  deals = record sample_deal { status = disputed } ∷ [];
  appeals = sample_appeal ∷ [];
}

-- The merchant of the deal opens the appeal.
opening_returns :
    is_ok
      (open_appeal 60 70 71
        (account_of 2 UserRole.merchant none)
        7
        payment_not_received
        (97 ∷ [])
        sample_db).0
    ≡ true
unfolding open_appeal open_checked insert_and_dispute get_active_by_deal_id create_appeal select
    scalar find transition_deal is_allowed save_deal is_admissible_deal stamped
opening_returns = refl

open_appeal-cancel_appeal_example :
    EndsBy Any (IsReversible 60 90 (account_of 2 UserRole.merchant none) sample_db 7) (
      open_appeal 60 70 71
        (account_of 2 UserRole.merchant none)
        7
        payment_not_received
        (97 ∷ [])
        sample_db)
open_appeal-cancel_appeal_example =
    open_appeal-cancel_appeal 60 90 (account_of 2 UserRole.merchant none) sample_db 70 71 7
      payment_not_received (97 ∷ [])
