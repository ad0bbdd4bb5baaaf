-- ===== src/Tests/Deals.antt =====
-- The settlement and the cancellation of a deal, tried out on the sample session.
use gigveyro.Common.{◌+◌, ◌*◌, ◌≤◌, ◌≡◌, refl, true, some, none, arith}
use gigveyro.Common.Int.{pos, ◌+ℤ◌, ◌-ℤ◌, ◌≤ℤ◌}
use gigveyro.Models.Deal.{
  Deal, DealStatus, accepted, payment_pending, disputed, completed, is_admissible_deal,
}
use gigveyro.Db.{Db, Result, ok, err, invalid_deal_transition}
use gigveyro.Deal.{is_allowed, stamped, transition_deal}
use gigveyro.Deal.Final.{complete_deal-final, cancel_or_release_deal-final}
use gigveyro.Deal.Lifecycle.{Reaches, stay, move, phase, is_terminal, Reaches_lem}
use gigveyro.Deal.Service.{
  complete_deal, cancel_or_release_deal, cancel_locked, complete_locked, create_owner_profit,
  credit_team_lead_profit_if_assigned, credit_to_team_lead, record_deal_owner_profit,
  release_in_progress, settle_in_progress,
}
use gigveyro.Deal.Split.{
  share_of, share_of_lem, compute_deal_settlement_split, compute_deal_settlement_split_lem,
}
use gigveyro.Common.Table.{find, put}
use gigveyro.Db.DealQueries.{
  active_policy, create_profit, create_snapshot, get_profit_by_source, save_deal, scalar_one,
}
use gigveyro.Db.Queries.{
  create_entry, get_by_reference, has_reference, save_merchant, save_wallet, scalar, select,
}
use gigveyro.Models.Fees.{is_admissible_profit, is_admissible_snapshot}
use gigveyro.Models.Wallet.{
  in_range_merchant, in_range_user, is_admissible_merchant, is_admissible_user,
}
use gigveyro.Wallet.Common.{merchant_entry, post_merchant, post_wallet, user_entry, user_row}
use gigveyro.Wallet.Deals.{
  credit_team_lead_profit, release_for_deal, settle_deal, settle_movements, settle_profit,
}
use gigveyro.Tests.{sample_deal, sample_db, sample_share, sample-IsConsistent}
use gigveyro.Models.Deal

sample_path : Reaches Deal.DealStatus.available completed
unfolding is_allowed
sample_path =
    move {t = payment_pending}
      (move {t = accepted} (move {t = Deal.DealStatus.available} stay refl) refl) refl

abbrev deal_or_sample : Result Deal → Deal
deal_or_sample (ok d) = d
deal_or_sample (err e) = sample_deal

abbrev settled_deal : Deal
settled_deal = deal_or_sample (complete_deal 90 7 (some 0) sample_db).0

abbrev settled_db : Db
settled_db = (complete_deal 90 7 (some 0) sample_db).1

abbrev released_deal : Deal
released_deal = deal_or_sample (cancel_or_release_deal 90 7 sample_db).0

abbrev released_db : Db
released_db = (cancel_or_release_deal 90 7 sample_db).1

sample_completed : complete_deal 90 7 (some 0) sample_db ≡ (ok settled_deal, settled_db)
unfolding complete_deal complete_locked settle_in_progress settle_deal settle_movements
    settle_profit post_wallet post_merchant save_wallet save_merchant create_entry get_by_reference
    scalar select has_reference is_admissible_user in_range_user is_admissible_merchant
    in_range_merchant user_entry merchant_entry user_row find put record_deal_owner_profit
    create_owner_profit active_policy scalar_one get_profit_by_source create_snapshot create_profit
    is_admissible_snapshot is_admissible_profit credit_team_lead_profit_if_assigned
    credit_to_team_lead credit_team_lead_profit compute_deal_settlement_split share_of
    transition_deal is_allowed stamped save_deal is_admissible_deal ◌+ℤ◌ ◌-ℤ◌
sample_completed = refl

sample_cancelled : cancel_or_release_deal 90 7 sample_db ≡ (ok released_deal, released_db)
unfolding cancel_or_release_deal cancel_locked release_in_progress release_for_deal settle_movements
    settle_profit post_wallet post_merchant save_wallet save_merchant create_entry get_by_reference
    scalar select has_reference is_admissible_user in_range_user is_admissible_merchant
    in_range_merchant user_entry merchant_entry user_row find put record_deal_owner_profit
    create_owner_profit active_policy scalar_one get_profit_by_source create_snapshot create_profit
    is_admissible_snapshot is_admissible_profit credit_team_lead_profit_if_assigned
    credit_to_team_lead credit_team_lead_profit compute_deal_settlement_split share_of
    transition_deal is_allowed stamped save_deal is_admissible_deal ◌+ℤ◌ ◌-ℤ◌
sample_cancelled = refl

share_of_lem_example :
    (1000 * 18519 ≤ 1234567 * 15 + 500) × (1234567 * 15 + 501 ≤ 1000 * 18519 + 1000)
unfolding share_of
share_of_lem_example = share_of_lem 1234567 15 18519 refl

compute_deal_settlement_split_lem_example :
    (let s = compute_deal_settlement_split (pos 1234567) in
      (s.merchant_amount +ℤ s.user_profit +ℤ s.owner_profit ≡ (pos 1234567))
      × (pos 1 ≤ℤ s.merchant_amount)
      × (pos 0 ≤ℤ s.user_profit)
      × (pos 0 ≤ℤ s.owner_profit)
      × (s.merchant_amount +ℤ s.user_profit ≤ℤ (pos 1234567)))
compute_deal_settlement_split_lem_example =
    compute_deal_settlement_split_lem (pos 1234567) (omega arith)

Reaches_lem_example :
    (phase Deal.DealStatus.available ≤ phase completed)
    × (is_terminal Deal.DealStatus.available ≡ true → completed ≡ Deal.DealStatus.available)
Reaches_lem_example = Reaches_lem Deal.DealStatus.available completed sample_path

complete_deal-final_example :
    (complete_deal 95 7 none settled_db ≡ (ok settled_deal, settled_db))
    × (cancel_or_release_deal 95 7 settled_db ≡ (err invalid_deal_transition, settled_db))
complete_deal-final_example =
    complete_deal-final sample_share 90 95 sample_db settled_db sample-IsConsistent 7 (some 0) none
      settled_deal sample_completed

cancel_or_release_deal-final_example :
    (cancel_or_release_deal 95 7 released_db ≡ (ok released_deal, released_db))
    × (complete_deal 95 7 none released_db ≡ (err invalid_deal_transition, released_db))
cancel_or_release_deal-final_example =
    cancel_or_release_deal-final sample_share 90 95 sample_db released_db sample-IsConsistent 7
      (some 0) none released_deal sample_cancelled
