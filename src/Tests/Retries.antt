-- ===== src/Tests/Retries.antt =====
-- Retries of a posted movement, tried out on the sample session.
use gigveyro.Common.{◌≡◌, refl, none, arith}
use gigveyro.Common.Int.{pos, ◌+ℤ◌, ◌-ℤ◌}
use gigveyro.Common.Table.{find, put}
use gigveyro.Models.Wallet.{
  finite, is_admissible_user, in_range_user, is_admissible_merchant, in_range_merchant,
}
use gigveyro.Models.Ledger.{LedgerEntry, deal_freeze, available}
use gigveyro.Db.{Db, Result, ok, err, Action}
use gigveyro.Db.Queries.{
  select, has_reference, get_by_reference, scalar, save_wallet, save_merchant, create_entry,
}
use gigveyro.Wallet.Common.{user_row, user_entry, merchant_entry, post_wallet, post_merchant}
use gigveyro.Wallet.Credits.{credit_deposit, credit_deposit_for_merchant, deposited, to_insurance}
use gigveyro.Wallet.Deals.{freeze_for_deal, release_for_deal, credit_team_lead_profit}
use gigveyro.Wallet.Retries.{freeze_for_deal-retry, credit_deposit-retry}
use gigveyro.Wallet.Withdrawals.{hold_for_withdrawal, pay_for_user_withdrawal}
use gigveyro.Tests.{sample_wallet, sample_db, sample-IsSound}

-- The session after a first call, and the row that it has returned.
abbrev after : Action LedgerEntry → Db
after m = (m sample_db).1

abbrev unused_row : LedgerEntry
unfolding user_row
unused_row = user_row deal_freeze available (pos 0) none none none sample_wallet sample_wallet

abbrev row_or_unused : Result LedgerEntry → LedgerEntry
row_or_unused (ok e) = e
row_or_unused (err x) = unused_row

abbrev row : Action LedgerEntry → LedgerEntry
row m = row_or_unused (m sample_db).0

freeze_for_deal_first : freeze_for_deal 1 (finite (pos 300)) 9 sample_db ≡ (
  ok (row (freeze_for_deal 1 (finite (pos 300)) 9)),
  after (freeze_for_deal 1 (finite (pos 300)) 9),
)
unfolding freeze_for_deal post_wallet save_wallet is_admissible_user in_range_user user_entry
    user_row create_entry get_by_reference scalar select has_reference find put ◌+ℤ◌ ◌-ℤ◌
freeze_for_deal_first = refl

freeze_for_deal-retry_example :
    freeze_for_deal 3 (finite (pos 50)) 9 (after (freeze_for_deal 1 (finite (pos 300)) 9)) ≡ (
      ok (row (freeze_for_deal 1 (finite (pos 300)) 9)),
      after (freeze_for_deal 1 (finite (pos 300)) 9),
    )
freeze_for_deal-retry_example =
    freeze_for_deal-retry 1 3 (finite (pos 300)) (pos 50) (omega arith) 9 sample_db
      (after (freeze_for_deal 1 (finite (pos 300)) 9)) sample-IsSound
      (row (freeze_for_deal 1 (finite (pos 300)) 9)) freeze_for_deal_first

release_for_deal_first : release_for_deal 1 (finite (pos 300)) 9 sample_db ≡ (
  ok (row (release_for_deal 1 (finite (pos 300)) 9)),
  after (release_for_deal 1 (finite (pos 300)) 9),
)
unfolding release_for_deal post_wallet save_wallet is_admissible_user in_range_user user_entry
    user_row create_entry get_by_reference scalar select has_reference find put ◌+ℤ◌ ◌-ℤ◌
release_for_deal_first = refl

credit_team_lead_profit_first : credit_team_lead_profit 3 (finite (pos 300)) 9 none sample_db ≡ (
  ok (row (credit_team_lead_profit 3 (finite (pos 300)) 9 none)),
  after (credit_team_lead_profit 3 (finite (pos 300)) 9 none),
)
unfolding credit_team_lead_profit post_wallet save_wallet is_admissible_user in_range_user
    user_entry user_row create_entry get_by_reference scalar select has_reference find put ◌+ℤ◌ ◌-ℤ◌
credit_team_lead_profit_first = refl

hold_for_withdrawal_first : hold_for_withdrawal 2 (finite (pos 300)) 9 sample_db ≡ (
  ok (row (hold_for_withdrawal 2 (finite (pos 300)) 9)),
  after (hold_for_withdrawal 2 (finite (pos 300)) 9),
)
unfolding hold_for_withdrawal post_merchant save_merchant is_admissible_merchant in_range_merchant
    merchant_entry create_entry get_by_reference scalar select has_reference find put ◌+ℤ◌ ◌-ℤ◌
hold_for_withdrawal_first = refl

pay_for_user_withdrawal_first : pay_for_user_withdrawal 1 (finite (pos 300)) 9 0 sample_db ≡ (
  ok (row (pay_for_user_withdrawal 1 (finite (pos 300)) 9 0)),
  after (pay_for_user_withdrawal 1 (finite (pos 300)) 9 0),
)
unfolding pay_for_user_withdrawal post_wallet save_wallet is_admissible_user in_range_user
    user_entry user_row create_entry get_by_reference scalar select has_reference find put ◌+ℤ◌ ◌-ℤ◌
pay_for_user_withdrawal_first = refl

credit_deposit_first : credit_deposit 1 (finite (pos 300)) 9 sample_db ≡ (
  ok (row (credit_deposit 1 (finite (pos 300)) 9)),
  after (credit_deposit 1 (finite (pos 300)) 9),
)
unfolding credit_deposit post_wallet save_wallet is_admissible_user in_range_user user_entry
    user_row create_entry get_by_reference scalar select has_reference find put ◌+ℤ◌ ◌-ℤ◌ deposited
    to_insurance
credit_deposit_first = refl

credit_deposit-retry_example :
    credit_deposit 3 (finite (pos 50)) 9 (after (credit_deposit 1 (finite (pos 300)) 9)) ≡ (
      ok (row (credit_deposit 1 (finite (pos 300)) 9)),
      after (credit_deposit 1 (finite (pos 300)) 9),
    )
credit_deposit-retry_example =
    credit_deposit-retry 1 3 (finite (pos 300)) (pos 50) (omega arith) 9 sample_db
      (after (credit_deposit 1 (finite (pos 300)) 9)) sample-IsSound
      (row (credit_deposit 1 (finite (pos 300)) 9)) credit_deposit_first

credit_deposit_for_merchant_first : credit_deposit_for_merchant 2 (finite (pos 300)) 9 sample_db ≡ (
  ok (row (credit_deposit_for_merchant 2 (finite (pos 300)) 9)),
  after (credit_deposit_for_merchant 2 (finite (pos 300)) 9),
)
unfolding credit_deposit_for_merchant post_merchant save_merchant is_admissible_merchant
    in_range_merchant merchant_entry create_entry get_by_reference scalar select has_reference find
    put ◌+ℤ◌ ◌-ℤ◌
credit_deposit_for_merchant_first = refl
