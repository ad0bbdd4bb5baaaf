-- ===== src/Tests/RoundTrips.antt =====
-- Movements that succeed, tried out on the sample session.
use gigveyro.Common.{◌≡◌, refl, some, none, [], ◌∷◌, arith}
use gigveyro.Common.Int.{pos, neg, ◌+ℤ◌, ◌-ℤ◌}
use gigveyro.Common.Table.{find, put}
use gigveyro.Models.Wallet.{
  finite, UserWallet, MerchantWallet, in_range_user, in_range_merchant, wallet_key, merchant_key,
}
use gigveyro.Models.Ledger.{
  LedgerEntry, deal_freeze, deal_release, withdrawal_hold, withdrawal_paid, deposit_credit,
  available, frozen, held,
}
use gigveyro.Db.{Db, ok}
use gigveyro.Db.Queries.{find_wallet, find_merchant, select}
use gigveyro.Wallet.Common.{user_entry, merchant_entry}
use gigveyro.Wallet.Credits.{credit_deposit}
use gigveyro.Wallet.Credits.Success.{credit_deposit_returns}
use gigveyro.Wallet.Deals.{freeze_for_deal, release_for_deal, settle_deal, deducted, credited}
use gigveyro.Wallet.Deals.Outcome.{freeze, unfreeze}
use gigveyro.Wallet.Deals.Settlement.{credited_merchant, debit_entry, credit_entry, profit_entry}
use gigveyro.Wallet.Deals.Settlement.Success.{settle_deal_returns}
use gigveyro.Wallet.MerchantRoundTrips.{posted_merchant, hold_for_withdrawal-pay_withdrawal}
use gigveyro.Wallet.RoundTrips.{
  posted_user, freeze_for_deal-release_for_deal, hold_for_user_withdrawal-pay_for_user_withdrawal,
}
use gigveyro.Wallet.Withdrawals.{
  hold_for_withdrawal, pay_withdrawal, hold_for_user_withdrawal, pay_for_user_withdrawal,
}
use gigveyro.Wallet.Withdrawals.Outcome.{hold, pay_out}
use gigveyro.Tests.{sample_wallet, sample_merchant, sample_db, sample-IsSound}
use gigveyro.Wallet.Credits.Outcome.{allocated}
use gigveyro.Models.Ledger

-- The sample wallet with 400 units more on its frozen balance.
abbrev frozen_wallet : UserWallet
frozen_wallet = freeze (pos 400) sample_wallet

abbrev freeze_row : LedgerEntry
freeze_row =
    user_entry deal_freeze frozen (pos 400) (Ledger.Reference.deal 9) (some 1) sample_wallet
      frozen_wallet

abbrev release_row : LedgerEntry
release_row =
    user_entry deal_release available (pos 400) (Ledger.Reference.deal 9) (some 1) frozen_wallet
      (unfreeze (pos 400) frozen_wallet)

freeze_for_deal-release_for_deal_example :
    (freeze_for_deal 1 (finite (pos 400)) 9 sample_db
      ≡ (ok freeze_row, posted_user frozen_wallet freeze_row sample_db))
    × (release_for_deal 1 (finite (pos 400)) 9 (posted_user frozen_wallet freeze_row sample_db) ≡ (
      ok release_row,
      posted_user
          (unfreeze (pos 400) frozen_wallet)
          release_row
          (posted_user frozen_wallet freeze_row sample_db),
    ))
    × (find_wallet 1 (posted_user frozen_wallet freeze_row sample_db) ≡ some frozen_wallet)
    × (find_wallet 1 (
          posted_user
            (unfreeze (pos 400) frozen_wallet)
            release_row
            (posted_user frozen_wallet freeze_row sample_db))
        ≡ some sample_wallet)
unfolding find select in_range_user ◌+ℤ◌ ◌-ℤ◌
freeze_for_deal-release_for_deal_example =
    freeze_for_deal-release_for_deal 1 (pos 400) (omega arith) sample_db sample-IsSound
      sample_wallet refl (omega arith) refl refl 9 refl refl

abbrev hold_row : LedgerEntry
hold_row =
    user_entry withdrawal_hold frozen (pos 400) (Ledger.Reference.withdrawal 9) (some 1)
      sample_wallet frozen_wallet

abbrev paid_row : LedgerEntry
paid_row =
    user_entry withdrawal_paid frozen (neg (pos 400)) (Ledger.Reference.withdrawal 9) (some 0)
      frozen_wallet (deducted frozen_wallet (pos 400))

hold_for_user_withdrawal-pay_for_user_withdrawal_example :
    (hold_for_user_withdrawal 1 (finite (pos 400)) 9 sample_db
      ≡ (ok hold_row, posted_user frozen_wallet hold_row sample_db))
    × (pay_for_user_withdrawal 1
          (finite (pos 400))
          9
          0
          (posted_user frozen_wallet hold_row sample_db)
        ≡ (
          ok paid_row,
          posted_user
              (deducted frozen_wallet (pos 400))
              paid_row
              (posted_user frozen_wallet hold_row sample_db),
        ))
    × (find_wallet 1 (
          posted_user
            (deducted frozen_wallet (pos 400))
            paid_row
            (posted_user frozen_wallet hold_row sample_db))
        ≡ some (record sample_wallet { available_balance = pos 1000 -ℤ pos 400 }))
unfolding find select in_range_user ◌+ℤ◌ ◌-ℤ◌
hold_for_user_withdrawal-pay_for_user_withdrawal_example =
    hold_for_user_withdrawal-pay_for_user_withdrawal 1 (pos 400) (omega arith) sample_db
      sample-IsSound sample_wallet refl (omega arith) refl refl 9 0 refl refl refl

-- The sample merchant with 200 units more on its held balance.
abbrev held_wallet : MerchantWallet
held_wallet = hold (pos 200) sample_merchant

abbrev merchant_hold_row : LedgerEntry
merchant_hold_row =
    merchant_entry withdrawal_hold held (pos 200) (Ledger.Reference.withdrawal 9) (some 2)
      sample_merchant held_wallet

abbrev merchant_paid_row : LedgerEntry
merchant_paid_row =
    merchant_entry withdrawal_paid held (neg (pos 200)) (Ledger.Reference.withdrawal 9) (some 0)
      held_wallet (pay_out (pos 200) held_wallet)

hold_for_withdrawal-pay_withdrawal_example :
    (hold_for_withdrawal 2 (finite (pos 200)) 9 sample_db
      ≡ (ok merchant_hold_row, posted_merchant held_wallet merchant_hold_row sample_db))
    × (pay_withdrawal 2
          (finite (pos 200))
          9
          0
          (posted_merchant held_wallet merchant_hold_row sample_db)
        ≡ (
          ok merchant_paid_row,
          posted_merchant
              (pay_out (pos 200) held_wallet)
              merchant_paid_row
              (posted_merchant held_wallet merchant_hold_row sample_db),
        ))
    × (find_merchant 2 (
          posted_merchant
            (pay_out (pos 200) held_wallet)
            merchant_paid_row
            (posted_merchant held_wallet merchant_hold_row sample_db))
        ≡ some (record sample_merchant { available_balance = pos 300 -ℤ pos 200 }))
unfolding find select in_range_merchant ◌+ℤ◌ ◌-ℤ◌
hold_for_withdrawal-pay_withdrawal_example =
    hold_for_withdrawal-pay_withdrawal 2 (pos 200) (omega arith) sample_db sample-IsSound
      sample_merchant refl (omega arith) refl 9 0 refl refl refl

abbrev deposit_row : LedgerEntry
deposit_row =
    user_entry deposit_credit available (pos 250) (Ledger.Reference.deposit 9) none sample_wallet
      (allocated (pos 250) sample_wallet)

credit_deposit_returns_example :
    credit_deposit 1 (finite (pos 250)) 9 sample_db
    ≡ (ok deposit_row, posted_user (allocated (pos 250) sample_wallet) deposit_row sample_db)
unfolding find select in_range_user allocated ◌+ℤ◌ ◌-ℤ◌
credit_deposit_returns_example =
    credit_deposit_returns 1 (pos 250) 9 sample_db sample_wallet sample-IsSound (omega arith) refl
      refl refl

-- The session after each movement of the settlement of 1000 units.
abbrev debited_db : Db
debited_db = record sample_db {
  wallets = put wallet_key (deducted sample_wallet (pos 1000)) sample_db.wallets;
  ledger = debit_entry 7 (some 0) (pos 1000) sample_wallet ∷ [];
}

abbrev credited_db : Db
credited_db = record debited_db {
  merchant_wallets =
      put merchant_key (credited_merchant sample_merchant (pos 830)) debited_db.merchant_wallets;
  ledger = credit_entry 7 (some 0) (pos 830) sample_merchant ∷ debited_db.ledger;
}

abbrev shared_db : Db
shared_db = record credited_db {
  wallets =
      put wallet_key (credited (deducted sample_wallet (pos 1000)) (pos 100)) credited_db.wallets;
  ledger =
      profit_entry 7 (some 0) (pos 100) (deducted sample_wallet (pos 1000)) ∷ credited_db.ledger;
}

settle_deal_returns_example :
    settle_deal 1 2 (finite (pos 1000)) (finite (pos 830)) (finite (pos 100)) 7 (some 0) sample_db
    ≡ (
      ok (
        debit_entry 7 (some 0) (pos 1000) sample_wallet,
        credit_entry 7 (some 0) (pos 830) sample_merchant,
        some (profit_entry 7 (some 0) (pos 100) (deducted sample_wallet (pos 1000))),
      ),
      shared_db,
    )
unfolding find select in_range_user in_range_merchant ◌+ℤ◌ ◌-ℤ◌
settle_deal_returns_example =
    settle_deal_returns 1 2 (pos 1000) (pos 830) (pos 100) 7 (some 0) sample_db sample-IsSound
      (refl, refl, refl) (omega arith) (omega arith) (omega arith) (omega arith) sample_wallet
      sample_merchant refl refl (omega arith) refl refl refl
