-- ===== src/Wallet/Deals/Settlement/Success.antt =====
-- When settle_deal returns a settlement of its own.
use gigveyro.Common.{ℕ, ◌≡◌, ◌∙◌, true, Option, some, [], ◌∷◌, arith}
use gigveyro.Common.Int.{ℤ, pos, neg, ◌+ℤ◌, ◌≤ℤ◌, int_laws}
use gigveyro.Common.Table.{put}
use gigveyro.Models.Wallet.{
  finite, UserWallet, MerchantWallet, wallet_key, merchant_key, in_range_user, in_range_merchant,
}
use gigveyro.Models.Ledger
use gigveyro.Models.Ledger.{
  LedgerEntry, deal_settlement, deal_settlement_credit, deal_user_profit, available, frozen,
  type_code,
}
use gigveyro.Db.{Db, ok}
use gigveyro.Db.Queries.{
  find_wallet, find_merchant, has_reference, select, get_by_reference, scalar,
}
use gigveyro.Wallet.Common.{user_entry, user_row, merchant_entry, post_wallet, post_merchant}
use gigveyro.Wallet.Deals.{deducted, credited, settle_profit, settle_movements, settle_deal}
use gigveyro.Wallet.Deals.Settlement.{
  IsUnsettled, credited_merchant, debit_entry, credit_entry, profit_entry,
}
use gigveyro.Wallet.Posting.{IsSound}
use gigveyro.Wallet.Posting.Effects.{select-other_type}
use gigveyro.Wallet.Posting.Moves.{found-IsFunded, found-IsCovered}
use gigveyro.Wallet.Posting.Flushes.{post_wallet_fits, post_merchant_fits}

module _ (user_id merchant_id : ℕ) (a m p : ℤ) (deal_id : ℕ) (actor : Option ℕ) (db : Db)
    (sound : IsSound db) (unsettled : IsUnsettled deal_id db) (pa : pos 1 ≤ℤ a) (pm : pos 1 ≤ℤ m)
    (pp : pos 1 ≤ℤ p) (within : m +ℤ p ≤ℤ a) (u : UserWallet) (v : MerchantWallet)
    (fu : find_wallet user_id db ≡ some u) (fv : find_merchant merchant_id db ≡ some v)
    (enough : a ≤ℤ u.frozen_balance) (debit_fits : in_range_user (deducted u a) ≡ true)
    (credit_fits : in_range_merchant (credited_merchant v m) ≡ true)
    (profit_fits : in_range_user (credited (deducted u a) p) ≡ true) where
  abbrev debit_row : LedgerEntry
  debit_row = debit_entry deal_id actor a u

  abbrev credit_row : LedgerEntry
  credit_row = credit_entry deal_id actor m v

  abbrev profit_row : LedgerEntry
  profit_row = profit_entry deal_id actor p (deducted u a)

  -- The session after each of the three movements.
  abbrev debited_db : Db
  debited_db = record db {
    wallets = put wallet_key (deducted u a) db.wallets;
    ledger = debit_row ∷ db.ledger;
  }

  abbrev credited_db : Db
  credited_db = record debited_db {
    merchant_wallets = put merchant_key (credited_merchant v m) debited_db.merchant_wallets;
    ledger = credit_row ∷ debited_db.ledger;
  }

  abbrev shared_db : Db
  shared_db = record credited_db {
    wallets = put wallet_key (credited (deducted u a) p) credited_db.wallets;
    ledger = profit_row ∷ credited_db.ledger;
  }

  debited :
      post_wallet deal_settlement frozen
        (neg a)
        (Ledger.Reference.deal deal_id)
        actor
        u
        (deducted u a)
        db
      ≡ (ok debit_row, debited_db)
  debited =
      post_wallet_fits deal_settlement frozen (neg a) (Ledger.Reference.deal deal_id) actor db
        unsettled.0 u (deducted u a)
        (let h = found-IsFunded db sound user_id u fu in grind int_laws) debit_fits

  credit_new :
      select
        (has_reference (Ledger.Reference.deal deal_id) deal_settlement_credit)
        debited_db.ledger
      ≡ []
  unfolding user_entry user_row
  credit_new =
      select-other_type (Ledger.Reference.deal deal_id) deal_settlement_credit debit_row db.ledger
        (omega arith)
      ∙ unsettled.1

  credited_once :
      post_merchant deal_settlement_credit available m
        (Ledger.Reference.deal deal_id)
        actor
        v
        (credited_merchant v m)
        debited_db
      ≡ (ok credit_row, credited_db)
  credited_once =
      post_merchant_fits deal_settlement_credit available m (Ledger.Reference.deal deal_id) actor
        debited_db credit_new v (credited_merchant v m)
        (let h = found-IsCovered db sound merchant_id v fv in grind int_laws) credit_fits

  profit_new :
      select (has_reference (Ledger.Reference.deal deal_id) deal_user_profit) credited_db.ledger
      ≡ []
  unfolding user_entry user_row merchant_entry
  profit_new =
      select-other_type (Ledger.Reference.deal deal_id) deal_user_profit credit_row
        debited_db.ledger (omega arith)
      ∙ select-other_type (Ledger.Reference.deal deal_id) deal_user_profit debit_row db.ledger
          (omega arith)
      ∙ unsettled.2

  shared :
      settle_profit p deal_id actor (deducted u a) credited_db ≡ (ok (some profit_row), shared_db)
  unfolding settle_profit
  shared = ground (
    arith,
    post_wallet_fits deal_user_profit available p (Ledger.Reference.deal deal_id) actor credited_db
        profit_new (deducted u a) (credited (deducted u a) p)
        (let h = found-IsFunded db sound user_id u fu in grind int_laws) profit_fits,
  )

  moved :
      settle_movements user_id merchant_id a m p deal_id actor db
      ≡ (ok (debit_row, credit_row, some profit_row), shared_db)
  unfolding settle_movements
  moved = ground (arith, fu, fv, enough, debited, credited_once, shared)

  -- From a sound session that has both wallets and no row of the deal's settlement, with shares of at
  -- least one unit that do not exceed the amount, an amount that the frozen balance covers and
  -- balances that stay in range, settle_deal returns the three rows and leaves the three movements.
  pub settle_deal_returns :
      settle_deal user_id merchant_id (finite a) (finite m) (finite p) deal_id actor db
      ≡ (ok (debit_row, credit_row, some profit_row), shared_db)
  unfolding settle_deal get_by_reference scalar
  settle_deal_returns =
      ground (arith, pa, pm, pp, within, unsettled.0, unsettled.1, unsettled.2, moved)
