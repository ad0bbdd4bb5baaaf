-- ===== src/Wallet/Deals.antt =====
-- GIGVEYRO_Backend/app/services/wallet.py: freeze_for_deal, release_for_deal, settle_deal and
-- credit_team_lead_profit.
pub mod Outcome
pub mod Settlement
use gigveyro.Common.{ℕ, Bool, ◌||◌, ◌&&◌, Option, none, some, is_some, if◌then◌else◌}
use gigveyro.Common.Int.{ℤ, pos, neg, ◌+ℤ◌, ◌-ℤ◌, ltb_ℤ, eqb_ℤ}
use gigveyro.Models.Wallet.{Decimal, UserWallet, MerchantWallet}
use gigveyro.Models.Ledger
use gigveyro.Models.Ledger.{
  LedgerEntry, deal_freeze, deal_release, deal_settlement, deal_settlement_credit, deal_user_profit,
  team_lead_profit, available, frozen,
}
use gigveyro.Db.{Action, pure, raise, ◌>>=◌, ◌>>◌, raise_if, invalid_amount, insufficient_balance}
use gigveyro.Db.Queries.{get_by_reference}
use gigveyro.Wallet.Common.{
  positive, non_negative, lock_wallet, lock_merchant, once, post_wallet, post_merchant,
}

unfoldable pub freeze_for_deal : ℕ → Decimal → ℕ → Action LedgerEntry
freeze_for_deal account_id amount deal_id = do
  a ← positive amount
  once (Ledger.Reference.deal deal_id) deal_freeze do
    w ← lock_wallet account_id
    raise_if (ltb_ℤ w.available_balance a) insufficient_balance
    post_wallet deal_freeze frozen a (Ledger.Reference.deal deal_id) (some account_id) w (record w {
      available_balance = w.available_balance -ℤ a;
      frozen_balance = w.frozen_balance +ℤ a;
    })

unfoldable pub release_for_deal : ℕ → Decimal → ℕ → Action LedgerEntry
release_for_deal user_account_id amount deal_id = do
  a ← positive amount
  once (Ledger.Reference.deal deal_id) deal_release do
    w ← lock_wallet user_account_id
    raise_if (ltb_ℤ w.frozen_balance a) insufficient_balance
    post_wallet deal_release available a (Ledger.Reference.deal deal_id) (some user_account_id) w
        (record w {
          available_balance = w.available_balance +ℤ a;
          frozen_balance = w.frozen_balance -ℤ a;
        })

-- The user's wallet after the deduction of the settled amount.
abbrev pub deducted : UserWallet → ℤ → UserWallet
deducted w a = record w { frozen_balance = w.frozen_balance -ℤ a }

abbrev pub credited : UserWallet → ℤ → UserWallet
credited w a = record w { available_balance = w.available_balance +ℤ a }

abbrev pub Settlement : Type 0
Settlement = LedgerEntry × LedgerEntry × Option LedgerEntry

-- Step 3 of `settle_deal`: the user's own profit share, if there is one.
unfoldable pub settle_profit : ℤ → ℕ → Option ℕ → UserWallet → Action (Option LedgerEntry)
settle_profit profit deal_id actor_id w =
    if ltb_ℤ (pos 0) profit
    then (do
      e ←
          post_wallet deal_user_profit available profit (Ledger.Reference.deal deal_id) actor_id w
            (credited w profit)
      pure (some e))
    else pure none

-- The locks, the guard and the three movements of `settle_deal`.
unfoldable pub settle_movements : ℕ → ℕ → ℤ → ℤ → ℤ → ℕ → Option ℕ → Action Settlement
settle_movements user_account_id merchant_account_id a m p deal_id actor_id = do
  u ← lock_wallet user_account_id
  v ← lock_merchant merchant_account_id
  raise_if (ltb_ℤ u.frozen_balance a) insufficient_balance
  user_entry ←
      post_wallet deal_settlement frozen (neg a) (Ledger.Reference.deal deal_id) actor_id u
        (deducted u a)
  merchant_entry ←
      post_merchant deal_settlement_credit available m (Ledger.Reference.deal deal_id) actor_id v
        (record v { available_balance = v.available_balance +ℤ m })
  profit_entry ← settle_profit p deal_id actor_id (deducted u a)
  pure (user_entry, merchant_entry, profit_entry)

-- The return of a settlement that is on record, and otherwise `rest`.
abbrev pub or_settled :
    ℤ
    → Option LedgerEntry
    → Option LedgerEntry
    → Option LedgerEntry
    → Action Settlement
    → Action Settlement
or_settled p (some u) (some m) q rest =
    if eqb_ℤ p (pos 0) || is_some q then pure (u, m, q) else rest
or_settled p (some u) none q rest = rest
or_settled p none m q rest = rest

unfoldable pub settle_deal : ℕ → ℕ → Decimal → Decimal → Decimal → ℕ → Option ℕ → Action Settlement
settle_deal user_account_id merchant_account_id amount merchant_amount user_profit deal_id actor =
    do
      a ← positive amount
      m ← positive merchant_amount
      p ← non_negative user_profit
      raise_if (ltb_ℤ a (m +ℤ p)) invalid_amount
      user_existing ← get_by_reference (Ledger.Reference.deal deal_id) deal_settlement
      merchant_existing ← get_by_reference (Ledger.Reference.deal deal_id) deal_settlement_credit
      profit_existing ← get_by_reference (Ledger.Reference.deal deal_id) deal_user_profit
      or_settled p user_existing merchant_existing profit_existing
          (settle_movements user_account_id merchant_account_id a m p deal_id actor)

unfoldable pub credit_team_lead_profit : ℕ → Decimal → ℕ → Option ℕ → Action LedgerEntry
credit_team_lead_profit team_lead_account_id amount deal_id actor_id = do
  a ← positive amount
  once (Ledger.Reference.deal deal_id) team_lead_profit do
    w ← lock_wallet team_lead_account_id
    post_wallet team_lead_profit available a (Ledger.Reference.deal deal_id) actor_id w
        (credited w a)
