-- ===== src/Models/Ledger.antt =====
-- GIGVEYRO_Backend/app/models/ledger.py and the ledger enums of app/enums/wallet.py. The columns
-- `id`, `created_at` and `description` are left out: no service reads them back.
use gigveyro.Common.{ℕ, Bool, false, Option, ◌==◌}
use gigveyro.Common.Int.{ℤ}
use gigveyro.Models.Wallet.{Currency}

pub data BalanceBucket : Type 0 where
  available insurance frozen held : BalanceBucket

pub data LedgerEntryType : Type 0 where
  owner_allocation insurance_adjustment manual_adjustment : LedgerEntryType
  deal_freeze deal_release deal_settlement deal_settlement_credit : LedgerEntryType
  deal_user_profit team_lead_profit deposit_credit : LedgerEntryType
  withdrawal_hold withdrawal_release withdrawal_paid : LedgerEntryType

-- A number for each member, by which two members are compared.
abbrev pub type_code : LedgerEntryType → ℕ
type_code owner_allocation = 0
type_code insurance_adjustment = 1
type_code manual_adjustment = 2
type_code deal_freeze = 3
type_code deal_release = 4
type_code deal_settlement = 5
type_code deal_settlement_credit = 6
type_code deal_user_profit = 7
type_code team_lead_profit = 8
type_code deposit_credit = 9
type_code withdrawal_hold = 10
type_code withdrawal_release = 11
type_code withdrawal_paid = 12

-- The values "deal", "withdrawal" and "deposit" of `reference_type`, with `reference_id`.
pub data Reference : Type 0 where
  deal withdrawal deposit : ℕ → Reference

abbrev pub eqb_reference : Reference → Reference → Bool
eqb_reference (deal i) (deal j) = i == j
eqb_reference (withdrawal i) (withdrawal j) = i == j
eqb_reference (deposit i) (deposit j) = i == j
eqb_reference _ _ = false

pub record LedgerEntry : Type 0 where
  pub wallet_id : Option ℕ
  pub merchant_wallet_id : Option ℕ
  pub account_id : ℕ
  pub type : LedgerEntryType
  pub balance_bucket : BalanceBucket
  pub currency : Currency
  pub amount : ℤ
  pub available_before : ℤ
  pub available_after : ℤ
  pub insurance_before : ℤ
  pub insurance_after : ℤ
  pub frozen_before : ℤ
  pub frozen_after : ℤ
  pub held_before : ℤ
  pub held_after : ℤ
  pub reference : Option Reference
  pub idempotency_key : Option ℕ
  pub created_by_account_id : Option ℕ
