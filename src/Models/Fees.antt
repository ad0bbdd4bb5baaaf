-- ===== src/Models/Fees.antt =====
-- GIGVEYRO_Backend/app/models/fees.py and app/enums/fees.py: the rows that a deal's settlement
-- writes. The identifiers of the rows, and `percent_bps` with the other columns that only describe
-- the fee, are left out.
use gigveyro.Common.{ℕ, Bool, true, false, ◌&&◌, ◌==◌}
use gigveyro.Common.Int.{ℤ, pos, ◌+ℤ◌, leb_ℤ, ltb_ℤ, eqb_ℤ}
use gigveyro.Models.Wallet.{Currency}

pub data FeePolicyStatus : Type 0 where
  draft active retired : FeePolicyStatus

abbrev pub is_active_status : FeePolicyStatus → Bool
is_active_status active = true
is_active_status _ = false

pub record FeePolicy : Type 0 where
  pub version : ℕ
  pub status : FeePolicyStatus

-- A pair of `source_type` and `source_id`, with the fee type: a deal's fee, or a conversion's.
pub data FeeSource : Type 0 where
  deal_fee fiat_conversion : ℕ → FeeSource

abbrev pub eqb_source : FeeSource → FeeSource → Bool
eqb_source (deal_fee i) (deal_fee j) = i == j
eqb_source (fiat_conversion i) (fiat_conversion j) = i == j
eqb_source _ _ = false

pub record FeeSnapshot : Type 0 where
  pub policy_version : ℕ
  pub source : FeeSource
  pub gross_amount : ℤ
  pub fee_amount : ℤ
  pub net_amount : ℤ

pub record OwnerProfitEntry : Type 0 where
  pub source : FeeSource
  pub currency : Currency
  pub gross_amount : ℤ
  pub fee_amount : ℤ
  pub policy_version : ℕ

-- The check constraints of `fee_snapshots` and of `owner_profit_entries`.
unfoldable pub is_admissible_snapshot : FeeSnapshot → Bool
is_admissible_snapshot s =
    leb_ℤ (pos 0) s.gross_amount
    && leb_ℤ (pos 0) s.fee_amount
    && leb_ℤ (pos 0) s.net_amount
    && eqb_ℤ s.gross_amount (s.fee_amount +ℤ s.net_amount)

unfoldable pub is_admissible_profit : OwnerProfitEntry → Bool
is_admissible_profit e = ltb_ℤ (pos 0) e.gross_amount && ltb_ℤ (pos 0) e.fee_amount
