-- ===== src/Models/Risk.antt =====
-- GIGVEYRO_Backend/app/models/risk.py and app/enums/risk.py, with the snapshot of
-- app/services/risk.py. A time is a number of seconds; an amount of USDT is an integer of units.
use gigveyro.Common.{ℕ, Bool, true, false, Option, ◌&&◌, leb}
use gigveyro.Common.Int.{ℤ}
use gigveyro.Models.Wallet.{Decimal}
use gigveyro.Models.Withdrawal.{Text}

pub data RiskPolicyStatus : Type 0 where
  draft active retired : RiskPolicyStatus

pub data RiskStatus : Type 0 where
  healthy warning critical stale unknown : RiskStatus

pub data RiskDecision : Type 0 where
  allow warn block : RiskDecision

pub data RiskReason : Type 0 where
  reserve_data_stale insufficient_reserve single_deal_limit user_exposure_limit : RiskReason
  pending_withdrawal_limit total_open_exposure_limit minimum_external_reserve : RiskReason

-- The switches and thresholds of a policy, the argument `values` of its creation.
pub record RiskValues : Type 0 where
  pub reserve_coverage_enabled : Bool
  pub minimum_reserve_ratio_bps : ℕ
  pub warning_reserve_ratio_bps : ℕ
  pub max_treasury_data_age_seconds : ℕ
  pub single_deal_enabled : Bool
  pub max_single_deal_usdt : Option Decimal
  pub user_exposure_enabled : Bool
  pub max_user_exposure_usdt : Option Decimal
  pub pending_withdrawals_enabled : Bool
  pub max_pending_withdrawals_usdt : Option Decimal
  pub total_open_deals_enabled : Bool
  pub max_total_open_deals_usdt : Option Decimal
  pub minimum_external_reserve_enabled : Bool
  pub minimum_external_usdt_reserve : Option Decimal

pub record RiskPolicy : Type 0 where
  pub id : ℕ
  pub version : ℕ
  pub status : RiskPolicyStatus
  pub effective_from : Option ℕ
  pub activated_at : Option ℕ
  pub created_by_account_id : Option ℕ
  pub values : RiskValues

abbrev pub policy_key : RiskPolicy → ℕ
policy_key p = p.id

abbrev pub is_active_policy : RiskPolicyStatus → Bool
is_active_policy active = true
is_active_policy _ = false

abbrev pub is_draft_policy : RiskPolicyStatus → Bool
is_draft_policy draft = true
is_draft_policy _ = false

-- The check constraints of `risk_policies`.
unfoldable pub is_admissible_policy : RiskPolicy → Bool
is_admissible_policy p =
    leb p.values.minimum_reserve_ratio_bps 50000
    && leb p.values.minimum_reserve_ratio_bps p.values.warning_reserve_ratio_bps
    && leb p.values.warning_reserve_ratio_bps 50000
    && leb 30 p.values.max_treasury_data_age_seconds
    && leb p.values.max_treasury_data_age_seconds 86400

-- The values of `provider_status`; the code only tests for "connected".
pub data ProviderStatus : Type 0 where
  connected unknown_provider : ProviderStatus
  other : Text → ProviderStatus

abbrev pub is_connected : ProviderStatus → Bool
is_connected connected = true
is_connected _ = false

-- The sums of `RiskRepository.liabilities`.
pub record Liabilities : Type 0 where
  pub user : ℤ
  pub merchant : ℤ
  pub frozen : ℤ
  pub pending : ℤ
  pub open_deals : ℤ
  pub profit : ℤ

pub record TreasurySnapshot : Type 0 where
  pub generated_at : ℕ
  pub external_observed_at : Option ℕ
  pub provider_status : ProviderStatus
  pub external_bybit_usdt : ℤ
  pub external_bybit_usdc : ℤ
  pub internal_user_liability_usdt : ℤ
  pub merchant_liability_usdt : ℤ
  pub frozen_usdt : ℤ
  pub pending_withdrawal_usdt : ℤ
  pub open_deal_exposure_usdt : ℤ
  pub owner_profit_usdt : ℤ
  pub required_reserve_usdt : ℤ
  pub reserve_surplus_usdt : ℤ
  pub reserve_deficit_usdt : ℤ
  pub coverage_ratio_bps : Option ℕ
  pub risk_status : RiskStatus
  pub policy_version : ℕ
  pub data_age_seconds : Option ℕ
