-- ===== src/Tests/Risk.antt =====
-- The risk guard and its policies, tried out on a session with an active and a draft policy.
use gigveyro.Risk.Reserve.{calculate_snapshot-IsBalanced}
use gigveyro.Risk.Activation.{activate_risk_policy_lem}
use gigveyro.Risk.{calculate_snapshot}
use gigveyro.Risk.Policies.{activate_risk_policy}
use gigveyro.Common.Table.{All}
use gigveyro.Risk.Reserve.{IsBalanced}
use gigveyro.Risk.Activation.{IsActivated}
use gigveyro.Models.Risk.{Liabilities}
use gigveyro.Risk.Reserve.{WhenSome}
use gigveyro.Risk.Activation.{HasOneActive}
use gigveyro.Risk.Activation.{IsRefused}
use gigveyro.Models.Risk.{is_admissible_policy}
use gigveyro.Common.{ℕ, ◌≡◌, refl, true, false, none, some, [], ◌∷◌, inr}
use gigveyro.Common.Int.{pos}
use gigveyro.Models.Wallet.{finite}
use gigveyro.Models.Risk.{
  RiskPolicy, RiskPolicyStatus, RiskValues, TreasurySnapshot, draft, active, connected, healthy,
}
use gigveyro.Db.{Db}
use gigveyro.Db.Queries.{select}
use gigveyro.Wallet.Posting.{EndsBy}
use gigveyro.Tests.{sample_db}

-- Reserve coverage at 100 %, a warning below 110 %, data of at most 300 seconds, at most 5000 units
-- of pending withdrawals.
abbrev pub sample_values : RiskValues
sample_values = record {
  reserve_coverage_enabled = true;
  minimum_reserve_ratio_bps = 10000;
  warning_reserve_ratio_bps = 11000;
  max_treasury_data_age_seconds = 300;
  single_deal_enabled = true;
  max_single_deal_usdt = some (finite (pos 1000));
  user_exposure_enabled = true;
  max_user_exposure_usdt = some (finite (pos 9000));
  pending_withdrawals_enabled = true;
  max_pending_withdrawals_usdt = some (finite (pos 5000));
  total_open_deals_enabled = false;
  max_total_open_deals_usdt = none;
  minimum_external_reserve_enabled = true;
  minimum_external_usdt_reserve = some (finite (pos 4000));
}

abbrev pub policy_of : ℕ → RiskPolicyStatus → RiskPolicy
policy_of id status = record {
  id = id;
  version = id;
  status = status;
  effective_from = none;
  activated_at = none;
  created_by_account_id = some 0;
  values = sample_values;
}

abbrev pub sample_snapshot : TreasurySnapshot
sample_snapshot = record {
  generated_at = 80;
  external_observed_at = some 80;
  provider_status = connected;
  external_bybit_usdt = pos 9000;
  external_bybit_usdc = pos 0;
  internal_user_liability_usdt = pos 3500;
  merchant_liability_usdt = pos 700;
  frozen_usdt = pos 2000;
  pending_withdrawal_usdt = pos 0;
  open_deal_exposure_usdt = pos 1000;
  owner_profit_usdt = pos 0;
  required_reserve_usdt = pos 4200;
  reserve_surplus_usdt = pos 4800;
  reserve_deficit_usdt = pos 0;
  coverage_ratio_bps = some 21429;
  risk_status = healthy;
  policy_version = 1;
  data_age_seconds = some 0;
}

-- The sample session with its treasury.
abbrev pub guarded_db : Db
guarded_db = record sample_db {
  risk_policies = policy_of 1 active ∷ policy_of 2 draft ∷ [];
  treasury_snapshots = sample_snapshot ∷ [];
}

abbrev sample_liabilities : Liabilities
sample_liabilities = record {
  user = pos 3500;
  merchant = pos 700;
  frozen = pos 2000;
  pending = pos 0;
  open_deals = pos 1000;
  profit = pos 0;
}

guarded_admissible : All (λ p. is_admissible_policy p ≡ true) guarded_db.risk_policies
unfolding is_admissible_policy
guarded_admissible = (refl, (refl, tt))

guarded_one : HasOneActive guarded_db.risk_policies
unfolding select
guarded_one = inr (policy_of 1 active, refl)

activate_risk_policy_lem_example :
    EndsBy
      (IsRefused 90 2 guarded_db guarded_admissible guarded_one)
      (IsActivated 90 2 guarded_db guarded_admissible guarded_one)
      (activate_risk_policy 90 2 guarded_db)
activate_risk_policy_lem_example =
    activate_risk_policy_lem 90 2 guarded_db guarded_admissible guarded_one

calculate_snapshot-IsBalanced_example :
    WhenSome (IsBalanced (policy_of 1 active) sample_liabilities) (
      calculate_snapshot 90
        (some 80)
        connected
        (finite (pos 9000))
        (finite (pos 0))
        sample_liabilities
        (policy_of 1 active))
calculate_snapshot-IsBalanced_example =
    calculate_snapshot-IsBalanced 90 (some 80) connected (finite (pos 9000)) (finite (pos 0))
      sample_liabilities (policy_of 1 active)
