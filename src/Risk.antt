-- ===== src/Risk.antt =====
-- GIGVEYRO_Backend/app/services/risk.py: the reserve that the treasury must hold, the guard of deals
-- and withdrawals, and the policies that set its limits.
pub mod Guard
pub mod Policies
pub mod Reserve
pub mod Coverage
pub mod Passing
pub mod Activation
use gigveyro.Common.{
  ℕ, ◌+◌, ◌-◌, ◌*◌, ◌/◌, Bool, true, false, not, ◌&&◌, ◌||◌, Option, none, some, List, [], ◌∷◌, leb,
  ltb, ◌==◌, if◌then◌else◌,
}
use gigveyro.Common.Int.{ℤ, pos, pos_part, ◌+ℤ◌, ◌-ℤ◌, ltb_ℤ, leb_ℤ, eqb_ℤ, max_ℤ}
use gigveyro.Models.Wallet.{Decimal, finite, non_finite}
use gigveyro.Models.Risk
use gigveyro.Models.Risk.{
  RiskPolicy, RiskValues, RiskStatus, RiskDecision, RiskReason, ProviderStatus, unknown_provider,
  is_connected, Liabilities, TreasurySnapshot, healthy, warning, critical, stale, unknown, allow,
  warn, block, reserve_data_stale, insufficient_reserve, single_deal_limit, user_exposure_limit,
  pending_withdrawal_limit, total_open_exposure_limit, minimum_external_reserve,
}
use gigveyro.Db.{
  Db, Action, pure, raise, gets, or_raise, ◌>>=◌, ◌>>◌, raise_if, risk_policy_error, risk_blocked,
}
use gigveyro.Db.RiskQueries.{active_risk_policy, liabilities, user_frozen, latest}

-- A quotient of numbers rounded half up.
unfoldable pub half_up : ℕ → ℕ → ℕ
half_up n d = (2 * n + d) / (2 * d)

-- `value.is_finite() and value >= 0`
abbrev pub is_amount : Decimal → Bool
is_amount (finite a) = leb_ℤ (pos 0) a
is_amount non_finite = false

abbrev pub amount_of : Decimal → ℤ
amount_of (finite a) = a
amount_of non_finite = pos 0

abbrev pub all_amounts : Decimal → Decimal → Liabilities → Bool
all_amounts usdt usdc l =
    is_amount usdt
    && is_amount usdc
    && leb_ℤ (pos 0) l.user
    && leb_ℤ (pos 0) l.merchant
    && leb_ℤ (pos 0) l.frozen
    && leb_ℤ (pos 0) l.pending
    && leb_ℤ (pos 0) l.open_deals
    && leb_ℤ (pos 0) l.profit

-- `max(0, int((now - observed_at).total_seconds()))`
abbrev pub age_at : ℕ → Option ℕ → Option ℕ
age_at now none = none
age_at now (some t) = some (now - t)

abbrev pub within : Option ℕ → ℕ → Bool
within none limit = false
within (some age) limit = leb age limit

-- `int((external * BPS / total).to_integral_value(rounding=ROUND_HALF_UP))`
abbrev pub coverage_of : ℤ → ℤ → Option ℕ
coverage_of usdt total =
    if eqb_ℤ total (pos 0) then none else some (half_up (pos_part usdt * 10000) (pos_part total))

-- `coverage is not None and coverage >= ratio`
abbrev pub covers : Option ℕ → ℕ → Bool
covers none ratio = false
covers (some c) ratio = leb ratio c

abbrev pub unobserved : Option ℕ → RiskStatus
unobserved none = unknown
unobserved (some t) = stale

unfoldable pub status_of : Bool → Option ℕ → ℤ → ℤ → ℤ → Option ℕ → RiskValues → RiskStatus
status_of fresh observed_at total usdt required coverage values =
    if not fresh
    then unobserved observed_at
    else if ltb_ℤ (pos 0) total && ltb_ℤ usdt required
    then critical
    else if eqb_ℤ total (pos 0) || covers coverage values.warning_reserve_ratio_bps
    then healthy
    else if covers coverage values.minimum_reserve_ratio_bps
    then warning
    else critical

-- The required reserve: the liabilities times the minimum ratio, rounded half up to a unit.
unfoldable pub required_reserve : ℤ → RiskValues → ℤ
required_reserve total values =
    pos (half_up (pos_part total * values.minimum_reserve_ratio_bps) 10000)

unfoldable pub calculate_snapshot :
    ℕ
    → Option ℕ
    → ProviderStatus
    → Decimal
    → Decimal
    → Liabilities
    → RiskPolicy
    → Option TreasurySnapshot
calculate_snapshot now observed_at provider_status external_usdt external_usdc l policy =
    if not (all_amounts external_usdt external_usdc l)
    then none
    else (let usdt = amount_of external_usdt in
        let total = l.user +ℤ l.merchant in
        let required = required_reserve total policy.values in
        let age = age_at now observed_at in
        let fresh =
          is_connected provider_status && within age policy.values.max_treasury_data_age_seconds in
        let coverage = coverage_of usdt total in
        some (record {
          generated_at = now;
          external_observed_at = observed_at;
          provider_status = provider_status;
          external_bybit_usdt = usdt;
          external_bybit_usdc = amount_of external_usdc;
          internal_user_liability_usdt = l.user;
          merchant_liability_usdt = l.merchant;
          frozen_usdt = l.frozen;
          pending_withdrawal_usdt = l.pending;
          open_deal_exposure_usdt = l.open_deals;
          owner_profit_usdt = l.profit;
          required_reserve_usdt = required;
          reserve_surplus_usdt = max_ℤ (usdt -ℤ required) (pos 0);
          reserve_deficit_usdt = max_ℤ (required -ℤ usdt) (pos 0);
          coverage_ratio_bps = coverage;
          risk_status = status_of fresh observed_at total usdt required coverage policy.values;
          policy_version = policy.version;
          data_age_seconds = age;
        }))

-- `TreasurySnapshotService.current` for a given policy.
abbrev pub since : ℕ → Option TreasurySnapshot → Liabilities → RiskPolicy → Option TreasurySnapshot
since now none l policy =
    calculate_snapshot now none unknown_provider (finite (pos 0)) (finite (pos 0)) l policy
since now (some s) l policy =
    calculate_snapshot now s.external_observed_at s.provider_status (finite s.external_bybit_usdt)
      (finite s.external_bybit_usdc) l policy

unfoldable pub current : ℕ → RiskPolicy → Action TreasurySnapshot
current now policy db =
    or_raise (since now (latest db.treasury_snapshots) (liabilities db) policy) risk_policy_error db

-- `RiskDecisionService.reserve`
abbrev pub is_unknown_or_stale : RiskStatus → Bool
is_unknown_or_stale stale = true
is_unknown_or_stale unknown = true
is_unknown_or_stale _ = false

abbrev pub is_warning : RiskStatus → Bool
is_warning warning = true
is_warning _ = false

-- `policy.minimum_external_usdt_reserve or 0`
abbrev pub or_none : Option Decimal → ℤ
or_none none = pos 0
or_none (some d) = amount_of d

unfoldable pub reserve : TreasurySnapshot → RiskPolicy → RiskDecision × Option RiskReason
reserve snapshot policy =
    if not policy.values.reserve_coverage_enabled
    then (allow, none)
    else if is_unknown_or_stale snapshot.risk_status
    then (block, some reserve_data_stale)
    else if ltb_ℤ (pos 0) snapshot.reserve_deficit_usdt
    then (block, some insufficient_reserve)
    else if policy.values.minimum_external_reserve_enabled
        && ltb_ℤ snapshot.external_bybit_usdt (or_none policy.values.minimum_external_usdt_reserve)
    then (block, some minimum_external_reserve)
    else if is_warning snapshot.risk_status
    then (warn, none)
    else (allow, none)
