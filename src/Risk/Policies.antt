-- ===== src/Risk/Policies.antt =====
-- RiskPolicyService in GIGVEYRO_Backend/app/services/risk.py: the creation and the activation of a
-- policy.
use gigveyro.Common.{
  ℕ, ◌+◌, Bool, true, false, not, ◌&&◌, ◌||◌, Option, none, some, List, [], ◌∷◌, leb, ltb,
  if◌then◌else◌,
}
use gigveyro.Common.Table.{find}
use gigveyro.Models.Wallet.{Decimal}
use gigveyro.Models.Risk.{
  RiskPolicy, RiskValues, policy_key, is_active_policy, is_draft_policy, draft, active, retired,
}
use gigveyro.Db.{Action, pure, gets, or_raise, ◌>>=◌, ◌>>◌, raise_if, modify, risk_policy_error}
use gigveyro.Db.RiskQueries.{save_policy, insert_policy}
use gigveyro.Risk.{is_amount}

-- `isinstance(value, Decimal) and (not value.is_finite() or value < 0)`
abbrev pub is_bad : Option Decimal → Bool
is_bad none = false
is_bad (some d) = not (is_amount d)

abbrev pub is_none : Option Decimal → Bool
is_none none = true
is_none (some d) = false

-- `RiskPolicyService.validate`: the ratios, the thresholds, then the thresholds that are enabled.
unfoldable pub validate : RiskValues → Action (Unit {0})
validate v = do
  raise_if
      (not (
        leb v.minimum_reserve_ratio_bps v.warning_reserve_ratio_bps
        && leb v.warning_reserve_ratio_bps 50000))
      risk_policy_error
  raise_if
      (is_bad v.max_single_deal_usdt
        || is_bad v.max_user_exposure_usdt
        || is_bad v.max_pending_withdrawals_usdt
        || is_bad v.max_total_open_deals_usdt
        || is_bad v.minimum_external_usdt_reserve)
      risk_policy_error
  raise_if
      (v.single_deal_enabled && is_none v.max_single_deal_usdt
        || v.user_exposure_enabled && is_none v.max_user_exposure_usdt
        || v.pending_withdrawals_enabled && is_none v.max_pending_withdrawals_usdt
        || v.total_open_deals_enabled && is_none v.max_total_open_deals_usdt
        || v.minimum_external_reserve_enabled && is_none v.minimum_external_usdt_reserve)
      risk_policy_error

-- `max((p.version for p in policies), default=0)`
unfoldable pub max_version : List RiskPolicy → ℕ
max_version [] = 0
max_version (p ∷ ps) = let rest = max_version ps in if ltb rest p.version then p.version else rest

-- `id` is the new row's identifier.
unfoldable pub create_risk_policy : ℕ → ℕ → RiskValues → Action RiskPolicy
create_risk_policy id actor_id values = do
  validate values
  version ← gets (λ db. max_version db.risk_policies)
  insert_policy (record {
    id = id;
    version = version + 1;
    status = draft;
    effective_from = none;
    activated_at = none;
    created_by_account_id = some actor_id;
    values = values;
  })

-- `for policy in policies: if policy.status == "active": policy.status = "retired"`
unfoldable pub retire_active : List RiskPolicy → List RiskPolicy
retire_active [] = []
retire_active (p ∷ ps) =
    let rest = retire_active ps in
    if is_active_policy p.status then (record p { status = retired }) ∷ rest else p ∷ rest

unfoldable pub activate_draft : ℕ → RiskPolicy → Action RiskPolicy
activate_draft now target = if is_active_policy target.status then pure target else (do
  raise_if (not (is_draft_policy target.status)) risk_policy_error
  modify (λ db. record db { risk_policies = retire_active db.risk_policies })
  save_policy
      (record target { status = active; effective_from = some now; activated_at = some now }))

unfoldable pub activate_risk_policy : ℕ → ℕ → Action RiskPolicy
activate_risk_policy now policy_id = do
  found ← gets (λ db. find policy_key policy_id db.risk_policies)
  target ← or_raise found risk_policy_error
  activate_draft now target
