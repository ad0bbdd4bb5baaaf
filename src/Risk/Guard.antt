-- ===== src/Risk/Guard.antt =====
-- RiskGuard in GIGVEYRO_Backend/app/services/risk.py: check_deal, check_withdrawal and their limits.
use gigveyro.Common.{ℕ, Bool, false, ◌&&◌, Option, none, some, List, [], ◌∷◌}
use gigveyro.Common.Int.{ℤ, ◌+ℤ◌, ltb_ℤ}
use gigveyro.Models.Wallet.{Decimal, finite, non_finite}
use gigveyro.Models.Risk.{
  RiskPolicy, RiskDecision, RiskReason, TreasurySnapshot, block, reserve_data_stale,
  single_deal_limit, user_exposure_limit, pending_withdrawal_limit, total_open_exposure_limit,
}
use gigveyro.Db.{Action, pure, raise, gets, ◌>>=◌, ◌>>◌, raise_if, risk_blocked}
use gigveyro.Db.RiskQueries.{active_risk_policy, user_frozen}
use gigveyro.Risk.{current, reserve}

-- A limit: whether it is enabled, the current amount, the threshold and the reason.
pub record Limit : Type 0 where
  pub enabled : Bool
  pub current : ℤ
  pub threshold : Option Decimal
  pub reason : RiskReason

-- `threshold is not None and current > threshold`; a stored threshold is finite.
abbrev pub exceeds : ℤ → Option Decimal → Bool
exceeds current none = false
exceeds current (some (finite t)) = ltb_ℤ t current
exceeds current (some non_finite) = false

unfoldable pub limits : List Limit → Action (Unit {0})
limits [] = pure tt
limits (l ∷ ls) = do
  raise_if (l.enabled && exceeds l.current l.threshold) (risk_blocked l.reason)
  limits ls

-- `if decision == RiskDecision.BLOCK: raise RiskBlockedError(…)`
abbrev pub unless_blocked : RiskDecision × Option RiskReason → Action (Unit {0})
unless_blocked (block, some reason) = raise (risk_blocked reason)
unless_blocked (block, none) = raise (risk_blocked reserve_data_stale)
unless_blocked (_, reason) = pure tt

unfoldable pub deal_limits : RiskPolicy → TreasurySnapshot → ℤ → ℤ → List Limit
deal_limits policy snapshot frozen amount =
    record {
      enabled = policy.values.single_deal_enabled;
      current = amount;
      threshold = policy.values.max_single_deal_usdt;
      reason = single_deal_limit;
    }
    ∷ record {
      enabled = policy.values.user_exposure_enabled;
      current = frozen +ℤ amount;
      threshold = policy.values.max_user_exposure_usdt;
      reason = user_exposure_limit;
    }
    ∷ record {
      enabled = policy.values.total_open_deals_enabled;
      current = snapshot.open_deal_exposure_usdt +ℤ amount;
      threshold = policy.values.max_total_open_deals_usdt;
      reason = total_open_exposure_limit;
    }
    ∷ []

unfoldable pub check_deal : ℕ → ℕ → ℤ → Action (Unit {0})
check_deal now user_id amount = do
  policy ← active_risk_policy
  snapshot ← current now policy
  unless_blocked (reserve snapshot policy)
  frozen ← gets (user_frozen user_id)
  limits (deal_limits policy snapshot frozen amount)

unfoldable pub withdrawal_limits : RiskPolicy → TreasurySnapshot → ℤ → List Limit
withdrawal_limits policy snapshot amount =
    record {
      enabled = policy.values.pending_withdrawals_enabled;
      current = snapshot.pending_withdrawal_usdt +ℤ amount;
      threshold = policy.values.max_pending_withdrawals_usdt;
      reason = pending_withdrawal_limit;
    }
    ∷ []

unfoldable pub check_withdrawal : ℕ → ℤ → Action (Unit {0})
check_withdrawal now amount = do
  policy ← active_risk_policy
  snapshot ← current now policy
  unless_blocked (reserve snapshot policy)
  limits (withdrawal_limits policy snapshot amount)
