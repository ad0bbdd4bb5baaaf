-- ===== src/Deal.antt =====
-- GIGVEYRO_Backend/app/services/deal.py: the status of a deal, the split of a settled amount, and
-- the settlement, the cancellation and the expiry of a deal.
pub mod Lifecycle
pub mod Split
pub mod Service
pub mod Profit
pub mod Session
pub mod Payment
pub mod Outcome
pub mod Final
use gigveyro.Common.{ℕ, Bool, true, false, Option, none, some, not}
use gigveyro.Models.Deal
use gigveyro.Models.Deal.{
  Deal, DealStatus, created, accepted, payment_pending, completed, cancelled, expired, disputed,
}
use gigveyro.Db.{Action, pure, ◌>>=◌, ◌>>◌, raise_if, invalid_deal_transition}

-- `ALLOWED_TRANSITIONS`
unfoldable pub is_allowed : DealStatus → DealStatus → Bool
is_allowed created Deal.DealStatus.available = true
is_allowed Deal.DealStatus.available accepted = true
is_allowed Deal.DealStatus.available cancelled = true
is_allowed Deal.DealStatus.available expired = true
is_allowed accepted payment_pending = true
is_allowed accepted completed = true
is_allowed accepted cancelled = true
is_allowed accepted disputed = true
is_allowed payment_pending completed = true
is_allowed payment_pending cancelled = true
is_allowed payment_pending disputed = true
is_allowed disputed completed = true
is_allowed disputed cancelled = true
is_allowed disputed accepted = true
is_allowed disputed payment_pending = true
is_allowed _ _ = false

-- `_TERMINAL_TIMESTAMP_FIELD`: the time at which the status was reached.
unfoldable pub stamped : ℕ → DealStatus → Deal → Deal
stamped now accepted d = record d { status = accepted; accepted_at = some now }
stamped now completed d = record d { status = completed; completed_at = some now }
stamped now cancelled d = record d { status = cancelled; cancelled_at = some now }
stamped now s d = record d { status = s }

unfoldable pub transition_deal : ℕ → Deal → DealStatus → Action Deal
transition_deal now d s = do
  raise_if (not (is_allowed d.status s)) invalid_deal_transition
  pure (stamped now s d)
