-- ===== src/Deal/Lifecycle.antt =====
-- The life of a deal: which statuses a sequence of allowed transitions reaches.
use gigveyro.Models.Deal.{
  is_admissible_deal, Deal, DealStatus, created, accepted, payment_pending, completed, cancelled,
  expired, disputed,
}
use gigveyro.Deal.{stamped, is_allowed}
use gigveyro.Common.{ℕ, ◌≡◌, ◌≤◌, refl, true, false, Bool, arith}
use gigveyro.Deal.Service.{is_in_progress}
use gigveyro.Models.Deal

-- A sequence of transitions that the service lets pass.
pub data Reaches (s : DealStatus) : DealStatus → Type 0 where
  stay : Reaches s s
  move : {t u : DealStatus} → Reaches s t → is_allowed t u ≡ true → Reaches s u

abbrev pub is_terminal : DealStatus → Bool
is_terminal completed = true
is_terminal cancelled = true
is_terminal expired = true
is_terminal _ = false

-- 0 before the deal is offered, 1 while it is offered, 2 while it is in progress or disputed, 3 when
-- it is over.
abbrev pub phase : DealStatus → ℕ
phase created = 0
phase Deal.DealStatus.available = 1
phase accepted = 2
phase payment_pending = 2
phase disputed = 2
phase completed = 3
phase cancelled = 3
phase expired = 3

allowed-phase : (t u : DealStatus) → is_allowed t u ≡ true → phase t ≤ phase u
unfolding is_allowed
allowed-phase t u h = ground arith

terminal-allowed : (t u : DealStatus) → is_terminal t ≡ true → is_allowed t u ≡ false
unfolding is_allowed
terminal-allowed t u h = ground arith

-- No sequence of allowed transitions leads back to an earlier phase, and none leaves COMPLETED,
-- CANCELLED or EXPIRED.
pub Reaches_lem :
    (s t : DealStatus) → Reaches s t → (phase s ≤ phase t) × (is_terminal s ≡ true → t ≡ s)
Reaches_lem s t stay = (omega arith, λ _. refl)
Reaches_lem s u (move {t} r allowed) =
    let (low, terminal) = Reaches_lem s t r in
    let next_low = allowed-phase t u allowed in
    (omega arith, λ h. absurd (let same = terminal h in let stuck = terminal-allowed s u h in cc))

-- A deal in progress may be completed, and cancelled.
pub in_progress-allowed :
    (s : DealStatus)
    → is_in_progress s ≡ true
    → (is_allowed s completed ≡ true) × (is_allowed s cancelled ≡ true)
unfolding is_allowed
in_progress-allowed s h = ground arith

-- A deal in progress may go into dispute and back.
pub in_progress-restorable :
    (s : DealStatus)
    → is_in_progress s ≡ true
    → (is_allowed s disputed ≡ true) × (is_allowed disputed s ≡ true)
unfolding is_allowed
in_progress-restorable s h = ground arith

-- A transition changes no column that a check constraint reads, and not the identifier.
pub stamped-is_admissible :
    (now : ℕ) (s : DealStatus) (d : Deal)
    → is_admissible_deal (stamped now s d) ≡ is_admissible_deal d
unfolding stamped is_admissible_deal
stamped-is_admissible now created d = refl
stamped-is_admissible now Deal.DealStatus.available d = refl
stamped-is_admissible now accepted d = refl
stamped-is_admissible now payment_pending d = refl
stamped-is_admissible now completed d = refl
stamped-is_admissible now cancelled d = refl
stamped-is_admissible now expired d = refl
stamped-is_admissible now disputed d = refl

pub stamped-id : (now : ℕ) (s : DealStatus) (d : Deal) → (stamped now s d).id ≡ d.id
unfolding stamped
stamped-id now created d = refl
stamped-id now Deal.DealStatus.available d = refl
stamped-id now accepted d = refl
stamped-id now payment_pending d = refl
stamped-id now completed d = refl
stamped-id now cancelled d = refl
stamped-id now expired d = refl
stamped-id now disputed d = refl

-- Nothing is left of a dispute after the next transition.
pub stamped-stamped :
    (now now' : ℕ) (s : DealStatus) (d : Deal)
    → stamped now' s (stamped now disputed d) ≡ stamped now' s d
unfolding stamped
stamped-stamped now now' created d = refl
stamped-stamped now now' Deal.DealStatus.available d = refl
stamped-stamped now now' accepted d = refl
stamped-stamped now now' payment_pending d = refl
stamped-stamped now now' completed d = refl
stamped-stamped now now' cancelled d = refl
stamped-stamped now now' expired d = refl
stamped-stamped now now' disputed d = refl
