-- ===== src/Deal/Split.antt =====
-- The shares of a settled deal: computed by percentage, rounded half up to the column's unit.
use gigveyro.Common.{ℕ, suc, ◌+◌, ◌*◌, ◌/◌, ◌≤◌, ◌≡◌, arith}
use gigveyro.Common.Int.{ℤ, pos, negsuc, neg, ◌+ℤ◌, ◌-ℤ◌, ◌≤ℤ◌, int_laws}

-- The percentages of app/core/config.py, in thousandths.
abbrev pub deal_user_profit_percent : ℕ
deal_user_profit_percent = 100

abbrev pub deal_owner_profit_percent : ℕ
deal_owner_profit_percent = 70

abbrev pub team_lead_profit_percent : ℕ
team_lead_profit_percent = 15

-- `(amount * percent).quantize(USDT_QUANTUM, rounding=ROUND_HALF_UP)`, which rounds a half away
-- from zero.
unfoldable pub share_of : ℤ → ℕ → ℤ
share_of (pos n) p = pos ((n * p + 500) / 1000)
share_of (negsuc n) p = neg (pos ((suc n * p + 500) / 1000))

pub record Split : Type 0 where
  pub merchant_amount : ℤ
  pub user_profit : ℤ
  pub owner_profit : ℤ

unfoldable pub compute_deal_settlement_split : ℤ → Split
compute_deal_settlement_split amount =
    let owner = share_of amount deal_owner_profit_percent in
    let user = share_of amount deal_user_profit_percent in
    record { merchant_amount = amount -ℤ owner -ℤ user; user_profit = user; owner_profit = owner }

-- A share rounded half up differs from the exact share by half a unit at most, and only a half is
-- rounded up.
pub share_of_lem :
    (n p q : ℕ)
    → share_of (pos n) p ≡ pos q
    → (1000 * q ≤ n * p + 500) × (n * p + 501 ≤ 1000 * q + 1000)
unfolding share_of
share_of_lem n p q h = (ground arith, ground arith)

-- The shares of a positive amount sum to it exactly; the merchant's share is positive, the user's
-- and the owner's are not negative, and the first two do not exceed the amount.
pub compute_deal_settlement_split_lem :
    (a : ℤ)
    → pos 1 ≤ℤ a
    → (let s = compute_deal_settlement_split a in
        (s.merchant_amount +ℤ s.user_profit +ℤ s.owner_profit ≡ a)
        × (pos 1 ≤ℤ s.merchant_amount)
        × (pos 0 ≤ℤ s.user_profit)
        × (pos 0 ≤ℤ s.owner_profit)
        × (s.merchant_amount +ℤ s.user_profit ≤ℤ a))
unfolding compute_deal_settlement_split share_of
compute_deal_settlement_split_lem (pos n) h =
    (grind int_laws, grind int_laws, grind int_laws, grind int_laws, grind int_laws)
compute_deal_settlement_split_lem (negsuc n) h = absurd (omega arith)
