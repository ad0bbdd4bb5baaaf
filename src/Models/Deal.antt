-- ===== src/Models/Deal.antt =====
-- GIGVEYRO_Backend/app/models/deal.py and app/enums/deal.py. A time is a number. The columns
-- `public_id`, `requisite_*`, `rate_*`, `created_at` and `updated_at`, which are only displayed, are
-- left out.
use gigveyro.Common.{ℕ, Bool, true, Option, none, some, ◌&&◌}
use gigveyro.Common.Int.{ℤ, pos, ltb_ℤ}

pub data DealStatus : Type 0 where
  created available accepted payment_pending completed cancelled expired disputed : DealStatus

abbrev pub status_code : DealStatus → ℕ
status_code created = 0
status_code available = 1
status_code accepted = 2
status_code payment_pending = 3
status_code completed = 4
status_code cancelled = 5
status_code expired = 6
status_code disputed = 7

pub record Deal : Type 0 where
  pub id : ℕ
  pub merchant_id : ℕ
  pub user_id : Option ℕ
  pub payment_requisite_id : Option ℕ
  pub amount_tjs : ℤ
  pub exchange_rate : Option ℤ
  pub amount_usdt : Option ℤ
  pub status : DealStatus
  pub expires_at : ℕ
  pub accepted_at : Option ℕ
  pub completed_at : Option ℕ
  pub cancelled_at : Option ℕ
  pub merchant_settlement_amount : Option ℤ
  pub user_profit_amount : Option ℤ
  pub owner_profit_amount : Option ℤ
  pub team_lead_profit_amount : Option ℤ

abbrev pub deal_key : Deal → ℕ
deal_key d = d.id

abbrev pub positive_or_none : Option ℤ → Bool
positive_or_none none = true
positive_or_none (some a) = ltb_ℤ (pos 0) a

-- The check constraints of `deals`.
unfoldable pub is_admissible_deal : Deal → Bool
is_admissible_deal d =
    ltb_ℤ (pos 0) d.amount_tjs && positive_or_none d.amount_usdt && positive_or_none d.exchange_rate
