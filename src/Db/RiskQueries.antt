-- ===== src/Db/RiskQueries.antt =====
-- GIGVEYRO_Backend/app/repositories/risk.py: the queries of the risk guard and of its policies.
-- The advisory lock of `serialize_enforcement` makes concurrent checks sequential and is left out.
use gigveyro.Common.{
  ℕ, Bool, true, false, Option, none, some, List, [], ◌∷◌, ◌&&◌, ◌||◌, not, ◌==◌, ltb,
  if◌then◌else◌,
}
use gigveyro.Common.Int.{ℤ, pos, ◌+ℤ◌}
use gigveyro.Common.Table.{sum_by, put}
use gigveyro.Models.Deal.{Deal, DealStatus, accepted, payment_pending, disputed}
use gigveyro.Models.Withdrawal.{Withdrawal, WithdrawalStatus, pending, approved}
use gigveyro.Models.Wallet.{UserWallet, MerchantWallet, Currency, usdt}
use gigveyro.Models.Risk.{
  RiskPolicy, policy_key, is_active_policy, is_admissible_policy, Liabilities, TreasurySnapshot,
}
use gigveyro.Db.{Db, Action, pure, ◌>>◌, raise_if, modify, integrity}
use gigveyro.Db.Queries.{select, find_wallet}
use gigveyro.Db.DealQueries.{scalar_one, is_empty}
use gigveyro.Models.Fees.{OwnerProfitEntry}

unfoldable pub active_risk_policy : Action RiskPolicy
active_risk_policy db = scalar_one (select (λ p. is_active_policy p.status) db.risk_policies) db

-- A flush of a changed policy: the check constraints and the partial unique index
-- `uq_risk_policy_active`.
unfoldable pub save_policy : RiskPolicy → Action RiskPolicy
save_policy p db =
    (do
      raise_if
          (not (is_admissible_policy p)
            || (is_active_policy p.status
                && not (
                    is_empty (
                      select (λ r. is_active_policy r.status && not (r.id == p.id))
                        db.risk_policies))))
          integrity
      modify (λ d. record d { risk_policies = put policy_key p d.risk_policies })
      pure p)
      db

-- The insertion of a new policy.
unfoldable pub insert_policy : RiskPolicy → Action RiskPolicy
insert_policy p db =
    (do
      raise_if
          (not (is_admissible_policy p)
            || not (is_empty (select (λ r. r.version == p.version) db.risk_policies)))
          integrity
      modify (λ d. record d { risk_policies = p ∷ d.risk_policies })
      pure p)
      db

-- `OPEN_DEAL_STATUSES`
abbrev pub is_open_deal : DealStatus → Bool
is_open_deal accepted = true
is_open_deal payment_pending = true
is_open_deal disputed = true
is_open_deal _ = false

-- `OPEN_WITHDRAWAL_STATUSES`
abbrev pub is_open_withdrawal : WithdrawalStatus → Bool
is_open_withdrawal pending = true
is_open_withdrawal approved = true
is_open_withdrawal _ = false

-- SUM passes over a NULL.
abbrev pub or_zero : Option ℤ → ℤ
or_zero none = pos 0
or_zero (some a) = a

-- `OwnerProfitEntry.currency == "USDT"`
abbrev pub is_usdt : Currency → Bool
is_usdt usdt = true
is_usdt _ = false

unfoldable pub liabilities : Db → Liabilities
liabilities db = record {
  user =
      sum_by (λ (w : UserWallet). w.available_balance +ℤ w.insurance_balance +ℤ w.frozen_balance)
        db.wallets;
  merchant =
      sum_by (λ (w : MerchantWallet). w.available_balance +ℤ w.held_balance) db.merchant_wallets;
  frozen = sum_by (λ (w : UserWallet). w.frozen_balance) db.wallets;
  pending =
      sum_by (λ (w : Withdrawal). w.amount)
        (select (λ (w : Withdrawal). is_open_withdrawal w.status) db.merchant_withdrawals);
  open_deals =
      sum_by (λ (d : Deal). or_zero d.amount_usdt)
        (select (λ (d : Deal). is_open_deal d.status) db.deals);
  profit =
      sum_by (λ (e : OwnerProfitEntry). e.fee_amount)
        (select (λ (e : OwnerProfitEntry). is_usdt e.currency) db.owner_profits);
}

abbrev pub frozen_of : Option UserWallet → ℤ
frozen_of none = pos 0
frozen_of (some w) = w.frozen_balance

unfoldable pub user_frozen : ℕ → Db → ℤ
user_frozen account_id db = frozen_of (find_wallet account_id db)

-- The row with the greatest `generated_at`.
unfoldable pub latest : List TreasurySnapshot → Option TreasurySnapshot
latest [] = none
latest (s ∷ rows) = elim (latest rows) [
  | none ↦ some s
  | some t ↦ some (if ltb s.generated_at t.generated_at then t else s)
]
