-- ===== src/Deal/Service.antt =====
-- GIGVEYRO_Backend/app/services/deal.py: record_deal_owner_profit,
-- credit_team_lead_profit_if_assigned, complete_deal, cancel_or_release_deal and _expire_if_needed.
-- `now` is the clock of the call. The realtime event that follows a change is left out: it is a row
-- of the outbox.
use gigveyro.Common.{ℕ, Bool, true, false, ◌&&◌, not, leb, Option, none, some, if◌then◌else◌}
use gigveyro.Common.Int.{ℤ, pos, ◌-ℤ◌, leb_ℤ}
use gigveyro.Models.Account.{Account}
use gigveyro.Models.Wallet.{finite, usdt}
use gigveyro.Models.Deal.{
  Deal, DealStatus, accepted, payment_pending, completed, cancelled, expired, status_code,
}
use gigveyro.Models.Fees.{OwnerProfitEntry, deal_fee}
use gigveyro.Db.{Action, pure, raise, gets, ◌>>=◌, ◌>>◌, raise_if, invalid_deal_transition}
use gigveyro.Db.Queries.{find_account}
use gigveyro.Db.DealQueries.{
  lock_deal, save_deal, active_policy, get_profit_by_source, create_snapshot, create_profit,
}
use gigveyro.Wallet.Deals.{settle_deal, release_for_deal, credit_team_lead_profit}
use gigveyro.Deal.{transition_deal}
use gigveyro.Deal.Split.{compute_deal_settlement_split, share_of, team_lead_profit_percent}
use gigveyro.Models.Deal

-- The snapshot and the entry of the owner's share, under the active policy.
unfoldable pub create_owner_profit : Deal → ℤ → ℤ → ℤ → Action (Unit {0})
create_owner_profit deal gross_amount merchant_amount owner_profit = do
  policy ← active_policy
  create_snapshot (record {
    policy_version = policy.version;
    source = deal_fee deal.id;
    gross_amount = gross_amount;
    fee_amount = gross_amount -ℤ merchant_amount;
    net_amount = merchant_amount;
  })
  create_profit (record {
    source = deal_fee deal.id;
    currency = usdt;
    gross_amount = gross_amount;
    fee_amount = owner_profit;
    policy_version = policy.version;
  })
  pure tt

-- `if existing is not None: return`
abbrev pub unless_recorded : Option OwnerProfitEntry → Action (Unit {0}) → Action (Unit {0})
unless_recorded (some e) rest = pure tt
unless_recorded none rest = rest

unfoldable pub record_deal_owner_profit : Deal → ℤ → ℤ → ℤ → Action (Unit {0})
record_deal_owner_profit deal gross_amount merchant_amount owner_profit =
    if leb_ℤ owner_profit (pos 0) then pure tt else (do
      existing ← get_profit_by_source (deal_fee deal.id)
      unless_recorded existing (create_owner_profit deal gross_amount merchant_amount owner_profit))

-- The team lead of the account, if it exists and is assigned to one.
abbrev pub team_lead_of : Option Account → Option ℕ
team_lead_of none = none
team_lead_of (some account) = account.team_lead_id

unfoldable pub credit_to_team_lead : Option ℕ → ℤ → ℕ → Option ℕ → Action (Option ℤ)
credit_to_team_lead none profit deal_id actor_id = pure none
credit_to_team_lead (some team_lead_id) profit deal_id actor_id =
    if leb_ℤ profit (pos 0) then pure (some (pos 0)) else (do
      credit_team_lead_profit team_lead_id (finite profit) deal_id actor_id
      pure (some profit))

unfoldable pub credit_team_lead_profit_if_assigned : Deal → Option ℕ → Action (Option ℤ)
credit_team_lead_profit_if_assigned deal actor_id = elim deal.user_id [
  | none ↦ pure none
  | some user_id ↦ elim deal.amount_usdt [
    | none ↦ pure none
    | some amount ↦ do
      account ← gets (find_account user_id)
      credit_to_team_lead (team_lead_of account) (share_of amount team_lead_profit_percent) deal.id
          actor_id
  ]
]

-- `deal.status in (DealStatus.ACCEPTED, DealStatus.PAYMENT_PENDING)`
abbrev pub is_in_progress : DealStatus → Bool
is_in_progress accepted = true
is_in_progress payment_pending = true
is_in_progress _ = false

abbrev pub is_completed : DealStatus → Bool
is_completed completed = true
is_completed _ = false

abbrev pub is_cancelled : DealStatus → Bool
is_cancelled cancelled = true
is_cancelled _ = false

-- The settlement of a deal in progress: the wallets, the owner's share, the team lead's share, then
-- the row of the deal.
unfoldable pub settle_in_progress : ℕ → Deal → ℕ → ℤ → Option ℕ → Action Deal
settle_in_progress now deal user_id amount actor_id =
    let split = compute_deal_settlement_split amount in
    do
      settle_deal user_id deal.merchant_id (finite amount) (finite split.merchant_amount)
          (finite split.user_profit) deal.id actor_id
      record_deal_owner_profit deal amount split.merchant_amount split.owner_profit
      team_lead_profit ← credit_team_lead_profit_if_assigned deal actor_id
      settled ←
          transition_deal now
            (record deal {
              merchant_settlement_amount = some split.merchant_amount;
              user_profit_amount = some split.user_profit;
              owner_profit_amount = some split.owner_profit;
              team_lead_profit_amount = team_lead_profit;
            })
            completed
      save_deal settled
      pure settled

-- The guards on the user and the amount of the deal.
abbrev pub with_terms : Deal → (ℕ → ℤ → Action Deal) → Action Deal
with_terms deal rest = elim deal.user_id [
  | none ↦ raise invalid_deal_transition
  | some user_id ↦ elim deal.amount_usdt [
    | none ↦ raise invalid_deal_transition
    | some amount ↦ rest user_id amount
  ]
]

unfoldable pub complete_locked : ℕ → Option ℕ → Deal → Action Deal
complete_locked now actor_id deal = if is_completed deal.status then pure deal else (do
  raise_if (not (is_in_progress deal.status)) invalid_deal_transition
  with_terms deal (λ user_id amount. settle_in_progress now deal user_id amount actor_id))

unfoldable pub complete_deal : ℕ → ℕ → Option ℕ → Action Deal
complete_deal now deal_id actor_id = lock_deal deal_id >>= complete_locked now actor_id

unfoldable pub release_in_progress : ℕ → Deal → ℕ → ℤ → Action Deal
release_in_progress now deal user_id amount = do
  release_for_deal user_id (finite amount) deal.id
  released ← transition_deal now deal cancelled
  save_deal released
  pure released

unfoldable pub cancel_locked : ℕ → Deal → Action Deal
cancel_locked now deal = if is_cancelled deal.status then pure deal else (do
  raise_if (not (is_in_progress deal.status)) invalid_deal_transition
  with_terms deal (release_in_progress now deal))

unfoldable pub cancel_or_release_deal : ℕ → ℕ → Action Deal
cancel_or_release_deal now deal_id = lock_deal deal_id >>= cancel_locked now

abbrev pub is_available : DealStatus → Bool
is_available Deal.DealStatus.available = true
is_available _ = false

unfoldable pub expire_if_needed : ℕ → Deal → Action Deal
expire_if_needed now deal =
    if is_available deal.status && leb deal.expires_at now
    then (do gone ← transition_deal now deal expired; save_deal gone; pure gone)
    else pure deal
