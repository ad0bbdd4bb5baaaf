-- ===== src/Db.antt =====
-- The session of a request: the tables that the services read and write, and the exceptions.
-- A service method is an action on the session. An exception keeps what was written before it, so
-- that a method leaves nothing behind when it raises has to be proved; `request` is the rollback of
-- GIGVEYRO_Backend/app/db/session.py.
pub mod Queries
pub mod DealQueries
pub mod WithdrawalQueries
pub mod RiskQueries
pub mod AppealQueries
use gigveyro.Common.{Bool, true, false, Option, none, some, List}
use gigveyro.Models.Account.{Account}
use gigveyro.Models.Wallet.{UserWallet, MerchantWallet}
use gigveyro.Models.Ledger.{LedgerEntry}
use gigveyro.Models.Deal.{Deal}
use gigveyro.Models.Withdrawal.{MerchantWithdrawal, UserWithdrawal, TeamLeadWithdrawal}
use gigveyro.Models.Appeal.{DealAppeal}
use gigveyro.Models.Risk.{RiskPolicy, RiskReason, TreasurySnapshot}
use gigveyro.Models.Fees.{FeePolicy, FeeSnapshot, OwnerProfitEntry}

pub record Db : Type 0 where
  pub accounts : List Account
  pub wallets : List UserWallet
  pub merchant_wallets : List MerchantWallet
  pub ledger : List LedgerEntry
  pub deals : List Deal
  pub fee_policies : List FeePolicy
  pub fee_snapshots : List FeeSnapshot
  pub owner_profits : List OwnerProfitEntry
  pub merchant_withdrawals : List MerchantWithdrawal
  pub user_withdrawals : List UserWithdrawal
  pub team_lead_withdrawals : List TeamLeadWithdrawal
  pub risk_policies : List RiskPolicy
  pub treasury_snapshots : List TreasurySnapshot
  pub appeals : List DealAppeal

-- The exception classes; their messages are left out. `integrity` and `data_error` are SQLAlchemy's
-- IntegrityError and DataError, `multiple_results` and `no_result` its query errors; after a failed
-- flush, a further one raises its `pending_rollback`. `overflow` is Python's OverflowError.
pub data Error : Type 0 where
  wallet_not_found inactive_account invalid_amount : Error
  insufficient_balance insufficient_insurance_reserve : Error
  deal_not_found invalid_deal_transition : Error
  withdrawal_not_found withdrawal_creation_not_allowed : Error
  invalid_withdrawal_transition invalid_destination : Error
  appeal_not_found appeal_not_allowed invalid_appeal_transition : Error
  risk_policy_error pending_rollback overflow : Error
  risk_blocked : RiskReason → Error
  integrity data_error multiple_results no_result : Error

pub data Result (A : Type 0) : Type 0 where
  ok : A → Result A
  err : Error → Result A

abbrev pub Action : Type 0 → Type 0
Action A = Db → Result A × Db

module _ {A : Type 0} where
  abbrev pub pure : A → Action A
  pure a db = (ok a, db)

  abbrev pub raise : Error → Action A
  raise e db = (err e, db)

  abbrev pub or_raise : Option A → Error → Action A
  or_raise none e = raise e
  or_raise (some a) _ = pure a

  abbrev pub gets : (Db → A) → Action A
  gets f db = (ok (f db), db)

abbrev pub raise_if : Bool → Error → Action (Unit {0})
raise_if true e = raise e
raise_if false e = pure tt

abbrev pub modify : (Db → Db) → Action (Unit {0})
modify f db = (ok tt, f db)

infixl 5 ◌>>=◌ ◌>>◌
abbrev pub ◌>>=◌ : {A B : Type 0} → Action A → (A → Action B) → Action B
◌>>=◌ m f db = let (r, db') = m db in elim r [ ok a ↦ f a db' | err e ↦ raise e db' ]

abbrev pub ◌>>◌ : {A B : Type 0} → Action A → Action B → Action B
m >> k = m >>= λ _. k

-- `get_db`: commit what the handler did, or roll back and raise.
unfoldable pub request : {A : Type 0} → Action A → Action A
request m db = let (r, db') = m db in elim r [ ok a ↦ (ok a, db') | err e ↦ (err e, db) ]
