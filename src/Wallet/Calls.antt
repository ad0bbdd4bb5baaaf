-- ===== src/Wallet/Calls.antt =====
-- WalletService as its callers see it: one call to a request, with the commit or the rollback of
-- GIGVEYRO_Backend/app/db/session.py, and any sequence of such requests.
pub mod Evolution
pub mod Recorded
pub mod Settlements
pub mod Soundness
pub mod Requests
pub mod Reconciliation
pub mod MerchantReconciliation
pub mod Books
use gigveyro.Common.{ℕ, Option, List, [], ◌∷◌}
use gigveyro.Models.Wallet.{Decimal}
use gigveyro.Db.{Db, Action, request, pure, ◌>>=◌, ◌>>◌}
use gigveyro.Wallet.Deals.{freeze_for_deal, release_for_deal, settle_deal, credit_team_lead_profit}
use gigveyro.Wallet.Withdrawals.{
  hold_for_withdrawal, release_for_withdrawal, pay_withdrawal, hold_for_user_withdrawal,
  release_for_user_withdrawal, pay_for_user_withdrawal,
}
use gigveyro.Wallet.Credits.{
  credit_deposit, credit_deposit_for_merchant, allocate, adjust_insurance, manual_adjust,
  set_insurance_target,
}

-- The public methods that move money or change a wallet, with their arguments.
pub data Call : Type 0 where
  freeze release : ℕ → Decimal → ℕ → Call
  settle : ℕ → ℕ → Decimal → Decimal → Decimal → ℕ → Option ℕ → Call
  credit_team_lead : ℕ → Decimal → ℕ → Option ℕ → Call
  hold hold_user : ℕ → Decimal → ℕ → Call
  release_hold pay release_hold_user pay_user : ℕ → Decimal → ℕ → ℕ → Call
  deposit deposit_merchant : ℕ → Decimal → ℕ → Call
  allocate_funds adjust_reserve adjust_available : ℕ → ℕ → Decimal → Option ℕ → Call
  set_target : ℕ → Decimal → Call

-- The method of a call, for its effect.
unfoldable pub perform : Call → Action (Unit {0})
perform (Call.freeze id amount deal_id) = freeze_for_deal id amount deal_id >> pure tt
perform (Call.release id amount deal_id) = release_for_deal id amount deal_id >> pure tt
perform (Call.settle user_id merchant_id amount m p deal_id actor) =
    settle_deal user_id merchant_id amount m p deal_id actor >> pure tt
perform (Call.credit_team_lead id amount deal_id actor) =
    credit_team_lead_profit id amount deal_id actor >> pure tt
perform (Call.hold id amount w) = hold_for_withdrawal id amount w >> pure tt
perform (Call.hold_user id amount w) = hold_for_user_withdrawal id amount w >> pure tt
perform (Call.release_hold id amount w actor) = release_for_withdrawal id amount w actor >> pure tt
perform (Call.pay id amount w actor) = pay_withdrawal id amount w actor >> pure tt
perform (Call.release_hold_user id amount w actor) =
    release_for_user_withdrawal id amount w actor >> pure tt
perform (Call.pay_user id amount w actor) = pay_for_user_withdrawal id amount w actor >> pure tt
perform (Call.deposit id amount d) = credit_deposit id amount d >> pure tt
perform (Call.deposit_merchant id amount d) = credit_deposit_for_merchant id amount d >> pure tt
perform (Call.allocate_funds actor id amount key) = allocate actor id amount key >> pure tt
perform (Call.adjust_reserve actor id amount key) = adjust_insurance actor id amount key >> pure tt
perform (Call.adjust_available actor id amount key) = manual_adjust actor id amount key >> pure tt
perform (Call.set_target id amount) = set_insurance_target id amount >> pure tt

-- The session after a request, and after a sequence of them.
unfoldable pub serve : Call → Db → Db
serve c db = (request (perform c) db).1

unfoldable pub serve_all : List Call → Db → Db
serve_all [] db = db
serve_all (c ∷ cs) db = serve_all cs (serve c db)
