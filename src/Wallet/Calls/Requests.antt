-- ===== src/Wallet/Calls/Requests.antt =====
-- Any sequence of requests to WalletService.
use gigveyro.Common.{ℕ, ◌≡◌, true, false, some, none, List, [], ◌∷◌, arith}
use gigveyro.Common.Int.{ℤ, neg}
use gigveyro.Common.Table.{All}
use gigveyro.Models.Wallet.{finite}
use gigveyro.Models.Ledger.{
  LedgerEntryType, type_code, deal_settlement, deal_settlement_credit, deal_user_profit,
  deal_freeze, deal_release, team_lead_profit, withdrawal_hold, withdrawal_release, withdrawal_paid,
  deposit_credit, owner_allocation, insurance_adjustment, manual_adjustment, available, frozen,
  held, insurance, LedgerEntry,
}
use gigveyro.Db.{Db, Result, ok, err, request}
use gigveyro.Wallet.Calls.{Call, perform, serve, serve_all}
use gigveyro.Wallet.Calls.Evolution.{
  Evolves, AllWhole, Steps, here, Steps-trans, Steps-IsSound, MovesUser-Evolves,
  MovesMerchant-Evolves,
}
use gigveyro.Wallet.Calls.Soundness.{
  Evolving, Evolving-drop, Ends-Evolving, adjustment-Evolving, settle-Evolving,
  set_insurance_target-Evolving,
}
use gigveyro.Wallet.Credits.{
  allocate, adjust_insurance, manual_adjust, set_insurance_target, credit_deposit,
  credit_deposit_for_merchant,
}
use gigveyro.Wallet.Credits.Outcome.{credit_deposit_lem, credit_deposit_for_merchant_lem, allocated}
use gigveyro.Wallet.Deals.{
  freeze_for_deal, release_for_deal, settle_deal, credit_team_lead_profit, credited, deducted,
}
use gigveyro.Wallet.Deals.Outcome.{
  freeze, unfreeze, freeze_for_deal_lem, release_for_deal_lem, credit_team_lead_profit_lem,
}
use gigveyro.Wallet.Deals.Settlement.{credited_merchant}
use gigveyro.Wallet.Posting.{IsSound}
use gigveyro.Wallet.Withdrawals.{
  hold_for_withdrawal, release_for_withdrawal, pay_withdrawal, hold_for_user_withdrawal,
  release_for_user_withdrawal, pay_for_user_withdrawal,
}
use gigveyro.Wallet.Withdrawals.Outcome.{
  hold, unhold, pay_out, hold_for_withdrawal_lem, release_for_withdrawal_lem, pay_withdrawal_lem,
  hold_for_user_withdrawal_lem, release_for_user_withdrawal_lem, pay_for_user_withdrawal_lem,
}
use gigveyro.Models.Ledger

-- A settlement passes the deal's own share of the user; of the other calls nothing is asked.
abbrev pub IsConsistent : (ℕ → ℤ) → Call → Type 0
IsConsistent share (Call.settle user_id merchant_id amount m p deal_id actor) =
    p ≡ finite (share deal_id)
IsConsistent share _ = Unit

-- From a sound session in which each deal is settled with its own share or not at all, a call that
-- passes a settled deal's own share takes a sequence of postings and target changes after which each
-- deal is again settled with its own share or not at all; or it raises an expected exception, and
-- then has written nothing unless a balance passed its column's limit.
pub perform_lem :
    (share : ℕ → ℤ) (db : Db) (sound : IsSound db)
    → AllWhole share db
    → (c : Call) → IsConsistent share c
    → Evolving share db sound (perform c db)
unfolding perform allocate adjust_insurance manual_adjust
perform_lem share db sound whole (Call.freeze id amount d) own =
    Evolving-drop share db sound (freeze_for_deal id amount d) (
      Ends-Evolving share db sound (freeze_for_deal id amount d db) (
        MovesUser-Evolves share id deal_freeze frozen (λ a. a) (Ledger.Reference.deal d) (some id)
          amount (omega arith, omega arith, omega arith) db freeze (freeze_for_deal id amount d db)
          (freeze_for_deal_lem id amount d db sound)))
perform_lem share db sound whole (Call.release id amount d) own =
    Evolving-drop share db sound (release_for_deal id amount d) (
      Ends-Evolving share db sound (release_for_deal id amount d db) (
        MovesUser-Evolves share id deal_release available (λ a. a) (Ledger.Reference.deal d)
          (some id) amount (omega arith, omega arith, omega arith) db unfreeze
          (release_for_deal id amount d db) (release_for_deal_lem id amount d db sound)))
perform_lem share db sound whole (Call.settle u v amount m p d actor) own =
    Evolving-drop share db sound (settle_deal u v amount m p d actor)
      (settle-Evolving share db sound u v amount m p d actor own whole)
perform_lem share db sound whole (Call.credit_team_lead id amount d actor) own =
    Evolving-drop share db sound (credit_team_lead_profit id amount d actor) (
      Ends-Evolving share db sound (credit_team_lead_profit id amount d actor db) (
        MovesUser-Evolves share id team_lead_profit available (λ a. a) (Ledger.Reference.deal d)
          actor amount (omega arith, omega arith, omega arith) db (λ a w. credited w a)
          (credit_team_lead_profit id amount d actor db)
          (credit_team_lead_profit_lem id amount d db sound actor)))
perform_lem share db sound whole (Call.hold id amount w) own =
    Evolving-drop share db sound (hold_for_withdrawal id amount w) (
      Ends-Evolving share db sound (hold_for_withdrawal id amount w db) (
        MovesMerchant-Evolves share id withdrawal_hold held (λ a. a) (Ledger.Reference.withdrawal w)
          (some id) amount (omega arith, omega arith, omega arith) db hold
          (hold_for_withdrawal id amount w db) (hold_for_withdrawal_lem id amount w db sound)))
perform_lem share db sound whole (Call.hold_user id amount w) own =
    Evolving-drop share db sound (hold_for_user_withdrawal id amount w) (
      Ends-Evolving share db sound (hold_for_user_withdrawal id amount w db) (
        MovesUser-Evolves share id withdrawal_hold frozen (λ a. a) (Ledger.Reference.withdrawal w)
          (some id) amount (omega arith, omega arith, omega arith) db freeze
          (hold_for_user_withdrawal id amount w db)
          (hold_for_user_withdrawal_lem id amount w db sound)))
perform_lem share db sound whole (Call.release_hold id amount w actor) own =
    Evolving-drop share db sound (release_for_withdrawal id amount w actor) (
      Ends-Evolving share db sound (release_for_withdrawal id amount w actor db) (
        MovesMerchant-Evolves share id withdrawal_release available (λ a. a)
          (Ledger.Reference.withdrawal w) (some actor) amount
          (omega arith, omega arith, omega arith) db unhold
          (release_for_withdrawal id amount w actor db)
          (release_for_withdrawal_lem id amount w db sound actor)))
perform_lem share db sound whole (Call.pay id amount w actor) own =
    Evolving-drop share db sound (pay_withdrawal id amount w actor) (
      Ends-Evolving share db sound (pay_withdrawal id amount w actor db) (
        MovesMerchant-Evolves share id withdrawal_paid held neg (Ledger.Reference.withdrawal w)
          (some actor) amount (omega arith, omega arith, omega arith) db pay_out
          (pay_withdrawal id amount w actor db) (pay_withdrawal_lem id amount w db sound actor)))
perform_lem share db sound whole (Call.release_hold_user id amount w actor) own =
    Evolving-drop share db sound (release_for_user_withdrawal id amount w actor) (
      Ends-Evolving share db sound (release_for_user_withdrawal id amount w actor db) (
        MovesUser-Evolves share id withdrawal_release available (λ a. a)
          (Ledger.Reference.withdrawal w) (some actor) amount
          (omega arith, omega arith, omega arith) db unfreeze
          (release_for_user_withdrawal id amount w actor db)
          (release_for_user_withdrawal_lem id amount w db sound actor)))
perform_lem share db sound whole (Call.pay_user id amount w actor) own =
    Evolving-drop share db sound (pay_for_user_withdrawal id amount w actor) (
      Ends-Evolving share db sound (pay_for_user_withdrawal id amount w actor db) (
        MovesUser-Evolves share id withdrawal_paid frozen neg (Ledger.Reference.withdrawal w)
          (some actor) amount (omega arith, omega arith, omega arith) db (λ a u. deducted u a)
          (pay_for_user_withdrawal id amount w actor db)
          (pay_for_user_withdrawal_lem id amount w db sound actor)))
perform_lem share db sound whole (Call.deposit id amount d) own =
    Evolving-drop share db sound (credit_deposit id amount d) (
      Ends-Evolving share db sound (credit_deposit id amount d db) (
        MovesUser-Evolves share id deposit_credit available (λ a. a) (Ledger.Reference.deposit d)
          none amount (omega arith, omega arith, omega arith) db allocated
          (credit_deposit id amount d db) (credit_deposit_lem id amount d db sound)))
perform_lem share db sound whole (Call.deposit_merchant id amount d) own =
    Evolving-drop share db sound (credit_deposit_for_merchant id amount d) (
      Ends-Evolving share db sound (credit_deposit_for_merchant id amount d db) (
        MovesMerchant-Evolves share id deposit_credit available (λ a. a)
          (Ledger.Reference.deposit d) none amount (omega arith, omega arith, omega arith) db
          (λ a w. credited_merchant w a) (credit_deposit_for_merchant id amount d db)
          (credit_deposit_for_merchant_lem id amount d db sound)))
perform_lem share db sound whole (Call.allocate_funds actor id amount key) own =
    Evolving-drop share db sound (allocate actor id amount key) (
      adjustment-Evolving share db sound actor id available owner_allocation amount true key
        (omega arith, omega arith, omega arith))
perform_lem share db sound whole (Call.adjust_reserve actor id amount key) own =
    Evolving-drop share db sound (adjust_insurance actor id amount key) (
      adjustment-Evolving share db sound actor id insurance insurance_adjustment amount false key
        (omega arith, omega arith, omega arith))
perform_lem share db sound whole (Call.adjust_available actor id amount key) own =
    Evolving-drop share db sound (manual_adjust actor id amount key) (
      adjustment-Evolving share db sound actor id available manual_adjustment amount false key
        (omega arith, omega arith, omega arith))
perform_lem share db sound whole (Call.set_target id amount) own =
    Evolving-drop share db sound (set_insurance_target id amount)
      (set_insurance_target-Evolving share db sound id amount)

committed-Evolves :
    (share : ℕ → ℤ) (db : Db) (sound : IsSound db) (x : Result (Unit {0}) × Db)
    → Evolving share db sound x
    → Evolves share db
        ((elim x.0 as (λ _. Result (Unit {0}) × Db) [ ok a ↦ (ok a, x.1) | err e ↦ (err e, db) ]).1)
committed-Evolves share db sound (ok a, db') h = h
committed-Evolves share db sound (err e, db') h = record { steps = here; whole = λ w. w }

serve-Evolves :
    (share : ℕ → ℤ) (db : Db)
    → IsSound db
    → AllWhole share db
    → (c : Call) → IsConsistent share c
    → Evolves share db (serve c db)
unfolding serve request
serve-Evolves share db sound whole c own =
    committed-Evolves share db sound (perform c db) (perform_lem share db sound whole c own)

-- Whatever consistent calls are made of a sound session in which each deal is settled with its own
-- share or not at all, one request each and in any order, the session is what a sequence of
-- postings and target changes makes of it; it is sound, so no balance is negative and no reference
-- or idempotency key is on record twice; and each deal is settled with its own share or not at all.
pub serve_all_lem :
    (share : ℕ → ℤ) (db : Db) (cs : List Call)
    → IsSound db
    → AllWhole share db
    → All (IsConsistent share) cs
    → Steps db (serve_all cs db) × IsSound (serve_all cs db) × AllWhole share (serve_all cs db)
unfolding serve_all
serve_all_lem share db [] sound whole own = (here, sound, whole)
serve_all_lem share db (c ∷ cs) sound whole (own, owns) =
    let first = serve-Evolves share db sound whole c own in
    let rest =
      serve_all_lem share (serve c db) cs (Steps-IsSound first.steps sound) (first.whole whole)
        owns in
    (Steps-trans first.steps rest.0, rest.1, rest.2)
