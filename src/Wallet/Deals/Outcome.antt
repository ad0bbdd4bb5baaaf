-- ===== src/Wallet/Deals/Outcome.antt =====
-- How freeze_for_deal, release_for_deal and credit_team_lead_profit end.
use gigveyro.Common.{ℕ, refl, ◌⊎◌, Option, some, false}
use gigveyro.Common.Int.{ℤ, ◌+ℤ◌, ◌-ℤ◌, ltb_ℤ, int_laws}
use gigveyro.Models.Wallet.{Decimal, UserWallet}
use gigveyro.Models.Ledger
use gigveyro.Models.Ledger.{deal_freeze, deal_release, team_lead_profit, available, frozen}
use gigveyro.Db.{Db, insufficient_balance}
use gigveyro.Wallet.Deals.{freeze_for_deal, release_for_deal, credit_team_lead_profit, credited}
use gigveyro.Wallet.Posting.{IsSound, Ends}
use gigveyro.Wallet.Posting.Rules.{Replays}
use gigveyro.Wallet.Posting.Moves.{MovesUser, Ends-move_user}

-- From the available balance to the frozen one, and back.
abbrev pub freeze : ℤ → UserWallet → UserWallet
freeze a w = record w {
  available_balance = w.available_balance -ℤ a;
  frozen_balance = w.frozen_balance +ℤ a;
}

abbrev pub unfreeze : ℤ → UserWallet → UserWallet
unfreeze a w = record w {
  available_balance = w.available_balance +ℤ a;
  frozen_balance = w.frozen_balance -ℤ a;
}

module _ (account_id : ℕ) (amount : Decimal) (deal_id : ℕ) (db : Db) (sound : IsSound db) where
  -- From a sound session, freeze_for_deal raises an expected exception and writes nothing, or
  -- returns the row that is on record and writes nothing, or posts one movement of the positive
  -- amount from the account's available balance to its frozen balance, which leaves no balance
  -- negative.
  pub freeze_for_deal_lem :
      Ends
        (λ e db'.
          Replays (Ledger.Reference.deal deal_id) deal_freeze db e db'
          ⊎ MovesUser account_id deal_freeze frozen
              (λ a. a)
              (Ledger.Reference.deal deal_id)
              (some account_id)
              amount
              freeze
              db
              e
              db')
        db
        (freeze_for_deal account_id amount deal_id db)
  unfolding freeze_for_deal
  freeze_for_deal_lem =
      Ends-move_user account_id deal_freeze frozen (λ a. a) (Ledger.Reference.deal deal_id)
        (some account_id) amount insufficient_balance tt db sound
        (λ a w. ltb_ℤ w.available_balance a) freeze (λ a w. refl)
        (λ a w pa enough h. grind int_laws)

  -- From a sound session, release_for_deal raises an expected exception and writes nothing, or
  -- returns the row that is on record and writes nothing, or posts one movement of the positive
  -- amount from the account's frozen balance to its available balance, which leaves no balance
  -- negative.
  pub release_for_deal_lem :
      Ends
        (λ e db'.
          Replays (Ledger.Reference.deal deal_id) deal_release db e db'
          ⊎ MovesUser account_id deal_release available
              (λ a. a)
              (Ledger.Reference.deal deal_id)
              (some account_id)
              amount
              unfreeze
              db
              e
              db')
        db
        (release_for_deal account_id amount deal_id db)
  unfolding release_for_deal
  release_for_deal_lem =
      Ends-move_user account_id deal_release available (λ a. a) (Ledger.Reference.deal deal_id)
        (some account_id) amount insufficient_balance tt db sound (λ a w. ltb_ℤ w.frozen_balance a)
        unfreeze (λ a w. refl) (λ a w pa enough h. grind int_laws)

  -- From a sound session, credit_team_lead_profit raises an expected exception and writes nothing,
  -- or returns the row that is on record and writes nothing, or posts the positive amount to the
  -- available balance of the team lead's wallet.
  pub credit_team_lead_profit_lem :
      (creator : Option ℕ)
      → Ends
          (λ e db'.
            Replays (Ledger.Reference.deal deal_id) team_lead_profit db e db'
            ⊎ MovesUser account_id team_lead_profit available
                (λ a. a)
                (Ledger.Reference.deal deal_id)
                creator
                amount
                (λ a w. credited w a)
                db
                e
                db')
          db
          (credit_team_lead_profit account_id amount deal_id creator db)
  unfolding credit_team_lead_profit
  credit_team_lead_profit_lem creator =
      Ends-move_user account_id team_lead_profit available (λ a. a) (Ledger.Reference.deal deal_id)
        creator amount insufficient_balance tt db sound (λ a w. false) (λ a w. credited w a)
        (λ a w. refl) (λ a w pa enough h. grind int_laws)
