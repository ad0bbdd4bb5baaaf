-- ===== src/Tests/Movements.antt =====
-- The movements of WalletService, tried out on the sample session.
use gigveyro.Common.{◌≡◌, refl, ◌⊎◌, inl, false, none, some, arith}
use gigveyro.Common.Int.{pos, ◌+ℤ◌, ◌≤ℤ◌}
use gigveyro.Models.Wallet.{finite}
use gigveyro.Models.Ledger.{
  BalanceBucket, deal_freeze, deal_release, team_lead_profit, withdrawal_hold, withdrawal_release,
  withdrawal_paid, deposit_credit, insurance_adjustment, available, frozen, held,
}
use gigveyro.Db.Queries.{select}
use gigveyro.Wallet.Credits.{
  to_insurance, credit_deposit, credit_deposit_for_merchant, apply_bucket_change,
}
use gigveyro.Wallet.Credits.Adjustment.{ReplaysKey, AdjustsTarget, apply_bucket_change_lem}
use gigveyro.Wallet.Credits.Outcome.{
  to_insurance_lem, credit_deposit_lem, credit_deposit_for_merchant_lem, allocated,
}
use gigveyro.Wallet.Deals.{
  freeze_for_deal, release_for_deal, settle_deal, credit_team_lead_profit, credited,
}
use gigveyro.Wallet.Deals.Outcome.{
  freeze, unfreeze, freeze_for_deal_lem, release_for_deal_lem, credit_team_lead_profit_lem,
}
use gigveyro.Wallet.Deals.Settlement.{credited_merchant, Stops, ReplaysSettlement, SettlesShares}
use gigveyro.Wallet.Deals.Settlement.Returns.{settle_deal_lem}
use gigveyro.Wallet.Posting.{Ends, EndsBy}
use gigveyro.Wallet.Posting.Moves.{MovesUser, MovesMerchant}
use gigveyro.Wallet.Posting.Rules.{Replays}
use gigveyro.Tests.{sample_wallet, sample_db, sample-IsSound}
use gigveyro.Models.Ledger

freeze_for_deal_lem_example :
    Ends
      (λ e db'.
        Replays (Ledger.Reference.deal 9) deal_freeze sample_db e db'
        ⊎ MovesUser 1 deal_freeze frozen
            (λ a. a)
            (Ledger.Reference.deal 9)
            (some 1)
            (finite (pos 400))
            freeze
            sample_db
            e
            db')
      sample_db
      (freeze_for_deal 1 (finite (pos 400)) 9 sample_db)
freeze_for_deal_lem_example = freeze_for_deal_lem 1 (finite (pos 400)) 9 sample_db sample-IsSound

release_for_deal_lem_example :
    Ends
      (λ e db'.
        Replays (Ledger.Reference.deal 9) deal_release sample_db e db'
        ⊎ MovesUser 1 deal_release available
            (λ a. a)
            (Ledger.Reference.deal 9)
            (some 1)
            (finite (pos 400))
            unfreeze
            sample_db
            e
            db')
      sample_db
      (release_for_deal 1 (finite (pos 400)) 9 sample_db)
release_for_deal_lem_example = release_for_deal_lem 1 (finite (pos 400)) 9 sample_db sample-IsSound

credit_team_lead_profit_lem_example :
    Ends
      (λ e db'.
        Replays (Ledger.Reference.deal 9) team_lead_profit sample_db e db'
        ⊎ MovesUser 3 team_lead_profit available
            (λ a. a)
            (Ledger.Reference.deal 9)
            (some 0)
            (finite (pos 400))
            (λ a w. credited w a)
            sample_db
            e
            db')
      sample_db
      (credit_team_lead_profit 3 (finite (pos 400)) 9 (some 0) sample_db)
credit_team_lead_profit_lem_example =
    credit_team_lead_profit_lem 3 (finite (pos 400)) 9 sample_db sample-IsSound (some 0)

to_insurance_lem_example :
    (pos 0 ≤ℤ to_insurance sample_wallet (pos 400))
    × (to_insurance sample_wallet (pos 400) ≤ℤ (pos 400))
    × ((to_insurance sample_wallet (pos 400) ≡ pos 0)
        ⊎ (sample_wallet.insurance_balance +ℤ to_insurance sample_wallet (pos 400)
            ≤ℤ sample_wallet.insurance_target))
    × ((to_insurance sample_wallet (pos 400) ≡ (pos 400))
        ⊎ (sample_wallet.insurance_target
            ≤ℤ sample_wallet.insurance_balance +ℤ to_insurance sample_wallet (pos 400)))
to_insurance_lem_example = to_insurance_lem sample_wallet (pos 400) (omega arith)

credit_deposit_lem_example :
    Ends
      (λ e db'.
        Replays (Ledger.Reference.deposit 9) deposit_credit sample_db e db'
        ⊎ MovesUser 1 deposit_credit available
            (λ a. a)
            (Ledger.Reference.deposit 9)
            none
            (finite (pos 400))
            allocated
            sample_db
            e
            db')
      sample_db
      (credit_deposit 1 (finite (pos 400)) 9 sample_db)
credit_deposit_lem_example = credit_deposit_lem 1 (finite (pos 400)) 9 sample_db sample-IsSound

credit_deposit_for_merchant_lem_example :
    Ends
      (λ e db'.
        Replays (Ledger.Reference.deposit 9) deposit_credit sample_db e db'
        ⊎ MovesMerchant 2 deposit_credit available
            (λ a. a)
            (Ledger.Reference.deposit 9)
            none
            (finite (pos 300))
            (λ a w. credited_merchant w a)
            sample_db
            e
            db')
      sample_db
      (credit_deposit_for_merchant 2 (finite (pos 300)) 9 sample_db)
credit_deposit_for_merchant_lem_example =
    credit_deposit_for_merchant_lem 2 (finite (pos 300)) 9 sample_db sample-IsSound

apply_bucket_change_lem_example :
    Ends
      (λ e db'.
        ReplaysKey 1 (some 77) sample_db e db'
        ⊎ AdjustsTarget 0 1 BalanceBucket.insurance insurance_adjustment
            (finite (pos 50))
            false
            (some 77)
            sample_db
            e
            db')
      sample_db
      (apply_bucket_change 0 1 BalanceBucket.insurance insurance_adjustment
        (finite (pos 50))
        false
        (some 77)
        sample_db)
apply_bucket_change_lem_example =
    apply_bucket_change_lem 0 1 BalanceBucket.insurance insurance_adjustment (finite (pos 50)) false
      (some 77) sample_db sample-IsSound

settle_deal_lem_example :
    EndsBy
      (Stops sample_db)
      (λ s db'.
        ReplaysSettlement 7 sample_db s db'
        ⊎ SettlesShares 1 2
            (finite (pos 1000))
            (finite (pos 830))
            (finite (pos 100))
            7
            (some 0)
            sample_db
            s
            db')
      (settle_deal 1 2
        (finite (pos 1000))
        (finite (pos 830))
        (finite (pos 100))
        7
        (some 0)
        sample_db)
unfolding select
settle_deal_lem_example =
    settle_deal_lem 1 2 (finite (pos 1000)) (finite (pos 830)) (finite (pos 100)) 7 (some 0)
      sample_db sample-IsSound (λ p e. inl (refl, refl, refl))
