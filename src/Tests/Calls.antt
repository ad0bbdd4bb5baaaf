-- ===== src/Tests/Calls.antt =====
-- Sequences of requests to WalletService, tried out on the sample session.
use gigveyro.Common.{refl, some, List, [], ◌∷◌}
use gigveyro.Common.Int.{pos, negsuc}
use gigveyro.Common.Table.{All, find}
use gigveyro.Models.Wallet.{finite, non_finite}
use gigveyro.Wallet.Calls.{Call, perform, serve_all}
use gigveyro.Wallet.Calls.Books.{user_balances_lem, merchant_balances_lem}
use gigveyro.Wallet.Calls.Evolution.{Steps, AllWhole}
use gigveyro.Wallet.Calls.MerchantReconciliation.{AccountsForMerchant}
use gigveyro.Wallet.Calls.Reconciliation.{AccountsFor}
use gigveyro.Wallet.Calls.Requests.{IsConsistent, serve_all_lem, perform_lem}
use gigveyro.Wallet.Calls.Soundness.{Evolving}
use gigveyro.Wallet.Posting.{IsSound}
use gigveyro.Tests.{
  sample_wallet, sample_merchant, sample_db, sample_share, sample-IsSound, sample-AllWhole,
}

-- The settlement of the sample deal.
abbrev sample_settle : Call
sample_settle = Call.settle 1 2 (finite (pos 1000)) (finite (pos 830)) (finite (pos 100)) 7 (some 0)

-- A settlement, its retry, a freeze of too much, a hold and its payment, a deposit, a deposit of no
-- number, and an adjustment.
abbrev sample_calls : List Call
sample_calls =
    sample_settle
    ∷ sample_settle
    ∷ Call.freeze 1 (finite (pos 5000)) 8
    ∷ Call.hold 2 (finite (pos 200)) 21
    ∷ Call.pay 2 (finite (pos 200)) 21 0
    ∷ Call.deposit 1 (finite (pos 250)) 31
    ∷ Call.deposit 1 non_finite 32
    ∷ Call.adjust_available 0 1 (finite (negsuc 9)) (some 41)
    ∷ []

sample_calls_own : All (IsConsistent sample_share) sample_calls
sample_calls_own = (refl, (refl, (tt, (tt, (tt, (tt, (tt, (tt, tt))))))))

serve_all_lem_example :
    Steps sample_db (serve_all sample_calls sample_db)
    × IsSound (serve_all sample_calls sample_db)
    × AllWhole sample_share (serve_all sample_calls sample_db)
serve_all_lem_example =
    serve_all_lem sample_share sample_db sample_calls sample-IsSound sample-AllWhole
      sample_calls_own

perform_lem_example :
    Evolving sample_share sample_db sample-IsSound (perform sample_settle sample_db)
perform_lem_example =
    perform_lem sample_share sample_db sample-IsSound sample-AllWhole sample_settle refl

user_balances_lem_example :
    AccountsFor
      (λ w. w.available_balance)
      (λ e. e.available_before)
      (λ e. e.available_after)
      1
      sample_wallet
      sample_db
      (serve_all sample_calls sample_db)
    × AccountsFor
        (λ w. w.insurance_balance)
        (λ e. e.insurance_before)
        (λ e. e.insurance_after)
        1
        sample_wallet
        sample_db
        (serve_all sample_calls sample_db)
    × AccountsFor
        (λ w. w.frozen_balance)
        (λ e. e.frozen_before)
        (λ e. e.frozen_after)
        1
        sample_wallet
        sample_db
        (serve_all sample_calls sample_db)
unfolding find
user_balances_lem_example =
    user_balances_lem sample_share sample_db sample_calls sample-IsSound sample-AllWhole
      sample_calls_own 1 sample_wallet refl

merchant_balances_lem_example :
    AccountsForMerchant
      (λ w. w.available_balance)
      (λ e. e.available_before)
      (λ e. e.available_after)
      2
      sample_merchant
      sample_db
      (serve_all sample_calls sample_db)
    × AccountsForMerchant
        (λ w. w.held_balance)
        (λ e. e.held_before)
        (λ e. e.held_after)
        2
        sample_merchant
        sample_db
        (serve_all sample_calls sample_db)
unfolding find
merchant_balances_lem_example =
    merchant_balances_lem sample_share sample_db sample_calls sample-IsSound sample-AllWhole
      sample_calls_own 2 sample_merchant refl
