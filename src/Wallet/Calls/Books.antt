-- ===== src/Wallet/Calls/Books.antt =====
-- The books balance after any sequence of requests to WalletService.
use gigveyro.Common.{ℕ, ◌≡◌, refl, some, List}
use gigveyro.Common.Int.{ℤ}
use gigveyro.Common.Table.{All}
use gigveyro.Models.Wallet.{UserWallet, MerchantWallet}
use gigveyro.Db.{Db}
use gigveyro.Db.Queries.{find_wallet, find_merchant}
use gigveyro.Wallet.Posting.{IsSound}
use gigveyro.Wallet.Calls.{Call, serve_all}
use gigveyro.Wallet.Calls.Evolution.{AllWhole}
use gigveyro.Wallet.Calls.MerchantReconciliation.{AccountsForMerchant, Steps-AccountedMerchant}
use gigveyro.Wallet.Calls.Reconciliation.{AccountsFor, Steps-Accounted}
use gigveyro.Wallet.Calls.Requests.{IsConsistent, serve_all_lem}

module _ (share : ℕ → ℤ) (db : Db) (cs : List Call) (sound : IsSound db) (whole : AllWhole share db)
    (own : All (IsConsistent share) cs) (id : ℕ) where
  -- After any consistent requests to a sound session, an account that has a user wallet still has
  -- one, and each of its available, insurance and frozen balances has changed by the sum of what
  -- the new ledger rows of that account's wallet say, after minus before.
  pub user_balances_lem :
      (u : UserWallet)
      → find_wallet id db ≡ some u
      → AccountsFor
          (λ w. w.available_balance)
          (λ e. e.available_before)
          (λ e. e.available_after)
          id
          u
          db
          (serve_all cs db)
        × AccountsFor
            (λ w. w.insurance_balance)
            (λ e. e.insurance_before)
            (λ e. e.insurance_after)
            id
            u
            db
            (serve_all cs db)
        × AccountsFor
            (λ w. w.frozen_balance)
            (λ e. e.frozen_before)
            (λ e. e.frozen_after)
            id
            u
            db
            (serve_all cs db)
  user_balances_lem u found =
      let steps = (serve_all_lem share db cs sound whole own).0 in
      (
        Steps-Accounted (λ w. w.available_balance) (λ e. e.available_before)
            (λ e. e.available_after) (λ w w' e r. (r.available_before, r.available_after))
            (λ w t. refl) id u db (serve_all cs db) steps found,
        Steps-Accounted (λ w. w.insurance_balance) (λ e. e.insurance_before)
            (λ e. e.insurance_after) (λ w w' e r. (r.insurance_before, r.insurance_after))
            (λ w t. refl) id u db (serve_all cs db) steps found,
        Steps-Accounted (λ w. w.frozen_balance) (λ e. e.frozen_before) (λ e. e.frozen_after)
            (λ w w' e r. (r.frozen_before, r.frozen_after)) (λ w t. refl) id u db (serve_all cs db)
            steps found,
      )

  -- After any consistent requests to a sound session, an account that has a merchant wallet still
  -- has one, and its available and held balances have changed by the sum of what the new ledger
  -- rows of that account's wallet say, after minus before.
  pub merchant_balances_lem :
      (u : MerchantWallet)
      → find_merchant id db ≡ some u
      → AccountsForMerchant
          (λ w. w.available_balance)
          (λ e. e.available_before)
          (λ e. e.available_after)
          id
          u
          db
          (serve_all cs db)
        × AccountsForMerchant
            (λ w. w.held_balance)
            (λ e. e.held_before)
            (λ e. e.held_after)
            id
            u
            db
            (serve_all cs db)
  merchant_balances_lem u found =
      let steps = (serve_all_lem share db cs sound whole own).0 in
      (
        Steps-AccountedMerchant (λ w. w.available_balance) (λ e. e.available_before)
            (λ e. e.available_after) (λ w w' e r. (r.available_before, r.available_after)) id u db
            (serve_all cs db) steps found,
        Steps-AccountedMerchant (λ w. w.held_balance) (λ e. e.held_before) (λ e. e.held_after)
            (λ w w' e r. (r.held_before, r.held_after)) id u db (serve_all cs db) steps found,
      )
