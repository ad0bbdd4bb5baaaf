-- ===== src/Wallet/Posting/Flushes.antt =====
-- The flush of a changed wallet and its ledger row: a posting, or DataError.
use gigveyro.Common.{ℕ, ◌≡◌, refl, true, false, Option, some, [], ◌∷◌, arith, Bool-cases, inl, inr}
use mathlib.Core.Path.{subst}
use gigveyro.Common.Int.{ℤ}
use gigveyro.Common.Table.{put}
use gigveyro.Models.Wallet.{
  UserWallet, MerchantWallet, wallet_key, merchant_key, is_admissible_user, is_admissible_merchant,
  in_range_user, in_range_merchant,
}
use gigveyro.Models.Ledger.{LedgerEntryType, BalanceBucket, Reference}
use gigveyro.Db.{Db, Error, ok, err, data_error}
use gigveyro.Db.Queries.{
  find_wallet, find_merchant, has_reference, select, save_wallet, save_merchant, create_entry,
}
use gigveyro.Wallet.Common.{user_entry, merchant_entry, post_wallet, post_merchant}
use gigveyro.Wallet.Posting.{
  IsFunded, IsCovered, IsUserRecord, IsMerchantRecord, IsNew, PostsUser, PostsMerchant, IsExpected,
  EndsBy, Ends,
}
use gigveyro.Wallet.Posting.Rules.{EndsBy-at}

-- A funded wallet passes the column checks, so its flush raises nothing but DataError.
module _ (w : UserWallet) (db : Db) (funded : IsFunded w) where
  pub save_wallet_fits :
      in_range_user w ≡ true
      → save_wallet w db ≡ (ok tt, record db { wallets = put wallet_key w db.wallets })
  unfolding save_wallet is_admissible_user
  save_wallet_fits fits = ground arith

  pub save_wallet_over : in_range_user w ≡ false → save_wallet w db ≡ (err data_error, db)
  unfolding save_wallet
  save_wallet_over over = ground arith

module _ (w : MerchantWallet) (db : Db) (covered : IsCovered w) where
  save_merchant_fits :
      in_range_merchant w ≡ true
      → save_merchant w db
        ≡ (ok tt, record db { merchant_wallets = put merchant_key w db.merchant_wallets })
  unfolding save_merchant is_admissible_merchant
  save_merchant_fits fits = ground arith

  save_merchant_over : in_range_merchant w ≡ false → save_merchant w db ≡ (err data_error, db)
  unfolding save_merchant
  save_merchant_over over = ground arith

-- The flush of a funded wallet, and its row: a posting, or DataError.
module _ (t : LedgerEntryType) (bucket : BalanceBucket) (amount : ℤ) (ref : Reference)
    (creator : Option ℕ) (db : Db) (new : select (has_reference ref t) db.ledger ≡ []) where
  user_entry-IsUserRecord :
      (w w' : UserWallet) → IsUserRecord w w' (user_entry t bucket amount ref creator w w')
  unfolding user_entry
  user_entry-IsUserRecord w w' = ground arith

  user_entry-IsNew :
      (w w' : UserWallet) → IsNew (user_entry t bucket amount ref creator w w') db.ledger
  unfolding user_entry
  user_entry-IsNew w w' = record {
    reference =
        λ r e. let q : ref ≡ r = cc in subst (λ k. select (has_reference k t) db.ledger ≡ []) q new;
    key = λ i k e none_key. absurd (cc);
  }

  merchant_entry-IsMerchantRecord :
      (w w' : MerchantWallet)
      → IsMerchantRecord w w' (merchant_entry t bucket amount ref creator w w')
  unfolding merchant_entry
  merchant_entry-IsMerchantRecord w w' = ground arith

  merchant_entry-IsNew :
      (w w' : MerchantWallet) → IsNew (merchant_entry t bucket amount ref creator w w') db.ledger
  unfolding merchant_entry
  merchant_entry-IsNew w w' = record {
    reference =
        λ r e. let q : ref ≡ r = cc in subst (λ k. select (has_reference k t) db.ledger ≡ []) q new;
    key = λ i k none_wallet e. absurd (cc);
  }

  pub post_wallet_fits :
      (w w' : UserWallet)
      → IsFunded w'
      → in_range_user w' ≡ true
      → post_wallet t bucket amount ref creator w w' db ≡ (
        ok (user_entry t bucket amount ref creator w w'),
        record db {
          wallets = put wallet_key w' db.wallets;
          ledger = user_entry t bucket amount ref creator w w' ∷ db.ledger;
        },
      )
  unfolding post_wallet create_entry
  post_wallet_fits w w' funded fits = ground (arith, save_wallet_fits w' db funded fits)

  post_wallet_over :
      (w w' : UserWallet)
      → IsFunded w'
      → in_range_user w' ≡ false
      → post_wallet t bucket amount ref creator w w' db ≡ (err data_error, db)
  unfolding post_wallet create_entry
  post_wallet_over w w' funded over = ground (arith, save_wallet_over w' db funded over)

  pub EndsBy-post_wallet :
      (R : Error → Db → Type 0)
      → R data_error db
      → (w w' : UserWallet) → find_wallet w.account_id db ≡ some w
      → w'.account_id ≡ w.account_id
      → IsFunded w'
      → EndsBy R
          (λ e db'. PostsUser w w' e db db' × (e ≡ user_entry t bucket amount ref creator w w'))
          (post_wallet t bucket amount ref creator w w' db)
  EndsBy-post_wallet R over_limit w w' found same funded = elim (Bool-cases (in_range_user w')) [
    | inl fits ↦ EndsBy-at R _ _ _ (post_wallet_fits w w' funded fits) (
      record {
        found = found;
        same_account = same;
        funded = funded;
        recorded = user_entry-IsUserRecord w w';
        fresh = user_entry-IsNew w w';
        result = refl;
      },
      refl,
    )
    | inr over ↦ EndsBy-at R _ _ _ (post_wallet_over w w' funded over) over_limit
  ]

  pub Ends-post_wallet :
      (w w' : UserWallet)
      → find_wallet w.account_id db ≡ some w
      → w'.account_id ≡ w.account_id
      → IsFunded w'
      → Ends
          (λ e db'. PostsUser w w' e db db' × (e ≡ user_entry t bucket amount ref creator w w'))
          db
          (post_wallet t bucket amount ref creator w w' db)
  Ends-post_wallet = EndsBy-post_wallet (λ e db'. (db' ≡ db) × IsExpected e) (refl, tt)

  pub post_merchant_fits :
      (w w' : MerchantWallet)
      → IsCovered w'
      → in_range_merchant w' ≡ true
      → post_merchant t bucket amount ref creator w w' db ≡ (
        ok (merchant_entry t bucket amount ref creator w w'),
        record db {
          merchant_wallets = put merchant_key w' db.merchant_wallets;
          ledger = merchant_entry t bucket amount ref creator w w' ∷ db.ledger;
        },
      )
  unfolding post_merchant create_entry
  post_merchant_fits w w' covered fits = ground (arith, save_merchant_fits w' db covered fits)

  post_merchant_over :
      (w w' : MerchantWallet)
      → IsCovered w'
      → in_range_merchant w' ≡ false
      → post_merchant t bucket amount ref creator w w' db ≡ (err data_error, db)
  unfolding post_merchant create_entry
  post_merchant_over w w' covered over = ground (arith, save_merchant_over w' db covered over)

  pub EndsBy-post_merchant :
      (R : Error → Db → Type 0)
      → R data_error db
      → (w w' : MerchantWallet) → find_merchant w.account_id db ≡ some w
      → w'.account_id ≡ w.account_id
      → IsCovered w'
      → EndsBy R
          (λ e db'.
            PostsMerchant w w' e db db' × (e ≡ merchant_entry t bucket amount ref creator w w'))
          (post_merchant t bucket amount ref creator w w' db)
  EndsBy-post_merchant R over_limit w w' found same covered =
      elim (Bool-cases (in_range_merchant w')) [
        | inl fits ↦ EndsBy-at R _ _ _ (post_merchant_fits w w' covered fits) (
          record {
            found = found;
            same_account = same;
            covered = covered;
            recorded = merchant_entry-IsMerchantRecord w w';
            fresh = merchant_entry-IsNew w w';
            result = refl;
          },
          refl,
        )
        | inr over ↦ EndsBy-at R _ _ _ (post_merchant_over w w' covered over) over_limit
      ]

  pub Ends-post_merchant :
      (w w' : MerchantWallet)
      → find_merchant w.account_id db ≡ some w
      → w'.account_id ≡ w.account_id
      → IsCovered w'
      → Ends
          (λ e db'.
            PostsMerchant w w' e db db' × (e ≡ merchant_entry t bucket amount ref creator w w'))
          db
          (post_merchant t bucket amount ref creator w w' db)
  Ends-post_merchant = EndsBy-post_merchant (λ e db'. (db' ≡ db) × IsExpected e) (refl, tt)
