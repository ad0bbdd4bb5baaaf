-- ===== src/Wallet/Posting/Effects.antt =====
-- What a posting leaves in the tables.
use gigveyro.Common.{ℕ, ◌≡◌, ◌≢◌, sym, ap, ◌∙◌, some, List, ◌∷◌, arith}
use gigveyro.Common.Table.{put, find-put_self, find-put_ne}
use gigveyro.Models.Wallet.{UserWallet, MerchantWallet, wallet_key, merchant_key}
use gigveyro.Models.Ledger.{LedgerEntry, LedgerEntryType, Reference, type_code}
use gigveyro.Db.{Db}
use gigveyro.Db.Queries.{find_wallet, find_merchant, has_reference, select}
use gigveyro.Wallet.Posting.{PostsUser, PostsMerchant}

module _ {w w' : UserWallet} {e : LedgerEntry} {db db' : Db} (p : PostsUser w w' e db db') where
  pub PostsUser-ledger : db'.ledger ≡ e ∷ db.ledger
  PostsUser-ledger = ap (λ (d : Db). d.ledger) p.result

  pub PostsUser-merchants : db'.merchant_wallets ≡ db.merchant_wallets
  PostsUser-merchants = ap (λ (d : Db). d.merchant_wallets) p.result

  pub PostsUser-wallets : db'.wallets ≡ put wallet_key w' db.wallets
  PostsUser-wallets = ap (λ (d : Db). d.wallets) p.result

  pub PostsUser-accounts : db'.accounts ≡ db.accounts
  PostsUser-accounts = ap (λ (d : Db). d.accounts) p.result

  pub PostsUser-found : find_wallet w'.account_id db' ≡ some w'
  PostsUser-found =
      rw PostsUser-wallets (find-put_self wallet_key w' db.wallets w (rw p.same_account p.found))

  pub PostsUser-others : (id : ℕ) → w.account_id ≢ id → find_wallet id db' ≡ find_wallet id db
  PostsUser-others id other =
      rw PostsUser-wallets
        (find-put_ne wallet_key id w' db.wallets (λ q. other (sym p.same_account ∙ q)))

module _ {w w' : MerchantWallet} {e : LedgerEntry} {db db' : Db}
    (p : PostsMerchant w w' e db db') where
  pub PostsMerchant-ledger : db'.ledger ≡ e ∷ db.ledger
  PostsMerchant-ledger = ap (λ (d : Db). d.ledger) p.result

  pub PostsMerchant-wallets : db'.wallets ≡ db.wallets
  PostsMerchant-wallets = ap (λ (d : Db). d.wallets) p.result

  pub PostsMerchant-merchants : db'.merchant_wallets ≡ put merchant_key w' db.merchant_wallets
  PostsMerchant-merchants = ap (λ (d : Db). d.merchant_wallets) p.result

  pub PostsMerchant-accounts : db'.accounts ≡ db.accounts
  PostsMerchant-accounts = ap (λ (d : Db). d.accounts) p.result

  pub PostsMerchant-found : find_merchant w'.account_id db' ≡ some w'
  PostsMerchant-found =
      rw PostsMerchant-merchants
        (find-put_self merchant_key w' db.merchant_wallets w (rw p.same_account p.found))

  pub PostsMerchant-others :
      (id : ℕ) → w.account_id ≢ id → find_merchant id db' ≡ find_merchant id db
  PostsMerchant-others id other =
      rw PostsMerchant-merchants
        (find-put_ne merchant_key id w' db.merchant_wallets (λ q. other (sym p.same_account ∙ q)))

-- A query by reference passes a row of another type.
pub select-other_type :
    (ref : Reference) (t : LedgerEntryType) (e : LedgerEntry) (ledger : List LedgerEntry)
    → type_code e.type ≢ type_code t
    → select (has_reference ref t) (e ∷ ledger) ≡ select (has_reference ref t) ledger
unfolding select has_reference
select-other_type ref t e ledger other = ground arith
