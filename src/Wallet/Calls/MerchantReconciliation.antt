-- ===== src/Wallet/Calls/MerchantReconciliation.antt =====
-- The ledger accounts for the balances of the merchants.
use gigveyro.Common.{
  ℕ, ◌≡◌, ◌≢◌, refl, sym, ap, ◌∙◌, some, ◌∷◌, arith, ◌==◌, ==_iff, Bool-cases, inl, inr,
}
use gigveyro.Common.Int.{ℤ, pos, ◌+ℤ◌, ◌-ℤ◌, int_laws, chain_changes}
use gigveyro.Common.Table.{sum_by}
use gigveyro.Models.Wallet.{UserWallet, MerchantWallet}
use gigveyro.Models.Ledger.{LedgerEntry}
use gigveyro.Db.{Db}
use gigveyro.Db.Queries.{find_merchant}
use gigveyro.Wallet.Posting.{PostsUser, PostsMerchant, IsMerchantRecord}
use gigveyro.Wallet.Posting.Effects.{
  PostsUser-ledger, PostsUser-merchants, PostsMerchant-ledger, PostsMerchant-found,
  PostsMerchant-others,
}
use gigveyro.Wallet.Calls.Evolution.{Step, Steps, here, next, post_user, post_merchant, set_target}
use gigveyro.Wallet.Calls.Reconciliation.{merchant_change}

-- A merchant balance is accounted for by the rows that are new in the second session.
abbrev pub AccountsForMerchant :
    (MerchantWallet → ℤ) → (before after : LedgerEntry → ℤ) → ℕ → MerchantWallet → Db → Db → Type 0
AccountsForMerchant balance before after id w db db' =
    (w' : MerchantWallet) × (find_merchant id db' ≡ some w')
    × (balance w' +ℤ sum_by (merchant_change before after id) db.ledger
        ≡ balance w +ℤ sum_by (merchant_change before after id) db'.ledger)

module _ (balance : MerchantWallet → ℤ) (before after : LedgerEntry → ℤ)
    (reads : (w w' : MerchantWallet) (e : LedgerEntry)
      → IsMerchantRecord w w' e
      → (before e ≡ balance w) × (after e ≡ balance w'))
    (id : ℕ) where
  abbrev total : Db → ℤ
  total db = sum_by (merchant_change before after id) db.ledger

  abbrev Accounted : MerchantWallet → Db → Db → Type 0
  Accounted = AccountsForMerchant balance before after id

  merchant_total :
      (db db' : Db) (e : LedgerEntry)
      → db'.ledger ≡ e ∷ db.ledger
      → total db' ≡ merchant_change before after id e +ℤ total db
  unfolding sum_by
  merchant_total db db' e row = ap (sum_by (merchant_change before after id)) row

  module _ (u : MerchantWallet) (db db' : Db) (w w' : MerchantWallet) (e : LedgerEntry)
      (p : PostsMerchant w w' e db db') (found : find_merchant id db ≡ some u) where
    own_merchant : w.account_id ≡ id → Accounted u db db'
    own_merchant same = (
      w',
      ap (λ k. find_merchant k db') (sym same ∙ sym p.same_account) ∙ PostsMerchant-found p,
      rw (merchant_total db db' e (PostsMerchant-ledger p), change, ← is_u) (omega int_laws),
    )
      where
        is_u : w ≡ u
        is_u = let q = p.found in let r = ap (λ k. find_merchant k db) same in cc

        change : merchant_change before after id e ≡ balance w' -ℤ balance w
        change =
            let (b, a) = reads w w' e p.recorded in
            ground (arith, p.recorded.merchant, p.recorded.account)

    other_merchant : w.account_id ≢ id → Accounted u db db'
    other_merchant other = (
      u,
      PostsMerchant-others p id other ∙ found,
      rw (merchant_total db db' e (PostsMerchant-ledger p), change) (omega int_laws),
    )
      where
        change : merchant_change before after id e ≡ pos 0
        change = ground (arith, p.recorded.account)

    posted_merchant : Accounted u db db'
    posted_merchant = elim (Bool-cases (w.account_id == id)) [
      | inl same ↦ own_merchant ((==_iff w.account_id id).0 same)
      | inr other ↦ other_merchant (λ q. absurd (let r = (==_iff w.account_id id).1 q in cc))
    ]

  posted_user :
      (u : MerchantWallet) (db db' : Db) (v v' : UserWallet) (e : LedgerEntry)
      → PostsUser v v' e db db'
      → find_merchant id db ≡ some u
      → Accounted u db db'
  posted_user u db db' v v' e p found = (
    u,
    rw (PostsUser-merchants p) found,
    rw (merchant_total db db' e (PostsUser-ledger p), change) (omega int_laws),
  )
    where
      change : merchant_change before after id e ≡ pos 0
      change = ground (arith, p.recorded.merchant)

  merchant_step :
      (u : MerchantWallet) (db db' : Db)
      → Step db db'
      → find_merchant id db ≡ some u
      → Accounted u db db'
  merchant_step u db db' (post_user w w' e p) found = posted_user u db db' w w' e p found
  merchant_step u db db' (post_merchant v v' e p) found = posted_merchant u db db' v v' e p found
  merchant_step u db db' (set_target w t there funded result) found = (
    u,
    ap (find_merchant id) result ∙ found,
    ap (λ l. balance u +ℤ sum_by (merchant_change before after id) l)
        (sym (ap (λ (d : Db). d.ledger) result)),
  )

  pub Steps-AccountedMerchant :
      (u : MerchantWallet) (db db' : Db)
      → Steps db db'
      → find_merchant id db ≡ some u
      → Accounted u db db'
  Steps-AccountedMerchant u db db' here found = (u, found, refl)
  Steps-AccountedMerchant u db db'' (next {db'} s st) found =
      let (w, found', balanced) = Steps-AccountedMerchant u db db' s found in
      let (w', found'', balanced') = merchant_step w db' db'' st found' in
      (
        w',
        found'',
        chain_changes (balance u) (balance w) (balance w') (total db) (total db') (total db'')
            balanced balanced',
      )
