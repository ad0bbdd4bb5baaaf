-- ===== src/Wallet/Calls/Reconciliation.antt =====
-- The ledger accounts for the balances: along any steps of a session, a balance changes by what the
-- new rows of its wallet say.
use gigveyro.Common.{
  ℕ, ◌≡◌, ◌≢◌, refl, sym, ap, ◌∙◌, ◌&&◌, some, is_some, ◌∷◌, arith, ◌==◌, ==_iff, Bool-cases,
  if◌then◌else◌, inl, inr,
}
use gigveyro.Common.Int.{ℤ, pos, ◌+ℤ◌, ◌-ℤ◌, int_laws, chain_changes}
use gigveyro.Common.Table.{sum_by, find-put_self, find-put_ne, put}
use gigveyro.Models.Wallet.{UserWallet, MerchantWallet, wallet_key}
use gigveyro.Models.Ledger.{LedgerEntry}
use gigveyro.Db.{Db}
use gigveyro.Db.Queries.{find_wallet}
use gigveyro.Wallet.Posting.{PostsUser, PostsMerchant, IsUserRecord}
use gigveyro.Wallet.Posting.Effects.{
  PostsUser-ledger, PostsUser-found, PostsUser-others, PostsMerchant-ledger, PostsMerchant-wallets,
}
use gigveyro.Wallet.Calls.Evolution.{
  Step, Steps, here, next, post_user, post_merchant, set_target, targeted,
}

-- What a row says of a column of the user wallet of an account, and of a merchant wallet.
abbrev pub user_change : (before after : LedgerEntry → ℤ) → ℕ → LedgerEntry → ℤ
user_change before after id e =
    if is_some e.wallet_id && e.account_id == id then after e -ℤ before e else pos 0

abbrev pub merchant_change : (before after : LedgerEntry → ℤ) → ℕ → LedgerEntry → ℤ
merchant_change before after id e =
    if is_some e.merchant_wallet_id && e.account_id == id then after e -ℤ before e else pos 0

-- A user balance is accounted for by the rows that are new in the second session.
abbrev pub AccountsFor :
    (UserWallet → ℤ) → (before after : LedgerEntry → ℤ) → ℕ → UserWallet → Db → Db → Type 0
AccountsFor balance before after id w db db' =
    (w' : UserWallet) × (find_wallet id db' ≡ some w')
    × (balance w' +ℤ sum_by (user_change before after id) db.ledger
        ≡ balance w +ℤ sum_by (user_change before after id) db'.ledger)

module _ (balance : UserWallet → ℤ) (before after : LedgerEntry → ℤ)
    (reads : (w w' : UserWallet) (e : LedgerEntry)
      → IsUserRecord w w' e
      → (before e ≡ balance w) × (after e ≡ balance w'))
    (no_target : (w : UserWallet) (t : ℤ) → balance (targeted w t) ≡ balance w) (id : ℕ) where
  abbrev total : Db → ℤ
  total db = sum_by (user_change before after id) db.ledger

  abbrev Accounted : UserWallet → Db → Db → Type 0
  Accounted = AccountsFor balance before after id

  user_total :
      (db db' : Db) (e : LedgerEntry)
      → db'.ledger ≡ e ∷ db.ledger
      → total db' ≡ user_change before after id e +ℤ total db
  unfolding sum_by
  user_total db db' e row = ap (sum_by (user_change before after id)) row

  module _ (u : UserWallet) (db db' : Db) (w w' : UserWallet) (e : LedgerEntry)
      (p : PostsUser w w' e db db') (found : find_wallet id db ≡ some u) where
    own_account : w.account_id ≡ id → Accounted u db db'
    own_account same = (
      w',
      ap (λ k. find_wallet k db') (sym same ∙ sym p.same_account) ∙ PostsUser-found p,
      balanced,
    )
      where
        is_u : w ≡ u
        is_u = let q = p.found in let r = ap (λ k. find_wallet k db) same in cc

        change : user_change before after id e ≡ balance w' -ℤ balance w
        change =
            let (b, a) = reads w w' e p.recorded in
            ground (arith, p.recorded.wallet, p.recorded.account)

        balanced : balance w' +ℤ total db ≡ balance u +ℤ total db'
        balanced = rw (user_total db db' e (PostsUser-ledger p), change, ← is_u) (omega int_laws)

    other_account : w.account_id ≢ id → Accounted u db db'
    other_account other = (
      u,
      PostsUser-others p id other ∙ found,
      rw (user_total db db' e (PostsUser-ledger p), change) (omega int_laws),
    )
      where
        change : user_change before after id e ≡ pos 0
        change = ground (arith, p.recorded.account)

    post_user-Accounted : Accounted u db db'
    post_user-Accounted = elim (Bool-cases (w.account_id == id)) [
      | inl same ↦ own_account ((==_iff w.account_id id).0 same)
      | inr other ↦ other_account (λ q. absurd (let r = (==_iff w.account_id id).1 q in cc))
    ]

  post_merchant-Accounted :
      (u : UserWallet) (db db' : Db) (v v' : MerchantWallet) (e : LedgerEntry)
      → PostsMerchant v v' e db db'
      → find_wallet id db ≡ some u
      → Accounted u db db'
  post_merchant-Accounted u db db' v v' e p found = (
    u,
    rw (PostsMerchant-wallets p) found,
    rw (user_total db db' e (PostsMerchant-ledger p), change) (omega int_laws),
  )
    where
      change : user_change before after id e ≡ pos 0
      change = ground (arith, p.recorded.wallet)

  set_target-Accounted :
      (u : UserWallet) (db db' : Db) (w : UserWallet) (t : ℤ)
      → find_wallet w.account_id db ≡ some w
      → db' ≡ record db { wallets = put wallet_key (targeted w t) db.wallets }
      → find_wallet id db ≡ some u
      → Accounted u db db'
  set_target-Accounted u db db' w t there result found = elim (Bool-cases (w.account_id == id)) [
    | inl same ↦
        let q : w.account_id ≡ id = (==_iff w.account_id id).0 same in
        let is_u : w ≡ u = let r = ap (λ k. find_wallet k db) q in cc in
        (
          targeted w t,
          ap (find_wallet id) result
              ∙ ap (λ k. find_wallet k after_db) (sym q)
              ∙ find-put_self wallet_key (targeted w t) db.wallets w there,
          rw (no_target w t, is_u) (same_total (balance u)),
        )
    | inr other ↦ (
      u,
      ap (find_wallet id) result
          ∙ find-put_ne wallet_key id (targeted w t) db.wallets
              (λ q. absurd (let r = (==_iff w.account_id id).1 q in cc))
          ∙ found,
      same_total (balance u),
    )
  ]
    where
      after_db : Db
      after_db = record db { wallets = put wallet_key (targeted w t) db.wallets }

      same_total : (b : ℤ) → b +ℤ total db ≡ b +ℤ total db'
      same_total b =
          ap (λ l. b +ℤ sum_by (user_change before after id) l)
            (sym (ap (λ (d : Db). d.ledger) result))

  step-Accounted :
      (u : UserWallet) (db db' : Db) → Step db db' → find_wallet id db ≡ some u → Accounted u db db'
  step-Accounted u db db' (post_user w w' e p) found = post_user-Accounted u db db' w w' e p found
  step-Accounted u db db' (post_merchant v v' e p) found =
      post_merchant-Accounted u db db' v v' e p found
  step-Accounted u db db' (set_target w t there funded result) found =
      set_target-Accounted u db db' w t there result found

  pub Steps-Accounted :
      (u : UserWallet) (db db' : Db)
      → Steps db db'
      → find_wallet id db ≡ some u
      → Accounted u db db'
  Steps-Accounted u db db' here found = (u, found, refl)
  Steps-Accounted u db db'' (next {db'} s st) found =
      let (w, found', balanced) = Steps-Accounted u db db' s found in
      let (w', found'', balanced') = step-Accounted w db' db'' st found' in
      (
        w',
        found'',
        chain_changes (balance u) (balance w) (balance w') (total db) (total db') (total db'')
            balanced balanced',
      )
