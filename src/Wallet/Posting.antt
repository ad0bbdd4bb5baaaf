-- ===== src/Wallet/Posting.antt =====
-- The abstract view of WalletService: a movement of money is one posting, which replaces one wallet
-- row and puts the ledger row on record that carries its balances before and after. `Ends` says
-- how a method ends, with one rule for each statement that the methods are made of.
pub mod Rules
pub mod Flushes
pub mod Reads
pub mod Effects
pub mod Moves
pub mod Invariant
use gigveyro.Common.{ℕ, ◌≡◌, Bool, true, false, Option, none, some, List, [], ◌∷◌}
use gigveyro.Common.Int.{ℤ, pos, ◌≤ℤ◌}
use gigveyro.Common.Table.{All, put}
use gigveyro.Models.Wallet.{UserWallet, MerchantWallet, wallet_key, merchant_key}
use gigveyro.Models.Ledger.{LedgerEntry, LedgerEntryType, Reference}
use gigveyro.Db.{Db, Error, Result, ok, err, integrity, multiple_results}
use gigveyro.Db.Queries.{find_wallet, find_merchant, has_reference, has_key, select}

-- The check constraints of app/models/wallet.py, and of app/models/merchant_wallet.py.
pub record IsFunded (w : UserWallet) : Type 0 where
  pub available : pos 0 ≤ℤ w.available_balance
  pub insurance : pos 0 ≤ℤ w.insurance_balance
  pub frozen : pos 0 ≤ℤ w.frozen_balance
  pub target : pos 0 ≤ℤ w.insurance_target

pub record IsCovered (w : MerchantWallet) : Type 0 where
  pub available : pos 0 ≤ℤ w.available_balance
  pub held : pos 0 ≤ℤ w.held_balance

abbrev pub AtMostOne : List LedgerEntry → Type 0
AtMostOne [] = Unit
AtMostOne (x ∷ []) = Unit
AtMostOne (x ∷ y ∷ _) = ⊥

-- No balance is negative; no reference is on record twice under one entry type, and no idempotency
-- key twice for one wallet.
pub record IsSound (db : Db) : Type 0 where
  pub users : All IsFunded db.wallets
  pub merchants : All IsCovered db.merchant_wallets
  pub references :
      (ref : Reference) (t : LedgerEntryType) → AtMostOne (select (has_reference ref t) db.ledger)
  pub keys : (wallet_id key : ℕ) → AtMostOne (select (has_key wallet_id key) db.ledger)

-- A ledger row carries the balances of a user wallet before and after, and nothing of a merchant's.
pub record IsUserRecord (w w' : UserWallet) (e : LedgerEntry) : Type 0 where
  pub account : e.account_id ≡ w.account_id
  pub wallet : e.wallet_id ≡ some w.id
  pub merchant : e.merchant_wallet_id ≡ none
  pub available_before : e.available_before ≡ w.available_balance
  pub available_after : e.available_after ≡ w'.available_balance
  pub insurance_before : e.insurance_before ≡ w.insurance_balance
  pub insurance_after : e.insurance_after ≡ w'.insurance_balance
  pub frozen_before : e.frozen_before ≡ w.frozen_balance
  pub frozen_after : e.frozen_after ≡ w'.frozen_balance

pub record IsMerchantRecord (w w' : MerchantWallet) (e : LedgerEntry) : Type 0 where
  pub account : e.account_id ≡ w.account_id
  pub wallet : e.wallet_id ≡ none
  pub merchant : e.merchant_wallet_id ≡ some w.id
  pub available_before : e.available_before ≡ w.available_balance
  pub available_after : e.available_after ≡ w'.available_balance
  pub held_before : e.held_before ≡ w.held_balance
  pub held_after : e.held_after ≡ w'.held_balance

-- Neither the reference nor the key of the row is on record.
pub record IsNew (e : LedgerEntry) (ledger : List LedgerEntry) : Type 0 where
  pub reference :
      (ref : Reference) → e.reference ≡ some ref → select (has_reference ref e.type) ledger ≡ []
  pub key :
      (wallet_id key : ℕ)
      → e.wallet_id ≡ some wallet_id
      → e.idempotency_key ≡ some key
      → select (has_key wallet_id key) ledger ≡ []

-- The wallet `w` of the session `db` becomes `w'`, by the row `e`.
pub record PostsUser (w w' : UserWallet) (e : LedgerEntry) (db db' : Db) : Type 0 where
  pub found : find_wallet w.account_id db ≡ some w
  pub same_account : w'.account_id ≡ w.account_id
  pub funded : IsFunded w'
  pub recorded : IsUserRecord w w' e
  pub fresh : IsNew e db.ledger
  pub result : db' ≡ record db { wallets = put wallet_key w' db.wallets; ledger = e ∷ db.ledger }

pub record PostsMerchant (w w' : MerchantWallet) (e : LedgerEntry) (db db' : Db) : Type 0 where
  pub found : find_merchant w.account_id db ≡ some w
  pub same_account : w'.account_id ≡ w.account_id
  pub covered : IsCovered w'
  pub recorded : IsMerchantRecord w w' e
  pub fresh : IsNew e db.ledger
  pub result : db' ≡ record db {
    merchant_wallets = put merchant_key w' db.merchant_wallets;
    ledger = e ∷ db.ledger;
  }

-- The exceptions that a check constraint or a double row of the ledger would raise are not met.
abbrev pub IsExpected : Error → Type 0
IsExpected integrity = ⊥
IsExpected multiple_results = ⊥
IsExpected _ = Unit

-- A call returns with `Q`, or raises with `R`.
abbrev pub EndsBy :
    {A : Type 0} → (Error → Db → Type 0) → (A → Db → Type 0) → Result A × Db → Type 0
EndsBy R Q (ok a, db') = Q a db'
EndsBy R Q (err e, db') = R e db'

-- A call from `db` returns with `Q`, or raises an expected exception and has written nothing.
abbrev pub Ends : {A : Type 0} → (A → Db → Type 0) → Db → Result A × Db → Type 0
Ends Q db = EndsBy (λ e db'. (db' ≡ db) × IsExpected e) Q
