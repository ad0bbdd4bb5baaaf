-- ===== src/Db/Queries.antt =====
-- GIGVEYRO_Backend/app/repositories/{account, wallet, merchant_wallet, ledger}.py: the queries and
-- flushes that the services make. A flush runs the column checks of app/models.
use gigveyro.Common.{
  ℕ, Bool, false, not, ◌&&◌, ◌==◌, Option, none, some, List, [], ◌∷◌, if◌then◌else◌,
}
use gigveyro.Common.Table.{find, put}
use gigveyro.Models.Account.{Account, account_key}
use gigveyro.Models.Wallet.{
  UserWallet, MerchantWallet, wallet_key, merchant_key, is_admissible_user, is_admissible_merchant,
  in_range_user, in_range_merchant,
}
use gigveyro.Models.Ledger.{LedgerEntry, LedgerEntryType, type_code, Reference, eqb_reference}
use gigveyro.Db.{
  Db, Action, pure, raise, ◌>>◌, raise_if, modify, integrity, data_error, multiple_results,
}

abbrev pub find_account : ℕ → Db → Option Account
find_account id db = find account_key id db.accounts

abbrev pub find_wallet : ℕ → Db → Option UserWallet
find_wallet id db = find wallet_key id db.wallets

abbrev pub find_merchant : ℕ → Db → Option MerchantWallet
find_merchant id db = find merchant_key id db.merchant_wallets

-- `WalletRepository.save`
unfoldable pub save_wallet : UserWallet → Action (Unit {0})
save_wallet w = do
  raise_if (not (in_range_user w)) data_error
  raise_if (not (is_admissible_user w)) integrity
  modify (λ db. record db { wallets = put wallet_key w db.wallets })

-- `MerchantWalletRepository.save`
unfoldable pub save_merchant : MerchantWallet → Action (Unit {0})
save_merchant w = do
  raise_if (not (in_range_merchant w)) data_error
  raise_if (not (is_admissible_merchant w)) integrity
  modify (λ db. record db { merchant_wallets = put merchant_key w db.merchant_wallets })

-- The conditions of `LedgerRepository.get_by_reference`.
abbrev pub is_reference : Option Reference → Reference → Bool
is_reference none ref = false
is_reference (some r) ref = eqb_reference r ref

unfoldable pub has_reference : Reference → LedgerEntryType → LedgerEntry → Bool
has_reference ref t e = is_reference e.reference ref && type_code e.type == type_code t

-- The conditions of `get_by_wallet_and_idempotency_key`.
abbrev pub is_id : Option ℕ → ℕ → Bool
is_id none k = false
is_id (some j) k = j == k

unfoldable pub has_key : ℕ → ℕ → LedgerEntry → Bool
has_key wallet_id key e = is_id e.wallet_id wallet_id && is_id e.idempotency_key key

module _ {A : Type 0} where
  unfoldable pub select : (A → Bool) → List A → List A
  select p [] = []
  select p (x ∷ xs) = if p x then x ∷ select p xs else select p xs

  -- `scalar_one_or_none`
  unfoldable pub scalar : List A → Action (Option A)
  scalar [] = pure none
  scalar (x ∷ []) = pure (some x)
  scalar (x ∷ y ∷ _) = raise multiple_results

unfoldable pub get_by_reference : Reference → LedgerEntryType → Action (Option LedgerEntry)
get_by_reference ref t db = scalar (select (has_reference ref t) db.ledger) db

unfoldable pub get_by_key : ℕ → ℕ → Action (Option LedgerEntry)
get_by_key wallet_id key db = scalar (select (has_key wallet_id key) db.ledger) db

-- `LedgerRepository.create`
unfoldable pub create_entry : LedgerEntry → Action LedgerEntry
create_entry e = modify (λ db. record db { ledger = e ∷ db.ledger }) >> pure e
