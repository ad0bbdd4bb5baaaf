-- ===== src/Wallet/Common.antt =====
-- What the methods of GIGVEYRO_Backend/app/services/wallet.py share: the test of an amount, the
-- locked reads, and the rows that they write to the ledger.
use gigveyro.Common.{ℕ, Option, none, some}
use gigveyro.Common.Int.{ℤ, pos, leb_ℤ, ltb_ℤ}
use gigveyro.Models.Wallet.{Decimal, finite, non_finite, UserWallet, MerchantWallet}
use gigveyro.Models.Ledger.{LedgerEntry, LedgerEntryType, BalanceBucket, Reference}
use gigveyro.Db.{
  Action, pure, raise, or_raise, ◌>>=◌, ◌>>◌, raise_if, invalid_amount, wallet_not_found,
}
use gigveyro.Db.Queries.{
  find_wallet, find_merchant, get_by_reference, save_wallet, save_merchant, create_entry,
}

-- `if not amount.is_finite() or amount <= 0: raise InvalidAmountError`
abbrev pub positive : Decimal → Action ℤ
positive non_finite = raise invalid_amount
positive (finite a) = do raise_if (leb_ℤ a (pos 0)) invalid_amount; pure a

-- `if not amount.is_finite() or amount < 0: raise InvalidAmountError`
abbrev pub non_negative : Decimal → Action ℤ
non_negative non_finite = raise invalid_amount
non_negative (finite a) = do raise_if (ltb_ℤ a (pos 0)) invalid_amount; pure a

-- `get_by_account_id_for_update`, and the test for None
abbrev pub lock_wallet : ℕ → Action UserWallet
lock_wallet id db = or_raise (find_wallet id db) wallet_not_found db

abbrev pub lock_merchant : ℕ → Action MerchantWallet
lock_merchant id db = or_raise (find_merchant id db) wallet_not_found db

-- `if existing is not None: return existing`
abbrev pub or_existing : Option LedgerEntry → Action LedgerEntry → Action LedgerEntry
or_existing (some e) rest = pure e
or_existing none rest = rest

abbrev pub once : Reference → LedgerEntryType → Action LedgerEntry → Action LedgerEntry
once ref t rest = do existing ← get_by_reference ref t; or_existing existing rest

-- The `LedgerEntry(…)` of a change of a user wallet from `w` to `w'`.
unfoldable pub user_row :
    LedgerEntryType
    → BalanceBucket
    → ℤ
    → Option Reference
    → Option ℕ
    → Option ℕ
    → UserWallet
    → UserWallet
    → LedgerEntry
user_row t bucket amount ref key creator w w' = record {
  wallet_id = some w.id;
  merchant_wallet_id = none;
  account_id = w.account_id;
  type = t;
  balance_bucket = bucket;
  currency = w.currency;
  amount = amount;
  available_before = w.available_balance;
  available_after = w'.available_balance;
  insurance_before = w.insurance_balance;
  insurance_after = w'.insurance_balance;
  frozen_before = w.frozen_balance;
  frozen_after = w'.frozen_balance;
  held_before = pos 0;
  held_after = pos 0;
  reference = ref;
  idempotency_key = key;
  created_by_account_id = creator;
}

unfoldable pub user_entry :
    LedgerEntryType
    → BalanceBucket
    → ℤ
    → Reference
    → Option ℕ
    → UserWallet
    → UserWallet
    → LedgerEntry
unfolding user_row
user_entry t bucket amount ref creator w w' = user_row t bucket amount (some ref) none creator w w'

unfoldable pub merchant_entry :
    LedgerEntryType
    → BalanceBucket
    → ℤ
    → Reference
    → Option ℕ
    → MerchantWallet
    → MerchantWallet
    → LedgerEntry
merchant_entry t bucket amount ref creator w w' = record {
  wallet_id = none;
  merchant_wallet_id = some w.id;
  account_id = w.account_id;
  type = t;
  balance_bucket = bucket;
  currency = w.currency;
  amount = amount;
  available_before = w.available_balance;
  available_after = w'.available_balance;
  insurance_before = pos 0;
  insurance_after = pos 0;
  frozen_before = pos 0;
  frozen_after = pos 0;
  held_before = w.held_balance;
  held_after = w'.held_balance;
  reference = some ref;
  idempotency_key = none;
  created_by_account_id = creator;
}

-- The flush of a changed wallet, then its ledger row.
unfoldable pub post_wallet :
    LedgerEntryType
    → BalanceBucket
    → ℤ
    → Reference
    → Option ℕ
    → UserWallet
    → UserWallet
    → Action LedgerEntry
post_wallet t bucket amount ref creator w w' =
    save_wallet w' >> create_entry (user_entry t bucket amount ref creator w w')

unfoldable pub post_merchant :
    LedgerEntryType
    → BalanceBucket
    → ℤ
    → Reference
    → Option ℕ
    → MerchantWallet
    → MerchantWallet
    → Action LedgerEntry
post_merchant t bucket amount ref creator w w' =
    save_merchant w' >> create_entry (merchant_entry t bucket amount ref creator w w')
