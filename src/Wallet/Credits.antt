-- ===== src/Wallet/Credits.antt =====
-- GIGVEYRO_Backend/app/services/wallet.py: deposits, the owner's adjustments of a balance, and the
-- insurance target.
pub mod Adjustment
pub mod Outcome
pub mod Success
use gigveyro.Common.{ℕ, Bool, true, false, not, ◌&&◌, Option, none, some, if◌then◌else◌, [], ◌∷◌}
use gigveyro.Common.Int.{ℤ, pos, ◌+ℤ◌, ◌-ℤ◌, leb_ℤ, ltb_ℤ, eqb_ℤ, min_ℤ, max_ℤ}
use gigveyro.Models.Account.{Account, UserRole, user, eqb_role}
use gigveyro.Models.Wallet.{Decimal, finite, non_finite, UserWallet}
use gigveyro.Models.Ledger
use gigveyro.Models.Ledger.{
  LedgerEntry, LedgerEntryType, BalanceBucket, deposit_credit, owner_allocation,
  insurance_adjustment, manual_adjustment, available, insurance, frozen, held,
}
use gigveyro.Db.{
  Action, pure, raise, or_raise, ◌>>=◌, ◌>>◌, raise_if, invalid_amount, insufficient_balance,
  insufficient_insurance_reserve, wallet_not_found, inactive_account, integrity,
}
use gigveyro.Db.Queries.{find_account, has_key, select, get_by_key, save_wallet, create_entry}
use gigveyro.Wallet.Common.{
  positive, non_negative, lock_wallet, lock_merchant, once, or_existing, user_row, post_wallet,
  post_merchant,
}

-- The insurance-first allocation of `credit_deposit`.
unfoldable pub to_insurance : UserWallet → ℤ → ℤ
to_insurance w a = min_ℤ a (max_ℤ (w.insurance_target -ℤ w.insurance_balance) (pos 0))

unfoldable pub deposited : UserWallet → ℤ → UserWallet
deposited w a = record w {
  insurance_balance = w.insurance_balance +ℤ to_insurance w a;
  available_balance = w.available_balance +ℤ (a -ℤ to_insurance w a);
}

unfoldable pub credit_deposit : ℕ → Decimal → ℕ → Action LedgerEntry
credit_deposit account_id amount deposit_id = do
  a ← positive amount
  once (Ledger.Reference.deposit deposit_id) deposit_credit do
    w ← lock_wallet account_id
    post_wallet deposit_credit available a (Ledger.Reference.deposit deposit_id) none w
        (deposited w a)

unfoldable pub credit_deposit_for_merchant : ℕ → Decimal → ℕ → Action LedgerEntry
credit_deposit_for_merchant merchant_id amount deposit_id = do
  a ← positive amount
  once (Ledger.Reference.deposit deposit_id) deposit_credit do
    w ← lock_merchant merchant_id
    post_merchant deposit_credit available a (Ledger.Reference.deposit deposit_id) none w
        (record w { available_balance = w.available_balance +ℤ a })

-- The target account, which must be an active USER.
unfoldable pub target_user : ℕ → Action Account
target_user id db =
    (do
      target ← or_raise (find_account id db) wallet_not_found
      raise_if (not (eqb_role target.role user)) wallet_not_found
      raise_if (not target.is_active) inactive_account
      pure target)
      db

unfoldable pub set_insurance_target : ℕ → Decimal → Action (UserWallet × ℤ)
set_insurance_target target_account_id new_target = do
  t ← non_negative new_target
  target_user target_account_id
  w ← lock_wallet target_account_id
  save_wallet (record w { insurance_target = t })
  pure (record w { insurance_target = t }, w.insurance_target)

-- `bucket == BalanceBucket.AVAILABLE`
abbrev pub is_available : BalanceBucket → Bool
is_available available = true
is_available _ = false

abbrev pub is_insurance : BalanceBucket → Bool
is_insurance insurance = true
is_insurance _ = false

unfoldable pub new_value : BalanceBucket → UserWallet → ℤ → ℤ
new_value bucket w a =
    if is_available bucket then w.available_balance +ℤ a else w.insurance_balance +ℤ a

unfoldable pub adjusted : BalanceBucket → UserWallet → ℤ → UserWallet
adjusted bucket w a =
    if is_available bucket
    then record w { available_balance = new_value bucket w a }
    else record w { insurance_balance = new_value bucket w a }

-- The row of an adjustment: it has an idempotency key and no reference.
unfoldable pub adjustment_entry :
    LedgerEntryType → BalanceBucket → ℤ → ℕ → ℕ → UserWallet → UserWallet → LedgerEntry
unfolding user_row
adjustment_entry t bucket amount key actor_id w w' =
    user_row t bucket amount none (some key) (some actor_id) w w'

-- The insert in a SAVEPOINT: the unique constraint on (wallet_id, idempotency_key), and the
-- handler of its IntegrityError.
unfoldable pub insert_adjustment : ℕ → ℕ → LedgerEntry → Action LedgerEntry
insert_adjustment wallet_id key e db = elim (select (has_key wallet_id key) db.ledger) [
  | [] ↦ create_entry e db
  | _ ↦ (do existing ← get_by_key wallet_id key; or_existing existing (raise integrity)) db
]

-- The guards of an adjustment on the locked wallet, its flush and its row.
unfoldable pub adjust_wallet :
    LedgerEntryType → BalanceBucket → ℤ → ℕ → ℕ → UserWallet → Action LedgerEntry
adjust_wallet t bucket a key actor_id w = do
  raise_if (ltb_ℤ (new_value bucket w a) (pos 0)) insufficient_balance
  raise_if
      (is_insurance bucket && ltb_ℤ a (pos 0) && ltb_ℤ (new_value bucket w a) w.insurance_target)
      insufficient_insurance_reserve
  save_wallet (adjusted bucket w a)
  insert_adjustment w.id key (adjustment_entry t bucket a key actor_id w (adjusted bucket w a))

-- `not amount.is_finite() or amount == 0`, then `require_positive and amount <= 0`
abbrev pub check_amount : Bool → Decimal → Action ℤ
check_amount require_positive non_finite = raise invalid_amount
check_amount require_positive (finite a) = do
  raise_if (eqb_ℤ a (pos 0)) invalid_amount
  raise_if (require_positive && leb_ℤ a (pos 0)) invalid_amount
  pure a

-- An idempotency key is a number, and `none` the empty text.
unfoldable pub apply_bucket_change :
    ℕ → ℕ → BalanceBucket → LedgerEntryType → Decimal → Bool → Option ℕ → Action LedgerEntry
apply_bucket_change actor_id target_account_id bucket t amount require_positive key = do
  key' ← or_raise key invalid_amount
  a ← check_amount require_positive amount
  target_user target_account_id
  w ← lock_wallet target_account_id
  existing ← get_by_key w.id key'
  or_existing existing (adjust_wallet t bucket a key' actor_id w)

unfoldable pub allocate : ℕ → ℕ → Decimal → Option ℕ → Action LedgerEntry
allocate actor_id target_id amount key =
    apply_bucket_change actor_id target_id available owner_allocation amount true key

unfoldable pub adjust_insurance : ℕ → ℕ → Decimal → Option ℕ → Action LedgerEntry
adjust_insurance actor_id target_id amount key =
    apply_bucket_change actor_id target_id insurance insurance_adjustment amount false key

unfoldable pub manual_adjust : ℕ → ℕ → Decimal → Option ℕ → Action LedgerEntry
manual_adjust actor_id target_id amount key =
    apply_bucket_change actor_id target_id available manual_adjustment amount false key
