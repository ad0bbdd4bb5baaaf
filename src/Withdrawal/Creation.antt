-- ===== src/Withdrawal/Creation.antt =====
-- The creation of a request by the three services in GIGVEYRO_Backend/app/services. `sha256` is the
-- hash function of hashlib; `id` and `public_id` are the values that uuid and secrets draw. The
-- notifications are left out: they are rows of an outbox.
pub mod Insertion
pub mod Outcome
use gigveyro.Common.{
  ℕ, Bool, true, false, not, ◌&&◌, ◌||◌, ◌==◌, Option, none, some, List, [], ◌∷◌, ltb, leb,
  if◌then◌else◌,
}
use gigveyro.Common.Int.{ℤ, pos, leb_ℤ, ltb_ℤ}
use gigveyro.Models.Account.{Account, UserRole, eqb_role}
use gigveyro.Models.Wallet.{Decimal, finite, non_finite, usdt, money_limit}
use gigveyro.Models.Ledger.{LedgerEntry}
use gigveyro.Models.Withdrawal.{
  Text, Withdrawal, WithdrawalDestinationType, usdt_trc20_address, bybit_uid, pending,
  is_admissible_withdrawal,
}
use gigveyro.Db.{
  Action, pure, raise, gets, or_raise, ◌>>=◌, ◌>>◌, raise_if, modify, wallet_not_found,
  withdrawal_creation_not_allowed, invalid_destination, pending_rollback, overflow, data_error,
}
use gigveyro.Db.Queries.{find_account, find_wallet, find_merchant, select}
use gigveyro.Db.DealQueries.{is_empty}
use gigveyro.Db.WithdrawalQueries.{
  WithdrawalTable, merchant_withdrawals, user_withdrawals, team_lead_withdrawals,
}
use gigveyro.Risk.Guard.{check_withdrawal}
use gigveyro.Wallet.Withdrawals.{hold_for_withdrawal, hold_for_user_withdrawal}
use gigveyro.Withdrawal.Address.{
  length, AddressCheck, valid, invalid, overflows, validate_tron_base58check,
}

-- The characters that `str.strip` removes.
unfoldable pub is_space : ℕ → Bool
is_space c =
    (leb 9 c && leb c 13)
    || (leb 28 c && leb c 32)
    || (c == 133)
    || (c == 160)
    || (c == 5760)
    || (leb 8192 c && leb c 8202)
    || (c == 8232)
    || (c == 8233)
    || (c == 8239)
    || (c == 8287)
    || (c == 12288)

unfoldable pub strip_left : Text → Text
strip_left [] = []
strip_left (c ∷ cs) = let rest = strip_left cs in if is_space c then rest else c ∷ cs

-- A character before a text that ends in no space.
abbrev pub before : ℕ → Text → Text
before c [] = if is_space c then [] else c ∷ []
before c (d ∷ ds) = c ∷ d ∷ ds

unfoldable pub strip_right : Text → Text
strip_right [] = []
strip_right (c ∷ cs) = before c (strip_right cs)

unfoldable pub strip : Text → Text
strip t = strip_right (strip_left t)

abbrev pub is_blank : Text → Bool
is_blank [] = true
is_blank (c ∷ cs) = false

-- `except LivePayoutSecurityError`
abbrev pub or_invalid : AddressCheck → Action (Unit {0})
or_invalid valid = pure tt
or_invalid invalid = raise invalid_destination
or_invalid overflows = raise overflow

module _ (sha256 : List ℕ → List ℕ) where
  abbrev pub check_address : WithdrawalDestinationType → Text → Action (Unit {0})
  check_address bybit_uid clean = pure tt
  check_address usdt_trc20_address clean = do
    raise_if (ltb (length clean) 26 || ltb 50 (length clean)) invalid_destination
    or_invalid (validate_tron_base58check sha256 clean)

  unfoldable pub check_destination : WithdrawalDestinationType → Text → Action Text
  check_destination destination_type destination =
      let clean = strip destination in
      do
        raise_if (is_blank clean) invalid_destination
        check_address destination_type clean
        pure clean

-- `if not amount.is_finite() or amount <= 0: raise WithdrawalCreationNotAllowedError`
abbrev pub positive_amount : Decimal → Action ℤ
positive_amount non_finite = raise withdrawal_creation_not_allowed
positive_amount (finite a) = do raise_if (leb_ℤ a (pos 0)) withdrawal_creation_not_allowed; pure a

-- `create` of the repositories in the loop of three attempts: after an IntegrityError, the flush of
-- the second attempt raises PendingRollbackError, which the loop does not catch.
unfoldable pub insert_withdrawal : WithdrawalTable → Withdrawal → Action (Unit {0})
insert_withdrawal T w db =
    (do
      raise_if (not (ltb_ℤ w.amount money_limit)) data_error
      raise_if
          (not (is_admissible_withdrawal w)
            || not (
                is_empty
                  (select (λ r. (r.id == w.id) || (r.public_id == w.public_id)) (T.rows db))))
          pending_rollback
      modify (λ d. T.write (w ∷ T.rows d) d))
      db

abbrev pub new_withdrawal :
    ℕ → ℕ → ℕ → ℕ → ℤ → WithdrawalDestinationType → Text → Option Text → Withdrawal
new_withdrawal id public_id account_id wallet_id amount destination_type destination comment =
    record {
      id = id;
      public_id = public_id;
      account_id = account_id;
      wallet_id = wallet_id;
      amount = amount;
      currency = usdt;
      destination_type = destination_type;
      destination = destination;
      status = pending;
      comment = comment;
      owner_comment = none;
      approved_at = none;
      rejected_at = none;
      paid_at = none;
      cancelled_at = none;
      created_by_account_id = account_id;
      actioned_by_account_id = none;
    }

-- The insertion of the request and the reservation of its amount.
unfoldable pub insert_and_hold :
    WithdrawalTable → (ℕ → Decimal → ℕ → Action LedgerEntry) → Withdrawal → Action Withdrawal
insert_and_hold T hold w = do
  insert_withdrawal T w
  hold w.account_id (finite w.amount) w.id
  pure w

-- `get_merchant_wallet_for_account` and `get_wallet_for_account`, for the identifier of the wallet.
abbrev pub has_role : (UserRole → Bool) → Option Account → Bool
has_role allowed none = false
has_role allowed (some a) = allowed a.role

abbrev pub is_merchant : UserRole → Bool
is_merchant role = eqb_role role UserRole.merchant

abbrev pub is_wallet_owner : UserRole → Bool
is_wallet_owner role = eqb_role role UserRole.user || eqb_role role UserRole.team_lead

unfoldable pub get_merchant_wallet_id : ℕ → Action ℕ
get_merchant_wallet_id account_id db =
    (do
      raise_if (not (has_role is_merchant (find_account account_id db))) wallet_not_found
      w ← or_raise (find_merchant account_id db) wallet_not_found
      pure w.id)
      db

unfoldable pub get_wallet_id : ℕ → Action ℕ
get_wallet_id account_id db =
    (do
      raise_if (not (has_role is_wallet_owner (find_account account_id db))) wallet_not_found
      w ← or_raise (find_wallet account_id db) wallet_not_found
      pure w.id)
      db

module _ (sha256 : List ℕ → List ℕ) (account : Account) (amount : Decimal)
    (destination_type : WithdrawalDestinationType) (destination : Text) where
  -- The guards on the account, the amount and the destination.
  unfoldable pub check_request : UserRole → Action (ℤ × Text)
  check_request role = do
    raise_if (not (eqb_role account.role role) || not account.is_active)
        withdrawal_creation_not_allowed
    a ← positive_amount amount
    clean ← check_destination sha256 destination_type destination
    pure (a, clean)

module _ (sha256 : List ℕ → List ℕ) (now id public_id : ℕ) (account : Account) (amount : Decimal)
    (destination_type : WithdrawalDestinationType) (destination : Text)
    (comment : Option Text) where
  -- `payout` is `create_for_withdrawal` of the controlled payouts, where they are configured.
  unfoldable pub create_merchant_withdrawal : (Withdrawal → Action (Unit {0})) → Action Withdrawal
  create_merchant_withdrawal payout = do
    (a, clean) ← check_request sha256 account amount destination_type destination UserRole.merchant
    wallet_id ← get_merchant_wallet_id account.id
    check_withdrawal now a
    w ←
        insert_and_hold merchant_withdrawals hold_for_withdrawal
          (new_withdrawal id public_id account.id wallet_id a destination_type clean comment)
    payout w
    pure w

  -- The callers of both services pass a risk guard, without which the source skips the check.
  unfoldable pub create_user_withdrawal : Action Withdrawal
  create_user_withdrawal = do
    (a, clean) ← check_request sha256 account amount destination_type destination UserRole.user
    wallet_id ← get_wallet_id account.id
    check_withdrawal now a
    insert_and_hold user_withdrawals hold_for_user_withdrawal
        (new_withdrawal id public_id account.id wallet_id a destination_type clean comment)

  -- The team lead's wallet is locked, and no risk is checked.
  unfoldable pub create_team_lead_withdrawal : Action Withdrawal
  create_team_lead_withdrawal = do
    (a, clean) ← check_request sha256 account amount destination_type destination UserRole.team_lead
    wallet_id ← get_wallet_id account.id
    insert_and_hold team_lead_withdrawals hold_for_user_withdrawal
        (new_withdrawal id public_id account.id wallet_id a destination_type clean comment)
