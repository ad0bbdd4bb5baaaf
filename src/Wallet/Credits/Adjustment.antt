-- ===== src/Wallet/Credits/Adjustment.antt =====
-- How the owner's adjustments end: allocate, adjust_insurance, manual_adjust and their common part.
use mathlib.Core.Path.{subst}
use gigveyro.Common.{
  ℕ, ◌≡◌, ◌≢◌, refl, ◌⊎◌, inl, inr, Bool, true, false, Option, none, some, [], ◌∷◌, arith,
  Bool-cases, ◌&&◌, not, ap, ◌∙◌,
}
use gigveyro.Common.Int.{ℤ, pos, ◌≤ℤ◌, ltb_ℤ, int_laws, ◌+ℤ◌}
use gigveyro.Common.Table.{put}
use gigveyro.Models.Account.{Account, user, eqb_role}
use gigveyro.Models.Wallet.{Decimal, finite, non_finite, UserWallet, wallet_key, in_range_user}
use gigveyro.Models.Ledger.{
  LedgerEntry, LedgerEntryType, BalanceBucket, available, insurance, frozen, held,
}
use gigveyro.Db.{
  Db, Action, ok, err, or_raise, ◌>>=◌, ◌>>◌, raise_if, insufficient_balance,
  insufficient_insurance_reserve, invalid_amount, wallet_not_found, inactive_account, data_error,
  pure,
}
use gigveyro.Db.Queries.{
  find_wallet, find_account, has_key, select, get_by_key, save_wallet, create_entry,
}
use gigveyro.Wallet.Common.{lock_wallet, or_existing, user_row}
use gigveyro.Wallet.Credits.{
  is_insurance, new_value, adjusted, adjustment_entry, insert_adjustment, adjust_wallet,
  check_amount, target_user, apply_bucket_change,
}
use gigveyro.Wallet.Posting.{IsSound, IsFunded, IsUserRecord, IsNew, PostsUser, IsExpected, Ends}
use gigveyro.Wallet.Posting.Rules.{
  EndsBy-at, Selected, Ends-weaken, Ends-raise_if, Ends-lock_wallet, Ends-get_by_key, Ends-bind,
  Reads-or_raise,
}
use gigveyro.Wallet.Posting.Flushes.{save_wallet_fits, save_wallet_over}
use gigveyro.Wallet.Posting.Reads.{Reads}
use gigveyro.Wallet.Posting.Moves.{found_at, found-IsFunded}

module _ (t : LedgerEntryType) (bucket : BalanceBucket) (a : ℤ) (key actor_id : ℕ) (w : UserWallet)
    (db : Db) (new : select (has_key w.id key) db.ledger ≡ []) where
  adjusted-IsFunded :
      IsFunded w → ltb_ℤ (new_value bucket w a) (pos 0) ≡ false → IsFunded (adjusted bucket w a)
  unfolding adjusted
  adjusted-IsFunded h enough = grind int_laws

  adjustment-IsUserRecord :
      IsUserRecord w
        (adjusted bucket w a)
        (adjustment_entry t bucket a key actor_id w (adjusted bucket w a))
  unfolding adjustment_entry
  adjustment-IsUserRecord = ground arith

  adjustment-IsNew :
      IsNew (adjustment_entry t bucket a key actor_id w (adjusted bucket w a)) db.ledger
  unfolding adjustment_entry
  adjustment-IsNew = record {
    reference = λ ref e. absurd (cc);
    key = λ i k ei ek.
        let p : w.id ≡ i = cc in
        let q : key ≡ k = cc in
        subst (λ j. select (has_key j k) db.ledger ≡ []) p
          (subst (λ j. select (has_key w.id j) db.ledger ≡ []) q new);
  }

  abbrev flush : Action LedgerEntry
  flush =
      save_wallet (adjusted bucket w a)
      >> insert_adjustment w.id key
          (adjustment_entry t bucket a key actor_id w (adjusted bucket w a))

  flush_fits :
      IsFunded (adjusted bucket w a)
      → in_range_user (adjusted bucket w a) ≡ true
      → flush db ≡ (
        ok (adjustment_entry t bucket a key actor_id w (adjusted bucket w a)),
        record db {
          wallets = put wallet_key (adjusted bucket w a) db.wallets;
          ledger = adjustment_entry t bucket a key actor_id w (adjusted bucket w a) ∷ db.ledger;
        },
      )
  unfolding insert_adjustment create_entry
  flush_fits h fits = ground (arith, save_wallet_fits (adjusted bucket w a) db h fits)

  flush_over :
      IsFunded (adjusted bucket w a)
      → in_range_user (adjusted bucket w a) ≡ false
      → flush db ≡ (err data_error, db)
  flush_over h over = ground (arith, save_wallet_over (adjusted bucket w a) db h over)

  -- A decrease of the insurance balance does not take it below its target.
  abbrev pub KeepsReserve : Type 0
  KeepsReserve =
      is_insurance bucket ≡ true
      → ltb_ℤ a (pos 0) ≡ true
      → w.insurance_target ≤ℤ new_value bucket w a

  abbrev pub Adjusts : LedgerEntry → Db → Type 0
  Adjusts e db' =
      PostsUser w (adjusted bucket w a) e db db'
      × (e ≡ adjustment_entry t bucket a key actor_id w (adjusted bucket w a))
      × KeepsReserve

  abbrev below_reserve : Bool
  below_reserve =
      is_insurance bucket && ltb_ℤ a (pos 0) && ltb_ℤ (new_value bucket w a) w.insurance_target

  keeps_reserve : below_reserve ≡ false → KeepsReserve
  keeps_reserve h i n = ground arith

  adjusted_account : (adjusted bucket w a).account_id ≡ w.account_id
  unfolding adjusted
  adjusted_account = ground arith

  adjust_wallet-Adjusts :
      IsFunded w
      → find_wallet w.account_id db ≡ some w
      → Ends Adjusts db (adjust_wallet t bucket a key actor_id w db)
  unfolding adjust_wallet
  adjust_wallet-Adjusts h found =
      Ends-raise_if Adjusts db (ltb_ℤ (new_value bucket w a) (pos 0)) insufficient_balance
        (raise_if below_reserve insufficient_insurance_reserve >> flush) tt
        λ enough.
          Ends-raise_if Adjusts db below_reserve insufficient_insurance_reserve flush tt
            λ reserve. flushed (adjusted-IsFunded h enough) (keeps_reserve reserve)
    where
      flushed : IsFunded (adjusted bucket w a) → KeepsReserve → Ends Adjusts db (flush db)
      flushed funded kept = elim (Bool-cases (in_range_user (adjusted bucket w a))) [
        | inl fits ↦
            EndsBy-at (λ e db'. (db' ≡ db) × IsExpected e) Adjusts _ _ (flush_fits funded fits)
              (
                record {
                  found = found;
                  same_account = adjusted_account;
                  funded = funded;
                  recorded = adjustment-IsUserRecord;
                  fresh = adjustment-IsNew;
                  result = refl;
                },
                refl,
                kept,
              )
        | inr over ↦
            EndsBy-at (λ e db'. (db' ≡ db) × IsExpected e) Adjusts _ _ (flush_over funded over)
              (refl, tt)
      ]

-- The amount is finite and not zero, and positive where the method requires it.
abbrev pub IsAdjustment : Bool → Decimal → ℤ → Type 0
IsAdjustment require_positive d a =
    (d ≡ finite a) × (a ≢ pos 0) × (require_positive ≡ true → pos 1 ≤ℤ a)

-- The target is an active USER.
abbrev pub IsTarget : ℕ → Db → Account → Type 0
IsTarget id db target =
    (find_account id db ≡ some target)
    × (eqb_role target.role user ≡ true)
    × (target.is_active ≡ true)

module _ (db : Db) where
  Reads-check_amount :
      (require_positive : Bool) (d : Decimal)
      → Reads (IsAdjustment require_positive d) db (check_amount require_positive d db)
  Reads-check_amount r non_finite = (refl, tt)
  Reads-check_amount r (finite a) = ground arith

  check-IsTarget :
      (id : ℕ) (target : Account)
      → find_account id db ≡ some target
      → Reads (IsTarget id db) db (
          (do
            raise_if (not (eqb_role target.role user)) wallet_not_found
            raise_if (not target.is_active) inactive_account
            pure target)
            db)
  check-IsTarget id target found = ground arith

  pub Reads-target_user : (id : ℕ) → Reads (IsTarget id db) db (target_user id db)
  unfolding target_user
  Reads-target_user id =
      Ends-bind (λ t db'. (db' ≡ db) × IsTarget id db t) db
        (λ target. find_account id db ≡ some target)
        (λ target. do
          raise_if (not (eqb_role target.role user)) wallet_not_found
          raise_if (not target.is_active) inactive_account
          pure target)
        (or_raise (find_account id db) wallet_not_found)
        (Reads-or_raise db (find_account id db) wallet_not_found tt)
        (λ target found. check-IsTarget id target found)

-- The row that is on record under the wallet and the key is returned.
abbrev pub ReplaysKey : ℕ → Option ℕ → Db → LedgerEntry → Db → Type 0
ReplaysKey target_id key db e db' =
    (w : UserWallet) × (k : ℕ) × (db' ≡ db)
    × (key ≡ some k)
    × (find_wallet target_id db ≡ some w)
    × (select (has_key w.id k) db.ledger ≡ e ∷ [])

-- The wallet with the signed amount added to one balance.
abbrev pub topped : BalanceBucket → ℤ → UserWallet → UserWallet
topped available a w = record w { available_balance = w.available_balance +ℤ a }
topped insurance a w = record w { insurance_balance = w.insurance_balance +ℤ a }
topped frozen a w = record w { insurance_balance = w.insurance_balance +ℤ a }
topped held a w = record w { insurance_balance = w.insurance_balance +ℤ a }

adjusted-topped : (b : BalanceBucket) (w : UserWallet) (a : ℤ) → adjusted b w a ≡ topped b a w
unfolding adjusted new_value
adjusted-topped available w a = refl
adjusted-topped insurance w a = refl
adjusted-topped frozen w a = refl
adjusted-topped held w a = refl

adjustment_entry-user_row :
    (t : LedgerEntryType) (b : BalanceBucket) (a : ℤ) (k actor_id : ℕ) (w w' : UserWallet)
    → adjustment_entry t b a k actor_id w w' ≡ user_row t b a none (some k) (some actor_id) w w'
unfolding adjustment_entry
adjustment_entry-user_row t b a k actor_id w w' = refl

insurance_at :
    (w : UserWallet) (a : ℤ) (b : BalanceBucket)
    → b ≡ insurance
    → new_value b w a ≡ w.insurance_balance +ℤ a
unfolding new_value
insurance_at w a b e = ap (λ c. new_value c w a) e

-- One balance of the target's wallet has changed by the amount.
abbrev pub AdjustsTarget :
    ℕ
    → ℕ
    → BalanceBucket
    → LedgerEntryType
    → Decimal
    → Bool
    → Option ℕ
    → Db
    → LedgerEntry
    → Db
    → Type 0
AdjustsTarget actor_id target_id bucket t amount require_positive key db e db' =
    (a : ℤ) × (k : ℕ) × (target : Account) × (w : UserWallet) × (key ≡ some k)
    × IsAdjustment require_positive amount a
    × IsTarget target_id db target
    × (find_wallet target_id db ≡ some w)
    × PostsUser w (topped bucket a w) e db db'
    × (e ≡ user_row t bucket a none (some k) (some actor_id) w (topped bucket a w))
    × (bucket ≡ insurance → ltb_ℤ a (pos 0) ≡ true → w.insurance_target ≤ℤ w.insurance_balance +ℤ a)
    × ((e.amount ≡ a) × (e.balance_bucket ≡ bucket) × (e.idempotency_key ≡ some k))

adjustment_entry-columns :
    (t : LedgerEntryType) (b : BalanceBucket) (a : ℤ) (k actor_id : ℕ) (w w' : UserWallet)
    (e : LedgerEntry)
    → e ≡ adjustment_entry t b a k actor_id w w'
    → (e.amount ≡ a) × (e.balance_bucket ≡ b) × (e.idempotency_key ≡ some k)
unfolding adjustment_entry user_row
adjustment_entry-columns t b a k actor_id w w' e row = (
  ap (λ (x : LedgerEntry). x.amount) row,
  ap (λ (x : LedgerEntry). x.balance_bucket) row,
  ap (λ (x : LedgerEntry). x.idempotency_key) row,
)

module _ (actor_id target_id : ℕ) (bucket : BalanceBucket) (t : LedgerEntryType) (amount : Decimal)
    (require_positive : Bool) (key : Option ℕ) (db : Db) (sound : IsSound db) where
  abbrev Done : LedgerEntry → Db → Type 0
  Done e db' =
      ReplaysKey target_id key db e db'
      ⊎ AdjustsTarget actor_id target_id bucket t amount require_positive key db e db'

  abbrev locked : ℤ → ℕ → UserWallet → Action LedgerEntry
  locked a k w = do
    existing ← get_by_key w.id k
    or_existing existing (adjust_wallet t bucket a k actor_id w)

  module _ (a : ℤ) (k : ℕ) (target : Account) (w : UserWallet) (ek : key ≡ some k)
      (ha : IsAdjustment require_positive amount a) (ht : IsTarget target_id db target)
      (ew : find_wallet target_id db ≡ some w) where
    locked-Done : Ends Done db (locked a k w db)
    locked-Done =
        Ends-get_by_key Done db sound w.id k
          (λ o. or_existing o (adjust_wallet t bucket a k actor_id w)) decide_rest
      where
        decide_rest :
            (o : Option LedgerEntry)
            → Selected (select (has_key w.id k) db.ledger) o
            → Ends Done db (or_existing o (adjust_wallet t bucket a k actor_id w) db)
        decide_rest (some e) old = inl (w, k, refl, ek, ew, old)
        decide_rest none new =
            Ends-weaken (Adjusts t bucket a k actor_id w db new) Done db
              (adjust_wallet t bucket a k actor_id w db)
              (λ e db' p. inr (
                a,
                k,
                target,
                w,
                ek,
                ha,
                ht,
                ew,
                subst (λ w'. PostsUser w w' e db db') (adjusted-topped bucket w a) p.0,
                subst (λ w'. e ≡ user_row t bucket a none (some k) (some actor_id) w w')
                    (adjusted-topped bucket w a)
                    (p.1 ∙ adjustment_entry-user_row t bucket a k actor_id w (adjusted bucket w a)),
                λ i n.
                    subst (λ v. w.insurance_target ≤ℤ v) (insurance_at w a bucket i)
                      (p.2 (ap is_insurance i) n),
                adjustment_entry-columns t bucket a k actor_id w (adjusted bucket w a) e p.1,
              ))
              (adjust_wallet-Adjusts t bucket a k actor_id w db new
                (found-IsFunded db sound target_id w ew) (found_at db sound target_id w ew))

  -- From a sound session, an adjustment raises an expected exception and writes nothing; or returns
  -- the row that is on record under its idempotency key and writes nothing; or its key is given,
  -- its amount is finite, not zero and, where that is required, positive, its target is an active
  -- USER, and it adds the signed amount to the one balance, with a row of this amount and key; the
  -- balance stays at zero or more, and, when it is a decrease of the insurance balance, at the
  -- insurance target or more.
  pub apply_bucket_change_lem :
      Ends
        (λ e db'.
          ReplaysKey target_id key db e db'
          ⊎ AdjustsTarget actor_id target_id bucket t amount require_positive key db e db')
        db
        (apply_bucket_change actor_id target_id bucket t amount require_positive key db)
  unfolding apply_bucket_change
  apply_bucket_change_lem =
      Ends-bind Done db (λ k. key ≡ some k) with_key (or_raise key invalid_amount)
        (Reads-or_raise db key invalid_amount tt)
        λ k ek.
          Ends-bind Done db (IsAdjustment require_positive amount) (with_amount k)
            (check_amount require_positive amount) (Reads-check_amount db require_positive amount)
            λ a ha.
              Ends-bind Done db (IsTarget target_id db) (λ _. with_target k a)
                (target_user target_id) (Reads-target_user db target_id)
                λ target ht.
                  Ends-lock_wallet Done db target_id (locked a k)
                    λ w ew. locked-Done a k target w ek ha ht ew
    where
      with_target : ℕ → ℤ → Action LedgerEntry
      with_target k a = lock_wallet target_id >>= locked a k

      with_amount : ℕ → ℤ → Action LedgerEntry
      with_amount k a = target_user target_id >> with_target k a

      with_key : ℕ → Action LedgerEntry
      with_key k = check_amount require_positive amount >>= with_amount k
