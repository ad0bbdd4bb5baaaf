-- ===== src/Wallet/Posting/Reads.antt =====
-- The statements that write nothing, before a part that writes more than once: what each says of
-- the session when it does not raise.
use gigveyro.Common.{ℕ, ◌≡◌, refl, Bool, true, false, some, arith}
use gigveyro.Common.Int.{pos, ◌≤ℤ◌}
use gigveyro.Models.Wallet.{Decimal, finite, non_finite}
use gigveyro.Models.Ledger.{LedgerEntryType, Reference}
use gigveyro.Db.{Db, Action, Error, Result, ok, err, ◌>>=◌, raise_if, wallet_not_found}
use gigveyro.Db.Queries.{find_wallet, find_merchant, has_reference, select, get_by_reference}
use gigveyro.Wallet.Common.{positive, non_negative, lock_wallet, lock_merchant}
use gigveyro.Wallet.Posting.{IsSound, IsExpected, EndsBy, Ends}
use gigveyro.Wallet.Posting.Rules.{Reads-or_raise, Reads-scalar, Selected}

-- The call returns what `P` holds of, or raises an expected exception, and writes nothing.
abbrev pub Reads : {A : Type 0} → (A → Type 0) → Db → Result A × Db → Type 0
Reads P db = Ends (λ a db'. (db' ≡ db) × P a) db

module _ (db : Db) where
  pub Reads-positive : (d : Decimal) → Reads (λ a. (d ≡ finite a) × (pos 1 ≤ℤ a)) db (positive d db)
  Reads-positive non_finite = (refl, tt)
  Reads-positive (finite a) = ground arith

  pub Reads-non_negative :
      (d : Decimal) → Reads (λ a. (d ≡ finite a) × (pos 0 ≤ℤ a)) db (non_negative d db)
  Reads-non_negative non_finite = (refl, tt)
  Reads-non_negative (finite a) = ground arith

  pub Reads-raise_if :
      (b : Bool) (e : Error) → IsExpected e → Reads (λ _. b ≡ false) db (raise_if b e db)
  Reads-raise_if true e x = (refl, x)
  Reads-raise_if false e x = (refl, refl)

  pub Reads-lock_wallet : (id : ℕ) → Reads (λ w. find_wallet id db ≡ some w) db (lock_wallet id db)
  Reads-lock_wallet id = Reads-or_raise db (find_wallet id db) wallet_not_found tt

  pub Reads-lock_merchant :
      (id : ℕ) → Reads (λ w. find_merchant id db ≡ some w) db (lock_merchant id db)
  Reads-lock_merchant id = Reads-or_raise db (find_merchant id db) wallet_not_found tt

  pub Reads-get_by_reference :
      (ref : Reference) (t : LedgerEntryType)
      → IsSound db
      → Reads (Selected (select (has_reference ref t) db.ledger)) db (get_by_reference ref t db)
  unfolding get_by_reference
  Reads-get_by_reference ref t sound =
      Reads-scalar db (select (has_reference ref t) db.ledger) (sound.references ref t)

module _ {A B : Type 0} (R : Error → Db → Type 0) (Q : A → Db → Type 0) (db : Db) (P : B → Type 0)
    (f : B → Action A) (stops : (e : Error) → IsExpected e → R e db) where
  EndsBy-read :
      (x : Result B × Db)
      → Reads P db x
      → ((b : B) → P b → EndsBy R Q (f b db))
      → EndsBy R Q (elim x.0 [ ok b ↦ f b x.1 | err e ↦ (err e, x.1) ])
  EndsBy-read (ok b, db') (same, p) h = rw same (h b p)
  EndsBy-read (err e, db') (same, x) h = rw same (stops e x)

  pub EndsBy-Reads :
      (m : Action B)
      → Reads P db (m db)
      → ((b : B) → P b → EndsBy R Q (f b db))
      → EndsBy R Q ((m >>= f) db)
  EndsBy-Reads m = EndsBy-read (m db)
