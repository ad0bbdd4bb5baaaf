-- ===== src/Wallet/Posting/Rules.antt =====
-- The rules of `Ends`, one for each statement of the wallet methods.
use gigveyro.Common.{
  ℕ, ◌≡◌, refl, sym, Bool, true, false, Option, none, some, List, [], ◌∷◌, arith, Bool-cases, inl,
  inr, ◌⊎◌,
}
use mathlib.Core.Path.{subst}
use gigveyro.Common.Int.{ℤ, pos, ◌≤ℤ◌, leb_ℤ}
use gigveyro.Models.Wallet.{Decimal, finite, non_finite, UserWallet, MerchantWallet}
use gigveyro.Models.Ledger.{LedgerEntry, LedgerEntryType, Reference}
use gigveyro.Db.{
  Db, Action, Error, Result, ok, err, or_raise, wallet_not_found, ◌>>=◌, ◌>>◌, raise_if,
}
use gigveyro.Db.Queries.{
  find_wallet, find_merchant, has_reference, has_key, select, scalar, get_by_reference, get_by_key,
}
use gigveyro.Wallet.Common.{positive, lock_wallet, lock_merchant, once, or_existing}
use gigveyro.Wallet.Posting.{AtMostOne, IsSound, IsExpected, EndsBy, Ends}

pub Ends-weaken :
    {A : Type 0} (P Q : A → Db → Type 0) (db : Db) (x : Result A × Db)
    → ((a : A) (db' : Db) → P a db' → Q a db')
    → Ends P db x
    → Ends Q db x
Ends-weaken P Q db (ok a, db') h p = h a db' p
Ends-weaken P Q db (err e, db') h p = p

pub EndsBy-at :
    {A : Type 0} (R : Error → Db → Type 0) (P : A → Db → Type 0) (x y : Result A × Db)
    → x ≡ y
    → EndsBy R P y
    → EndsBy R P x
EndsBy-at R P x y e h = subst (EndsBy R P) (sym e) h

-- The rule for two statements of which both may write.
module _ {A B : Type 0} (R : Error → Db → Type 0) (P : B → Db → Type 0) (Q : A → Db → Type 0)
    (f : B → Action A) where
  EndsBy-then :
      (x : Result B × Db)
      → EndsBy R P x
      → ((b : B) (db' : Db) → P b db' → EndsBy R Q (f b db'))
      → EndsBy R Q (elim x.0 [ ok b ↦ f b x.1 | err e ↦ (err e, x.1) ])
  EndsBy-then (ok b, db') p h = h b db' p
  EndsBy-then (err e, db') stop h = stop

  pub EndsBy-bind :
      (m : Action B) (db : Db)
      → EndsBy R P (m db)
      → ((b : B) (db' : Db) → P b db' → EndsBy R Q (f b db'))
      → EndsBy R Q ((m >>= f) db)
  EndsBy-bind m db = EndsBy-then (m db)

pub EndsBy-weaken :
    {A : Type 0} (R S : Error → Db → Type 0) (P Q : A → Db → Type 0) (x : Result A × Db)
    → ((e : Error) (db' : Db) → R e db' → S e db')
    → ((a : A) (db' : Db) → P a db' → Q a db')
    → EndsBy R P x
    → EndsBy S Q x
EndsBy-weaken R S P Q (ok a, db') g h p = h a db' p
EndsBy-weaken R S P Q (err e, db') g h p = g e db' p

-- The rule for a statement that writes nothing: the rest of the block may use what it says.
module _ {A B : Type 0} (Q : A → Db → Type 0) (db : Db) (P : B → Type 0) (f : B → Action A) where
  Ends-read :
      (x : Result B × Db)
      → Ends (λ b db'. (db' ≡ db) × P b) db x
      → ((b : B) → P b → Ends Q db (f b db))
      → Ends Q db (elim x.0 [ ok b ↦ f b x.1 | err e ↦ (err e, x.1) ])
  Ends-read (ok b, db') (same, p) h = rw same (h b p)
  Ends-read (err e, db') stop h = stop

  pub Ends-bind :
      (m : Action B)
      → Ends (λ b db'. (db' ≡ db) × P b) db (m db)
      → ((b : B) → P b → Ends Q db (f b db))
      → Ends Q db ((m >>= f) db)
  Ends-bind m = Ends-read (m db)

module _ {A : Type 0} (db : Db) where
  pub Reads-or_raise :
      (o : Option A) (e : Error)
      → IsExpected e
      → Ends (λ a db'. (db' ≡ db) × (o ≡ some a)) db (or_raise o e db)
  Reads-or_raise none e x = (refl, x)
  Reads-or_raise (some a) e x = (refl, refl)

module _ {A : Type 0} (Q : A → Db → Type 0) (db : Db) where
  pub Ends-positive :
      (d : Decimal) (f : ℤ → Action A)
      → ((a : ℤ) → d ≡ finite a → pos 1 ≤ℤ a → Ends Q db (f a db))
      → Ends Q db ((positive d >>= f) db)
  Ends-positive non_finite f h = (refl, tt)
  Ends-positive (finite a) f h = elim (Bool-cases (leb_ℤ a (pos 0))) [
    | inl low ↦ rw low (refl, tt)
    | inr high ↦ rw high (h a refl (ground arith))
  ]

  pub Ends-raise_if :
      (b : Bool) (e : Error) (k : Action A)
      → IsExpected e
      → (b ≡ false → Ends Q db (k db))
      → Ends Q db ((raise_if b e >> k) db)
  Ends-raise_if true e k x h = (refl, x)
  Ends-raise_if false e k x h = h refl

  pub Ends-lock_wallet :
      (id : ℕ) (f : UserWallet → Action A)
      → ((w : UserWallet) → find_wallet id db ≡ some w → Ends Q db (f w db))
      → Ends Q db ((lock_wallet id >>= f) db)
  Ends-lock_wallet id f =
      Ends-bind Q db (λ w. find_wallet id db ≡ some w) f (lock_wallet id)
        (Reads-or_raise db (find_wallet id db) wallet_not_found tt)

  pub Ends-lock_merchant :
      (id : ℕ) (f : MerchantWallet → Action A)
      → ((w : MerchantWallet) → find_merchant id db ≡ some w → Ends Q db (f w db))
      → Ends Q db ((lock_merchant id >>= f) db)
  Ends-lock_merchant id f =
      Ends-bind Q db (λ w. find_merchant id db ≡ some w) f (lock_merchant id)
        (Reads-or_raise db (find_merchant id db) wallet_not_found tt)

-- What a query for at most one row has found.
abbrev pub Selected : List LedgerEntry → Option LedgerEntry → Type 0
Selected rows none = rows ≡ []
Selected rows (some e) = rows ≡ e ∷ []

pub Reads-scalar :
    (db : Db) (rows : List LedgerEntry)
    → AtMostOne rows
    → Ends (λ o db'. (db' ≡ db) × Selected rows o) db (scalar rows db)
unfolding scalar
Reads-scalar db [] h = (refl, refl)
Reads-scalar db (x ∷ []) h = (refl, refl)
Reads-scalar db (x ∷ y ∷ r) h = absurd h

module _ {A : Type 0} (Q : A → Db → Type 0) (db : Db) (sound : IsSound db) where
  pub Ends-get_by_reference :
      (ref : Reference) (t : LedgerEntryType) (f : Option LedgerEntry → Action A)
      → ((o : Option LedgerEntry)
          → Selected (select (has_reference ref t) db.ledger) o
          → Ends Q db (f o db))
      → Ends Q db ((get_by_reference ref t >>= f) db)
  unfolding get_by_reference
  Ends-get_by_reference ref t f =
      Ends-bind Q db (Selected (select (has_reference ref t) db.ledger)) f (get_by_reference ref t)
        (Reads-scalar db (select (has_reference ref t) db.ledger) (sound.references ref t))

  pub Ends-get_by_key :
      (wallet_id key : ℕ) (f : Option LedgerEntry → Action A)
      → ((o : Option LedgerEntry)
          → Selected (select (has_key wallet_id key) db.ledger) o
          → Ends Q db (f o db))
      → Ends Q db ((get_by_key wallet_id key >>= f) db)
  unfolding get_by_key
  Ends-get_by_key wallet_id key f =
      Ends-bind Q db (Selected (select (has_key wallet_id key) db.ledger)) f
        (get_by_key wallet_id key)
        (Reads-scalar db (select (has_key wallet_id key) db.ledger) (sound.keys wallet_id key))

-- The row that is on record is returned, and nothing is written.
abbrev pub Replays : Reference → LedgerEntryType → Db → LedgerEntry → Db → Type 0
Replays ref t db e db' = (db' ≡ db) × (select (has_reference ref t) db.ledger ≡ e ∷ [])

-- A method that is to take effect once ends as a replay, or as its body does, with no row on record.
pub Ends-once :
    (P : LedgerEntry → Db → Type 0) (db : Db)
    → IsSound db
    → (ref : Reference) (t : LedgerEntryType) (rest : Action LedgerEntry)
    → (select (has_reference ref t) db.ledger ≡ [] → Ends P db (rest db))
    → Ends (λ e db'. Replays ref t db e db' ⊎ P e db') db (once ref t rest db)
Ends-once P db sound ref t rest h =
    Ends-get_by_reference (λ e db'. Replays ref t db e db' ⊎ P e db') db sound ref t
      (λ o. or_existing o rest) (decide_rest)
  where
    decide_rest :
        (o : Option LedgerEntry)
        → Selected (select (has_reference ref t) db.ledger) o
        → Ends (λ e db'. Replays ref t db e db' ⊎ P e db') db (or_existing o rest db)
    decide_rest none new =
        Ends-weaken P (λ e db'. Replays ref t db e db' ⊎ P e db') db (rest db) (λ e db' p. inr p)
          (h new)
    decide_rest (some e) old = inl (refl, old)
