-- ===== src/Wallet/Posting/Invariant.antt =====
-- Every posting keeps a session sound.
use mathlib.Core.Path.{subst}
use gigveyro.Common.{
  ℕ, ◌≡◌, refl, sym, ap, ◌∙◌, Bool, true, Option, none, some, List, [], ◌∷◌, arith, inl, inr,
  Bool-cases, ◌==◌, ==_iff, ◌&&◌, if◌then◌else◌,
}
use gigveyro.Common.Table.{All-put}
use gigveyro.Models.Wallet.{UserWallet, MerchantWallet, wallet_key, merchant_key}
use gigveyro.Models.Ledger
use gigveyro.Models.Ledger.{LedgerEntry, LedgerEntryType, Reference, type_code, eqb_reference}
use gigveyro.Db.{Db}
use gigveyro.Db.Queries.{has_reference, is_reference, has_key, select}
use gigveyro.Wallet.Posting.{
  IsFunded, IsCovered, AtMostOne, IsSound, IsNew, PostsUser, PostsMerchant,
}

type_of : ℕ → LedgerEntryType
type_of n =
    if n == 0
    then Ledger.owner_allocation
    else if n == 1
    then Ledger.insurance_adjustment
    else if n == 2
    then Ledger.manual_adjustment
    else if n == 3
    then Ledger.deal_freeze
    else if n == 4
    then Ledger.deal_release
    else if n == 5
    then Ledger.deal_settlement
    else if n == 6
    then Ledger.deal_settlement_credit
    else if n == 7
    then Ledger.deal_user_profit
    else if n == 8
    then Ledger.team_lead_profit
    else if n == 9
    then Ledger.deposit_credit
    else if n == 10
    then Ledger.withdrawal_hold
    else if n == 11
    then Ledger.withdrawal_release
    else Ledger.withdrawal_paid

type_of-type_code : (t : LedgerEntryType) → type_of (type_code t) ≡ t
unfolding type_of
type_of-type_code Ledger.owner_allocation = refl
type_of-type_code _ = refl

pub type_code-injective : (t u : LedgerEntryType) → type_code t ≡ type_code u → t ≡ u
type_code-injective t u e = sym (type_of-type_code t) ∙ ap type_of e ∙ type_of-type_code u

eq_of_eqb_reference : (r s : Reference) → eqb_reference r s ≡ true → r ≡ s
eq_of_eqb_reference r s h = ground arith

reference_of : (o : Option Reference) (ref : Reference) → is_reference o ref ≡ true → o ≡ some ref
reference_of none ref h = cc
reference_of (some r) ref h = ap some (eq_of_eqb_reference r ref h)

both_true : (a b : Bool) → (a && b) ≡ true → (a ≡ true) × (b ≡ true)
both_true a b h = ground arith

-- A row that a query by reference selects carries that reference and that type.
pub has_reference_iff :
    (ref : Reference) (t : LedgerEntryType) (e : LedgerEntry)
    → has_reference ref t e ≡ true
    → (e.reference ≡ some ref) × (e.type ≡ t)
unfolding has_reference
has_reference_iff ref t e h =
    let (hr, ht) = both_true (is_reference e.reference ref) (type_code e.type == type_code t) h in
    (reference_of e.reference ref hr, type_code-injective e.type t ((==_iff _ _).0 ht))

pub has_key_iff :
    (i k : ℕ) (e : LedgerEntry)
    → has_key i k e ≡ true
    → (e.wallet_id ≡ some i) × (e.idempotency_key ≡ some k)
unfolding has_key
has_key_iff i k e h = ground arith

AtMostOne-cons :
    (p : LedgerEntry → Bool) (e : LedgerEntry) (ledger : List LedgerEntry)
    → (p e ≡ true → select p ledger ≡ [])
    → AtMostOne (select p ledger)
    → AtMostOne (select p (e ∷ ledger))
unfolding select
AtMostOne-cons p e ledger new h = elim (Bool-cases (p e)) [
  | inl hit ↦ rw (hit, new hit) tt
  | inr miss ↦ rw miss h
]

module _ (e : LedgerEntry) (db : Db) (sound : IsSound db) (new : IsNew e db.ledger) where
  references-cons :
      (ref : Reference) (t : LedgerEntryType)
      → AtMostOne (select (has_reference ref t) (e ∷ db.ledger))
  references-cons ref t =
      AtMostOne-cons (has_reference ref t) e db.ledger
        (λ hit.
          let (er, et) = has_reference_iff ref t e hit in
          subst (λ u. select (has_reference ref u) db.ledger ≡ []) et (new.reference ref er))
        (sound.references ref t)

  keys-cons : (i k : ℕ) → AtMostOne (select (has_key i k) (e ∷ db.ledger))
  keys-cons i k =
      AtMostOne-cons (has_key i k) e db.ledger
        (λ hit. let (ei, ek) = has_key_iff i k e hit in new.key i k ei ek) (sound.keys i k)

module _ {db db' : Db} {e : LedgerEntry} (sound : IsSound db) where
  pub PostsUser-IsSound : {w w' : UserWallet} → PostsUser w w' e db db' → IsSound db'
  PostsUser-IsSound {w} {w'} p = subst IsSound (sym p.result) (record {
    users = All-put wallet_key IsFunded w' db.wallets p.funded sound.users;
    merchants = sound.merchants;
    references = references-cons e db sound p.fresh;
    keys = keys-cons e db sound p.fresh;
  })

  pub PostsMerchant-IsSound : {w w' : MerchantWallet} → PostsMerchant w w' e db db' → IsSound db'
  PostsMerchant-IsSound {w} {w'} p = subst IsSound (sym p.result) (record {
    users = sound.users;
    merchants = All-put merchant_key IsCovered w' db.merchant_wallets p.covered sound.merchants;
    references = references-cons e db sound p.fresh;
    keys = keys-cons e db sound p.fresh;
  })
