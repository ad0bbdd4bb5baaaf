-- ===== src/Wallet/Calls/Recorded.antt =====
-- The rows that a call has left on record stay on record.
use mathlib.Core.Path.{subst}
use gigveyro.Common.{ℕ, ◌≡◌, ap, ◌∙◌, inl, inr, List, ◌∷◌, [], Bool-cases}
use gigveyro.Common.Table.{All}
use gigveyro.Models.Ledger.{
  LedgerEntry, LedgerEntryType, BalanceBucket, Reference, type_code, deal_settlement,
  deal_settlement_credit, deal_user_profit,
}
use gigveyro.Db.{Db}
use gigveyro.Db.Queries.{has_reference, select}
use gigveyro.Wallet.Posting.{IsSound, AtMostOne}
use gigveyro.Wallet.Posting.Effects.{PostsUser-ledger, PostsMerchant-ledger}
use gigveyro.Models.Ledger
use gigveyro.Wallet.Calls.Evolution.{
  Step, Steps, post_user, post_merchant, set_target, here, next, Step-IsSound, Steps-IsSound,
  rows_of,
}

-- The rows with their entry types, each the only one of its type for the deal.
abbrev pub Recorded : ℕ → List (LedgerEntryType × LedgerEntry) → Db → Type 0
Recorded deal_id rows db =
    All (λ (r : LedgerEntryType × LedgerEntry). rows_of deal_id r.0 db ≡ r.1 ∷ []) rows

select-kept :
    (ref : Reference) (t : LedgerEntryType) (x e : LedgerEntry) (l : List LedgerEntry)
    → AtMostOne (select (has_reference ref t) (x ∷ l))
    → select (has_reference ref t) l ≡ e ∷ []
    → select (has_reference ref t) (x ∷ l) ≡ e ∷ []
unfolding select
select-kept ref t x e l one h = elim (Bool-cases (has_reference ref t x)) [
  | inl hit ↦ absurd (rw h at (rw hit at one))
  | inr miss ↦ rw miss h
]

posted_row :
    (db db' : Db) (deal_id : ℕ) (t : LedgerEntryType) (e x : LedgerEntry)
    → db'.ledger ≡ x ∷ db.ledger
    → IsSound db'
    → rows_of deal_id t db ≡ e ∷ []
    → rows_of deal_id t db' ≡ e ∷ []
posted_row db db' d t e x row sound h =
    ap (select (has_reference (Ledger.Reference.deal d) t)) row
    ∙ select-kept (Ledger.Reference.deal d) t x e db.ledger
        (subst (λ l. AtMostOne (select (has_reference (Ledger.Reference.deal d) t) l)) row
          (sound.references (Ledger.Reference.deal d) t))
        h

Step-kept :
    {db db' : Db} (deal_id : ℕ) (t : LedgerEntryType) (e : LedgerEntry)
    → Step db db'
    → IsSound db'
    → rows_of deal_id t db ≡ e ∷ []
    → rows_of deal_id t db' ≡ e ∷ []
Step-kept {db} {db'} d t e (post_user w w' x p) sound h =
    posted_row db db' d t e x (PostsUser-ledger p) sound h
Step-kept {db} {db'} d t e (post_merchant w w' x p) sound h =
    posted_row db db' d t e x (PostsMerchant-ledger p) sound h
Step-kept d t e (set_target w v found funded same) sound h = ap (rows_of d t) same ∙ h

-- What is on record stays on record.
Steps-kept :
    {db db' : Db} (deal_id : ℕ) (t : LedgerEntryType) (e : LedgerEntry)
    → Steps db db'
    → IsSound db
    → rows_of deal_id t db ≡ e ∷ []
    → rows_of deal_id t db' ≡ e ∷ []
Steps-kept d t e here sound h = h
Steps-kept d t e (next s st) sound h =
    Step-kept d t e st (Step-IsSound st (Steps-IsSound s sound)) (Steps-kept d t e s sound h)

pub Steps-Recorded :
    {db db' : Db} (deal_id : ℕ) (rows : List (LedgerEntryType × LedgerEntry))
    → Steps db db'
    → IsSound db
    → Recorded deal_id rows db
    → Recorded deal_id rows db'
Steps-Recorded d [] s sound h = tt
Steps-Recorded d (r ∷ rows) s sound h =
    (Steps-kept d r.0 r.1 s sound h.0, Steps-Recorded d rows s sound h.1)
