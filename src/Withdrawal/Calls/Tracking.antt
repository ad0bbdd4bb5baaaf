-- ===== src/Withdrawal/Calls/Tracking.antt =====
-- What the ledger says of a request on record: its release and its payment are there exactly when
-- its status says so.
use mathlib.Core.Path.{subst}
use gigveyro.Common.{
  ℕ, ◌≡◌, ◌≢◌, refl, sym, ap, ◌∙◌, Bool, true, false, some, List, [], ◌∷◌, ◌==◌, ◌⊎◌, arith,
  Bool-cases, inl, inr,
}
use gigveyro.Common.Table.{find, put, find-put_self, find-put_ne}
use gigveyro.Models.Ledger
use gigveyro.Models.Ledger.{
  LedgerEntry, LedgerEntryType, Reference, withdrawal_release, withdrawal_paid, type_code,
}
use gigveyro.Models.Withdrawal.{
  Withdrawal, WithdrawalStatus, withdrawal_key, rejected, cancelled, is_paid,
}
use gigveyro.Db.{Db}
use gigveyro.Db.Queries.{has_reference, select}
use gigveyro.Db.WithdrawalQueries.{find_withdrawal}
use gigveyro.Wallet.Posting.Effects.{select-other_type}
use gigveyro.Withdrawal.Calls.{Kind, merchant, user, team_lead, table}

-- The ledger rows of one type for a request.
abbrev pub rows_for : ℕ → LedgerEntryType → Db → List LedgerEntry
rows_for id t db = select (has_reference (Ledger.Reference.withdrawal id) t) db.ledger

abbrev pub Occurs : Bool → List LedgerEntry → Type 0
Occurs true rows = (e : LedgerEntry) × (rows ≡ e ∷ [])
Occurs false rows = rows ≡ []

-- The amount is given back when the request is rejected or cancelled.
abbrev pub is_given_back : WithdrawalStatus → Bool
is_given_back rejected = true
is_given_back cancelled = true
is_given_back _ = false

abbrev pub IsBooked : ℕ → WithdrawalStatus → List LedgerEntry → Type 0
IsBooked id s ledger =
    Occurs (is_given_back s)
      (select (has_reference (Ledger.Reference.withdrawal id) withdrawal_release) ledger)
    × Occurs (is_paid s)
        (select (has_reference (Ledger.Reference.withdrawal id) withdrawal_paid) ledger)

-- Every request on record is released once if it is rejected or cancelled and else never, and paid
-- once if it is PAID and else never; and no id is that of requests of two tables.
pub record IsTracked (db : Db) : Type 0 where
  pub booked :
      (k : Kind) (id : ℕ) (w : Withdrawal)
      → find_withdrawal (table k) id db ≡ some w
      → IsBooked id w.status db.ledger
  pub separate :
      (k k' : Kind) (id : ℕ) (w w' : Withdrawal)
      → find_withdrawal (table k) id db ≡ some w
      → find_withdrawal (table k') id db ≡ some w'
      → k ≡ k'

-- What a change of one table leaves.
pub write-rows :
    (k : Kind) (l : List Withdrawal) (db : Db) → (table k).rows ((table k).write l db) ≡ l
write-rows merchant l db = refl
write-rows user l db = refl
write-rows team_lead l db = refl

pub write-ledger :
    (k : Kind) (l : List Withdrawal) (db : Db) → ((table k).write l db).ledger ≡ db.ledger
write-ledger merchant l db = refl
write-ledger user l db = refl
write-ledger team_lead l db = refl

pub write-others :
    (k k' : Kind) (l : List Withdrawal) (db : Db)
    → (k ≡ k') ⊎ ((k ≢ k') × ((table k').rows ((table k).write l db) ≡ (table k').rows db))
write-others merchant merchant l db = inl refl
write-others merchant user l db = inr (λ h. cc, refl)
write-others merchant team_lead l db = inr (λ h. cc, refl)
write-others user merchant l db = inr (λ h. cc, refl)
write-others user user l db = inl refl
write-others user team_lead l db = inr (λ h. cc, refl)
write-others team_lead merchant l db = inr (λ h. cc, refl)
write-others team_lead user l db = inr (λ h. cc, refl)
write-others team_lead team_lead l db = inl refl

-- A flush replaces a row of the table, so that the rows on record afterwards are the new one and
-- those that were there.
module _ (k : Kind) (id : ℕ) (w w' : Withdrawal) (db : Db)
    (found : find_withdrawal (table k) id db ≡ some w) (same : w'.id ≡ id) where
  abbrev pub written : Db
  written = (table k).write (put withdrawal_key w' ((table k).rows db)) db

  pub written-found : find_withdrawal (table k) id written ≡ some w'
  written-found =
      ap (find withdrawal_key id) (write-rows k (put withdrawal_key w' ((table k).rows db)) db)
      ∙ rw (← same) (find-put_self withdrawal_key w' ((table k).rows db) w (rw same found))

  -- A row that is found afterwards is the new one, or was there under another id.
  pub written-cases :
      (k' : Kind) (id' : ℕ) (v : Withdrawal)
      → find_withdrawal (table k') id' written ≡ some v
      → ((k ≡ k') × (id ≡ id') × (v ≡ w'))
        ⊎ ((find_withdrawal (table k') id' db ≡ some v) × ((k ≡ k') → id ≢ id'))
  written-cases k' id' v h =
      elim (write-others k k' (put withdrawal_key w' ((table k).rows db)) db) [
        | inl at_k ↦
            let here : find_withdrawal (table k) id' written ≡ some v =
              subst (λ j. find_withdrawal (table j) id' written ≡ some v) (sym at_k) h in
            elim (Bool-cases (id == id')) [
              | inl at_id ↦
                  let ids : id ≡ id' = ground (arith, at_id) in
                  let e : v ≡ w' = cc (written-found, here, ids) in inl (at_k, ids, e)
              | inr other ↦
                  let ne : w'.id ≢ id' = λ q. ground (arith, other, q, same) in
                  let old : find_withdrawal (table k) id' db ≡ some v =
                    sym (find-put_ne withdrawal_key id' w' ((table k).rows db) ne)
                    ∙ ap (find withdrawal_key id')
                        (sym (write-rows k (put withdrawal_key w' ((table k).rows db)) db))
                    ∙ here in
                  inr (
                    subst (λ j. find_withdrawal (table j) id' db ≡ some v) at_k old,
                    λ _ q. ground (arith, other, q),
                  )
            ]
        | inr (other, kept) ↦
            inr (ap (find withdrawal_key id') (sym kept) ∙ h, λ q. absurd (other q))
      ]

-- A posted row of a request.
pub record Adds (id : ℕ) (t : LedgerEntryType) (ledger ledger' : List LedgerEntry) : Type 0 where
  pub entry : LedgerEntry
  pub result : ledger' ≡ entry ∷ ledger
  pub reference : entry.reference ≡ some (Ledger.Reference.withdrawal id)
  pub type : entry.type ≡ t

pub other_request :
    (id id' : ℕ) (t t' : LedgerEntryType) (ledger ledger' : List LedgerEntry)
    → Adds id t ledger ledger'
    → id ≢ id'
    → select (has_reference (Ledger.Reference.withdrawal id') t') ledger'
      ≡ select (has_reference (Ledger.Reference.withdrawal id') t') ledger
unfolding select has_reference
other_request id id' t t' ledger ledger' p ne =
    ap (select (has_reference (Ledger.Reference.withdrawal id') t')) p.result
    ∙ ground (arith, ne, p.reference)

module _ (id : ℕ) (t : LedgerEntryType) (ledger ledger' : List LedgerEntry)
    (p : Adds id t ledger ledger') where
  pub own_request :
      select (has_reference (Ledger.Reference.withdrawal id) t) ledger'
      ≡ p.entry ∷ select (has_reference (Ledger.Reference.withdrawal id) t) ledger
  unfolding select has_reference
  own_request =
      ap (select (has_reference (Ledger.Reference.withdrawal id) t)) p.result
      ∙ ground (arith, p.reference, p.type)

  pub other_rows :
      (t' : LedgerEntryType)
      → type_code t ≢ type_code t'
      → select (has_reference (Ledger.Reference.withdrawal id) t') ledger'
        ≡ select (has_reference (Ledger.Reference.withdrawal id) t') ledger
  other_rows t' ne =
      ap (select (has_reference (Ledger.Reference.withdrawal id) t')) p.result
      ∙ select-other_type (Ledger.Reference.withdrawal id) t' p.entry ledger
          (λ q. ne (ap type_code (sym p.type) ∙ q))
