-- ===== src/Wallet/Calls/Settlements.antt =====
-- A settlement takes a deal from unsettled to settled, and leaves every other deal as it was.
use mathlib.Core.Path.{subst}
use gigveyro.Common.{
  ℕ, ◌≡◌, ◌≢◌, sym, ap, ◌∙◌, inl, inr, Option, none, some, List, [], ◌∷◌, arith, ◌==◌, ==_iff,
  Bool-cases,
}
use gigveyro.Common.Int.{ℤ}
use gigveyro.Models.Ledger.{
  LedgerEntry, LedgerEntryType, type_code, deal_settlement, deal_settlement_credit,
  deal_user_profit,
}
use gigveyro.Db.{Db}
use gigveyro.Db.Queries.{has_reference, select}
use gigveyro.Wallet.Common.{user_entry, merchant_entry}
use gigveyro.Wallet.Deals.{deducted, Settlement}
use gigveyro.Wallet.Deals.Settlement.{
  Settles, PaysProfit, IsWhole, IsSettled, debit_entry, credit_entry, profit_entry,
}
use gigveyro.Wallet.Posting.Effects.{PostsUser-ledger, PostsMerchant-ledger, select-other_type}
use gigveyro.Wallet.Calls.Evolution.{
  Steps, here, next, post_user, post_merchant, rows_of, same-IsWhole, Evolves,
}
use gigveyro.Wallet.Calls.Recorded.{Recorded}
use gigveyro.Models.Ledger

-- The row is of the deal, under the entry type.
abbrev pub IsRowOf : ℕ → LedgerEntryType → LedgerEntry → Type 0
IsRowOf deal_id t e = (e.reference ≡ some (Ledger.Reference.deal deal_id)) × (e.type ≡ t)

module _ (deal_id d : ℕ) (t t' : LedgerEntryType) (e : LedgerEntry) (ledger : List LedgerEntry)
    (row : IsRowOf deal_id t' e) where
  select-other_deal :
      deal_id ≢ d
      → select (has_reference (Ledger.Reference.deal d) t) (e ∷ ledger)
        ≡ select (has_reference (Ledger.Reference.deal d) t) ledger
  unfolding select has_reference
  select-other_deal ne = ground (arith, row.0)

pub select-row :
    (deal_id : ℕ) (t : LedgerEntryType) (e : LedgerEntry) (ledger : List LedgerEntry)
    → IsRowOf deal_id t e
    → select (has_reference (Ledger.Reference.deal deal_id) t) (e ∷ ledger)
      ≡ e ∷ select (has_reference (Ledger.Reference.deal deal_id) t) ledger
unfolding select has_reference
select-row deal_id t e ledger row = ground (arith, row.0, row.1)

abbrev pub profit_row : Option LedgerEntry → List (LedgerEntryType × LedgerEntry)
profit_row none = []
profit_row (some q) = (deal_user_profit, q) ∷ []

-- The rows of a settlement, with their entry types.
abbrev pub settlement_rows : Settlement → List (LedgerEntryType × LedgerEntry)
settlement_rows s = (deal_settlement, s.0) ∷ (deal_settlement_credit, s.1) ∷ profit_row s.2

module _ (user_id merchant_id : ℕ) (a m p : ℤ) (deal_id : ℕ) (actor : Option ℕ) (db : Db)
    (s : Settlement) (db' : Db)
    (settles : Settles user_id merchant_id a m p deal_id actor db s db') where
  debit_IsRowOf : IsRowOf deal_id deal_settlement s.0
  unfolding user_entry
  debit_IsRowOf =
      let row : s.0 ≡ debit_entry deal_id actor a settles.u = settles.debit_row in
      (ap (λ (e : LedgerEntry). e.reference) row, ap (λ (e : LedgerEntry). e.type) row)

  credit_IsRowOf : IsRowOf deal_id deal_settlement_credit s.1
  unfolding merchant_entry
  credit_IsRowOf =
      let row : s.1 ≡ credit_entry deal_id actor m settles.v = settles.credit_row in
      (ap (λ (e : LedgerEntry). e.reference) row, ap (λ (e : LedgerEntry). e.type) row)

  -- The session after the credit.
  abbrev mid : Db
  mid = settles.credited_db

  mid_ledger : mid.ledger ≡ s.1 ∷ s.0 ∷ db.ledger
  mid_ledger =
      PostsMerchant-ledger settles.credit ∙ ap (λ l. s.1 ∷ l) (PostsUser-ledger settles.debit)

  mid-Steps : Steps db mid
  mid-Steps =
      next (next here (post_user settles.u (deducted settles.u a) s.0 settles.debit))
        (post_merchant settles.v _ s.1 settles.credit)

  rows_mid : (d : ℕ) (t : LedgerEntryType) → deal_id ≢ d → rows_of d t mid ≡ rows_of d t db
  rows_mid d t ne =
      ap (select (has_reference (Ledger.Reference.deal d) t)) mid_ledger
      ∙ select-other_deal deal_id d t deal_settlement_credit s.1 (s.0 ∷ db.ledger) credit_IsRowOf ne
      ∙ select-other_deal deal_id d t deal_settlement s.0 db.ledger debit_IsRowOf ne

  debit_rows_mid : rows_of deal_id deal_settlement mid ≡ s.0 ∷ []
  debit_rows_mid =
      ap (select (has_reference (Ledger.Reference.deal deal_id) deal_settlement)) mid_ledger
      ∙ select-other_type (Ledger.Reference.deal deal_id) deal_settlement s.1 (s.0 ∷ db.ledger)
          (rw credit_IsRowOf.1 (omega arith))
      ∙ select-row deal_id deal_settlement s.0 db.ledger debit_IsRowOf
      ∙ ap (λ l. s.0 ∷ l)
          (ap (λ t. select (has_reference (Ledger.Reference.deal deal_id) t) db.ledger)
              (sym debit_IsRowOf.1)
            ∙ settles.debit.fresh.reference (Ledger.Reference.deal deal_id) debit_IsRowOf.0)

  credit_new :
      select
        (has_reference (Ledger.Reference.deal deal_id) deal_settlement_credit)
        (s.0 ∷ db.ledger)
      ≡ []
  credit_new =
      ap (λ t. select (has_reference (Ledger.Reference.deal deal_id) t) (s.0 ∷ db.ledger))
        (sym credit_IsRowOf.1)
      ∙ ap (select (has_reference (Ledger.Reference.deal deal_id) s.1.type))
          (sym (PostsUser-ledger settles.debit))
      ∙ settles.credit.fresh.reference (Ledger.Reference.deal deal_id) credit_IsRowOf.0

  credit_rows_mid : rows_of deal_id deal_settlement_credit mid ≡ s.1 ∷ []
  credit_rows_mid =
      ap (select (has_reference (Ledger.Reference.deal deal_id) deal_settlement_credit)) mid_ledger
      ∙ select-row deal_id deal_settlement_credit s.1 (s.0 ∷ db.ledger) credit_IsRowOf
      ∙ ap (λ l. s.1 ∷ l) credit_new

  abbrev Paid : Option LedgerEntry → Type 0
  Paid q = PaysProfit deal_id actor p (deducted settles.u a) mid q db'

  profit_IsRowOf : (q : LedgerEntry) → Paid (some q) → IsRowOf deal_id deal_user_profit q
  unfolding user_entry
  profit_IsRowOf q paid =
      let row : q ≡ profit_entry deal_id actor p (deducted settles.u a) = paid.2 in
      (ap (λ (e : LedgerEntry). e.reference) row, ap (λ (e : LedgerEntry). e.type) row)

  Paid-Steps : (q : Option LedgerEntry) → Paid q → Steps db db'
  Paid-Steps none paid = subst (Steps db) (sym paid.1) mid-Steps
  Paid-Steps (some q) paid = next mid-Steps (post_user (deducted settles.u a) _ q paid.1)

  Paid-other_deal :
      (q : Option LedgerEntry)
      → Paid q
      → (d : ℕ) (t : LedgerEntryType) → deal_id ≢ d
      → rows_of d t db' ≡ rows_of d t db
  Paid-other_deal none paid d t ne = ap (rows_of d t) paid.1 ∙ rows_mid d t ne
  Paid-other_deal (some q) paid d t ne =
      ap (select (has_reference (Ledger.Reference.deal d) t)) (PostsUser-ledger paid.1)
      ∙ select-other_deal deal_id d t deal_user_profit q mid.ledger (profit_IsRowOf q paid) ne
      ∙ rows_mid d t ne

  -- The row of the user's share is of another type than the first two.
  Paid-other_type :
      (q : LedgerEntry) (paid : Paid (some q)) (t : LedgerEntryType)
      → type_code deal_user_profit ≢ type_code t
      → rows_of deal_id t db' ≡ rows_of deal_id t mid
  Paid-other_type q paid t ne =
      ap (select (has_reference (Ledger.Reference.deal deal_id) t)) (PostsUser-ledger paid.1)
      ∙ select-other_type (Ledger.Reference.deal deal_id) t q mid.ledger
          (rw (profit_IsRowOf q paid).1 ne)

  profit_rows :
      (q : LedgerEntry) (paid : Paid (some q)) → rows_of deal_id deal_user_profit db' ≡ q ∷ []
  profit_rows q paid =
      let row : IsRowOf deal_id deal_user_profit q = profit_IsRowOf q paid in
      ap (select (has_reference (Ledger.Reference.deal deal_id) deal_user_profit))
        (PostsUser-ledger paid.1)
      ∙ select-row deal_id deal_user_profit q mid.ledger row
      ∙ ap (λ l. q ∷ l)
          (ap (λ t. rows_of deal_id t mid) (sym row.1)
            ∙ paid.1.fresh.reference (Ledger.Reference.deal deal_id) row.0)

  Paid-IsSettled : (q : Option LedgerEntry) → Paid q → IsSettled deal_id p db'
  Paid-IsSettled none paid = (
    s.0,
    s.1,
    ap (rows_of deal_id deal_settlement) paid.1 ∙ debit_rows_mid,
    ap (rows_of deal_id deal_settlement_credit) paid.1 ∙ credit_rows_mid,
    inl paid.0,
  )
  Paid-IsSettled (some q) paid = (
    s.0,
    s.1,
    Paid-other_type q paid deal_settlement (omega arith) ∙ debit_rows_mid,
    Paid-other_type q paid deal_settlement_credit (omega arith) ∙ credit_rows_mid,
    inr (q, profit_rows q paid),
  )

  -- A settlement of a deal with its own share.
  pub Settles-Evolves : (share : ℕ → ℤ) → p ≡ share deal_id → Evolves share db db'
  Settles-Evolves share own = record {
    steps = Paid-Steps s.2 settles.profit;
    whole = λ h d. elim (Bool-cases (deal_id == d)) [
      | inl same ↦
          let e : deal_id ≡ d = ground arith in
          subst (λ k. IsWhole k (share k) db') e
            (subst (λ x. IsWhole deal_id x db') own (inr (Paid-IsSettled s.2 settles.profit)))
      | inr other ↦
          let ne : deal_id ≢ d = λ e. absurd (let q = (==_iff deal_id d).1 e in cc) in
          same-IsWhole db db' d (share d) (Paid-other_deal s.2 settles.profit d deal_settlement ne)
            (Paid-other_deal s.2 settles.profit d deal_settlement_credit ne)
            (Paid-other_deal s.2 settles.profit d deal_user_profit ne) (h d)
    ];
  }

  Paid-Recorded :
      (q : Option LedgerEntry)
      → Paid q
      → Recorded deal_id ((deal_settlement, s.0) ∷ (deal_settlement_credit, s.1) ∷ profit_row q) db'
  Paid-Recorded none paid = (
    ap (rows_of deal_id deal_settlement) paid.1 ∙ debit_rows_mid,
    (ap (rows_of deal_id deal_settlement_credit) paid.1 ∙ credit_rows_mid, tt),
  )
  Paid-Recorded (some q) paid = (
    Paid-other_type q paid deal_settlement (omega arith) ∙ debit_rows_mid,
    (
      Paid-other_type q paid deal_settlement_credit (omega arith) ∙ credit_rows_mid,
      (profit_rows q paid, tt),
    ),
  )

  pub Settles-Recorded : Recorded deal_id (settlement_rows s) db'
  Settles-Recorded = Paid-Recorded s.2 settles.profit
