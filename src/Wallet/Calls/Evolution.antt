-- ===== src/Wallet/Calls/Evolution.antt =====
-- The steps that a session takes, postings and changes of an insurance target, and what they keep.
use mathlib.Core.Path.{subst}
use gigveyro.Common.{ℕ, ◌≡◌, ◌≢◌, refl, sym, ap, ◌∙◌, ◌⊎◌, inl, inr, Option, some, List, ◌∷◌}
use gigveyro.Common.Int.{ℤ}
use gigveyro.Common.Table.{put, All-put}
use gigveyro.Models.Wallet.{Decimal, UserWallet, MerchantWallet, wallet_key}
use gigveyro.Models.Ledger.{
  LedgerEntry, LedgerEntryType, BalanceBucket, Reference, type_code, deal_settlement,
  deal_settlement_credit, deal_user_profit,
}
use gigveyro.Db.{Db, Result}
use gigveyro.Db.Queries.{find_wallet, has_reference, select}
use gigveyro.Wallet.Common.{user_entry, merchant_entry}
use gigveyro.Wallet.Deals.Settlement.{IsWhole}
use gigveyro.Wallet.Posting.{IsSound, IsFunded, PostsUser, PostsMerchant, Ends}
use gigveyro.Wallet.Posting.Rules.{Replays, Ends-weaken}
use gigveyro.Wallet.Posting.Effects.{PostsUser-ledger, PostsMerchant-ledger, select-other_type}
use gigveyro.Wallet.Posting.Invariant.{PostsUser-IsSound, PostsMerchant-IsSound}
use gigveyro.Wallet.Posting.Moves.{MovesUser, MovesMerchant}
use gigveyro.Models.Ledger

abbrev pub targeted : UserWallet → ℤ → UserWallet
targeted w t = record w { insurance_target = t }

-- One step of a session.
pub data Step (db db' : Db) : Type 0 where
  post_user : (w w' : UserWallet) (e : LedgerEntry) → PostsUser w w' e db db' → Step db db'
  post_merchant :
      (w w' : MerchantWallet) (e : LedgerEntry) → PostsMerchant w w' e db db' → Step db db'
  set_target :
      (w : UserWallet) (t : ℤ)
      → find_wallet w.account_id db ≡ some w
      → IsFunded (targeted w t)
      → db' ≡ record db { wallets = put wallet_key (targeted w t) db.wallets }
      → Step db db'

pub data Steps (db : Db) : Db → Type 0 where
  here : Steps db db
  next : {db' db'' : Db} → Steps db db' → Step db' db'' → Steps db db''

pub Step-IsSound : {db db' : Db} → Step db db' → IsSound db → IsSound db'
Step-IsSound (post_user w w' e p) h = PostsUser-IsSound h p
Step-IsSound (post_merchant w w' e p) h = PostsMerchant-IsSound h p
Step-IsSound {db} (set_target w t found funded same) h = subst IsSound (sym same) (record {
  users = All-put wallet_key IsFunded (targeted w t) db.wallets funded h.users;
  merchants = h.merchants;
  references = h.references;
  keys = h.keys;
})

-- Whatever steps a session takes, it stays sound.
pub Steps-IsSound : {db db' : Db} → Steps db db' → IsSound db → IsSound db'
Steps-IsSound here h = h
Steps-IsSound (next s st) h = Step-IsSound st (Steps-IsSound s h)

pub Steps-trans : {db db' db'' : Db} → Steps db db' → Steps db' db'' → Steps db db''
Steps-trans s here = s
Steps-trans s (next t st) = next (Steps-trans s t) st

-- A row type that is not of a settlement.
abbrev pub IsOther : LedgerEntryType → Type 0
IsOther t =
    (type_code t ≢ type_code deal_settlement)
    × (type_code t ≢ type_code deal_settlement_credit)
    × (type_code t ≢ type_code deal_user_profit)

-- The rows of one entry type for a deal.
abbrev pub rows_of : ℕ → LedgerEntryType → Db → List LedgerEntry
rows_of deal_id t db = select (has_reference (Ledger.Reference.deal deal_id) t) db.ledger

-- A session with the same rows for a deal has it in the same state.
pub same-IsWhole :
    (db db' : Db) (deal_id : ℕ) (p : ℤ)
    → rows_of deal_id deal_settlement db' ≡ rows_of deal_id deal_settlement db
    → rows_of deal_id deal_settlement_credit db' ≡ rows_of deal_id deal_settlement_credit db
    → rows_of deal_id deal_user_profit db' ≡ rows_of deal_id deal_user_profit db
    → IsWhole deal_id p db
    → IsWhole deal_id p db'
same-IsWhole db db' d p e₁ e₂ e₃ (inl (a, b, c)) = inl (e₁ ∙ a, e₂ ∙ b, e₃ ∙ c)
same-IsWhole db db' d p e₁ e₂ e₃ (inr (x, y, a, b, inl zero_share)) =
    inr (x, y, e₁ ∙ a, e₂ ∙ b, inl zero_share)
same-IsWhole db db' d p e₁ e₂ e₃ (inr (x, y, a, b, inr (q, c))) =
    inr (x, y, e₁ ∙ a, e₂ ∙ b, inr (q, e₃ ∙ c))

other-IsWhole :
    (db db' : Db) (e : LedgerEntry) (deal_id : ℕ) (p : ℤ)
    → IsOther e.type
    → db'.ledger ≡ e ∷ db.ledger
    → IsWhole deal_id p db
    → IsWhole deal_id p db'
other-IsWhole db db' e d p other row =
    same-IsWhole db db' d p (same deal_settlement other.0) (same deal_settlement_credit other.1)
      (same deal_user_profit other.2)
  where
    same : (t : LedgerEntryType) → type_code e.type ≢ type_code t → rows_of d t db' ≡ rows_of d t db
    same t ne =
        ap (select (has_reference (Ledger.Reference.deal d) t)) row
        ∙ select-other_type (Ledger.Reference.deal d) t e db.ledger ne

-- Every deal is settled with its own share, or not at all.
abbrev pub AllWhole : (ℕ → ℤ) → Db → Type 0
AllWhole share db = (deal_id : ℕ) → IsWhole deal_id (share deal_id) db

pub record Evolves (share : ℕ → ℤ) (db db' : Db) : Type 0 where
  pub steps : Steps db db'
  pub whole : AllWhole share db → AllWhole share db'

module _ (share : ℕ → ℤ) where
  pub Evolves-refl : (db db' : Db) → db' ≡ db → Evolves share db db'
  Evolves-refl db db' same =
      subst (Evolves share db) (sym same) (record { steps = here; whole = λ h. h })

  pub PostsUser-Evolves :
      {w w' : UserWallet} {e : LedgerEntry} {db db' : Db}
      → IsOther e.type
      → PostsUser w w' e db db'
      → Evolves share db db'
  PostsUser-Evolves {w} {w'} {e} {db} {db'} other p = record {
    steps = next here (post_user w w' e p);
    whole = λ h d. other-IsWhole db db' e d (share d) other (PostsUser-ledger p) (h d);
  }

  pub PostsMerchant-Evolves :
      {w w' : MerchantWallet} {e : LedgerEntry} {db db' : Db}
      → IsOther e.type
      → PostsMerchant w w' e db db'
      → Evolves share db db'
  PostsMerchant-Evolves {w} {w'} {e} {db} {db'} other p = record {
    steps = next here (post_merchant w w' e p);
    whole = λ h d. other-IsWhole db db' e d (share d) other (PostsMerchant-ledger p) (h d);
  }

  module _ (id : ℕ) (t : LedgerEntryType) (bucket : BalanceBucket) (written : ℤ → ℤ)
      (ref : Reference) (creator : Option ℕ) (amount : Decimal) (other : IsOther t) (db : Db) where
    pub MovesUser-Evolves :
        (move : ℤ → UserWallet → UserWallet) (x : Result LedgerEntry × Db)
        → Ends
            (λ e db'.
              Replays ref t db e db'
              ⊎ MovesUser id t bucket written ref creator amount move db e db')
            db
            x
        → Ends (λ _ db'. Evolves share db db') db x
    MovesUser-Evolves move x = Ends-weaken _ (λ _ db'. Evolves share db db') db x evolves
      where
        evolves :
            (e : LedgerEntry) (db' : Db)
            → Replays ref t db e db'
              ⊎ MovesUser id t bucket written ref creator amount move db e db'
            → Evolves share db db'
        evolves e db' (inl replay) = Evolves-refl db db' replay.0
        evolves e db' (inr (a, w, ea, pa, ew, p, written_row)) =
            PostsUser-Evolves
              (subst (λ r. IsOther r.type) (sym written_row) (unfold user_entry in other)) p

    pub MovesMerchant-Evolves :
        (move : ℤ → MerchantWallet → MerchantWallet) (x : Result LedgerEntry × Db)
        → Ends
            (λ e db'.
              Replays ref t db e db'
              ⊎ MovesMerchant id t bucket written ref creator amount move db e db')
            db
            x
        → Ends (λ _ db'. Evolves share db db') db x
    MovesMerchant-Evolves move x = Ends-weaken _ (λ _ db'. Evolves share db db') db x evolves
      where
        evolves :
            (e : LedgerEntry) (db' : Db)
            → Replays ref t db e db'
              ⊎ MovesMerchant id t bucket written ref creator amount move db e db'
            → Evolves share db db'
        evolves e db' (inl replay) = Evolves-refl db db' replay.0
        evolves e db' (inr (a, w, ea, pa, ew, p, written_row)) =
            PostsMerchant-Evolves
              (subst (λ r. IsOther r.type) (sym written_row) (unfold merchant_entry in other)) p

Step-deals : {db db' : Db} → Step db db' → db'.deals ≡ db.deals
Step-deals (post_user w w' e p) = ap (λ (d : Db). d.deals) p.result
Step-deals (post_merchant w w' e p) = ap (λ (d : Db). d.deals) p.result
Step-deals (set_target w t found funded same) = ap (λ (d : Db). d.deals) same

-- No step touches the deals.
pub Steps-deals : {db db' : Db} → Steps db db' → db'.deals ≡ db.deals
Steps-deals here = refl
Steps-deals (next s st) = Step-deals st ∙ Steps-deals s
