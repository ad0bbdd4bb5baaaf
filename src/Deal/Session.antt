-- ===== src/Deal/Session.antt =====
-- A consistent session, and what the parts of a settlement leave of it.
use mathlib.Core.Path.{subst}
use gigveyro.Common.{
  ℕ, ◌≡◌, sym, ap, ◌∙◌, inl, inr, Option, none, some, arith, Bool-cases, Option-cases, List, ◌∷◌,
  [],
}
use gigveyro.Common.Int.{ℤ, pos, leb_ℤ}
use gigveyro.Common.Table.{All}
use gigveyro.Models.Wallet.{finite}
use gigveyro.Models.Ledger.{
  LedgerEntry, LedgerEntryType, Reference, deal_settlement, deal_settlement_credit,
  deal_user_profit, team_lead_profit, available, deal_release,
}
use gigveyro.Models.Deal.{Deal}
use gigveyro.Db.{Db, Result, pure}
use gigveyro.Db.Queries.{find_account, has_reference, has_key, select}
use gigveyro.Deal.Profit.{Any, KeepsBooks}
use gigveyro.Deal.Service.{team_lead_of, credit_to_team_lead, credit_team_lead_profit_if_assigned}
use gigveyro.Deal.Split.{compute_deal_settlement_split, share_of, team_lead_profit_percent}
use gigveyro.Wallet.Deals.{credit_team_lead_profit, credited}
use gigveyro.Wallet.Deals.Outcome.{credit_team_lead_profit_lem}
use gigveyro.Wallet.Deals.Settlement.{IsWhole, Stops}
use gigveyro.Wallet.Posting.{IsSound, IsFunded, IsCovered, EndsBy, AtMostOne}
use gigveyro.Wallet.Posting.Rules.{EndsBy-bind, EndsBy-weaken}
use gigveyro.Wallet.Calls.Evolution.{
  rows_of, same-IsWhole, Evolves, AllWhole, Steps-IsSound, Steps-deals, MovesUser-Evolves,
}
use gigveyro.Wallet.Calls.Recorded.{Recorded, Steps-Recorded}
use gigveyro.Wallet.Calls.Soundness.{Evolving, Ends-Evolving}
use gigveyro.Models.Ledger

-- The user's share of a deal is that of its split.
abbrev pub HasShare : (ℕ → ℤ) → Deal → Type 0
HasShare share d =
    (a : ℤ) → d.amount_usdt ≡ some a → (compute_deal_settlement_split a).user_profit ≡ share d.id

-- A sound session in which every settlement on record is a whole one of its deal.
pub record IsConsistent (share : ℕ → ℤ) (db : Db) : Type 0 where
  pub sound : IsSound db
  pub whole : AllWhole share db
  pub shares : All (HasShare share) db.deals

module _ (share : ℕ → ℤ) (db₀ : Db) (id : ℕ) (kept : List (LedgerEntryType × LedgerEntry)) where
  -- A later session that is consistent, has the same deals, and has these rows of a deal on record.
  abbrev pub Mid : Db → Type 0
  Mid db = IsSound db × AllWhole share db × (db.deals ≡ db₀.deals) × Recorded id kept db

  Evolves-Mid : (db db' : Db) → Mid db → Evolves share db db' → Mid db'
  Evolves-Mid db db' (sound, whole, same, recorded) e = (
    Steps-IsSound e.steps sound,
    e.whole whole,
    Steps-deals e.steps ∙ same,
    Steps-Recorded id kept e.steps sound recorded,
  )

  pub Evolving-Mid :
      {A : Type 0} (db : Db) (m : Mid db) (x : Result A × Db)
      → Evolving share db m.0 x
      → EndsBy Any (λ _ db'. Mid db') x
  Evolving-Mid db m x =
      EndsBy-weaken (Stops db) Any (λ _ db'. Evolves share db db') (λ _ db'. Mid db') x
        (λ e db' h. tt) (λ a db' h. Evolves-Mid db db' m h)

  pub Books-Mid : (db db' : Db) → Mid db → KeepsBooks db db' → Mid db'
  Books-Mid db db' (sound, whole, same, recorded) k = (
    record {
      users = subst (All IsFunded) (sym k.wallets) sound.users;
      merchants = subst (All IsCovered) (sym k.merchants) sound.merchants;
      references =
          subst
            (λ l.
              (ref : Reference) (t : LedgerEntryType) → AtMostOne (select (has_reference ref t) l))
            (sym k.ledger) sound.references;
      keys =
          subst (λ l. (w key : ℕ) → AtMostOne (select (has_key w key) l)) (sym k.ledger) sound.keys;
    },
    λ d. Books-whole d (whole d),
    k.deals ∙ same,
    subst
        (λ l.
          All
            (λ (r : LedgerEntryType × LedgerEntry).
              select (has_reference (Ledger.Reference.deal id) r.0) l ≡ r.1 ∷ [])
            kept)
        (sym k.ledger) recorded,
  )
    where
      rows : (d : ℕ) (t : LedgerEntryType) → rows_of d t db' ≡ rows_of d t db
      rows d t = ap (select (has_reference (Ledger.Reference.deal d) t)) k.ledger

      Books-whole : (d : ℕ) → IsWhole d (share d) db → IsWhole d (share d) db'
      Books-whole d =
          same-IsWhole db db' d (share d) (rows d deal_settlement) (rows d deal_settlement_credit)
            (rows d deal_user_profit)

  pub team_lead-Mid :
      (deal : Deal) (actor : Option ℕ) (db : Db)
      → Mid db
      → EndsBy Any (λ _ db'. Mid db') (credit_team_lead_profit_if_assigned deal actor db)
  unfolding credit_team_lead_profit_if_assigned credit_to_team_lead
  team_lead-Mid deal actor db m = elim (Option-cases deal.user_id) [
    | inl absent ↦ rw absent m
    | inr (u, eu) ↦ elim (Option-cases deal.amount_usdt) [
      | inl absent ↦ rw eu (rw absent m)
      | inr (a, ea) ↦ rw eu (
          rw ea
            (credited-Mid (team_lead_of (find_account u db)) (share_of a team_lead_profit_percent)))
    ]
  ]
    where
      credited-Mid :
          (lead : Option ℕ) (profit : ℤ)
          → EndsBy Any (λ _ db'. Mid db') (credit_to_team_lead lead profit deal.id actor db)
      credited-Mid none profit = m
      credited-Mid (some lead) profit = elim (Bool-cases (leb_ℤ profit (pos 0))) [
        | inl low ↦ rw low m
        | inr gain ↦ rw gain (
            EndsBy-bind Any (λ _ db'. Mid db') (λ _ db'. Mid db') (λ _. pure (some profit))
              (credit_team_lead_profit lead (finite profit) deal.id actor) db
              (Evolving-Mid db m _ (
                Ends-Evolving share db m.0 _ (
                  MovesUser-Evolves share lead team_lead_profit available (λ a. a)
                    (Ledger.Reference.deal deal.id) actor (finite profit)
                    (omega arith, omega arith, omega arith) db (λ a w. credited w a) _
                    (credit_team_lead_profit_lem lead (finite profit) deal.id db m.0 actor))))
              (λ _ db' m'. m'))
      ]
