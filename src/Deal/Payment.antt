-- ===== src/Deal/Payment.antt =====
-- How the settlement and the release of a deal end, with the row of the deal.
use gigveyro.Deal.{is_allowed, stamped, transition_deal}
use gigveyro.Common.{
  ℕ, ◌≡◌, refl, sym, ap, ◌∙◌, inl, inr, Option, some, arith, Bool-cases, List, [], ◌∷◌, ◌⊎◌,
}
use gigveyro.Common.Int.{ℤ}
use gigveyro.Common.Table.{put, find-key, find-put_self, All-put, All-find}
use gigveyro.Models.Wallet.{finite}
use gigveyro.Models.Ledger.{
  LedgerEntry, LedgerEntryType, Reference, deal_settlement, deal_settlement_credit,
  deal_user_profit, team_lead_profit, available, deal_release,
}
use gigveyro.Models.Deal.{Deal, DealStatus, deal_key, completed, cancelled, is_admissible_deal}
use gigveyro.Db.{Db, Action, pure, ◌>>=◌, ◌>>◌}
use gigveyro.Db.DealQueries.{find_deal, save_deal}
use gigveyro.Deal.Profit.{Any, KeepsBooks, record_deal_owner_profit-KeepsBooks}
use gigveyro.Deal.Service.{
  record_deal_owner_profit, credit_team_lead_profit_if_assigned, settle_in_progress,
  release_in_progress,
}
use gigveyro.Deal.Split.{compute_deal_settlement_split}
use gigveyro.Wallet.Deals.{settle_deal, release_for_deal, Settlement}
use gigveyro.Wallet.Deals.Outcome.{release_for_deal_lem, unfreeze}
use gigveyro.Wallet.Posting.{EndsBy, IsExpected}
use gigveyro.Wallet.Posting.Rules.{EndsBy-bind, EndsBy-weaken, Replays}
use gigveyro.Wallet.Calls.Evolution.{
  Steps-IsSound, Steps-deals, Evolves, Evolves-refl, PostsUser-Evolves, IsOther, rows_of,
}
use gigveyro.Wallet.Calls.Recorded.{Recorded}
use gigveyro.Wallet.Calls.Soundness.{Made, Made-Evolves, Made-Recorded, settle-Made}
use gigveyro.Deal.Session.{HasShare, IsConsistent, Mid, Books-Mid, team_lead-Mid}
use mathlib.Core.Path.{subst}
use gigveyro.Db.Queries.{select, has_reference}
use gigveyro.Wallet.Calls.Settlements.{settlement_rows, IsRowOf, select-row}
use gigveyro.Wallet.Deals.Settlement.{Stops, ReplaysSettlement, SettlesShares}
use gigveyro.Wallet.Posting.Moves.{MovesUser}
use gigveyro.Wallet.Posting.Effects.{PostsUser-ledger}
use gigveyro.Wallet.Common.{user_entry}
use gigveyro.Models.Ledger

-- A deal that the service returns: its row is on record with this status, the session is consistent,
-- and the call has had this effect.
pub record Leaves (share : ℕ → ℤ) (id : ℕ) (s : DealStatus) (Effect : Db → Type 0) (d : Deal)
    (db' : Db) : Type 0 where
  pub consistent : IsConsistent share db'
  pub recorded : find_deal id db' ≡ some d
  pub status : d.status ≡ s
  pub effect : Effect db'

-- The settlement of the deal was on record in `db`, or its movements are made from `db`, with the
-- shares of the split; and its rows are on record in the end, each once.
abbrev pub Pays : Deal → ℕ → ℤ → Option ℕ → Db → Db → Type 0
Pays deal user_id amount actor db db' =
    let split = compute_deal_settlement_split amount in
    (s : Settlement) × (db₁ : Db) × (ReplaysSettlement deal.id db s db₁
      ⊎ SettlesShares user_id deal.merchant_id (finite amount) (finite split.merchant_amount)
          (finite split.user_profit) deal.id actor db s db₁)
    × Recorded deal.id (settlement_rows s) db'

-- The release of the deal was on record in `db`, or the amount moves from the user's frozen balance
-- to its available balance; and the row is on record in the end, once.
abbrev pub Releases : Deal → ℕ → ℤ → Db → Db → Type 0
Releases deal user_id amount db db' =
    (e : LedgerEntry) × (db₁ : Db) × (Replays (Ledger.Reference.deal deal.id) deal_release db e db₁
      ⊎ MovesUser user_id deal_release available (λ a. a) (Ledger.Reference.deal deal.id)
          (some user_id) (finite amount) unfreeze db e db₁)
    × Recorded deal.id ((deal_release, e) ∷ []) db'

module _ (share : ℕ → ℤ) (now : ℕ) (db : Db) (c : IsConsistent share db) (id : ℕ) (deal : Deal)
    (found : find_deal id db ≡ some deal) where
  deal_id : deal.id ≡ id
  deal_id = find-key deal_key id db.deals deal found

  deal_share : HasShare share deal
  deal_share = All-find deal_key (HasShare share) id db.deals deal c.shares found

  -- The last two statements of both methods: the row of the deal takes its last status.
  closed :
      (rows : List (LedgerEntryType × LedgerEntry)) (s : DealStatus) (d : Deal) (db' : Db)
      → d.id ≡ id
      → HasShare share d
      → d.status ≡ s
      → Mid share db deal.id rows db'
      → EndsBy Any (Leaves share id s (Recorded deal.id rows)) ((save_deal d >> pure d) db')
  unfolding save_deal
  closed rows s d db' same has status (sound, whole, deals, recorded) =
      elim (Bool-cases (is_admissible_deal d)) [
        | inl admissible ↦ rw admissible (record {
          consistent = record {
            sound = record {
              users = sound.users;
              merchants = sound.merchants;
              references = sound.references;
              keys = sound.keys;
            };
            whole = whole;
            shares = All-put deal_key (HasShare share) d db'.deals has (rw deals c.shares);
          };
          recorded =
              ap (λ k. find_deal k (record db' { deals = put deal_key d db'.deals })) (sym same)
              ∙ find-put_self deal_key d db'.deals deal (rw (same, deals) found);
          status = status;
          effect = recorded;
        })
        | inr refused ↦ rw refused tt
      ]

  module _ (user_id : ℕ) (amount : ℤ) (actor : Option ℕ) (ea : deal.amount_usdt ≡ some amount) where
    abbrev filled : Option ℤ → Deal
    filled lead_profit =
        let split = compute_deal_settlement_split amount in
        record deal {
          merchant_settlement_amount = some split.merchant_amount;
          user_profit_amount = some split.user_profit;
          owner_profit_amount = some split.owner_profit;
          team_lead_profit_amount = lead_profit;
        }

    abbrev finish : Option ℤ → Action Deal
    finish lead_profit = do
      settled ← transition_deal now (filled lead_profit) completed
      save_deal settled
      pure settled

    module _ (rows : List (LedgerEntryType × LedgerEntry)) where
      abbrev Finished : Deal → Db → Type 0
      Finished = Leaves share id completed (Recorded deal.id rows)

      finish-Leaves :
          (lead_profit : Option ℤ) (db' : Db)
          → Mid share db deal.id rows db'
          → EndsBy Any Finished (finish lead_profit db')
      unfolding transition_deal stamped
      finish-Leaves lead_profit db' m = elim (Bool-cases (is_allowed deal.status completed)) [
        | inl allowed ↦ rw allowed (
            closed rows completed (stamped now completed (filled lead_profit)) db' deal_id
              deal_share refl m)
        | inr refused ↦ rw refused tt
      ]

      abbrev with_lead : Action Deal
      with_lead = credit_team_lead_profit_if_assigned deal actor >>= finish

      abbrev with_profit : Action Deal
      with_profit =
          let split = compute_deal_settlement_split amount in
          record_deal_owner_profit deal amount split.merchant_amount split.owner_profit >> with_lead

      with_profit-Leaves :
          (db₁ : Db) → Mid share db deal.id rows db₁ → EndsBy Any Finished (with_profit db₁)
      with_profit-Leaves db₁ m₁ =
          let split = compute_deal_settlement_split amount in
          EndsBy-bind Any (λ _ db'. Mid share db deal.id rows db') Finished (λ _. with_lead)
            (record_deal_owner_profit deal amount split.merchant_amount split.owner_profit) db₁
            (EndsBy-weaken Any Any (λ _ db'. KeepsBooks db₁ db')
              (λ _ db'. Mid share db deal.id rows db')
              (record_deal_owner_profit deal amount split.merchant_amount split.owner_profit db₁)
              (λ e db' h. h) (λ _ db' k. Books-Mid share db deal.id rows db₁ db' m₁ k)
              (record_deal_owner_profit-KeepsBooks db₁ deal amount split.merchant_amount
                split.owner_profit db₁
                (record { wallets = refl; merchants = refl; ledger = refl; deals = refl })))
            λ _ db₂ m₂.
              EndsBy-bind Any (λ _ db'. Mid share db deal.id rows db') Finished finish
                (credit_team_lead_profit_if_assigned deal actor) db₂
                (team_lead-Mid share db deal.id rows deal actor db₂ m₂) finish-Leaves

    abbrev own_share :
        finite (compute_deal_settlement_split amount).user_profit ≡ finite (share deal.id)
    own_share = ap finite (deal_share amount ea)

    pub settle-Leaves :
        EndsBy Any
          (Leaves share id completed (Pays deal user_id amount actor db))
          (settle_in_progress now deal user_id amount actor db)
    unfolding settle_in_progress
    settle-Leaves =
        let split = compute_deal_settlement_split amount in
        EndsBy-bind Any
          (Made share db c.sound user_id deal.merchant_id (finite amount)
            (finite split.merchant_amount) (finite split.user_profit) deal.id actor own_share)
          (Leaves share id completed (Pays deal user_id amount actor db)) (λ _. with_profit [])
          (settle_deal user_id deal.merchant_id (finite amount) (finite split.merchant_amount)
            (finite split.user_profit) deal.id actor)
          db
          (EndsBy-weaken (Stops db) Any
            (Made share db c.sound user_id deal.merchant_id (finite amount)
              (finite split.merchant_amount) (finite split.user_profit) deal.id actor own_share)
            (Made share db c.sound user_id deal.merchant_id (finite amount)
              (finite split.merchant_amount) (finite split.user_profit) deal.id actor own_share)
            (settle_deal user_id deal.merchant_id (finite amount) (finite split.merchant_amount)
              (finite split.user_profit) deal.id actor db)
            (λ e db' h. tt) (λ s db' h. h)
            (settle-Made share db c.sound user_id deal.merchant_id (finite amount)
              (finite split.merchant_amount) (finite split.user_profit) deal.id actor own_share
              c.whole))
          paid_out
      where
        paid_out :
            (s : Settlement) (db₁ : Db)
            → Made share db c.sound user_id deal.merchant_id
                (finite amount)
                (finite (compute_deal_settlement_split amount).merchant_amount)
                (finite (compute_deal_settlement_split amount).user_profit)
                deal.id
                actor
                own_share
                s
                db₁
            → EndsBy Any
                (Leaves share id completed (Pays deal user_id amount actor db))
                (with_profit [] db₁)
        paid_out s db₁ made =
            let split = compute_deal_settlement_split amount in
            let evolves =
              Made-Evolves share db c.sound user_id deal.merchant_id (finite amount)
                (finite split.merchant_amount) (finite split.user_profit) deal.id actor own_share s
                db₁ made in
            EndsBy-weaken Any Any (Finished (settlement_rows s))
              (Leaves share id completed (Pays deal user_id amount actor db)) (with_profit [] db₁)
              (λ e db' h. h)
              (λ d db' left. record {
                consistent = left.consistent;
                recorded = left.recorded;
                status = left.status;
                effect = (s, db₁, made, left.effect);
              })
              (with_profit-Leaves (settlement_rows s) db₁ (
                Steps-IsSound evolves.steps c.sound,
                evolves.whole c.whole,
                Steps-deals evolves.steps,
                Made-Recorded share db c.sound user_id deal.merchant_id (finite amount)
                    (finite split.merchant_amount) (finite split.user_profit) deal.id actor
                    own_share s db₁ made,
              ))

    abbrev Released : LedgerEntry → Db → Type 0
    Released e db₁ =
        Replays (Ledger.Reference.deal deal.id) deal_release db e db₁
        ⊎ MovesUser user_id deal_release available (λ a. a) (Ledger.Reference.deal deal.id)
            (some user_id) (finite amount) unfreeze db e db₁

    Released-Recorded :
        (e : LedgerEntry) (db₁ : Db)
        → Released e db₁
        → Recorded deal.id ((deal_release, e) ∷ []) db₁
    unfolding user_entry
    Released-Recorded e db₁ (inl (same, row)) = (ap (rows_of deal.id deal_release) same ∙ row, tt)
    Released-Recorded e db₁ (inr (a, w, ea, pa, ew, p, row)) =
        let of_deal : IsRowOf deal.id deal_release e =
          (ap (λ (x : LedgerEntry). x.reference) row, ap (λ (x : LedgerEntry). x.type) row) in
        (
          ap (select (has_reference (Ledger.Reference.deal deal.id) deal_release))
                (PostsUser-ledger p)
              ∙ select-row deal.id deal_release e db.ledger of_deal
              ∙ ap (λ l. e ∷ l)
                  (ap (λ t. select (has_reference (Ledger.Reference.deal deal.id) t) db.ledger)
                      (sym of_deal.1)
                    ∙ p.fresh.reference (Ledger.Reference.deal deal.id) of_deal.0),
          tt,
        )

    Released-Evolves : (e : LedgerEntry) (db₁ : Db) → Released e db₁ → Evolves share db db₁
    unfolding user_entry
    Released-Evolves e db₁ (inl replay) = Evolves-refl share db db₁ replay.0
    Released-Evolves e db₁ (inr (a, w, ea, pa, ew, p, row)) =
        PostsUser-Evolves share
          (subst (λ (r : LedgerEntry). IsOther r.type) (sym row)
            (omega arith, omega arith, omega arith))
          p

    pub release-Leaves :
        EndsBy Any
          (Leaves share id cancelled (Releases deal user_id amount db))
          (release_in_progress now deal user_id amount db)
    unfolding release_in_progress transition_deal stamped
    release-Leaves =
        EndsBy-bind Any Released (Leaves share id cancelled (Releases deal user_id amount db))
          (λ _. transition_deal now deal cancelled >>= close)
          (release_for_deal user_id (finite amount) deal.id) db
          (EndsBy-weaken (λ e db'. (db' ≡ db) × IsExpected e) Any Released Released
            (release_for_deal user_id (finite amount) deal.id db) (λ e db' h. tt) (λ e db' h. h)
            (release_for_deal_lem user_id (finite amount) deal.id db c.sound))
          λ e db₁ moved.
            let evolves = Released-Evolves e db₁ moved in
            elim (Bool-cases (is_allowed deal.status cancelled)) [
              | inl allowed ↦ rw allowed (
                  EndsBy-weaken Any Any
                    (Leaves share id cancelled (Recorded deal.id ((deal_release, e) ∷ [])))
                    (Leaves share id cancelled (Releases deal user_id amount db))
                    ((save_deal (stamped now cancelled deal) >> pure (stamped now cancelled deal))
                      db₁)
                    (λ x db' h. h)
                    (λ d db' left. record {
                      consistent = left.consistent;
                      recorded = left.recorded;
                      status = left.status;
                      effect = (e, db₁, moved, left.effect);
                    })
                    (closed ((deal_release, e) ∷ []) cancelled (stamped now cancelled deal) db₁
                      deal_id deal_share refl
                      (
                        Steps-IsSound evolves.steps c.sound,
                        evolves.whole c.whole,
                        Steps-deals evolves.steps,
                        Released-Recorded e db₁ moved,
                      )))
              | inr refused ↦ rw refused tt
            ]
      where
        close : Deal → Action Deal
        close d = save_deal d >> pure d
