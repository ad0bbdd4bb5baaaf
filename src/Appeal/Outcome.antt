-- ===== src/Appeal/Outcome.antt =====
-- How the resolution and the opening of an appeal end.
use gigveyro.Common.{ℕ, ◌≡◌, ◌⊎◌, some}
use gigveyro.Common.Int.{ℤ}
use gigveyro.Models.Withdrawal.{Text}
use gigveyro.Models.Deal
use gigveyro.Models.Deal.{Deal, DealStatus, completed, disputed}
use gigveyro.Models.Appeal.{
  DealAppeal, AppealResolution, settle_to_merchant, release_to_user, resolved,
}
use gigveyro.Db.{Db}
use gigveyro.Db.DealQueries.{find_deal}
use gigveyro.Deal.Payment.{Leaves, Pays, Releases}
use gigveyro.Deal.Session.{IsConsistent}

-- The status that a resolution gives the deal.
abbrev pub outcome_of : AppealResolution → DealStatus
outcome_of settle_to_merchant = completed
outcome_of release_to_user = Deal.DealStatus.cancelled

-- What the resolution does for the deal's user and amount.
abbrev pub Follows : AppealResolution → ℕ → Deal → ℕ → ℤ → Db → Db → Type 0
Follows settle_to_merchant owner_id deal user_id amount db db' =
    Pays deal user_id amount (some owner_id) db db'
Follows release_to_user owner_id deal user_id amount db db' = Releases deal user_id amount db db'

-- The deal `id` of `db` has a user and an amount, and the resolution is carried out for them.
abbrev pub Carries : AppealResolution → ℕ → ℕ → Db → Db → Type 0
Carries resolution owner_id id db db' =
    (deal : Deal) × (user_id : ℕ) × (amount : ℤ) × (find_deal id db ≡ some deal)
    × (deal.user_id ≡ some user_id)
    × (deal.amount_usdt ≡ some amount)
    × Follows resolution owner_id deal user_id amount db db'

module _ (share : ℕ → ℤ) (now owner_id : ℕ) (resolution : AppealResolution) (owner_note : Text)
    (db : Db) (c : IsConsistent share db) where
  -- The appeal `a` becomes `a'`: it was RESOLVED, and nothing is written; or it is resolved so, and
  -- the deal is on record with the status of this resolution. The session is consistent.
  pub record Resolves (a a' : DealAppeal) (db' : Db) : Type 0 where
    pub consistent : IsConsistent share db'
    pub status : a'.status ≡ resolved
    pub effect :
        ((a' ≡ a) × (db' ≡ db))
        ⊎ ((d : Deal) × (find_deal a.deal_id db' ≡ some d)
            × (d.status ≡ outcome_of resolution)
            × (a'.resolution ≡ some resolution)
            × (a'.deal_id ≡ a.deal_id)
            × Carries resolution owner_id a.deal_id db db')

  -- The deal of the appeal after the resolution.
  abbrev Carried : DealAppeal → Deal → Db → Type 0
  Carried a =
      Leaves share a.deal_id (outcome_of resolution) (Carries resolution owner_id a.deal_id db)
