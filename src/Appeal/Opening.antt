-- ===== src/Appeal/Opening.antt =====
-- How the statements of open_appeal end.
use gigveyro.Common.{◌≡◌, refl, Bool, true, false, not, List, [], ◌∷◌, ◌==◌}
use gigveyro.Models.Account.{Account, UserRole}
use gigveyro.Models.Deal.{Deal}
use gigveyro.Models.Appeal.{DealAppeal}
use gigveyro.Db.{Db, Error, pure, ◌>>◌, raise_if, modify, deal_not_found, pending_rollback}
use gigveyro.Db.AppealQueries.{create_appeal}
use gigveyro.Db.Queries.{scalar}
use gigveyro.Deal.Profit.{Any}
use gigveyro.Risk.Passing.{Looks}
use gigveyro.Wallet.Posting.{EndsBy}
use gigveyro.Appeal.{check_participant, is_user}

-- create inserts the row, or raises.
pub create_appeal-Inserts :
    (a : DealAppeal) (db : Db)
    → EndsBy Any
        (λ a' db'. (a' ≡ a) × (db' ≡ record db { appeals = a ∷ db.appeals }))
        (create_appeal a db)
unfolding create_appeal
create_appeal-Inserts a db = go _
  where
    go :
        (b : Bool)
        → EndsBy Any
            (λ a' db'. (a' ≡ a) × (db' ≡ record db { appeals = a ∷ db.appeals }))
            ((do
              raise_if b pending_rollback
              modify (λ d. record d { appeals = a ∷ d.appeals })
              pure a)
              db)
    go true = tt
    go false = (refl, refl)

Looks-guard : (db : Db) (b : Bool) (e : Error) → Looks (λ _. Unit {0}) db (raise_if b e db)
Looks-guard db true e = refl
Looks-guard db false e = (refl, tt)

pub Looks-scalar : {A : Type 0} (db : Db) (l : List A) → Looks (λ _. Unit {0}) db (scalar l db)
unfolding scalar
Looks-scalar db [] = (refl, tt)
Looks-scalar db (x ∷ []) = (refl, tt)
Looks-scalar db (x ∷ y ∷ l) = refl

pub Looks-check_participant :
    (db : Db) (role : UserRole) (account : Account) (deal : Deal)
    → Looks (λ _. Unit {0}) db (check_participant role account deal db)
Looks-check_participant db UserRole.owner account deal = refl
Looks-check_participant db UserRole.user account deal =
    Looks-guard db (not (is_user deal.user_id account.id)) deal_not_found
Looks-check_participant db UserRole.merchant account deal =
    Looks-guard db (not (deal.merchant_id == account.id)) deal_not_found
Looks-check_participant db UserRole.team_lead account deal = refl
