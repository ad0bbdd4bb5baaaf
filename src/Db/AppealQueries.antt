-- ===== src/Db/AppealQueries.antt =====
-- GIGVEYRO_Backend/app/repositories/appeal.py: the queries and flushes of an appeal's transitions.
use gigveyro.Common.{ℕ, not, ◌&&◌, ◌||◌, ◌==◌, Option, ◌∷◌}
use gigveyro.Common.Table.{find, put}
use gigveyro.Models.Appeal.{DealAppeal, appeal_key, is_active_appeal}
use gigveyro.Db.{
  Db, Action, pure, or_raise, ◌>>◌, raise_if, modify, pending_rollback, appeal_not_found,
}
use gigveyro.Db.Queries.{select, scalar}
use gigveyro.Db.DealQueries.{is_empty}

abbrev pub find_appeal : ℕ → Db → Option DealAppeal
find_appeal id db = find appeal_key id db.appeals

-- `get_by_id_for_update`, and the test for None
abbrev pub lock_appeal : ℕ → Action DealAppeal
lock_appeal id db = or_raise (find_appeal id db) appeal_not_found db

unfoldable pub get_active_by_deal_id : ℕ → Action (Option DealAppeal)
get_active_by_deal_id deal_id db =
    scalar (select (λ a. (a.deal_id == deal_id) && is_active_appeal a.status) db.appeals) db

-- `create` in the loop of three attempts, with the unique columns and the partial unique index
-- `uq_deal_appeals_active_deal`: after an IntegrityError, the flush of the second attempt raises
-- PendingRollbackError, which the loop does not catch.
unfoldable pub create_appeal : DealAppeal → Action DealAppeal
create_appeal a db =
    (do
      raise_if
          (not (
            is_empty (
              select
                (λ r.
                  (r.id == a.id)
                  || (r.public_id == a.public_id)
                  || ((r.deal_id == a.deal_id)
                      && is_active_appeal r.status
                      && is_active_appeal a.status))
                db.appeals)))
          pending_rollback
      modify (λ d. record d { appeals = a ∷ d.appeals })
      pure a)
      db

-- `AppealRepository.save`
unfoldable pub save_appeal : DealAppeal → Action DealAppeal
save_appeal a = modify (λ db. record db { appeals = put appeal_key a db.appeals }) >> pure a
