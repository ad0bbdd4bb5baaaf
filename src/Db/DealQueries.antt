-- ===== src/Db/DealQueries.antt =====
-- GIGVEYRO_Backend/app/repositories/deal.py and fees.py: the queries and flushes of a deal's
-- transitions and of its settlement, with the checks and unique constraints of app/models.
use gigveyro.Common.{Bool, not, ◌||◌, Option, List, [], ◌∷◌, ℕ}
use gigveyro.Common.Table.{find, put}
use gigveyro.Models.Deal.{Deal, deal_key, is_admissible_deal}
use gigveyro.Models.Fees.{
  FeePolicy, FeeSource, FeeSnapshot, OwnerProfitEntry, eqb_source, is_active_status,
  is_admissible_snapshot, is_admissible_profit,
}
use gigveyro.Db.{
  Db, Action, pure, raise, or_raise, ◌>>◌, raise_if, modify, integrity, multiple_results, no_result,
  deal_not_found,
}
use gigveyro.Db.Queries.{select, scalar}

abbrev pub find_deal : ℕ → Db → Option Deal
find_deal id db = find deal_key id db.deals

-- `get_by_id_for_update`, and the test for None
abbrev pub lock_deal : ℕ → Action Deal
lock_deal id db = or_raise (find_deal id db) deal_not_found db

-- `DealRepository.save`
unfoldable pub save_deal : Deal → Action (Unit {0})
save_deal d = do
  raise_if (not (is_admissible_deal d)) integrity
  modify (λ db. record db { deals = put deal_key d db.deals })

-- `scalar_one`
unfoldable pub scalar_one : {A : Type 0} → List A → Action A
scalar_one [] = raise no_result
scalar_one (x ∷ []) = pure x
scalar_one (x ∷ y ∷ _) = raise multiple_results

unfoldable pub active_policy : Action FeePolicy
active_policy db = scalar_one (select (λ p. is_active_status p.status) db.fee_policies) db

unfoldable pub get_profit_by_source : FeeSource → Action (Option OwnerProfitEntry)
get_profit_by_source source db =
    scalar (select (λ e. eqb_source e.source source) db.owner_profits) db

abbrev pub is_empty : {A : Type 0} → List A → Bool
is_empty [] = Bool.true
is_empty (x ∷ xs) = Bool.false

unfoldable pub create_snapshot : FeeSnapshot → Action FeeSnapshot
create_snapshot s db =
    (do
      raise_if
          (not (is_admissible_snapshot s)
            || not (is_empty (select (λ r. eqb_source r.source s.source) db.fee_snapshots)))
          integrity
      modify (λ d. record d { fee_snapshots = s ∷ d.fee_snapshots })
      pure s)
      db

unfoldable pub create_profit : OwnerProfitEntry → Action OwnerProfitEntry
create_profit e db =
    (do
      raise_if
          (not (is_admissible_profit e)
            || not (is_empty (select (λ r. eqb_source r.source e.source) db.owner_profits)))
          integrity
      modify (λ d. record d { owner_profits = e ∷ d.owner_profits })
      pure e)
      db
