-- ===== src/Appeal/Cancellation.antt =====
-- An appeal that its opener cancels: the deal is back as it was before the appeal.
use gigveyro.Common.{
  ℕ, ◌≡◌, refl, ap, ◌∙◌, true, Option, some, ◌∷◌, is_some, Bool-cases, inl, inr, arith,
}
use gigveyro.Common.Table.{put, find-key, find-first, find-put_self, put-put, put-first}
use gigveyro.Models.Account.{Account}
use gigveyro.Models.Withdrawal.{Text}
use gigveyro.Models.Deal.{Deal, disputed, deal_key, is_admissible_deal}
use gigveyro.Models.Appeal.{DealAppeal, AppealReason, opened, appeal_key}
use gigveyro.Db.{Db, Action, pure, ok, ◌>>=◌, ◌>>◌, raise_if, deal_not_found, appeal_not_allowed}
use gigveyro.Db.AppealQueries.{find_appeal, create_appeal, get_active_by_deal_id, save_appeal}
use gigveyro.Db.DealQueries.{find_deal, lock_deal, save_deal}
use gigveyro.Deal.{is_allowed, stamped, transition_deal}
use gigveyro.Deal.Lifecycle.{
  in_progress-restorable, stamped-id, stamped-is_admissible, stamped-stamped,
}
use gigveyro.Deal.Profit.{Any}
use gigveyro.Deal.Service.{is_in_progress}
use gigveyro.Risk.Passing.{Looks-or_raise, EndsBy-Looks}
use gigveyro.Wallet.Posting.{EndsBy}
use gigveyro.Wallet.Posting.Rules.{EndsBy-bind, EndsBy-weaken}
use gigveyro.Appeal.Opening.{create_appeal-Inserts, Looks-scalar, Looks-check_participant}
use gigveyro.Appeal.{
  is_allowed_appeal, transition_appeal, check_participant, new_appeal, insert_and_dispute,
  open_checked, open_appeal, restore_deal, cancel_appeal,
}
use gigveyro.Models.Appeal

-- A cancellation by the opener, with the deal in dispute.
cancel_appeal-returns :
    (now : ℕ) (account : Account) (db : Db) (a : DealAppeal) (d : Deal)
    → find_appeal a.id db ≡ some a
    → a.opened_by_account_id ≡ account.id
    → a.status ≡ opened
    → find_deal a.deal_id db ≡ some d
    → d.status ≡ disputed
    → is_allowed disputed a.previous_deal_status ≡ true
    → is_admissible_deal (stamped now a.previous_deal_status d) ≡ true
    → cancel_appeal now account a.id db ≡ (
      ok (record a { status = Appeal.AppealStatus.cancelled }),
      record db {
        deals = put deal_key (stamped now a.previous_deal_status d) db.deals;
        appeals = put appeal_key (record a { status = Appeal.AppealStatus.cancelled }) db.appeals;
      },
    )
unfolding cancel_appeal transition_appeal is_allowed_appeal restore_deal transition_deal save_deal
    save_appeal
cancel_appeal-returns now account db a d found opener status recorded in_dispute allowed
      admissible =
    ground (arith, found, opener, status, recorded, in_dispute, allowed, admissible)

module _ (now now' : ℕ) (account : Account) (db : Db) where
  -- The opener cancels `a` at `now'`, after it was opened about `deal` in the session `db`.
  pub Cancels : Deal → DealAppeal → Db → Type 0
  Cancels deal a db' = cancel_appeal now' account a.id db' ≡ (
    ok (record a { status = Appeal.AppealStatus.cancelled }),
    record db {
      deals = put deal_key (stamped now' deal.status deal) db.deals;
      appeals = record a { status = Appeal.AppealStatus.cancelled } ∷ db.appeals;
    },
  )

  -- The opener of `a` can cancel it, about the deal with this identifier in the session `db`.
  pub IsReversible : ℕ → DealAppeal → Db → Type 0
  IsReversible deal_id a db' =
      (deal : Deal) × (find_deal deal_id db ≡ some deal) × Cancels deal a db'

  module _ (deal : Deal) (found : find_deal deal.id db ≡ some deal)
      (progress : is_in_progress deal.status ≡ true) (a : DealAppeal) (same : a.deal_id ≡ deal.id)
      (opener : a.opened_by_account_id ≡ account.id) (new : a.status ≡ opened)
      (previous : a.previous_deal_status ≡ deal.status) where
    abbrev in_dispute : Deal
    in_dispute = stamped now disputed deal

    abbrev dispute_db : Db
    dispute_db = record db { deals = put deal_key in_dispute db.deals; appeals = a ∷ db.appeals }

    deals-restored :
        put deal_key
          (stamped now' a.previous_deal_status in_dispute)
          (put deal_key in_dispute db.deals)
        ≡ put deal_key (stamped now' deal.status deal) db.deals
    deals-restored =
        put-put deal_key in_dispute (stamped now' a.previous_deal_status in_dispute) db.deals
          (stamped-id now' a.previous_deal_status in_dispute)
        ∙ ap (λ d. put deal_key d db.deals)
            (ap (λ s. stamped now' s in_dispute) previous
              ∙ stamped-stamped now now' deal.status deal)

    dispute-Cancels : is_admissible_deal in_dispute ≡ true → Cancels deal a dispute_db
    unfolding Cancels stamped
    dispute-Cancels admissible =
        cancel_appeal-returns now' account dispute_db a in_dispute
          (find-first appeal_key a.id a db.appeals refl) opener new
          (ap (λ k. find_deal k dispute_db) same
            ∙ find-put_self deal_key in_dispute db.deals deal found)
          refl
          (ap (λ s. is_allowed disputed s) previous
            ∙ (in_progress-restorable deal.status progress).1)
          (stamped-is_admissible now' a.previous_deal_status in_dispute ∙ admissible)
        ∙ ap
            (λ rows. (
              ok (record a { status = Appeal.AppealStatus.cancelled }),
              record db {
                deals = rows;
                appeals =
                    put appeal_key (record a { status = Appeal.AppealStatus.cancelled })
                      (a ∷ db.appeals);
              },
            ))
            deals-restored
        ∙ ap
            (λ rows. (
              ok (record a { status = Appeal.AppealStatus.cancelled }),
              record db {
                deals = put deal_key (stamped now' deal.status deal) db.deals;
                appeals = rows;
              },
            ))
            (put-first appeal_key (record a { status = Appeal.AppealStatus.cancelled }) a db.appeals
              refl)

    insert_and_dispute-Cancels : EndsBy Any (Cancels deal) (insert_and_dispute now deal a db)
    unfolding insert_and_dispute transition_deal save_deal
    insert_and_dispute-Cancels =
        EndsBy-bind Any (λ a' db'. (a' ≡ a) × (db' ≡ record db { appeals = a ∷ db.appeals }))
          (Cancels deal) dispute (create_appeal a) db (create_appeal-Inserts a db)
          λ a' db' (inserted, same_db).
            rw (inserted, same_db)
              (rw (in_progress-restorable deal.status progress).0
                (elim (Bool-cases (is_admissible_deal in_dispute)) [
                  | inl admissible ↦ rw admissible (dispute-Cancels admissible)
                  | inr refused ↦ rw refused tt
                ]))
      where
        dispute : DealAppeal → Action DealAppeal
        dispute appeal = do d ← transition_deal now deal disputed; save_deal d; pure appeal

  open_checked-Cancels :
      (id public_id : ℕ) (deal : Deal) (reason_code : AppealReason) (message : Text)
      → find_deal deal.id db ≡ some deal
      → EndsBy Any
          (Cancels deal)
          (open_checked now deal (new_appeal id public_id account deal reason_code message) db)
  unfolding open_checked get_active_by_deal_id
  open_checked-Cancels id public_id deal reason_code message found =
      elim (Bool-cases (is_in_progress deal.status)) [
        | inl progress ↦ rw progress (
            EndsBy-Looks (Cancels deal) db (λ _. Unit {0}) searched (get_active_by_deal_id deal.id)
              (Looks-scalar db _)
              λ active t. elim (Bool-cases (is_some active)) [
                | inl other ↦ rw other tt
                | inr none_active ↦ rw none_active (
                    insert_and_dispute-Cancels deal found progress
                      (new_appeal id public_id account deal reason_code message) refl refl refl
                      refl)
              ])
        | inr refused ↦ rw refused tt
      ]
    where
      searched : Option DealAppeal → Action DealAppeal
      searched active =
          raise_if (is_some active) appeal_not_allowed
          >> insert_and_dispute now deal (new_appeal id public_id account deal reason_code message)

  -- An appeal that open_appeal returns can be cancelled by its opener in the session that is left,
  -- at any time `now'`: cancel_appeal returns it CANCELLED, and the deal takes the status that it had
  -- before, with accepted_at at `now'` if this is ACCEPTED. Beside this row and the row of the appeal,
  -- the session is as it was before the appeal.
  pub open_appeal-cancel_appeal :
      (id public_id deal_id : ℕ) (reason_code : AppealReason) (message : Text)
      → EndsBy Any
          (IsReversible deal_id)
          (open_appeal now id public_id account deal_id reason_code message db)
  unfolding open_appeal IsReversible
  open_appeal-cancel_appeal id public_id deal_id reason_code message =
      EndsBy-Looks (IsReversible deal_id) db (λ deal. find_deal deal_id db ≡ some deal) checked
        (lock_deal deal_id) (Looks-or_raise db (find_deal deal_id db) deal_not_found)
        λ deal found.
          let same : deal.id ≡ deal_id = find-key deal_key deal_id db.deals deal found in
          EndsBy-Looks (IsReversible deal_id) db (λ _. Unit {0})
            (λ _. open_checked now deal (new_appeal id public_id account deal reason_code message))
            (check_participant account.role account deal)
            (Looks-check_participant db account.role account deal)
            λ _ t.
              EndsBy-weaken Any Any (Cancels deal) (IsReversible deal_id)
                (open_checked now deal (new_appeal id public_id account deal reason_code message)
                  db)
                (λ e db' x. x) (λ a db' h. (deal, found, h))
                (open_checked-Cancels id public_id deal reason_code message
                  (ap (λ k. find_deal k db) same ∙ found))
    where
      checked : Deal → Action DealAppeal
      checked deal = do
        check_participant account.role account deal
        open_checked now deal (new_appeal id public_id account deal reason_code message)
