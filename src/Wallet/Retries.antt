-- ===== src/Wallet/Retries.antt =====
-- Retries: a movement that has been posted under a reference is posted once, whatever account and
-- amount a second call under that reference names.
use mathlib.Core.Path.{subst}
use gigveyro.Common.{
  ℕ, ◌≡◌, sym, ap, ◌∙◌, ◌⊎◌, inl, inr, Option, some, none, List, [], ◌∷◌, arith, true,
}
use gigveyro.Common.Int.{ℤ, pos, neg, ◌≤ℤ◌}
use gigveyro.Models.Wallet.{Decimal, finite, UserWallet, MerchantWallet}
use gigveyro.Models.Ledger.{
  LedgerEntry, LedgerEntryType, BalanceBucket, Reference, eqb_reference, type_code, deal_freeze,
  deal_release, team_lead_profit, withdrawal_hold, withdrawal_paid, deposit_credit, available,
  frozen, held,
}
use gigveyro.Db.{Db, Action, Result, ok, ◌>>=◌}
use gigveyro.Db.Queries.{has_reference, select, get_by_reference, scalar}
use gigveyro.Wallet.Common.{positive, once, user_entry, user_row, merchant_entry}
use gigveyro.Wallet.Credits.{credit_deposit, credit_deposit_for_merchant}
use gigveyro.Wallet.Credits.Outcome.{credit_deposit_lem, credit_deposit_for_merchant_lem, allocated}
use gigveyro.Wallet.Deals.{
  freeze_for_deal, release_for_deal, credit_team_lead_profit, credited, deducted,
}
use gigveyro.Wallet.Deals.Outcome.{
  freeze, unfreeze, freeze_for_deal_lem, release_for_deal_lem, credit_team_lead_profit_lem,
}
use gigveyro.Wallet.Deals.Settlement.{credited_merchant}
use gigveyro.Wallet.Posting.{IsSound, Ends}
use gigveyro.Wallet.Posting.Effects.{PostsUser-ledger, PostsMerchant-ledger}
use gigveyro.Wallet.Posting.Moves.{MovesUser, MovesMerchant}
use gigveyro.Wallet.Posting.Rules.{Replays}
use gigveyro.Wallet.Withdrawals.{hold_for_withdrawal, pay_withdrawal, pay_for_user_withdrawal}
use gigveyro.Wallet.Withdrawals.Outcome.{
  hold, pay_out, hold_for_withdrawal_lem, pay_withdrawal_lem, pay_for_user_withdrawal_lem,
}
use gigveyro.Models.Ledger

-- The row is the only one under the reference and the type.
abbrev IsOnRecord : Reference → LedgerEntryType → LedgerEntry → Db → Type 0
IsOnRecord ref t e db = select (has_reference ref t) db.ledger ≡ e ∷ []

eqb_reference_refl : (r : Reference) → eqb_reference r r ≡ true
eqb_reference_refl r = ground arith

select-first :
    (ref : Reference) (t : LedgerEntryType) (e : LedgerEntry) (ledger : List LedgerEntry)
    → e.reference ≡ some ref
    → e.type ≡ t
    → select (has_reference ref t) ledger ≡ []
    → select (has_reference ref t) (e ∷ ledger) ≡ e ∷ []
unfolding select has_reference
select-first ref t e ledger er et new = ground (arith, eqb_reference_refl ref)

module _ (ref : Reference) (t : LedgerEntryType) (db : Db) where
  -- The body of a method returns the row on record.
  returns_recorded :
      (e : LedgerEntry) (a : ℤ) (body : ℤ → Action LedgerEntry)
      → IsOnRecord ref t e db
      → pos 1 ≤ℤ a
      → (positive (finite a) >>= λ x. once ref t (body x)) db ≡ (ok e, db)
  unfolding get_by_reference scalar
  returns_recorded e a body recorded pa = ground (arith, recorded)

module _ (id : ℕ) (t : LedgerEntryType) (bucket : BalanceBucket) (written : ℤ → ℤ) (ref : Reference)
    (creator : Option ℕ) (amount : Decimal) (db db' : Db) (e : LedgerEntry) where
  recorded-MovesUser :
      (move : ℤ → UserWallet → UserWallet)
      → Replays ref t db e db' ⊎ MovesUser id t bucket written ref creator amount move db e db'
      → IsOnRecord ref t e db'
  unfolding user_entry user_row
  recorded-MovesUser move (inl (same, old)) = subst (IsOnRecord ref t e) (sym same) old
  recorded-MovesUser move (inr (a, w, ea, pa, ew, p, row)) =
      let er : e.reference ≡ some ref = ap (λ (x : LedgerEntry). x.reference) row in
      let et : e.type ≡ t = ap (λ (x : LedgerEntry). x.type) row in
      ap (select (has_reference ref t)) (PostsUser-ledger p)
      ∙ select-first ref t e db.ledger er et
          (subst (λ u. select (has_reference ref u) db.ledger ≡ []) et (p.fresh.reference ref er))

  recorded-MovesMerchant :
      (move : ℤ → MerchantWallet → MerchantWallet)
      → Replays ref t db e db' ⊎ MovesMerchant id t bucket written ref creator amount move db e db'
      → IsOnRecord ref t e db'
  unfolding merchant_entry
  recorded-MovesMerchant move (inl (same, old)) = subst (IsOnRecord ref t e) (sym same) old
  recorded-MovesMerchant move (inr (a, w, ea, pa, ew, p, row)) =
      let er : e.reference ≡ some ref = ap (λ (x : LedgerEntry). x.reference) row in
      let et : e.type ≡ t = ap (λ (x : LedgerEntry). x.type) row in
      ap (select (has_reference ref t)) (PostsMerchant-ledger p)
      ∙ select-first ref t e db.ledger er et
          (subst (λ u. select (has_reference ref u) db.ledger ≡ []) et (p.fresh.reference ref er))

-- The first call has returned this row.
returned :
    (Q : LedgerEntry → Db → Type 0) (db db' : Db) (e : LedgerEntry) (x : Result LedgerEntry × Db)
    → Ends Q db x
    → x ≡ (ok e, db')
    → Q e db'
returned Q db db' e x h same = subst (Ends Q db) same h

module _ (id id' : ℕ) (amount : Decimal) (a : ℤ) (pa : pos 1 ≤ℤ a) (key : ℕ) (db db' : Db)
    (sound : IsSound db) (e : LedgerEntry) where
  -- Once freeze_for_deal has returned a row for a deal from a sound session, a
  -- second call for it, with any account and any positive amount, returns that row and writes
  -- nothing.
  pub freeze_for_deal-retry :
      freeze_for_deal id amount key db ≡ (ok e, db')
      → freeze_for_deal id' (finite a) key db' ≡ (ok e, db')
  unfolding freeze_for_deal
  freeze_for_deal-retry h =
      returns_recorded (Ledger.Reference.deal key) deal_freeze db' e a _
        (recorded-MovesUser id deal_freeze frozen (λ a. a) (Ledger.Reference.deal key) (some id)
          amount db db' e freeze
          (returned
            (λ e db'.
              Replays (Ledger.Reference.deal key) deal_freeze db e db'
              ⊎ MovesUser id deal_freeze frozen (λ a. a) (Ledger.Reference.deal key) (some id)
                  amount freeze db e db')
            db db' e _ (freeze_for_deal_lem id amount key db sound) h))
        pa

  -- Once release_for_deal has returned a row for a deal from a sound session, a
  -- second call for it, with any account and any positive amount, returns that row and writes
  -- nothing.
  pub release_for_deal-retry :
      release_for_deal id amount key db ≡ (ok e, db')
      → release_for_deal id' (finite a) key db' ≡ (ok e, db')
  unfolding release_for_deal
  release_for_deal-retry h =
      returns_recorded (Ledger.Reference.deal key) deal_release db' e a _
        (recorded-MovesUser id deal_release available (λ a. a) (Ledger.Reference.deal key) (some id)
          amount db db' e unfreeze
          (returned
            (λ e db'.
              Replays (Ledger.Reference.deal key) deal_release db e db'
              ⊎ MovesUser id deal_release available (λ a. a) (Ledger.Reference.deal key) (some id)
                  amount unfreeze db e db')
            db db' e _ (release_for_deal_lem id amount key db sound) h))
        pa

  -- Once credit_team_lead_profit has returned a row for a deal from a sound session, a
  -- second call for it, with any account and any positive amount, returns that row and writes
  -- nothing.
  pub credit_team_lead_profit-retry :
      (by by' : Option ℕ)
      → credit_team_lead_profit id amount key by db ≡ (ok e, db')
      → credit_team_lead_profit id' (finite a) key by' db' ≡ (ok e, db')
  unfolding credit_team_lead_profit
  credit_team_lead_profit-retry by by' h =
      returns_recorded (Ledger.Reference.deal key) team_lead_profit db' e a _
        (recorded-MovesUser id team_lead_profit available (λ a. a) (Ledger.Reference.deal key) by
          amount db db' e (λ x w. credited w x)
          (returned
            (λ e db'.
              Replays (Ledger.Reference.deal key) team_lead_profit db e db'
              ⊎ MovesUser id team_lead_profit available (λ a. a) (Ledger.Reference.deal key) by
                  amount (λ x w. credited w x) db e db')
            db db' e _ (credit_team_lead_profit_lem id amount key db sound by) h))
        pa

  -- Once hold_for_withdrawal has returned a row for a withdrawal from a sound session, a
  -- second call for it, with any account and any positive amount, returns that row and writes
  -- nothing.
  pub hold_for_withdrawal-retry :
      hold_for_withdrawal id amount key db ≡ (ok e, db')
      → hold_for_withdrawal id' (finite a) key db' ≡ (ok e, db')
  unfolding hold_for_withdrawal
  hold_for_withdrawal-retry h =
      returns_recorded (Ledger.Reference.withdrawal key) withdrawal_hold db' e a _
        (recorded-MovesMerchant id withdrawal_hold held (λ a. a) (Ledger.Reference.withdrawal key)
          (some id) amount db db' e hold
          (returned
            (λ e db'.
              Replays (Ledger.Reference.withdrawal key) withdrawal_hold db e db'
              ⊎ MovesMerchant id withdrawal_hold held (λ a. a) (Ledger.Reference.withdrawal key)
                  (some id) amount hold db e db')
            db db' e _ (hold_for_withdrawal_lem id amount key db sound) h))
        pa

  -- Once pay_withdrawal has returned a row for a withdrawal from a sound session, a
  -- second call for it, with any account and any positive amount, returns that row and writes
  -- nothing.
  pub pay_withdrawal-retry :
      (by by' : ℕ)
      → pay_withdrawal id amount key by db ≡ (ok e, db')
      → pay_withdrawal id' (finite a) key by' db' ≡ (ok e, db')
  unfolding pay_withdrawal
  pay_withdrawal-retry by by' h =
      returns_recorded (Ledger.Reference.withdrawal key) withdrawal_paid db' e a _
        (recorded-MovesMerchant id withdrawal_paid held neg (Ledger.Reference.withdrawal key)
          (some by) amount db db' e pay_out
          (returned
            (λ e db'.
              Replays (Ledger.Reference.withdrawal key) withdrawal_paid db e db'
              ⊎ MovesMerchant id withdrawal_paid held neg (Ledger.Reference.withdrawal key)
                  (some by) amount pay_out db e db')
            db db' e _ (pay_withdrawal_lem id amount key db sound by) h))
        pa

  -- Once pay_for_user_withdrawal has returned a row for a withdrawal from a sound session, a
  -- second call for it, with any account and any positive amount, returns that row and writes
  -- nothing.
  pub pay_for_user_withdrawal-retry :
      (by by' : ℕ)
      → pay_for_user_withdrawal id amount key by db ≡ (ok e, db')
      → pay_for_user_withdrawal id' (finite a) key by' db' ≡ (ok e, db')
  unfolding pay_for_user_withdrawal
  pay_for_user_withdrawal-retry by by' h =
      returns_recorded (Ledger.Reference.withdrawal key) withdrawal_paid db' e a _
        (recorded-MovesUser id withdrawal_paid frozen neg (Ledger.Reference.withdrawal key)
          (some by) amount db db' e (λ x w. deducted w x)
          (returned
            (λ e db'.
              Replays (Ledger.Reference.withdrawal key) withdrawal_paid db e db'
              ⊎ MovesUser id withdrawal_paid frozen neg (Ledger.Reference.withdrawal key) (some by)
                  amount (λ x w. deducted w x) db e db')
            db db' e _ (pay_for_user_withdrawal_lem id amount key db sound by) h))
        pa

  -- Once credit_deposit has returned a row for a deposit from a sound session, a
  -- second call for it, with any account and any positive amount, returns that row and writes
  -- nothing.
  pub credit_deposit-retry :
      credit_deposit id amount key db ≡ (ok e, db')
      → credit_deposit id' (finite a) key db' ≡ (ok e, db')
  unfolding credit_deposit
  credit_deposit-retry h =
      returns_recorded (Ledger.Reference.deposit key) deposit_credit db' e a _
        (recorded-MovesUser id deposit_credit available (λ a. a) (Ledger.Reference.deposit key) none
          amount db db' e allocated
          (returned
            (λ e db'.
              Replays (Ledger.Reference.deposit key) deposit_credit db e db'
              ⊎ MovesUser id deposit_credit available (λ a. a) (Ledger.Reference.deposit key) none
                  amount allocated db e db')
            db db' e _ (credit_deposit_lem id amount key db sound) h))
        pa

  -- Once credit_deposit_for_merchant has returned a row for a deposit from a sound session, a
  -- second call for it, with any account and any positive amount, returns that row and writes
  -- nothing.
  pub credit_deposit_for_merchant-retry :
      credit_deposit_for_merchant id amount key db ≡ (ok e, db')
      → credit_deposit_for_merchant id' (finite a) key db' ≡ (ok e, db')
  unfolding credit_deposit_for_merchant
  credit_deposit_for_merchant-retry h =
      returns_recorded (Ledger.Reference.deposit key) deposit_credit db' e a _
        (recorded-MovesMerchant id deposit_credit available (λ a. a) (Ledger.Reference.deposit key)
          none amount db db' e (λ x w. credited_merchant w x)
          (returned
            (λ e db'.
              Replays (Ledger.Reference.deposit key) deposit_credit db e db'
              ⊎ MovesMerchant id deposit_credit available (λ a. a) (Ledger.Reference.deposit key)
                  none amount (λ x w. credited_merchant w x) db e db')
            db db' e _ (credit_deposit_for_merchant_lem id amount key db sound) h))
        pa
