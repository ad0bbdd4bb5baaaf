-- ===== src/Wallet/Credits/Outcome.antt =====
-- How the deposits and the owner's adjustments end.
use gigveyro.Common.Int.{leb_ℤ, ℤ, pos, ◌+ℤ◌, ◌≤ℤ◌, int_laws, ◌-ℤ◌}
use gigveyro.Common.{
  Bool-cases, ap, ℕ, ◌≡◌, refl, ◌⊎◌, false, none, arith, inl, inr, ◌∙◌, if◌then◌else◌,
}
use gigveyro.Models.Wallet.{Decimal, UserWallet}
use gigveyro.Models.Ledger.{deposit_credit, available, LedgerEntry, LedgerEntryType, BalanceBucket}
use gigveyro.Db.{Db, insufficient_balance}
use gigveyro.Wallet.Credits.{to_insurance, deposited, credit_deposit, credit_deposit_for_merchant}
use gigveyro.Wallet.Deals.Settlement.{credited_merchant}
use gigveyro.Wallet.Posting.{IsSound, IsFunded, Ends, PostsUser}
use gigveyro.Wallet.Posting.Rules.{Replays, Ends-weaken}
use gigveyro.Wallet.Posting.Moves.{MovesUser, MovesMerchant, Ends-move_user, Ends-move_merchant}
use mathlib.Core.Path.{subst}
use gigveyro.Wallet.Common.{user_entry}
use gigveyro.Models.Ledger

-- The insurance share of a deposit of zero or more lies between zero and the deposit; it does not
-- lift the reserve above the target; and if anything is left for the available balance, the reserve
-- has reached the target.
pub to_insurance_lem :
    (w : UserWallet) (a : ℤ)
    → pos 0 ≤ℤ a
    → (pos 0 ≤ℤ to_insurance w a)
      × (to_insurance w a ≤ℤ a)
      × ((to_insurance w a ≡ pos 0)
          ⊎ (w.insurance_balance +ℤ to_insurance w a ≤ℤ w.insurance_target))
      × ((to_insurance w a ≡ a) ⊎ (w.insurance_target ≤ℤ w.insurance_balance +ℤ to_insurance w a))
unfolding to_insurance
to_insurance_lem w a pa = grind int_laws

pub deposited-IsFunded :
    (w : UserWallet) (a : ℤ) → pos 1 ≤ℤ a → IsFunded w → IsFunded (deposited w a)
unfolding deposited
deposited-IsFunded w a pa h =
    let (low, high, _, _) = to_insurance_lem w a (omega arith) in grind int_laws

-- The wallet after a deposit of the amount: a wallet whose reserve has reached its target gets it as
-- available balance; a reserve that the amount does not fill gets all of it; and otherwise the
-- reserve is at its target, and what is over is available.
unfoldable pub allocated : ℤ → UserWallet → UserWallet
allocated a w =
    if leb_ℤ w.insurance_target w.insurance_balance
    then record w { available_balance = w.available_balance +ℤ a }
    else if leb_ℤ (w.insurance_balance +ℤ a) w.insurance_target
    then record w { insurance_balance = w.insurance_balance +ℤ a }
    else record w {
      insurance_balance = w.insurance_target;
      available_balance = w.available_balance +ℤ (w.insurance_balance +ℤ a -ℤ w.insurance_target);
    }

with_balances :
    (w : UserWallet) (x x' y y' : ℤ)
    → x ≡ x'
    → y ≡ y'
    → (record w { insurance_balance = x; available_balance = y })
      ≡ (record w { insurance_balance = x'; available_balance = y' })
with_balances w x x' y y' p q =
    ap (λ z. record w { insurance_balance = z; available_balance = y }) p
    ∙ ap (λ z. record w { insurance_balance = x'; available_balance = z }) q

pub deposited-allocated : (w : UserWallet) (a : ℤ) → pos 1 ≤ℤ a → deposited w a ≡ allocated a w
unfolding deposited to_insurance allocated
deposited-allocated w a pa = elim (Bool-cases (leb_ℤ w.insurance_target w.insurance_balance)) [
  | inl full ↦ rw full (
      with_balances w _ w.insurance_balance _ (w.available_balance +ℤ a) (grind int_laws)
        (grind int_laws))
  | inr room ↦ rw room (elim (Bool-cases (leb_ℤ (w.insurance_balance +ℤ a) w.insurance_target)) [
    | inl short ↦ rw short (
        with_balances w _ (w.insurance_balance +ℤ a) _ w.available_balance (grind int_laws)
          (grind int_laws))
    | inr over ↦ rw over (
        with_balances w _ w.insurance_target _
          (w.available_balance +ℤ (w.insurance_balance +ℤ a -ℤ w.insurance_target)) (grind int_laws)
          (grind int_laws))
  ])
]

module _ (account_id : ℕ) (amount : Decimal) (deposit_id : ℕ) (db : Db) (sound : IsSound db) where
  -- From a sound session, credit_deposit raises an expected exception and writes nothing, or returns
  -- the row that is on record and writes nothing, or posts the positive amount: to the insurance
  -- balance up to its target, and the rest, if any, to the available balance.
  pub credit_deposit_lem :
      Ends
        (λ e db'.
          Replays (Ledger.Reference.deposit deposit_id) deposit_credit db e db'
          ⊎ MovesUser account_id deposit_credit available
              (λ a. a)
              (Ledger.Reference.deposit deposit_id)
              none
              amount
              allocated
              db
              e
              db')
        db
        (credit_deposit account_id amount deposit_id db)
  unfolding credit_deposit deposited
  credit_deposit_lem =
      Ends-weaken
        (λ e db'.
          Replays (Ledger.Reference.deposit deposit_id) deposit_credit db e db'
          ⊎ Moved (λ a w. deposited w a) e db')
        (λ e db'.
          Replays (Ledger.Reference.deposit deposit_id) deposit_credit db e db'
          ⊎ Moved allocated e db')
        db (credit_deposit account_id amount deposit_id db) allocates
        (Ends-move_user account_id deposit_credit available (λ a. a)
          (Ledger.Reference.deposit deposit_id) none amount insufficient_balance tt db sound
          (λ a w. false) (λ a w. deposited w a) (λ a w. refl)
          (λ a w pa enough h. deposited-IsFunded w a pa h))
    where
      Moved : (ℤ → UserWallet → UserWallet) → LedgerEntry → Db → Type 0
      Moved move e db' =
          MovesUser account_id deposit_credit available (λ a. a)
            (Ledger.Reference.deposit deposit_id) none amount move db e db'

      allocates :
          (e : LedgerEntry) (db' : Db)
          → Replays (Ledger.Reference.deposit deposit_id) deposit_credit db e db'
            ⊎ Moved (λ a w. deposited w a) e db'
          → Replays (Ledger.Reference.deposit deposit_id) deposit_credit db e db'
            ⊎ Moved allocated e db'
      allocates e db' (inl replay) = inl replay
      allocates e db' (inr (a, w, ea, pa, ew, p, row)) =
          let same = deposited-allocated w a pa in
          inr (
            a,
            w,
            ea,
            pa,
            ew,
            subst (λ w'. PostsUser w w' e db db') same p,
            subst
                (λ w'.
                  e
                  ≡ user_entry deposit_credit available a (Ledger.Reference.deposit deposit_id) none
                      w w')
                same row,
          )

  -- From a sound session, credit_deposit_for_merchant raises an expected exception and writes
  -- nothing, or returns the row that is on record and writes nothing, or posts the positive amount
  -- to the available balance of the merchant's wallet.
  pub credit_deposit_for_merchant_lem :
      Ends
        (λ e db'.
          Replays (Ledger.Reference.deposit deposit_id) deposit_credit db e db'
          ⊎ MovesMerchant account_id deposit_credit available
              (λ a. a)
              (Ledger.Reference.deposit deposit_id)
              none
              amount
              (λ a w. credited_merchant w a)
              db
              e
              db')
        db
        (credit_deposit_for_merchant account_id amount deposit_id db)
  unfolding credit_deposit_for_merchant
  credit_deposit_for_merchant_lem =
      Ends-move_merchant account_id deposit_credit available (λ a. a)
        (Ledger.Reference.deposit deposit_id) none amount insufficient_balance tt db sound
        (λ a w. false) (λ a w. credited_merchant w a) (λ a w. refl)
        (λ a w pa enough h. grind int_laws)
