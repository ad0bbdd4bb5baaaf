-- ===== src/Withdrawal/Calls/Movements.antt =====
-- What the services ask of the methods of WalletService that move a reserved amount, and that the
-- release and the payment of a reservation are such.
use mathlib.Core.Path.{subst}
use gigveyro.Common.{ℕ, ◌≡◌, refl, sym, ap, ◌∙◌, some, ◌⊎◌, arith}
use gigveyro.Common.Int.{ℤ, neg}
use gigveyro.Models.Wallet.{Decimal, UserWallet, MerchantWallet}
use gigveyro.Models.Ledger
use gigveyro.Models.Ledger.{
  LedgerEntry, LedgerEntryType, BalanceBucket, withdrawal_release, withdrawal_paid, available,
  frozen,
}
use gigveyro.Db.{Db}
use gigveyro.Wallet.Common.{user_entry, user_row, merchant_entry}
use gigveyro.Wallet.Deals.{deducted}
use gigveyro.Wallet.Deals.Outcome.{unfreeze}
use gigveyro.Wallet.Posting.{IsSound, Ends}
use gigveyro.Wallet.Posting.Rules.{Replays}
use gigveyro.Wallet.Posting.Effects.{PostsUser-ledger, PostsMerchant-ledger}
use gigveyro.Wallet.Posting.Moves.{MovesUser, MovesMerchant}
use gigveyro.Wallet.Calls.Evolution.{
  Step, Steps, here, next, post_user, post_merchant, set_target, Evolves, IsOther,
  PostsUser-Evolves, PostsMerchant-Evolves,
}
use gigveyro.Wallet.Withdrawals.{
  release_for_withdrawal, release_for_user_withdrawal, pay_for_user_withdrawal,
}
use gigveyro.Wallet.Withdrawals.Outcome.{
  unhold, release_for_withdrawal_lem, release_for_user_withdrawal_lem, pay_for_user_withdrawal_lem,
}
use gigveyro.Withdrawal.Requests.{Movement}
use gigveyro.Withdrawal.Calls.{Kind, merchant, user, team_lead, table}
use gigveyro.Withdrawal.Calls.Tracking.{Adds}

-- How a movement changes the session: the account, the amount, the request, the actor, then the
-- session before, the row and the session after.
abbrev pub Effect : Type 1
Effect = ℕ → Decimal → ℕ → ℕ → Db → LedgerEntry → Db → Type 0

-- The method replays, or has the effect `Moves`, which adds one row of type `t` for the request.
pub record IsMovement (move : Movement) (t : LedgerEntryType) (Moves : Effect) : Type 0 where
  pub outcome :
      (account_id : ℕ) (amount : Decimal) (id actor_id : ℕ) (db : Db)
      → IsSound db
      → Ends
          (λ e db'.
            Replays (Ledger.Reference.withdrawal id) t db e db'
            ⊎ Moves account_id amount id actor_id db e db')
          db
          (move account_id amount id actor_id db)
  pub adds :
      (account_id : ℕ) (amount : Decimal) (id actor_id : ℕ) (db db' : Db) (e : LedgerEntry)
      → Moves account_id amount id actor_id db e db'
      → Adds id t db.ledger db'.ledger
  pub evolves :
      (share : ℕ → ℤ) (account_id : ℕ) (amount : Decimal) (id actor_id : ℕ) (db db' : Db)
      (e : LedgerEntry)
      → Moves account_id amount id actor_id db e db'
      → Evolves share db db'

abbrev pub MovesHeld :
    LedgerEntryType → BalanceBucket → (ℤ → ℤ) → (ℤ → MerchantWallet → MerchantWallet) → Effect
MovesHeld t bucket written move account_id amount id actor_id =
    MovesMerchant account_id t bucket written (Ledger.Reference.withdrawal id) (some actor_id)
      amount move

abbrev pub MovesFrozen :
    LedgerEntryType → BalanceBucket → (ℤ → ℤ) → (ℤ → UserWallet → UserWallet) → Effect
MovesFrozen t bucket written move account_id amount id actor_id =
    MovesUser account_id t bucket written (Ledger.Reference.withdrawal id) (some actor_id) amount
      move

module _ (t : LedgerEntryType) (bucket : BalanceBucket) (written : ℤ → ℤ) where
  pub merchant-Adds :
      (move : ℤ → MerchantWallet → MerchantWallet) (account_id : ℕ) (amount : Decimal)
      (id actor_id : ℕ) (db db' : Db) (e : LedgerEntry)
      → MovesHeld t bucket written move account_id amount id actor_id db e db'
      → Adds id t db.ledger db'.ledger
  unfolding merchant_entry
  merchant-Adds move account_id amount id actor_id db db' e (a, w, ea, pa, ew, p, row) = record {
    entry = e;
    result = PostsMerchant-ledger p;
    reference = ap (λ (x : LedgerEntry). x.reference) row;
    type = ap (λ (x : LedgerEntry). x.type) row;
  }

  pub user-Adds :
      (move : ℤ → UserWallet → UserWallet) (account_id : ℕ) (amount : Decimal) (id actor_id : ℕ)
      (db db' : Db) (e : LedgerEntry)
      → MovesFrozen t bucket written move account_id amount id actor_id db e db'
      → Adds id t db.ledger db'.ledger
  unfolding user_entry user_row
  user-Adds move account_id amount id actor_id db db' e (a, w, ea, pa, ew, p, row) = record {
    entry = e;
    result = PostsUser-ledger p;
    reference = ap (λ (x : LedgerEntry). x.reference) row;
    type = ap (λ (x : LedgerEntry). x.type) row;
  }

  module _ (share : ℕ → ℤ) (other : IsOther t) where
    pub merchant-Evolves :
        (move : ℤ → MerchantWallet → MerchantWallet) (account_id : ℕ) (amount : Decimal)
        (id actor_id : ℕ) (db db' : Db) (e : LedgerEntry)
        → MovesHeld t bucket written move account_id amount id actor_id db e db'
        → Evolves share db db'
    merchant-Evolves move account_id amount id actor_id db db' e (a, w, ea, pa, ew, p, row) =
        PostsMerchant-Evolves share
          (subst (λ r. IsOther r.type) (sym row) (unfold merchant_entry in other)) p

    pub user-Evolves :
        (move : ℤ → UserWallet → UserWallet) (account_id : ℕ) (amount : Decimal) (id actor_id : ℕ)
        (db db' : Db) (e : LedgerEntry)
        → MovesFrozen t bucket written move account_id amount id actor_id db e db'
        → Evolves share db db'
    user-Evolves move account_id amount id actor_id db db' e (a, w, ea, pa, ew, p, row) =
        PostsUser-Evolves share (subst (λ r. IsOther r.type) (sym row) (unfold user_entry in other))
          p

abbrev pub Releases : Effect
Releases = MovesHeld withdrawal_release available (λ a. a) unhold

abbrev pub ReleasesUser : Effect
ReleasesUser = MovesFrozen withdrawal_release available (λ a. a) unfreeze

abbrev pub PaysUser : Effect
PaysUser = MovesFrozen withdrawal_paid frozen neg (λ a w. deducted w a)

pub release-IsMovement : IsMovement release_for_withdrawal withdrawal_release Releases
release-IsMovement = record {
  outcome = λ account amount id actor db sound.
      release_for_withdrawal_lem account amount id db sound actor;
  adds = merchant-Adds withdrawal_release available (λ a. a) unhold;
  evolves = λ share.
      merchant-Evolves withdrawal_release available (λ a. a) share
        (omega arith, omega arith, omega arith) unhold;
}

pub release_user-IsMovement : IsMovement release_for_user_withdrawal withdrawal_release ReleasesUser
release_user-IsMovement = record {
  outcome = λ account amount id actor db sound.
      release_for_user_withdrawal_lem account amount id db sound actor;
  adds = user-Adds withdrawal_release available (λ a. a) unfreeze;
  evolves = λ share.
      user-Evolves withdrawal_release available (λ a. a) share
        (omega arith, omega arith, omega arith) unfreeze;
}

pub pay_user-IsMovement : IsMovement pay_for_user_withdrawal withdrawal_paid PaysUser
pay_user-IsMovement = record {
  outcome = λ account amount id actor db sound.
      pay_for_user_withdrawal_lem account amount id db sound actor;
  adds = user-Adds withdrawal_paid frozen neg (λ a w. deducted w a);
  evolves = λ share.
      user-Evolves withdrawal_paid frozen neg share (omega arith, omega arith, omega arith)
        (λ a w. deducted w a);
}

Step-requests : (k : Kind) {db db' : Db} → Step db db' → (table k).rows db' ≡ (table k).rows db
Step-requests merchant (post_user w w' e p) = ap (λ (d : Db). d.merchant_withdrawals) p.result
Step-requests user (post_user w w' e p) = ap (λ (d : Db). d.user_withdrawals) p.result
Step-requests team_lead (post_user w w' e p) = ap (λ (d : Db). d.team_lead_withdrawals) p.result
Step-requests merchant (post_merchant w w' e p) = ap (λ (d : Db). d.merchant_withdrawals) p.result
Step-requests user (post_merchant w w' e p) = ap (λ (d : Db). d.user_withdrawals) p.result
Step-requests team_lead (post_merchant w w' e p) = ap (λ (d : Db). d.team_lead_withdrawals) p.result
Step-requests merchant (set_target w t found funded same) =
    ap (λ (d : Db). d.merchant_withdrawals) same
Step-requests user (set_target w t found funded same) = ap (λ (d : Db). d.user_withdrawals) same
Step-requests team_lead (set_target w t found funded same) =
    ap (λ (d : Db). d.team_lead_withdrawals) same

-- No step of the wallets touches the requests.
pub Steps-requests :
    (k : Kind) {db db' : Db} → Steps db db' → (table k).rows db' ≡ (table k).rows db
Steps-requests k here = refl
Steps-requests k (next s st) = Step-requests k st ∙ Steps-requests k s
