-- ===== src/Withdrawal/Creation/Outcome.antt =====
-- How the creation of a request ends.
use mathlib.Core.Path.{subst}
use gigveyro.Common.{
  ℕ, ◌≡◌, refl, sym, true, false, not, ◌||◌, Option, some, List, ◌∷◌, Bool-cases, inl, inr, arith,
  ltb,
}
use gigveyro.Common.Int.{ℤ, pos, ◌≤ℤ◌, leb_ℤ}
use gigveyro.Models.Account.{Account, UserRole, eqb_role}
use gigveyro.Models.Wallet.{Decimal, finite, non_finite}
use gigveyro.Models.Ledger
use gigveyro.Models.Ledger.{LedgerEntry, LedgerEntryType, withdrawal_hold, held, frozen}
use gigveyro.Models.Withdrawal.{
  Text, Withdrawal, WithdrawalDestinationType, usdt_trc20_address, bybit_uid, pending,
}
use gigveyro.Db.{
  Db, Action, pure, ◌>>=◌, ◌>>◌, raise_if, withdrawal_creation_not_allowed, invalid_destination,
}
use gigveyro.Deal.Profit.{Any}
use gigveyro.Deal.Session.{IsConsistent}
use gigveyro.Db.WithdrawalQueries.{merchant_withdrawals, user_withdrawals, team_lead_withdrawals}
use gigveyro.Risk.Guard.{check_withdrawal}
use gigveyro.Risk.Passing.{
  Looks, Looks-bind, EndsBy-Looks, Looks-raise_if, Passes, IsWithdrawable, check_withdrawal_lem,
}
use gigveyro.Wallet.Deals.Outcome.{freeze}
use gigveyro.Wallet.Posting.{EndsBy}
use gigveyro.Wallet.Posting.Moves.{MovesUser, MovesMerchant}
use gigveyro.Wallet.Posting.Rules.{EndsBy-bind, EndsBy-weaken}
use gigveyro.Wallet.Withdrawals.{hold_for_withdrawal, hold_for_user_withdrawal}
use gigveyro.Wallet.Withdrawals.Outcome.{
  hold, hold_for_withdrawal_lem, hold_for_user_withdrawal_lem,
}
use gigveyro.Withdrawal.Address.{
  length, AddressCheck, valid, invalid, overflows, validate_tron_base58check,
}
use gigveyro.Withdrawal.Calls.{Kind, merchant, user, team_lead, table}
use gigveyro.Withdrawal.Calls.Tracking.{IsTracked}
use gigveyro.Withdrawal.Calls.Movements.{
  Effect, IsMovement, merchant-Adds, merchant-Evolves, user-Adds, user-Evolves,
}
use gigveyro.Withdrawal.Calls.Closing.{Leaves}
use gigveyro.Withdrawal.Creation.{
  strip, is_blank, or_invalid, check_address, check_destination, positive_amount, new_withdrawal,
  get_merchant_wallet_id, get_wallet_id, check_request, create_merchant_withdrawal,
  create_user_withdrawal, create_team_lead_withdrawal, insert_and_hold,
}
use gigveyro.Withdrawal.Creation.Insertion.{IsFresh, InsertsAndHolds, insert_and_hold-Leaves}

-- The reservation of a request, out of the requester's available balance.
abbrev pub Holds : Effect
Holds account_id amount id actor_id =
    MovesMerchant account_id withdrawal_hold held (λ a. a) (Ledger.Reference.withdrawal id)
      (some account_id) amount hold

abbrev pub HoldsUser : Effect
HoldsUser account_id amount id actor_id =
    MovesUser account_id withdrawal_hold frozen (λ a. a) (Ledger.Reference.withdrawal id)
      (some account_id) amount freeze

hold-IsMovement :
    IsMovement
      (λ account_id amount i actor_id. hold_for_withdrawal account_id amount i)
      withdrawal_hold
      Holds
hold-IsMovement = record {
  outcome = λ account amount id actor db sound. hold_for_withdrawal_lem account amount id db sound;
  adds = λ account amount id actor.
      merchant-Adds withdrawal_hold held (λ a. a) hold account amount id account;
  evolves = λ share account amount id actor.
      merchant-Evolves withdrawal_hold held (λ a. a) share (omega arith, omega arith, omega arith)
        hold account amount id account;
}

hold_user-IsMovement :
    IsMovement
      (λ account_id amount i actor_id. hold_for_user_withdrawal account_id amount i)
      withdrawal_hold
      HoldsUser
hold_user-IsMovement = record {
  outcome =
      λ account amount id actor db sound. hold_for_user_withdrawal_lem account amount id db sound;
  adds = λ account amount id actor.
      user-Adds withdrawal_hold frozen (λ a. a) freeze account amount id account;
  evolves = λ share account amount id actor.
      user-Evolves withdrawal_hold frozen (λ a. a) share (omega arith, omega arith, omega arith)
        freeze account amount id account;
}

Looks-positive_amount :
    (db : Db) (d : Decimal) → Looks (λ a. (d ≡ finite a) × (pos 1 ≤ℤ a)) db (positive_amount d db)
Looks-positive_amount db non_finite = refl
Looks-positive_amount db (finite a) = elim (Bool-cases (leb_ℤ a (pos 0))) [
  | inl low ↦ rw low refl
  | inr high ↦ rw high (refl, (refl, ground (arith, high)))
]

module _ (sha256 : List ℕ → List ℕ) (db : Db) where
  Looks-or_invalid : (c : AddressCheck) → Looks (λ _. Unit {0}) db (or_invalid c db)
  Looks-or_invalid valid = (refl, tt)
  Looks-or_invalid invalid = refl
  Looks-or_invalid overflows = refl

  Looks-check_address :
      (t : WithdrawalDestinationType) (clean : Text)
      → Looks (λ _. Unit {0}) db (check_address sha256 t clean db)
  Looks-check_address bybit_uid clean = (refl, tt)
  Looks-check_address usdt_trc20_address clean =
      Looks-bind (λ _. Unit {0}) db (λ _. (ltb (length clean) 26 || ltb 50 (length clean)) ≡ false)
        (λ _. or_invalid (validate_tron_base58check sha256 clean))
        (raise_if (ltb (length clean) 26 || ltb 50 (length clean)) invalid_destination)
        (Looks-raise_if db (ltb (length clean) 26 || ltb 50 (length clean)) invalid_destination)
        (λ _ h. Looks-or_invalid (validate_tron_base58check sha256 clean))

  Looks-check_destination :
      (t : WithdrawalDestinationType) (destination : Text)
      → Looks (λ clean. clean ≡ strip destination) db (check_destination sha256 t destination db)
  unfolding check_destination
  Looks-check_destination t destination =
      Looks-bind (λ clean. clean ≡ strip destination) db (λ _. is_blank (strip destination) ≡ false)
        (λ _. check_address sha256 t (strip destination) >> pure (strip destination))
        (raise_if (is_blank (strip destination)) invalid_destination)
        (Looks-raise_if db (is_blank (strip destination)) invalid_destination)
        λ _ h.
          Looks-bind (λ clean. clean ≡ strip destination) db (λ _. Unit {0})
            (λ _. pure (strip destination)) (check_address sha256 t (strip destination))
            (Looks-check_address t (strip destination)) (λ _ x. (refl, refl))

-- Who may create a request, and for how much.
pub record IsAllowed (account : Account) (role : UserRole) (amount : Decimal) (a : ℤ) : Type 0 where
  pub role_of : eqb_role account.role role ≡ true
  pub active : account.is_active ≡ true
  pub amount_of : amount ≡ finite a
  pub positive : pos 1 ≤ℤ a

module _ (sha256 : List ℕ → List ℕ) (now id public_id : ℕ) (account : Account) (amount : Decimal)
    (destination_type : WithdrawalDestinationType) (destination : Text) (comment : Option Text)
    (db : Db) where
  role_and_active :
      (role : UserRole)
      → (not (eqb_role account.role role) || not account.is_active) ≡ false
      → (eqb_role account.role role ≡ true) × (account.is_active ≡ true)
  role_and_active role h = ground (arith, h)

  Looks-check_request :
      (role : UserRole)
      → Looks
          (λ r. IsAllowed account role amount r.0 × (r.1 ≡ strip destination))
          db
          (check_request sha256 account amount destination_type destination role db)
  unfolding check_request
  Looks-check_request role =
      Looks-bind Allowed db
        (λ _. (not (eqb_role account.role role) || not account.is_active) ≡ false)
        (λ _. positive_amount amount >>= checked)
        (raise_if (not (eqb_role account.role role) || not account.is_active)
          withdrawal_creation_not_allowed)
        (Looks-raise_if db (not (eqb_role account.role role) || not account.is_active)
          withdrawal_creation_not_allowed)
        λ _ h.
          Looks-bind Allowed db (λ a. (amount ≡ finite a) × (pos 1 ≤ℤ a)) checked
            (positive_amount amount) (Looks-positive_amount db amount)
            λ a ea.
              Looks-bind Allowed db (λ clean. clean ≡ strip destination) (λ clean. pure (a, clean))
                (check_destination sha256 destination_type destination)
                (Looks-check_destination sha256 db destination_type destination)
                λ clean e.
                  let roles = role_and_active role h in
                  (
                    refl,
                    (
                      record {
                        role_of = roles.0;
                        active = roles.1;
                        amount_of = ea.0;
                        positive = ea.1;
                      },
                      e,
                    ),
                  )
    where
      Allowed : ℤ × Text → Type 0
      Allowed r = IsAllowed account role amount r.0 × (r.1 ≡ strip destination)

      checked : ℤ → Action (ℤ × Text)
      checked a = do clean ← check_destination sha256 destination_type destination; pure (a, clean)

  Looks-get_merchant_wallet_id :
      (account_id : ℕ) → Looks (λ _. Unit {0}) db (get_merchant_wallet_id account_id db)
  unfolding get_merchant_wallet_id
  Looks-get_merchant_wallet_id account_id = ground arith

  Looks-get_wallet_id : (account_id : ℕ) → Looks (λ _. Unit {0}) db (get_wallet_id account_id db)
  unfolding get_wallet_id
  Looks-get_wallet_id account_id = ground arith

  module _ (share : ℕ → ℤ) (c : IsConsistent share db) (tracked : IsTracked db)
      (fresh : IsFresh id db) where
    -- The request is the account's own, PENDING, with the amount asked for and the destination
    -- without the spaces around it; its row is new, and then the amount is reserved, once.
    pub record Creates (k : Kind) (role : UserRole) (Moves : Effect) (w : Withdrawal) (db' : Db)
        : Type 0 where
      pub leaves : Leaves share k id pending w db'
      pub amount_asked : ℤ
      pub allowed : IsAllowed account role amount amount_asked
      pub own : w.account_id ≡ account.id
      pub same_amount : w.amount ≡ amount_asked
      pub same_destination : w.destination ≡ strip destination
      pub row : LedgerEntry
      pub held :
          Moves w.account_id
            (finite w.amount)
            id
            w.account_id
            ((table k).write (w ∷ (table k).rows db) db)
            row
            db'

    created :
        (k : Kind) (role : UserRole) (hold : ℕ → Decimal → ℕ → Action LedgerEntry) (Moves : Effect)
        → IsMovement
            (λ account_id amount i actor_id. hold account_id amount i)
            withdrawal_hold
            Moves
        → (a : ℤ) (clean : Text) (wallet_id : ℕ) → IsAllowed account role amount a
        → clean ≡ strip destination
        → EndsBy Any (Creates k role Moves) (
            insert_and_hold
              (table k)
              hold
              (new_withdrawal id public_id account.id wallet_id a destination_type clean comment)
              db)
    created k role hold Moves M a clean wallet_id allowed stripped =
        let w = new_withdrawal id public_id account.id wallet_id a destination_type clean comment in
        EndsBy-weaken Any Any
          (λ w' db'.
            Leaves share k id pending w' db'
            × InsertsAndHolds share k w refl db c tracked fresh Moves w' db')
          (Creates k role Moves) (insert_and_hold (table k) hold w db) (λ e db' x. x)
          (λ w' db' x.
            subst (λ v. Creates k role Moves v db') (sym x.1.0)
              (record {
                leaves = subst (λ v. Leaves share k id pending v db') x.1.0 x.0;
                amount_asked = a;
                allowed = allowed;
                own = refl;
                same_amount = refl;
                same_destination = stripped;
                row = x.1.1.0;
                held = x.1.1.1;
              }))
          (insert_and_hold-Leaves share k w refl db c tracked fresh hold Moves M)

    -- From a consistent session that tracks its requests, and under a new identifier, a creation that
    -- returns is that of an active merchant for a positive amount, which with the withdrawals of
    -- merchants that are pending or approved is within the enabled limit of the one active policy;
    -- and where the policy enables the reserve coverage, the external funds cover the reserve. Its
    -- PENDING request with this amount is on record, the amount has been moved once, from the
    -- merchant's available balance to its held one, and the session is again consistent and tracks
    -- its requests. It is asked of the controlled payouts that they write to none of these tables.
    pub create_merchant_withdrawal_lem :
        (payout : Withdrawal → Action (Unit {0}))
        → ((w : Withdrawal) (db' : Db) → Looks (λ _. Unit {0}) db' (payout w db'))
        → EndsBy Any
            (λ w db'.
              Creates merchant UserRole.merchant Holds w db'
              × ((a : ℤ) × (amount ≡ finite a) × Passes now db (IsWithdrawable db a)))
            (create_merchant_withdrawal sha256 now id public_id account amount destination_type
              destination comment payout db)
    unfolding create_merchant_withdrawal
    create_merchant_withdrawal_lem payout quiet =
        EndsBy-Looks Done db
          (λ r. IsAllowed account UserRole.merchant amount r.0 × (r.1 ≡ strip destination)) rest
          (check_request sha256 account amount destination_type destination UserRole.merchant)
          (Looks-check_request UserRole.merchant)
          λ r ok.
            EndsBy-Looks Done db (λ _. Unit {0})
              (λ wallet_id. check_withdrawal now r.0 >>= λ _. store r wallet_id)
              (get_merchant_wallet_id account.id) (Looks-get_merchant_wallet_id account.id)
              λ wallet_id _.
                EndsBy-Looks Done db (λ _. Passes now db (IsWithdrawable db r.0))
                  (λ _. store r wallet_id) (check_withdrawal now r.0)
                  (check_withdrawal_lem now db r.0)
                  λ _ passes.
                    EndsBy-bind Any (Creates merchant UserRole.merchant Holds) Done finish
                      (insert_and_hold merchant_withdrawals hold_for_withdrawal (
                        new_withdrawal id public_id account.id wallet_id r.0 destination_type r.1
                          comment))
                      db
                      (created merchant UserRole.merchant hold_for_withdrawal Holds hold-IsMovement
                        r.0 r.1 wallet_id ok.0 ok.1)
                      λ w db' h.
                        EndsBy-Looks Done db' (λ _. Unit {0}) (λ _. pure w) (payout w) (quiet w db')
                          (λ _ x. (h, (r.0, ok.0.amount_of, passes)))
      where
        Done : Withdrawal → Db → Type 0
        Done w db' =
            Creates merchant UserRole.merchant Holds w db'
            × ((a : ℤ) × (amount ≡ finite a) × Passes now db (IsWithdrawable db a))

        finish : Withdrawal → Action Withdrawal
        finish w = payout w >>= λ _. pure w

        store : ℤ × Text → ℕ → Action Withdrawal
        store r wallet_id =
            insert_and_hold merchant_withdrawals hold_for_withdrawal
              (new_withdrawal id public_id account.id wallet_id r.0 destination_type r.1 comment)
            >>= finish

        rest : ℤ × Text → Action Withdrawal
        rest r = get_merchant_wallet_id account.id >>= λ wallet_id.
            check_withdrawal now r.0 >>= λ _. store r wallet_id

    -- From a consistent session that tracks its requests, and under a new identifier, a creation that
    -- returns is that of an active user for a positive amount, which with the withdrawals of
    -- merchants that are pending or approved is within the enabled limit of the one active policy;
    -- and where the policy enables the reserve coverage, the external funds cover the reserve. Its
    -- PENDING request with this amount is on record, the amount has been moved once, from the user's
    -- available balance to its frozen one, and the session is again consistent and tracks its requests.
    pub create_user_withdrawal_lem :
        EndsBy Any
          (λ w db'.
            Creates user UserRole.user HoldsUser w db'
            × ((a : ℤ) × (amount ≡ finite a) × Passes now db (IsWithdrawable db a)))
          (create_user_withdrawal sha256 now id public_id account amount destination_type
            destination comment db)
    unfolding create_user_withdrawal
    create_user_withdrawal_lem =
        EndsBy-Looks Done db
          (λ r. IsAllowed account UserRole.user amount r.0 × (r.1 ≡ strip destination)) rest
          (check_request sha256 account amount destination_type destination UserRole.user)
          (Looks-check_request UserRole.user)
          λ r ok.
            EndsBy-Looks Done db (λ _. Unit {0})
              (λ wallet_id. check_withdrawal now r.0 >>= λ _. store r wallet_id)
              (get_wallet_id account.id) (Looks-get_wallet_id account.id)
              λ wallet_id _.
                EndsBy-Looks Done db (λ _. Passes now db (IsWithdrawable db r.0))
                  (λ _. store r wallet_id) (check_withdrawal now r.0)
                  (check_withdrawal_lem now db r.0)
                  λ _ passes.
                    EndsBy-weaken Any Any (Creates user UserRole.user HoldsUser) Done
                      (store r wallet_id db) (λ e db' x. x)
                      (λ w db' h. (h, (r.0, ok.0.amount_of, passes)))
                      (created user UserRole.user hold_for_user_withdrawal HoldsUser
                        hold_user-IsMovement r.0 r.1 wallet_id ok.0 ok.1)
      where
        Done : Withdrawal → Db → Type 0
        Done w db' =
            Creates user UserRole.user HoldsUser w db'
            × ((a : ℤ) × (amount ≡ finite a) × Passes now db (IsWithdrawable db a))

        store : ℤ × Text → ℕ → Action Withdrawal
        store r wallet_id =
            insert_and_hold user_withdrawals hold_for_user_withdrawal
              (new_withdrawal id public_id account.id wallet_id r.0 destination_type r.1 comment)

        rest : ℤ × Text → Action Withdrawal
        rest r = get_wallet_id account.id >>= λ wallet_id.
            check_withdrawal now r.0 >>= λ _. store r wallet_id

    -- A team lead's creation that returns is as `Creates` says.
    pub create_team_lead_withdrawal_lem :
        EndsBy Any (Creates team_lead UserRole.team_lead HoldsUser) (
          create_team_lead_withdrawal sha256 now id public_id account amount destination_type
            destination comment db)
    unfolding create_team_lead_withdrawal
    create_team_lead_withdrawal_lem =
        EndsBy-Looks (Creates team_lead UserRole.team_lead HoldsUser) db
          (λ r. IsAllowed account UserRole.team_lead amount r.0 × (r.1 ≡ strip destination))
          (λ r. get_wallet_id account.id >>= store r)
          (check_request sha256 account amount destination_type destination UserRole.team_lead)
          (Looks-check_request UserRole.team_lead)
          λ r ok.
            EndsBy-Looks (Creates team_lead UserRole.team_lead HoldsUser) db (λ _. Unit {0})
              (store r) (get_wallet_id account.id) (Looks-get_wallet_id account.id)
              λ wallet_id _.
                created team_lead UserRole.team_lead hold_for_user_withdrawal HoldsUser
                  hold_user-IsMovement r.0 r.1 wallet_id ok.0 ok.1
      where
        store : ℤ × Text → ℕ → Action Withdrawal
        store r wallet_id =
            insert_and_hold team_lead_withdrawals hold_for_user_withdrawal
              (new_withdrawal id public_id account.id wallet_id r.0 destination_type r.1 comment)
