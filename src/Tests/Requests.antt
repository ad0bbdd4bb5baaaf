-- ===== src/Tests/Requests.antt =====
-- The requests of withdrawals, tried out on a session with one request of the user.
use gigveyro.Withdrawal.Address.{validate_tron_base58check_lem}
use gigveyro.Withdrawal.Address.{overflows}
use gigveyro.Withdrawal.Creation.Outcome.{create_merchant_withdrawal_lem}
use gigveyro.Withdrawal.Creation.Outcome.{create_user_withdrawal_lem}
use gigveyro.Withdrawal.Creation.{create_user_withdrawal}
use gigveyro.Withdrawal.Creation.{create_merchant_withdrawal}
use gigveyro.Withdrawal.Calls.Effects.{reject_lem}
use gigveyro.Withdrawal.Creation.Outcome.{Holds}
use gigveyro.Withdrawal.Creation.Outcome.{HoldsUser}
use gigveyro.Withdrawal.Calls.Effects.{mark_paid_lem}
use gigveyro.Risk.Passing.{check_deal_lem}
use gigveyro.Withdrawal.Requests.{with_comment}
use gigveyro.Withdrawal.Calls.Effects.{cancel_lem}
use gigveyro.Models.Wallet.{finite}
use gigveyro.Risk.Passing.{check_withdrawal_lem}
use gigveyro.Models.Account.{UserRole}
use gigveyro.Withdrawal.Calls.Effects.{GivesBack}
use gigveyro.Withdrawal.Calls.Sequences.{act-final}
use gigveyro.Risk.Guard.{check_deal}
use gigveyro.Withdrawal.Calls.Effects.{Pays}
use gigveyro.Withdrawal.Calls.{cancel}
use gigveyro.Models.Withdrawal.{cancelled}
use gigveyro.Tests.{account_of}
use gigveyro.Withdrawal.Calls.Closing.{MovesAndCloses}
use gigveyro.Risk.Guard.{check_withdrawal}
use gigveyro.Models.Withdrawal.{paid}
use gigveyro.Withdrawal.Calls.Outcome.{Ending}
use gigveyro.Withdrawal.Calls.{act}
use gigveyro.Withdrawal.Creation.Outcome.{Creates}
use gigveyro.Deal.Profit.{Any}
use gigveyro.Risk.Passing.{Passes, IsWithdrawable, IsAffordable}
use gigveyro.Models.Withdrawal.{rejected}
use gigveyro.Withdrawal.Address.{validate_tron_base58check}
use gigveyro.Withdrawal.Calls.Sequences.{Stays}
use gigveyro.Withdrawal.Calls.Sequences.{serve_all-IsTracked}
use gigveyro.Risk.Passing.{Looks}
use gigveyro.Wallet.Posting.{EndsBy}
use gigveyro.Withdrawal.Calls.{reject}
use gigveyro.Withdrawal.Calls.{mark_paid}
use gigveyro.Db.{pure}
use gigveyro.Withdrawal.Calls.{approve}
use gigveyro.Db.{Action}
use gigveyro.Withdrawal.Calls.{serve_all}
use gigveyro.Withdrawal.Calls.{Call}
use gigveyro.Common.{
  ℕ, ◌≡◌, ◌≢◌, refl, sym, ap, ◌∙◌, false, none, some, List, [], ◌∷◌, ◌==◌, Bool-cases, inl, inr,
}
use gigveyro.Common.Int.{ℤ, pos}
use gigveyro.Common.Table.{find}
use gigveyro.Models.Wallet.{usdt}
use gigveyro.Models.Withdrawal.{Withdrawal, WithdrawalStatus, bybit_uid, pending, approved, is_paid}
use gigveyro.Db.{Db}
use gigveyro.Db.Queries.{select}
use gigveyro.Deal.Session.{IsConsistent}
use gigveyro.Withdrawal.Calls.{Kind, merchant, user, team_lead, table}
use gigveyro.Db.WithdrawalQueries.{find_withdrawal}
use gigveyro.Withdrawal.Calls.Tracking.{IsTracked, IsBooked, is_given_back}
use gigveyro.Withdrawal.Creation.Insertion.{IsFresh}
use gigveyro.Tests.Risk.{guarded_db}
use gigveyro.Tests.{sample_share, sample-IsConsistent}

-- 50 of the user's frozen units.
abbrev pub request_of : WithdrawalStatus → Withdrawal
request_of s = record {
  id = 20;
  public_id = 200;
  account_id = 1;
  wallet_id = 11;
  amount = pos 50;
  currency = usdt;
  destination_type = bybit_uid;
  destination = 49 ∷ [];
  status = s;
  comment = none;
  owner_comment = none;
  approved_at = none;
  rejected_at = none;
  paid_at = none;
  cancelled_at = none;
  created_by_account_id = 1;
  actioned_by_account_id = none;
}

abbrev pub request_db : WithdrawalStatus → Db
request_db s = record guarded_db { user_withdrawals = request_of s ∷ [] }

pub request-IsConsistent : (s : WithdrawalStatus) → IsConsistent sample_share (request_db s)
request-IsConsistent s =
    let c = sample-IsConsistent in
    record {
      sound = record {
        users = c.sound.users;
        merchants = c.sound.merchants;
        references = c.sound.references;
        keys = c.sound.keys;
      };
      whole = c.whole;
      shares = c.shares;
    }

module _ (s : WithdrawalStatus) (kept : is_given_back s ≡ false) (unpaid : is_paid s ≡ false) where
  open-IsBooked : (i : ℕ) (v : WithdrawalStatus) → v ≡ s → IsBooked i v []
  unfolding select
  open-IsBooked i v h = rw (h, kept, unpaid) (refl, refl)

  found_open :
      (k : Kind) (i : ℕ) (v : Withdrawal)
      → find_withdrawal (table k) i (request_db s) ≡ some v
      → (k ≡ user) × (v.status ≡ s)
  unfolding find
  found_open merchant i v h = absurd (cc)
  found_open team_lead i v h = absurd (cc)
  found_open user i v h = elim (Bool-cases (20 == i)) [
    | inl same ↦
        let e : request_of s ≡ v = cc (rw same at h) in
        (refl, ap (λ (x : Withdrawal). x.status) (sym e))
    | inr other ↦ absurd (let x : none ≡ some v = rw other at h in cc)
  ]

  pub request-IsTracked : IsTracked (request_db s)
  request-IsTracked = record {
    booked = λ k i v h. open-IsBooked i v.status (found_open k i v h).1;
    separate = λ k k' i v v' h h'. (found_open k i v h).0 ∙ sym (found_open k' i v' h').0;
  }

pub request-IsFresh : (s : WithdrawalStatus) → IsFresh 30 (request_db s)
unfolding select find
request-IsFresh s = record { absent = absent; unused = λ t. refl }
  where
    absent : (k : Kind) → find_withdrawal (table k) 30 (request_db s) ≡ none
    absent merchant = refl
    absent user = refl
    absent team_lead = refl

-- The witnesses.
abbrev sample_calls : List Call
sample_calls =
    approve user 90 0 20 none ∷ mark_paid user 91 0 20 none ∷ reject user 92 0 20 none ∷ []

abbrev sample_hash : List ℕ → List ℕ
sample_hash bytes = bytes

abbrev no_payout : Withdrawal → Action (Unit {0})
no_payout w = pure tt

cancel_lem_example :
    EndsBy Any
      (λ w' db'.
        (w : Withdrawal) × (find_withdrawal (table user) 20 (request_db pending) ≡ some w)
        × ((w.account_id ≡ 1)
            × Ending sample_share user 20 w
                (request_db pending)
                cancelled
                pending
                (MovesAndCloses user 20 (request_db pending) (GivesBack user) 90 1 w cancelled 1)
                w'
                db'))
      (act (cancel user 90 1 20) (request_db pending))
cancel_lem_example =
    cancel_lem sample_share (request_db pending) (request-IsConsistent pending)
      (request-IsTracked pending refl refl) 20 user 90 1

reject_lem_example :
    EndsBy Any
      (λ w' db'.
        (w : Withdrawal) × (find_withdrawal (table user) 20 (request_db pending) ≡ some w)
        × Ending sample_share user 20 w
            (request_db pending)
            rejected
            pending
            (MovesAndCloses user 20
              (request_db pending)
              (GivesBack user)
              90
              w.account_id
              (with_comment none w)
              rejected
              0)
            w'
            db')
      (act (reject user 90 0 20 none) (request_db pending))
reject_lem_example =
    reject_lem sample_share (request_db pending) (request-IsConsistent pending)
      (request-IsTracked pending refl refl) 20 user 90 0 none

mark_paid_lem_example :
    EndsBy Any
      (λ w' db'.
        (w : Withdrawal) × (find_withdrawal (table user) 20 (request_db approved) ≡ some w)
        × Ending sample_share user 20 w
            (request_db approved)
            paid
            approved
            (Pays user 20 (request_db approved) 90 0 none w)
            w'
            db')
      (act (mark_paid user 90 0 20 none) (request_db approved))
mark_paid_lem_example =
    mark_paid_lem sample_share (request_db approved) (request-IsConsistent approved)
      (request-IsTracked approved refl refl) 20 user 90 0 none

serve_all-IsTracked_example :
    IsConsistent sample_share (serve_all sample_calls (request_db pending))
    × IsTracked (serve_all sample_calls (request_db pending))
serve_all-IsTracked_example =
    serve_all-IsTracked sample_share (request_db pending) sample_calls
      (request-IsConsistent pending) (request-IsTracked pending refl refl)

act-final_example :
    Stays
      (request_of rejected)
      (request_db rejected)
      (act (cancel user 90 1 20) (request_db rejected))
act-final_example =
    act-final (request_db rejected) (cancel user 90 1 20) (request_of rejected)
      (unfold find in refl) refl

create_merchant_withdrawal_lem_example :
    EndsBy Any
      (λ w db'.
        Creates sample_hash 90 30 300
          (account_of 2 UserRole.merchant none)
          (finite (pos 100))
          bybit_uid
          (32 ∷ 49 ∷ [])
          none
          (request_db pending)
          sample_share
          (request-IsConsistent pending)
          (request-IsTracked pending refl refl)
          (request-IsFresh pending)
          merchant
          UserRole.merchant
          Holds
          w
          db'
        × ((a : ℤ) × ((finite (pos 100)) ≡ finite a)
            × Passes 90 (request_db pending) (IsWithdrawable (request_db pending) a)))
      (create_merchant_withdrawal sample_hash 90 30 300
        (account_of 2 UserRole.merchant none)
        (finite (pos 100))
        bybit_uid
        (32 ∷ 49 ∷ [])
        none
        no_payout
        (request_db pending))
create_merchant_withdrawal_lem_example =
    create_merchant_withdrawal_lem sample_hash 90 30 300 (account_of 2 UserRole.merchant none)
      (finite (pos 100)) bybit_uid (32 ∷ 49 ∷ []) none (request_db pending) sample_share
      (request-IsConsistent pending) (request-IsTracked pending refl refl) (request-IsFresh pending)
      no_payout (λ w db. (refl, tt))

create_user_withdrawal_lem_example :
    EndsBy Any
      (λ w db'.
        Creates sample_hash 90 30 300
          (account_of 1 UserRole.user (some 3))
          (finite (pos 100))
          bybit_uid
          (32 ∷ 49 ∷ [])
          none
          (request_db pending)
          sample_share
          (request-IsConsistent pending)
          (request-IsTracked pending refl refl)
          (request-IsFresh pending)
          user
          UserRole.user
          HoldsUser
          w
          db'
        × ((a : ℤ) × ((finite (pos 100)) ≡ finite a)
            × Passes 90 (request_db pending) (IsWithdrawable (request_db pending) a)))
      (create_user_withdrawal sample_hash 90 30 300
        (account_of 1 UserRole.user (some 3))
        (finite (pos 100))
        bybit_uid
        (32 ∷ 49 ∷ [])
        none
        (request_db pending))
create_user_withdrawal_lem_example =
    create_user_withdrawal_lem sample_hash 90 30 300 (account_of 1 UserRole.user (some 3))
      (finite (pos 100)) bybit_uid (32 ∷ 49 ∷ []) none (request_db pending) sample_share
      (request-IsConsistent pending) (request-IsTracked pending refl refl) (request-IsFresh pending)

validate_tron_base58check_lem_example :
    validate_tron_base58check sample_hash (84 ∷ 49 ∷ []) ≢ overflows
validate_tron_base58check_lem_example = validate_tron_base58check_lem sample_hash (84 ∷ 49 ∷ [])

check_withdrawal_lem_example :
    Looks
      (λ _. Passes 90 (request_db pending) (IsWithdrawable (request_db pending) (pos 100)))
      (request_db pending)
      (check_withdrawal 90 (pos 100) (request_db pending))
check_withdrawal_lem_example = check_withdrawal_lem 90 (request_db pending) (pos 100)

check_deal_lem_example :
    Looks
      (λ _. Passes 90 (request_db pending) (IsAffordable (request_db pending) 1 (pos 100)))
      (request_db pending)
      (check_deal 90 1 (pos 100) (request_db pending))
check_deal_lem_example = check_deal_lem 90 (request_db pending) (pos 100) 1
