-- ===== src/Tests.antt =====
-- A session with one user, one merchant, one team lead, the owner and two deals, on which the
-- theorems are tried out.
pub mod Appeals
pub mod Calls
pub mod Movements
pub mod Retries
pub mod RoundTrips
pub mod Deals
pub mod Requests
pub mod Risk
use mathlib.Core.Path.{subst}
use gigveyro.Common.{ℕ, ◌≡◌, refl, inl, true, false, Option, none, some, List, [], ◌∷◌, arith}
use gigveyro.Common.Int.{ℤ, pos}
use gigveyro.Models.Account.{Account, UserRole, owner, user, merchant, team_lead}
use gigveyro.Models.Wallet.{Currency, usdt, tjs, UserWallet, MerchantWallet}
use gigveyro.Models.Ledger.{LedgerEntry}
use gigveyro.Models.Deal.{Deal, DealStatus, accepted, payment_pending}
use gigveyro.Models.Fees.{FeePolicy, active}
use gigveyro.Db.{Db}
use gigveyro.Db.Queries.{select}
use gigveyro.Wallet.Calls.Evolution.{AllWhole}
use gigveyro.Wallet.Posting.{IsSound}
use gigveyro.Deal.Session.{IsConsistent}
use gigveyro.Deal.Split.{compute_deal_settlement_split, share_of}

abbrev pub account_of : ℕ → UserRole → Option ℕ → Account
account_of id role lead = record { id = id; role = role; is_active = true; team_lead_id = lead }

-- 1000 available, 500 in reserve with a target of 600, and 2000 frozen units.
abbrev pub sample_wallet : UserWallet
sample_wallet = record {
  id = 11;
  account_id = 1;
  currency = usdt;
  available_balance = pos 1000;
  insurance_balance = pos 500;
  frozen_balance = pos 2000;
  insurance_target = pos 600;
}

abbrev pub team_lead_wallet : UserWallet
team_lead_wallet = record {
  id = 13;
  account_id = 3;
  currency = usdt;
  available_balance = pos 0;
  insurance_balance = pos 0;
  frozen_balance = pos 0;
  insurance_target = pos 0;
}

abbrev pub sample_merchant : MerchantWallet
sample_merchant = record {
  id = 12;
  account_id = 2;
  currency = usdt;
  available_balance = pos 300;
  held_balance = pos 400;
}

-- A deal of 1000 units that the user has accepted.
abbrev pub sample_deal : Deal
sample_deal = record {
  id = 7;
  merchant_id = 2;
  user_id = some 1;
  payment_requisite_id = some 5;
  amount_tjs = pos 10500;
  exchange_rate = some (pos 1050000000);
  amount_usdt = some (pos 1000);
  status = accepted;
  expires_at = 100;
  accepted_at = some 50;
  completed_at = none;
  cancelled_at = none;
  merchant_settlement_amount = none;
  user_profit_amount = none;
  owner_profit_amount = none;
  team_lead_profit_amount = none;
}

abbrev pub sample_db : Db
sample_db = record {
  accounts =
      account_of 0 owner none
      ∷ account_of 1 user (some 3)
      ∷ account_of 2 merchant none
      ∷ account_of 3 team_lead none
      ∷ [];
  wallets = sample_wallet ∷ team_lead_wallet ∷ [];
  merchant_wallets = sample_merchant ∷ [];
  ledger = [];
  deals = sample_deal ∷ [];
  fee_policies = record { version = 1; status = active } ∷ [];
  fee_snapshots = [];
  owner_profits = [];
  merchant_withdrawals = [];
  user_withdrawals = [];
  team_lead_withdrawals = [];
  risk_policies = [];
  treasury_snapshots = [];
  appeals = [];
}

pub sample-IsSound : IsSound sample_db
unfolding select
sample-IsSound = record {
  users = (
    record {
      available = omega arith;
      insurance = omega arith;
      frozen = omega arith;
      target = omega arith;
    },
    (
      record {
        available = omega arith;
        insurance = omega arith;
        frozen = omega arith;
        target = omega arith;
      },
      tt,
    ),
  );
  merchants = (record { available = omega arith; held = omega arith }, tt);
  references = λ ref t. tt;
  keys = λ w key. tt;
}

-- The user's share of every deal: 100 units.
abbrev pub sample_share : ℕ → ℤ
sample_share id = pos 100

pub sample-AllWhole : AllWhole sample_share sample_db
unfolding select
sample-AllWhole d = inl (refl, refl, refl)

pub sample-IsConsistent : IsConsistent sample_share sample_db
unfolding compute_deal_settlement_split share_of
sample-IsConsistent = record {
  sound = sample-IsSound;
  whole = sample-AllWhole;
  shares = (
    λ a h.
        let same : pos 1000 ≡ a = cc in
        subst (λ x. (compute_deal_settlement_split x).user_profit ≡ pos 100) same refl,
    tt,
  );
}
