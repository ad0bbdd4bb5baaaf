-- ===== src/Models/Wallet.antt =====
-- GIGVEYRO_Backend/app/models/wallet.py and app/models/merchant_wallet.py, with the decimal values
-- that the services receive. Balances are integers of the column's smallest unit, 0.00000001.
use gigveyro.Common.{ℕ, ◌^◌, Bool, ◌&&◌}
use gigveyro.Common.Int.{ℤ, pos, leb_ℤ, ltb_ℤ}

-- A Python Decimal of at most eight fractional digits, or one that is not finite.
pub data Decimal : Type 0 where
  finite : ℤ → Decimal
  non_finite : Decimal

pub data Currency : Type 0 where
  usdt tjs rub : Currency

pub record UserWallet : Type 0 where
  pub id : ℕ
  pub account_id : ℕ
  pub currency : Currency
  pub available_balance : ℤ
  pub insurance_balance : ℤ
  pub frozen_balance : ℤ
  pub insurance_target : ℤ

pub record MerchantWallet : Type 0 where
  pub id : ℕ
  pub account_id : ℕ
  pub currency : Currency
  pub available_balance : ℤ
  pub held_balance : ℤ

abbrev pub wallet_key : UserWallet → ℕ
wallet_key w = w.account_id

abbrev pub merchant_key : MerchantWallet → ℕ
merchant_key w = w.account_id

-- The bound of NUMERIC(20, 8) in units.
abbrev pub money_limit : ℤ
money_limit = pos (10 ^ 20)

-- The check constraints of `wallets` and `merchant_wallets`.
unfoldable pub is_admissible_user : UserWallet → Bool
is_admissible_user w =
    leb_ℤ (pos 0) w.available_balance
    && leb_ℤ (pos 0) w.insurance_balance
    && leb_ℤ (pos 0) w.frozen_balance
    && leb_ℤ (pos 0) w.insurance_target

unfoldable pub is_admissible_merchant : MerchantWallet → Bool
is_admissible_merchant w = leb_ℤ (pos 0) w.available_balance && leb_ℤ (pos 0) w.held_balance

-- The values that MONEY = NUMERIC(20, 8) can hold, for balances that pass the checks.
unfoldable pub in_range_user : UserWallet → Bool
in_range_user w =
    ltb_ℤ w.available_balance money_limit
    && ltb_ℤ w.insurance_balance money_limit
    && ltb_ℤ w.frozen_balance money_limit
    && ltb_ℤ w.insurance_target money_limit

unfoldable pub in_range_merchant : MerchantWallet → Bool
in_range_merchant w = ltb_ℤ w.available_balance money_limit && ltb_ℤ w.held_balance money_limit
