-- ===== src/Wallet/Deals/Settlement.antt =====
-- What settle_deal promises: a settlement is up to three postings, in the order of the code.
pub mod Movements
pub mod Returns
pub mod Success
use mathlib.Core.Path.{subst}
use gigveyro.Common.{
  ℕ, ◌≡◌, refl, sym, ap, ◌∙◌, ◌⊎◌, inl, inr, Bool, true, false, Option, none, some, is_some, List,
  [], ◌∷◌, arith, Bool-cases, if◌then◌else◌, ◌||◌,
}
use gigveyro.Common.Int.{ℤ, pos, neg, ◌+ℤ◌, ◌-ℤ◌, ◌≤ℤ◌, ltb_ℤ, eqb_ℤ, int_laws}
use gigveyro.Common.Table.{put, find-key, find-put_self}
use gigveyro.Models.Wallet.{Decimal, finite, UserWallet, MerchantWallet, wallet_key, merchant_key}
use gigveyro.Models.Ledger
use gigveyro.Models.Ledger.{
  LedgerEntry, LedgerEntryType, Reference, deal_settlement, deal_settlement_credit,
  deal_user_profit, available, frozen, type_code,
}
use gigveyro.Db.{
  Db, Action, Error, ◌>>=◌, ◌>>◌, raise_if, data_error, insufficient_balance, invalid_amount, pure,
}
use gigveyro.Db.Queries.{find_wallet, find_merchant, has_reference, select, get_by_reference}
use gigveyro.Wallet.Common.{
  positive, non_negative, lock_wallet, lock_merchant, post_wallet, post_merchant, user_entry,
  merchant_entry,
}
use gigveyro.Wallet.Deals.{
  deducted, credited, Settlement, settle_profit, settle_movements, or_settled, settle_deal,
}
use gigveyro.Wallet.Posting.{
  IsFunded, IsCovered, IsSound, PostsUser, PostsMerchant, IsExpected, EndsBy,
}
use gigveyro.Wallet.Posting.Rules.{Selected, EndsBy-bind, EndsBy-weaken}
use gigveyro.Wallet.Posting.Flushes.{EndsBy-post_wallet, EndsBy-post_merchant}
use gigveyro.Wallet.Posting.Reads.{
  Reads, Reads-positive, Reads-non_negative, Reads-raise_if, Reads-lock_wallet, Reads-lock_merchant,
  Reads-get_by_reference, EndsBy-Reads,
}
use gigveyro.Wallet.Posting.Effects.{
  PostsUser-ledger, PostsUser-merchants, PostsUser-found, PostsMerchant-ledger,
  PostsMerchant-wallets, select-other_type,
}
use gigveyro.Wallet.Posting.Moves.{found_at, found-IsFunded, merchant_found_at, found-IsCovered}

abbrev pub credited_merchant : MerchantWallet → ℤ → MerchantWallet
credited_merchant v m = record v { available_balance = v.available_balance +ℤ m }

-- The rows of a settlement.
module _ (deal_id : ℕ) (actor : Option ℕ) where
  abbrev pub debit_entry : ℤ → UserWallet → LedgerEntry
  debit_entry a u =
      user_entry deal_settlement frozen (neg a) (Ledger.Reference.deal deal_id) actor u
        (deducted u a)

  abbrev pub credit_entry : ℤ → MerchantWallet → LedgerEntry
  credit_entry m v =
      merchant_entry deal_settlement_credit available m (Ledger.Reference.deal deal_id) actor v
        (credited_merchant v m)

  abbrev pub profit_entry : ℤ → UserWallet → LedgerEntry
  profit_entry p w =
      user_entry deal_user_profit available p (Ledger.Reference.deal deal_id) actor w (credited w p)

  -- The user's own share: posted if it is positive, and absent if it is zero.
  abbrev pub PaysProfit : ℤ → UserWallet → Db → Option LedgerEntry → Db → Type 0
  PaysProfit p w db none db' = (p ≡ pos 0) × (db' ≡ db)
  PaysProfit p w db (some e) db' =
      (pos 1 ≤ℤ p) × PostsUser w (credited w p) e db db' × (e ≡ profit_entry p w)

-- The three movements of a settlement of the amount `a`: out of the user's frozen balance, to the
-- merchant, and the user's share back to the available balance of the same wallet.
pub record Settles (user_id merchant_id : ℕ) (a m p : ℤ) (deal_id : ℕ) (actor : Option ℕ) (db : Db)
    (s : Settlement) (db' : Db) : Type 0 where
  pub u : UserWallet
  pub v : MerchantWallet
  pub debited_db : Db
  pub credited_db : Db
  pub found_user : find_wallet user_id db ≡ some u
  pub found_merchant : find_merchant merchant_id db ≡ some v
  pub debit : PostsUser u (deducted u a) s.0 db debited_db
  pub credit : PostsMerchant v (credited_merchant v m) s.1 debited_db credited_db
  pub debit_row : s.0 ≡ debit_entry deal_id actor a u
  pub credit_row : s.1 ≡ credit_entry deal_id actor m v
  pub profit : PaysProfit deal_id actor p (deducted u a) credited_db s.2 db'

-- Nothing is written, unless a balance passes the limit of its column after the first flush.
abbrev pub Stops : Db → Error → Db → Type 0
Stops db e db' = ((db' ≡ db) ⊎ (e ≡ data_error)) × IsExpected e

-- No row of the deal's settlement is on record.
abbrev pub IsUnsettled : ℕ → Db → Type 0
IsUnsettled deal_id db =
    (select (has_reference (Ledger.Reference.deal deal_id) deal_settlement) db.ledger ≡ [])
    × (select (has_reference (Ledger.Reference.deal deal_id) deal_settlement_credit) db.ledger ≡ [])
    × (select (has_reference (Ledger.Reference.deal deal_id) deal_user_profit) db.ledger ≡ [])

-- The settlement and its credit are on record, with the user's share unless that is zero.
abbrev pub IsSettled : ℕ → ℤ → Db → Type 0
IsSettled deal_id p db =
    (e : LedgerEntry) × (c : LedgerEntry) × (select
        (has_reference (Ledger.Reference.deal deal_id) deal_settlement) db.ledger
      ≡ e ∷ [])
    × (select (has_reference (Ledger.Reference.deal deal_id) deal_settlement_credit) db.ledger
        ≡ c ∷ [])
    × ((p ≡ pos 0)
        ⊎ ((q : LedgerEntry) × (select
                (has_reference (Ledger.Reference.deal deal_id) deal_user_profit) db.ledger
              ≡ q ∷ [])))

-- A deal is settled with this share of the user, or not at all.
abbrev pub IsWhole : ℕ → ℤ → Db → Type 0
IsWhole deal_id p db = IsUnsettled deal_id db ⊎ IsSettled deal_id p db

-- The rows on record are returned, the row of the user's share included, if there is one.
abbrev pub ReplaysSettlement : ℕ → Db → Settlement → Db → Type 0
ReplaysSettlement deal_id db s db' =
    (db' ≡ db)
    × (select (has_reference (Ledger.Reference.deal deal_id) deal_settlement) db.ledger ≡ s.0 ∷ [])
    × (select (has_reference (Ledger.Reference.deal deal_id) deal_settlement_credit) db.ledger
        ≡ s.1 ∷ [])
    × Selected (select (has_reference (Ledger.Reference.deal deal_id) deal_user_profit) db.ledger)
        s.2

-- The three shares of a call of settle_deal, as its guards leave them, and the settlement of them.
abbrev pub SettlesShares :
    ℕ → ℕ → Decimal → Decimal → Decimal → ℕ → Option ℕ → Db → Settlement → Db → Type 0
SettlesShares user_id merchant_id amount merchant_amount user_profit deal_id actor db s db' =
    (a : ℤ) × (m : ℤ) × (p : ℤ) × (amount ≡ finite a)
    × (merchant_amount ≡ finite m)
    × (user_profit ≡ finite p)
    × (pos 1 ≤ℤ a)
    × (pos 1 ≤ℤ m)
    × (pos 0 ≤ℤ p)
    × (m +ℤ p ≤ℤ a)
    × Settles user_id merchant_id a m p deal_id actor db s db'
