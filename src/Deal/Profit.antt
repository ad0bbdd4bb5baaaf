-- ===== src/Deal/Profit.antt =====
-- record_deal_owner_profit writes to the fee tables only.
use gigveyro.Common.{◌≡◌, refl, inl, inr, Option, none, some, List, [], ◌∷◌, arith, Bool-cases}
use gigveyro.Common.Int.{ℤ, pos, ◌-ℤ◌, leb_ℤ}
use gigveyro.Models.Fees.{
  FeePolicy, FeeSnapshot, OwnerProfitEntry, FeeSource, deal_fee, eqb_source, is_active_status,
}
use gigveyro.Models.Deal.{Deal}
use gigveyro.Db.{Db, Action, Error, pure, ◌>>=◌, ◌>>◌}
use gigveyro.Db.Queries.{select, scalar}
use gigveyro.Db.DealQueries.{
  active_policy, get_profit_by_source, create_snapshot, create_profit, scalar_one,
}
use gigveyro.Deal.Service.{create_owner_profit, record_deal_owner_profit, unless_recorded}
use gigveyro.Wallet.Posting.{EndsBy}
use gigveyro.Wallet.Posting.Rules.{EndsBy-bind}
use gigveyro.Models.Wallet.{usdt}

-- Nothing is said of an exception.
abbrev pub Any : Error → Db → Type 0
Any e db = Unit

-- The wallets, their ledger and the deals are as they were.
pub record KeepsBooks (db db' : Db) : Type 0 where
  pub wallets : db'.wallets ≡ db.wallets
  pub merchants : db'.merchant_wallets ≡ db.merchant_wallets
  pub ledger : db'.ledger ≡ db.ledger
  pub deals : db'.deals ≡ db.deals

books_refl : (db : Db) → KeepsBooks db db
books_refl db = record { wallets = refl; merchants = refl; ledger = refl; deals = refl }

module _ (db₀ : Db) where
  -- The action writes to the fee tables only.
  abbrev Keeping : {A : Type 0} → Action A → Type 0
  Keeping m = (db : Db) → KeepsBooks db₀ db → EndsBy Any (λ _ db'. KeepsBooks db₀ db') (m db)

  Keeping-bind :
      {A B : Type 0} (m : Action B) (f : B → Action A)
      → Keeping m
      → ((b : B) → Keeping (f b))
      → Keeping (m >>= f)
  Keeping-bind m f hm hf db k =
      EndsBy-bind Any (λ _ db'. KeepsBooks db₀ db') (λ _ db'. KeepsBooks db₀ db') f m db (hm db k)
        (λ b db' k'. hf b db' k')

  Keeping-snapshot : (s : FeeSnapshot) → Keeping (create_snapshot s)
  unfolding create_snapshot
  Keeping-snapshot s db k = ground arith

  Keeping-profit : (e : OwnerProfitEntry) → Keeping (create_profit e)
  unfolding create_profit
  Keeping-profit e db k = ground arith

  Keeping-one : {A : Type 0} (rows : List A) → Keeping (scalar_one rows)
  unfolding scalar_one
  Keeping-one [] db k = tt
  Keeping-one (x ∷ []) db k = k
  Keeping-one (x ∷ y ∷ _) db k = tt

  Keeping-at_most_one : {A : Type 0} (rows : List A) → Keeping (scalar rows)
  unfolding scalar
  Keeping-at_most_one [] db k = k
  Keeping-at_most_one (x ∷ []) db k = k
  Keeping-at_most_one (x ∷ y ∷ _) db k = tt

  Keeping-policy : Keeping active_policy
  unfolding active_policy
  Keeping-policy db = Keeping-one (select (λ p. is_active_status p.status) db.fee_policies) db

  Keeping-source : (source : FeeSource) → Keeping (get_profit_by_source source)
  unfolding get_profit_by_source
  Keeping-source source db =
      Keeping-at_most_one (select (λ e. eqb_source e.source source) db.owner_profits) db

  module _ (deal : Deal) (gross merchant_amount owner_profit : ℤ) where
    snapshot_under : FeePolicy → FeeSnapshot
    snapshot_under policy = record {
      policy_version = policy.version;
      source = deal_fee deal.id;
      gross_amount = gross;
      fee_amount = gross -ℤ merchant_amount;
      net_amount = merchant_amount;
    }

    profit_under : FeePolicy → OwnerProfitEntry
    profit_under policy = record {
      source = deal_fee deal.id;
      currency = usdt;
      gross_amount = gross;
      fee_amount = owner_profit;
      policy_version = policy.version;
    }

    Keeping-create : Keeping (create_owner_profit deal gross merchant_amount owner_profit)
    unfolding create_owner_profit snapshot_under profit_under
    Keeping-create =
        Keeping-bind active_policy
          (λ policy.
            create_snapshot (snapshot_under policy)
            >> (create_profit (profit_under policy) >> pure tt))
          Keeping-policy
          λ policy.
            Keeping-bind (create_snapshot (snapshot_under policy))
              (λ _. create_profit (profit_under policy) >> pure tt)
              (Keeping-snapshot (snapshot_under policy))
              λ _.
                Keeping-bind (create_profit (profit_under policy)) (λ _. pure tt)
                  (Keeping-profit (profit_under policy)) (λ _ db k. k)

    Keeping-unless :
        (existing : Option OwnerProfitEntry)
        → Keeping
            (unless_recorded existing (create_owner_profit deal gross merchant_amount owner_profit))
    Keeping-unless (some e) db k = k
    Keeping-unless none db k = Keeping-create db k

    pub record_deal_owner_profit-KeepsBooks :
        Keeping (record_deal_owner_profit deal gross merchant_amount owner_profit)
    unfolding record_deal_owner_profit
    record_deal_owner_profit-KeepsBooks db k = elim (Bool-cases (leb_ℤ owner_profit (pos 0))) [
      | inl low ↦ rw low k
      | inr gain ↦ rw gain (
          Keeping-bind (get_profit_by_source (deal_fee deal.id))
            (λ existing.
              unless_recorded existing
                (create_owner_profit deal gross merchant_amount owner_profit))
            (Keeping-source (deal_fee deal.id)) Keeping-unless db k)
    ]
