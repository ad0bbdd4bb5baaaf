-- ===== src/Wallet/Deals/Settlement/Movements.antt =====
-- The three movements of settle_deal.
use gigveyro.Common.{ℕ, ◌≡◌, refl, ◌∙◌, inl, inr, false, Option, some, [], ◌∷◌, arith, Bool-cases}
use gigveyro.Common.Int.{ℤ, pos, neg, ◌≤ℤ◌, ltb_ℤ, int_laws}
use gigveyro.Models.Wallet.{UserWallet, MerchantWallet}
use gigveyro.Models.Ledger
use gigveyro.Models.Ledger.{
  LedgerEntry, LedgerEntryType, Reference, deal_settlement, deal_settlement_credit,
  deal_user_profit, available, frozen, type_code,
}
use gigveyro.Db.{Db, Action, Error, ◌>>=◌, ◌>>◌, raise_if, data_error, insufficient_balance, pure}
use gigveyro.Db.Queries.{find_wallet, find_merchant, has_reference, select}
use gigveyro.Wallet.Common.{
  lock_wallet, lock_merchant, post_wallet, post_merchant, user_entry, merchant_entry,
}
use gigveyro.Wallet.Deals.{deducted, credited, Settlement, settle_profit, settle_movements}
use gigveyro.Wallet.Posting.{IsFunded, IsSound, PostsUser, PostsMerchant, IsExpected, EndsBy}
use gigveyro.Wallet.Posting.Rules.{EndsBy-bind}
use gigveyro.Wallet.Posting.Flushes.{EndsBy-post_wallet, EndsBy-post_merchant}
use gigveyro.Wallet.Posting.Reads.{
  Reads-raise_if, Reads-lock_wallet, Reads-lock_merchant, EndsBy-Reads,
}
use gigveyro.Wallet.Posting.Effects.{
  PostsUser-ledger, PostsUser-merchants, PostsUser-found, PostsMerchant-ledger,
  PostsMerchant-wallets, select-other_type,
}
use gigveyro.Wallet.Posting.Moves.{found_at, found-IsFunded, merchant_found_at, found-IsCovered}
use gigveyro.Wallet.Deals.Settlement.{
  credited_merchant, PaysProfit, Settles, Stops, IsUnsettled, debit_entry, credit_entry,
}

-- Step 3 of a settlement.
module _ (R : Error → Db → Type 0) (p : ℤ) (deal_id : ℕ) (actor : Option ℕ) (w : UserWallet)
    (db : Db) (over_limit : R data_error db) (pp : pos 0 ≤ℤ p)
    (new : select (has_reference (Ledger.Reference.deal deal_id) deal_user_profit) db.ledger ≡ [])
    (found : find_wallet w.account_id db ≡ some w) (funded : IsFunded w) where
  settle_profit-PaysProfit :
      EndsBy R (PaysProfit deal_id actor p w db) (settle_profit p deal_id actor w db)
  unfolding settle_profit
  settle_profit-PaysProfit = elim (Bool-cases (ltb_ℤ (pos 0) p)) [
    | inl gain ↦ rw gain (
        EndsBy-bind R
          (λ e db'.
            PostsUser w (credited w p) e db db'
            × (e
                ≡ user_entry deal_user_profit available p (Ledger.Reference.deal deal_id) actor w
                    (credited w p)))
          (PaysProfit deal_id actor p w db) (λ e. pure (some e))
          (post_wallet deal_user_profit available p (Ledger.Reference.deal deal_id) actor w
            (credited w p))
          db
          (EndsBy-post_wallet deal_user_profit available p (Ledger.Reference.deal deal_id) actor db
            new R over_limit w (credited w p) found refl (grind int_laws))
          (λ e db' q. (ground arith, q.0, q.1)))
    | inr no_gain ↦ rw no_gain (ground arith, refl)
  ]

module _ (user_id merchant_id : ℕ) (a m p : ℤ) (deal_id : ℕ) (actor : Option ℕ) (db : Db)
    (sound : IsSound db) (unsettled : IsUnsettled deal_id db) (pa : pos 1 ≤ℤ a) (pm : pos 1 ≤ℤ m)
    (pp : pos 0 ≤ℤ p) where
  abbrev after_credit : UserWallet → LedgerEntry → LedgerEntry → Action Settlement
  after_credit u user_row merchant_row = do
    profit_row ← settle_profit p deal_id actor (deducted u a)
    pure (user_row, merchant_row, profit_row)

  abbrev after_debit : UserWallet → MerchantWallet → LedgerEntry → Action Settlement
  after_debit u v user_row = do
    merchant_row ←
        post_merchant deal_settlement_credit available m (Ledger.Reference.deal deal_id) actor v
          (credited_merchant v m)
    after_credit u user_row merchant_row

  abbrev movements : UserWallet → MerchantWallet → Action Settlement
  movements u v = do
    user_row ←
        post_wallet deal_settlement frozen (neg a) (Ledger.Reference.deal deal_id) actor u
          (deducted u a)
    after_debit u v user_row

  module _ (u : UserWallet) (v : MerchantWallet) (fu : find_wallet user_id db ≡ some u)
      (fv : find_merchant merchant_id db ≡ some v) (enough : ltb_ℤ u.frozen_balance a ≡ false) where
    deducted-IsFunded : IsFunded (deducted u a)
    deducted-IsFunded = let h = found-IsFunded db sound user_id u fu in grind int_laws

    -- The session after the debit and the credit.
    module _ (e₁ e₂ : LedgerEntry) (db₁ db₂ : Db) (debit : PostsUser u (deducted u a) e₁ db db₁)
        (written₁ : e₁ ≡ debit_entry deal_id actor a u)
        (credit : PostsMerchant v (credited_merchant v m) e₂ db₁ db₂)
        (written₂ : e₂ ≡ credit_entry deal_id actor m v) where
      profit_new :
          select (has_reference (Ledger.Reference.deal deal_id) deal_user_profit) db₂.ledger ≡ []
      unfolding user_entry merchant_entry
      profit_new =
          rw (PostsMerchant-ledger credit, PostsUser-ledger debit)
            (select-other_type (Ledger.Reference.deal deal_id) deal_user_profit e₂ (e₁ ∷ db.ledger)
                (rw (written₂, merchant_entry) (omega arith))
              ∙ select-other_type (Ledger.Reference.deal deal_id) deal_user_profit e₁ db.ledger
                  (rw (written₁, user_entry) (omega arith))
              ∙ unsettled.2)

      still_found : find_wallet u.account_id db₂ ≡ some (deducted u a)
      still_found = rw (PostsMerchant-wallets credit) (PostsUser-found debit)

      after_credit-Settles :
          EndsBy
            (Stops db)
            (Settles user_id merchant_id a m p deal_id actor db)
            (after_credit u e₁ e₂ db₂)
      after_credit-Settles =
          EndsBy-bind (Stops db) (PaysProfit deal_id actor p (deducted u a) db₂)
            (Settles user_id merchant_id a m p deal_id actor db) (λ q. pure (e₁, e₂, q))
            (settle_profit p deal_id actor (deducted u a)) db₂
            (settle_profit-PaysProfit (Stops db) p deal_id actor (deducted u a) db₂ (inr refl, tt)
              pp profit_new still_found deducted-IsFunded)
            (λ q db' paid. record {
              u = u;
              v = v;
              debited_db = db₁;
              credited_db = db₂;
              found_user = fu;
              found_merchant = fv;
              debit = debit;
              credit = credit;
              debit_row = written₁;
              credit_row = written₂;
              profit = paid;
            })

    module _ (e₁ : LedgerEntry) (db₁ : Db) (debit : PostsUser u (deducted u a) e₁ db db₁)
        (written₁ : e₁ ≡ debit_entry deal_id actor a u) where
      credit_new :
          select (has_reference (Ledger.Reference.deal deal_id) deal_settlement_credit) db₁.ledger
          ≡ []
      unfolding user_entry
      credit_new = rw (PostsUser-ledger debit) (
          select-other_type (Ledger.Reference.deal deal_id) deal_settlement_credit e₁ db.ledger
            (rw (written₁, user_entry) (omega arith))
          ∙ unsettled.1)

      merchant_found : find_merchant v.account_id db₁ ≡ some v
      merchant_found = rw (PostsUser-merchants debit) (merchant_found_at db sound merchant_id v fv)

      after_debit-Settles :
          EndsBy
            (Stops db)
            (Settles user_id merchant_id a m p deal_id actor db)
            (after_debit u v e₁ db₁)
      after_debit-Settles =
          EndsBy-bind (Stops db)
            (λ e db'.
              PostsMerchant v (credited_merchant v m) e db₁ db'
              × (e ≡ credit_entry deal_id actor m v))
            (Settles user_id merchant_id a m p deal_id actor db) (after_credit u e₁)
            (post_merchant deal_settlement_credit available m (Ledger.Reference.deal deal_id) actor
              v (credited_merchant v m))
            db₁
            (EndsBy-post_merchant deal_settlement_credit available m (Ledger.Reference.deal deal_id)
              actor db₁ credit_new (Stops db) (inr refl, tt) v (credited_merchant v m)
              merchant_found refl
              (let h = found-IsCovered db sound merchant_id v fv in grind int_laws))
            (λ e db₂ q. after_credit-Settles e₁ e db₁ db₂ debit written₁ q.0 q.1)

    movements-Settles :
        EndsBy (Stops db) (Settles user_id merchant_id a m p deal_id actor db) (movements u v db)
    movements-Settles =
        EndsBy-bind (Stops db)
          (λ e db'. PostsUser u (deducted u a) e db db' × (e ≡ debit_entry deal_id actor a u))
          (Settles user_id merchant_id a m p deal_id actor db) (after_debit u v)
          (post_wallet deal_settlement frozen (neg a) (Ledger.Reference.deal deal_id) actor u
            (deducted u a))
          db
          (EndsBy-post_wallet deal_settlement frozen (neg a) (Ledger.Reference.deal deal_id) actor
            db unsettled.0 (Stops db) (inr refl, tt) u (deducted u a)
            (found_at db sound user_id u fu) refl deducted-IsFunded)
          (λ e db₁ q. after_debit-Settles e db₁ q.0 q.1)

  pub settle_movements-Settles :
      EndsBy
        (Stops db)
        (Settles user_id merchant_id a m p deal_id actor db)
        (settle_movements user_id merchant_id a m p deal_id actor db)
  unfolding settle_movements
  settle_movements-Settles =
      EndsBy-Reads (Stops db) Q db (λ u. find_wallet user_id db ≡ some u)
        (λ u. lock_merchant merchant_id >>= guarded u) stops (lock_wallet user_id)
        (Reads-lock_wallet db user_id)
        λ u fu.
          EndsBy-Reads (Stops db) Q db (λ v. find_merchant merchant_id db ≡ some v) (guarded u)
            stops (lock_merchant merchant_id) (Reads-lock_merchant db merchant_id)
            λ v fv.
              EndsBy-Reads (Stops db) Q db (λ _. ltb_ℤ u.frozen_balance a ≡ false)
                (λ _. movements u v) stops
                (raise_if (ltb_ℤ u.frozen_balance a) insufficient_balance)
                (Reads-raise_if db (ltb_ℤ u.frozen_balance a) insufficient_balance tt)
                (λ _ enough. movements-Settles u v fu fv enough)
    where
      Q : Settlement → Db → Type 0
      Q = Settles user_id merchant_id a m p deal_id actor db

      guarded : UserWallet → MerchantWallet → Action Settlement
      guarded u v = raise_if (ltb_ℤ u.frozen_balance a) insufficient_balance >> movements u v

      stops : (e : Error) → IsExpected e → Stops db e db
      stops e x = (inl refl, x)
