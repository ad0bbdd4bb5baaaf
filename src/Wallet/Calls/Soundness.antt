-- ===== src/Wallet/Calls/Soundness.antt =====
-- Every call of WalletService, on every branch, as steps of the session.
use mathlib.Core.Path.{subst}
use gigveyro.Common.{ℕ, ◌≡◌, refl, sym, ◌⊎◌, inl, inr, Bool, Option, some, arith, Bool-cases, none}
use gigveyro.Common.Int.{ℤ, pos, ◌≤ℤ◌}
use gigveyro.Common.Table.{put}
use gigveyro.Models.Wallet.{Decimal, finite, UserWallet, wallet_key, in_range_user}
use gigveyro.Models.Ledger.{LedgerEntry, LedgerEntryType, BalanceBucket, deal_user_profit}
use gigveyro.Db.{Db, Action, Result, ok, err, pure, ◌>>=◌, ◌>>◌, data_error}
use gigveyro.Db.Queries.{find_wallet, save_wallet}
use gigveyro.Wallet.Common.{non_negative, lock_wallet, user_row}
use gigveyro.Wallet.Deals.{Settlement, settle_deal}
use gigveyro.Wallet.Deals.Settlement.{IsWhole, Stops, ReplaysSettlement, SettlesShares}
use gigveyro.Wallet.Deals.Settlement.Returns.{settle_deal_lem}
use gigveyro.Wallet.Credits.{
  apply_bucket_change, set_insurance_target, target_user, adjustment_entry,
}
use gigveyro.Wallet.Credits.Adjustment.{
  apply_bucket_change_lem, ReplaysKey, AdjustsTarget, IsTarget, Reads-target_user,
}
use gigveyro.Wallet.Posting.{IsSound, IsFunded, IsExpected, EndsBy, Ends}
use gigveyro.Wallet.Posting.Rules.{
  Ends-weaken, EndsBy-weaken, EndsBy-bind, EndsBy-at, Ends-bind, Selected,
}
use gigveyro.Wallet.Posting.Flushes.{save_wallet_fits, save_wallet_over}
use gigveyro.Wallet.Posting.Reads.{Reads-non_negative, Reads-lock_wallet}
use gigveyro.Wallet.Posting.Moves.{found_at, found-IsFunded}
use gigveyro.Wallet.Calls.Evolution.{
  Evolves, Evolves-refl, PostsUser-Evolves, AllWhole, IsOther, here, next, set_target, targeted,
  rows_of,
}
use gigveyro.Wallet.Calls.Recorded.{Recorded}
use gigveyro.Wallet.Calls.Settlements.{
  Settles-Evolves, Settles-Recorded, settlement_rows, profit_row,
}

module _ (share : ℕ → ℤ) (db : Db) (sound : IsSound db) where
  -- A call evolves the session, or raises an expected exception and has written nothing, unless a
  -- balance passed its column's limit.
  abbrev pub Evolving : {A : Type 0} → Result A × Db → Type 0
  Evolving = EndsBy (Stops db) (λ _ db'. Evolves share db db')

  pub Ends-Evolving :
      {A : Type 0} (x : Result A × Db) → Ends (λ _ db'. Evolves share db db') db x → Evolving x
  Ends-Evolving x =
      EndsBy-weaken (λ e db'. (db' ≡ db) × IsExpected e) (Stops db) (λ _ db'. Evolves share db db')
        (λ _ db'. Evolves share db db') x (λ e db' h. (inl h.0, h.1)) (λ _ db' h. h)

  -- The result of the call is dropped.
  pub Evolving-drop : {A : Type 0} (m : Action A) → Evolving (m db) → Evolving ((m >> pure tt) db)
  Evolving-drop m = λ h.
      EndsBy-bind (Stops db) (λ _ db'. Evolves share db db') (λ _ db'. Evolves share db db')
        (λ _. pure tt) m db h (λ _ db' e. e)

  pub adjustment-Evolving :
      (actor_id target_id : ℕ) (bucket : BalanceBucket) (t : LedgerEntryType) (amount : Decimal)
      (require_positive : Bool) (key : Option ℕ)
      → IsOther t
      → Evolving (apply_bucket_change actor_id target_id bucket t amount require_positive key db)
  unfolding adjustment_entry user_row
  adjustment-Evolving actor_id target_id bucket t amount require_positive key other =
      Ends-Evolving _ (
        Ends-weaken
          (λ e db'.
            ReplaysKey target_id key db e db'
            ⊎ AdjustsTarget actor_id target_id bucket t amount require_positive key db e db')
          (λ _ db'. Evolves share db db') db
          (apply_bucket_change actor_id target_id bucket t amount require_positive key db) evolves
          (apply_bucket_change_lem actor_id target_id bucket t amount require_positive key db
            sound))
    where
      evolves :
          (e : LedgerEntry) (db' : Db)
          → ReplaysKey target_id key db e db'
            ⊎ AdjustsTarget actor_id target_id bucket t amount require_positive key db e db'
          → Evolves share db db'
      evolves e db' (inl (w, k, same, _, _, _)) = Evolves-refl share db db' same
      evolves e db' (inr (a, k, target, w, ek, ha, ht, ew, p, row, kept, columns)) =
          PostsUser-Evolves share (subst (λ r. IsOther r.type) (sym row) other) p

  module _ (user_id merchant_id : ℕ) (amount merchant_amount user_profit : Decimal) (deal_id : ℕ)
      (actor : Option ℕ) (own : user_profit ≡ finite (share deal_id)) where
    share_is : (p : ℤ) → user_profit ≡ finite p → share deal_id ≡ p
    share_is p ep = cc

    -- How a settlement that returns has ended.
    abbrev pub Made : Settlement → Db → Type 0
    Made s db' =
        ReplaysSettlement deal_id db s db'
        ⊎ SettlesShares user_id merchant_id amount merchant_amount user_profit deal_id actor db s
            db'

    pub Made-Evolves : (s : Settlement) (db' : Db) → Made s db' → Evolves share db db'
    Made-Evolves s db' (inl replay) = Evolves-refl share db db' replay.0
    Made-Evolves s db' (inr (a, m, p, ea, em, ep, pa, pm, pp, within, settles)) =
        Settles-Evolves user_id merchant_id a m p deal_id actor db s db' settles share
          (sym (share_is p ep))

    profit-Recorded :
        (q : Option LedgerEntry)
        → Selected (rows_of deal_id deal_user_profit db) q
        → Recorded deal_id (profit_row q) db
    profit-Recorded none h = tt
    profit-Recorded (some q) h = (h, tt)

    pub Made-Recorded :
        (s : Settlement) (db' : Db) → Made s db' → Recorded deal_id (settlement_rows s) db'
    Made-Recorded s db' (inl (same, debit, credit, profit)) =
        subst (Recorded deal_id (settlement_rows s)) (sym same)
          (debit, (credit, profit-Recorded s.2 profit))
    Made-Recorded s db' (inr (a, m, p, ea, em, ep, pa, pm, pp, within, settles)) =
        Settles-Recorded user_id merchant_id a m p deal_id actor db s db' settles

    pub settle-Made :
        AllWhole share db
        → EndsBy
            (Stops db)
            Made
            (settle_deal user_id merchant_id amount merchant_amount user_profit deal_id actor db)
    settle-Made whole =
        settle_deal_lem user_id merchant_id amount merchant_amount user_profit deal_id actor db
          sound (λ p ep. subst (λ q. IsWhole deal_id q db) (share_is p ep) (whole deal_id))

    pub settle-Evolving :
        AllWhole share db
        → Evolving
            (settle_deal user_id merchant_id amount merchant_amount user_profit deal_id actor db)
    settle-Evolving whole =
        EndsBy-weaken (Stops db) (Stops db) Made (λ _ db'. Evolves share db db')
          (settle_deal user_id merchant_id amount merchant_amount user_profit deal_id actor db)
          (λ e db' h. h) Made-Evolves (settle-Made whole)

  abbrev target_rest : ℤ → UserWallet → Action (UserWallet × ℤ)
  target_rest t w = save_wallet (targeted w t) >> pure (targeted w t, w.insurance_target)

  target_rest-Ends :
      (t : ℤ) (w : UserWallet)
      → pos 0 ≤ℤ t
      → find_wallet w.account_id db ≡ some w
      → IsFunded w
      → Ends (λ _ db'. Evolves share db db') db (target_rest t w db)
  target_rest-Ends t w pt found h = elim (Bool-cases (in_range_user (targeted w t))) [
    | inl fits ↦
        EndsBy-at (λ e db'. (db' ≡ db) × IsExpected e) (λ _ db'. Evolves share db db')
          (target_rest t w db)
          (
            ok (targeted w t, w.insurance_target),
            record db { wallets = put wallet_key (targeted w t) db.wallets },
          )
          (ground (arith, save_wallet_fits (targeted w t) db (funded h) fits))
          (record { steps = next here (set_target w t found (funded h) refl); whole = λ h. h })
    | inr over ↦
        EndsBy-at (λ e db'. (db' ≡ db) × IsExpected e) (λ _ db'. Evolves share db db')
          (target_rest t w db) (err data_error, db)
          (ground (arith, save_wallet_over (targeted w t) db (funded h) over)) (refl, tt)
  ]
    where
      funded : IsFunded w → IsFunded (targeted w t)
      funded h = record {
        available = h.available;
        insurance = h.insurance;
        frozen = h.frozen;
        target = pt;
      }

  pub set_insurance_target-Evolving :
      (target_id : ℕ) (new_target : Decimal)
      → Evolving (set_insurance_target target_id new_target db)
  unfolding set_insurance_target
  set_insurance_target-Evolving target_id new_target = Ends-Evolving _ (
      Ends-bind (λ _ db'. Evolves share db db') db (λ t. (new_target ≡ finite t) × (pos 0 ≤ℤ t))
        with_target (non_negative new_target) (Reads-non_negative db new_target)
        λ t ht.
          Ends-bind (λ _ db'. Evolves share db db') db (IsTarget target_id db)
            (λ _. lock_wallet target_id >>= target_rest t) (target_user target_id)
            (Reads-target_user db target_id)
            λ target _.
              Ends-bind (λ _ db'. Evolves share db db') db (λ w. find_wallet target_id db ≡ some w)
                (target_rest t) (lock_wallet target_id) (Reads-lock_wallet db target_id)
                λ w ew.
                  target_rest-Ends t w ht.1 (found_at db sound target_id w ew)
                    (found-IsFunded db sound target_id w ew))
    where
      with_target : ℤ → Action (UserWallet × ℤ)
      with_target t = target_user target_id >> (lock_wallet target_id >>= target_rest t)
