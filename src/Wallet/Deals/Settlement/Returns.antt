-- ===== src/Wallet/Deals/Settlement/Returns.antt =====
-- How settle_deal ends: its guards, its look-up of a settlement on record, and the movements.
use gigveyro.Common.{
  ℕ, ◌≡◌, refl, ◌⊎◌, inl, inr, true, false, Option, none, some, is_some, arith, ◌||◌,
}
use gigveyro.Common.Int.{ℤ, pos, ◌+ℤ◌, ◌≤ℤ◌, ltb_ℤ, eqb_ℤ}
use gigveyro.Models.Wallet.{Decimal, finite}
use gigveyro.Models.Ledger
use gigveyro.Models.Ledger.{
  LedgerEntry, LedgerEntryType, Reference, deal_settlement, deal_settlement_credit,
  deal_user_profit, available, frozen, type_code,
}
use gigveyro.Db.{Db, Action, Error, ◌>>=◌, ◌>>◌, raise_if, invalid_amount}
use gigveyro.Db.Queries.{has_reference, select, get_by_reference}
use gigveyro.Wallet.Common.{positive, non_negative}
use gigveyro.Wallet.Deals.{Settlement, settle_movements, or_settled, settle_deal}
use gigveyro.Wallet.Posting.{IsSound, IsExpected, EndsBy}
use gigveyro.Wallet.Posting.Rules.{Selected, EndsBy-weaken}
use gigveyro.Wallet.Posting.Reads.{
  Reads-positive, Reads-non_negative, Reads-raise_if, Reads-get_by_reference, EndsBy-Reads,
}
use gigveyro.Wallet.Deals.Settlement.{
  Settles, Stops, IsUnsettled, IsSettled, IsWhole, ReplaysSettlement, SettlesShares,
}
use gigveyro.Wallet.Deals.Settlement.Movements.{settle_movements-Settles}

module _ (user_id merchant_id : ℕ) (amount merchant_amount user_profit : Decimal) (deal_id : ℕ)
    (actor : Option ℕ) (db : Db) (sound : IsSound db)
    (whole : (p : ℤ) → user_profit ≡ finite p → IsWhole deal_id p db) where
  abbrev Ended : Settlement → Db → Type 0
  Ended s db' =
      ReplaysSettlement deal_id db s db'
      ⊎ SettlesShares user_id merchant_id amount merchant_amount user_profit deal_id actor db s db'

  Stops-here : (e : Error) → IsExpected e → Stops db e db
  Stops-here e x = (inl refl, x)

  module _ (a m p : ℤ) (ea : amount ≡ finite a) (em : merchant_amount ≡ finite m)
      (ep : user_profit ≡ finite p) (pa : pos 1 ≤ℤ a) (pm : pos 1 ≤ℤ m) (pp : pos 0 ≤ℤ p)
      (within : m +ℤ p ≤ℤ a) where
    abbrev lookups : Action Settlement
    lookups = do
      user_existing ← get_by_reference (Ledger.Reference.deal deal_id) deal_settlement
      merchant_existing ← get_by_reference (Ledger.Reference.deal deal_id) deal_settlement_credit
      profit_existing ← get_by_reference (Ledger.Reference.deal deal_id) deal_user_profit
      or_settled p user_existing merchant_existing profit_existing
          (settle_movements user_id merchant_id a m p deal_id actor)

    fresh :
        IsUnsettled deal_id db
        → EndsBy (Stops db) Ended (settle_movements user_id merchant_id a m p deal_id actor db)
    fresh unsettled =
        EndsBy-weaken (Stops db) (Stops db) (Settles user_id merchant_id a m p deal_id actor db)
          Ended (settle_movements user_id merchant_id a m p deal_id actor db) (λ e db' h. h)
          (λ s db' h. inr (a, m, p, ea, em, ep, pa, pm, pp, within, h))
          (settle_movements-Settles user_id merchant_id a m p deal_id actor db sound unsettled pa pm
            pp)

    -- The share is zero or its row is found, so the early return is taken.
    returns_early :
        (z : Option LedgerEntry)
        → Selected
            (select (has_reference (Ledger.Reference.deal deal_id) deal_user_profit) db.ledger)
            z
        → IsSettled deal_id p db
        → (eqb_ℤ p (pos 0) || is_some z) ≡ true
    returns_early none hz h = ground arith
    returns_early (some q) hz h = ground arith

    or_settled-Ended :
        (x y z : Option LedgerEntry)
        → Selected
            (select (has_reference (Ledger.Reference.deal deal_id) deal_settlement) db.ledger)
            x
        → Selected
            (select
              (has_reference (Ledger.Reference.deal deal_id) deal_settlement_credit)
              db.ledger)
            y
        → Selected
            (select (has_reference (Ledger.Reference.deal deal_id) deal_user_profit) db.ledger)
            z
        → IsWhole deal_id p db
        → EndsBy
            (Stops db)
            Ended
            (or_settled p x y z (settle_movements user_id merchant_id a m p deal_id actor) db)
    or_settled-Ended none y z hx hy hz (inl unsettled) = fresh unsettled
    or_settled-Ended none y z hx hy hz (inr settled) = absurd (let q = settled.2 in cc)
    or_settled-Ended (some u) none z hx hy hz (inl unsettled) = absurd (let q = unsettled.0 in cc)
    or_settled-Ended (some u) none z hx hy hz (inr settled) = absurd (let q = settled.3 in cc)
    or_settled-Ended (some u) (some c) z hx hy hz (inl unsettled) =
        absurd (let q = unsettled.0 in cc)
    or_settled-Ended (some u) (some c) z hx hy hz (inr settled) =
        rw (returns_early z hz settled) (inl (refl, hx, hy, hz))

    lookups-Ended : EndsBy (Stops db) Ended (lookups db)
    lookups-Ended =
        EndsBy-Reads (Stops db) Ended db
          (Selected (select (has_reference deal_ref deal_settlement) db.ledger)) with_user
          Stops-here (get_by_reference deal_ref deal_settlement)
          (Reads-get_by_reference db deal_ref deal_settlement sound)
          λ x hx.
            EndsBy-Reads (Stops db) Ended db
              (Selected (select (has_reference deal_ref deal_settlement_credit) db.ledger))
              (with_merchant x) Stops-here (get_by_reference deal_ref deal_settlement_credit)
              (Reads-get_by_reference db deal_ref deal_settlement_credit sound)
              λ y hy.
                EndsBy-Reads (Stops db) Ended db
                  (Selected (select (has_reference deal_ref deal_user_profit) db.ledger))
                  (λ z. or_settled p x y z rest) Stops-here
                  (get_by_reference deal_ref deal_user_profit)
                  (Reads-get_by_reference db deal_ref deal_user_profit sound)
                  (λ z hz. or_settled-Ended x y z hx hy hz (whole p ep))
      where
        deal_ref : Reference
        deal_ref = Ledger.Reference.deal deal_id

        rest : Action Settlement
        rest = settle_movements user_id merchant_id a m p deal_id actor

        with_merchant : Option LedgerEntry → Option LedgerEntry → Action Settlement
        with_merchant x y =
            get_by_reference deal_ref deal_user_profit >>= λ z. or_settled p x y z rest

        with_user : Option LedgerEntry → Action Settlement
        with_user x = get_by_reference deal_ref deal_settlement_credit >>= with_merchant x

  -- From a sound session in which the deal is settled with this share or not at all, settle_deal
  -- raises an expected exception, and then nothing is written unless a balance passes its column's
  -- limit; or it returns the rows of the settlement that is on record, the user's share
  -- included, and writes nothing; or the amount, the
  -- merchant's share and the user's share are finite, the first two are positive, the shares do not
  -- exceed the amount, and the three movements of a settlement are made, in order.
  pub settle_deal_lem :
      EndsBy
        (Stops db)
        (λ s db'.
          ReplaysSettlement deal_id db s db'
          ⊎ SettlesShares user_id merchant_id amount merchant_amount user_profit deal_id actor db s
              db')
        (settle_deal user_id merchant_id amount merchant_amount user_profit deal_id actor db)
  unfolding settle_deal
  settle_deal_lem =
      EndsBy-Reads (Stops db) Ended db (λ a. (amount ≡ finite a) × (pos 1 ≤ℤ a))
        (λ a. positive merchant_amount >>= with_merchant a) Stops-here (positive amount)
        (Reads-positive db amount)
        λ a ha.
          EndsBy-Reads (Stops db) Ended db (λ m. (merchant_amount ≡ finite m) × (pos 1 ≤ℤ m))
            (with_merchant a) Stops-here (positive merchant_amount)
            (Reads-positive db merchant_amount)
            λ m hm.
              EndsBy-Reads (Stops db) Ended db (λ p. (user_profit ≡ finite p) × (pos 0 ≤ℤ p))
                (with_profit a m) Stops-here (non_negative user_profit)
                (Reads-non_negative db user_profit)
                λ p hp.
                  EndsBy-Reads (Stops db) Ended db (λ _. ltb_ℤ a (m +ℤ p) ≡ false)
                    (λ _. lookups_of a m p) Stops-here (raise_if (ltb_ℤ a (m +ℤ p)) invalid_amount)
                    (Reads-raise_if db (ltb_ℤ a (m +ℤ p)) invalid_amount tt)
                    (λ _ within. lookups-Ended a m p ha.0 hm.0 hp.0 ha.1 hm.1 hp.1 (ground arith))
    where
      lookups_of : ℤ → ℤ → ℤ → Action Settlement
      lookups_of a m p = do
        user_existing ← get_by_reference (Ledger.Reference.deal deal_id) deal_settlement
        merchant_existing ← get_by_reference (Ledger.Reference.deal deal_id) deal_settlement_credit
        profit_existing ← get_by_reference (Ledger.Reference.deal deal_id) deal_user_profit
        or_settled p user_existing merchant_existing profit_existing
            (settle_movements user_id merchant_id a m p deal_id actor)

      with_profit : ℤ → ℤ → ℤ → Action Settlement
      with_profit a m p = raise_if (ltb_ℤ a (m +ℤ p)) invalid_amount >> lookups_of a m p

      with_merchant : ℤ → ℤ → Action Settlement
      with_merchant a m = non_negative user_profit >>= with_profit a m
