-- ===== src/Wallet/MerchantRoundTrips.antt =====
-- A merchant's withdrawal: what is held is paid out.
use gigveyro.Common.{ℕ, ◌≡◌, refl, sym, ap, ◌∙◌, Bool, true, false, Option, some, [], ◌∷◌, arith}
use gigveyro.Common.Int.{ℤ, pos, neg, ◌+ℤ◌, ◌-ℤ◌, ◌≤ℤ◌, ltb_ℤ, int_laws}
use gigveyro.Common.Table.{put, find-key, find-put_self}
use gigveyro.Models.Wallet.{finite, MerchantWallet, merchant_key, in_range_merchant}
use gigveyro.Models.Ledger
use gigveyro.Models.Ledger.{
  LedgerEntry, LedgerEntryType, BalanceBucket, Reference, type_code, withdrawal_hold,
  withdrawal_paid, held,
}
use gigveyro.Db.{Db, ok, ◌>>=◌, ◌>>◌, raise_if, insufficient_balance}
use gigveyro.Db.Queries.{find_merchant, has_reference, select, get_by_reference, scalar}
use gigveyro.Wallet.Common.{positive, once, lock_merchant, post_merchant, merchant_entry}
use gigveyro.Wallet.Posting.{IsSound, IsCovered}
use gigveyro.Wallet.Posting.Effects.{select-other_type}
use gigveyro.Wallet.Posting.Moves.{found-IsCovered}
use gigveyro.Wallet.Posting.Flushes.{post_merchant_fits}
use gigveyro.Wallet.Withdrawals.{hold_for_withdrawal, pay_withdrawal}
use gigveyro.Wallet.Withdrawals.Outcome.{hold, pay_out}

-- The session after a posting of a merchant wallet.
abbrev pub posted_merchant : MerchantWallet → LedgerEntry → Db → Db
posted_merchant w e db = record db {
  merchant_wallets = put merchant_key w db.merchant_wallets;
  ledger = e ∷ db.ledger;
}

module _ (t : LedgerEntryType) (bucket : BalanceBucket) (written : ℤ → ℤ) (ref : Reference)
    (creator : Option ℕ) (a : ℤ) (pa : pos 1 ≤ℤ a) (id : ℕ) (db : Db)
    (new : select (has_reference ref t) db.ledger ≡ []) where
  succeeds_merchant :
      (w : MerchantWallet) (short : ℤ → MerchantWallet → Bool)
      (change : ℤ → MerchantWallet → MerchantWallet)
      → find_merchant id db ≡ some w
      → short a w ≡ false
      → IsCovered (change a w)
      → in_range_merchant (change a w) ≡ true
      → (positive (finite a) >>= λ x. once ref t (
            lock_merchant id >>= λ u.
            raise_if (short x u) insufficient_balance
            >> post_merchant t bucket (written x) ref creator u (change x u)))
          db
        ≡ (
          ok (merchant_entry t bucket (written a) ref creator w (change a w)),
          posted_merchant
              (change a w)
              (merchant_entry t bucket (written a) ref creator w (change a w))
              db,
        )
  unfolding get_by_reference scalar
  succeeds_merchant w short change found enough covered fits = ground (
    arith,
    new,
    found,
    enough,
    post_merchant_fits t bucket (written a) ref creator db new w (change a w) covered fits,
  )

found_posted_merchant :
    (id : ℕ) (db : Db) (w w' : MerchantWallet) (e : LedgerEntry)
    → find_merchant id db ≡ some w
    → w'.account_id ≡ w.account_id
    → find_merchant id (posted_merchant w' e db) ≡ some w'
found_posted_merchant id db w w' e found same =
    let key : w.account_id ≡ id = find-key merchant_key id db.merchant_wallets w found in
    ap (λ k. find_merchant k (posted_merchant w' e db)) (sym key ∙ sym same)
    ∙ find-put_self merchant_key w' db.merchant_wallets w
        (ap (λ k. find_merchant k db) (same ∙ key) ∙ found)

module _ (id : ℕ) (a : ℤ) (pa : pos 1 ≤ℤ a) (db : Db) (sound : IsSound db) (w : MerchantWallet)
    (found : find_merchant id db ≡ some w) (enough : a ≤ℤ w.available_balance)
    (held_fits : in_range_merchant (hold a w) ≡ true) (withdrawal_id actor_id : ℕ)
    (new : select
        (has_reference (Ledger.Reference.withdrawal withdrawal_id) withdrawal_hold)
        db.ledger
      ≡ [])
    (new_paid : select
        (has_reference (Ledger.Reference.withdrawal withdrawal_id) withdrawal_paid)
        db.ledger
      ≡ []) where
  abbrev hold_row : LedgerEntry
  hold_row =
      merchant_entry withdrawal_hold held a (Ledger.Reference.withdrawal withdrawal_id) (some id) w
        (hold a w)

  abbrev paid_row : LedgerEntry
  paid_row =
      merchant_entry withdrawal_paid held (neg a) (Ledger.Reference.withdrawal withdrawal_id)
        (some actor_id) (hold a w) (pay_out a (hold a w))

  abbrev held_db : Db
  held_db = posted_merchant (hold a w) hold_row db

  abbrev paid_db : Db
  paid_db = posted_merchant (pay_out a (hold a w)) paid_row held_db

  abbrev spent : MerchantWallet
  spent = record w { available_balance = w.available_balance -ℤ a }

  pay_out-hold : pay_out a (hold a w) ≡ spent
  pay_out-hold = rw (forth w.held_balance) refl
    where
      forth : (b : ℤ) → (b +ℤ a) -ℤ a ≡ b
      forth b = grind int_laws

  pay_new :
      select
        (has_reference (Ledger.Reference.withdrawal withdrawal_id) withdrawal_paid)
        held_db.ledger
      ≡ []
  unfolding merchant_entry
  pay_new =
      select-other_type (Ledger.Reference.withdrawal withdrawal_id) withdrawal_paid hold_row
        db.ledger (omega arith)
      ∙ new_paid

  held_covers : (u : MerchantWallet) → u ≡ hold a w → ltb_ℤ u.held_balance a ≡ false
  held_covers u same =
      let h = found-IsCovered db sound id w found in
      let le : a ≤ℤ u.held_balance = grind int_laws in ground arith

  -- From a sound session, an amount of at least one unit that a merchant's available balance covers,
  -- and that leaves the balances in range, is held for a withdrawal with no row yet; the payment of
  -- the same amount then succeeds as well, and the wallet has lost exactly the amount, from its
  -- available balance.
  pub hold_for_withdrawal-pay_withdrawal :
      in_range_merchant spent ≡ true
      → (hold_for_withdrawal id (finite a) withdrawal_id db ≡ (ok hold_row, held_db))
        × (pay_withdrawal id (finite a) withdrawal_id actor_id held_db ≡ (ok paid_row, paid_db))
        × (find_merchant id paid_db ≡ some spent)
  unfolding hold_for_withdrawal pay_withdrawal
  hold_for_withdrawal-pay_withdrawal spent_fits =
      let there : find_merchant id held_db ≡ some (hold a w) =
        found_posted_merchant id db w (hold a w) hold_row found refl in
      (
        succeeds_merchant withdrawal_hold held (λ x. x) (Ledger.Reference.withdrawal withdrawal_id)
            (some id) a pa id db new w (λ x u. ltb_ℤ u.available_balance x) hold found
            (ground arith) (let h = found-IsCovered db sound id w found in grind int_laws)
            held_fits,
        succeeds_merchant withdrawal_paid held neg (Ledger.Reference.withdrawal withdrawal_id)
            (some actor_id) a pa id held_db pay_new (hold a w) (λ x u. ltb_ℤ u.held_balance x)
            pay_out there (held_covers (hold a w) refl)
            (let h = found-IsCovered db sound id w found in grind int_laws)
            (ap in_range_merchant pay_out-hold ∙ spent_fits),
        found_posted_merchant id held_db (hold a w) (pay_out a (hold a w)) paid_row there refl
            ∙ ap some pay_out-hold,
      )
