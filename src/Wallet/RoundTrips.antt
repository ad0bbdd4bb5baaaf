-- ===== src/Wallet/RoundTrips.antt =====
-- Movements that succeed, and those that undo one another: what is frozen or held comes back, or is
-- paid out.
use mathlib.Core.Path.{subst}
use gigveyro.Common.{ℕ, ◌≡◌, refl, sym, ap, ◌∙◌, Bool, true, false, Option, some, [], ◌∷◌, arith}
use gigveyro.Common.Int.{ℤ, pos, neg, ◌+ℤ◌, ◌-ℤ◌, ◌≤ℤ◌, ltb_ℤ, int_laws}
use gigveyro.Common.Table.{put, find-key, find-put_self}
use gigveyro.Models.Wallet.{finite, UserWallet, wallet_key, in_range_user}
use gigveyro.Models.Ledger
use gigveyro.Models.Ledger.{
  LedgerEntry, LedgerEntryType, BalanceBucket, Reference, deal_freeze, deal_release, type_code,
  withdrawal_hold, withdrawal_release, withdrawal_paid, available, frozen, held,
}
use gigveyro.Db.{Db, ok, ◌>>=◌, ◌>>◌, raise_if, insufficient_balance}
use gigveyro.Db.Queries.{find_wallet, has_reference, select, get_by_reference, scalar}
use gigveyro.Wallet.Common.{user_row, positive, once, lock_wallet, post_wallet, user_entry}
use gigveyro.Wallet.Deals.{freeze_for_deal, release_for_deal, deducted}
use gigveyro.Wallet.Withdrawals.{hold_for_user_withdrawal, pay_for_user_withdrawal}
use gigveyro.Wallet.Deals.Outcome.{freeze, unfreeze}
use gigveyro.Wallet.Posting.{IsSound, IsFunded}
use gigveyro.Wallet.Posting.Effects.{select-other_type}
use gigveyro.Wallet.Posting.Moves.{found-IsFunded}
use gigveyro.Wallet.Posting.Flushes.{post_wallet_fits}

-- The session after a posting of a user wallet.
abbrev pub posted_user : UserWallet → LedgerEntry → Db → Db
posted_user w e db = record db { wallets = put wallet_key w db.wallets; ledger = e ∷ db.ledger }

module _ (t : LedgerEntryType) (bucket : BalanceBucket) (written : ℤ → ℤ) (ref : Reference)
    (creator : Option ℕ) (a : ℤ) (pa : pos 1 ≤ℤ a) (id : ℕ) (db : Db)
    (new : select (has_reference ref t) db.ledger ≡ []) where
  -- A method of one movement posts it, when its guards hold and the new balances are in range.
  pub succeeds_user :
      (w : UserWallet) (short : ℤ → UserWallet → Bool) (change : ℤ → UserWallet → UserWallet)
      → find_wallet id db ≡ some w
      → short a w ≡ false
      → IsFunded (change a w)
      → in_range_user (change a w) ≡ true
      → (positive (finite a) >>= λ x. once ref t (
            lock_wallet id >>= λ u.
            raise_if (short x u) insufficient_balance
            >> post_wallet t bucket (written x) ref creator u (change x u)))
          db
        ≡ (
          ok (user_entry t bucket (written a) ref creator w (change a w)),
          posted_user (change a w) (user_entry t bucket (written a) ref creator w (change a w)) db,
        )
  unfolding get_by_reference scalar
  succeeds_user w short change found enough funded fits = ground (
    arith,
    new,
    found,
    enough,
    post_wallet_fits t bucket (written a) ref creator db new w (change a w) funded fits,
  )

found_posted :
    (id : ℕ) (db : Db) (w w' : UserWallet) (e : LedgerEntry)
    → find_wallet id db ≡ some w
    → w'.account_id ≡ w.account_id
    → find_wallet id (posted_user w' e db) ≡ some w'
found_posted id db w w' e found same =
    let key : w.account_id ≡ id = find-key wallet_key id db.wallets w found in
    ap (λ k. find_wallet k (posted_user w' e db)) (sym key ∙ sym same)
    ∙ find-put_self wallet_key w' db.wallets w (ap (λ k. find_wallet k db) (same ∙ key) ∙ found)

unfreeze-freeze : (a : ℤ) (w : UserWallet) → unfreeze a (freeze a w) ≡ w
unfreeze-freeze a w = rw (back w.available_balance, forth w.frozen_balance) refl
  where
    back : (b : ℤ) → (b -ℤ a) +ℤ a ≡ b
    back b = grind int_laws

    forth : (b : ℤ) → (b +ℤ a) -ℤ a ≡ b
    forth b = grind int_laws

-- A wallet that the session has, with enough on its available balance.
module _ (id : ℕ) (a : ℤ) (pa : pos 1 ≤ℤ a) (db : Db) (sound : IsSound db) (w : UserWallet)
    (found : find_wallet id db ≡ some w) (enough : a ≤ℤ w.available_balance)
    (fits : in_range_user w ≡ true) (frozen_fits : in_range_user (freeze a w) ≡ true) where
  frozen-IsFunded : IsFunded (freeze a w)
  frozen-IsFunded = let h = found-IsFunded db sound id w found in grind int_laws

  covers : (u : UserWallet) → u ≡ freeze a w → ltb_ℤ u.frozen_balance a ≡ false
  covers u same =
      let h = found-IsFunded db sound id w found in
      let le : a ≤ℤ u.frozen_balance = grind int_laws in ground arith

  module _ (deal_id : ℕ)
      (new : select (has_reference (Ledger.Reference.deal deal_id) deal_freeze) db.ledger ≡ [])
      (new_release : select (has_reference (Ledger.Reference.deal deal_id) deal_release) db.ledger
        ≡ []) where
    abbrev freeze_row : LedgerEntry
    freeze_row =
        user_entry deal_freeze frozen a (Ledger.Reference.deal deal_id) (some id) w (freeze a w)

    abbrev release_row : LedgerEntry
    release_row =
        user_entry deal_release available a (Ledger.Reference.deal deal_id) (some id) (freeze a w)
          (unfreeze a (freeze a w))

    freeze_succeeds :
        freeze_for_deal id (finite a) deal_id db
        ≡ (ok freeze_row, posted_user (freeze a w) freeze_row db)
    unfolding freeze_for_deal
    freeze_succeeds =
        succeeds_user deal_freeze frozen (λ x. x) (Ledger.Reference.deal deal_id) (some id) a pa id
          db new w (λ x u. ltb_ℤ u.available_balance x) freeze found (ground arith) frozen-IsFunded
          frozen_fits

    -- The session after the freeze, and after the release.
    abbrev frozen_db : Db
    frozen_db = posted_user (freeze a w) freeze_row db

    abbrev released_db : Db
    released_db = posted_user (unfreeze a (freeze a w)) release_row frozen_db

    still_new :
        select (has_reference (Ledger.Reference.deal deal_id) deal_release) frozen_db.ledger ≡ []
    unfolding user_entry user_row
    still_new =
        select-other_type (Ledger.Reference.deal deal_id) deal_release freeze_row db.ledger
          (omega arith)
        ∙ new_release

    release_succeeds :
        release_for_deal id (finite a) deal_id frozen_db ≡ (ok release_row, released_db)
    unfolding release_for_deal
    release_succeeds =
        succeeds_user deal_release available (λ x. x) (Ledger.Reference.deal deal_id) (some id) a pa
          id frozen_db still_new (freeze a w) (λ x u. ltb_ℤ u.frozen_balance x) unfreeze
          (found_posted id db w (freeze a w) freeze_row found refl) (covers (freeze a w) refl)
          (subst IsFunded (sym (unfreeze-freeze a w)) (found-IsFunded db sound id w found))
          (ap in_range_user (unfreeze-freeze a w) ∙ fits)

    -- From a sound session, an amount of at least one unit that the available balance covers, and
    -- that leaves the balances in range, is frozen for a deal with no row yet; the release of the
    -- same amount then succeeds as well, and the wallet is as it was.
    pub freeze_for_deal-release_for_deal :
        (freeze_for_deal id (finite a) deal_id db ≡ (ok freeze_row, frozen_db))
        × (release_for_deal id (finite a) deal_id frozen_db ≡ (ok release_row, released_db))
        × (find_wallet id frozen_db ≡ some (freeze a w))
        × (find_wallet id released_db ≡ some w)
    freeze_for_deal-release_for_deal = (
      freeze_succeeds,
      release_succeeds,
      found_posted id db w (freeze a w) freeze_row found refl,
      found_posted id frozen_db (freeze a w) (unfreeze a (freeze a w)) release_row
            (found_posted id db w (freeze a w) freeze_row found refl) refl
          ∙ ap some (unfreeze-freeze a w),
    )

  -- A user's withdrawal: hold, then payment.
  module _ (withdrawal_id actor_id : ℕ)
      (new : select
          (has_reference (Ledger.Reference.withdrawal withdrawal_id) withdrawal_hold)
          db.ledger
        ≡ [])
      (new_paid : select
          (has_reference (Ledger.Reference.withdrawal withdrawal_id) withdrawal_paid)
          db.ledger
        ≡ []) where
    abbrev hold_row : LedgerEntry
    hold_row =
        user_entry withdrawal_hold frozen a (Ledger.Reference.withdrawal withdrawal_id) (some id) w
          (freeze a w)

    abbrev paid_row : LedgerEntry
    paid_row =
        user_entry withdrawal_paid frozen (neg a) (Ledger.Reference.withdrawal withdrawal_id)
          (some actor_id) (freeze a w) (deducted (freeze a w) a)

    abbrev held_db : Db
    held_db = posted_user (freeze a w) hold_row db

    abbrev paid_db : Db
    paid_db = posted_user (deducted (freeze a w) a) paid_row held_db

    pay_new :
        select
          (has_reference (Ledger.Reference.withdrawal withdrawal_id) withdrawal_paid)
          held_db.ledger
        ≡ []
    unfolding user_entry user_row
    pay_new =
        select-other_type (Ledger.Reference.withdrawal withdrawal_id) withdrawal_paid hold_row
          db.ledger (omega arith)
        ∙ new_paid

    abbrev spent : UserWallet
    spent = record w { available_balance = w.available_balance -ℤ a }

    deducted-spent : deducted (freeze a w) a ≡ spent
    deducted-spent = rw (forth w.frozen_balance) refl
      where
        forth : (b : ℤ) → (b +ℤ a) -ℤ a ≡ b
        forth b = grind int_laws

    -- From a sound session, an amount of at least one unit that the available balance covers, and
    -- that leaves the balances in range, is held for a user's withdrawal with no row yet; the
    -- payment of the same amount then succeeds as well, and the wallet has lost exactly the amount,
    -- from its available balance.
    pub hold_for_user_withdrawal-pay_for_user_withdrawal :
        in_range_user spent ≡ true
        → (hold_for_user_withdrawal id (finite a) withdrawal_id db ≡ (ok hold_row, held_db))
          × (pay_for_user_withdrawal id (finite a) withdrawal_id actor_id held_db
              ≡ (ok paid_row, paid_db))
          × (find_wallet id paid_db ≡ some spent)
    unfolding hold_for_user_withdrawal pay_for_user_withdrawal
    hold_for_user_withdrawal-pay_for_user_withdrawal spent_fits = (
      succeeds_user withdrawal_hold frozen (λ x. x) (Ledger.Reference.withdrawal withdrawal_id)
          (some id) a pa id db new w (λ x u. ltb_ℤ u.available_balance x) freeze found
          (ground arith) frozen-IsFunded frozen_fits,
      succeeds_user withdrawal_paid frozen neg (Ledger.Reference.withdrawal withdrawal_id)
          (some actor_id) a pa id held_db pay_new (freeze a w) (λ x u. ltb_ℤ u.frozen_balance x)
          (λ x u. deducted u x) (found_posted id db w (freeze a w) hold_row found refl)
          (covers (freeze a w) refl) (let h = found-IsFunded db sound id w found in grind int_laws)
          (ap in_range_user deducted-spent ∙ spent_fits),
      found_posted id held_db (freeze a w) (deducted (freeze a w) a) paid_row
            (found_posted id db w (freeze a w) hold_row found refl) refl
          ∙ ap some deducted-spent,
    )
