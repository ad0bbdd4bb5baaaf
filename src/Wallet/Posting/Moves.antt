-- ===== src/Wallet/Posting/Moves.antt =====
-- The rule for the body of a method that locks one wallet, tests it, and posts one movement.
use gigveyro.Common.{ℕ, ◌≡◌, ◌∙◌, ap, Bool, false, Option, some, ◌⊎◌}
use gigveyro.Common.Int.{ℤ, pos, ◌≤ℤ◌}
use gigveyro.Common.Table.{find-key, All-find}
use gigveyro.Models.Wallet.{Decimal, finite, UserWallet, MerchantWallet, wallet_key, merchant_key}
use gigveyro.Models.Ledger.{LedgerEntry, LedgerEntryType, BalanceBucket, Reference}
use gigveyro.Db.{Db, Action, Error, ◌>>=◌, ◌>>◌, raise_if}
use gigveyro.Db.Queries.{find_wallet, find_merchant}
use gigveyro.Wallet.Common.{
  positive, lock_wallet, lock_merchant, once, user_entry, merchant_entry, post_wallet,
  post_merchant,
}
use gigveyro.Wallet.Posting.{
  IsFunded, IsCovered, IsSound, PostsUser, PostsMerchant, IsExpected, Ends,
}
use gigveyro.Wallet.Posting.Rules.{
  Ends-weaken, Ends-positive, Ends-raise_if, Ends-lock_wallet, Ends-lock_merchant, Ends-once,
  Replays,
}
use gigveyro.Wallet.Posting.Flushes.{Ends-post_wallet, Ends-post_merchant}

module _ (db : Db) (sound : IsSound db) (id : ℕ) where
  pub found_at :
      (w : UserWallet) → find_wallet id db ≡ some w → find_wallet w.account_id db ≡ some w
  found_at w e = ap (λ k. find_wallet k db) (find-key wallet_key id db.wallets w e) ∙ e

  pub found-IsFunded : (w : UserWallet) → find_wallet id db ≡ some w → IsFunded w
  found-IsFunded w = All-find wallet_key IsFunded id db.wallets w sound.users

  pub merchant_found_at :
      (w : MerchantWallet) → find_merchant id db ≡ some w → find_merchant w.account_id db ≡ some w
  merchant_found_at w e =
      ap (λ k. find_merchant k db) (find-key merchant_key id db.merchant_wallets w e) ∙ e

  pub found-IsCovered : (w : MerchantWallet) → find_merchant id db ≡ some w → IsCovered w
  found-IsCovered w = All-find merchant_key IsCovered id db.merchant_wallets w sound.merchants

-- The effect of a movement: the amount is positive, and the wallet of the account is moved, with
-- the row that the method writes.
module _ (id : ℕ) (t : LedgerEntryType) (bucket : BalanceBucket) (written : ℤ → ℤ) (ref : Reference)
    (creator : Option ℕ) (amount : Decimal) where
  abbrev pub MovesUser : (ℤ → UserWallet → UserWallet) → Db → LedgerEntry → Db → Type 0
  MovesUser move db e db' =
      (a : ℤ) × (w : UserWallet) × (amount ≡ finite a)
      × (pos 1 ≤ℤ a)
      × (find_wallet id db ≡ some w)
      × PostsUser w (move a w) e db db'
      × (e ≡ user_entry t bucket (written a) ref creator w (move a w))

  abbrev pub MovesMerchant : (ℤ → MerchantWallet → MerchantWallet) → Db → LedgerEntry → Db → Type 0
  MovesMerchant move db e db' =
      (a : ℤ) × (w : MerchantWallet) × (amount ≡ finite a)
      × (pos 1 ≤ℤ a)
      × (find_merchant id db ≡ some w)
      × PostsMerchant w (move a w) e db db'
      × (e ≡ merchant_entry t bucket (written a) ref creator w (move a w))

  module _ (error : Error) (expected : IsExpected error) (db : Db) (sound : IsSound db) where
    abbrev user_rest :
        (ℤ → UserWallet → Bool)
        → (ℤ → UserWallet → UserWallet)
        → ℤ
        → UserWallet
        → Action LedgerEntry
    user_rest short move a w = do
      raise_if (short a w) error
      post_wallet t bucket (written a) ref creator w (move a w)

    abbrev user_body :
        (ℤ → UserWallet → Bool) → (ℤ → UserWallet → UserWallet) → ℤ → Action LedgerEntry
    user_body short move a = lock_wallet id >>= user_rest short move a

    pub Ends-move_user :
        (short : ℤ → UserWallet → Bool) (move : ℤ → UserWallet → UserWallet)
        → ((a : ℤ) (w : UserWallet) → (move a w).account_id ≡ w.account_id)
        → ((a : ℤ) (w : UserWallet)
            → pos 1 ≤ℤ a
            → short a w ≡ false
            → IsFunded w
            → IsFunded (move a w))
        → Ends
            (λ e db'. Replays ref t db e db' ⊎ MovesUser move db e db')
            db
            ((positive amount >>= λ a. once ref t (user_body short move a)) db)
    Ends-move_user short move same keeps =
        Ends-positive (λ e db'. Replays ref t db e db' ⊎ MovesUser move db e db') db amount
          (λ a. once ref t (user_body short move a))
          λ a ea pa. Ends-once (MovesUser move db) db sound ref t (user_body short move a) λ new.
            Ends-lock_wallet (MovesUser move db) db id (user_rest short move a) λ w ew.
              Ends-raise_if (MovesUser move db) db (short a w) error
                (post_wallet t bucket (written a) ref creator w (move a w)) expected
                λ enough.
                  Ends-weaken
                    (λ e db'.
                      PostsUser w (move a w) e db db'
                      × (e ≡ user_entry t bucket (written a) ref creator w (move a w)))
                    (MovesUser move db) db
                    (post_wallet t bucket (written a) ref creator w (move a w) db)
                    (λ e db' p. (a, w, ea, pa, ew, p.0, p.1))
                    (Ends-post_wallet t bucket (written a) ref creator db new w (move a w)
                      (found_at db sound id w ew) (same a w)
                      (keeps a w pa enough (found-IsFunded db sound id w ew)))

    abbrev merchant_rest :
        (ℤ → MerchantWallet → Bool)
        → (ℤ → MerchantWallet → MerchantWallet)
        → ℤ
        → MerchantWallet
        → Action LedgerEntry
    merchant_rest short move a w = do
      raise_if (short a w) error
      post_merchant t bucket (written a) ref creator w (move a w)

    abbrev merchant_body :
        (ℤ → MerchantWallet → Bool) → (ℤ → MerchantWallet → MerchantWallet) → ℤ → Action LedgerEntry
    merchant_body short move a = lock_merchant id >>= merchant_rest short move a

    pub Ends-move_merchant :
        (short : ℤ → MerchantWallet → Bool) (move : ℤ → MerchantWallet → MerchantWallet)
        → ((a : ℤ) (w : MerchantWallet) → (move a w).account_id ≡ w.account_id)
        → ((a : ℤ) (w : MerchantWallet)
            → pos 1 ≤ℤ a
            → short a w ≡ false
            → IsCovered w
            → IsCovered (move a w))
        → Ends
            (λ e db'. Replays ref t db e db' ⊎ MovesMerchant move db e db')
            db
            ((positive amount >>= λ a. once ref t (merchant_body short move a)) db)
    Ends-move_merchant short move same keeps =
        Ends-positive (λ e db'. Replays ref t db e db' ⊎ MovesMerchant move db e db') db amount
          (λ a. once ref t (merchant_body short move a))
          λ a ea pa.
            Ends-once (MovesMerchant move db) db sound ref t (merchant_body short move a) λ new.
              Ends-lock_merchant (MovesMerchant move db) db id (merchant_rest short move a) λ w ew.
                Ends-raise_if (MovesMerchant move db) db (short a w) error
                  (post_merchant t bucket (written a) ref creator w (move a w)) expected
                  λ enough.
                    Ends-weaken
                      (λ e db'.
                        PostsMerchant w (move a w) e db db'
                        × (e ≡ merchant_entry t bucket (written a) ref creator w (move a w)))
                      (MovesMerchant move db) db
                      (post_merchant t bucket (written a) ref creator w (move a w) db)
                      (λ e db' p. (a, w, ea, pa, ew, p.0, p.1))
                      (Ends-post_merchant t bucket (written a) ref creator db new w (move a w)
                        (merchant_found_at db sound id w ew) (same a w)
                        (keeps a w pa enough (found-IsCovered db sound id w ew)))
