-- ===== src/Common/Table.antt =====
-- A database table as the list of its rows, read and written through a unique column.
use Prim.Native.Nat.{ℕ}
use mathlib.Core.Path.{◌≡◌, refl, subst}
use mathlib.Core.Logic.{◌≢◌, inl, inr}
use mathlib.Core.Option.{Option, none, some}
use mathlib.Core.List.{List, [], ◌∷◌}
use native.Mathlib.Omega.{arith}
use gigveyro.Common.Tests.{◌==◌, Bool-cases, if◌then◌else◌}
use gigveyro.Common.Int.{ℤ, pos, ◌+ℤ◌, int_laws}

abbrev pub All {ℓ κ} : {A : Type ℓ} → (A → Type κ) → List A → Type κ
All P [] = Unit
All P (x ∷ xs) = P x × All P xs

-- The sum of a column.
unfoldable pub sum_by {ℓ} : {A : Type ℓ} → (A → ℤ) → List A → ℤ
sum_by f [] = pos 0
sum_by f (x ∷ xs) = f x +ℤ sum_by f xs

module _ {ℓ} {A : Type ℓ} (key : A → ℕ) where
  -- `select(T).where(T.key == k)` on a unique column
  unfoldable pub find : ℕ → List A → Option A
  find k [] = none
  find k (r ∷ rows) = if key r == k then some r else find k rows

  -- The flush of a changed row object.
  unfoldable pub put : A → List A → List A
  put r' [] = []
  put r' (r ∷ rows) = if key r == key r' then r' ∷ rows else r ∷ put r' rows

  pub find-key : (k : ℕ) (rows : List A) (r : A) → find k rows ≡ some r → key r ≡ k
  unfolding find
  find-key k [] r h = cc
  find-key k (x ∷ rows) r h = ground (arith, find-key k rows r)

  -- A new row is found first, and hides no row under another key.
  pub find-first : (k : ℕ) (r : A) (rows : List A) → key r ≡ k → find k (r ∷ rows) ≡ some r
  unfolding find
  find-first k r rows h = ground (arith, h)

  pub find-other : (k : ℕ) (r : A) (rows : List A) → key r ≢ k → find k (r ∷ rows) ≡ find k rows
  unfolding find
  find-other k r rows h = ground (arith, h)

  pub find-put_self :
      (r' : A) (rows : List A) (r : A)
      → find (key r') rows ≡ some r
      → find (key r') (put r' rows) ≡ some r'
  unfolding find put
  find-put_self r' [] r h = cc
  find-put_self r' (x ∷ rows) r h = elim (Bool-cases (key x == key r')) [
    | inl same ↦ rw same (ground arith)
    | inr other ↦ rw other (rw other (find-put_self r' rows r (rw other at h)))
  ]

  pub find-put_ne :
      (k : ℕ) (r' : A) (rows : List A) → key r' ≢ k → find k (put r' rows) ≡ find k rows
  unfolding find put
  find-put_ne k r' [] h = refl
  find-put_ne k r' (x ∷ rows) h = elim (Bool-cases (key x == key r')) [
    | inl same ↦ rw same (ground arith)
    | inr other ↦ rw other (ground (arith, find-put_ne k r' rows h))
  ]

  pub put-put :
      (r' r'' : A) (rows : List A) → key r'' ≡ key r' → put r'' (put r' rows) ≡ put r'' rows
  unfolding put
  put-put r' r'' [] same = refl
  put-put r' r'' (x ∷ rows) same = elim (Bool-cases (key x == key r')) [
    | inl here ↦ rw here (ground (arith, here, same))
    | inr other ↦ rw other (ground (arith, other, same, put-put r' r'' rows same))
  ]

  pub put-first : (r' r : A) (rows : List A) → key r ≡ key r' → put r' (r ∷ rows) ≡ r' ∷ rows
  unfolding put
  put-first r' r rows same = ground (arith, same)

  pub sum_by-put :
      (f : A → ℤ) (r' : A) (rows : List A) (r : A)
      → find (key r') rows ≡ some r
      → sum_by f (put r' rows) +ℤ f r ≡ sum_by f rows +ℤ f r'
  unfolding find put sum_by
  sum_by-put f r' [] r h = cc
  sum_by-put f r' (x ∷ rows) r h = elim (Bool-cases (key x == key r')) [
    | inl same ↦ let e : x ≡ r = cc (rw same at h) in rw (same, ← e) (omega int_laws)
    | inr other ↦ rw other (grind (int_laws, sum_by-put f r' rows r (rw other at h)))
  ]

  pub All-put {κ} :
      (P : A → Type κ) (r' : A) (rows : List A) → P r' → All P rows → All P (put r' rows)
  unfolding put
  All-put P r' [] p h = tt
  All-put P r' (x ∷ rows) p h = elim (Bool-cases (key x == key r')) [
    | inl same ↦ rw same (p, h.1)
    | inr other ↦ rw other (h.0, All-put P r' rows p h.1)
  ]

  pub All-find {κ} :
      (P : A → Type κ) (k : ℕ) (rows : List A) (r : A) → All P rows → find k rows ≡ some r → P r
  unfolding find
  All-find P k [] r h e = absurd (cc)
  All-find P k (x ∷ rows) r h e = elim (Bool-cases (key x == k)) [
    | inl same ↦ let q : x ≡ r = cc (rw same at e) in subst P q h.0
    | inr other ↦ All-find P k rows r h.1 (rw other at e)
  ]
