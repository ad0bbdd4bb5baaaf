-- ===== src/Withdrawal/Address.antt =====
-- GIGVEYRO_Backend/app/services/payout_live/bybit.py: validate_tron_base58check. The hash function
-- of Python's hashlib is the parameter `sha256`, from bytes to bytes.
use mathlib.Core.Path.{subst, sym, ap, ◌∙◌}
use native.Mathlib.Nat.{pow-succ', mul_assoc}
use gigveyro.Common.{
  ℕ, ◌≡◌, ◌≢◌, ◌≤◌, ◌<◌, ◌+◌, ◌*◌, ◌-◌, ◌/◌, ◌%◌, ◌^◌, zero, suc, Bool, true, false, not, ◌&&◌,
  ◌||◌, ◌==◌, Option, none, some, List, [], ◌∷◌, leb, if◌then◌else◌, arith, Bool-cases,
  Option-cases, inl, inr,
}
use gigveyro.Models.Withdrawal.{Text}

unfoldable pub length : Text → ℕ
length [] = 0
length (c ∷ cs) = suc (length cs)

-- `_BASE58_ALPHABET.index(char)`: the digits without 0, the capitals without I and O, the small
-- letters without l.
unfoldable pub digit_of : ℕ → Option ℕ
digit_of c =
    if leb 49 c && leb c 57
    then some (c - 49)
    else if leb 65 c && leb c 72
    then some (c - 56)
    else if leb 74 c && leb c 78
    then some (c - 57)
    else if leb 80 c && leb c 90
    then some (c - 58)
    else if leb 97 c && leb c 107
    then some (c - 64)
    else if leb 109 c && leb c 122
    then some (c - 65)
    else none

-- `number = number * 58 + index`, over the characters.
unfoldable pub base58_value : ℕ → Text → Option ℕ
base58_value number [] = some number
base58_value number (c ∷ cs) = elim (digit_of c) [
  | none ↦ none
  | some d ↦ base58_value (number * 58 + d) cs
]

-- `number.to_bytes(count, "big")` for a number that fits.
unfoldable pub bytes_of : ℕ → ℕ → List ℕ
bytes_of zero number = []
bytes_of (suc count) number = number / 256 ^ count % 256 ∷ bytes_of count number

pub data AddressCheck : Type 0 where
  valid invalid overflows : AddressCheck

unfoldable pub take : ℕ → List ℕ → List ℕ
take zero l = []
take (suc n) [] = []
take (suc n) (x ∷ xs) = x ∷ take n xs

unfoldable pub drop : ℕ → List ℕ → List ℕ
drop zero l = l
drop (suc n) [] = []
drop (suc n) (x ∷ xs) = drop n xs

unfoldable pub eqb_bytes : List ℕ → List ℕ → Bool
eqb_bytes [] [] = true
eqb_bytes (x ∷ xs) (y ∷ ys) = let rest = eqb_bytes xs ys in x == y && rest
eqb_bytes _ _ = false

abbrev pub starts_with : ℕ → List ℕ → Bool
starts_with c [] = false
starts_with c (x ∷ xs) = x == c

module _ (sha256 : List ℕ → List ℕ) where
  -- The first byte, then the checksum of the first 21 bytes.
  unfoldable pub check_bytes : List ℕ → AddressCheck
  check_bytes decoded =
      if not (starts_with 65 decoded)
      then invalid
      else if eqb_bytes (drop 21 decoded) (take 4 (sha256 (sha256 (take 21 decoded))))
      then valid
      else invalid

  unfoldable pub check_number : Option ℕ → AddressCheck
  check_number none = invalid
  check_number (some number) =
      if leb (256 ^ 25) number then overflows else check_bytes (bytes_of 25 number)

  -- An address has 34 characters and begins with T.
  unfoldable pub validate_tron_base58check : Text → AddressCheck
  validate_tron_base58check address =
      if not (length address == 34) || not (starts_with 84 address)
      then invalid
      else check_number (base58_value 0 address)

digit_of_lem : (c d : ℕ) → digit_of c ≡ some d → d ≤ 57
unfolding digit_of
digit_of_lem c d h = ground arith

-- The value of `n` characters after a number below `m` is below m · 58 ^ n.
base58_value_lem :
    (cs : Text) (number m value : ℕ)
    → number < m
    → base58_value number cs ≡ some value
    → value < m * 58 ^ length cs
unfolding base58_value length
base58_value_lem [] number m value low h = let e : number ≡ value = cc in omega (arith, e)
base58_value_lem (c ∷ cs) number m value low h = elim (Option-cases (digit_of c)) [
  | inl none_found ↦ absurd (let x : none ≡ some value = rw (base58_value, none_found) at h in cc)
  | inr (d, e) ↦
      let small = digit_of_lem c d e in
      let next : number * 58 + d < m * 58 = omega (arith, small, low) in
      let last : value < m * 58 * 58 ^ length cs =
        base58_value_lem cs (number * 58 + d) (m * 58) value next (rw (base58_value, e) at h) in
      let step : m * 58 * 58 ^ length cs ≡ m * 58 ^ suc (length cs) =
        mul_assoc m 58 (58 ^ length cs) ∙ ap (λ x. m * x) (sym (pow-succ' 58 (length cs))) in
      subst (λ x. value < x) step last
]

bytes_fit : (sha256 : List ℕ → List ℕ) (decoded : List ℕ) → check_bytes sha256 decoded ≢ overflows
unfolding check_bytes
bytes_fit sha256 decoded h = elim (Bool-cases (not (starts_with 65 decoded))) [
  | inl bad ↦ let x : invalid ≡ overflows = rw bad at h in cc
  | inr good ↦
      elim (Bool-cases (eqb_bytes (drop 21 decoded) (take 4 (sha256 (sha256 (take 21 decoded)))))) [
        | inl same ↦ let x : valid ≡ overflows = rw (good, same) at h in cc
        | inr other ↦ let x : invalid ≡ overflows = rw (good, other) at h in cc
      ]
]

-- Whatever the hash function, the conversion to 25 bytes fits for every text: a text of another
-- length than 34 is refused before, and 58 ^ 34 is below 256 ^ 25.
pub validate_tron_base58check_lem :
    (sha256 : List ℕ → List ℕ) (address : Text)
    → validate_tron_base58check sha256 address ≢ overflows
unfolding validate_tron_base58check check_number check_bytes
validate_tron_base58check_lem sha256 address h =
    elim (Bool-cases (not (length address == 34) || not (starts_with 84 address))) [
      | inl bad ↦ let x : invalid ≡ overflows = rw bad at h in cc
      | inr good ↦ elim (Option-cases (base58_value 0 address)) [
        | inl none_found ↦ let x : invalid ≡ overflows = rw (good, none_found) at h in cc
        | inr (number, e) ↦
            let long : length address ≡ 34 = ground (arith, good) in
            let low : number < 1 * 58 ^ length address =
              base58_value_lem address 0 1 number (omega arith) e in
            let fits : leb (256 ^ 25) number ≡ false =
              (let l34 : number < 1 * 58 ^ 34 = rw long at low in ground (arith, l34)) in
            let x : check_bytes sha256 (bytes_of 25 number) ≡ overflows = rw (good, e, fits) at h in
            bytes_fit sha256 (bytes_of 25 number) x
      ]
    ]
