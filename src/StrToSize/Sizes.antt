-- ===== src/StrToSize/Sizes.antt =====
-- `strtosize` on a decimal number and a unit, the product of both where it fits.
use native.Mathlib.Nat.{mul-le-mul_left, mul-le-mul_right}
use portable_lib.Prelude.{
  ℕ, zero, suc, ◌*◌, ◌/◌, ◌%◌, ◌^◌, ◌<◌, ◌≤◌, true, false, some, List, [], ◌∷◌, ◌++◌, ◌≡◌, refl, ap,
  ◌∙◌, arith, ltb,
}
use portable_lib.StrToSize.{
  number, strtou64, take_digits, take_digit, take_value, digit_value, size, invalid, too_large,
  unit_of, bits_or_bytes, take_unit, scale, strtosize,
}
use portable_lib.StrToSize.Digits.{spells, horner, AllBelow, take_digits-fits, take_digits-over}
use portable_lib.StrToSize.Numbers.{strtou64-digits}

-- The units, their letters and their factors.
pub data Prefix : Type 0 where
  kilo : Prefix
  mega : Prefix
  giga : Prefix
  tera : Prefix
  peta : Prefix
  exa : Prefix

unfoldable pub letter : Prefix → ℕ
letter kilo = 0x6b
letter mega = 0x4d
letter giga = 0x47
letter tera = 0x54
letter peta = 0x50
letter exa = 0x45

unfoldable pub factor : Prefix → ℕ
factor kilo = 2 ^ 10
factor mega = 2 ^ 20
factor giga = 2 ^ 30
factor tera = 2 ^ 40
factor peta = 2 ^ 50
factor exa = 2 ^ 60

-- Nothing or B for bytes, b for bits.
pub data Suffix : Type 0 where
  plain : Suffix
  bytes : Suffix
  bits : Suffix

unfoldable pub tail : Suffix → List ℕ
tail plain = []
tail bytes = 0x42 ∷ []
tail bits = 0x62 ∷ []

unfoldable pub share : Suffix → ℕ → ℕ
share plain m = m
share bytes m = m
share bits m = m / 8

take_digits-letter :
    (v : ℕ) (p : Prefix) (s : List ℕ) → take_digits 10 v (letter p ∷ s) ≡ number v (letter p ∷ s)
unfolding take_digits take_digit take_value digit_value letter
take_digits-letter v kilo s = refl
take_digits-letter v mega s = refl
take_digits-letter v giga s = refl
take_digits-letter v tera s = refl
take_digits-letter v peta s = refl
take_digits-letter v exa s = refl

take_unit-letter : (p : Prefix) (s : List ℕ) → take_unit (letter p ∷ s) ≡ bits_or_bytes (factor p) s
unfolding take_unit unit_of letter factor
take_unit-letter kilo s = refl
take_unit-letter mega s = refl
take_unit-letter giga s = refl
take_unit-letter tera s = refl
take_unit-letter peta s = refl
take_unit-letter exa s = refl

bits_or_bytes-tail : (m : ℕ) (x : Suffix) → bits_or_bytes m (tail x) ≡ some (share x m)
unfolding bits_or_bytes tail share
bits_or_bytes-tail m plain = refl
bits_or_bytes-tail m bytes = refl
bits_or_bytes-tail m bits = refl

factor-ge : (p : Prefix) → 1024 ≤ factor p
unfolding factor
factor-ge kilo = omega arith
factor-ge mega = omega arith
factor-ge giga = omega arith
factor-ge tera = omega arith
factor-ge peta = omega arith
factor-ge exa = omega arith

share-positive : (m : ℕ) (x : Suffix) → 1024 ≤ m → 0 < share x m
unfolding share
share-positive m plain h = omega (arith, h)
share-positive m bytes h = omega (arith, h)
share-positive m bits h = omega (arith, h)

-- A product that fits is not taken for an overflow.
scale-fits : (v m : ℕ) → 0 < m → v * m < 2 ^ 64 → scale v m ≡ size (v * m)
unfolding scale
scale-fits zero m hm h = let none_left : 0 * m ≡ 0 = omega arith in rw none_left refl
scale-fits (suc v) m hm h =
    let one : 1 ≤ suc v = omega arith in
    let exact : suc v * m % 2 ^ 64 ≡ suc v * m = omega (arith, h) in
    let wide : ltb (suc v * m) (suc v) ≡ false = ground (arith, mul-le-mul_left (suc v) hm) in
    let high : ltb (suc v * m) m ≡ false = ground (arith, mul-le-mul_right m one) in
    let positive : ltb 0 (suc v) ≡ true = ground arith in rw (exact, wide, high, positive) refl

-- The string of a decimal number and what follows it.
abbrev pub decimal : ℕ → List ℕ → List ℕ → List ℕ
decimal d ds s = spells (d ∷ ds) ++ s

read :
    (d : ℕ) (ds s : List ℕ)
    → AllBelow 10 (d ∷ ds)
    → strtou64 (decimal d ds s) 10 ≡ take_digits 10 0 (decimal d ds s)
unfolding AllBelow spells
read d ds s (h, all) =
    strtou64-digits 10 d (spells ds ++ s) (omega arith) (omega arith) (omega (arith, h)) refl

-- What `strtosize` makes of it, for a number `v`.
strtosize-unit :
    (d : ℕ) (ds s : List ℕ) (v m : ℕ)
    → strtou64 (decimal d ds s) 10 ≡ number v s
    → take_unit s ≡ some m
    → strtosize (decimal d ds s) 10 ≡ scale v m
unfolding strtosize
strtosize-unit d ds s v m e u = rw (e, strtosize, u) refl

-- A decimal number and a unit give their product where it is below 2 ^ 64, in bits an eighth of it,
-- and without a unit the number; a number of 2 ^ 64 or more is a range error whatever its unit is;
-- and a space behind the number is an error, although the code lists it among the units.
pub record Sized (d : ℕ) (ds : List ℕ) : Type 0 where
  pub unit :
      (p : Prefix) (x : Suffix)
      → horner 10 0 (d ∷ ds) * share x (factor p) < 2 ^ 64
      → horner 10 0 (d ∷ ds) < 2 ^ 64
      → strtosize (decimal d ds (letter p ∷ tail x)) 10
        ≡ size (horner 10 0 (d ∷ ds) * share x (factor p))
  pub alone :
      horner 10 0 (d ∷ ds) < 2 ^ 64 → strtosize (decimal d ds []) 10 ≡ size (horner 10 0 (d ∷ ds))
  pub range :
      (s : List ℕ) → 2 ^ 64 ≤ horner 10 0 (d ∷ ds) → strtosize (decimal d ds s) 10 ≡ too_large
  pub space :
      (s : List ℕ)
      → horner 10 0 (d ∷ ds) < 2 ^ 64
      → strtosize (decimal d ds (0x20 ∷ s)) 10 ≡ invalid

module _ (d : ℕ) (ds : List ℕ) (all : AllBelow 10 (d ∷ ds)) where
  reaches :
      (s : List ℕ)
      → horner 10 0 (d ∷ ds) < 2 ^ 64
      → strtou64 (decimal d ds s) 10 ≡ take_digits 10 (horner 10 0 (d ∷ ds)) s
  reaches s h = read d ds s all ∙ take_digits-fits 10 0 (d ∷ ds) s (omega arith) (omega arith) all h

  sized_unit :
      (p : Prefix) (x : Suffix)
      → horner 10 0 (d ∷ ds) * share x (factor p) < 2 ^ 64
      → horner 10 0 (d ∷ ds) < 2 ^ 64
      → strtosize (decimal d ds (letter p ∷ tail x)) 10
        ≡ size (horner 10 0 (d ∷ ds) * share x (factor p))
  sized_unit p x hm hv =
      strtosize-unit d ds (letter p ∷ tail x) (horner 10 0 (d ∷ ds)) (share x (factor p))
        (reaches (letter p ∷ tail x) hv ∙ take_digits-letter (horner 10 0 (d ∷ ds)) p (tail x))
        (take_unit-letter p (tail x) ∙ bits_or_bytes-tail (factor p) x)
      ∙ scale-fits (horner 10 0 (d ∷ ds)) (share x (factor p))
          (share-positive (factor p) x (factor-ge p)) hm

  sized_alone :
      horner 10 0 (d ∷ ds) < 2 ^ 64 → strtosize (decimal d ds []) 10 ≡ size (horner 10 0 (d ∷ ds))
  unfolding take_digits take_unit
  sized_alone h =
      let v = horner 10 0 (d ∷ ds) in
      let same : v * 1 ≡ v = omega arith in
      strtosize-unit d ds [] v 1 (reaches [] h) refl
      ∙ scale-fits v 1 (omega arith) (omega (arith, h))
      ∙ ap size same

  sized_range :
      (s : List ℕ) → 2 ^ 64 ≤ horner 10 0 (d ∷ ds) → strtosize (decimal d ds s) 10 ≡ too_large
  unfolding strtosize
  sized_range s h =
      let over = take_digits-over 10 0 (d ∷ ds) s (omega arith) (omega arith) all (omega arith) h in
      rw (read d ds s all, strtosize, over.1) refl

  sized_space :
      (s : List ℕ)
      → horner 10 0 (d ∷ ds) < 2 ^ 64
      → strtosize (decimal d ds (0x20 ∷ s)) 10 ≡ invalid
  unfolding strtosize take_digits take_digit digit_value
  sized_space s h = rw (reaches (0x20 ∷ s) h, strtosize) refl

  -- strtosize gives the product of a decimal number and its unit where it is below 2^64, an
  -- eighth of the unit for bits, and the number where there is no unit; a number of 2^64 or more
  -- is out of range whatever follows it, and a space behind the number is refused.
  pub strtosize-Sized : Sized d ds
  strtosize-Sized = record {
    unit = sized_unit;
    alone = sized_alone;
    range = sized_range;
    space = sized_space;
  }
