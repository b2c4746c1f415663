-- ===== src/StrToSize/Numbers.antt =====
-- `strtou64` on the digits of a number in a base that is given, with and without a minus sign.
use portable_lib.Prelude.{
  ℕ, ◌-◌, ◌%◌, ◌^◌, ◌<◌, ◌≤◌, Bool, true, false, ◌&&◌, ◌||◌, List, [], ◌∷◌, ◌≡◌, refl, ap, ◌∙◌, sym,
  arith, ◌==◌, ltb, each_below, at_each, append-nil, not, Bool-cases, inl, inr,
}
use portable_lib.Chars.{isspace}
use portable_lib.StrToSize.{
  Number, number, erange, einval, skip_spaces, take_sign, take_base, starts_hex, negate,
  take_number, start, strtou64, take_digits,
}
use portable_lib.StrToSize.Digits.{
  spell, spells, horner, AllBelow, take_digits-fits, take_digits-over,
}

abbrev is_plain : ℕ → Bool
is_plain d = not (isspace (spell d)) && not (spell d == 0x2d) && not (spell d == 0x2b)

all_plain : each_below 36 is_plain ≡ true
unfolding each_below
all_plain = refl

-- The string of digits does not look like the prefix of a hexadecimal number.
abbrev pub Unprefixed : ℕ → List ℕ → Type 0
Unprefixed base s = ((base == 16) && starts_hex s) ≡ false

take_base-given :
    (base : ℕ) (s : List ℕ) → 2 ≤ base → Unprefixed base s → take_base base s ≡ (base, s)
unfolding take_base
take_base-given base s h u =
    let given : (base == 0) ≡ false = ground arith in rw (given, take_base, u) refl

skip_spaces-digit : (d : ℕ) (s : List ℕ) → d < 36 → skip_spaces (spell d ∷ s) ≡ spell d ∷ s
unfolding skip_spaces
skip_spaces-digit d s h =
    let plain = at_each 36 is_plain d all_plain h in
    let other : isspace (spell d) ≡ false = ground (arith, plain) in rw other refl

take_sign-digit : (d : ℕ) (s : List ℕ) → d < 36 → take_sign (spell d) s ≡ (false, spell d ∷ s)
unfolding take_sign
take_sign-digit d s h =
    let plain = at_each 36 is_plain d all_plain h in
    let minus : (spell d == 0x2d) ≡ false = ground (arith, plain) in
    let plus : (spell d == 0x2b) ≡ false = ground (arith, plain) in rw (minus, plus) refl

negate-false : (r : Number) → negate false r ≡ r
unfolding negate
negate-false (einval s) = refl
negate-false (erange s) = refl
negate-false (number v s) = refl

negated : (v : ℕ) → negate true (number v []) ≡ number ((2 ^ 64 - v) % 2 ^ 64) []
unfolding negate
negated v = refl

-- A string of digits is read by the loop over the digits.
pub strtou64-digits :
    (base d : ℕ) (s : List ℕ)
    → 2 ≤ base
    → base ≤ 36
    → d < 36
    → Unprefixed base (spell d ∷ s)
    → strtou64 (spell d ∷ s) base ≡ take_digits base 0 (spell d ∷ s)
unfolding strtou64 start take_number
strtou64-digits base d s h2 h36 hd u =
    let fine : (ltb 36 base || (base == 1)) ≡ false = ground arith in
    rw (fine, skip_spaces-digit d s hd, take_sign-digit d s hd, take_base-given base _ h2 u)
      (negate-false _)

strtou64-minus :
    (base : ℕ) (s : List ℕ)
    → 2 ≤ base
    → base ≤ 36
    → Unprefixed base s
    → strtou64 (0x2d ∷ s) base ≡ negate true (take_digits base 0 s)
unfolding strtou64 start take_number skip_spaces take_sign
strtou64-minus base s h2 h36 u =
    let fine : (ltb 36 base || (base == 1)) ≡ false = ground arith in
    rw (fine, take_base-given base s h2 u) refl

abbrev is_below_x : ℕ → Bool
is_below_x d = not (spell d == 0x78) && not (spell d == 0x58)

each_below_x : each_below 33 is_below_x ≡ true
unfolding each_below
each_below_x = refl

-- The digits of base 16 do not spell its prefix.
digits-Unprefixed : (base : ℕ) (ds : List ℕ) → AllBelow base ds → Unprefixed base (spells ds)
unfolding starts_hex spells AllBelow
digits-Unprefixed base [] all = ground arith
digits-Unprefixed base (d ∷ []) all = ground arith
digits-Unprefixed base (d ∷ e ∷ ds) (hd, (he, all)) = elim (Bool-cases (base == 16)) [
  | inr f ↦ rw f refl
  | inl t ↦
      let sixteen : base ≡ 16 = ground (arith, t) in
      let plain = at_each 33 is_below_x e each_below_x (omega (arith, he, sixteen)) in
      let small : (spell e == 0x78) ≡ false = ground (arith, plain) in
      let large : (spell e == 0x58) ≡ false = ground (arith, plain) in
      ground (arith, t, small, large)
]

-- What `strtou64` makes of a number's digits in a given base: the number where it is below 2 ^ 64,
-- and a range error for every other; a minus sign before them gives the negative modulo 2 ^ 64.
pub record Reads (base d : ℕ) (ds : List ℕ) : Type 0 where
  pub fits :
      horner base 0 (d ∷ ds) < 2 ^ 64
      → strtou64 (spells (d ∷ ds)) base ≡ number (horner base 0 (d ∷ ds)) []
  pub too_large :
      2 ^ 64 ≤ horner base 0 (d ∷ ds) → (s : List ℕ) × (strtou64 (spells (d ∷ ds)) base ≡ erange s)
  pub minus :
      horner base 0 (d ∷ ds) < 2 ^ 64
      → strtou64 (0x2d ∷ spells (d ∷ ds)) base
        ≡ number ((2 ^ 64 - horner base 0 (d ∷ ds)) % 2 ^ 64) []

whole :
    (base d : ℕ) (ds : List ℕ)
    → 2 ≤ base
    → base ≤ 36
    → AllBelow base (d ∷ ds)
    → horner base 0 (d ∷ ds) < 2 ^ 64
    → take_digits base 0 (spells (d ∷ ds)) ≡ number (horner base 0 (d ∷ ds)) []
unfolding take_digits
whole base d ds h2 h36 all h =
    ap (take_digits base 0) (sym (append-nil (spells (d ∷ ds))))
    ∙ take_digits-fits base 0 (d ∷ ds) [] (omega (arith, h2)) h36 all h

first-lt : (base d : ℕ) (ds : List ℕ) → AllBelow base (d ∷ ds) → d < base
unfolding AllBelow
first-lt base d ds (h, all) = h

-- In every base from 2 to 36, strtou64 reads the digits of a number as the number where it is
-- below 2^64, refuses them as out of range where it is not, and with a minus sign before them
-- gives the negative modulo 2^64.
pub strtou64-Reads :
    (base d : ℕ) (ds : List ℕ) → 2 ≤ base → base ≤ 36 → AllBelow base (d ∷ ds) → Reads base d ds
unfolding spells
strtou64-Reads base d ds h2 h36 all =
    let plain = digits-Unprefixed base (d ∷ ds) all in
    let hd : d < 36 = omega (arith, h36, first-lt base d ds all) in
    let loop = strtou64-digits base d (spells ds) h2 h36 hd plain in
    record {
      fits = λ h. loop ∙ whole base d ds h2 h36 all h;
      too_large = λ h.
          let (s, e) =
            take_digits-over base 0 (d ∷ ds) [] (omega (arith, h2)) h36 all (omega arith) h in
          (s, loop ∙ ap (take_digits base 0) (sym (append-nil (spells (d ∷ ds)))) ∙ e);
      minus = λ h.
          strtou64-minus base (spells (d ∷ ds)) h2 h36 plain
          ∙ ap (negate true) (whole base d ds h2 h36 all h)
          ∙ negated (horner base 0 (d ∷ ds));
    }
