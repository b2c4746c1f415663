-- ===== src/StrToSize/Digits.antt =====
-- The loop over the digits computes the number that they spell, or reports that it is too large.
use native.Mathlib.Nat.{mul-le-mul_left, div-add-mod', mod-lt, mul-le-mul_right, suc-mul}
use portable_lib.Prelude.{
  ℕ, suc, ◌+◌, ◌-◌, ◌*◌, ◌^◌, ◌<◌, ◌≤◌, Bool, true, false, ◌&&◌, ◌||◌, none, some, List, [], ◌∷◌,
  ◌++◌, ◌≡◌, refl, ap, ◌∙◌, arith, if◌then◌else◌, ◌==◌, ltb, leb, mul64, add64, each_below, at_each,
  Bool-cases, Option-cases, inl, inr,
}
use portable_lib.StrToSize.{
  bad, erange, next, over, digit_value, cutoff, cutchar, take_value, take_digit, take_digits,
}

-- The character of a digit below 36.
abbrev pub spell : ℕ → ℕ
spell d = if ltb d 10 then 0x30 + d else 0x57 + d

unfoldable pub spells : List ℕ → List ℕ
spells [] = []
spells (d ∷ ds) = spell d ∷ spells ds

-- The number that the digits spell behind `val`.
unfoldable pub horner : ℕ → ℕ → List ℕ → ℕ
horner base val [] = val
horner base val (d ∷ ds) = horner base (val * base + d) ds

-- Every digit is below the base.
unfoldable pub AllBelow : ℕ → List ℕ → Type 0
AllBelow base [] = Unit
AllBelow base (d ∷ ds) = (d < base) × AllBelow base ds

abbrev is_spelled : ℕ → Bool
is_spelled d = elim (digit_value (spell d)) [ none ↦ false | some v ↦ v == d ]

all_spelled : each_below 36 is_spelled ≡ true
unfolding each_below digit_value
all_spelled = refl

digit_value-spell : (d : ℕ) → d < 36 → digit_value (spell d) ≡ some d
digit_value-spell d h =
    let r = at_each 36 is_spelled d all_spelled h in
    elim (Option-cases (digit_value (spell d))) [
      | inl e ↦ absurd (ground (arith, e, r))
      | inr (v, e) ↦ ground (arith, e, r)
    ]

-- One digit more fits exactly up to the cut-off.
over_cutoff :
    (q r base val d : ℕ)
    → d < base
    → r < base
    → (ltb q val || ((val == q) && ltb r d)) ≡ ltb (q * base + r) (val * base + d)
over_cutoff q r base val d hd hr = elim (Bool-cases (ltb q val)) [
  | inl t ↦
      let above : suc q ≤ val = ground (arith, t) in
      let more = mul-le-mul_right base above in ground (arith, t, more, suc-mul q base)
  | inr f ↦ elim (Bool-cases (val == q)) [
    | inl e ↦ let same : val ≡ q = ground (arith, e) in rw same (ground arith)
    | inr e ↦
        let less : suc val ≤ q = ground (arith, f, e) in
        ground (arith, f, e, mul-le-mul_right base less, suc-mul val base)
  ]
]

-- Which of the two a digit does.
take_value-lt :
    (base val d : ℕ)
    → d < base
    → take_value base val d
      ≡ (if ltb (2 ^ 64 - 1) (val * base + d) then over else next (add64 (mul64 val base) d))
unfolding take_value
take_value-lt base val d h =
    let below : leb base d ≡ false = ground arith in
    let edge =
      over_cutoff (cutoff base) (cutchar base) base val d h
        (mod-lt (2 ^ 64 - 1) (omega (arith, h))) in
    rw (below, edge, div-add-mod' (2 ^ 64 - 1) base) refl

take_digit-next :
    (base val d : ℕ)
    → base ≤ 36
    → d < base
    → val * base + d < 2 ^ 64
    → take_digit base val (spell d) ≡ next (val * base + d)
unfolding take_digit
take_digit-next base val d hb hd h =
    let fits : ltb (2 ^ 64 - 1) (val * base + d) ≡ false = ground arith in
    let exact : add64 (mul64 val base) d ≡ val * base + d = omega arith in
    ap (λ o. elim o [ none ↦ bad | some v ↦ take_value base val v ])
      (digit_value-spell d (omega arith))
    ∙ take_value-lt base val d hd
    ∙ rw (fits, exact) refl

take_digit-over :
    (base val d : ℕ)
    → base ≤ 36
    → d < base
    → 2 ^ 64 ≤ val * base + d
    → take_digit base val (spell d) ≡ over
unfolding take_digit
take_digit-over base val d hb hd h =
    let big : ltb (2 ^ 64 - 1) (val * base + d) ≡ true = ground arith in
    ap (λ o. elim o [ none ↦ bad | some v ↦ take_value base val v ])
      (digit_value-spell d (omega arith))
    ∙ take_value-lt base val d hd
    ∙ rw big refl

horner-grows : (base val : ℕ) (ds : List ℕ) → 0 < base → val ≤ horner base val ds
unfolding horner
horner-grows base val [] h = omega arith
horner-grows base val (d ∷ ds) h =
    omega (arith, horner-grows base (val * base + d) ds h, mul-le-mul_left val h)

step-next :
    (base val c v : ℕ) (s : List ℕ)
    → take_digit base val c ≡ next v
    → take_digits base val (c ∷ s) ≡ take_digits base v s
unfolding take_digits
step-next base val c v s h = rw (h, take_digits) refl

step-over :
    (base val c : ℕ) (s : List ℕ)
    → take_digit base val c ≡ over
    → take_digits base val (c ∷ s) ≡ erange (c ∷ s)
unfolding take_digits
step-over base val c s h = rw (h, take_digits) refl

-- Digits whose number fits are taken, whatever follows them.
pub take_digits-fits :
    (base val : ℕ) (ds rest : List ℕ)
    → 0 < base
    → base ≤ 36
    → AllBelow base ds
    → horner base val ds < 2 ^ 64
    → take_digits base val (spells ds ++ rest) ≡ take_digits base (horner base val ds) rest
unfolding spells horner AllBelow
take_digits-fits base val [] rest hp hb all h = refl
take_digits-fits base val (d ∷ ds) rest hp hb (hd, all) h =
    let grows = horner-grows base (val * base + d) ds hp in
    let fits : val * base + d < 2 ^ 64 = omega (arith, h, grows) in
    step-next base val (spell d) _ _ (take_digit-next base val d hb hd fits)
    ∙ take_digits-fits base (val * base + d) ds rest hp hb all h

-- Digits whose number is too large are refused, whatever follows them.
pub take_digits-over :
    (base val : ℕ) (ds rest : List ℕ)
    → 0 < base
    → base ≤ 36
    → AllBelow base ds
    → val < 2 ^ 64
    → 2 ^ 64 ≤ horner base val ds
    → (s : List ℕ) × (take_digits base val (spells ds ++ rest) ≡ erange s)
unfolding spells horner AllBelow
take_digits-over base val [] rest hp hb all hv h = absurd (omega arith)
take_digits-over base val (d ∷ ds) rest hp hb (hd, all) hv h =
    elim (Bool-cases (ltb (val * base + d) (2 ^ 64))) [
      | inl t ↦
          let fits : val * base + d < 2 ^ 64 = ground (arith, t) in
          let (left, e) = take_digits-over base (val * base + d) ds rest hp hb all fits h in
          (left, step-next base val (spell d) _ _ (take_digit-next base val d hb hd fits) ∙ e)
      | inr f ↦
          let big : 2 ^ 64 ≤ val * base + d = ground (arith, f) in
          (
            spell d ∷ (spells ds ++ rest),
            step-over base val (spell d) _ (take_digit-over base val d hb hd big),
          )
    ]
