-- ===== src/Split/Delims.antt =====
-- The bits of a set of delimiters are the characters that were put into it.
use portable_lib.Prelude.{
  ℕ, ◌*◌, ◌/◌, ◌%◌, ◌^◌, ◌<◌, ◌≢◌, Bool, true, false, ◌||◌, List, [], ◌∷◌, ◌≡◌, refl, sym, ap, ◌∙◌,
  All, Bool-cases, inl, inr, arith, ◌==◌, ==_iff, length, get_or, set, get_or-set_self,
  get_or-set_ne, length-set, bit_and, bit_or, mask-bit_and, get_or-replicate,
}
use native.Mathlib.Nat.{one-le-pow}
use portable_lib.Bitset.Digits.{
  testbit, testbit-lt, testbit-zero, testbit-bit_or, testbit-pow_self, testbit-pow_ne, mask-testbit,
}
use portable_lib.Split.{no_delim, add_delim, is_delim, delims}
use portable_lib.Split.Fields.{first_field, other_fields}

unfoldable pub occurs : List ℕ → ℕ → Bool
occurs [] c = false
occurs (t ∷ tok) c = (t == c) || occurs tok c

abbrev pub AreBytes : List ℕ → Type 0
AreBytes s = All (λ c. c < 256) s

is_delim-testbit :
    (v : List ℕ) (c : ℕ) → is_delim v c ≡ (testbit (c % 32) (get_or v (c / 32) 0) == 1)
unfolding is_delim
is_delim-testbit v c =
    let w = get_or v (c / 32) 0 in
    let t = testbit-lt (c % 32) w in
    let p = one-le-pow (c % 32) 2 (omega arith) in
    elim (Bool-cases (testbit (c % 32) w == 1)) [
      | inl e ↦
          let one : testbit (c % 32) w ≡ 1 = (==_iff _ _).0 e in
          let m : bit_and (2 ^ (c % 32)) w ≡ 1 * 2 ^ (c % 32) =
            mask-testbit (c % 32) w ∙ ap (λ x. x * 2 ^ (c % 32)) one in
          ground (arith, m, p, e)
      | inr e ↦
          let zero : testbit (c % 32) w ≡ 0 = ground (arith, t, e) in
          let m : bit_and (2 ^ (c % 32)) w ≡ 0 * 2 ^ (c % 32) =
            mask-testbit (c % 32) w ∙ ap (λ x. x * 2 ^ (c % 32)) zero in
          ground (arith, m, e)
    ]

add_delim-is_delim :
    (v : List ℕ) (a c : ℕ)
    → length v ≡ 8
    → a < 256
    → is_delim (add_delim v a) c ≡ ((a == c) || is_delim v c)
unfolding add_delim
add_delim-is_delim v a c l ha =
    let x = bit_or (get_or v (a / 32) 0) (2 ^ (a % 32)) in
    is_delim-testbit (set v (a / 32) x) c ∙ (elim (Bool-cases (a / 32 == c / 32)) [
      | inl e ↦
          let word : a / 32 ≡ c / 32 = (==_iff _ _).0 e in
          let read : get_or (set v (a / 32) x) (c / 32) 0 ≡ x =
            ap (λ i. get_or (set v (a / 32) x) i 0) (sym word)
            ∙ get_or-set_self v (a / 32) x 0 (omega (arith, l)) in
          let same : get_or v (a / 32) 0 ≡ get_or v (c / 32) 0 = ap (λ i. get_or v i 0) word in
          let t = testbit-lt (c % 32) (get_or v (c / 32) 0) in
          elim (Bool-cases (a % 32 == c % 32)) [
            | inl b ↦
                let bit : a % 32 ≡ c % 32 = (==_iff _ _).0 b in
                let whole : a ≡ c = omega (arith, word, bit) in
                let hit = testbit-pow_self (c % 32) in
                rw
                  (
                    read,
                    same,
                    testbit-bit_or (c % 32) (get_or v (c / 32) 0) (2 ^ (a % 32)),
                    bit,
                    hit,
                  )
                  (ground (arith, whole, t))
            | inr b ↦
                let other : c % 32 ≢ a % 32 = λ h. absurd (ground (arith, b, h)) in
                let ne : (a == c) ≡ false = ground (arith, b) in
                rw
                  (
                    read,
                    same,
                    testbit-bit_or (c % 32) (get_or v (c / 32) 0) (2 ^ (a % 32)),
                    testbit-pow_ne (c % 32) (a % 32) other,
                    is_delim-testbit v c,
                    ne,
                  )
                  (ground (arith, t))
          ]
      | inr e ↦
          let other : a / 32 ≢ c / 32 = λ h. absurd (ground (arith, e, h)) in
          let ne : (a == c) ≡ false = ground (arith, e) in
          rw (get_or-set_ne v x 0 other, is_delim-testbit v c, ne) refl
    ])

length-add_delim : (v : List ℕ) (a : ℕ) → length (add_delim v a) ≡ length v
unfolding add_delim
length-add_delim v a = length-set v (a / 32) (bit_or (get_or v (a / 32) 0) (2 ^ (a % 32)))

or_swap : (a b c : Bool) → (a || (b || c)) ≡ ((b || a) || c)
or_swap true true c = refl
or_swap true false c = refl
or_swap false true c = refl
or_swap false false c = refl

delims-is_delim :
    (tok v : List ℕ) (c : ℕ)
    → length v ≡ 8
    → AreBytes tok
    → is_delim (delims v tok) c ≡ (occurs tok c || is_delim v c)
unfolding delims occurs
delims-is_delim [] v c l b = refl
delims-is_delim (t ∷ tok) v c l b =
    let low : bit_and 0xff t ≡ t = omega (arith, mask-bit_and 8 t) in
    rw low (
      delims-is_delim tok (add_delim v t) c (length-add_delim v t ∙ l) b.1
      ∙ rw (add_delim-is_delim v t c l b.0) (or_swap (occurs tok c) (t == c) (is_delim v c)))

no_delim-false : (c : ℕ) → is_delim no_delim c ≡ false
unfolding is_delim
no_delim-false c =
    rw (get_or-replicate {A = ℕ} 8 (c / 32) 0)
      (ground (arith, mask-testbit (c % 32) 0, testbit-zero (c % 32)))

or_false : (b : Bool) → (b || false) ≡ b
or_false true = refl
or_false false = refl

pub delims_lem :
    (tok : List ℕ) (c : ℕ) → AreBytes tok → is_delim (delims no_delim tok) c ≡ occurs tok c
delims_lem tok c b =
    delims-is_delim tok no_delim c refl b ∙ rw (no_delim-false c) (or_false (occurs tok c))

-- Two tests that agree have the same fields.
pub first_field-same :
    (p q : ℕ → Bool) (s : List ℕ) → ((c : ℕ) → p c ≡ q c) → first_field p s ≡ first_field q s
unfolding first_field
first_field-same p q [] e = refl
first_field-same p q (c ∷ s) e = rw (e c, first_field-same p q s e) refl

pub other_fields-same :
    (p q : ℕ → Bool) (s : List ℕ) → ((c : ℕ) → p c ≡ q c) → other_fields p s ≡ other_fields q s
unfolding other_fields
other_fields-same p q [] e = refl
other_fields-same p q (c ∷ s) e = rw (e c, first_field-same p q s e, other_fields-same p q s e) refl
