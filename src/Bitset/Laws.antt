-- ===== src/Bitset/Laws.antt =====
-- Operations on one number of a set.
use native.Mathlib.Nat.{pow-le-pow_right}
use portable_lib.Prelude.{
  ℕ, ◌*◌, ◌/◌, ◌%◌, ◌^◌, ◌<◌, ◌≤◌, true, false, Bool, none, some, ◌≡◌, ◌≢◌, refl, ◌∙◌, sym, arith,
  if◌then◌else◌, ◌==◌, ltb, bit_and, bit_or, bit_or-lt, bit_and-le, get_or, set, length, length-set,
  get_or-set_self, get_or-set_ne, Bool-cases, inl, inr,
}
use portable_lib.Bitset.{Bitset, bitset, complement, word_at, set_bit, clr, isset}
use portable_lib.Bitset.Digits.{
  testbit, testbit-lt, testbit-bit_or, testbit-bit_and, testbit-pow_self, testbit-pow_ne,
  testbit-complement, mask-is_set,
}

-- 1 where the number is in the set, 0 where it is not.
unfoldable pub member : Bitset → ℕ → ℕ
member b i = testbit (i % 64) (word_at b i)

pub record IsValid (b : Bitset) : Type 0 where
  pub words : length b.w ≡ b.n
  pub small : (i : ℕ) → get_or b.w i 0 < 2 ^ 64

pub isset-member : (b : Bitset) (i : ℕ) → i < 64 * b.n → isset b i ≡ some (member b i == 1)
unfolding isset member
isset-member b i h =
    let inside : ltb i (64 * b.n) ≡ true = ground arith in
    rw (inside, mask-is_set (i % 64) (word_at b i)) refl

-- The digits of a set that differ from those of `b` at `i` at most, where there is `v`.
record Rewritten (b b' : Bitset) (i v : ℕ) : Type 0 where
  valid : IsValid b'
  same_n : b'.n ≡ b.n
  members : (j : ℕ) → member b' j ≡ (if i == j then v else member b j)

-- A set of which bitset_isset tells what it tells of `b`, but at `i`, where it tells `v`.
pub record Changed (b b' : Bitset) (i : ℕ) (v : Bool) : Type 0 where
  pub valid : IsValid b'
  pub same_n : b'.n ≡ b.n
  pub members : (j : ℕ) → isset b' j ≡ (if i == j then some v else isset b j)

isset_outside : (b : Bitset) (j : ℕ) → ltb j (64 * b.n) ≡ false → isset b j ≡ none
unfolding isset
isset_outside b j h = rw h refl

Rewritten-Changed :
    (b b' : Bitset) (i v : ℕ) → i < 64 * b.n → Rewritten b b' i v → Changed b b' i (v == 1)
Rewritten-Changed b b' i v h r = record {
  valid = r.valid;
  same_n = r.same_n;
  members = λ j. elim (Bool-cases (ltb j (64 * b.n))) [
    | inl t ↦
        let low : j < 64 * b.n = ground (arith, t) in
        let low' : j < 64 * b'.n = omega (arith, low, r.same_n) in
        rw (isset-member b' j low', isset-member b j low, r.members j)
          (elim (Bool-cases (i == j)) [ inl e ↦ rw e refl | inr e ↦ rw e refl ])
    | inr f ↦
        let other : (i == j) ≡ false = ground (arith, f) in
        let f' : ltb j (64 * b'.n) ≡ false = rw r.same_n f in
        rw (isset_outside b' j f', isset_outside b j f, other) refl
  ];
}

-- A write of one word, of which one digit changes.
change_word :
    (b : Bitset) (i v x : ℕ)
    → IsValid b
    → i < 64 * b.n
    → x < 2 ^ 64
    → testbit (i % 64) x ≡ v
    → ((k : ℕ) → k < 64 → i % 64 ≢ k → testbit k x ≡ testbit k (word_at b i))
    → Rewritten b (bitset b.n (set b.w (i / 64) x)) i v
unfolding member word_at
change_word b i v x valid hi hx self others = record {
  valid = record {
    words = length-set b.w (i / 64) x ∙ valid.words;
    small = λ j. elim (Bool-cases (i / 64 == j)) [
      | inl t ↦
          let same : i / 64 ≡ j = ground (arith, t) in
          rw (sym same, get_or-set_self b.w (i / 64) x 0 (omega (arith, valid.words))) hx
      | inr f ↦
          let ne : i / 64 ≢ j = λ e. absurd (ground (arith, f, e)) in
          rw (get_or-set_ne b.w x 0 ne) (valid.small j)
    ];
  };
  same_n = refl;
  members = λ j. elim (Bool-cases (i / 64 == j / 64)) [
    | inr f ↦
        let ne : i / 64 ≢ j / 64 = λ e. absurd (ground (arith, f, e)) in
        let other : (i == j) ≡ false = ground (arith, f) in
        rw (get_or-set_ne b.w x 0 ne, other) refl
    | inl t ↦
        let same : j / 64 ≡ i / 64 = ground (arith, t) in
        rw (same, get_or-set_self b.w (i / 64) x 0 (omega (arith, valid.words)))
          (elim (Bool-cases (i % 64 == j % 64)) [
            | inl u ↦
                let digit : j % 64 ≡ i % 64 = ground (arith, u) in
                let equal : (i == j) ≡ true = ground (arith, same, digit) in rw (equal, digit) self
            | inr u ↦
                let ne : i % 64 ≢ j % 64 = λ e. absurd (ground (arith, u, e)) in
                let other : (i == j) ≡ false = ground (arith, u) in
                rw other (others (j % 64) (omega arith) ne)
          ])
  ];
}

pub word-lt : (b : Bitset) (i : ℕ) → IsValid b → word_at b i < 2 ^ 64
unfolding word_at
word-lt b i v = v.small (i / 64)

bit-lt : (k : ℕ) → k < 64 → 2 ^ k < 2 ^ 64
bit-lt k h =
    let two : 0 < 2 = omega arith in
    let top : k ≤ 63 = omega arith in omega (arith, pow-le-pow_right two top)

set_bit-word :
    (b : Bitset) (i : ℕ)
    → i < 64 * b.n
    → set_bit b i ≡ some (bitset b.n (set b.w (i / 64) (bit_or (word_at b i) (2 ^ (i % 64)))))
unfolding set_bit
set_bit-word b i h = let inside : ltb i (64 * b.n) ≡ true = ground arith in rw inside refl

clr-word :
    (b : Bitset) (i : ℕ)
    → i < 64 * b.n
    → clr b i
      ≡ some (bitset b.n (set b.w (i / 64) (bit_and (word_at b i) (complement (2 ^ (i % 64))))))
unfolding clr
clr-word b i h = let inside : ltb i (64 * b.n) ≡ true = ground arith in rw inside refl

-- On a valid set and a number below 64 * n, after bitset_set bitset_isset tells that the number is
-- in the set and after bitset_clr that it is not; of every other number it tells what it told
-- before, and the set stays valid.
pub set_bit-Changed :
    (b : Bitset) (i : ℕ)
    → IsValid b
    → i < 64 * b.n
    → ((b' : Bitset) × (set_bit b i ≡ some b') × Changed b b' i true)
      × ((b' : Bitset) × (clr b i ≡ some b') × Changed b b' i false)
set_bit-Changed b i v h =
    let small = bit-lt (i % 64) (omega arith) in
    let w = word_at b i in
    (
      (
        _,
        set_bit-word b i h,
        Rewritten-Changed b _ i 1 h (
            change_word b i 1 (bit_or w (2 ^ (i % 64))) v h
              (bit_or-lt 64 w (2 ^ (i % 64)) (word-lt b i v) small)
              (omega (
                arith,
                testbit-bit_or (i % 64) w (2 ^ (i % 64)),
                testbit-pow_self (i % 64),
                testbit-lt (i % 64) w,
              ))
              (λ j hj ne. omega (
                arith,
                testbit-bit_or j w (2 ^ (i % 64)),
                testbit-pow_ne j (i % 64) (λ e. ne (sym e)),
              ))),
      ),
      (
        _,
        clr-word b i h,
        Rewritten-Changed b _ i 0 h (
            change_word b i 0 (bit_and w (complement (2 ^ (i % 64)))) v h
              (omega (arith, bit_and-le w (complement (2 ^ (i % 64))), word-lt b i v))
              (omega (
                arith,
                testbit-bit_and (i % 64) w (complement (2 ^ (i % 64))),
                testbit-complement 64 (i % 64) (2 ^ (i % 64)) (omega arith) small,
                testbit-pow_self (i % 64),
              ))
              (λ j hj ne. omega (
                arith,
                testbit-bit_and j w (complement (2 ^ (i % 64))),
                testbit-complement 64 j (2 ^ (i % 64)) hj small,
                testbit-pow_ne j (i % 64) (λ e. ne (sym e)),
                testbit-lt j w,
              ))),
      ),
    )
