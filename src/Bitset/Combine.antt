-- ===== src/Bitset/Combine.antt =====
-- The operations on the words of two sets are those on sets.
use portable_lib.Prelude.{
  ℕ, zero, suc, ◌+◌, ◌-◌, ◌*◌, ◌/◌, ◌%◌, ◌<◌, min, max, true, some, List, [], ◌∷◌, ◌≡◌, refl, ap,
  ◌∙◌, arith, ◌==◌, bit_and, bit_or, bit_xor, get_or, length,
}
use portable_lib.Bitset.{
  Bitset, bitset, complement, word_at, zip_words, combine, or, and, andnot, xor,
}
use portable_lib.Bitset.Digits.{
  testbit, testbit-bit_or, testbit-bit_and, testbit-bit_xor, testbit-complement,
}
use portable_lib.Bitset.Laws.{member, IsValid, word-lt}

get_or-zip_words :
    (f : ℕ → ℕ → ℕ) (xs ys : List ℕ) (i : ℕ)
    → length xs ≡ length ys
    → i < length xs
    → get_or (zip_words f xs ys) i 0 ≡ f (get_or xs i 0) (get_or ys i 0)
unfolding zip_words
get_or-zip_words f [] ys i e h = absurd (omega arith)
get_or-zip_words f (x ∷ xs) [] i e h = absurd (omega (arith, e))
get_or-zip_words f (x ∷ xs) (y ∷ ys) zero e h = refl
get_or-zip_words f (x ∷ xs) (y ∷ ys) (suc i) e h =
    get_or-zip_words f xs ys i (omega (arith, e)) (omega arith)

member-combine :
    (f : ℕ → ℕ → ℕ) (a b : Bitset) (i : ℕ)
    → IsValid a
    → IsValid b
    → a.n ≡ b.n
    → i < 64 * a.n
    → member (bitset a.n (zip_words f a.w b.w)) i ≡ testbit (i % 64) (f (word_at a i) (word_at b i))
unfolding member word_at
member-combine f a b i va vb e h = ap (testbit (i % 64)) (
    get_or-zip_words f a.w b.w (i / 64) (omega (arith, va.words, vb.words, e))
      (omega (arith, va.words)))

combine-same :
    (f : ℕ → ℕ → ℕ) (a b : Bitset)
    → a.n ≡ b.n
    → combine f a b ≡ some (bitset a.n (zip_words f a.w b.w))
unfolding combine
combine-same f a b e = let same : (a.n == b.n) ≡ true = ground (arith, e) in rw same refl

-- On valid sets of the same length, bitset_or, bitset_and, bitset_andnot and bitset_xor give
-- union, intersection, difference and symmetric difference.
pub combine-members :
    (a b : Bitset)
    → IsValid a
    → IsValid b
    → a.n ≡ b.n
    → ((c : Bitset) × (or a b ≡ some c)
        × ((i : ℕ) → i < 64 * a.n → member c i ≡ max (member a i) (member b i)))
      × ((c : Bitset) × (and a b ≡ some c)
          × ((i : ℕ) → i < 64 * a.n → member c i ≡ min (member a i) (member b i)))
      × ((c : Bitset) × (andnot a b ≡ some c)
          × ((i : ℕ) → i < 64 * a.n → member c i ≡ min (member a i) (1 - member b i)))
      × ((c : Bitset) × (xor a b ≡ some c)
          × ((i : ℕ) → i < 64 * a.n → member c i ≡ (member a i + member b i) % 2))
unfolding or and andnot xor member
combine-members a b va vb e = (
  (
    _,
    combine-same bit_or a b e,
    λ i h.
        member-combine bit_or a b i va vb e h ∙ testbit-bit_or (i % 64) (word_at a i) (word_at b i),
  ),
  (
    _,
    combine-same bit_and a b e,
    λ i h.
        member-combine bit_and a b i va vb e h
        ∙ testbit-bit_and (i % 64) (word_at a i) (word_at b i),
  ),
  (
    _,
    combine-same (λ x y. bit_and x (complement y)) a b e,
    λ i h.
        member-combine (λ x y. bit_and x (complement y)) a b i va vb e h
        ∙ testbit-bit_and (i % 64) (word_at a i) (complement (word_at b i))
        ∙ ap (min (testbit (i % 64) (word_at a i)))
            (testbit-complement 64 (i % 64) (word_at b i) (omega arith) (word-lt b i vb)),
  ),
  (
    _,
    combine-same bit_xor a b e,
    λ i h.
        member-combine bit_xor a b i va vb e h
        ∙ testbit-bit_xor (i % 64) (word_at a i) (word_at b i),
  ),
)
