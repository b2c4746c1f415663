-- ===== src/Bitset/Tests.antt =====
-- Sets of the numbers below 128.
use portable_lib.Prelude.{
  true, false, ◌%◌, ℕ, zero, suc, ◌*◌, ◌-◌, ◌+◌, ◌<◌, ◌^◌, min, max, none, some, [], ◌∷◌, ◌≡◌, refl,
  arith, get_or,
}
use portable_lib.Bitset.{
  Bitset, bitset, words_for, new, word_at, set_bit, clr, isset, zip_words, combine, or, and, andnot,
  xor, not_words, invert, copy,
}
use portable_lib.Bitset.Laws.{member, IsValid, Changed, set_bit-Changed}
use portable_lib.Bitset.Combine.{combine-members}

program : Unit {0}
unfolding words_for new word_at set_bit clr isset zip_words combine or and andnot xor not_words
    invert copy
program = tt

abbrev few : Bitset
few = bitset 2 (5 ∷ 2 ^ 63 ∷ [])

abbrev many : Bitset
many = bitset 2 (4 ∷ 1 ∷ [])

few-IsValid : IsValid few
few-IsValid = record { words = refl; small = small }
  where
    small : (i : ℕ) → get_or few.w i 0 < 2 ^ 64
    small zero = omega arith
    small (suc zero) = omega arith
    small (suc (suc i)) = omega arith

many-IsValid : IsValid many
many-IsValid = record { words = refl; small = small }
  where
    small : (i : ℕ) → get_or many.w i 0 < 2 ^ 64
    small zero = omega arith
    small (suc zero) = omega arith
    small (suc (suc i)) = omega arith

new_test : new 65 ≡ bitset 2 (0 ∷ 0 ∷ [])
unfolding program
new_test = refl

set_test : set_bit many 127 ≡ some (bitset 2 (4 ∷ (2 ^ 63 + 1) ∷ []))
unfolding program
set_test = refl

beyond : isset few 128 ≡ none
unfolding program
beyond = refl

inverse : invert few ≡ bitset 2 ((2 ^ 64 - 6) ∷ (2 ^ 63 - 1) ∷ [])
unfolding program
inverse = refl

copy_test : copy few many ≡ some many
unfolding program
copy_test = refl

set_bit-Changed_example :
    ((b' : Bitset) × (set_bit few 64 ≡ some b') × Changed few b' 64 true)
    × ((b' : Bitset) × (clr few 64 ≡ some b') × Changed few b' 64 false)
set_bit-Changed_example = set_bit-Changed few 64 few-IsValid (omega arith)

combine-members_example :
    ((c : Bitset) × (or few many ≡ some c)
      × ((i : ℕ) → i < 64 * 2 → member c i ≡ max (member few i) (member many i)))
    × ((c : Bitset) × (and few many ≡ some c)
        × ((i : ℕ) → i < 64 * 2 → member c i ≡ min (member few i) (member many i)))
    × ((c : Bitset) × (andnot few many ≡ some c)
        × ((i : ℕ) → i < 64 * 2 → member c i ≡ min (member few i) (1 - member many i)))
    × ((c : Bitset) × (xor few many ≡ some c)
        × ((i : ℕ) → i < 64 * 2 → member c i ≡ (member few i + member many i) % 2))
combine-members_example = combine-members few many few-IsValid many-IsValid refl
