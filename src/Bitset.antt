-- ===== src/Bitset.antt =====
-- inc/fast/bitset.h: sets of small numbers as words of 64 bits. A failed assertion gives no result.
pub mod Digits
pub mod Laws
pub mod Combine
mod Tests
use portable_lib.Prelude.{
  ℕ, ◌+◌, ◌-◌, ◌*◌, ◌/◌, ◌%◌, ◌^◌, Bool, true, false, Option, none, some, List, [], ◌∷◌,
  if◌then◌else◌, ◌==◌, ltb, bit_and, bit_or, bit_xor, u64_mod, add64, get_or, set, replicate, ◌>>=◌,
}

pub record Bitset : Type 0 where
  pub n : ℕ
  pub w : List ℕ

abbrev pub bitset : ℕ → List ℕ → Bitset
bitset n w = record { n = n; w = w }

-- `~x`, on 64 bits
abbrev pub complement : ℕ → ℕ
complement x = 2 ^ 64 - 1 - x

-- `_BITSIZE_W`
unfoldable pub words_for : ℕ → ℕ
words_for n = bit_and (complement 63) (add64 n 63) / 64

unfoldable pub new : ℕ → Bitset
new n = let m = words_for n in bitset m (replicate m 0)

unfoldable pub word_at : Bitset → ℕ → ℕ
word_at b i = get_or b.w (i / 64) 0

unfoldable pub set_bit : Bitset → ℕ → Option Bitset
set_bit b i =
    if ltb i (64 * b.n)
    then some (bitset b.n (set b.w (i / 64) (bit_or (word_at b i) (2 ^ (i % 64)))))
    else none

unfoldable pub clr : Bitset → ℕ → Option Bitset
clr b i =
    if ltb i (64 * b.n)
    then some (bitset b.n (set b.w (i / 64) (bit_and (word_at b i) (complement (2 ^ (i % 64))))))
    else none

unfoldable pub isset : Bitset → ℕ → Option Bool
isset b i = if ltb i (64 * b.n) then some (ltb 0 (bit_and (2 ^ (i % 64)) (word_at b i))) else none

-- The loop over the words of two sets.
unfoldable pub zip_words : (ℕ → ℕ → ℕ) → List ℕ → List ℕ → List ℕ
zip_words f [] ys = []
zip_words f (x ∷ xs) [] = []
zip_words f (x ∷ xs) (y ∷ ys) = f x y ∷ zip_words f xs ys

unfoldable pub combine : (ℕ → ℕ → ℕ) → Bitset → Bitset → Option Bitset
combine f a b = if a.n == b.n then some (bitset a.n (zip_words f a.w b.w)) else none

unfoldable pub or : Bitset → Bitset → Option Bitset
or a b = combine bit_or a b

unfoldable pub and : Bitset → Bitset → Option Bitset
and a b = combine bit_and a b

unfoldable pub andnot : Bitset → Bitset → Option Bitset
andnot a b = combine (λ x y. bit_and x (complement y)) a b

unfoldable pub xor : Bitset → Bitset → Option Bitset
xor a b = combine bit_xor a b

unfoldable pub not_words : List ℕ → List ℕ
not_words [] = []
not_words (x ∷ xs) = complement x ∷ not_words xs

unfoldable pub invert : Bitset → Bitset
invert a = bitset a.n (not_words a.w)

-- `bitset_copy`: the set that `a` is then.
unfoldable pub copy : Bitset → Bitset → Option Bitset
copy a b = if a.n == b.n then some (bitset a.n b.w) else none

-- `bitset_dup`: the set that is copied into fresh memory.
unfoldable pub dup : Bitset → Bitset
dup a = bitset a.n a.w
