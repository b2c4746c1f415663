-- ===== src/Bitset/Digits.antt =====
-- The binary digits of a word, and what the operations of the processor do to them.
use Prim.Native.Nat.{differ}
use native.Mathlib.Nat.{pow-suc, one-le-pow}
use portable_lib.Prelude.{
  ℕ, zero, suc, ◌+◌, ◌-◌, ◌*◌, ◌/◌, ◌%◌, ◌^◌, ◌<◌, ◌≤◌, min, max, ◌≡◌, ◌≢◌, refl, ap, ◌∙◌, sym,
  arith, bit_and, bit_or, bit_and_low, bit_or_low, bit_xor, bit_xor_low, div-pow_suc, bit_and-shift,
  mask-bit_and, bit_and-mask, ltb, ◌==◌,
}

unfoldable pub testbit : ℕ → ℕ → ℕ
testbit zero x = x % 2
testbit (suc k) x = testbit k (x / 2)

pub testbit-lt : (k x : ℕ) → testbit k x < 2
unfolding testbit
testbit-lt zero x = omega arith
testbit-lt (suc k) x = testbit-lt k (x / 2)

pub testbit-div : (k x : ℕ) → testbit k x ≡ x / 2 ^ k % 2
unfolding testbit
testbit-div zero x = omega arith
testbit-div (suc k) x = testbit-div k (x / 2) ∙ ap (λ t. t % 2) (div-pow_suc x k)

pub testbit-bit_or : (k x y : ℕ) → testbit k (bit_or x y) ≡ max (testbit k x) (testbit k y)
unfolding testbit
testbit-bit_or zero x y = omega (arith, bit_or_low x y)
testbit-bit_or (suc k) x y =
    let half : bit_or x y / 2 ≡ bit_or (x / 2) (y / 2) = omega (arith, bit_or_low x y) in
    ap (testbit k) half ∙ testbit-bit_or k (x / 2) (y / 2)

differ-mod : (x y : ℕ) → x < 2 → y < 2 → differ x y ≡ (x + y) % 2
differ-mod zero y hx hy = omega arith
differ-mod (suc x) zero hx hy = omega arith
differ-mod (suc zero) (suc zero) hx hy = omega arith
differ-mod (suc zero) (suc (suc y)) hx hy = absurd (omega arith)
differ-mod (suc (suc x)) y hx hy = absurd (omega arith)

pub testbit-bit_xor : (k x y : ℕ) → testbit k (bit_xor x y) ≡ (testbit k x + testbit k y) % 2
unfolding testbit
testbit-bit_xor zero x y =
    omega (arith, bit_xor_low x y, differ-mod (x % 2) (y % 2) (omega arith) (omega arith))
testbit-bit_xor (suc k) x y =
    let low = differ-mod (x % 2) (y % 2) (omega arith) (omega arith) in
    let half : bit_xor x y / 2 ≡ bit_xor (x / 2) (y / 2) = omega (arith, bit_xor_low x y, low) in
    ap (testbit k) half ∙ testbit-bit_xor k (x / 2) (y / 2)

pub testbit-bit_and : (k x y : ℕ) → testbit k (bit_and x y) ≡ min (testbit k x) (testbit k y)
unfolding testbit
testbit-bit_and zero x y = omega (arith, bit_and_low x y)
testbit-bit_and (suc k) x y =
    let half : bit_and x y / 2 ≡ bit_and (x / 2) (y / 2) = omega (arith, bit_and_low x y) in
    ap (testbit k) half ∙ testbit-bit_and k (x / 2) (y / 2)

pub testbit-zero : (k : ℕ) → testbit k 0 ≡ 0
unfolding testbit
testbit-zero zero = refl
testbit-zero (suc k) = testbit-zero k

pub testbit-pow_self : (k : ℕ) → testbit k (2 ^ k) ≡ 1
unfolding testbit
testbit-pow_self zero = refl
testbit-pow_self (suc k) =
    let half : 2 ^ suc k / 2 ≡ 2 ^ k = omega (arith, pow-suc 2 k) in
    ap (testbit k) half ∙ testbit-pow_self k

pub testbit-pow_ne : (j k : ℕ) → j ≢ k → testbit j (2 ^ k) ≡ 0
unfolding testbit
testbit-pow_ne zero zero ne = absurd (ne refl)
testbit-pow_ne zero (suc k) ne = omega (arith, pow-suc 2 k)
testbit-pow_ne (suc j) zero ne = testbit-zero j
testbit-pow_ne (suc j) (suc k) ne =
    let half : 2 ^ suc k / 2 ≡ 2 ^ k = omega (arith, pow-suc 2 k) in
    ap (testbit j) half ∙ testbit-pow_ne j k (λ e. ne (ap suc e))

-- The digits of the difference to all ones.
pub testbit-complement :
    (w k x : ℕ) → k < w → x < 2 ^ w → testbit k (2 ^ w - 1 - x) ≡ 1 - testbit k x
unfolding testbit
testbit-complement zero k x h hx = absurd (omega arith)
testbit-complement (suc w) zero x h hx = omega (arith, pow-suc 2 w, one-le-pow w 2)
testbit-complement (suc w) (suc k) x h hx =
    let half : (2 ^ suc w - 1 - x) / 2 ≡ 2 ^ w - 1 - x / 2 = omega (arith, pow-suc 2 w) in
    ap (testbit k) half ∙ testbit-complement w k (x / 2) (omega arith) (omega (arith, pow-suc 2 w))

-- A mask of one bit tests that bit.
pub mask-testbit : (k x : ℕ) → bit_and (2 ^ k) x ≡ testbit k x * 2 ^ k
mask-testbit k x =
    let one : 1 * 2 ^ k ≡ 2 ^ k = omega arith in
    ap (λ t. bit_and t x) (sym one)
    ∙ bit_and-shift k 1 x
    ∙ ap (λ t. t * 2 ^ k) (mask-bit_and 1 (x / 2 ^ k) ∙ sym (testbit-div k x))

-- So does a comparison of the masked word to 0.
pub mask-is_set : (k x : ℕ) → ltb 0 (bit_and (2 ^ k) x) ≡ (testbit k x == 1)
mask-is_set k x =
    rw (mask-testbit k x)
      (positive (testbit k x) (2 ^ k) (testbit-lt k x) (omega (arith, one-le-pow k 2)))
  where
    positive : (d p : ℕ) → d < 2 → 1 ≤ p → ltb 0 (d * p) ≡ (d == 1)
    positive zero p hd hp = ground arith
    positive (suc zero) p hd hp = ground arith
    positive (suc (suc d)) p hd hp = absurd (omega arith)

-- A remainder keeps the low digits.
pub testbit-mod : (w k x : ℕ) → k < w → testbit k (x % 2 ^ w) ≡ testbit k x
testbit-mod w k x h =
    let same : 2 ^ w - 1 - 0 ≡ 2 ^ w - 1 = omega arith in
    let ones =
      ap (testbit k) (sym same) ∙ testbit-complement w k 0 h (omega (arith, one-le-pow w 2)) in
    ap (testbit k) (sym (bit_and-mask w x))
    ∙ omega (arith, testbit-bit_and k x (2 ^ w - 1), ones, testbit-zero k, testbit-lt k x)
