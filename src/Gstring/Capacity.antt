-- ===== src/Gstring/Capacity.antt =====
-- A capacity that is rounded up to a power of two is large enough.
use portable_lib.Prelude.{
  ℕ, zero, suc, ◌-◌, ◌/◌, ◌^◌, ◌≤◌, ◌<◌, arith, bit_or, bit_or-lt, bit_or_low, sub64,
}
use native.Mathlib.Nat.{div-le_self}
use portable_lib.Gstring.{next_pow2_size}

le-bit_or_below : (n x y : ℕ) → x ≤ n → x ≤ bit_or x y
le-bit_or_below zero x y h = omega arith
le-bit_or_below (suc n) x y h =
    omega (arith, bit_or_low x y, le-bit_or_below n (x / 2) (y / 2) (omega arith))

abbrev IsBetween : ℕ → ℕ → Type 0
IsBetween v n = (v ≤ n) × (n < 2 ^ 62)

smear-IsBetween : (v n k : ℕ) → IsBetween v n → IsBetween v (bit_or n (n / k))
smear-IsBetween v n k h =
    let low = div-le_self n k in
    (
      omega (arith, le-bit_or_below n n (n / k) (omega arith), h.0),
      bit_or-lt 62 n (n / k) h.1 (omega (arith, low, h.1)),
    )

pub next_pow2_size-bounds :
    (v : ℕ) → 0 < v → v ≤ 2 ^ 62 → (v ≤ next_pow2_size v) × (next_pow2_size v ≤ 2 ^ 62)
unfolding next_pow2_size
next_pow2_size-bounds v pos small =
    let m = v - 1 in
    let s0 : IsBetween m (sub64 v 1) = (omega arith, omega arith) in
    let s1 = smear-IsBetween m _ 2 s0 in
    let s2 = smear-IsBetween m _ (2 ^ 2) s1 in
    let s3 = smear-IsBetween m _ (2 ^ 4) s2 in
    let s4 = smear-IsBetween m _ (2 ^ 8) s3 in
    let s5 = smear-IsBetween m _ (2 ^ 16) s4 in
    let s6 = smear-IsBetween m _ (2 ^ 32) s5 in (omega (arith, s6.0, s6.1), omega (arith, s6.1))
