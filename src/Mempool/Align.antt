-- ===== src/Mempool/Align.antt =====
-- `_Align` rounds an address up to the next multiple of 8.
use portable_lib.Prelude.{
  ℕ, ◌+◌, ◌-◌, ◌*◌, ◌/◌, ◌%◌, ◌^◌, ◌<◌, ◌≤◌, false, ◌≡◌, arith, ◌==◌, bit_and, mask-bit_and,
  bit_and-shift,
}
use portable_lib.Mempool.{align}

pub record Aligned (p : ℕ) : Type 0 where
  pub multiple : align p % 8 ≡ 0
  pub above : p ≤ align p
  pub close : align p < p + 8

round_up :
    (p : ℕ) → p + 7 < 2 ^ 64 → bit_and 0xfffffffffffffff8 ((p + 7) % 2 ^ 64) ≡ (p + 7) / 8 * 8
round_up p h = omega (
  arith,
  bit_and-shift 3 (2 ^ 61 - 1) ((p + 7) % 2 ^ 64),
  mask-bit_and 61 ((p + 7) % 2 ^ 64 / 2 ^ 3),
)

-- An address that has room above it is rounded up by less than 8.
pub align-Aligned : (p : ℕ) → 8 ≤ p → p + 7 < 2 ^ 64 → Aligned p
unfolding align
align-Aligned p big h =
    let low = mask-bit_and 3 p in
    let off : (bit_and 7 p == p) ≡ false = ground (arith, low) in
    let up = round_up p h in
    record {
      multiple = rw off (omega (arith, up));
      above = rw off (omega (arith, up));
      close = rw off (omega (arith, up));
    }
