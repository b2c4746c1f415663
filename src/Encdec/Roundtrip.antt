-- ===== src/Encdec/Roundtrip.antt =====
-- What is encoded is decoded, and the two orders are each other's reverse.
use mathlib.Core.List.{reverse}
use portable_lib.Prelude.{
  ℕ, ◌+◌, ◌*◌, ◌/◌, ◌%◌, ◌^◌, ◌<◌, bit_or, ◌≡◌, refl, ap, ◌∙◌, arith, mask-bit_and, fields-bit_or,
}
use portable_lib.Encdec.{
  byte, enc_le_u16, enc_be_u16, enc_le_u32, enc_be_u32, enc_le_u64, enc_be_u64, dec_le_u16,
  dec_be_u16, dec_le_u32, dec_be_u32, dec_le_u64, dec_be_u64, Union, enc_le_float64, enc_be_float64,
  dec_le_float64, dec_be_float64,
}

byte-mod : (v k : ℕ) → byte v k ≡ v / 2 ^ k % 256
unfolding byte
byte-mod v k = mask-bit_and 8 (v / 2 ^ k)

-- Bytes joined from the lowest up make the number that they spell.
join2 : (a b : ℕ) → a < 2 ^ 8 → bit_or a (b * 2 ^ 8) ≡ a + b * 2 ^ 8
join2 a b h = fields-bit_or 8 b a h

join4 :
    (a b c d : ℕ)
    → a < 2 ^ 8
    → b < 2 ^ 8
    → c < 2 ^ 8
    → bit_or (bit_or (bit_or a (b * 2 ^ 8)) (c * 2 ^ 16)) (d * 2 ^ 24)
      ≡ a + b * 2 ^ 8 + c * 2 ^ 16 + d * 2 ^ 24
join4 a b c d ha hb hc = rw (join2 a b ha) (
    rw (fields-bit_or 16 c (a + b * 2 ^ 8) (omega arith))
      (fields-bit_or 24 d (a + b * 2 ^ 8 + c * 2 ^ 16) (omega arith)))

join8 :
    (low e f g h : ℕ)
    → low < 2 ^ 32
    → e < 2 ^ 8
    → f < 2 ^ 8
    → g < 2 ^ 8
    → bit_or (bit_or (bit_or (bit_or low (e * 2 ^ 32)) (f * 2 ^ 40)) (g * 2 ^ 48)) (h * 2 ^ 56)
      ≡ low + e * 2 ^ 32 + f * 2 ^ 40 + g * 2 ^ 48 + h * 2 ^ 56
join8 low e f g h hl he hf hg = rw (fields-bit_or 32 e low hl) (
    rw (fields-bit_or 40 f (low + e * 2 ^ 32) (omega arith)) (
      rw (fields-bit_or 48 g (low + e * 2 ^ 32 + f * 2 ^ 40) (omega arith))
        (fields-bit_or 56 h (low + e * 2 ^ 32 + f * 2 ^ 40 + g * 2 ^ 48) (omega arith))))

byte-lt : (v k : ℕ) → byte v k < 2 ^ 8
byte-lt v k = omega (arith, byte-mod v k)

spell16 : (v : ℕ) → v < 2 ^ 16 → bit_or (byte v 0) (byte v 8 * 2 ^ 8) ≡ v
spell16 v h =
    join2 (byte v 0) (byte v 8) (byte-lt v 0) ∙ (omega (arith, byte-mod v 0, byte-mod v 8))

abbrev low32 : ℕ → ℕ
low32 v =
    bit_or (bit_or (bit_or (byte v 0) (byte v 8 * 2 ^ 8)) (byte v 16 * 2 ^ 16)) (byte v 24 * 2 ^ 24)

low32-mod : (v : ℕ) → low32 v ≡ v % 2 ^ 32
low32-mod v =
    join4 (byte v 0) (byte v 8) (byte v 16) (byte v 24) (byte-lt v 0) (byte-lt v 8) (byte-lt v 16)
    ∙ (omega (arith, byte-mod v 0, byte-mod v 8, byte-mod v 16, byte-mod v 24))

spell64 :
    (v : ℕ)
    → v < 2 ^ 64
    → bit_or
        (bit_or
          (bit_or (bit_or (low32 v) (byte v 32 * 2 ^ 32)) (byte v 40 * 2 ^ 40))
          (byte v 48 * 2 ^ 48))
        (byte v 56 * 2 ^ 56)
      ≡ v
spell64 v h =
    join8 (low32 v) (byte v 32) (byte v 40) (byte v 48) (byte v 56) (omega (arith, low32-mod v))
      (byte-lt v 32) (byte-lt v 40) (byte-lt v 48)
    ∙ (omega (arith, low32-mod v, byte-mod v 32, byte-mod v 40, byte-mod v 48, byte-mod v 56))

pub dec_be_u32-enc_be_u32 : (v : ℕ) → v < 2 ^ 32 → dec_be_u32 (enc_be_u32 v) ≡ v
unfolding enc_be_u32 dec_be_u32
dec_be_u32-enc_be_u32 v h = low32-mod v ∙ (omega arith)

-- Decoding what was encoded gives the value back, in both orders: for numbers below 2^16, 2^32 and 2^64
-- at the three widths, and for every double of at most 64 bits that the union gives back from its own
-- bits.
pub dec-enc :
    {D : Type 0} (un : Union D) (a b c : ℕ) (d : D)
    → a < 2 ^ 16
    → b < 2 ^ 32
    → c < 2 ^ 64
    → un.bits d < 2 ^ 64
    → un.of_bits (un.bits d) ≡ d
    → (dec_le_u16 (enc_le_u16 a) ≡ a)
      × (dec_be_u16 (enc_be_u16 a) ≡ a)
      × (dec_le_u32 (enc_le_u32 b) ≡ b)
      × (dec_be_u32 (enc_be_u32 b) ≡ b)
      × (dec_le_u64 (enc_le_u64 c) ≡ c)
      × (dec_be_u64 (enc_be_u64 c) ≡ c)
      × (dec_le_float64 un (enc_le_float64 un d) ≡ d)
      × (dec_be_float64 un (enc_be_float64 un d) ≡ d)
unfolding enc_le_u16 enc_be_u16 enc_le_u32 enc_be_u32 enc_le_u64 enc_be_u64 dec_le_u16 dec_be_u16
    dec_le_u32 dec_be_u32 dec_le_u64 dec_be_u64 enc_le_float64 enc_be_float64 dec_le_float64
    dec_be_float64
dec-enc un a b c d ha hb hc hd same =
    let w = low32-mod b ∙ (omega arith) in
    let f = ap (λ v. un.of_bits v) (spell64 (un.bits d) hd) ∙ same in
    (spell16 a ha, spell16 a ha, w, w, spell64 c hc, spell64 c hc, f, f)

pub be-eq-reverse_le :
    (v : ℕ)
    → (enc_be_u16 v ≡ reverse (enc_le_u16 v))
      × (enc_be_u32 v ≡ reverse (enc_le_u32 v))
      × (enc_be_u64 v ≡ reverse (enc_le_u64 v))
unfolding enc_le_u16 enc_be_u16 enc_le_u32 enc_be_u32 enc_le_u64 enc_be_u64
be-eq-reverse_le v = (refl, refl, refl)
