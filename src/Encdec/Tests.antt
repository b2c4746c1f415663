-- ===== src/Encdec/Tests.antt =====
-- The encoders and decoders at concrete numbers.
use portable_lib.Prelude.{ℕ, ◌≡◌, refl, arith, [], ◌∷◌}
use portable_lib.Encdec.{
  enc_le_u16, enc_be_u16, enc_le_u32, enc_be_u32, enc_le_u64, enc_be_u64, dec_le_u16, dec_be_u16,
  dec_le_u32, dec_be_u32, dec_le_u64, dec_be_u64, Union, enc_le_float64, enc_be_float64,
  dec_le_float64, dec_be_float64,
}
use portable_lib.Encdec.Roundtrip.{dec-enc}

enc_be_u32-bytes : enc_be_u32 0x01020304 ≡ 1 ∷ 2 ∷ 3 ∷ 4 ∷ []
unfolding enc_be_u32
enc_be_u32-bytes = refl

dec_le_u64-bytes : dec_le_u64 (1 ∷ 0 ∷ 0 ∷ 0 ∷ 0 ∷ 0 ∷ 0 ∷ 128 ∷ []) ≡ 0x8000000000000001
unfolding dec_le_u64
dec_le_u64-bytes = refl

-- Doubles that are given by their bits.
abbrev by_bits : Union ℕ
by_bits = record { bits = λ d. d; of_bits = λ v. v }

dec-enc_example :
    (dec_le_u16 (enc_le_u16 0xbeef) ≡ 0xbeef)
    × (dec_be_u16 (enc_be_u16 0xbeef) ≡ 0xbeef)
    × (dec_le_u32 (enc_le_u32 0xdeadbeef) ≡ 0xdeadbeef)
    × (dec_be_u32 (enc_be_u32 0xdeadbeef) ≡ 0xdeadbeef)
    × (dec_le_u64 (enc_le_u64 0x0123456789abcdef) ≡ 0x0123456789abcdef)
    × (dec_be_u64 (enc_be_u64 0x0123456789abcdef) ≡ 0x0123456789abcdef)
    × (dec_le_float64 by_bits (enc_le_float64 by_bits 0x3ff8000000000000) ≡ 0x3ff8000000000000)
    × (dec_be_float64 by_bits (enc_be_float64 by_bits 0x3ff8000000000000) ≡ 0x3ff8000000000000)
dec-enc_example =
    dec-enc by_bits 0xbeef 0xdeadbeef 0x0123456789abcdef 0x3ff8000000000000 (omega arith)
      (omega arith) (omega arith) (omega arith) refl
