-- ===== src/Encdec.antt =====
-- inc/fast/encdec.h: integers of 16, 32 and 64 bits and doubles in little and big endian order. An encoder's
-- result is the bytes that it writes; the pointer that it returns stands behind them.
pub mod Roundtrip
mod Tests
use portable_lib.Prelude.{ℕ, ◌/◌, ◌*◌, ◌^◌, ◌%◌, bit_and, bit_or, List, [], ◌∷◌, get_or}

-- `0xff & (v >> k)`
unfoldable pub byte : ℕ → ℕ → ℕ
byte v k = bit_and 0xff (v / 2 ^ k)

-- `((uint32_t)p[i]) << k`, in a type that holds the result
unfoldable pub shifted : List ℕ → ℕ → ℕ → ℕ
shifted p i k = get_or p i 0 * 2 ^ k

pub enc_le_u16 : ℕ → List ℕ
unfolding byte
enc_le_u16 v = byte v 0 ∷ byte v 8 ∷ []

pub enc_be_u16 : ℕ → List ℕ
unfolding byte
enc_be_u16 v = byte v 8 ∷ byte v 0 ∷ []

pub enc_le_u32 : ℕ → List ℕ
unfolding byte
enc_le_u32 v = byte v 0 ∷ byte v 8 ∷ byte v 16 ∷ byte v 24 ∷ []

unfoldable pub enc_be_u32 : ℕ → List ℕ
unfolding byte
enc_be_u32 v = byte v 24 ∷ byte v 16 ∷ byte v 8 ∷ byte v 0 ∷ []

pub enc_le_u64 : ℕ → List ℕ
unfolding byte
enc_le_u64 v =
    byte v 0 ∷ byte v 8 ∷ byte v 16 ∷ byte v 24 ∷ byte v 32 ∷ byte v 40 ∷ byte v 48 ∷ byte v 56 ∷ []

pub enc_be_u64 : ℕ → List ℕ
unfolding byte
enc_be_u64 v =
    byte v 56 ∷ byte v 48 ∷ byte v 40 ∷ byte v 32 ∷ byte v 24 ∷ byte v 16 ∷ byte v 8 ∷ byte v 0 ∷ []

pub dec_le_u16 : List ℕ → ℕ
unfolding shifted
dec_le_u16 p = bit_or (get_or p 0 0) (shifted p 1 8)

pub dec_be_u16 : List ℕ → ℕ
unfolding shifted
dec_be_u16 p = bit_or (get_or p 1 0) (shifted p 0 8)

pub dec_le_u32 : List ℕ → ℕ
unfolding shifted
dec_le_u32 p =
    bit_or (bit_or (bit_or (get_or p 0 0) (shifted p 1 8)) (shifted p 2 16)) (shifted p 3 24)

unfoldable pub dec_be_u32 : List ℕ → ℕ
unfolding shifted
dec_be_u32 p =
    bit_or (bit_or (bit_or (get_or p 3 0) (shifted p 2 8)) (shifted p 1 16)) (shifted p 0 24)

pub dec_le_u64 : List ℕ → ℕ
unfolding shifted
dec_le_u64 p =
    let low =
      bit_or (bit_or (bit_or (get_or p 0 0) (shifted p 1 8)) (shifted p 2 16)) (shifted p 3 24) in
    bit_or (bit_or (bit_or (bit_or low (shifted p 4 32)) (shifted p 5 40)) (shifted p 6 48))
      (shifted p 7 56)

pub dec_be_u64 : List ℕ → ℕ
unfolding shifted
dec_be_u64 p =
    let low =
      bit_or (bit_or (bit_or (get_or p 7 0) (shifted p 6 8)) (shifted p 5 16)) (shifted p 4 24) in
    bit_or (bit_or (bit_or (bit_or low (shifted p 3 32)) (shifted p 2 40)) (shifted p 1 48))
      (shifted p 0 56)

-- What the union of a `double` and a `uint64_t` does: a number's bits, and the number of given bits.
pub record Union (D : Type 0) : Type 0 where
  pub bits : D → ℕ
  pub of_bits : ℕ → D

module _ {D : Type 0} (un : Union D) where
  unfoldable pub enc_le_float64 : D → List ℕ
  enc_le_float64 d = enc_le_u64 (un.bits d)

  unfoldable pub enc_be_float64 : D → List ℕ
  enc_be_float64 d = enc_be_u64 (un.bits d)

  unfoldable pub dec_le_float64 : List ℕ → D
  dec_le_float64 p = un.of_bits (dec_le_u64 p)

  unfoldable pub dec_be_float64 : List ℕ → D
  dec_be_float64 p = un.of_bits (dec_be_u64 p)
