-- ===== src/Ulid.antt =====
-- src/ulid.c: identifiers of 16 bytes, and their text in base 32. What a failed call leaves in the
-- buffer is not part of the model.
pub mod Groups
pub mod Text
mod Tests
use portable_lib.Prelude.{
  ℕ, ◌+◌, ◌-◌, ◌*◌, ◌/◌, ◌%◌, ◌^◌, Bool, true, false, Option, none, some, List, [], ◌∷◌, ◌++◌,
  if◌then◌else◌, ◌==◌, ltb, bit_and, bit_or, u8_mod, u64_mod, get_or, length, ◌>>=◌,
}

pub data Returned : Type 0 where
  written : List ℕ → Returned
  enospc : Returned
  einval : Returned
  failed : ℕ → Returned

-- `0xff && (ms >> k)`, which is 0 or 1
unfoldable pub time_byte : ℕ → ℕ → ℕ
time_byte ms k = if ms / 2 ^ k == 0 then 0 else 1

-- `gettimeofday` gives the seconds and microseconds or an error, `getentropy` ten bytes.
unfoldable pub ulid_generate : (bsiz : ℕ) → ℕ → Option (ℕ × ℕ) → List ℕ → Returned
ulid_generate bsiz errno none entropy = if ltb bsiz 16 then enospc else failed errno
ulid_generate bsiz errno (some (sec, usec)) entropy =
    let ms = bit_and ((sec * 1000 + usec / 1000) % u64_mod) (2 ^ 48 - 1) in
    if ltb bsiz 16
    then enospc
    else written (
        time_byte ms 40
        ∷ time_byte ms 32
        ∷ time_byte ms 24
        ∷ time_byte ms 16
        ∷ time_byte ms 8
        ∷ time_byte ms 0
        ∷ entropy)

abbrev pub x16 : List ℕ
x16 =
    0xff ∷ 0xff ∷ 0xff ∷ 0xff ∷ 0xff ∷ 0xff ∷ 0xff ∷ 0xff ∷ 0xff ∷ 0xff ∷ 0xff ∷ 0xff ∷ 0xff ∷ 0xff
    ∷ 0xff ∷ 0xff ∷ []

-- `Ulid_decoder`, in rows of 16 up to number 127; the rest of the table is 0xff.
unfoldable pub ulid_decoder : List ℕ
ulid_decoder =
    x16
    ++ (x16
        ++ (x16
            ++ (0x00 ∷ 0x01 ∷ 0x02 ∷ 0x03 ∷ 0x04 ∷ 0x05 ∷ 0x06 ∷ 0x07 ∷ 0x08 ∷ 0x09 ∷ 0xff ∷ 0xff
                ∷ 0xff ∷ 0xff ∷ 0xff ∷ 0xff ∷ 0xff ∷ 0x0a ∷ 0x0b ∷ 0x0c ∷ 0x0d ∷ 0x0e ∷ 0x0f ∷ 0x10
                ∷ 0x11 ∷ 0xff ∷ 0x12 ∷ 0x13 ∷ 0xff ∷ 0x14 ∷ 0x15 ∷ 0xff ∷ 0x16 ∷ 0x17 ∷ 0x18 ∷ 0x19
                ∷ 0x1a ∷ 0xff ∷ 0x1b ∷ 0x1c ∷ 0x1d ∷ 0x1e ∷ 0x1f ∷ 0xff ∷ 0xff ∷ 0xff ∷ 0xff ∷ 0xff
                ∷ 0xff ∷ 0x0a ∷ 0x0b ∷ 0x0c ∷ 0x0d ∷ 0x0e ∷ 0x0f ∷ 0x10 ∷ 0x11 ∷ 0xff ∷ 0x12 ∷ 0x13
                ∷ 0xff ∷ 0x14 ∷ 0x15 ∷ 0xff ∷ 0x16 ∷ 0x17 ∷ 0x18 ∷ 0x19 ∷ 0x1a ∷ 0xff ∷ 0x1b ∷ 0x1c
                ∷ 0x1d ∷ 0x1e ∷ 0x1f ∷ 0xff ∷ 0xff ∷ 0xff ∷ 0xff ∷ 0xff ∷ [])))

-- `v(i)`: a character's number, or the return of EINVAL.
unfoldable pub value : ℕ → Option ℕ
unfolding ulid_decoder
value c = let z = get_or ulid_decoder c 0xff in if z == 0xff then none else some z

-- The numbers of all characters.
unfoldable pub values : List ℕ → Option (List ℕ)
unfolding value
values [] = some []
values (c ∷ cs) = value c >>= λ z. values cs >>= λ zs. some (z ∷ zs)

-- The five bytes of eight characters, from number `i` on.
unfoldable pub unpack : List ℕ → ℕ → List ℕ
unpack vs i =
    let v = λ (j : ℕ). get_or vs (i + j) 0 in
    bit_or (v 0 * 2 ^ 3) (v 1 / 2 ^ 2) % u8_mod
    ∷ bit_or (bit_or (v 1 * 2 ^ 6) (v 2 * 2 ^ 1)) (v 3 / 2 ^ 4) % u8_mod
    ∷ bit_or (v 3 * 2 ^ 4) (v 4 / 2 ^ 1) % u8_mod
    ∷ bit_or (bit_or (v 4 * 2 ^ 7) (v 5 * 2 ^ 2)) (v 6 / 2 ^ 3) % u8_mod
    ∷ bit_or (v 6 * 2 ^ 5) (v 7) % u8_mod
    ∷ []

-- The sixteen bytes of the characters' numbers.
unfoldable pub decoded : Option (List ℕ) → Returned
unfolding unpack
decoded none = einval
decoded (some vs) = written (
    bit_or (get_or vs 0 0 * 2 ^ 5) (get_or vs 1 0) % u8_mod
    ∷ (unpack vs 2 ++ (unpack vs 10 ++ unpack vs 18)))

unfoldable pub ulid_fromstring : (bsiz : ℕ) → List ℕ → Returned
unfolding values decoded
ulid_fromstring bsiz str =
    if ltb bsiz 16 then enospc else if length str == 26 then decoded (values str) else einval

-- "0123456789ABCDEFGHJKMNPQRSTVWXYZ"
unfoldable pub b32 : List ℕ
b32 =
    0x30 ∷ 0x31 ∷ 0x32 ∷ 0x33 ∷ 0x34 ∷ 0x35 ∷ 0x36 ∷ 0x37 ∷ 0x38 ∷ 0x39 ∷ 0x41 ∷ 0x42 ∷ 0x43 ∷ 0x44
    ∷ 0x45 ∷ 0x46 ∷ 0x47 ∷ 0x48 ∷ 0x4a ∷ 0x4b ∷ 0x4d ∷ 0x4e ∷ 0x50 ∷ 0x51 ∷ 0x52 ∷ 0x53 ∷ 0x54
    ∷ 0x56 ∷ 0x57 ∷ 0x58 ∷ 0x59 ∷ 0x5a ∷ []

unfoldable pub digit : ℕ → ℕ
unfolding b32
digit i = get_or b32 i 0

-- The eight characters of the bytes `x`, `y`, `z`, `w` and `u`; `o` is the byte of which the fourth
-- character takes the lowest bit.
unfoldable pub pack : (x y o z w u : ℕ) → List ℕ
unfolding digit
pack x y o z w u =
    digit (bit_and x 248 / 2 ^ 3)
    ∷ digit (bit_or (bit_and x 7 * 2 ^ 2) (bit_and y 192 / 2 ^ 6))
    ∷ digit (bit_and y 62 / 2 ^ 1)
    ∷ digit (bit_or (bit_and o 1 * 2 ^ 4) (bit_and z 240 / 2 ^ 4))
    ∷ digit (bit_or (bit_and z 15 * 2 ^ 1) (bit_and w 128 / 2 ^ 7))
    ∷ digit (bit_and w 124 / 2 ^ 2)
    ∷ digit (bit_or (bit_and w 3 * 2 ^ 3) (bit_and u 224 / 2 ^ 5))
    ∷ digit (bit_and u 31)
    ∷ []

-- In the first of the three groups the lowest bit is taken from the next byte.
unfoldable pub ulid_tostring : (bsiz : ℕ) → List ℕ → Returned
unfolding pack
ulid_tostring bsiz bytes =
    let id = λ (i : ℕ). get_or bytes i 0 in
    if ltb bsiz 27
    then enospc
    else written (
        digit (bit_and (id 0) 224 / 2 ^ 5)
        ∷ digit (bit_and (id 0) 31)
        ∷ (pack (id 1) (id 2) (id 3) (id 3) (id 4) (id 5)
            ++ (pack (id 6) (id 7) (id 7) (id 8) (id 9) (id 10)
                ++ pack (id 11) (id 12) (id 12) (id 13) (id 14) (id 15))))
