-- ===== src/Hex/Tests.antt =====
-- Digits at concrete strings.
use portable_lib.Prelude.{
  ℕ, ◌<◌, none, some, List, [], ◌∷◌, ◌≡◌, refl, All, replicate, set, arith, ◌>>=◌, if◌then◌else◌,
}
use portable_lib.Chars.{every, isxdigit}
use portable_lib.Hex.{
  decoded, einval, enomem, nybble, decode_from, str2hex, chunk, uuid2str, uuid_bytes, uuid_einval,
  parse_from, uuid_fromstring, uuid_generate,
}
use portable_lib.Hex.Uuid.{uuid_fromstring-uuid2str}
use portable_lib.Hex.Digits.{spelled, str2hex-spelled}

program : Unit {0}
unfolding nybble decode_from str2hex chunk uuid2str parse_from uuid_fromstring uuid_generate every
program = tt

-- "12aBf": an odd digit is the upper half of the last byte.
odd : str2hex 3 (0x31 ∷ 0x32 ∷ 0x61 ∷ 0x42 ∷ 0x66 ∷ []) ≡ decoded (0x12 ∷ 0xab ∷ 0xf0 ∷ [])
unfolding program
odd = refl

no_room : str2hex 2 (0x31 ∷ 0x32 ∷ 0x61 ∷ 0x42 ∷ 0x66 ∷ []) ≡ enomem
unfolding program
no_room = refl

no_digit : str2hex 2 (0x31 ∷ 0x67 ∷ []) ≡ einval
unfolding program
no_digit = refl

abbrev uuid : List ℕ
uuid = 0 ∷ 17 ∷ 34 ∷ 51 ∷ 68 ∷ 85 ∷ 102 ∷ 119 ∷ 136 ∷ 153 ∷ 170 ∷ 187 ∷ 204 ∷ 221 ∷ 238 ∷ 255 ∷ []

too_small : uuid2str 36 uuid ≡ none
unfolding program
too_small = refl

uuid-bytes : All (λ z. z < 256) uuid
uuid-bytes = ground arith

-- "1fA"
abbrev three_digits : List ℕ
three_digits = 0x31 ∷ 0x66 ∷ 0x41 ∷ []

str2hex-spelled_example :
    str2hex 2 three_digits
    ≡ (if every isxdigit three_digits then decoded (spelled three_digits) else einval)
str2hex-spelled_example = str2hex-spelled three_digits 2 (omega arith)

uuid_fromstring-uuid2str_example :
    (uuid2str 37 uuid >>= λ s. some (uuid_fromstring 16 s)) ≡ some (uuid_bytes uuid)
uuid_fromstring-uuid2str_example =
    uuid_fromstring-uuid2str uuid refl uuid-bytes 37 16 (omega arith) (omega arith)

-- 36 digits without a hyphen are stored as 18 bytes before they are refused.
unhyphened :
    (parse_from 0 4 (replicate 36 0x30) ≡ some (replicate 18 0))
    × (uuid_fromstring 16 (replicate 36 0x30) ≡ uuid_einval)
unfolding program
unhyphened = (refl, refl)

-- The bits of version and variant.
version :
    uuid_generate 16 (replicate 16 0xff) ≡ uuid_bytes (set (set (replicate 16 0xff) 6 0x4f) 8 0xbf)
unfolding program
version = refl
