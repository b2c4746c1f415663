-- ===== src/StrToSize/Tests.antt =====
-- Numbers and sizes at concrete strings.
use portable_lib.Prelude.{◌-◌, ◌+◌, ◌^◌, [], ◌∷◌, ◌≡◌, refl, arith}
use portable_lib.StrToSize.{
  number, einval, erange, strtou64, size, strtosize, take_digits, take_digit, take_value,
  digit_value, skip_spaces, take_sign, take_base, starts_hex, starts_zero, drop2, negate,
  take_number, start, unit_of, bits_or_bytes, take_unit, scale,
}
use portable_lib.StrToSize.Digits.{spells, AllBelow}
use portable_lib.StrToSize.Numbers.{Reads, strtou64-Reads}
use portable_lib.StrToSize.Sizes.{Sized, strtosize-Sized}

program : Unit {0}
unfolding strtou64 strtosize take_digits take_digit take_value digit_value skip_spaces take_sign
    take_base starts_hex starts_zero drop2 negate take_number start unit_of bits_or_bytes take_unit
    scale spells
program = tt

-- " -0x1f!"
hex_refused : strtou64 (0x20 ∷ 0x2d ∷ 0x30 ∷ 0x78 ∷ 0x31 ∷ 0x66 ∷ 0x21 ∷ []) 0 ≡ einval (0x21 ∷ [])
unfolding program
hex_refused = refl

hex_minus : strtou64 (0x20 ∷ 0x2d ∷ 0x30 ∷ 0x78 ∷ 0x31 ∷ 0x66 ∷ []) 0 ≡ number (2 ^ 64 - 31) []
unfolding program
hex_minus = refl

-- "017"
octal : strtou64 (0x30 ∷ 0x31 ∷ 0x37 ∷ []) 0 ≡ number 15 []
unfolding program
octal = refl

-- "18446744073709551615" and its successor
largest :
    strtou64
      (spells (1 ∷ 8 ∷ 4 ∷ 4 ∷ 6 ∷ 7 ∷ 4 ∷ 4 ∷ 0 ∷ 7 ∷ 3 ∷ 7 ∷ 0 ∷ 9 ∷ 5 ∷ 5 ∷ 1 ∷ 6 ∷ 1 ∷ 5 ∷ []))
      10
    ≡ number (2 ^ 64 - 1) []
unfolding program
largest = refl

above :
    strtou64
      (spells (1 ∷ 8 ∷ 4 ∷ 4 ∷ 6 ∷ 7 ∷ 4 ∷ 4 ∷ 0 ∷ 7 ∷ 3 ∷ 7 ∷ 0 ∷ 9 ∷ 5 ∷ 5 ∷ 1 ∷ 6 ∷ 1 ∷ 6 ∷ []))
      10
    ≡ erange (0x36 ∷ [])
unfolding program
above = refl

-- "12kb"
bits_test : strtosize (0x31 ∷ 0x32 ∷ 0x6b ∷ 0x62 ∷ []) 10 ≡ size 1536
unfolding program
bits_test = refl

-- 2 ^ 54 + 2 ^ 45 kilobytes are 2 ^ 55 beyond 2 ^ 64, and are taken for 2 ^ 55.
overflow_missed : scale (2 ^ 54 + 2 ^ 45) (2 ^ 10) ≡ size (2 ^ 55)
unfolding program
overflow_missed = refl

hex-AllBelow : AllBelow 16 (12 ∷ 15 ∷ 0 ∷ [])
unfolding AllBelow
hex-AllBelow = (omega arith, (omega arith, (omega arith, tt)))

twelve-AllBelow : AllBelow 10 (1 ∷ 2 ∷ [])
unfolding AllBelow
twelve-AllBelow = (omega arith, (omega arith, tt))

strtou64-Reads_example : Reads 16 12 (15 ∷ 0 ∷ [])
strtou64-Reads_example = strtou64-Reads 16 12 (15 ∷ 0 ∷ []) (omega arith) (omega arith) hex-AllBelow

strtosize-Sized_example : Sized 1 (2 ∷ [])
strtosize-Sized_example = strtosize-Sized 1 (2 ∷ []) twelve-AllBelow
