-- ===== src/Ulid/Tests.antt =====
-- Identifiers at concrete bytes.
use portable_lib.Prelude.{none, some, [], ◌∷◌, ◌≡◌, refl}
use portable_lib.Ulid.{
  written, enospc, einval, failed, time_byte, ulid_generate, value, values, unpack, decoded,
  ulid_fromstring, digit, pack, ulid_tostring, ulid_decoder, b32,
}

program : Unit {0}
unfolding time_byte ulid_generate value values unpack decoded ulid_fromstring digit pack
    ulid_tostring ulid_decoder b32
program = tt

-- Two times of which the second is years after the first.
first_time :
    ulid_generate 16 0 (some (1500000000, 0)) (7 ∷ []) ≡ written (1 ∷ 1 ∷ 1 ∷ 1 ∷ 1 ∷ 1 ∷ 7 ∷ [])
unfolding program
first_time = refl

second_time :
    ulid_generate 16 0 (some (1700000000, 5000)) (7 ∷ []) ≡ written (1 ∷ 1 ∷ 1 ∷ 1 ∷ 1 ∷ 1 ∷ 7 ∷ [])
unfolding program
second_time = refl

no_clock : ulid_generate 16 22 none [] ≡ failed 22
unfolding program
no_clock = refl

short : ulid_fromstring 16 (0x30 ∷ []) ≡ einval
unfolding program
short = refl

no_digit : values (0x30 ∷ 0x55 ∷ []) ≡ none
unfolding program
no_digit = refl

lower_case : values (0x7a ∷ 0x5a ∷ []) ≡ some (31 ∷ 31 ∷ [])
unfolding program
lower_case = refl

no_room : ulid_tostring 26 [] ≡ enospc
unfolding program
no_room = refl
