-- ===== src/ParseIp/Tests.antt =====
-- Addresses and masks at concrete strings.
use portable_lib.Prelude.{ℕ, ◌≤◌, Option, none, some, List, [], ◌∷◌, ◌++◌, ◌≡◌, refl, arith, ◌↔◌}
use portable_lib.Chars.{print_octet, strchr}
use portable_lib.Encdec.{dec_be_u32, byte, shifted}
use portable_lib.ParseIp.{
  octets, no_octets, dtoi, dtoi_from, take_char, take_chars, end_octet, parse_ipv4, str_ipv4,
  parsed, undefined, safe_strcpy, split_mask, shift_mask, parse_mask, parse_ipv4_and_mask,
  mask_to_cidr4, count_octets, count_ones,
}
use portable_lib.ParseIp.Printed.{parse_ipv4-str_ipv4}
use portable_lib.ParseIp.Masked.{parse_ipv4_and_mask-str_ipv4}
use portable_lib.ParseIp.Bounds.{IsBounded, take_chars-IsBounded}
use portable_lib.ParseIp.Cidr.{netmask, mask_to_cidr4_lem}

program : Unit {0}
unfolding print_octet strchr dec_be_u32 byte shifted dtoi dtoi_from take_char take_chars end_octet
    parse_ipv4 str_ipv4 safe_strcpy split_mask shift_mask parse_mask parse_ipv4_and_mask
    mask_to_cidr4 count_octets count_ones
program = tt

-- 10.0.12.255
abbrev address : ℕ
address = 0x0a000cff

abbrev spelled : List ℕ
spelled = 0x31 ∷ 0x30 ∷ 0x2e ∷ 0x30 ∷ 0x2e ∷ 0x31 ∷ 0x32 ∷ 0x2e ∷ 0x32 ∷ 0x35 ∷ 0x35 ∷ []

printed : str_ipv4 address ≡ spelled
unfolding program
printed = refl

read : parse_ipv4 spelled ≡ some address
unfolding program
read = refl

-- "...." is read as 0.0.0.0, "1..2.3" as 1.0.2.3.
dots : parse_ipv4 (0x2e ∷ 0x2e ∷ 0x2e ∷ 0x2e ∷ []) ≡ some 0
unfolding program
dots = refl

hole : parse_ipv4 (0x31 ∷ 0x2e ∷ 0x2e ∷ 0x32 ∷ 0x2e ∷ 0x33 ∷ []) ≡ some 0x01000203
unfolding program
hole = refl

-- 1.2.3.256
too_large : parse_ipv4 (0x31 ∷ 0x2e ∷ 0x32 ∷ 0x2e ∷ 0x33 ∷ 0x2e ∷ 0x32 ∷ 0x35 ∷ 0x36 ∷ []) ≡ none
unfolding program
too_large = refl

masked : parse_ipv4_and_mask (spelled ++ (0x2f ∷ 0x38 ∷ [])) ≡ parsed address 0xff000000
unfolding program
masked = refl

masked_zero : parse_ipv4_and_mask (spelled ++ (0x2f ∷ 0x30 ∷ [])) ≡ undefined address
unfolding program
masked_zero = refl

gap : mask_to_cidr4 0xff00ff00 ≡ some none
unfolding program
gap = refl

parse_ipv4-str_ipv4_example : parse_ipv4 (str_ipv4 address) ≡ some address
parse_ipv4-str_ipv4_example = parse_ipv4-str_ipv4 address (omega arith)

parse_ipv4_and_mask-str_ipv4_example :
    (parse_ipv4_and_mask (str_ipv4 address ++ (0x2f ∷ print_octet 20))
      ≡ parsed address (netmask 20))
    × (parse_ipv4_and_mask (str_ipv4 address ++ (0x2f ∷ str_ipv4 0xff00ff00))
        ≡ parsed address 0xff00ff00)
    × (parse_ipv4_and_mask (str_ipv4 address) ≡ parsed address 0xffffffff)
parse_ipv4_and_mask-str_ipv4_example =
    parse_ipv4_and_mask-str_ipv4 address 0xff00ff00 20 (omega arith) (omega arith) (omega arith)
      (omega arith)

start-IsBounded : IsBounded no_octets
start-IsBounded = record {
  four = refl;
  n_le = omega arith;
  x_le = omega arith;
  waiting = λ h. omega arith;
}

spelled-taken :
    take_chars no_octets spelled ≡ some (octets (10 ∷ 0 ∷ 12 ∷ 0 ∷ []) 3 (0x32 ∷ 0x35 ∷ 0x35 ∷ []))
unfolding program
spelled-taken = refl

take_chars-IsBounded_example : IsBounded (octets (10 ∷ 0 ∷ 12 ∷ 0 ∷ []) 3 (0x32 ∷ 0x35 ∷ 0x35 ∷ []))
take_chars-IsBounded_example =
    take_chars-IsBounded no_octets (octets (10 ∷ 0 ∷ 12 ∷ 0 ∷ []) 3 (0x32 ∷ 0x35 ∷ 0x35 ∷ []))
      spelled start-IsBounded spelled-taken

mask_to_cidr4_lem_example :
    (r : Option ℕ) × (mask_to_cidr4 0xfffff000 ≡ some r)
    × ((k : ℕ) → (r ≡ some k) ↔ ((k ≤ 32) × (0xfffff000 ≡ netmask k)))
mask_to_cidr4_lem_example = mask_to_cidr4_lem 0xfffff000 (omega arith)
