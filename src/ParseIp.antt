-- ===== src/ParseIp.antt =====
-- src/parse-ip.c: IPv4 addresses and masks as strings. A string is its characters' codes; a
-- function that returns 0 on failure and writes its result through a pointer returns an option.
pub mod Printed
pub mod Masked
pub mod Bounds
pub mod Cidr
mod Tests
use portable_lib.Prelude.{
  ℕ, zero, suc, ◌+◌, ◌-◌, ◌*◌, ◌/◌, ◌%◌, ◌^◌, Bool, true, false, not, Option, none, some, List, [],
  ◌∷◌, ◌++◌, if◌then◌else◌, ◌==◌, ltb, leb, bit_and, set, length, take, replicate, u32_mod, u64_mod,
  ◌>>=◌,
}
use portable_lib.Chars.{isdigit, strchr, print_octet}
use portable_lib.Encdec.{dec_be_u32}

-- `n = n * 10 + (c - '0')`, in a `size_t`
unfoldable pub dtoi_from : ℕ → List ℕ → Option ℕ
dtoi_from n [] = some n
dtoi_from n (c ∷ s) =
    let rest = dtoi_from ((n * 10 + (c - 0x30)) % u64_mod) s in if isdigit c then rest else none

unfoldable pub dtoi : List ℕ → Option ℕ
dtoi s = dtoi_from 0 s

-- The locals of `parse_ipv4`: the octets, how many are there, and `x` with its `m` characters.
pub record Octets : Type 0 where
  pub p : List ℕ
  pub n : ℕ
  pub x : List ℕ

abbrev pub octets : List ℕ → ℕ → List ℕ → Octets
octets p n x = record { p = p; n = n; x = x }

-- From `x[m] = 0` to `m = 0`.
unfoldable pub end_octet : Octets → Option Octets
end_octet o = dtoi o.x >>= λ z.
    if ltb 255 z then none else some (octets (set o.p o.n (bit_and z 0xff)) (o.n + 1) [])

-- The body of the loop.
unfoldable pub take_char : Octets → ℕ → Option Octets
take_char o c =
    if ltb 3 o.n
    then none
    else if ltb 3 (length o.x)
    then none
    else if not (c == 0x2e)
    then some (octets o.p o.n (o.x ++ (c ∷ [])))
    else end_octet o

unfoldable pub take_chars : Octets → List ℕ → Option Octets
take_chars o [] = some o
take_chars o (c ∷ s) = take_char o c >>= λ o'. take_chars o' s

abbrev pub no_octets : Octets
no_octets = octets (0 ∷ 0 ∷ 0 ∷ 0 ∷ []) 0 []

unfoldable pub parse_ipv4 : List ℕ → Option ℕ
parse_ipv4 s = take_chars no_octets s >>= λ o.
    (if ltb 0 (length o.x) then end_octet o else some o) >>= λ o'.
    if ltb o'.n 4 then none else some (dec_be_u32 o'.p)

-- The string that `str_ipv4` writes, where its buffer has room for 16 characters.
unfoldable pub str_ipv4 : ℕ → List ℕ
str_ipv4 a =
    print_octet (bit_and (a / 2 ^ 24) 0xff)
    ++ (0x2e ∷ print_octet (bit_and (a / 2 ^ 16) 0xff)
        ++ (0x2e ∷ print_octet (bit_and (a / 2 ^ 8) 0xff)
            ++ (0x2e ∷ print_octet (bit_and (a / 2 ^ 0) 0xff))))

-- What `parse_ipv4_and_mask` gives; a shift of a 32-bit number by 32 is not defined by the language.
pub data Parsed : Type 0 where
  failed : Parsed
  parsed : ℕ → ℕ → Parsed
  undefined : ℕ → Parsed

-- `safe_strcpy` into `sz` characters: what is copied, and whether all of it is.
unfoldable pub safe_strcpy : ℕ → List ℕ → List ℕ × Bool
safe_strcpy sz src = (take (sz - 1) src, ltb (length src) sz)

-- The strings `as` and `ms`.
unfoldable pub split_mask : List ℕ → Option (List ℕ × List ℕ)
split_mask str = elim (strchr str 0x2f) [
  | none ↦ let r = safe_strcpy 32 str in if r.1 then some (r.0, []) else none
  | some r ↦ if ltb 15 (length r.0) then none else some (r.0, (safe_strcpy 32 r.1).0)
]

-- `0xffffffff << (32 - (uint32_t) z)`
unfoldable pub shift_mask : ℕ → ℕ → Parsed
shift_mask a z = if z == 0 then undefined a else parsed a (0xffffffff * 2 ^ (32 - z) % u32_mod)

-- The part behind the address's.
unfoldable pub parse_mask : ℕ → List ℕ → Parsed
parse_mask a ms = elim (strchr ms 0x2e) [
  | some r ↦ elim (parse_ipv4 ms) [ none ↦ failed | some m ↦ parsed a m ]
  | none ↦
      if ltb 0 (length ms)
      then elim (dtoi ms) [ none ↦ failed | some z ↦ if ltb 32 z then failed else shift_mask a z ]
      else shift_mask a 32
]

unfoldable pub parse_ipv4_and_mask : List ℕ → Parsed
parse_ipv4_and_mask str = elim (split_mask str) [
  | none ↦ failed
  | some r ↦ elim (parse_ipv4 r.0) [ none ↦ failed | some a ↦ parse_mask a r.1 ]
]

-- `while (v & 0x80)`, on fuel: the count and what remains of the octet.
unfoldable pub count_ones : ℕ → ℕ → ℕ → Option (ℕ × ℕ)
count_ones zero n v = none
count_ones (suc fuel) n v =
    let rest = count_ones fuel (n + 1) (bit_and (v * 2) 0xff) in
    if bit_and v 0x80 == 0 then some (n, v) else rest

-- `while (mask > 0)`, on fuel; no result where the mask is not a prefix.
unfoldable pub count_octets : ℕ → ℕ → ℕ → Option (Option ℕ)
count_octets zero n mask = none
count_octets (suc fuel) n mask =
    let v = bit_and (bit_and 0xff000000 mask / 2 ^ 24) 0xff in
    let shifted = mask * 2 ^ 8 % u32_mod in
    let rest = count_octets fuel (n + 8) shifted in
    if mask == 0
    then some (some n)
    else if v == 0xff
    then rest
    else count_ones 9 n v >>= λ r.
        if not (r.1 == 0)
        then some none
        else if not (shifted == 0)
        then some none
        else some (some r.0)

unfoldable pub mask_to_cidr4 : ℕ → Option (Option ℕ)
mask_to_cidr4 mask = count_octets 5 0 mask
