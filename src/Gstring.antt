-- ===== src/Gstring.antt =====
-- src/gstring.c: strings that grow. A string is its buffer with the length and the capacity; lengths
-- are those of texts in memory, and an allocation succeeds, since the code asserts it. What a new
-- part of a buffer holds is the argument `junk`.
pub mod Capacity
pub mod Growing
pub mod Ending
pub mod Trimming
pub mod Calls
mod Tests
use portable_lib.Prelude.{
  ℕ, ◌+◌, ◌-◌, ◌*◌, ◌/◌, ◌%◌, ◌^◌, Bool, true, false, ◌||◌, not, Option, none, some, List, [], ◌∷◌,
  ◌++◌, if◌then◌else◌, ◌==◌, ltb, bit_or, get_or, set, length, take, drop, replicate, sub64, add64,
  u8_mod, u64_mod, write_at,
}
use portable_lib.Split.{skip_leading, text_end}

pub record Gstr : Type 0 where
  pub str : List ℕ
  pub len : ℕ
  pub cap : ℕ

abbrev pub gstr : List ℕ → ℕ → ℕ → Gstr
gstr str len cap = record { str = str; len = len; cap = cap }

-- `NEXTPOW2`, on a `size_t`
unfoldable pub next_pow2_size : ℕ → ℕ
next_pow2_size v =
    let n0 = sub64 v 1 in
    let n1 = bit_or n0 (n0 / 2) in
    let n2 = bit_or n1 (n1 / 2 ^ 2) in
    let n3 = bit_or n2 (n2 / 2 ^ 4) in
    let n4 = bit_or n3 (n3 / 2 ^ 8) in
    let n5 = bit_or n4 (n4 / 2 ^ 16) in let n6 = bit_or n5 (n5 / 2 ^ 32) in (n6 + 1) % u64_mod

-- A `size_t` that is passed as an `int` and added to a `size_t`: it is cut to 32 bits, and from the half
-- on it is negative.
unfoldable pub through_int : ℕ → ℕ
through_int n = let m = n % 2 ^ 32 in if ltb m (2 ^ 31) then m else m + (2 ^ 64 - 2 ^ 32)

unfoldable pub grow_if : ℕ → Gstr → ℕ → Gstr
unfolding through_int
grow_if junk g n =
    let want = add64 (add64 g.len (through_int n)) 1 in
    let cap = next_pow2_size want in
    if ltb g.cap want then gstr (g.str ++ replicate (cap - g.cap) junk) g.len cap else g

-- `__init_gstr`, on a zeroed buffer; a null source is a missing text. `gstr_init`, `gstr_init_from`
-- and `gstr_dup` call it.
unfoldable pub gstr_init : ℕ → Gstr
gstr_init n =
    let m = if n == 0 then 63 else n in
    let cap = next_pow2_size (m + 1) in gstr (set (replicate cap 0) 0 0) 0 cap

unfoldable pub gstr_init_from : List ℕ → Gstr
gstr_init_from src =
    let m = if length src == 0 then 63 else length src in
    let cap = next_pow2_size (m + 1) in
    gstr (write_at (replicate cap 0) 0 (src ++ (0 ∷ []))) (length src) cap

-- `__append`, from the text and its NUL
unfoldable pub append : ℕ → Gstr → List ℕ → Gstr
append junk g s =
    let g' = grow_if junk g (length s + 1) in
    gstr (write_at g'.str g'.len (s ++ (0 ∷ []))) (g'.len + length s) g'.cap

-- A null pointer is a missing text. The NUL behind the other string's text is copied with it.
unfoldable pub gstr_append_str : ℕ → Gstr → Option (List ℕ) → Gstr
gstr_append_str junk g none = g
gstr_append_str junk g (some s) = append junk g s

unfoldable pub gstr_append : ℕ → Gstr → Option Gstr → Gstr
gstr_append junk g none = g
gstr_append junk g (some that) = append junk g (take that.len that.str)

-- The `int` is stored as a character.
unfoldable pub gstr_append_ch : ℕ → Gstr → ℕ → Gstr
gstr_append_ch junk g ch =
    let g' = grow_if junk g 1 in
    gstr (set (set g'.str g'.len (ch % u8_mod)) (g'.len + 1) 0) (g'.len + 1) g'.cap

unfoldable pub gstr_truncate : Gstr → ℕ → Gstr
gstr_truncate g n = if ltb n g.len then gstr (set g.str n 0) n g.cap else g

-- `g->str[--g->len] = 0`
abbrev pub shorten : Gstr → Gstr
shorten g = gstr (set g.str (g.len - 1) 0) (g.len - 1) g.cap

-- The last character where there is one, and whether it is `c`
abbrev pub ends_with : Gstr → ℕ → Bool
ends_with g c = if g.len == 0 then false else get_or g.str (g.len - 1) 0 == c

unfoldable pub gstr_chop : Gstr → Gstr
gstr_chop g =
    let g' = if ends_with g 0x0a then shorten g else g in
    if ends_with g' 0x0d then shorten g' else g'

-- `strchr` as a test
unfoldable pub has_char : List ℕ → ℕ → Bool
has_char [] c = false
has_char (x ∷ s) c = (x == c) || has_char s c

unfoldable pub gstr_chop_if : Gstr → List ℕ → Gstr
gstr_chop_if g s =
    let c = get_or g.str (g.len - 1) 0 in
    let chopped = if c == 0 then g else if has_char s c then shorten g else g in
    if g.len == 0 then g else chopped

-- A buffer's characters before its first NUL
unfoldable pub c_string : List ℕ → List ℕ
c_string [] = []
c_string (c ∷ s) = let rest = c_string s in if c == 0 then [] else c ∷ rest

-- The text from the first character that is no space, copied to the front with its NUL, and cut
-- behind the last one; the loops are those of `strtrim`.
abbrev pub trimmed : Gstr → List ℕ → Gstr
trimmed g [] = gstr (set g.str 0 0) 0 g.cap
trimmed g (c ∷ s) =
    let n = text_end 0 0 (c ∷ s) + 1 in
    gstr (set (write_at g.str 0 ((c ∷ s) ++ (0 ∷ []))) n 0) n g.cap

unfoldable pub gstr_trim : Gstr → Gstr
gstr_trim g = trimmed g (skip_leading (c_string g.str))

-- The length of the target stays 0.
unfoldable pub gstr_copy : ℕ → Gstr → Gstr → Gstr
gstr_copy junk dest src =
    let g = grow_if junk (record dest { len = 0 }) (src.len + 1) in
    record g { str = write_at g.str 0 (take (src.len + 1) src.str) }

-- What `gstr_unquote` returns: 0, the quote, or -1.
pub data Unquoted : Type 0 where
  no_quote : Unquoted
  unmatched : Unquoted
  unquoted : ℕ → Unquoted

-- `memmove(g->str, g->str + 1, g->len)` after the length has been lowered by one
unfoldable pub gstr_unquote : Gstr → Gstr × Unquoted
gstr_unquote g =
    let q = get_or g.str 0 0 in
    let g' = shorten g in
    let moved = record g' { str = write_at g'.str 0 (take g'.len (drop 1 g'.str)) } in
    if not ((q == 0x22) || (q == 0x27))
    then (g, no_quote)
    else if get_or g.str (g.len - 1) 0 == q
    then (moved, unquoted q)
    else (g, unmatched)
