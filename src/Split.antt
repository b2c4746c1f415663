-- ===== src/Split.antt =====
-- src/strtrim.c, src/strsplit.c and the set of delimiters of src/bits.h. A token is the text from its
-- first character to the NUL that the code stores behind it.
pub mod Trim
pub mod Fields
pub mod Delims
pub mod Tokens
mod Tests
use portable_lib.Prelude.{
  ℕ, ◌+◌, ◌-◌, ◌*◌, ◌/◌, ◌%◌, ◌^◌, Bool, true, false, not, ◌&&◌, ◌||◌, Option, none, some, List, [],
  ◌∷◌, ◌++◌, if◌then◌else◌, ◌==◌, ltb, leb, bit_and, bit_or, get_or, set, length, take, replicate,
}
use portable_lib.Chars.{isspace}

-- `strtrim`: the loop over leading spaces, and `str_end` behind it as an index.
unfoldable pub skip_leading : List ℕ → List ℕ
skip_leading [] = []
skip_leading (c ∷ s) = let rest = skip_leading s in if isspace c then rest else c ∷ s

unfoldable pub text_end : ℕ → ℕ → List ℕ → ℕ
text_end i end [] = end
text_end i end (c ∷ s) = text_end (i + 1) (if isspace c then end else i) s

abbrev pub cut_end : List ℕ → List ℕ
cut_end [] = []
cut_end (c ∷ s) = take (text_end 0 0 (c ∷ s) + 1) (c ∷ s)

unfoldable pub strtrim : List ℕ → List ℕ
strtrim s = cut_end (skip_leading s)

-- `__add_delim` and `__is_delim`, on eight words
abbrev pub no_delim : List ℕ
no_delim = replicate 8 0

unfoldable pub add_delim : List ℕ → ℕ → List ℕ
add_delim v c = set v (c / 32) (bit_or (get_or v (c / 32) 0) (2 ^ (c % 32)))

unfoldable pub is_delim : List ℕ → ℕ → Bool
is_delim v c = not (bit_and (2 ^ (c % 32)) (get_or v (c / 32) 0) == 0)

unfoldable pub delims : List ℕ → List ℕ → List ℕ
delims v [] = v
delims v (c ∷ tok) = delims (add_delim v (bit_and 0xff c)) tok

-- `stra`, where a negative `cap` is `pinned`, and `owned` tells that `arr` came from an allocator.
pub record Stra : Type 0 where
  pub arr : List (List ℕ)
  pub cap : ℕ
  pub pinned : Bool
  pub owned : Bool

-- A call that stores tokens: it stops for want of room, or reallocates an array that it may not.
pub data Stored : Type 0 where
  no_room : Stored
  undefined : Stored
  stored : Stra → Stored

abbrev pub stra_init : Stra
stra_init = record { arr = []; cap = 16; pinned = false; owned = true }

-- A capacity of -0 is not negative.
abbrev pub stra_init_from : ℕ → Stra
stra_init_from n = record { arr = []; cap = n; pinned = ltb 0 n; owned = false }

abbrev pub stra_resize : Stra → Stored
stra_resize a = if a.owned then stored (record a { cap = a.cap * 2 }) else undefined

unfoldable pub stra_resize_if : Stra → ℕ → Stored
stra_resize_if a n =
    let want = length a.arr + n in
    if a.pinned
    then (if leb want a.cap then stored a else no_room)
    else if leb a.cap want
    then stra_resize a
    else stored a

abbrev pub then_store : Stored → (Stra → Stored) → Stored
then_store no_room f = no_room
then_store undefined f = undefined
then_store (stored a) f = f a

-- `if (!_stra_resize_if(a, 1)) return 0; a->arr[a->size++] = begin;`
unfoldable pub store_token : Stra → List ℕ → Stored
store_token a begin =
    then_store (stra_resize_if a 1) λ a'. stored (record a' { arr = a'.arr ++ (begin ∷ []) })

abbrev pub no_chars : List ℕ → Bool
no_chars [] = true
no_chars (c ∷ s) = false

abbrev pub push_last : Stra → List ℕ → Stored
push_last a begin = if no_chars begin then stored a else store_token a begin

-- The loop of `__split`, where `begin` is the text between `begin` and `str`.
unfoldable pub split_from : List ℕ → Stra → List ℕ → List ℕ → Stored
split_from d a begin [] = push_last a begin
split_from d a begin (c ∷ str) =
    then_store (if is_delim d c then store_token a begin else stored a)
      λ a'. split_from d a' (if is_delim d c then [] else begin ++ (c ∷ [])) str

-- The loop of `__split_sqz`, where `begin` is the text from `begin` up to `str` or the first NUL.
unfoldable pub squeeze_from : List ℕ → Stra → List ℕ → ℕ → List ℕ → Stored
squeeze_from d a begin prev_c [] = push_last a begin
squeeze_from d a begin prev_c (c ∷ str) =
    let starts = not (is_delim d c) && is_delim d prev_c in
    then_store (if starts then store_token a begin else stored a) λ a'.
      squeeze_from d a'
        (if is_delim d c then begin else if starts then c ∷ [] else begin ++ (c ∷ [])) c str

unfoldable pub split_common : Stra → List ℕ → List ℕ → Bool → Stored
split_common a str tok sqz_consec =
    let d = delims no_delim tok in
    if sqz_consec then squeeze_from d a [] 0 (strtrim str) else split_from d a [] str

-- The tokens, or nothing for -1.
pub data Result : Type 0 where
  failed : Result
  corrupted : Result
  tokens : List (List ℕ) → Result

abbrev pub tokens_of : Stored → Result
tokens_of no_room = failed
tokens_of undefined = corrupted
tokens_of (stored a) = tokens a.arr

unfoldable pub strsplit_quick : ℕ → List ℕ → List ℕ → Bool → Result
strsplit_quick n str tok sqz_consec = tokens_of (split_common (stra_init_from n) str tok sqz_consec)

unfoldable pub strsplit : List ℕ → List ℕ → Bool → Result
strsplit str tok sqz_consec = tokens_of (split_common stra_init str tok sqz_consec)
