-- ===== src/Split/Tests.antt =====
-- Splitting and trimming at concrete strings.
use portable_lib.Prelude.{
  ℕ, true, false, List, [], ◌∷◌, ◌≡◌, refl, arith, if◌then◌else◌, leb, length,
}
use portable_lib.Chars.{every}
use portable_lib.Split.{
  skip_leading, text_end, strtrim, add_delim, is_delim, delims, stra_resize_if, store_token,
  split_from, squeeze_from, split_common, failed, corrupted, tokens, strsplit, strsplit_quick,
}
use portable_lib.Split.Trim.{Trimmed, strtrim-Trimmed}
use portable_lib.Split.Fields.{first_field, other_fields}
use portable_lib.Split.Delims.{occurs}
use portable_lib.Split.Tokens.{fields_of, strsplit_quick-fields}

program : Unit {0}
unfolding skip_leading text_end strtrim add_delim is_delim delims stra_resize_if store_token
    split_from squeeze_from split_common strsplit strsplit_quick first_field other_fields occurs
    every
program = tt

-- " a b  " and ",,a,b,"
abbrev spaced : List ℕ
spaced = 0x20 ∷ 0x61 ∷ 0x20 ∷ 0x62 ∷ 0x20 ∷ 0x20 ∷ []

abbrev listed : List ℕ
listed = 0x2c ∷ 0x2c ∷ 0x61 ∷ 0x2c ∷ 0x62 ∷ 0x2c ∷ []

abbrev comma : List ℕ
comma = 0x2c ∷ []

trimmed : strtrim spaced ≡ 0x61 ∷ 0x20 ∷ 0x62 ∷ []
unfolding program
trimmed = refl

-- A trailing delimiter adds no empty token, a leading one does, even where delimiters are squeezed.
split :
    (strsplit listed comma false ≡ tokens ([] ∷ [] ∷ (0x61 ∷ []) ∷ (0x62 ∷ []) ∷ []))
    × (strsplit listed comma true ≡ tokens ([] ∷ (0x61 ∷ []) ∷ (0x62 ∷ []) ∷ []))
unfolding program
split = (refl, refl)

few_slots : strsplit_quick 3 listed comma false ≡ failed
unfolding program
few_slots = refl

-- An array of no slots is reallocated.
no_slots : strsplit_quick 0 listed comma false ≡ corrupted
unfolding program
no_slots = refl

strtrim-Trimmed_example : Trimmed spaced (strtrim spaced)
strtrim-Trimmed_example = strtrim-Trimmed spaced

strsplit_quick-fields_example : strsplit_quick 3 listed comma false ≡ (
    if leb (length (fields_of listed comma false)) 3
    then tokens (fields_of listed comma false)
    else failed)
unfolding program
strsplit_quick-fields_example =
    strsplit_quick-fields 3 listed comma false (omega arith) (omega arith, tt) refl
