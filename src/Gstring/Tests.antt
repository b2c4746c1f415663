-- ===== src/Gstring/Tests.antt =====
-- Growable strings at concrete texts.
use portable_lib.Prelude.{write_at, ℕ, List, [], ◌∷◌, ◌≡◌, refl, replicate}
use portable_lib.Gstring.{
  next_pow2_size, grow_if, gstr_init, gstr_init_from, append, gstr_append_str, gstr_append,
  through_int, gstr_append_ch, gstr_truncate, gstr_chop, has_char, gstr_chop_if, gstr_copy,
  gstr_unquote, c_string, gstr_trim,
}
use portable_lib.Split.{skip_leading, text_end}
use portable_lib.Gstring.Growing.{text}
use portable_lib.Gstring.Calls.{Call, append_text, append_char, truncate, chop, trim, gstr_calls}

program : Unit {0}
unfolding next_pow2_size write_at grow_if through_int gstr_init gstr_init_from append
    gstr_append_str gstr_append gstr_append_ch gstr_truncate gstr_chop has_char gstr_chop_if
    gstr_copy gstr_unquote c_string gstr_trim skip_leading text_end
program = tt

-- "ab"
abbrev ab : List ℕ
ab = 0x61 ∷ 0x62 ∷ []

abbrev script : List Call
script =
    append_text ab
    ∷ append_char 0x0d
    ∷ append_char 0x0a
    ∷ chop
    ∷ truncate 3
    ∷ append_char 0x20
    ∷ trim
    ∷ []

run : text (gstr_calls 0xaa (gstr_init_from ab) script) ≡ 0x61 ∷ 0x62 ∷ 0x61 ∷ []
unfolding program
run = refl

grown : (append 0xaa (gstr_init_from ab) (replicate 4 0x63)).cap ≡ 8
unfolding program
grown = refl

-- A copy has the characters, but the length 0.
copied : text (gstr_copy 0 (gstr_init 8) (gstr_init_from ab)) ≡ []
unfolding program
copied = refl

-- The quotes are gone, but the length counts one character more: a NUL.
kept_length : text (gstr_unquote (gstr_init_from (0x22 ∷ 0x61 ∷ 0x22 ∷ []))).0 ≡ 0x61 ∷ 0 ∷ []
unfolding program
kept_length = refl
