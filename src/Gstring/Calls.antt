-- ===== src/Gstring/Calls.antt =====
-- Sequences of calls on a growable string, as operations on its text.
use portable_lib.Prelude.{◌%◌, ℕ, ◌+◌, ◌^◌, ◌≤◌, some, List, [], ◌∷◌, ◌++◌, arith, length, take}
use portable_lib.Gstring.{
  gstr_trim, c_string, gstr_append_str, Gstr, gstr_append_ch, gstr_truncate, gstr_chop,
  gstr_chop_if,
}
use portable_lib.Gstring.Growing.{IsValid, text, Holds, append-Holds, append_ch-Holds}
use portable_lib.Split.{strtrim}
use portable_lib.Gstring.Trimming.{trim-Holds}
use portable_lib.Gstring.Ending.{
  truncate-Holds, without_end, without_end_in, chop-Holds, chop_if-Holds,
}

-- The calls, the room that they may ask for, and the text behind them.
pub data Call : Type 0 where
  append_text : List ℕ → Call
  append_char : ℕ → Call
  truncate : ℕ → Call
  chop : Call
  chop_if : List ℕ → Call
  trim : Call

abbrev pub added : Call → ℕ
added (append_text s) = length s
added (append_char ch) = 1
added _ = 0

abbrev pub gstr_call : ℕ → Gstr → Call → Gstr
gstr_call junk g (append_text s) = gstr_append_str junk g (some s)
gstr_call junk g (append_char ch) = gstr_append_ch junk g ch
gstr_call junk g (truncate n) = gstr_truncate g n
gstr_call junk g chop = gstr_chop g
gstr_call junk g (chop_if s) = gstr_chop_if g s
gstr_call junk g trim = gstr_trim g

abbrev pub text_call : List ℕ → Call → List ℕ
text_call t (append_text s) = t ++ s
text_call t (append_char ch) = t ++ ((ch % 256) ∷ [])
text_call t (truncate n) = take n t
text_call t chop = without_end (without_end t 0x0a) 0x0d
text_call t (chop_if s) = without_end_in t s
text_call t trim = strtrim (c_string t)

append_str-Holds :
    (junk : ℕ) (g : Gstr) (s : List ℕ)
    → IsValid g
    → g.len + (length s + 1) + 1 ≤ 2 ^ 31
    → Holds (gstr_append_str junk g (some s)) (text g ++ s)
unfolding gstr_append_str
append_str-Holds junk g s v small = append-Holds junk g s v small

pub gstr_call-Holds :
    (junk : ℕ) (g : Gstr) (c : Call)
    → IsValid g
    → g.len + added c + 2 ≤ 2 ^ 31
    → Holds (gstr_call junk g c) (text_call (text g) c)
gstr_call-Holds junk g (append_text s) v small = append_str-Holds junk g s v (omega (arith, small))
gstr_call-Holds junk g (append_char ch) v small = append_ch-Holds junk g ch v (omega (arith, small))
gstr_call-Holds junk g (truncate n) v small = truncate-Holds g n v
gstr_call-Holds junk g chop v small = chop-Holds g v
gstr_call-Holds junk g (chop_if s) v small = chop_if-Holds g s v
gstr_call-Holds junk g trim v small = trim-Holds g v

abbrev pub gstr_calls : ℕ → Gstr → List Call → Gstr
gstr_calls junk g [] = g
gstr_calls junk g (c ∷ cs) = gstr_calls junk (gstr_call junk g c) cs

abbrev pub text_calls : List ℕ → List Call → List ℕ
text_calls t [] = t
text_calls t (c ∷ cs) = text_calls (text_call t c) cs

abbrev pub total : List Call → ℕ
total [] = 0
total (c ∷ cs) = added c + total cs
