-- ===== src/Gstring/Trimming.antt =====
-- `gstr_trim`, as `strtrim` of the text.
use portable_lib.Prelude.{
  write_at, take-set, length-write_at, take-write_at, take-append, take-take, length-take, ℕ, zero,
  suc, ◌+◌, ◌≤◌, ◌<◌, List, [], ◌∷◌, ◌++◌, ◌≡◌, refl, sym, ap, ◌∙◌, arith, Bool-cases, inl, inr,
  if◌then◌else◌, ◌==◌, length, take, get_or, length-set, length-append, get_or-set_self,
}
use portable_lib.Chars.{isspace}
use portable_lib.Split.{skip_leading, text_end, cut_end, strtrim}
use portable_lib.Gstring.{Gstr, c_string, trimmed, gstr_trim}
use portable_lib.Gstring.Growing.{IsValid, text, Holds}

c_string-text :
    (str : List ℕ) (n : ℕ)
    → n < length str
    → get_or str n 0 ≡ 0
    → c_string str ≡ c_string (take n str)
unfolding c_string
c_string-text [] n h e = absurd (omega arith)
c_string-text (c ∷ str) zero h e = rw e refl
c_string-text (c ∷ str) (suc n) h e = rw (c_string-text str n (omega arith) e) refl

length-c_string : (s : List ℕ) → length (c_string s) ≤ length s
unfolding c_string
length-c_string [] = omega arith
length-c_string (c ∷ s) = elim (Bool-cases (c == 0)) [
  | inl e ↦ rw e (omega arith)
  | inr e ↦ rw e (omega (arith, length-c_string s))
]

length-skip_leading : (s : List ℕ) → length (skip_leading s) ≤ length s
unfolding skip_leading
length-skip_leading [] = omega arith
length-skip_leading (c ∷ s) = elim (Bool-cases (isspace c)) [
  | inl e ↦ rw e (omega (arith, length-skip_leading s))
  | inr e ↦ rw e (omega arith)
]

text_end-lt : (i end : ℕ) (s : List ℕ) → end < i + length s → text_end i end s < i + length s
unfolding text_end
text_end-lt i end [] h = h
text_end-lt i end (c ∷ s) h =
    let more = text_end-lt (i + 1) (if isspace c then end else i) s (elim (Bool-cases (isspace c)) [
      | inl e ↦ rw e (omega (arith, h))
      | inr e ↦ rw e (omega arith)
    ]) in
    omega (arith, more)

trimmed-Holds :
    (g : Gstr) (s : List ℕ) → IsValid g → length s < g.cap → Holds (trimmed g s) (cut_end s)
trimmed-Holds g [] v h = record {
  valid = record {
    whole = length-set g.str 0 0 ∙ v.whole;
    inside = omega (arith, h);
    ended = get_or-set_self g.str 0 0 0 (omega (arith, h, v.whole));
  };
  same = refl;
}
trimmed-Holds g (c ∷ t) v h =
    let s = c ∷ t in
    let b = write_at g.str 0 (s ++ (0 ∷ [])) in
    let n = text_end 0 0 s + 1 in
    let l = length-write_at g.str 0 (s ++ (0 ∷ [])) in
    let len = length-append s (0 ∷ []) in
    let short : n ≤ length s = omega (arith, text_end-lt 0 0 s (omega arith)) in
    record {
      valid = record {
        whole = length-set b n 0 ∙ l ∙ v.whole;
        inside = omega (arith, short, h);
        ended = get_or-set_self b n 0 0 (omega (arith, short, h, l, v.whole));
      };
      same =
          take-set b n n 0 (omega arith)
          ∙ sym (take-take b n (0 + length (s ++ (0 ∷ []))) (omega (arith, short, len)))
          ∙ ap (take n) (take-write_at (s ++ (0 ∷ [])) g.str 0 (omega (arith, len, h, v.whole)))
          ∙ take-append s (0 ∷ []) n short;
    }

pub trim-Holds : (g : Gstr) → IsValid g → Holds (gstr_trim g) (strtrim (c_string (text g)))
unfolding gstr_trim strtrim
trim-Holds g v =
    let same = c_string-text g.str g.len (omega (arith, v.inside, v.whole)) v.ended in
    let s = skip_leading (c_string (text g)) in
    let len = length-take g.str g.len (omega (arith, v.inside, v.whole)) in
    rw same (
      trimmed-Holds g s v (
        omega (
          arith,
          length-skip_leading (c_string (text g)),
          length-c_string (text g),
          len,
          v.inside,
        )))

length-cut_end : (s : List ℕ) → length (cut_end s) ≤ length s
length-cut_end [] = omega arith
length-cut_end (c ∷ t) =
    let short = text_end-lt 0 0 (c ∷ t) (omega arith) in
    omega (arith, short, length-take (c ∷ t) (text_end 0 0 (c ∷ t) + 1) (omega (arith, short)))

pub length-trim : (t : List ℕ) → length (strtrim (c_string t)) ≤ length t
unfolding strtrim
length-trim t = omega (
  arith,
  length-cut_end (skip_leading (c_string t)),
  length-skip_leading (c_string t),
  length-c_string t,
)
