-- ===== src/Gstring/Ending.antt =====
-- The calls that take characters from the end of a growable string.
use portable_lib.Prelude.{
  take-set, take-take, get_or-take, length-take, ℕ, zero, suc, ◌-◌, ◌≤◌, ◌<◌, false, List, [], ◌∷◌,
  ◌≡◌, refl, sym, ap, ◌∙◌, subst, arith, Bool-cases, inl, inr, if◌then◌else◌, ◌==◌, ltb, length,
  take, get_or, length-set, get_or-set_self,
}
use portable_lib.Gstring.{
  Gstr, gstr_truncate, shorten, ends_with, gstr_chop, has_char, gstr_chop_if,
}
use portable_lib.Gstring.Growing.{IsValid, text, Holds}

take_whole : (t : List ℕ) (n : ℕ) → length t ≤ n → take n t ≡ t
take_whole [] zero h = refl
take_whole [] (suc n) h = refl
take_whole (x ∷ t) zero h = absurd (omega arith)
take_whole (x ∷ t) (suc n) h = ap (λ r. x ∷ r) (take_whole t n (omega arith))

pub truncate-Holds : (g : Gstr) (n : ℕ) → IsValid g → Holds (gstr_truncate g n) (take n (text g))
unfolding gstr_truncate
truncate-Holds g n v = elim (Bool-cases (ltb n g.len)) [
  | inl e ↦
      let less : n < g.len = ground (arith, e) in
      rw e (record {
        valid = record {
          whole = length-set g.str n 0 ∙ v.whole;
          inside = omega (arith, less, v.inside);
          ended = get_or-set_self g.str n 0 0 (omega (arith, less, v.inside, v.whole));
        };
        same =
            take-set g.str n n 0 (omega arith)
            ∙ sym (take-take g.str n g.len (omega (arith, less)));
      })
  | inr e ↦
      let all : g.len ≤ n = ground (arith, e) in
      rw e (record {
        valid = v;
        same = sym (
            take_whole (text g) n
              (omega (arith, all, length-take g.str g.len (omega (arith, v.inside, v.whole)))));
      })
]

-- The last character of a text, and the text without it.
abbrev pub last_char : List ℕ → ℕ
last_char t = get_or t (length t - 1) 0

abbrev pub but_last : List ℕ → List ℕ
but_last t = take (length t - 1) t

pub length-text : (g : Gstr) → IsValid g → length (text g) ≡ g.len
length-text g v = length-take g.str g.len (omega (arith, v.inside, v.whole))

last_char-text :
    (g : Gstr) → IsValid g → 0 < g.len → last_char (text g) ≡ get_or g.str (g.len - 1) 0
last_char-text g v h =
    rw (length-text g v) (get_or-take g.str (g.len - 1) g.len 0 (omega (arith, h)))

shorten-Holds : (g : Gstr) → IsValid g → 0 < g.len → Holds (shorten g) (but_last (text g))
shorten-Holds g v h = record {
  valid = record {
    whole = length-set g.str (g.len - 1) 0 ∙ v.whole;
    inside = omega (arith, v.inside);
    ended = get_or-set_self g.str (g.len - 1) 0 0 (omega (arith, h, v.inside, v.whole));
  };
  same =
      take-set g.str (g.len - 1) (g.len - 1) 0 (omega arith)
      ∙ sym (rw (length-text g v) (take-take g.str (g.len - 1) g.len (omega arith)));
}

-- The text without its last character if that is `c`.
abbrev pub without_end : List ℕ → ℕ → List ℕ
without_end t c = if last_char t == c then but_last t else t

chop_one :
    (g : Gstr) (c : ℕ)
    → IsValid g
    → 0 < c
    → Holds (if ends_with g c then shorten g else g) (without_end (text g) c)
chop_one g c v pos = elim (Bool-cases (g.len == 0)) [
  | inl e ↦
      let z : g.len ≡ 0 = ground (arith, e) in
      let none : text g ≡ [] = ap (λ n. take n g.str) z in
      let other : (0 == c) ≡ false = ground arith in
      subst (λ t. Holds (if ends_with g c then shorten g else g) (without_end t c)) (sym none)
        (rw (e, other) (record { valid = v; same = none }))
  | inr e ↦
      let some_chars : 0 < g.len = ground (arith, e) in
      let last = last_char-text g v some_chars in
      elim (Bool-cases (get_or g.str (g.len - 1) 0 == c)) [
        | inl q ↦ rw (e, last, q) (shorten-Holds g v some_chars)
        | inr q ↦ rw (e, last, q) (record { valid = v; same = refl })
      ]
]

-- A line feed at the end goes, and then a carriage return.
pub chop-Holds :
    (g : Gstr) → IsValid g → Holds (gstr_chop g) (without_end (without_end (text g) 0x0a) 0x0d)
unfolding gstr_chop
chop-Holds g v =
    let first = chop_one g 0x0a v (omega arith) in
    subst (λ t. Holds (gstr_chop g) (without_end t 0x0d)) first.same
      (chop_one (if ends_with g 0x0a then shorten g else g) 0x0d first.valid (omega arith))

-- The text without its last character if that is one of `s`; a NUL is none.
abbrev pub without_end_in : List ℕ → List ℕ → List ℕ
without_end_in t s =
    if last_char t == 0 then t else if has_char s (last_char t) then but_last t else t

pub chop_if-Holds :
    (g : Gstr) (s : List ℕ) → IsValid g → Holds (gstr_chop_if g s) (without_end_in (text g) s)
unfolding gstr_chop_if
chop_if-Holds g s v = elim (Bool-cases (g.len == 0)) [
  | inl e ↦
      let z : g.len ≡ 0 = ground (arith, e) in
      let none : text g ≡ [] = ap (λ n. take n g.str) z in
      subst (λ t. Holds (gstr_chop_if g s) (without_end_in t s)) (sym none)
        (rw e (record { valid = v; same = none }))
  | inr e ↦
      let some_chars : 0 < g.len = ground (arith, e) in
      let last = last_char-text g v some_chars in
      let c = get_or g.str (g.len - 1) 0 in
      elim (Bool-cases (c == 0)) [
        | inl q ↦ rw (e, last, q) (record { valid = v; same = refl })
        | inr q ↦ elim (Bool-cases (has_char s c)) [
          | inl m ↦ rw (e, last, q, m) (shorten-Holds g v some_chars)
          | inr m ↦ rw (e, last, q, m) (record { valid = v; same = refl })
        ]
      ]
]
