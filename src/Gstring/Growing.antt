-- ===== src/Gstring/Growing.antt =====
-- What a growable string holds, and the calls that add to it.
use portable_lib.Prelude.{
  write_at, take-set, length-write_at, take-write_at, write_at-append, take-append, ℕ, ◌+◌, ◌-◌,
  ◌%◌, u8_mod, add64, ◌^◌, ◌≤◌, ◌<◌, List, [], ◌∷◌, ◌++◌, ◌≡◌, refl, ◌∙◌, subst, arith, Bool-cases,
  inl, inr, if◌then◌else◌, ◌==◌, ltb, length, take, get_or, replicate, length-set, length-append,
  length-replicate, get_or-set_self,
}
use portable_lib.Gstring.{
  Gstr, gstr, next_pow2_size, grow_if, through_int, gstr_init_from, append, gstr_append_ch,
}
use portable_lib.Gstring.Capacity.{next_pow2_size-bounds}

-- The buffer has the capacity, the text ends with a NUL inside it.
pub record IsValid (g : Gstr) : Type 0 where
  pub whole : length g.str ≡ g.cap
  pub inside : g.len < g.cap
  pub ended : get_or g.str g.len 0 ≡ 0

abbrev pub text : Gstr → List ℕ
text g = take g.len g.str

-- A valid string with a text.
pub record Holds (g : Gstr) (t : List ℕ) : Type 0 where
  pub valid : IsValid g
  pub same : text g ≡ t

-- A string with room for `n` more characters and the NUL.
record HasRoom (g g' : Gstr) (n : ℕ) : Type 0 where
  whole : length g'.str ≡ g'.cap
  room : g.len + n < g'.cap
  len : g'.len ≡ g.len
  same : text g' ≡ text g

through_int-small : (n : ℕ) → n < 2 ^ 31 → through_int n ≡ n
unfolding through_int
through_int-small n h = let e : n % 2 ^ 32 ≡ n = omega arith in ground (arith, e)

grow_if-HasRoom :
    (junk n : ℕ) (g : Gstr) → IsValid g → g.len + n + 1 ≤ 2 ^ 31 → HasRoom g (grow_if junk g n) n
unfolding grow_if
grow_if-HasRoom junk n g v small =
    let want : add64 (add64 g.len (through_int n)) 1 ≡ g.len + n + 1 =
      let exact = through_int-small n (omega arith) in rw exact (omega arith) in
    rw want (
      let b = next_pow2_size-bounds (g.len + n + 1) (omega arith) (omega arith) in
      let cap = next_pow2_size (g.len + n + 1) in
      elim (Bool-cases (ltb g.cap (g.len + n + 1))) [
        | inl e ↦
            let more : g.cap < g.len + n + 1 = ground (arith, e) in
            rw e (record {
              whole = omega (
                arith,
                length-append g.str (replicate (cap - g.cap) junk),
                length-replicate (cap - g.cap) junk,
                v.whole,
                b.0,
                more,
              );
              room = omega (arith, b.0);
              len = refl;
              same =
                  take-append g.str (replicate (cap - g.cap) junk) g.len
                    (omega (arith, v.whole, v.inside));
            })
        | inr e ↦
            rw e (record { whole = v.whole; room = ground (arith, e); len = refl; same = refl })
      ])

-- A text and its NUL written behind the text.
written :
    (str s : List ℕ) (len cap : ℕ)
    → length str ≡ cap
    → len + length s < cap
    → Holds (gstr (write_at str len (s ++ (0 ∷ []))) (len + length s) cap) (take len str ++ s)
written str s len cap w h =
    let l = length-write_at str len s in
    rw (write_at-append s str len 0) (record {
      valid = record {
        whole = length-set (write_at str len s) (len + length s) 0 ∙ l ∙ w;
        inside = h;
        ended = get_or-set_self (write_at str len s) (len + length s) 0 0 (omega (arith, l, w, h));
      };
      same =
          take-set (write_at str len s) (len + length s) (len + length s) 0 (omega arith)
          ∙ take-write_at s str len (omega (arith, w, h));
    })

pub append-Holds :
    (junk : ℕ) (g : Gstr) (s : List ℕ)
    → IsValid g
    → g.len + (length s + 1) + 1 ≤ 2 ^ 31
    → Holds (append junk g s) (text g ++ s)
unfolding append
append-Holds junk g s v small =
    let g' = grow_if junk g (length s + 1) in
    let r = grow_if-HasRoom junk (length s + 1) g v small in
    subst (λ t. Holds (append junk g s) (t ++ s)) r.same
      (written g'.str s g'.len g'.cap r.whole (omega (arith, r.len, r.room)))

pub append_ch-Holds :
    (junk : ℕ) (g : Gstr) (ch : ℕ)
    → IsValid g
    → g.len + 1 + 1 ≤ 2 ^ 31
    → Holds (gstr_append_ch junk g ch) (text g ++ ((ch % u8_mod) ∷ []))
unfolding gstr_append_ch write_at
append_ch-Holds junk g ch v small =
    let g' = grow_if junk g 1 in
    let r = grow_if-HasRoom junk 1 g v small in
    subst (λ t. Holds (gstr_append_ch junk g ch) (t ++ ((ch % u8_mod) ∷ []))) r.same
      (written g'.str ((ch % u8_mod) ∷ []) g'.len g'.cap r.whole (omega (arith, r.len, r.room)))

-- What a new string holds.
pub gstr_init_from-Holds :
    (src : List ℕ) → length src + 64 ≤ 2 ^ 31 → Holds (gstr_init_from src) src
unfolding gstr_init_from
gstr_init_from-Holds src small =
    let m = if length src == 0 then 63 else length src in
    let cap = next_pow2_size (m + 1) in
    let b = next_pow2_size-bounds (m + 1) (omega arith) (ground (arith, small)) in
    let z : 0 + length src ≡ length src = omega arith in
    subst (λ n. Holds (gstr (write_at (replicate cap 0) 0 (src ++ (0 ∷ []))) n cap) src) z
      (written (replicate cap 0) src 0 cap (length-replicate cap 0) (ground (arith, b.0)))
