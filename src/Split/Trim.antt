-- ===== src/Split/Trim.antt =====
-- What `strtrim` leaves of a text.
use portable_lib.Prelude.{
  ℕ, suc, ◌+◌, ◌<◌, Bool, true, false, List, [], ◌∷◌, ◌++◌, ◌≡◌, refl, ap, ◌∙◌, Bool-cases, inl,
  inr, ◌⊎◌, arith, length, take,
}
use portable_lib.Chars.{isspace, every}
use portable_lib.Split.{skip_leading, text_end, cut_end, strtrim}

abbrev pub first_is : (ℕ → Bool) → List ℕ → Bool
first_is p [] = false
first_is p (c ∷ s) = p c

abbrev pub last_is : (ℕ → Bool) → List ℕ → Bool
last_is p [] = false
last_is p (c ∷ []) = p c
last_is p (c ∷ e ∷ s) = last_is p (e ∷ s)

-- A text is spaces, the trimmed text, and spaces; the trimmed text has no space at either end.
pub record Trimmed (s t : List ℕ) : Type 0 where
  pub before : List ℕ
  pub behind : List ℕ
  pub parts : s ≡ before ++ (t ++ behind)
  pub before_spaces : every isspace before ≡ true
  pub behind_spaces : every isspace behind ≡ true
  pub starts : first_is isspace t ≡ false
  pub ends : last_is isspace t ≡ false

-- Where the last character that is no space has the index `k`.
record EndsAt (s : List ℕ) (k : ℕ) : Type 0 where
  rest : List ℕ
  parts : s ≡ take (suc k) s ++ rest
  spaces : every isspace rest ≡ true
  ends : last_is isspace (take (suc k) s) ≡ false
  inside : k < length s

last_is-take :
    (p : ℕ → Bool) (c k : ℕ) (s : List ℕ)
    → k < length s
    → last_is p (c ∷ take (suc k) s) ≡ last_is p (take (suc k) s)
last_is-take p c k [] h = absurd (omega arith)
last_is-take p c k (e ∷ s) h = refl

EndsAt-cons : (c k : ℕ) (s : List ℕ) → EndsAt s k → EndsAt (c ∷ s) (suc k)
EndsAt-cons c k s f = record {
  rest = f.rest;
  parts = ap (λ r. c ∷ r) f.parts;
  spaces = f.spaces;
  ends = last_is-take isspace c k s f.inside ∙ f.ends;
  inside = omega (arith, f.inside);
}

text_end-EndsAt :
    (i end : ℕ) (s : List ℕ)
    → ((every isspace s ≡ true) × (text_end i end s ≡ end))
      ⊎ ((k : ℕ) × (text_end i end s ≡ i + k) × EndsAt s k)
unfolding text_end every
text_end-EndsAt i end [] = inl (refl, refl)
text_end-EndsAt i end (c ∷ s) = elim (Bool-cases (isspace c)) [
  | inl e ↦ elim (text_end-EndsAt (i + 1) end s) [
    | inl (all, at) ↦ inl (rw e all, rw e at)
    | inr (k, at, f) ↦ inr (suc k, rw e (omega (arith, at)), EndsAt-cons c k s f)
  ]
  | inr e ↦ elim (text_end-EndsAt (i + 1) i s) [
    | inl (all, at) ↦ inr (
      0,
      rw e (omega (arith, at)),
      record { rest = s; parts = refl; spaces = all; ends = e; inside = omega arith },
    )
    | inr (k, at, f) ↦ inr (suc k, rw e (omega (arith, at)), EndsAt-cons c k s f)
  ]
]

-- The leading spaces.
record Skipped (s t : List ℕ) : Type 0 where
  before : List ℕ
  parts : s ≡ before ++ t
  spaces : every isspace before ≡ true
  starts : first_is isspace t ≡ false

skip_leading-Skipped : (s : List ℕ) → Skipped s (skip_leading s)
unfolding skip_leading every
skip_leading-Skipped [] = record { before = []; parts = refl; spaces = refl; starts = refl }
skip_leading-Skipped (c ∷ s) = elim (Bool-cases (isspace c)) [
  | inl e ↦
      let r = skip_leading-Skipped s in
      rw e (record {
        before = c ∷ r.before;
        parts = ap (λ x. c ∷ x) r.parts;
        spaces = rw e r.spaces;
        starts = r.starts;
      })
  | inr e ↦ rw e (record { before = []; parts = refl; spaces = refl; starts = e })
]

cut_end-Trimmed : (s t : List ℕ) → Skipped s t → Trimmed s (cut_end t)
unfolding every
cut_end-Trimmed s [] r = record {
  before = r.before;
  behind = [];
  parts = r.parts;
  before_spaces = r.spaces;
  behind_spaces = refl;
  starts = refl;
  ends = refl;
}
cut_end-Trimmed s (c ∷ t) r = elim (text_end-EndsAt 0 0 (c ∷ t)) [
  | inl (all, at) ↦ absurd (ground (arith, all, r.starts))
  | inr (k, at, f) ↦
      let n : text_end 0 0 (c ∷ t) + 1 ≡ suc k = omega (arith, at) in
      rw n (record {
        before = r.before;
        behind = f.rest;
        parts = r.parts ∙ ap (λ x. r.before ++ x) f.parts;
        before_spaces = r.spaces;
        behind_spaces = f.spaces;
        starts = r.starts;
        ends = f.ends;
      })
]

-- A text is spaces, what strtrim leaves of it, and spaces, and what it leaves has no space at
-- either end.
pub strtrim-Trimmed : (s : List ℕ) → Trimmed s (strtrim s)
unfolding strtrim
strtrim-Trimmed s = cut_end-Trimmed s (skip_leading s) (skip_leading-Skipped s)
