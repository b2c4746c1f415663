-- ===== src/ParseIp/Bounds.antt =====
-- The writes of `parse_ipv4` stay inside its arrays `x[8]` and `p[4]`.
use mathlib.Core.Option.{some-injective}
use portable_lib.Prelude.{
  ℕ, ◌+◌, ◌<◌, ◌≤◌, true, false, none, some, List, [], ◌∷◌, ◌++◌, ◌≡◌, refl, ap, ◌∙◌, sym, arith,
  ◌==◌, ◌||◌, ltb, bit_and, set, length, length-append, length-set, Bool-cases, Option-cases, inl,
  inr, ◌>>=◌, subst,
}
use portable_lib.ParseIp.{Octets, octets, dtoi, take_char, take_chars, end_octet}

-- `p` has four octets; one is written only while fewer than four are there, since characters wait
-- only then; and `x` has room for them and for the NUL.
pub record IsBounded (o : Octets) : Type 0 where
  pub four : length o.p ≡ 4
  pub n_le : o.n ≤ 4
  pub x_le : length o.x ≤ 4
  pub waiting : 0 < length o.x → o.n ≤ 3

end_octet-IsBounded : (o o' : Octets) → IsBounded o → o.n ≤ 3 → end_octet o ≡ some o' → IsBounded o'
unfolding end_octet
end_octet-IsBounded o o' b hn e = elim (Option-cases (dtoi o.x)) [
  | inl f ↦ absurd (ground (arith, e, f))
  | inr (z, f) ↦ elim (Bool-cases (ltb 255 z)) [
    | inl t ↦ absurd (ground (arith, e, f, t))
    | inr t ↦
        let made = octets (set o.p o.n (bit_and z 0xff)) (o.n + 1) [] in
        let same : end_octet o ≡ some made = rw (f, end_octet, t) refl in
        subst IsBounded (some-injective _ _ (sym same ∙ e)) (record {
          four = length-set o.p o.n (bit_and z 0xff) ∙ b.four;
          n_le = omega (arith, hn);
          x_le = omega arith;
          waiting = λ h. absurd (omega (arith, h));
        })
  ]
]

take_char-waits :
    (o : Octets) (c : ℕ)
    → ltb 3 o.n ≡ false
    → ltb 3 (length o.x) ≡ false
    → (c == 0x2e) ≡ false
    → take_char o c ≡ some (octets o.p o.n (o.x ++ (c ∷ [])))
unfolding take_char
take_char-waits o c a b d = rw (a, take_char, b, d) refl

take_char-ends :
    (o : Octets) (c : ℕ)
    → ltb 3 o.n ≡ false
    → ltb 3 (length o.x) ≡ false
    → (c == 0x2e) ≡ true
    → take_char o c ≡ end_octet o
unfolding take_char
take_char-ends o c a b d = rw (a, take_char, b, d) refl

take_char-full :
    (o : Octets) (c : ℕ) → ltb 3 o.n || ltb 3 (length o.x) ≡ true → take_char o c ≡ none
unfolding take_char
take_char-full o c h = ground (arith, h)

take_char-IsBounded : (o o' : Octets) (c : ℕ) → IsBounded o → take_char o c ≡ some o' → IsBounded o'
take_char-IsBounded o o' c b e = elim (Bool-cases (ltb 3 o.n || ltb 3 (length o.x))) [
  | inl t ↦ absurd (ground (arith, take_char-full o c t, e))
  | inr t ↦
      let room : ltb 3 o.n ≡ false = ground (arith, t) in
      let fits : ltb 3 (length o.x) ≡ false = ground (arith, t) in
      elim (Bool-cases (c == 0x2e)) [
        | inl d ↦
            end_octet-IsBounded o o' b (ground (arith, room))
              (sym (take_char-ends o c room fits d) ∙ e)
        | inr d ↦
            let len = length-append o.x (c ∷ []) in
            subst IsBounded (some-injective _ _ (sym (take_char-waits o c room fits d) ∙ e))
              (record {
                four = b.four;
                n_le = b.n_le;
                x_le = ground (arith, fits, len);
                waiting = λ h. ground (arith, room);
              })
      ]
]

-- From a state within the bounds of its arrays, every state that the loop of parse_ipv4 reaches
-- is within them.
pub take_chars-IsBounded :
    (o o' : Octets) (s : List ℕ) → IsBounded o → take_chars o s ≡ some o' → IsBounded o'
unfolding take_chars
take_chars-IsBounded o o' [] b e = subst IsBounded (some-injective _ _ e) b
take_chars-IsBounded o o' (c ∷ s) b e = elim (Option-cases (take_char o c)) [
  | inl f ↦ absurd (ground (arith, e, f))
  | inr (m, f) ↦
      take_chars-IsBounded m o' s (take_char-IsBounded o m c b f)
        (ap (λ r. r >>= λ m'. take_chars m' s) (sym f) ∙ e)
]
