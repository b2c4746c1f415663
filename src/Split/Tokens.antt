-- ===== src/Split/Tokens.antt =====
-- The tokens of `strsplit` and `strsplit_quick`.
use portable_lib.Prelude.{
  ℕ, suc, ◌+◌, ◌≤◌, ◌<◌, Bool, true, false, List, [], ◌∷◌, ◌++◌, ◌≡◌, refl, sym, ap, ◌∙◌,
  Bool-cases, inl, inr, arith, if◌then◌else◌, length, append-nil, append_assoc, leb, ltb,
  length-append,
}
use portable_lib.Split.{
  strtrim, no_delim, is_delim, delims, Stra, no_room, stored, stra_init_from, stra_resize_if,
  store_token, split_common, failed, tokens, tokens_of, strsplit_quick,
}
use portable_lib.Split.Fields.{
  first_field, other_fields, without_last, nonempty, squeezed, push_all, split_from-fields,
  squeeze_from-fields,
}
use portable_lib.Split.Delims.{occurs, AreBytes, delims_lem, first_field-same, other_fields-same}

-- The tokens of a text: its fields between delimiters; or, squeezed, those of the trimmed text.
abbrev pub fields_of : List ℕ → List ℕ → Bool → List (List ℕ)
fields_of str tok false =
    without_last (first_field (occurs tok) str) (other_fields (occurs tok) str)
fields_of str tok true =
    squeezed (first_field (occurs tok) (strtrim str))
      (nonempty (other_fields (occurs tok) (strtrim str)))

split_common-all :
    (a : Stra) (str tok : List ℕ) (sqz : Bool)
    → AreBytes tok
    → occurs tok 0 ≡ false
    → split_common a str tok sqz ≡ push_all a (fields_of str tok sqz)
unfolding split_common
split_common-all a str tok false b z =
    let d = delims no_delim tok in
    split_from-fields d str a []
    ∙ rw
        (
          first_field-same (is_delim d) (occurs tok) str (λ c. delims_lem tok c b),
          other_fields-same (is_delim d) (occurs tok) str (λ c. delims_lem tok c b),
        )
        refl
split_common-all a str tok true b z =
    let d = delims no_delim tok in
    squeeze_from-fields d (strtrim str) a (delims_lem tok 0 b ∙ z)
    ∙ rw
        (
          first_field-same (is_delim d) (occurs tok) (strtrim str) (λ c. delims_lem tok c b),
          other_fields-same (is_delim d) (occurs tok) (strtrim str) (λ c. delims_lem tok c b),
        )
        refl

-- An array that grows, and one of `n` slots.
abbrev growing : List (List ℕ) → ℕ → Stra
growing arr cap = record { arr = arr; cap = cap; pinned = false; owned = true }

abbrev pinned_at : List (List ℕ) → ℕ → Stra
pinned_at arr n = record { arr = arr; cap = n; pinned = true; owned = false }

store_token-pinned :
    (arr : List (List ℕ)) (n : ℕ) (t : List ℕ)
    → store_token (pinned_at arr n) t
      ≡ (if leb (length arr + 1) n then stored (pinned_at (arr ++ (t ∷ [])) n) else no_room)
unfolding store_token stra_resize_if
store_token-pinned arr n t = elim (Bool-cases (leb (length arr + 1) n)) [
  | inl e ↦ rw e refl
  | inr e ↦ rw e refl
]

push_all-pinned :
    (ts arr : List (List ℕ)) (n : ℕ)
    → length arr ≤ n
    → tokens_of (push_all (pinned_at arr n) ts)
      ≡ (if leb (length arr + length ts) n then tokens (arr ++ ts) else failed)
push_all-pinned [] arr n h =
    let room : leb (length arr + 0) n ≡ true = ground arith in
    rw room (ap tokens (sym (append-nil arr)))
push_all-pinned (t ∷ ts) arr n h =
    let len = length-append arr (t ∷ []) in
    elim (Bool-cases (leb (length arr + 1) n)) [
      | inl e ↦
          let fits : length (arr ++ (t ∷ [])) ≤ n = ground (arith, len, e) in
          let sum : length (arr ++ (t ∷ [])) + length ts ≡ length arr + suc (length ts) =
            omega (arith, len) in
          rw (store_token-pinned arr n t, e)
            (push_all-pinned ts (arr ++ (t ∷ [])) n fits
              ∙ rw (sum, append_assoc arr (t ∷ []) ts) refl)
      | inr e ↦
          let full : leb (length arr + suc (length ts)) n ≡ false = ground (arith, e) in
          rw (store_token-pinned arr n t, e, full) refl
    ]

-- For an array of at least one slot and delimiters that are bytes other than NUL, strsplit_quick
-- gives the tokens of strsplit if there are no more than slots, and fails otherwise.
pub strsplit_quick-fields :
    (n : ℕ) (str tok : List ℕ) (sqz : Bool)
    → 0 < n
    → AreBytes tok
    → occurs tok 0 ≡ false
    → strsplit_quick n str tok sqz
      ≡ (if leb (length (fields_of str tok sqz)) n then tokens (fields_of str tok sqz) else failed)
unfolding strsplit_quick
strsplit_quick-fields n str tok sqz h b z =
    let positive : ltb 0 n ≡ true = ground arith in
    let sum : 0 + length (fields_of str tok sqz) ≡ length (fields_of str tok sqz) = omega arith in
    ap tokens_of (split_common-all (stra_init_from n) str tok sqz b z)
    ∙ rw positive (push_all-pinned (fields_of str tok sqz) [] n (omega arith) ∙ rw sum refl)
