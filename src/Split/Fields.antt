-- ===== src/Split/Fields.antt =====
-- The two loops of src/strsplit.c against the fields of the text.
use portable_lib.Prelude.{
  ℕ, Bool, false, List, [], ◌∷◌, ◌++◌, ◌≡◌, refl, ap, ◌∙◌, Bool-cases, inl, inr, if◌then◌else◌,
  append-nil, append_assoc,
}
use portable_lib.Split.{
  is_delim, Stra, Stored, no_room, undefined, stored, then_store, store_token, push_last, no_chars,
  split_from, squeeze_from,
}

-- The text before the first character of a kind, and the fields between and behind those characters.
unfoldable pub first_field : (ℕ → Bool) → List ℕ → List ℕ
first_field ends [] = []
first_field ends (c ∷ s) = let rest = first_field ends s in if ends c then [] else c ∷ rest

unfoldable pub other_fields : (ℕ → Bool) → List ℕ → List (List ℕ)
other_fields ends [] = []
other_fields ends (c ∷ s) =
    let rest = other_fields ends s in if ends c then first_field ends s ∷ rest else rest

-- All fields, without the last one if it is empty.
abbrev pub without_last : List ℕ → List (List ℕ) → List (List ℕ)
without_last t [] = if no_chars t then [] else t ∷ []
without_last t (u ∷ us) = t ∷ without_last u us

abbrev pub nonempty : List (List ℕ) → List (List ℕ)
nonempty [] = []
nonempty (t ∷ ts) = if no_chars t then nonempty ts else t ∷ nonempty ts

-- The first field and the others that are not empty; nothing if all are empty.
abbrev pub squeezed : List ℕ → List (List ℕ) → List (List ℕ)
squeezed t [] = if no_chars t then [] else t ∷ []
squeezed t (u ∷ us) = t ∷ u ∷ us

abbrev pub push_all : Stra → List (List ℕ) → Stored
push_all a [] = stored a
push_all a (t ∷ ts) = then_store (store_token a t) λ a'. push_all a' ts

then_store-stored : (x : Stored) → x ≡ then_store x stored
then_store-stored no_room = refl
then_store-stored undefined = refl
then_store-stored (stored a) = refl

then_store-ap :
    (x : Stored) (f g : Stra → Stored) → ((a : Stra) → f a ≡ g a) → then_store x f ≡ then_store x g
then_store-ap no_room f g e = refl
then_store-ap undefined f g e = refl
then_store-ap (stored a) f g e = e a

push_last-all :
    (a : Stra) (t : List ℕ) → push_last a t ≡ push_all a (if no_chars t then [] else t ∷ [])
push_last-all a [] = refl
push_last-all a (c ∷ t) = then_store-stored (store_token a (c ∷ t))

pub split_from-fields :
    (d : List ℕ) (s : List ℕ) (a : Stra) (begin : List ℕ)
    → split_from d a begin s
      ≡ push_all a
          (without_last (begin ++ first_field (is_delim d) s) (other_fields (is_delim d) s))
unfolding split_from first_field other_fields
split_from-fields d [] a begin = rw (append-nil begin) (push_last-all a begin)
split_from-fields d (c ∷ s) a begin = elim (Bool-cases (is_delim d c)) [
  | inl e ↦
      rw (e, append-nil begin)
        (then_store-ap (store_token a begin) _ _ (λ a'. split_from-fields d s a' []))
  | inr e ↦ rw e (
      split_from-fields d s a (begin ++ (c ∷ []))
      ∙ ap (λ t. push_all a (without_last t (other_fields (is_delim d) s)))
          (append_assoc begin (c ∷ []) (first_field (is_delim d) s)))
]

squeezed-cons : (c : ℕ) (t : List ℕ) (ts : List (List ℕ)) → squeezed (c ∷ t) ts ≡ (c ∷ t) ∷ ts
squeezed-cons c t [] = refl
squeezed-cons c t (u ∷ us) = refl

-- The loop, behind a character of a field and behind a delimiter.
squeeze_both :
    (d : List ℕ) (s : List ℕ) (a : Stra) (begin : List ℕ) (prev_c : ℕ)
    → squeeze_from d a begin prev_c s
      ≡ push_all a (
          if is_delim d prev_c
          then squeezed begin (nonempty (first_field (is_delim d) s ∷ other_fields (is_delim d) s))
          else squeezed
              (begin ++ first_field (is_delim d) s)
              (nonempty (other_fields (is_delim d) s)))
unfolding squeeze_from first_field other_fields
squeeze_both d [] a begin prev_c = elim (Bool-cases (is_delim d prev_c)) [
  | inl e ↦ rw e (push_last-all a begin)
  | inr e ↦ rw (e, append-nil begin) (push_last-all a begin)
]
squeeze_both d (c ∷ s) a begin prev_c = elim (Bool-cases (is_delim d c)) [
  | inl e ↦ elim (Bool-cases (is_delim d prev_c)) [
    | inl p ↦ rw (e, p) (squeeze_both d s a begin c ∙ rw e refl)
    | inr p ↦ rw (e, p) (squeeze_both d s a begin c ∙ rw (e, append-nil begin) refl)
  ]
  | inr e ↦ elim (Bool-cases (is_delim d prev_c)) [
    | inl p ↦
        rw (e, p)
          (then_store-ap (store_token a begin) _ _ (λ a'.
            squeeze_both d s a' (c ∷ []) c
            ∙ rw e (
                ap (push_all a') (
                  squeezed-cons c (first_field (is_delim d) s)
                    (nonempty (other_fields (is_delim d) s))))))
    | inr p ↦
        rw (e, p)
          (squeeze_both d s a (begin ++ (c ∷ [])) c
            ∙ rw e (
                ap (λ t. push_all a (squeezed t (nonempty (other_fields (is_delim d) s))))
                  (append_assoc begin (c ∷ []) (first_field (is_delim d) s))))
  ]
]

pub squeeze_from-fields :
    (d : List ℕ) (s : List ℕ) (a : Stra)
    → is_delim d 0 ≡ false
    → squeeze_from d a [] 0 s
      ≡ push_all a (squeezed (first_field (is_delim d) s) (nonempty (other_fields (is_delim d) s)))
squeeze_from-fields d s a e = squeeze_both d s a [] 0 ∙ rw e refl
