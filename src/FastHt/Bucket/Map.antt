-- ===== src/FastHt/Bucket/Map.antt =====
-- The cells of a bucket as a finite map: keys are non-zero, distinct, and satisfy what the table asks.
use portable_lib.Prelude.{
  ℕ, ◌<◌, none, some, List, [], ◌∷◌, ◌≡◌, refl, arith, ◌==◌, if◌then◌else◌, true, false, inl, inr,
  Bool-cases, Option-cases,
}
use portable_lib.FastHt.Bag.Cell.{Cell}
use portable_lib.FastHt.Bucket.Cells.{cells_get, cells_put, vacant, fill, cells_insert}

module _ (P : ℕ → Type 0) where
  abbrev pub IsMap : List Cell → Type 0
  IsMap [] = Unit
  IsMap (none ∷ cs) = IsMap cs
  IsMap (some (k, v) ∷ cs) = (0 < k) × P k × (cells_get cs k ≡ none) × IsMap cs

get-fill :
    (cs : List Cell) (k v q : ℕ)
    → cells_get cs k ≡ none
    → vacant cs ≡ true
    → cells_get (fill cs (some (k, v))) q ≡ (if k == q then some v else cells_get cs q)
get-fill [] k v q g f = cc
get-fill (none ∷ cs) k v q g f = refl
get-fill (some (k', w) ∷ cs) k v q g f = ground (arith, get-fill cs k v q)

pub insert_old :
    (cs : List Cell) (k v old : ℕ) → cells_get cs k ≡ some old → cells_insert cs k v ≡ cs
insert_old cs k v old g = rw (g, cells_insert)

insert_fill :
    (cs : List Cell) (k v : ℕ)
    → cells_get cs k ≡ none
    → vacant cs ≡ true
    → cells_insert cs k v ≡ fill cs (some (k, v))
insert_fill cs k v g f = rw (g, cells_insert) (rw f)

insert_new :
    (cs : List Cell) (k v : ℕ)
    → cells_get cs k ≡ none
    → vacant cs ≡ false
    → cells_insert cs k v ≡ some (k, v) ∷ cs
insert_new cs k v g f = rw (g, cells_insert) (rw f)

-- The insertion of a new key.
pub get-insert :
    (cs : List Cell) (k v q : ℕ)
    → cells_get cs k ≡ none
    → cells_get (cells_insert cs k v) q ≡ (if k == q then some v else cells_get cs q)
get-insert cs k v q g = elim (Bool-cases (vacant cs)) [
  | inl f ↦ rw (insert_fill cs k v g f) (get-fill cs k v q g f)
  | inr f ↦ rw (insert_new cs k v g f)
]

pub get-put :
    (cs : List Cell) (k v old q : ℕ)
    → cells_get cs k ≡ some old
    → cells_get (cells_put cs k (some (k, v))) q ≡ (if k == q then some v else cells_get cs q)
get-put [] k v old q g = cc
get-put (none ∷ cs) k v old q g = get-put cs k v old q g
get-put (some (k', w) ∷ cs) k v old q g = ground (arith, get-put cs k v old q)

module _ (P : ℕ → Type 0) where
  pub get-put_none :
      (cs : List Cell) (k q : ℕ)
      → IsMap P cs
      → cells_get (cells_put cs k none) q ≡ (if k == q then none else cells_get cs q)
  get-put_none [] k q m = ground arith
  get-put_none (none ∷ cs) k q m = get-put_none cs k q m
  get-put_none (some (k', w) ∷ cs) k q (pos, p, new, m) = ground (arith, get-put_none cs k q m)

  fill-IsMap :
      (cs : List Cell) (k v : ℕ)
      → IsMap P cs
      → 0 < k
      → P k
      → cells_get cs k ≡ none
      → IsMap P (fill cs (some (k, v)))
  fill-IsMap [] k v m h p g = tt
  fill-IsMap (none ∷ cs) k v m h p g = (h, p, g, m)
  fill-IsMap (some (k', w) ∷ cs) k v (pos, p', new, m) h p g = elim (Bool-cases (vacant cs)) [
    | inl f ↦ (
      pos,
      p',
      rw (get-fill cs k v k' (ground arith) f) (ground arith),
      fill-IsMap cs k v m h p (ground arith),
    )
    | inr f ↦ (pos, p', rw (fill_id cs (some (k, v)) f) new, rw (fill_id cs (some (k, v)) f) m)
  ]
    where
      fill_id : (cs : List Cell) (c : Cell) → vacant cs ≡ false → fill cs c ≡ cs
      fill_id [] c f = refl
      fill_id (none ∷ cs) c f = cc
      fill_id (some e ∷ cs) c f = ground (arith, fill_id cs c f)

  pub insert-IsMap :
      (cs : List Cell) (k v : ℕ) → IsMap P cs → 0 < k → P k → IsMap P (cells_insert cs k v)
  insert-IsMap cs k v m h p = elim (Option-cases (cells_get cs k)) [
    | inr (old, g) ↦ rw (insert_old cs k v old g) m
    | inl g ↦ elim (Bool-cases (vacant cs)) [
      | inl f ↦ rw (insert_fill cs k v g f) (fill-IsMap cs k v m h p g)
      | inr f ↦ rw (insert_new cs k v g f) (h, p, g, m)
    ]
  ]

  pub put-IsMap :
      (cs : List Cell) (k v old : ℕ)
      → IsMap P cs
      → cells_get cs k ≡ some old
      → IsMap P (cells_put cs k (some (k, v)))
  put-IsMap [] k v old m g = tt
  put-IsMap (none ∷ cs) k v old m g = put-IsMap cs k v old m g
  put-IsMap (some (k', w) ∷ cs) k v old (pos, p, new, m) g = elim (Bool-cases (k' == k)) [
    | inl t ↦ let same : k' ≡ k = ground arith in rw t (rw (← same) (pos, p, new, m))
    | inr t ↦
        let g' : cells_get cs k ≡ some old = ground arith in
        rw t (pos, p, rw (get-put cs k v old k' g') (ground arith), put-IsMap cs k v old m g')
  ]

  pub put_none-IsMap : (cs : List Cell) (k : ℕ) → IsMap P cs → IsMap P (cells_put cs k none)
  put_none-IsMap [] k m = tt
  put_none-IsMap (none ∷ cs) k m = put_none-IsMap cs k m
  put_none-IsMap (some (k', w) ∷ cs) k (pos, p, new, m) = elim (Bool-cases (k' == k)) [
    | inl t ↦ rw t m
    | inr t ↦ rw t (pos, p, rw (get-put_none cs k k' m) (ground arith), put_none-IsMap cs k m)
  ]
