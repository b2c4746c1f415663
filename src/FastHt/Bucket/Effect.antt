-- ===== src/FastHt/Bucket/Effect.antt =====
-- The bucket operations on a bucket that holds cells: the cells that they leave, and what they return.
use portable_lib.Prelude.{
  ℕ, ◌<◌, Option, none, some, List, [], ◌∷◌, ◌≡◌, ap, ◌∙◌, arith, set, false, inl, inr, Bool-cases,
  Option-cases,
}
use portable_lib.FastHt.Bag.{occupy}
use portable_lib.FastHt.Bag.Cell.{
  Cell, bag_of, find_empty_slot-cell, occupy-new, occupy-free, clear_fp-byte,
}
use portable_lib.FastHt.Bucket.{Bucket, bag_at, insert, insert_quick, new_first, assign, vacate}
use portable_lib.FastHt.Bucket.Cells.{
  bags_of, cells_get, cells_put, vacant, fill, cells_insert, set-bags_of,
}
use portable_lib.FastHt.Bucket.Scan.{insert_scan-present, insert_scan-full, insert_scan-Vacancy}

-- A NULL value and no value look alike in the result of `__insert`.
abbrev pub value_or_null : Option ℕ → ℕ
value_or_null none = 0
value_or_null (some v) = v

-- Occupying a vacant bag of the list fills its cell.
occupy_at :
    (cs : List Cell) (at k v : ℕ)
    → bag_at (bags_of cs) at ≡ bag_of none
    → ((c : Cell) → set cs at c ≡ fill cs c)
    → set (bags_of cs) at (occupy (bag_at (bags_of cs) at) 0 k v) ≡ bags_of (fill cs (some (k, v)))
occupy_at cs at k v bag put =
    rw (bag, occupy-free k v) (set-bags_of cs at (some (k, v)) ∙ ap bags_of (put (some (k, v))))

-- `__insert` returns the value of a key that is there and changes nothing; else it adds the key.
pub insert-cells :
    (b : Bucket) (cs : List Cell) (k v : ℕ)
    → b.head ≡ bags_of cs
    → 0 < k
    → ((insert b k v).0.head ≡ bags_of (cells_insert cs k v))
      × ((insert b k v).1 ≡ value_or_null (cells_get cs k))
unfolding insert
insert-cells b cs k v e h = elim (Option-cases (cells_get cs k)) [
  | inr (old, g) ↦ ground (arith, insert_scan-present cs 0 k old none h g)
  | inl g ↦ elim (Bool-cases (vacant cs)) [
    | inl f ↦
        let (r, run, w) = insert_scan-Vacancy cs 0 k h g f in
        ground (arith, w.report, occupy_at cs w.at k v w.bag w.put)
    | inr f ↦ ground (arith, insert_scan-full cs 0 k h g f, occupy-new k v)
  ]
]

-- `__insert_quick` never meets a bag with a free slot that holds a key, so its assertion holds; where
-- the first bag is occupied, or there is none, it adds a bag.
pub insert_quick-cells :
    (b : Bucket) (cs : List Cell) (k v : ℕ)
    → b.head ≡ bags_of cs
    → vacant cs ≡ false
    → (x : Bucket) × (insert_quick b k v ≡ some x) × (x.head ≡ bags_of (some (k, v) ∷ cs))
unfolding insert_quick
insert_quick-cells b [] k v e f = (new_first b k v, ground arith, ground (arith, occupy-new k v))
insert_quick-cells b (none ∷ cs) k v e f = cc
insert_quick-cells b (some c ∷ cs) k v e f =
    (new_first b k v, ground (arith, find_empty_slot-cell (some c)), ground (arith, occupy-new k v))

-- The write of `ht_replace`, at the bag that `__findx` found.
pub assign-cells :
    (b : Bucket) (cs : List Cell) (k v at old : ℕ)
    → b.head ≡ bags_of cs
    → bag_at (bags_of cs) at ≡ bag_of (some (k, old))
    → ((c : Cell) → set cs at c ≡ cells_put cs k c)
    → (assign b at 0 v).head ≡ bags_of (cells_put cs k (some (k, v)))
unfolding assign
assign-cells b cs k v at old e bag put =
    rw (e, bag) (set-bags_of cs at (some (k, v)) ∙ ap bags_of (put (some (k, v))))

-- The writes of `ht_remove`.
pub vacate-cells :
    (b : Bucket) (cs : List Cell) (k at old : ℕ)
    → b.head ≡ bags_of cs
    → bag_at (bags_of cs) at ≡ bag_of (some (k, old))
    → ((c : Cell) → set cs at c ≡ cells_put cs k c)
    → (vacate b at 0).head ≡ bags_of (cells_put cs k none)
unfolding vacate
vacate-cells b cs k at old e bag put =
    rw (e, bag, clear_fp-byte k) (set-bags_of cs at none ∙ ap bags_of (put none))
