-- ===== src/FastHt/Bucket/Cells.antt =====
-- A bucket as the list of its cells, one for each bag, and what the bucket operations do to that list.
use portable_lib.Prelude.{
  ℕ, zero, suc, ◌+◌, ◌<◌, Option, none, some, List, [], ◌∷◌, ◌≡◌, refl, ap, arith, ◌==◌,
  if◌then◌else◌, set, Bool, true, false, inl, inr, Bool-cases, Option-cases,
}
use portable_lib.FastHt.Bag.{Bag}
use portable_lib.FastHt.Bag.Cell.{Cell, bag_of, find_key-cell}
use portable_lib.FastHt.Bucket.{bag_at, findx}

abbrev pub bags_of : List Cell → List Bag
bags_of [] = []
bags_of (c ∷ cs) = bag_of c ∷ bags_of cs

-- The value under a key.
abbrev pub cells_get : List Cell → ℕ → Option ℕ
cells_get [] k = none
cells_get (none ∷ cs) k = cells_get cs k
cells_get (some (k', v) ∷ cs) k = if k' == k then some v else cells_get cs k

-- The cell of a key, replaced.
abbrev pub cells_put : List Cell → ℕ → Cell → List Cell
cells_put [] k c = []
cells_put (none ∷ cs) k c = none ∷ cells_put cs k c
cells_put (some (k', v) ∷ cs) k c = if k' == k then c ∷ cs else some (k', v) ∷ cells_put cs k c

abbrev pub vacant : List Cell → Bool
vacant [] = false
vacant (none ∷ cs) = true
vacant (some _ ∷ cs) = vacant cs

-- The first vacant cell, filled.
abbrev pub fill : List Cell → Cell → List Cell
fill [] c = []
fill (none ∷ cs) c = c ∷ cs
fill (some e ∷ cs) c = some e ∷ fill cs c

abbrev pub cells_insert : List Cell → ℕ → ℕ → List Cell
cells_insert cs k v = elim (cells_get cs k) [
  | some old ↦ cs
  | none ↦ if vacant cs then fill cs (some (k, v)) else some (k, v) ∷ cs
]

pub set-bags_of :
    (cs : List Cell) (p : ℕ) (c : Cell) → set (bags_of cs) p (bag_of c) ≡ bags_of (set cs p c)
set-bags_of [] p c = refl
set-bags_of (x ∷ cs) zero c = refl
set-bags_of (x ∷ cs) (suc p) c = ap (◌∷◌ (bag_of x)) (set-bags_of cs p c)

-- Where `findx` has found a key: at the position of its cell, in slot 0.
record Found (cs : List Cell) (i k j slot v : ℕ) : Type 0 where
  at : ℕ
  offset : j ≡ i + at
  first : slot ≡ 0
  bag : bag_at (bags_of cs) at ≡ bag_of (some (k, v))
  value : cells_get cs k ≡ some v
  put : (c : Cell) → set cs at c ≡ cells_put cs k c

findx-none :
    (cs : List Cell) (i k : ℕ) → 0 < k → findx (bags_of cs) i k ≡ none → cells_get cs k ≡ none
unfolding findx
findx-none [] i k h e = refl
findx-none (none ∷ cs) i k h e = ground (arith, find_key-cell none k h, findx-none cs (i + 1) k h)
findx-none (some (k', v) ∷ cs) i k h e =
    ground (arith, find_key-cell (some (k', v)) k h, findx-none cs (i + 1) k h)

findx-Found :
    (cs : List Cell) (i k j slot v : ℕ)
    → 0 < k
    → findx (bags_of cs) i k ≡ some (j, slot, v)
    → Found cs i k j slot v
unfolding findx bag_at
findx-Found [] i k j slot v h e = cc
findx-Found (none ∷ cs) i k j slot v h e =
    let e' : findx (bags_of cs) (i + 1) k ≡ some (j, slot, v) =
      ground (arith, find_key-cell none k h) in
    let f = findx-Found cs (i + 1) k j slot v h e' in
    record {
      at = suc f.at;
      offset = omega (arith, f.offset);
      first = f.first;
      bag = f.bag;
      value = f.value;
      put = λ c. ap (◌∷◌ none) (f.put c);
    }
findx-Found (some (k', w) ∷ cs) i k j slot v h e = elim (Bool-cases (k' == k)) [
  | inl t ↦
      let here : j ≡ i = ground (arith, find_key-cell (some (k', w)) k h) in
      let low : slot ≡ 0 = ground (arith, find_key-cell (some (k', w)) k h) in
      let value : w ≡ v = ground (arith, find_key-cell (some (k', w)) k h) in
      let same : k' ≡ k = ground arith in
      record {
        at = 0;
        offset = omega arith;
        first = low;
        bag = rw (same, value);
        value = rw (t, value);
        put = λ c. rw t;
      }
  | inr t ↦
      let e' : findx (bags_of cs) (i + 1) k ≡ some (j, slot, v) =
        ground (arith, find_key-cell (some (k', w)) k h) in
      let f = findx-Found cs (i + 1) k j slot v h e' in
      record {
        at = suc f.at;
        offset = omega (arith, f.offset);
        first = f.first;
        bag = f.bag;
        value = rw t f.value;
        put = λ c. rw t (ap (◌∷◌ (some (k', w))) (f.put c));
      }
]

-- What `findx` reports at position 0.
pub data Search (cs : List Cell) (k : ℕ) : Option (ℕ × ℕ × ℕ) → Type 0 where
  absent : cells_get cs k ≡ none → Search cs k none
  found :
      {at v : ℕ}
      → bag_at (bags_of cs) at ≡ bag_of (some (k, v))
      → cells_get cs k ≡ some v
      → ((c : Cell) → set cs at c ≡ cells_put cs k c)
      → Search cs k (some (at, 0, v))

pub findx-Search : (cs : List Cell) (k : ℕ) → 0 < k → Search cs k (findx (bags_of cs) 0 k)
findx-Search cs k h = elim (Option-cases (findx (bags_of cs) 0 k)) [
  | inl e ↦ rw e (absent (findx-none cs 0 k h e))
  | inr ((j, slot, v), e) ↦
      let f = findx-Found cs 0 k j slot v h e in
      let here : j ≡ f.at = omega (arith, f.offset) in
      rw (e, here, f.first) (found f.bag f.value f.put)
]
