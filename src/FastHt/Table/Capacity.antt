-- ===== src/FastHt/Table/Capacity.antt =====
-- How much of a bag is used.
use portable_lib.Prelude.{
  ℕ, zero, suc, ◌≤◌, ◌<◌, none, some, List, [], ◌∷◌, ◌≡◌, ◌≢◌, refl, arith, get_or, replicate,
  get_or-replicate, All, subst, sym, ◌∙◌, ◌^◌, ◌>>=◌, Option, some, Option-cases, inl, inr,
}
use portable_lib.FastHt.Bag.{Bag, find_empty_slot}
use portable_lib.FastHt.Bag.Cell.{Cell, bag_of, find_empty_slot-cell}
use portable_lib.FastHt.Bucket.Cells.{bags_of}
use portable_lib.FastHt.Table.{Table, empty_bucket, init, find}
use portable_lib.FastHt.Table.Init.{init-Initialized}
use portable_lib.FastHt.Table.Trace.{Op, HasKey, step, step-Models}
use mathlib.Core.Option.{some-injective}
use portable_lib.FastHt.Table.Buckets.{IsBucket, Each-get, IsValid}

-- Slots 1 to 6 hold no key, and a bag with a key in slot 0 has no free slot.
pub record IsSingle (g : Bag) : Type 0 where
  pub unused : (j : ℕ) → 1 ≤ j → get_or g.hk j 0 ≡ 0
  pub closed : get_or g.hk 0 0 ≢ 0 → find_empty_slot g ≡ none

cell-IsSingle : (c : Cell) → IsSingle (bag_of c)
cell-IsSingle none = record {
  unused = λ j h. get_or-replicate 7 j 0;
  closed = λ h. absurd (h refl);
}
cell-IsSingle (some (k, v)) = record {
  unused = rest;
  closed = λ h. find_empty_slot-cell (some (k, v));
}
  where
    rest : (j : ℕ) → 1 ≤ j → get_or (k ∷ replicate 6 0) j 0 ≡ 0
    rest zero h = absurd (omega arith)
    rest (suc j) h = get_or-replicate 6 j 0

cells-IsSingle : (cs : List Cell) → All IsSingle (bags_of cs)
cells-IsSingle [] = tt
cells-IsSingle (c ∷ cs) = (cell-IsSingle c, cells-IsSingle cs)

valid-IsSingle :
    {h : Table} (i : ℕ) → IsValid h → i < h.n → All IsSingle (get_or h.b i empty_bucket).head
valid-IsSingle {h} i v lt =
    let b =
      Each-get (IsBucket h.n h.salt) 0 i i h.b v.buckets (omega (arith, v.size)) (omega arith) in
    subst (All IsSingle) (sym b.head) (cells-IsSingle b.cells)

-- The table that a sequence of calls leaves.
unfoldable pub after : Table → List Op → Option Table
unfolding step
after h [] = some h
after h (op ∷ ops) = step h op >>= λ r. after r.1 ops

after-IsValid :
    (ops : List Op) {h to : Table} → IsValid h → All HasKey ops → after h ops ≡ some to → IsValid to
unfolding after
after-IsValid [] {h} {to} v keys e = subst IsValid (some-injective _ _ e) v
after-IsValid (op ∷ ops) {h} {to} v (key, keys) e = elim (Option-cases (step h op)) [
  | inl stuck ↦ absurd (ground arith)
  | inr (r, one) ↦
      let s = step-Models {m = find h} op (record { valid = v; agree = λ q hq. refl }) key one in
      after-IsValid ops s.1.valid keys (ground arith)
]

-- In a table that ht_init makes for a size of at most 2^31, after any probes, finds, replacements and
-- removals of non-zero keys, resizes included, no bag holds more than one entry: six of its seven slots
-- are not used, and a bag with an entry offers no free slot.
pub bags-IsSingle :
    (size maxfill salt : ℕ) (ops : List Op) (i : ℕ) {h to : Table}
    → size ≤ 2 ^ 31
    → init size maxfill salt ≡ some h
    → All HasKey ops
    → after h ops ≡ some to
    → i < to.n
    → All IsSingle (get_or to.b i empty_bucket).head
bags-IsSingle size maxfill salt ops i {h} {to} small made keys run lt =
    let (h', made', z) = init-Initialized size maxfill salt small in
    let same : h' ≡ h = some-injective _ _ (sym made' ∙ made) in
    valid-IsSingle i (after-IsValid ops (subst IsValid same z.valid) keys run) lt
