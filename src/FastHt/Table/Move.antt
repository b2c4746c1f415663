-- ===== src/FastHt/Table/Move.antt =====
-- The loops of `resize`: the entries of the old buckets are moved one by one to the new ones.
use portable_lib.Prelude.{
  ℕ, zero, suc, ◌+◌, ◌%◌, ◌≤◌, ◌<◌, Option, none, some, List, ◌∷◌, ◌≡◌, ◌≢◌, refl, sym, ap, ◌∙◌,
  arith, ◌==◌, ◌^◌, bit_and, replicate, get_or-replicate, length, length-set, get_or, false, inl,
  inr, Option-cases, if◌then◌else◌,
}
use portable_lib.FastHt.Bag.{Bag, bagsz, control}
use portable_lib.FastHt.Bag.Cell.{Cell, bag_of, control-byte}
use portable_lib.FastHt.Bucket.{Bucket}
use portable_lib.FastHt.Bucket.Cells.{bags_of, cells_get, vacant}
use portable_lib.FastHt.Bucket.Map.{IsMap}
use portable_lib.FastHt.Bucket.Effect.{insert_quick-cells}
use portable_lib.FastHt.Table.{
  Fresh, hash, empty_bucket, max_buckets, move_entry, move_slot, move_slots, ◌>>=◌, put_bucket,
}
use portable_lib.FastHt.Table.Buckets.{
  array-reads, hash-lt, Each, Each-get, Each-set, bucket_get, bucket_get-cells,
}

-- In the new buckets no cell is vacant.
pub record IsPacked (n salt i : ℕ) (b : Bucket) : Type 0 where
  pub cells : List Cell
  pub head : b.head ≡ bags_of cells
  pub keys : IsMap (λ k. hash k n salt ≡ i) cells
  pub packed : vacant cells ≡ false

module _ (n salt : ℕ) (pos : 0 < n) (small : n ≤ max_buckets) where
  pub record IsFresh (f : Fresh) : Type 0 where
    pub buckets : Each (IsPacked n salt) 0 f.b
    pub size : length f.b ≡ n

  abbrev pub fresh_get : Fresh → ℕ → Option ℕ
  fresh_get f q = bucket_get (get_or f.b (hash q n salt) empty_bucket) q

  -- What a list of new entries, given by their values, does to the new buckets.
  pub record Moved (gets : ℕ → Option ℕ) (f : Fresh) (r : Option Fresh) : Type 0 where
    pub to : Fresh
    pub run : r ≡ some to
    pub fresh : IsFresh to
    pub reads :
        (q : ℕ) → 0 < q → fresh_get to q ≡ elim (gets q) [ some v ↦ some v | none ↦ fresh_get f q ]

  put_bucket-reads :
      (f : Fresh) (k v q : ℕ) (x : Bucket)
      → hash k n salt < length f.b
      → bucket_get x q
        ≡ (if k == q then some v else bucket_get (get_or f.b (hash k n salt) empty_bucket) q)
      → fresh_get (put_bucket f (hash k n salt) x) q
        ≡ elim (if k == q then some v else none) [ some w ↦ some w | none ↦ fresh_get f q ]
  unfolding put_bucket
  put_bucket-reads f k v q x inside e =
      array-reads n salt k q f.b x (some v) inside e ∙ ground arith

  pub move_entry-Moved :
      (f : Fresh) (k v : ℕ)
      → IsFresh f
      → 0 < k
      → fresh_get f k ≡ none
      → Moved (λ q. if k == q then some v else none) f (move_entry n salt f k v)
  unfolding move_entry
  move_entry-Moved f k v m h new =
      let j = hash k n salt in
      let b = get_or f.b j empty_bucket in
      let inside : j < length f.b = omega (arith, hash-lt k n salt pos small, m.size) in
      let p = Each-get (IsPacked n salt) 0 j j f.b m.buckets inside (omega arith) in
      let (x, run, head) = insert_quick-cells b p.cells k v p.head p.packed in
      let absent : cells_get p.cells k ≡ none = sym (bucket_get-cells b p.cells k p.head h) ∙ new in
      record {
        to = put_bucket f j x;
        run = rw (run, ◌>>=◌);
        fresh = record {
          buckets = Each-set (IsPacked n salt) 0 j j f.b x m.buckets (omega arith) (record {
            cells = some (k, v) ∷ p.cells;
            head = head;
            keys = (h, refl, absent, p.keys);
            packed = p.packed;
          });
          size = omega (arith, length-set f.b j x, m.size);
        };
        reads = λ q hq. put_bucket-reads f k v q x inside (
            bucket_get-cells x (some (k, v) ∷ p.cells) q head hq
            ∙ ap (λ t. if k == q then some v else t)
                (sym (bucket_get-cells b p.cells q p.head hq)));
      }

-- A bag moves its one entry: slots 1 to 6 count as occupied and hold the key 0.
module _ (n salt : ℕ) where
  slot-vacant :
      (g : Bag) (i : ℕ) (f : Fresh)
      → bit_and (control g.fp) (2 ^ i) ≢ 0
      → move_slot n salt g i f ≡ some f
  unfolding move_slot
  slot-vacant g i f h = ground arith

  slot-empty : (g : Bag) (i : ℕ) (f : Fresh) → get_or g.hk i 0 ≡ 0 → move_slot n salt g i f ≡ some f
  unfolding move_slot
  slot-empty g i f h = ground arith

  slot-full :
      (k v : ℕ) (f : Fresh)
      → 0 < k
      → move_slot n salt (bag_of (some (k, v))) 0 f ≡ move_entry n salt f k v
  unfolding move_slot
  slot-full k v f h = ground (arith, control-byte (k % 256))

  move_slots-empty :
      (rounds i : ℕ) (g : Bag) (f : Fresh)
      → ((j : ℕ) → i ≤ j → get_or g.hk j 0 ≡ 0)
      → move_slots n salt rounds i g f ≡ some f
  unfolding move_slots
  move_slots-empty zero i g f h = refl
  move_slots-empty (suc r) i g f h =
      rw (slot-empty g i f (h i (omega arith)))
        (move_slots-empty r (i + 1) g f (λ j le. h j (omega arith)))

  no_key : (k j : ℕ) → 1 ≤ j → get_or (k ∷ replicate 6 0) j 0 ≡ 0
  no_key k zero h = absurd (omega arith)
  no_key k (suc j) h = get_or-replicate 6 j 0

  pub move_slots-none : (f : Fresh) → move_slots n salt bagsz 0 (bag_of none) f ≡ some f
  unfolding move_slots control
  move_slots-none f =
      rw (slot-vacant (bag_of none) 0 f (λ e. absurd (omega arith)))
        (move_slots-empty 6 1 (bag_of none) f (λ j h. no_key 0 j h))

  pub move_slots-some :
      (k v : ℕ) (f : Fresh)
      → 0 < k
      → move_slots n salt bagsz 0 (bag_of (some (k, v))) f ≡ move_entry n salt f k v
  unfolding move_slots
  move_slots-some k v f h = rw (slot-full k v f h) (elim (Option-cases (move_entry n salt f k v)) [
    | inl e ↦ rw e
    | inr (t, e) ↦
        rw (e, ◌>>=◌) (move_slots-empty 6 1 (bag_of (some (k, v))) t (λ j h. no_key k j h))
  ])
