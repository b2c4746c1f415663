-- ===== src/FastHt/Table/Resize.antt =====
-- `resize` keeps every entry, and ends without a failed assertion.
use native.Mathlib.Decide.{ℕ_discrete}
use portable_lib.Prelude.{
  ℕ, zero, suc, ◌+◌, ◌*◌, ◌%◌, ◌≤◌, ◌<◌, Option, none, some, List, [], ◌∷◌, ◌≡◌, refl, sym, ◌∙◌,
  arith, length-replicate, get_or, get_or-replicate, replicate, inl, inr, Option-cases, le→leb,
  mul64, u32_mod,
}
use portable_lib.FastHt.Bag.Cell.{Cell}
use portable_lib.FastHt.Bucket.{Bucket, findx}
use portable_lib.FastHt.Bucket.Cells.{bags_of, cells_get}
use portable_lib.FastHt.Bucket.Map.{IsMap}
use portable_lib.FastHt.Table.{
  Table, Fresh, hash, empty_bucket, max_buckets, new_buckets, move_bags, move_buckets, resize, find,
  bucket_of, ◌>>=◌,
}
use portable_lib.FastHt.Table.Buckets.{
  hash-lt, IsBucket, Each, Each-map, bucket_get, bucket_get-cells, bucket_get-misplaced, all_get,
  all_get-below, all_get-at, IsValid, find-bucket,
}
use portable_lib.FastHt.Table.Move.{
  IsPacked, IsFresh, fresh_get, Moved, move_entry-Moved, move_slots-none, move_slots-some,
}

module _ (n salt : ℕ) (pos : 0 < n) (small : n ≤ max_buckets) where
  abbrev MovedTo : (ℕ → Option ℕ) → Fresh → Option Fresh → Type 0
  MovedTo = Moved n salt pos small

  -- The cells of one old bucket, of which the new buckets hold no key yet.
  move_bags-Moved :
      (P : ℕ → Type 0) (cs : List Cell) (f : Fresh)
      → IsMap P cs
      → IsFresh n salt pos small f
      → ((q v : ℕ) → 0 < q → cells_get cs q ≡ some v → fresh_get n salt pos small f q ≡ none)
      → MovedTo (cells_get cs) f (move_bags n salt (bags_of cs) f)
  unfolding move_bags
  move_bags-Moved P [] f m fr new = record { to = f; run = refl; fresh = fr; reads = λ q h. refl }
  move_bags-Moved P (none ∷ cs) f m fr new =
      rw (move_slots-none n salt f) (move_bags-Moved P cs f m fr new)
  move_bags-Moved P (some (k, v) ∷ cs) f (h, p, absent, m) fr new =
      let one = move_entry-Moved n salt pos small f k v fr h (new k v h (ground arith)) in
      let rest =
        move_bags-Moved P cs one.to m one.fresh
          (λ q w hq e. ground (arith, one.reads q hq, new q w hq)) in
      record {
        to = rest.to;
        run = rw (move_slots-some n salt k v f h, one.run, ◌>>=◌) rest.run;
        fresh = rest.fresh;
        reads = λ q hq. ground (arith, rest.reads q hq, one.reads q hq);
      }

  module _ (old_n old_salt : ℕ) where
    -- A key of a later bucket is not in this one.
    later :
        (i : ℕ) (o : Bucket) (os : List Bucket) (q v : ℕ)
        → Each (IsBucket old_n old_salt) i (o ∷ os)
        → 0 < q
        → all_get os q ≡ some v
        → bucket_get o q ≡ none
    later i o os q v (b, m) hq e = elim (ℕ_discrete (hash q old_n old_salt) i) [
      | no other ↦ bucket_get-misplaced old_n old_salt i o q b hq other
      | yes here ↦
          let below : all_get os q ≡ none =
            all_get-below old_n old_salt (i + 1) os q m hq (omega arith) in
          cc
    ]

    move_buckets-Moved :
        (i : ℕ) (os : List Bucket) (f : Fresh)
        → Each (IsBucket old_n old_salt) i os
        → IsFresh n salt pos small f
        → ((q v : ℕ) → 0 < q → all_get os q ≡ some v → fresh_get n salt pos small f q ≡ none)
        → MovedTo (all_get os) f (move_buckets n salt os f)
    unfolding move_buckets
    move_buckets-Moved i [] f m fr new = record {
      to = f;
      run = refl;
      fresh = fr;
      reads = λ q h. refl;
    }
    move_buckets-Moved i (o ∷ os) f (b, m) fr new =
        let one =
          move_bags-Moved (λ k. hash k old_n old_salt ≡ i) b.cells f b.keys fr
            (λ q v hq e. new q v hq (ground (arith, bucket_get-cells o b.cells q b.head hq))) in
        let rest = move_buckets-Moved (i + 1) os one.to m one.fresh (λ q v hq e.
          let absent = later i o os q v (b, m) hq e in
          ground
            (arith, absent, one.reads q hq, new q v hq, bucket_get-cells o b.cells q b.head hq)) in
        record {
          to = rest.to;
          run = rw (b.head, one.run, ◌>>=◌) rest.run;
          fresh = rest.fresh;
          reads = λ q hq.
              let here = bucket_get-cells o b.cells q b.head hq in
              elim (Option-cases (all_get os q)) [
                | inl e ↦ ground (arith, rest.reads q hq, one.reads q hq, here)
                | inr (v, e) ↦
                    ground
                      (arith, rest.reads q hq, one.reads q hq, here, later i o os q v (b, m) hq e)
              ];
        }

-- The new, empty buckets.
empty-Each : (n salt i m : ℕ) → Each (IsPacked n salt) i (replicate m empty_bucket)
empty-Each n salt i zero = tt
empty-Each n salt i (suc m) =
    (record { cells = []; head = refl; keys = tt; packed = refl }, empty-Each n salt (i + 1) m)

pub empty-get : (n j q : ℕ) → bucket_get (get_or (replicate n empty_bucket) j empty_bucket) q ≡ none
unfolding findx
empty-get n j q = rw (get_or-replicate n j empty_bucket)

packed-IsBucket : (n salt i : ℕ) (b : Bucket) → IsPacked n salt i b → IsBucket n salt i b
packed-IsBucket n salt i b p = record { cells = p.cells; head = p.head; keys = p.keys }

abbrev start : ℕ → Fresh
start n = record { b = replicate n empty_bucket; maxbags = 0; maxn = 0; fill = 0 }

-- Every key is found in a valid table as in the list of all its buckets.
pub find-all_get : {h : Table} (q : ℕ) → IsValid h → 0 < q → all_get h.b q ≡ find h q
unfolding bucket_of
find-all_get {h} q v hq =
    let j = hash q h.n h.salt in
    all_get-at h.n h.salt 0 j h.b q v.buckets hq (omega arith)
      (omega (arith, hash-lt q h.n h.salt v.pos v.small, v.size))
    ∙ sym (find-bucket h q)

pub record Resized (h : Table) (r : Option Table) : Type 0 where
  pub to : Table
  pub run : r ≡ some to
  pub valid : IsValid to
  pub reads : (q : ℕ) → 0 < q → find to q ≡ find h q

-- resize of a valid table whose buckets can be doubled ends without a failed assertion, in a
-- valid table in which every key is found as before.
pub resize-Resized :
    {h : Table} (salt : ℕ) → IsValid h → h.n * 2 ≤ max_buckets → Resized h (resize h salt)
unfolding resize new_buckets bucket_of
resize-Resized {h} salt v room =
    let n = h.n * 2 in
    let pos : 0 < n = omega (arith, v.pos) in
    let exact : mul64 h.n 2 ≡ n = omega arith in
    let fresh : IsFresh n salt pos room (start n) = record {
      buckets = empty-Each n salt 0 n;
      size = length-replicate n empty_bucket;
    } in
    let moved =
      move_buckets-Moved n salt pos room h.n h.salt 0 h.b (start n) v.buckets fresh
        (λ q w hq e. empty-get n (hash q n salt) q) in
    let f = moved.to in
    let to : Table = record h {
      salt = salt;
      n = n;
      b = f.b;
      bagmax = f.maxbags % u32_mod;
      maxn = f.maxn % u32_mod;
      fill = f.fill;
    } in
    record {
      to = to;
      run = rw (exact, le→leb n max_buckets room, ◌>>=◌) (rw (moved.run, ◌>>=◌));
      valid = record {
        buckets =
            Each-map (IsPacked n salt) (IsBucket n salt) (packed-IsBucket n salt) 0 f.b
              moved.fresh.buckets;
        size = moved.fresh.size;
        pos = pos;
        small = room;
      };
      reads = λ q hq.
          let seen : find to q ≡ fresh_get n salt pos room f q = find-bucket to q in
          ground
            (arith, seen, moved.reads q hq, find-all_get q v hq, empty-get n (hash q n salt) q);
    }
