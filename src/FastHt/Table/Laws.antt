-- ===== src/FastHt/Table/Laws.antt =====
-- The public operations against the map that `ht_find` reads.
use portable_lib.Prelude.{
  ℕ, ◌<◌, Option, none, some, List, ◌≡◌, refl, sym, ap, ◌∙◌, arith, ◌==◌, length, length-set, set,
  inl, inr, Option-cases, if◌then◌else◌, sub64,
}
use portable_lib.FastHt.Bag.Cell.{Cell}
use portable_lib.FastHt.Bucket.{Bucket, findx, insert, assign, vacate}
use portable_lib.FastHt.Bucket.Cells.{
  bags_of, cells_get, cells_put, cells_insert, Search, absent, found, findx-Search,
}
use portable_lib.FastHt.Bucket.Effect.{value_or_null, insert-cells, assign-cells, vacate-cells}
use portable_lib.FastHt.Bucket.Map.{
  IsMap, insert_old, get-insert, get-put, get-put_none, insert-IsMap, put-IsMap, put_none-IsMap,
}
use portable_lib.FastHt.Table.{Table, hash, bucket_of, find, replace, remove}
use portable_lib.FastHt.Table.Buckets.{
  hash-lt, IsBucket, Each-set, bucket_get, bucket_get-cells, array-reads, IsValid, bucket-IsBucket,
  find-bucket, find-cells,
}

-- The write of one bucket, with any change of the counters.
pub record Written (h : Table) (k : ℕ) (x : Bucket) (to : Table) : Type 0 where
  pub array : to.b ≡ set h.b (hash k h.n h.salt) x
  pub n : to.n ≡ h.n
  pub salt : to.salt ≡ h.salt

module _ {h : Table} (k : ℕ) (v : IsValid h) (x : Bucket) (to : Table) (w : Written h k x to) where
  inside : hash k h.n h.salt < length h.b
  inside = omega (arith, hash-lt k h.n h.salt v.pos v.small, v.size)

  Written-IsValid : IsBucket h.n h.salt (hash k h.n h.salt) x → IsValid to
  Written-IsValid b =
      let j = hash k h.n h.salt in
      record {
        buckets =
            rw (w.array, w.n, w.salt)
              (Each-set (IsBucket h.n h.salt) 0 j j h.b x v.buckets (omega arith) b);
        size = rw (w.array, w.n) (length-set h.b j x ∙ v.size);
        pos = rw w.n v.pos;
        small = rw w.n v.small;
      }

  Written-reads :
      (q : ℕ) (r : Option ℕ)
      → bucket_get x q ≡ (if k == q then r else bucket_get (bucket_of h k) q)
      → find to q ≡ (if k == q then r else find h q)
  unfolding bucket_of
  Written-reads q r e =
      rw (find-bucket to q, find-bucket h q, w.array, w.n, w.salt)
        (array-reads h.n h.salt k q h.b x r inside e)

abbrev pub is_found : Option ℕ → ℕ
is_found none = 0
is_found (some v) = 1

pub record Replaced (h : Table) (k v : ℕ) (r : Table × ℕ) : Type 0 where
  pub returns : r.1 ≡ is_found (find h k)
  pub valid : IsValid r.0
  pub reads :
      (q : ℕ)
      → 0 < q
      → find r.0 q
        ≡ elim (find h k) [ none ↦ find h q | some old ↦ if k == q then some v else find h q ]

pub record Removed (h : Table) (k : ℕ) (r : Table × Option ℕ) : Type 0 where
  pub returns : r.1 ≡ find h k
  pub valid : IsValid r.0
  pub reads : (q : ℕ) → 0 < q → find r.0 q ≡ (if k == q then none else find h q)

module _ {h : Table} (k : ℕ) (valid : IsValid h) (pos : 0 < k) where
  abbrev home : IsBucket h.n h.salt (hash k h.n h.salt) (bucket_of h k)
  home = bucket-IsBucket k valid

  abbrev cells : List Cell
  cells = home.cells

  home-Search : Search cells k (findx (bucket_of h k).head 0 k)
  home-Search = rw home.head (findx-Search cells k pos)

  -- A bucket that holds other cells for the key, as the bucket of the key in the table.
  home_reads :
      (x : Bucket) (cs : List Cell) (to : Table) (r : Option ℕ) (q : ℕ)
      → Written h k x to
      → x.head ≡ bags_of cs
      → 0 < q
      → cells_get cs q ≡ (if k == q then r else cells_get cells q)
      → find to q ≡ (if k == q then r else find h q)
  home_reads x cs to r q w e hq g = Written-reads k valid x to w q r (
      bucket_get-cells x cs q e hq
      ∙ g
      ∙ ap (λ t. if k == q then r else t)
          (sym (bucket_get-cells (bucket_of h k) cells q home.head hq)))

  home-IsValid :
      (x : Bucket) (cs : List Cell) (to : Table)
      → Written h k x to
      → x.head ≡ bags_of cs
      → IsMap (λ j. hash j h.n h.salt ≡ hash k h.n h.salt) cs
      → IsValid to
  home-IsValid x cs to w e m =
      Written-IsValid k valid x to w (record { cells = cs; head = e; keys = m })

  replace_cases :
      (v : ℕ) (r : Option (ℕ × ℕ × ℕ))
      → Search cells k r
      → findx (bucket_of h k).head 0 k ≡ r
      → Replaced h k v (replace h k v)
  unfolding replace
  replace_cases v none (absent g) e =
      let gone : find h k ≡ none = find-cells k valid pos ∙ g in
      rw (e, replace) (record { returns = rw gone; valid = valid; reads = λ q hq. rw gone })
  replace_cases v (some _) (found {at} {v = old} bag g put) e =
      let there : find h k ≡ some old = find-cells k valid pos ∙ g in
      let x = assign (bucket_of h k) at 0 v in
      let head = assign-cells (bucket_of h k) cells k v at old home.head bag put in
      let to : Table = record h { b = set h.b (hash k h.n h.salt) x } in
      let w : Written h k x to = record { array = refl; n = refl; salt = refl } in
      rw (e, replace)
        (record {
          returns = rw there;
          valid =
              home-IsValid x (cells_put cells k (some (k, v))) to w head
                (put-IsMap _ cells k v old home.keys g);
          reads = λ q hq. rw there (
              home_reads x (cells_put cells k (some (k, v))) to (some v) q w head hq
                (get-put cells k v old q g));
        })

  -- On a valid table and a non-zero key, ht_replace tells whether the key was there, replaces
  -- its value if it was, keeps every other one, and keeps the table valid.
  pub replace-Replaced : (v : ℕ) → Replaced h k v (replace h k v)
  replace-Replaced v = replace_cases v _ home-Search refl

  remove_cases :
      (r : Option (ℕ × ℕ × ℕ))
      → Search cells k r
      → findx (bucket_of h k).head 0 k ≡ r
      → Removed h k (remove h k)
  unfolding remove
  remove_cases none (absent g) e =
      let gone : find h k ≡ none = find-cells k valid pos ∙ g in
      rw (e, remove)
        (record { returns = sym gone; valid = valid; reads = λ q hq. ground (arith, gone) })
  remove_cases (some _) (found {at} {v = old} bag g put) e =
      let there : find h k ≡ some old = find-cells k valid pos ∙ g in
      let x = vacate (bucket_of h k) at 0 in
      let head = vacate-cells (bucket_of h k) cells k at old home.head bag put in
      let to : Table = record h { b = set h.b (hash k h.n h.salt) x; nodes = sub64 h.nodes 1 } in
      let w : Written h k x to = record { array = refl; n = refl; salt = refl } in
      rw (e, remove)
        (record {
          returns = sym there;
          valid =
              home-IsValid x (cells_put cells k none) to w head
                (put_none-IsMap _ cells k home.keys);
          reads = λ q hq.
              home_reads x (cells_put cells k none) to none q w head hq
                (get-put_none _ cells k q home.keys);
        })

  -- On a valid table and a non-zero key, ht_remove returns the value of the key, or none,
  -- unbinds the key, keeps every other one, and keeps the table valid.
  pub remove-Removed : Removed h k (remove h k)
  remove-Removed = remove_cases _ home-Search refl

  -- The array after `__insert`, whatever happens to the counters.
  pub insert-Written :
      (v : ℕ) (to : Table)
      → Written h k (insert (bucket_of h k) k v).0 to
      → IsValid to
        × ((q : ℕ)
            → 0 < q
            → find to q ≡ elim (find h k) [
              | some old ↦ find h q
              | none ↦ if k == q then some v else find h q
            ])
  insert-Written v to w =
      let x = (insert (bucket_of h k) k v).0 in
      let head = (insert-cells (bucket_of h k) cells k v home.head pos).0 in
      let here = find-cells k valid pos in
      (
        home-IsValid x (cells_insert cells k v) to w head
            (insert-IsMap _ cells k v home.keys pos refl),
        λ q hq. elim (Option-cases (cells_get cells k)) [
          | inl g ↦ rw (here ∙ g) (
              home_reads x (cells_insert cells k v) to (some v) q w head hq
                (get-insert cells k v q g))
          | inr (old, g) ↦
              let there : find h k ≡ some old = here ∙ g in
              let same : cells_get (cells_insert cells k v) q ≡ cells_get cells q =
                rw (insert_old cells k v old g) in
              rw there (
                home_reads x (cells_insert cells k v) to (some old) q w head hq
                  (same ∙ (ground arith))
                ∙ (ground arith))
        ],
      )

  pub insert-returns : (v : ℕ) → (insert (bucket_of h k) k v).1 ≡ value_or_null (find h k)
  insert-returns v =
      (insert-cells (bucket_of h k) cells k v home.head pos).1
      ∙ ap value_or_null (sym (find-cells k valid pos))
