-- ===== src/Bloom/Bags.antt =====
-- Sequences of calls on a counting filter, as a bag of items.
use portable_lib.Prelude.{
  ℕ, ◌*◌, ◌<◌, true, List, [], ◌∷◌, ◌++◌, ◌≡◌, subst, ◌↔◌, arith, length, length-replicate,
  get_or-replicate, mul64, All, All-splits,
}
use portable_lib.Bloom.{
  Floats, Bloom, counted, place, hash_val, counting_bloom_probe, counting_bloom_find,
  counting_bloom_remove, counting_bloom_init, make_k, slots_each,
}
use portable_lib.Bloom.Places.{times, times-pos, SharesSlots, all_slots_iff}
use portable_lib.Bloom.Standard.{IsFeasible}
use portable_lib.Bloom.Counting.{
  Counts, counting_bloom_probe-Counts, counting_bloom_remove-Counts, any_counted-first,
}

module _ {D : Type 0} where
  -- The filters that calls lead to, with the items they hold: fewer than 255 when one is added, and
  -- among them each one that is taken out.
  pub data Follows (b0 : Bloom D) : Bloom D → List ℕ → Type 0 where
    here : Follows b0 b0 []
    put :
        {b : Bloom D} {vs : List ℕ} (v : ℕ)
        → Follows b0 b vs
        → length vs < 255
        → Follows b0 (counting_bloom_probe b v) (v ∷ vs)
    take_out :
        {b : Bloom D} {vs ws : List ℕ} (front : List ℕ) (v : ℕ) (back : List ℕ)
        → Follows b0 b vs
        → vs ≡ front ++ (v ∷ back)
        → ws ≡ front ++ back
        → Follows b0 (counting_bloom_remove b v).0 ws

  Follows-Counts : {b0 b : Bloom D} {vs : List ℕ} → Counts b0 [] → Follows b0 b vs → Counts b vs
  Follows-Counts h here = h
  Follows-Counts h (put {b} {vs} v run few) =
      counting_bloom_probe-Counts b vs v few (Follows-Counts h run)
  Follows-Counts h (take_out {b} {vs} {ws} front v back run split rest) =
      let counts = Follows-Counts h run in
      rw rest (
        counting_bloom_remove-Counts b front v back
          (subst (λ (l : List ℕ). Counts b l) split counts))

  Counts-find :
      (b : Bloom D) (vs : List ℕ) (v : ℕ)
      → Counts b vs
      → (counting_bloom_find b v ≡ true) ↔ SharesSlots b.m b.k b.salt vs v
  unfolding counting_bloom_find counted
  Counts-find b vs v h =
      let z = hash_val v b.salt in
      let iff = all_slots_iff counted b.m z 0 b.k b.bitmap in
      (
        (λ found i low.
            let t = iff.0 found i (omega arith) (omega arith) in
            ground (arith, h.cells (place b.m z i), t)),
        (λ all. iff.1 (λ i low high.
            let t = all i (omega arith) in ground (arith, h.cells (place b.m z i), t))),
      )

  Counts-remove :
      (b : Bloom D) (front : List ℕ) (v : ℕ) (back : List ℕ)
      → Counts b (front ++ (v ∷ back))
      → (counting_bloom_remove b v).1 ≡ 1
  unfolding counting_bloom_remove
  Counts-remove b front v back h =
      let z = hash_val v b.salt in
      let pos = times-pos b.m b.k b.salt front v back 0 h.sized h.sized.some_parts in
      any_counted-first b.m z b.k b.bitmap h.sized.some_parts
        (omega (arith, pos, h.cells (place b.m z 0)))

counting_bloom_init-Counts :
    (fl : Floats) (b : Bloom fl.Double) (n : ℕ) (e : fl.Double) (salt : ℕ)
    → IsFeasible fl n e
    → b.size ≡ 0
    → Counts (counting_bloom_init fl b n e salt) []
unfolding counting_bloom_init times
counting_bloom_init-Counts fl b n e salt h empty =
    let m = slots_each fl n e in
    let k = make_k fl e in
    let whole : mul64 m k ≡ m * k = omega (arith, h.fits) in
    let len = length-replicate {A = ℕ} (mul64 m k) 0 in
    record {
      sized = record {
        some_slots = h.some_slots;
        some_parts = h.some_parts;
        fits = omega (arith, h.fits);
      };
      room = omega (arith, len, whole);
      few = omega arith;
      number = empty;
      cells = λ j. get_or-replicate {A = ℕ} (mul64 m k) j 0;
    }

-- From a new counting filter of feasible size in zeroed memory, after any calls that add items, never
-- more than 255 at a time, and take out items that are there: size is the number of items left, the
-- filter finds exactly the numbers each of whose slots is a slot of one of these, so it finds each of
-- them, and counting_bloom_remove returns 1 for each of them.
pub counting_bloom-Follows :
    (fl : Floats) (b0 : Bloom fl.Double) (n : ℕ) (e : fl.Double) (salt : ℕ) {b : Bloom fl.Double}
    {vs : List ℕ}
    → IsFeasible fl n e
    → b0.size ≡ 0
    → Follows (counting_bloom_init fl b0 n e salt) b vs
    → (b.size ≡ length vs)
      × ((v : ℕ) → (counting_bloom_find b v ≡ true) ↔ SharesSlots b.m b.k b.salt vs v)
      × All (λ v. (counting_bloom_find b v ≡ true) × ((counting_bloom_remove b v).1 ≡ 1)) vs
counting_bloom-Follows fl b0 n e salt {b} {vs} feasible empty run =
    let h = Follows-Counts (counting_bloom_init-Counts fl b0 n e salt feasible empty) run in
    (
      h.number,
      (λ v. Counts-find b vs v h),
      All-splits (λ v. (counting_bloom_find b v ≡ true) × ((counting_bloom_remove b v).1 ≡ 1)) vs
          (λ front v back split.
            let counts = subst (λ (l : List ℕ). Counts b l) split h in
            (
              (Counts-find b (front ++ (v ∷ back)) v counts).1
                  (λ i low. times-pos b.m b.k b.salt front v back i counts.sized low),
              Counts-remove b front v back counts,
            )),
    )
