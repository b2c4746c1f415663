-- ===== src/Bloom/Scaling.antt =====
-- A probe of one filter, and a new filter, keep what a scalable filter finds.
use portable_lib.Prelude.{
  ℕ, ◌+◌, ◌*◌, ◌^◌, ◌<◌, ◌≤◌, ◌-◌, ◌%◌, true, some, List, ◌∷◌, ◌++◌, ◌≡◌, ◌≢◌, refl, ◌∙◌, subst,
  inl, inr, arith, ◌==◌, ltb, Bool-cases, set, length, length-set, length-append, length-replicate,
  replicate, All-map, add32, u32_mod, lt→ltb,
}
use portable_lib.Bloom.{
  Floats, Bloom, standard_bloom_probe, standard_bloom_find, standard_bloom_init,
}
use portable_lib.Bloom.Scalable.{
  ScalableBloom, filter_at, maybe_grow_filter, next_e, next_n, with_new_filter, probe_at,
}
use portable_lib.Bloom.Standard.{IsFeasible, standard_bloom_init-Holds}
use portable_lib.Bloom.Growing.{
  IsUsable, IsFound, Spans, probe-IsUsable, find-probe_self, find-probe_keeps, filter_at-set_self,
  filter_at-set_ne, filter_at-append,
}

module _ (fl : Floats) (junk : Bloom fl.Double) where
  pub probe_at-Spans :
      (sb : ScalableBloom fl.Double) (vs : List ℕ) (v i : ℕ)
      → i < sb.len
      → Spans junk sb vs
      → Spans junk (probe_at fl junk v i sb) (v ∷ vs)
  unfolding probe_at
  probe_at-Spans sb vs v i low h =
      let f = filter_at junk sb.bfa i in
      let f' = standard_bloom_probe f v in
      let self = filter_at-set_self junk sb.bfa i f' (omega (arith, h.array, h.in_array)) in
      record {
        some_filters = h.some_filters;
        in_array = h.in_array;
        array = length-set sb.bfa i f' ∙ h.array;
        small = h.small;
        usable = λ j lj. elim (Bool-cases (i == j)) [
          | inl t ↦
              let same : i ≡ j = ground (arith, t) in
              subst (λ k. IsUsable (filter_at junk (set sb.bfa i f') k)) same
                (rw self (probe-IsUsable f v (h.usable i low)))
          | inr t ↦
              rw (filter_at-set_ne junk sb.bfa f' (λ (e : i ≡ j). absurd (ground (arith, t, e))))
                (h.usable j lj)
        ];
        items = (
          (i, low, rw self (find-probe_self f v (h.usable i low))),
          All-map (IsFound junk sb.bfa sb.len) (IsFound junk (set sb.bfa i f') sb.len) vs
              (λ w (j, lj, found). elim (Bool-cases (i == j)) [
                | inl t ↦
                    let same : j ≡ i = ground (arith, t) in
                    let there =
                      subst (λ k. standard_bloom_find (filter_at junk sb.bfa k) w ≡ true) same
                        found in
                    (i, low, rw self (find-probe_keeps f v w (h.usable i low) there))
                | inr t ↦ (
                  j,
                  lj,
                  rw
                      (filter_at-set_ne junk sb.bfa f'
                        (λ (e : i ≡ j). absurd (ground (arith, t, e))))
                      found,
                )
              ])
              h.items,
        );
      }

  -- A scalable filter with room behind its last filter, and its old filters as they were.
  record IsLonger (sb g : ScalableBloom fl.Double) : Type 0 where
    longer : g.len ≡ sb.len + 1
    inside : g.len ≤ g.cap
    whole : length g.bfa ≡ g.cap
    low_cap : g.cap < u32_mod
    same : (i : ℕ) → i < sb.len → filter_at junk g.bfa i ≡ filter_at junk sb.bfa i

  maybe_grow_filter-IsLonger :
      (sb : ScalableBloom fl.Double) (vs : List ℕ)
      → Spans junk sb vs
      → sb.cap < 2 ^ 31
      → (g : ScalableBloom fl.Double) × (maybe_grow_filter junk sb ≡ some g) × IsLonger sb g
  unfolding maybe_grow_filter
  maybe_grow_filter-IsLonger sb vs h room = elim (Bool-cases (sb.len == sb.cap)) [
    | inl t ↦
        let full : sb.len ≡ sb.cap = ground (arith, t) in
        let more = replicate (sb.cap * 2 % u32_mod - sb.cap) junk in
        let grows : ltb sb.cap (sb.cap * 2 % u32_mod) ≡ true =
          lt→ltb _ _ (omega (arith, h.some_filters, full)) in
        (
          record sb { bfa = sb.bfa ++ more; cap = sb.cap * 2 % u32_mod; len = add32 sb.len 1 },
          rw (t, grows) refl,
          record {
            longer = omega (arith, full);
            inside = omega (arith, full, h.some_filters);
            whole = omega (
              arith,
              length-append sb.bfa more,
              h.array,
              length-replicate (sb.cap * 2 % u32_mod - sb.cap) junk,
            );
            low_cap = omega arith;
            same = λ i low. filter_at-append junk sb.bfa more i (omega (arith, h.array, full));
          },
        )
    | inr f ↦
        let ne : sb.len ≢ sb.cap = λ e. absurd (ground (arith, f, e)) in
        (
          record sb { len = add32 sb.len 1 },
          rw f refl,
          record {
            longer = omega (arith, h.in_array);
            inside = omega (arith, h.in_array, ne);
            whole = h.array;
            low_cap = h.small;
            same = λ i low. refl;
          },
        )
  ]

  pub with_new_filter-Spans :
      (sb : ScalableBloom fl.Double) (vs : List ℕ) (f : Bloom fl.Double) (salt : ℕ)
      → Spans junk sb vs
      → sb.cap < 2 ^ 31
      → IsFeasible fl (next_n fl sb f) (next_e fl sb f)
      → (g : ScalableBloom fl.Double) × (with_new_filter fl junk sb f salt ≡ some g)
        × Spans junk g vs
        × (sb.len < g.len)
  unfolding with_new_filter
  with_new_filter-Spans sb vs f salt h room feasible =
      let (g, grown, long) = maybe_grow_filter-IsLonger sb vs h room in
      let old = filter_at junk g.bfa sb.len in
      let new = standard_bloom_init fl old (next_n fl sb f) (next_e fl sb f) salt in
      let good = standard_bloom_init-Holds fl old (next_n fl sb f) (next_e fl sb f) salt feasible in
      let self =
        filter_at-set_self junk g.bfa sb.len new
          (omega (arith, long.whole, long.inside, long.longer)) in
      (
        record g { bfa = set g.bfa sb.len new },
        rw grown refl,
        record {
          some_filters = omega (arith, long.longer);
          in_array = long.inside;
          array = length-set g.bfa sb.len new ∙ long.whole;
          small = long.low_cap;
          usable = λ j lj. elim (Bool-cases (sb.len == j)) [
            | inl t ↦
                let same : sb.len ≡ j = ground (arith, t) in
                subst (λ k. IsUsable (filter_at junk (set g.bfa sb.len new) k)) same
                  (rw self (record { sized = good.sized; room = good.room }))
            | inr t ↦
                let ne : sb.len ≢ j = λ e. absurd (ground (arith, t, e)) in
                let low : j < sb.len = omega (arith, long.longer) in
                rw (filter_at-set_ne junk g.bfa new ne, long.same j low) (h.usable j low)
          ];
          items =
              All-map (IsFound junk sb.bfa sb.len) (IsFound junk (set g.bfa sb.len new) g.len) vs
                (λ w (j, lj, found).
                  let ne : sb.len ≢ j = λ e. absurd (omega arith) in
                  (
                    j,
                    omega (arith, long.longer),
                    rw (filter_at-set_ne junk g.bfa new ne, long.same j lj) found,
                  ))
                h.items;
        },
        omega (arith, long.longer),
      )
