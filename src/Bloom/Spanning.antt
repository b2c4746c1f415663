-- ===== src/Bloom/Spanning.antt =====
-- Sequences of calls on a scalable filter.
use portable_lib.Prelude.{
  ℕ, ◌^◌, ◌<◌, true, some, List, [], ◌∷◌, ◌≡◌, refl, subst, inl, inr, arith, Bool-cases, All,
  All-map, sub32, lt→ltb,
}
use portable_lib.Bloom.{Floats, Bloom}
use portable_lib.Bloom.Scalable.{
  ScalableBloom, filter_at, scalable_find, blank, next_e, next_n, is_overfull, probe_at,
  scalable_probe, scalable_new,
}
use portable_lib.Bloom.Standard.{IsFeasible, standard_bloom_init-Holds}
use portable_lib.Bloom.Growing.{IsUsable, IsFound, Spans, find_down-IsFound}
use portable_lib.Bloom.Scaling.{probe_at-Spans, with_new_filter-Spans}

module _ (fl : Floats) (junk : Bloom fl.Double) where
  abbrev pub last_filter : ScalableBloom fl.Double → Bloom fl.Double
  last_filter sb = filter_at junk sb.bfa (sub32 sb.len 1)

  -- If the next filter is needed, it can be had.
  abbrev pub CanGrow : ScalableBloom fl.Double → Type 0
  CanGrow sb =
      (sb.cap < 2 ^ 31)
      × (is_overfull fl (last_filter sb) ≡ true
          → IsFeasible fl (next_n fl sb (last_filter sb)) (next_e fl sb (last_filter sb)))

  scalable_probe-Spans :
      (sb : ScalableBloom fl.Double) (vs : List ℕ) (v salt : ℕ)
      → Spans junk sb vs
      → CanGrow sb
      → (sb' : ScalableBloom fl.Double) × (scalable_probe fl junk sb v salt ≡ some sb')
        × Spans junk sb' (v ∷ vs)
  unfolding scalable_probe
  scalable_probe-Spans sb vs v salt h (room, feasible) =
      let i = sub32 sb.len 1 in
      let low : i < sb.len = omega (arith, h.some_filters, h.in_array, h.small) in
      let inside = lt→ltb _ _ low in
      elim (Bool-cases (is_overfull fl (last_filter sb))) [
        | inl t ↦
            let (g, made, spans, longer) =
              with_new_filter-Spans fl junk sb vs (last_filter sb) salt h room (feasible t) in
            (
              probe_at fl junk v sb.len g,
              rw (inside, t, made) refl,
              probe_at-Spans fl junk g vs v sb.len longer spans,
            )
        | inr f ↦
            (probe_at fl junk v i sb, rw (inside, f) refl, probe_at-Spans fl junk sb vs v i low h)
      ]

  -- The filters that probes lead to, with the items that were added, each time with room for a next
  -- filter.
  pub data Grows (sb0 : ScalableBloom fl.Double) : ScalableBloom fl.Double → List ℕ → Type 0 where
    here : Grows sb0 sb0 []
    put :
        {sb sb' : ScalableBloom fl.Double} {vs : List ℕ} (v salt : ℕ)
        → Grows sb0 sb vs
        → CanGrow sb
        → scalable_probe fl junk sb v salt ≡ some sb'
        → Grows sb0 sb' (v ∷ vs)

  Grows-Spans :
      {sb0 sb : ScalableBloom fl.Double} {vs : List ℕ}
      → Spans junk sb0 []
      → Grows sb0 sb vs
      → Spans junk sb vs
  Grows-Spans h here = h
  Grows-Spans h (put {sb} {sb'} {vs} v salt run can e) =
      let (sb1, made, spans) = scalable_probe-Spans sb vs v salt (Grows-Spans h run) can in
      let same : sb1 ≡ sb' = cc in
      subst (λ (s : ScalableBloom fl.Double). Spans junk s (v ∷ vs)) same spans

  scalable_new-Spans :
      (n : ℕ) (e : fl.Double) (salt : ℕ)
      → IsFeasible fl n e
      → Spans junk (scalable_new fl n e salt) []
  unfolding scalable_new filter_at
  scalable_new-Spans n e salt h =
      let good = standard_bloom_init-Holds fl (blank (fl.of_u64 0)) n e salt h in
      record {
        some_filters = omega arith;
        in_array = omega arith;
        array = refl;
        small = omega arith;
        usable = λ i low.
            let zeroth : 0 ≡ i = omega arith in
            subst (λ k. IsUsable (filter_at junk (scalable_new fl n e salt).bfa k)) zeroth
              (record { sized = good.sized; room = good.room });
        items = tt;
      }

  Spans-find :
      (sb : ScalableBloom fl.Double) (vs : List ℕ)
      → Spans junk sb vs
      → All (λ w. scalable_find junk sb w ≡ some true) vs
  unfolding scalable_find
  Spans-find sb vs h =
      All-map (IsFound junk sb.bfa sb.len) (λ w. scalable_find junk sb w ≡ some true) vs
        (λ w found.
          rw (lt→ltb 0 sb.len h.some_filters, find_down-IsFound junk sb.bfa sb.len w found) refl)
        h.items

  -- From a new scalable filter of feasible size, after any probes, each with room for a next filter of
  -- feasible size where one is needed, the next such probe returns, without a failed assertion, and
  -- then scalable_find finds each item that was added, in whichever filter it is.
  pub scalable_probe-Grows :
      (n : ℕ) (e : fl.Double) (salt : ℕ) {sb : ScalableBloom fl.Double} {vs : List ℕ} (v salt' : ℕ)
      → IsFeasible fl n e
      → Grows (scalable_new fl n e salt) sb vs
      → CanGrow sb
      → (sb' : ScalableBloom fl.Double) × (scalable_probe fl junk sb v salt' ≡ some sb')
        × All (λ w. scalable_find junk sb' w ≡ some true) (v ∷ vs)
  scalable_probe-Grows n e salt {sb} {vs} v salt' feasible run can =
      let h = Grows-Spans (scalable_new-Spans n e salt feasible) run in
      let (sb', made, spans) = scalable_probe-Spans sb vs v salt' h can in
      (sb', made, Spans-find sb' (v ∷ vs) spans)
