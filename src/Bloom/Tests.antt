-- ===== src/Bloom/Tests.antt =====
-- Filters at concrete sizes, over numbers that stand for the floating-point ones.
use portable_lib.Prelude.{
  ℕ, zero, suc, ◌-◌, ◌*◌, ◌/◌, ◌≡◌, refl, arith, true, false, Option, none, some, [], ◌∷◌, All, ltb,
  ◌↔◌,
}
use portable_lib.Bloom.{
  Floats, Bloom, mix, hash_val, testbit, setbit, count_up, count_down, counted, place, for_slots,
  all_slots, any_counted, standard_bloom_probe, standard_bloom_find, counting_bloom_probe,
  counting_bloom_remove, counting_bloom_find, make_k, make_m, make_n, bloom_fill_ratio_est,
  slots_each, standard_bloom_init, counting_bloom_init,
}
use portable_lib.Bloom.Scalable.{
  ScalableBloom, Filter, blank, quick, scaled, filter_at, find_down, scalable_find, next_e, next_n,
  is_overfull, scalable_probe, scalable_new, standard_bloom_new, counting_bloom_new, bloom_probe,
  bloom_find, bloom_remove,
}
use portable_lib.Bloom.Equal.{same_bytes, bloom_eq, filters_eq, scaled_bloom_eq, filter_eq}
use portable_lib.Bloom.Places.{SharesSlots}
use portable_lib.Bloom.Standard.{IsFeasible, probe_all, standard_bloom_find-probe_all}
use portable_lib.Bloom.Bags.{here, put, take_out, counting_bloom-Follows}
use portable_lib.Bloom.Spanning.{Grows, CanGrow, scalable_probe-Grows}

-- An error rate is given by twice the number of partitions.
abbrev whole : Floats
whole = record {
  Double = ℕ;
  log = λ x. x;
  exp = λ x. 1 - x;
  ceil = λ x. x;
  neg = λ x. x;
  sub = λ a b. a - b;
  mul = λ a b. a * b;
  div = λ a b. a / b;
  gt = λ a b. ltb b a;
  fabs = λ x. x;
  of_u64 = λ x. x;
  to_u64 = λ x. x;
  half = 0;
  nine_tenths = 1;
  epsilon = 0;
}

abbrev zeroed : Bloom ℕ
zeroed = blank 0

program : Unit {0}
unfolding mix hash_val testbit setbit count_up count_down counted place for_slots all_slots
    any_counted standard_bloom_probe standard_bloom_find counting_bloom_probe counting_bloom_remove
    counting_bloom_find make_k make_m make_n bloom_fill_ratio_est slots_each standard_bloom_init
    counting_bloom_init filter_at find_down scalable_find next_e next_n is_overfull scalable_probe
    scalable_new standard_bloom_new counting_bloom_new bloom_probe bloom_find bloom_remove probe_all
    same_bytes bloom_eq filters_eq scaled_bloom_eq filter_eq
program = tt

feasible : IsFeasible whole 10 4
unfolding program
feasible = record { some_slots = omega arith; some_parts = omega arith; fits = omega arith }

found :
    standard_bloom_find (probe_all (7 ∷ 9 ∷ []) (standard_bloom_init whole zeroed 10 4 5)) 9 ≡ true
unfolding program
found = refl

missed :
    standard_bloom_find (probe_all (7 ∷ 9 ∷ []) (standard_bloom_init whole zeroed 10 4 5)) 1 ≡ false
unfolding program
missed = refl

-- The ninth probe of the first filter opens a second one.
probes : ℕ → Filter ℕ → Option (Filter ℕ)
unfolding program
probes zero f = some f
probes (suc n) f = elim (bloom_probe whole zeroed f n 3) [ none ↦ none | some g ↦ probes n g ]

number : Option (Filter ℕ) → ℕ
number (some (scaled sb)) = sb.len
number other = 0

opened : number (probes 9 (standard_bloom_new whole 10 4 true 5)) ≡ 2
unfolding probes number
opened = refl

-- A counter of eight bits forgets an item that was added 256 times.
times_over : ℕ → Bloom ℕ → Bloom ℕ
unfolding program
times_over zero b = b
times_over (suc n) b = counting_bloom_probe (times_over n b) 7

forgotten : counting_bloom_find (times_over 256 (counting_bloom_init whole zeroed 10 4 5)) 7 ≡ false
unfolding times_over
forgotten = refl

removed : (counting_bloom_remove (times_over 2 (counting_bloom_init whole zeroed 10 4 5)) 7).1 ≡ 1
unfolding times_over
removed = refl

standard_bloom_find-probe_all_example :
    let b = probe_all (7 ∷ 9 ∷ []) (standard_bloom_init whole zeroed 10 4 5) in
    ((v : ℕ) → (standard_bloom_find b v ≡ true) ↔ SharesSlots b.m b.k b.salt (7 ∷ 9 ∷ []) v)
    × All (λ v. standard_bloom_find b v ≡ true) (7 ∷ 9 ∷ [])
standard_bloom_find-probe_all_example =
    standard_bloom_find-probe_all whole zeroed 10 4 5 (7 ∷ 9 ∷ []) feasible

abbrev two_added : Bloom ℕ
two_added =
    counting_bloom_probe (counting_bloom_probe (counting_bloom_init whole zeroed 10 4 5) 7) 9

abbrev taken : Bloom ℕ
taken = (counting_bloom_remove two_added 7).0

counting_bloom-Follows_example :
    (taken.size ≡ 1)
    × ((v : ℕ)
        → (counting_bloom_find taken v ≡ true) ↔ SharesSlots taken.m taken.k taken.salt (9 ∷ []) v)
    × All
        (λ v. (counting_bloom_find taken v ≡ true) × ((counting_bloom_remove taken v).1 ≡ 1))
        (9 ∷ [])
counting_bloom-Follows_example =
    counting_bloom-Follows whole zeroed 10 4 5 {b = taken} {vs = 9 ∷ []} feasible refl
      (take_out (9 ∷ []) 7 [] (put 9 (put 7 here (omega arith)) (omega arith)) refl refl)

can_grow : CanGrow whole zeroed (scalable_new whole 10 4 5)
unfolding program
can_grow = (omega arith, λ full. absurd (cc))

scalable_probe-Grows_example :
    (sb : ScalableBloom ℕ) × (scalable_probe whole zeroed (scalable_new whole 10 4 5) 7 6 ≡ some sb)
    × All (λ w. scalable_find zeroed sb w ≡ some true) (7 ∷ [])
scalable_probe-Grows_example =
    scalable_probe-Grows whole zeroed 10 4 5 7 6 feasible Grows.here can_grow

-- A filter is equal to itself, but not to itself with one more item, nor to one of another type.
itself :
    filter_eq whole zeroed
      (standard_bloom_new whole 10 4 true 5)
      (standard_bloom_new whole 10 4 true 5)
    ≡ true
unfolding program
itself = refl

one_more :
    filter_eq whole zeroed
      (quick (standard_bloom_probe (standard_bloom_init whole zeroed 10 4 5) 9))
      (standard_bloom_new whole 10 4 false 5)
    ≡ false
unfolding program
one_more = refl

another_type :
    filter_eq whole zeroed (counting_bloom_new whole 10 4 5) (standard_bloom_new whole 10 4 false 5)
    ≡ false
unfolding program
another_type = refl
