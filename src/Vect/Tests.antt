-- ===== src/Vect/Tests.antt =====
-- Vectors at concrete elements.
use mathlib.Core.List.{Perm}
use portable_lib.Prelude.{
  ℕ, ◌+◌, ◌*◌, List, [], ◌∷◌, none, some, ◌⊎◌, ◌≤◌, ◌<◌, true, false, ◌≡◌, refl, arith, write_at,
}
use portable_lib.Vect.{
  Vect, doubled, fill, shift_up, shift_down, swap_elems, shuffle_down, vect_init, vect_init_from,
  vect_reserve, vect_push_back, vect_pop_back, vect_push_front, vect_pop_front, vect_reset,
  vect_copy, vect_append_vect, vect_last_elem, vect_shuffle, vect_ensure, vect_pop, vect_rand_elem,
  sample_from, vect_sample, vect_fini, vect_swap, vect_get_next, vect_sort,
}
use portable_lib.Vect.Room.{IsValid, contents}
use portable_lib.Vect.Calls.{
  Call, push_back, push_front, pop_back, pop_front, reserve, append_vect, vect_call, list_call,
  vect_run, list_run,
}
use portable_lib.Vect.Runs.{vect_run_refines}
use portable_lib.Vect.Shuffled.{vect_shuffle-Perm}
use portable_lib.Vect.Sampled.{IsSample, vect_sample-IsSample}

program : Unit {0}
unfolding write_at doubled fill shift_up shift_down swap_elems shuffle_down vect_init vect_init_from
    vect_reserve vect_push_back vect_pop_back vect_push_front vect_pop_front vect_reset vect_copy
    vect_append_vect vect_last_elem vect_shuffle vect_ensure vect_pop vect_rand_elem sample_from
    vect_sample vect_fini vect_swap vect_get_next vect_sort vect_call list_call vect_run list_run
program = tt

abbrev pair : Vect ℕ
pair = record { size = 2; cap = 3; arr = 7 ∷ 8 ∷ 0 ∷ [] }

pair-IsValid : IsValid pair
pair-IsValid = record {
  in_cap = omega arith;
  array = refl;
  some_room = omega arith;
  low_cap = omega arith;
}

abbrev script : List (Call ℕ)
script =
    push_back 1
    ∷ push_front 2
    ∷ append_vect pair
    ∷ pop_front
    ∷ pop_back
    ∷ reserve 9
    ∷ push_front 3
    ∷ []

ran :
    vect_run 0 0xaa (vect_init 0 0xaa 1) script
    ≡ some (none ∷ none ∷ none ∷ some 2 ∷ some 8 ∷ none ∷ none ∷ [], 3 ∷ 1 ∷ 7 ∷ [])
unfolding program
ran = refl

last : vect_last_elem 0 0xaa pair ≡ some 8
unfolding program
last = refl

-- A vector made from an empty one has no capacity to double.
no_end : vect_push_back {A = ℕ} 0 0xaa (vect_init_from 0 0xaa (vect_init 0 0xaa 4)) 5 ≡ none
unfolding program
no_end = refl

vect_run_refines_example : vect_run 0 0xaa (vect_init 0 0xaa 1) script ≡ list_run 0 0xaa [] script
vect_run_refines_example =
    vect_run_refines 0 0xaa 1 script (omega arith)
      (tt, (tt, (pair-IsValid, (tt, (tt, (tt, (tt, tt))))))) (omega arith)

vect_shuffle-Perm_example :
    (w : Vect ℕ) × (vect_shuffle 0 0xaa pair (λ i. i + 2) ≡ some w)
    × IsValid w
    × (w.size ≡ 2)
    × Perm (contents w) (contents pair)
vect_shuffle-Perm_example = vect_shuffle-Perm 0xaa 0 pair (λ i. i + 2) pair-IsValid (omega arith)

abbrev five : Vect ℕ
five = record { size = 5; cap = 6; arr = 10 ∷ 11 ∷ 12 ∷ 13 ∷ 14 ∷ 0 ∷ [] }

five-IsValid : IsValid five
five-IsValid = record {
  in_cap = omega arith;
  array = refl;
  some_room = omega arith;
  low_cap = omega arith;
}

dropped : vect_pop 0 0xaa pair ≡ some (record { size = 1; cap = 3; arr = 7 ∷ 8 ∷ 0 ∷ [] })
unfolding program
dropped = refl

chosen : vect_rand_elem 0 0xaa five 13 ≡ some 13
unfolding program
chosen = refl

ensured :
    vect_ensure 0 0xaa pair 4
    ≡ some (record { size = 2; cap = 6; arr = 7 ∷ 8 ∷ 0 ∷ 0 ∷ 0 ∷ 0xaa ∷ [] })
unfolding program
ensured = refl

-- A vector exchanged for another, which is sorted backwards and gets one more element.
exchanged :
    (let both = vect_swap 0 0xaa pair five in
      let backwards = vect_sort 0 0xaa (λ l n. 14 ∷ 13 ∷ 12 ∷ 11 ∷ 10 ∷ 0 ∷ []) both.0 in
      vect_get_next 0 0xaa backwards 9)
    ≡ record { size = 6; cap = 6; arr = 14 ∷ 13 ∷ 12 ∷ 11 ∷ 10 ∷ 9 ∷ [] }
unfolding program
exchanged = refl

emptied : vect_fini 0 0xaa (vect_swap 0 0xaa five pair).0 ≡ record { size = 0; cap = 0; arr = [] }
unfolding program
emptied = refl

-- Two of five, and three into an array that would have to grow.
sampled :
    vect_sample 0 0xaa pair five 2 (λ i. 3 * i)
    ≡ some (record { size = 2; cap = 3; arr = 12 ∷ 13 ∷ 0 ∷ [] }, true)
unfolding program
sampled = refl

moved : vect_sample 0 0xaa pair five 3 (λ i. i) ≡ none
unfolding program
moved = refl

vect_sample-IsSample_example :
    ((five.size ≤ 2) × (vect_sample 0 0xaa pair five 2 (λ i. 3 * i) ≡ some (pair, false)))
    ⊎ (2 < five.size)
      × (after : Vect ℕ) × (vect_sample 0 0xaa pair five 2 (λ i. 3 * i) ≡ some (after, true))
      × IsSample five after 2
vect_sample-IsSample_example =
    vect_sample-IsSample 0xaa 0 pair five 2 (λ i. 3 * i) pair-IsValid five-IsValid (omega arith)
