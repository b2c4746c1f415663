-- ===== src/Minheap/Tests.antt =====
-- Heaps of numbers.
use mathlib.Core.List.{Perm}
use portable_lib.Prelude.{
  ℕ, zero, suc, ◌≤◌, ◌<◌, true, none, some, List, ◌>>=◌, [], ◌∷◌, ◌≡◌, refl, arith, ltb, take,
  get_or,
}
use portable_lib.Vect.{swap_elems}
use portable_lib.Minheap.{
  Comp, Minheap, parent, is_leaf, at, swap_at, child, siftdown_loop, siftdown, build_down, minheap,
  siftup_loop, insert, removemin, push_up, remove,
}
use portable_lib.Minheap.Order.{IsLawful}
use portable_lib.Minheap.Calls.{
  IsHeap, IsInserted, IsRemoved, insert-IsInserted, removemin-IsRemoved,
}
use portable_lib.Minheap.Draining.{drain, sorted, drain-minheap}

abbrev numbers : Comp ℕ
numbers = record { lt = ltb; gt = λ x y. ltb y x; swap = swap_elems 0 }

abbrev numbers-IsLawful : IsLawful numbers 0
numbers-IsLawful = record {
  rank = λ x. x;
  lt_rank = λ x y. refl;
  gt_rank = λ x y. refl;
  exchange = λ h i j hi hj. refl;
}

program : Unit {0}
unfolding swap_elems is_leaf at swap_at child siftdown_loop siftdown build_down minheap siftup_loop
    insert removemin push_up remove drain sorted
program = tt

abbrev three : Minheap ℕ
three = record { heap = 3 ∷ 5 ∷ 4 ∷ 0 ∷ []; n = 3 }

three_edges :
    (k : ℕ) → 0 < k → k < 3 → 0 ≤ parent k → get_or three.heap (parent k) 0 ≤ get_or three.heap k 0
three_edges zero pos low top = absurd (omega arith)
three_edges (suc zero) pos low top = omega arith
three_edges (suc (suc zero)) pos low top = omega arith
three_edges (suc (suc (suc k))) pos low top = absurd (omega arith)

three-IsHeap : IsHeap numbers 0 numbers-IsLawful three
three-IsHeap = record { in_array = omega arith; ordered = three_edges }

made :
    minheap numbers (5 ∷ 4 ∷ 3 ∷ 2 ∷ 1 ∷ []) 5
    ≡ some (record { heap = 1 ∷ 2 ∷ 3 ∷ 5 ∷ 4 ∷ []; n = 5 })
unfolding program
made = refl

inserted : insert numbers three 1 ≡ some (record { heap = 1 ∷ 3 ∷ 4 ∷ 5 ∷ []; n = 4 }, true)
unfolding program
inserted = refl

taken : removemin numbers three ≡ some (record { heap = 4 ∷ 5 ∷ 3 ∷ 0 ∷ []; n = 2 }, some 3)
unfolding program
taken = refl

-- The element that takes the place of 300 is below 100, which stands two levels above it, and rises by
-- one level only.
abbrev fifteen : Minheap ℕ
fifteen = record {
  heap = 1 ∷ 100 ∷ 2 ∷ 200 ∷ 101 ∷ 3 ∷ 4 ∷ 300 ∷ 201 ∷ 102 ∷ 103 ∷ 6 ∷ 7 ∷ 8 ∷ 5 ∷ [];
  n = 15;
}

disordered :
    remove numbers fifteen 7
    ≡ some (
      record {
        heap = 1 ∷ 100 ∷ 2 ∷ 5 ∷ 101 ∷ 3 ∷ 4 ∷ 200 ∷ 201 ∷ 102 ∷ 103 ∷ 6 ∷ 7 ∷ 8 ∷ 300 ∷ [];
        n = 14;
      },
      some 300,
    )
unfolding program
disordered = refl

-- The last element is removed by a look beyond the array.
outside : remove numbers (record { heap = 7 ∷ []; n = 1 }) 0 ≡ none
unfolding program
outside = refl

drained :
    (minheap numbers (5 ∷ 4 ∷ 3 ∷ 2 ∷ 1 ∷ []) 4 >>= λ m. drain numbers 4 m)
    ≡ some (2 ∷ 3 ∷ 4 ∷ 5 ∷ [])
unfolding program
drained = refl

drain-minheap_example :
    (xs : List ℕ) × ((minheap numbers (5 ∷ 4 ∷ 3 ∷ 2 ∷ 1 ∷ []) 4 >>= λ m. drain numbers 4 m)
      ≡ some xs)
    × (sorted (λ x. x) xs ≡ true)
    × Perm xs (take 4 (5 ∷ 4 ∷ 3 ∷ 2 ∷ 1 ∷ []))
drain-minheap_example =
    drain-minheap numbers 0 numbers-IsLawful (5 ∷ 4 ∷ 3 ∷ 2 ∷ 1 ∷ []) 4 (omega arith)

insert-IsInserted_example : IsInserted numbers 0 numbers-IsLawful three 1 (insert numbers three 1)
insert-IsInserted_example = insert-IsInserted numbers 0 numbers-IsLawful three 1 three-IsHeap

removemin-IsRemoved_example : IsRemoved numbers 0 numbers-IsLawful three (removemin numbers three)
removemin-IsRemoved_example = removemin-IsRemoved numbers 0 numbers-IsLawful three three-IsHeap
