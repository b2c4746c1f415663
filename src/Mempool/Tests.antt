-- ===== src/Mempool/Tests.antt =====
-- A pool of blocks of 24 bytes, two to a chunk.
use portable_lib.Prelude.{ℕ, true, none, some, [], ◌∷◌, ◌++◌, ◌≡◌, refl, arith, inl, inr}
use portable_lib.Mempool.{
  Mempool, align, align_size, chunk_at, new_chunk, alloc_from, alloc_from_chunk, valid_blk,
  real_init, init_from_mem, remove_tail, alloc_fresh, alloc, free,
}
use portable_lib.Mempool.Blocks.{IsValid, Separate, Spread, InSome}
use portable_lib.Mempool.Growing.{Grants}
use portable_lib.Mempool.Returning.{free-IsValid}
use portable_lib.Mempool.Allocation.{Allocated, alloc-Allocated}
use portable_lib.Mempool.Init.{IsNew, bare, real_init-IsValid}

program : Unit {0}
unfolding align align_size chunk_at new_chunk alloc_from alloc_from_chunk valid_blk real_init
    init_from_mem remove_tail alloc_fresh alloc free
program = tt

abbrev started : Mempool
started = record {
  chunks = record { base = 0x1000; free_area = 0x1018; end = 0x1048 } ∷ [];
  mru = [];
  block_size = 24;
  max_blocks = 0;
  min_units = 2;
}

abbrev used : Mempool
used = record started { chunks = record { base = 0x1000; free_area = 0x1048; end = 0x1048 } ∷ [] }

init_test : real_init 20 0 2 0x1000 ≡ some (true, started)
unfolding program
init_test = refl

-- A pool that is limited to one block fails the assertion of `new_chunk`.
init_one : real_init 20 1 0 0x1000 ≡ none
unfolding program
init_one = refl

-- The second block is the last of its chunk.
second :
    alloc
      (record started { chunks = record { base = 0x1000; free_area = 0x1030; end = 0x1048 } ∷ [] })
      0
    ≡ some (0x1030, used)
unfolding program
second = refl

-- Of two returned blocks the one that came back first is given out first.
oldest_first :
    alloc (record used { mru = 0x1030 ∷ 0x1018 ∷ [] }) 0
    ≡ some (0x1018, record used { mru = 0x1030 ∷ [] })
unfolding program
oldest_first = refl

used-IsValid : IsValid used (0x1018 ∷ 0x1030 ∷ [])
unfolding Separate Spread InSome
used-IsValid = record {
  size_ge = omega arith;
  size_lt = omega arith;
  size_aligned = refl;
  units_ge = λ e. omega arith;
  units_lt = omega arith;
  some_chunk = omega arith;
  fits = (
    record { header = omega arith; left = 0; whole = refl; end_lt = omega arith; aligned = refl },
    tt,
  );
  separate = (tt, tt);
  placed = (
    inl (record { from_header = omega arith; to_free = omega arith; aligned = refl }),
    (inl (record { from_header = omega arith; to_free = omega arith; aligned = refl }), tt),
  );
  spread = ((inr (omega arith), tt), (tt, tt));
}

used-Grants : Grants used 0x2000
used-Grants = record { fits = omega arith; apart = (inr (omega arith), tt) }

alloc-Allocated_example :
    (r : ℕ × Mempool) × (alloc used 0x2000 ≡ some r)
    × Allocated used (0x1018 ∷ 0x1030 ∷ []) 0x2000 r.0 r.1
alloc-Allocated_example =
    alloc-Allocated used (0x1018 ∷ 0x1030 ∷ []) 0x2000 used-IsValid (λ h. used-Grants)

free-IsValid_example :
    ((a' : Mempool) × (free used 0x1030 ≡ some a')
      × IsValid a' ((0x1018 ∷ []) ++ [])
      × (a'.mru ≡ 0x1030 ∷ used.mru)
      × (a'.chunks ≡ used.chunks))
    × (free used 0x1008 ≡ none)
free-IsValid_example =
    free-IsValid used (0x1018 ∷ []) [] 0x1030 0x1008 used-IsValid (inl (omega arith), tt)

start-Grants : Grants (bare 20 0 2) 0x1000
unfolding program
start-Grants = record { fits = omega arith; apart = tt }

real_init-IsValid_example :
    (a : Mempool) × (real_init 20 0 2 0x1000 ≡ some (true, a)) × IsValid a [] × IsNew 20 0 2 a
real_init-IsValid_example =
    real_init-IsValid 20 0 2 0x1000 (omega arith) (omega arith) (omega arith) (omega arith)
      start-Grants
