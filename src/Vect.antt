-- ===== src/Vect.antt =====
-- inc/fast/vect.h: arrays that grow. An allocation gives its memory; `junk` is what a new part of an
-- array holds before it is cleared, and what lies beyond an array. A call that does not end, whose
-- assertion fails or that leaves the array gives no result.
pub mod Room
pub mod Shifts
pub mod Ends
pub mod Calls
pub mod Runs
pub mod Shuffled
pub mod Sampled
mod Tests
use portable_lib.Prelude.{
  ℕ, zero, suc, ◌+◌, ◌-◌, ◌*◌, ◌%◌, Bool, true, false, Option, none, some, List, [], ◌∷◌, ◌++◌,
  if◌then◌else◌, ◌==◌, ltb, leb, get_or, set, replicate, take, length, u64_mod, u32_mod, add64,
  sub64, ◌^◌, write_at, ◌>>=◌,
}

pub record Vect {ℓ} (A : Type ℓ) : Type ℓ where
  pub size : ℕ
  pub cap : ℕ
  pub arr : List A

-- `do { n *= 2; } while (n < want)`: a number of 64 bits grows at most that many times, and a loop that
-- goes on is at 0.
unfoldable pub doubled : ℕ → ℕ → ℕ → Option ℕ
doubled zero n want = none
doubled (suc turns) n want =
    let n2 = n * 2 % u64_mod in
    let rest = doubled turns n2 want in if ltb n2 want then rest else some n2

-- `memset` of `n` elements from index `i` on
unfoldable pub fill {ℓ} : {A : Type ℓ} → List A → ℕ → ℕ → A → List A
fill buf i zero x = buf
fill buf i (suc n) x = fill (set buf i x) (i + 1) n x

-- The loop of VECT_PUSH_FRONT over the `n` elements, and that of VECT_POP_FRONT from index `i` on.
unfoldable pub shift_up {ℓ} : {A : Type ℓ} → A → List A → ℕ → List A
shift_up junk buf zero = buf
shift_up junk buf (suc n) = shift_up junk (set buf (suc n) (get_or buf n junk)) n

unfoldable pub shift_down {ℓ} : {A : Type ℓ} → A → List A → ℕ → ℕ → List A
shift_down junk buf i zero = buf
shift_down junk buf i (suc n) = shift_down junk (set buf i (get_or buf (i + 1) junk)) (i + 1) n

unfoldable pub swap_elems {ℓ} : {A : Type ℓ} → A → List A → ℕ → ℕ → List A
swap_elems junk p i j = let e = get_or p i junk in set (set p i (get_or p j junk)) j e

-- The loop of VECT_SHUFFLE from index `i` down to 1, where `rnd i` is what `rnd()` gives then.
unfoldable pub shuffle_down {ℓ} : {A : Type ℓ} → A → (ℕ → ℕ) → List A → ℕ → List A
unfolding swap_elems
shuffle_down junk rnd p zero = p
shuffle_down junk rnd p (suc i) =
    shuffle_down junk rnd (swap_elems junk p (suc i) (rnd (suc i) % (suc i + 1))) i

-- The second loop of VECT_SAMPLE for the `left` elements of `y` from index `i` on, where `rnd i` is what
-- `rnd()` gives then.
unfoldable pub sample_from {ℓ} :
    {A : Type ℓ} → A → (ℕ → ℕ) → (k : ℕ) → (x y : List A) → (i left : ℕ) → List A
sample_from junk rnd k x y i zero = x
sample_from junk rnd k x y i (suc left) =
    let j = rnd i % (i + 1) in
    sample_from junk rnd k (if ltb j k then set x j (get_or y i junk) else x) y (i + 1) left

-- The zero of the elements' type is what cleared memory holds.
module _ {ℓ} {A : Type ℓ} (null junk : A) where
  unfoldable pub vect_init : ℕ → Vect A
  vect_init n =
      let cap = if n == 0 then 16 else n in record { size = 0; cap = cap; arr = replicate cap null }

  unfoldable pub vect_init_from : Vect A → Vect A
  vect_init_from w = record {
    size = w.size;
    cap = w.size;
    arr = write_at (replicate w.size null) 0 (take w.size w.arr);
  }

  -- `__vect_RESERVE`; VECT_RESERVE and VECT_ENSURE call it.
  unfoldable pub vect_reserve : Vect A → ℕ → Option (Vect A)
  unfolding doubled fill
  vect_reserve v want =
      let grown = doubled 65 v.cap want >>= λ n. some (record v {
        arr = fill (v.arr ++ replicate (n - v.cap) junk) v.size (n - v.cap) null;
        cap = n;
      }) in
      if leb v.cap want then grown else some v

  unfoldable pub vect_ensure : Vect A → ℕ → Option (Vect A)
  unfolding vect_reserve
  vect_ensure v xtra = vect_reserve v (add64 xtra v.size)

  unfoldable pub vect_push_back : Vect A → A → Option (Vect A)
  unfolding vect_reserve
  vect_push_back v e = vect_reserve v (add64 v.size 1) >>= λ w.
      some (record w { arr = set w.arr w.size e; size = w.size + 1 })

  unfoldable pub vect_pop_back : Vect A → Option (A × Vect A)
  vect_pop_back v =
      if ltb 0 v.size
      then some (get_or v.arr (v.size - 1) junk, record v { size = v.size - 1 })
      else none

  unfoldable pub vect_push_front : Vect A → A → Option (Vect A)
  unfolding vect_reserve shift_up
  vect_push_front v e = vect_reserve v (add64 v.size 1) >>= λ w.
      some (record w { arr = set (shift_up junk w.arr w.size) 0 e; size = w.size + 1 })

  -- The size of an empty vector would become the largest number.
  unfoldable pub vect_pop_front : Vect A → Option (A × Vect A)
  unfolding shift_down
  vect_pop_front v =
      if v.size == 0
      then none
      else some (
        get_or v.arr 0 junk,
        record v { arr = shift_down junk v.arr 0 (v.size - 1); size = v.size - 1 },
      )

  unfoldable pub vect_reset : Vect A → Vect A
  vect_reset v = record v { size = 0 }

  -- The vector that `d` is then.
  unfoldable pub vect_copy : Vect A → Vect A → Option (Vect A)
  unfolding vect_reserve
  vect_copy d s = vect_reserve d s.size >>= λ w.
      some (record w { arr = write_at w.arr 0 (take s.size s.arr); size = s.size })

  unfoldable pub vect_append_vect : Vect A → Vect A → Option (Vect A)
  unfolding vect_reserve
  vect_append_vect d s = vect_reserve d (add64 d.size s.size) >>= λ w.
      some (record w { arr = write_at w.arr w.size (take s.size s.arr); size = w.size + s.size })

  unfoldable pub vect_last_elem : Vect A → Option A
  vect_last_elem v = if ltb 0 v.size then some (get_or v.arr (v.size - 1) junk) else none

  -- `i_` is an `int`: the size less one, of 64 bits, is cut to 32, from the half on a negative number,
  -- and its successor `i_+1` overflows at the largest, which gives no result.
  unfoldable pub vect_shuffle : Vect A → (ℕ → ℕ) → Option (Vect A)
  unfolding shuffle_down
  vect_shuffle v rnd =
      let i = sub64 v.size 1 % u32_mod in
      if ltb i (2 ^ 31)
      then if i == 2 ^ 31 - 1 then none else some (record v { arr = shuffle_down junk rnd v.arr i })
      else some v

  -- The assertion on the size, and the element dropped.
  unfoldable pub vect_pop : Vect A → Option (Vect A)
  vect_pop v = if ltb 0 v.size then some (record v { size = v.size - 1 }) else none

  -- `r` is what `rnd()` gives; the remainder of a division by 0 is no result.
  unfoldable pub vect_rand_elem : Vect A → ℕ → Option A
  vect_rand_elem v r = if v.size == 0 then none else some (get_or v.arr (r % v.size) junk)

  -- `d` and `s` are different vectors. A growth of `d` moves its array, and the old one is written to.
  unfoldable pub vect_sample : Vect A → Vect A → ℕ → (ℕ → ℕ) → Option (Vect A × Bool)
  unfolding sample_from
  vect_sample d s k rnd =
      let x = write_at d.arr 0 (take k s.arr) in
      let sampled = record d { size = k; arr = sample_from junk rnd k x s.arr k (s.size - k) } in
      if ltb k s.size then if leb d.cap k then none else some (sampled, true) else some (d, false)

  unfoldable pub vect_fini : Vect A → Vect A
  vect_fini v = record { size = 0; cap = 0; arr = List.[] }

  -- Both vectors afterwards.
  unfoldable pub vect_swap : Vect A → Vect A → Vect A × Vect A
  vect_swap a b = (
    record a { cap = b.cap; size = b.size; arr = b.arr },
    record b { cap = a.cap; size = a.size; arr = a.arr },
  )

  -- `VECT_GET_NEXT(v) = e`
  unfoldable pub vect_get_next : Vect A → A → Vect A
  vect_get_next v e = record v { arr = set v.arr v.size e; size = add64 v.size 1 }

  -- `qsort` with the client's comparison rearranges the elements before index `size`.
  unfoldable pub vect_sort : (List A → ℕ → List A) → Vect A → Vect A
  vect_sort qsort v = record v { arr = qsort v.arr v.size }
