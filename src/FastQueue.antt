-- ===== src/FastQueue.antt =====
-- inc/fast/queue.h: circular queues over an array of fixed size, by macros. The index part is a
-- record of its own, as `__fast_queue` is; the array that FQ_TYPE puts behind it is a list, and
-- `junk` is what a read beyond it would give. An operation returns its flag with the new queue.
pub mod Contents
pub mod Fifo
pub mod Runs
mod Tests
use portable_lib.Prelude.{
  ℕ, ◌+◌, ◌%◌, ◌^◌, Bool, true, false, Option, none, some, List, if◌then◌else◌, ◌==◌, ltb, not,
  get_or, set, replicate, add32, sub32,
}

pub record Indexes : Type 0 where
  pub rd : ℕ
  pub wr : ℕ
  pub sz : ℕ

abbrev pub indexes : ℕ → ℕ → ℕ → Indexes
indexes rd wr sz = record { rd = rd; wr = wr; sz = sz }

pub record Queue {ℓ} (A : Type ℓ) : Type ℓ where
  pub q : Indexes
  pub elem : List A

abbrev pub queue {ℓ} : {A : Type ℓ} → Indexes → List A → Queue A
queue q elem = record { q = q; elem = elem }

-- `wr + 1`, at 0 again behind the last slot
unfoldable pub next : ℕ → ℕ → ℕ
next i sz = let j = add32 i 1 in if j == sz then 0 else j

unfoldable pub is_full : Indexes → Bool
is_full q = q.rd == next q.wr q.sz

unfoldable pub is_empty : Indexes → Bool
is_empty q = q.rd == q.wr

unfoldable pub size : Indexes → ℕ
size q =
    if ltb q.rd q.wr
    then sub32 q.wr q.rd
    else if ltb q.wr q.rd
    then add32 (sub32 q.sz q.rd) q.wr
    else 0

unfoldable pub next_wr : Indexes → Option (ℕ × Indexes)
next_wr q =
    let nwr = next q.wr q.sz in
    if not (nwr == q.rd) then some (q.wr, indexes q.rd nwr q.sz) else none

unfoldable pub next_rd : Indexes → Option (ℕ × Indexes)
next_rd q = if q.rd == q.wr then none else some (q.rd, indexes (next q.rd q.sz) q.wr q.sz)

module _ {ℓ} {A : Type ℓ} where
  -- FQ_INIT on an array that holds `elem`
  unfoldable pub init : List A → ℕ → Queue A
  init elem n = queue (indexes 0 0 n) elem

  unfoldable pub reset : Queue A → Queue A
  reset s = queue (indexes 0 0 s.q.sz) s.elem

  unfoldable pub enq : Queue A → A → Bool × Queue A
  enq s e = elim (next_wr s.q) [ none ↦ (false, s) | some r ↦ (true, queue r.1 (set s.elem r.0 e)) ]

  -- The element is `e` where the queue is empty: the macro leaves its variable alone.
  unfoldable pub deq : A → Queue A → A → Bool × (A × Queue A)
  deq junk s e = elim (next_rd s.q) [
    | none ↦ (false, (e, s))
    | some r ↦ (true, (get_or s.elem r.0 junk, queue r.1 s.elem))
  ]
