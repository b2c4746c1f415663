-- ===== src/FastHt/Bucket.antt =====
-- src/hashtable/fast-ht.c: a bucket, which is a list of bags in the order of `SL_FOREACH`.
-- `none` is the end of the process by a failed `assert`. A bag that a C pointer refers to is given by
-- its position in the list.
pub mod Cells
pub mod Scan
pub mod Effect
pub mod Map
use portable_lib.Prelude.{
  ℕ, zero, suc, ◌+◌, Option, none, some, List, [], ◌∷◌, ◌==◌, if◌then◌else◌, get_or, set, add32,
  sub32,
}
use portable_lib.FastHt.Bag.{
  Bag, new_bag, find_key, find_key_or_add, Lookup, hit, miss, find_empty_slot, occupy, clear_fp,
}

-- `hb`; the list `head` is `SL_FOREACH`'s order.
pub record Bucket : Type 0 where
  pub head : List Bag
  pub nodes : ℕ
  pub bags : ℕ

-- The loop of `__insert`: `inl` is the value found; `inr` is `bg`, by its position, and `slot`.
pub data Place : Type 0 where
  present : ℕ → Place
  room : Option (ℕ × ℕ) → Place

unfoldable pub first_room : Option (ℕ × ℕ) → ℕ → Option ℕ → Option (ℕ × ℕ)
first_room (some bg) i slot = some bg
first_room none i none = none
first_room none i (some slot) = some (i, slot)

unfoldable pub insert_scan : List Bag → ℕ → ℕ → Option (ℕ × ℕ) → Place
unfolding first_room
insert_scan [] i k bg = room bg
insert_scan (g ∷ gs) i k bg = elim (find_key_or_add g k) [
  | hit val ↦ present val
  | miss slot ↦ insert_scan gs (i + 1) k (first_room bg i slot)
]

unfoldable pub bag_at : List Bag → ℕ → Bag
bag_at [] i = new_bag
bag_at (g ∷ gs) zero = g
bag_at (g ∷ gs) (suc i) = bag_at gs i

-- `__insert`: the bucket, and the value returned.
unfoldable pub insert : Bucket → ℕ → ℕ → Bucket × ℕ
unfolding bag_at
insert b k v = elim (insert_scan b.head 0 k none) [
  | present val ↦ (b, val)
  | room (some (i, slot)) ↦ (
    record b { head = set b.head i (occupy (bag_at b.head i) slot k v); nodes = add32 b.nodes 1 },
    0,
  )
  | room none ↦ (
    record { head = occupy new_bag 0 k v ∷ b.head; nodes = add32 b.nodes 1; bags = add32 b.bags 1 },
    0,
  )
]

-- `__insert_quick`; its `assert(!g->hk[j])` ends the process.
new_first : Bucket → ℕ → ℕ → Bucket
new_first b k v = record {
  head = occupy new_bag 0 k v ∷ b.head;
  nodes = add32 b.nodes 1;
  bags = add32 b.bags 1;
}

quick_slot : Bucket → Bag → List Bag → ℕ → ℕ → Option ℕ → Option Bucket
unfolding new_first
quick_slot b g gs k v none = some (new_first b k v)
quick_slot b g gs k v (some j) =
    if get_or g.hk j 0 == 0
    then some (record b { head = occupy g j k v ∷ gs; nodes = add32 b.nodes 1 })
    else none

quick_list : Bucket → List Bag → ℕ → ℕ → Option Bucket
unfolding quick_slot new_first
quick_list b [] k v = some (new_first b k v)
quick_list b (g ∷ gs) k v = quick_slot b g gs k v (find_empty_slot g)

unfoldable pub insert_quick : Bucket → ℕ → ℕ → Option Bucket
unfolding quick_list
insert_quick b k v = quick_list b b.head k v

-- `__findx`: the position of the bag, the slot and the value.
unfoldable pub findx : List Bag → ℕ → ℕ → Option (ℕ × ℕ × ℕ)
findx [] i k = none
findx (g ∷ gs) i k = elim (find_key g k) [
  | some (j, val) ↦ some (i, j, val)
  | none ↦ findx gs (i + 1) k
]

-- The write of `ht_replace`.
unfoldable pub assign : Bucket → ℕ → ℕ → ℕ → Bucket
unfolding bag_at
assign b i slot v =
    let g = bag_at b.head i in record b { head = set b.head i (record g { hv = set g.hv slot v }) }

-- The writes of `ht_remove`.
unfoldable pub vacate : Bucket → ℕ → ℕ → Bucket
unfolding bag_at
vacate b i slot =
    let g = bag_at b.head i in
    let emptied : Bag = record {
      fp = clear_fp g.fp slot;
      hk = set g.hk slot 0;
      hv = set g.hv slot 0;
    } in
    record b { head = set b.head i emptied; nodes = sub32 b.nodes 1 }
