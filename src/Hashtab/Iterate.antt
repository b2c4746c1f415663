-- ===== src/Hashtab/Iterate.antt =====
-- src/hashtable/hashtab_iter.c: the iterators over a table and over a bucket. A position is the chain
-- from the current node on, which is empty for a null pointer.
use portable_lib.Prelude.{ℕ, zero, suc, ◌+◌, Option, none, some, List, [], ◌∷◌, drop, ◌>>=◌}
use portable_lib.Hashtab.{Policy, Node, Bucket, bucket_at, Table, slot}

-- `cur`, and the number of the bucket behind `un.table.bucket`, which is -1 before the first.
pub record Iter {ℓ} (A : Type ℓ) : Type ℓ where
  pub cur : List (Node A)
  pub next_bucket : ℕ

-- `bucket_iter` with `cur`: the chain of its bucket.
pub record BucketIter {ℓ} (A : Type ℓ) : Type ℓ where
  pub head : List (Node A)
  pub cur : List (Node A)

module _ {ℓ} {A : Type ℓ} where
  abbrev pub iter : List (Node A) → ℕ → Iter A
  iter cur n = record { cur = cur; next_bucket = n }

  -- `SL_NEXT`, and the item of a node
  abbrev pub next_node : List (Node A) → List (Node A)
  next_node [] = []
  next_node (p ∷ ps) = ps

  abbrev pub item_of : List (Node A) → Option A
  item_of [] = none
  item_of (p ∷ ps) = some p.item

  -- The loop over the buckets from number `i` on.
  unfoldable pub find_next_node : Iter A → ℕ → List (Bucket A) → Iter A
  find_next_node it i [] = it
  find_next_node it i (b ∷ bs) =
      let later = find_next_node (iter [] it.next_bucket) (i + 1) bs in
      elim b.head [ [] ↦ later | p ∷ ps ↦ iter (p ∷ ps) (i + 1) ]

  unfoldable pub vanilla_iter_begin : Table A → Iter A
  vanilla_iter_begin tab = find_next_node (iter [] 0) 0 tab.buckets

  unfoldable pub vanilla_iter_next : Table A → Iter A → Iter A
  vanilla_iter_next tab it =
      let found =
        find_next_node (iter [] it.next_bucket) it.next_bucket (drop it.next_bucket tab.buckets) in
      elim (next_node it.cur) [ [] ↦ found | p ∷ ps ↦ iter (p ∷ ps) it.next_bucket ]

  -- Nothing at the end, where EOF is returned.
  unfoldable pub vanilla_iter_item : Iter A → Option A
  vanilla_iter_item it = item_of it.cur

  -- A client's loop: the items from the current one to the end, in a number of turns.
  unfoldable pub visit : ℕ → Table A → Iter A → Option (List A)
  visit zero tab it = none
  visit (suc turns) tab it =
      let rest = visit turns tab (vanilla_iter_next tab it) in
      elim (vanilla_iter_item it) [ none ↦ some [] | some d ↦ rest >>= λ ds. some (d ∷ ds) ]

  -- The bucket is the one of the bare hash, without the table's random number.
  unfoldable pub bucket_iter_init : Policy A → Table A → A → BucketIter A
  bucket_iter_init tr tab key =
      let head = (bucket_at tab.buckets (slot (tr.hash key) tab.size)).head in
      record { head = head; cur = head }

  unfoldable pub bucket_iter_begin : BucketIter A → BucketIter A
  bucket_iter_begin it = record it { cur = it.head }

  unfoldable pub bucket_iter_next : BucketIter A → BucketIter A
  bucket_iter_next it = record it { cur = next_node it.cur }

  unfoldable pub bucket_iter_item : BucketIter A → Option A
  bucket_iter_item it = item_of it.cur
