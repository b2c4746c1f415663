-- ===== src/Hashtab/Remove.antt =====
-- The calls of src/hashtable/hashtab.c that take nodes out of a table, and those on a whole table.
use portable_lib.Prelude.{
  ℕ, ◌+◌, ◌^◌, Bool, true, false, ◌||◌, ◌&&◌, not, Option, none, some, List, [], ◌∷◌, if◌then◌else◌,
  ◌==◌, leb, set, replicate, length,
}
use portable_lib.Hashtab.{
  Policy, Node, Bucket, bucket, bucket_at, no_bucket, Stats, Table, Outcome, ok, enoent, einval,
  enomem, decrement, slot, hashfunc, matches, destroy,
}

-- What `remove_node` changes besides the list: the bucket's count, the statistics, the items given
-- to `dtor`; and whether its assertions held.
pub record Removal {ℓ} (A : Type ℓ) : Type ℓ where
  pub count : ℕ
  pub stats : Stats
  pub gone : List A
  pub held : Bool

-- A chain that a loop has gone through: what is left of it, what is not, and the rest.
pub record Sieved {ℓ} (A : Type ℓ) : Type ℓ where
  pub kept : List (Node A)
  pub removed : List A
  pub after : Removal A

-- The buckets that the loop of `hash_table_remove_if` has gone through, and `retval`.
pub record Swept {ℓ} (A : Type ℓ) : Type ℓ where
  pub buckets : List (Bucket A)
  pub retval : ℕ
  pub stats : Stats
  pub gone : List A
  pub held : Bool

-- `&p->data`, the address of the field of a node in which the pointer to its item is stored.
pub record Field {ℓ} (A : Type ℓ) : Type ℓ where
  pub data_at : A

pub data Created {ℓ} (A : Type ℓ) : Type ℓ where
  failed : Outcome → Created A
  created : Table A → Created A
  -- A shift of the `int` 1 by 31 or more has no defined value.
  undefined : Created A

abbrev pub removal_from {ℓ} : {A : Type ℓ} → Bucket A → Stats → List A → Removal A
removal_from b st gone = record { count = b.count; stats = st; gone = gone; held = true }

abbrev pub is_linked {ℓ} : {A : Type ℓ} → List A → Bool
is_linked [] = false
is_linked (x ∷ xs) = true

abbrev pub last_of {ℓ} : {A : Type ℓ} → List A → Option A
last_of [] = none
last_of (d ∷ []) = some d
last_of (d ∷ e ∷ ds) = last_of (e ∷ ds)

module _ {ℓ} {A : Type ℓ} (tr : Policy A) where
  -- `linked` tells whether the bucket's list, from which the node is unlinked, has a first node.
  unfoldable pub remove_node : Removal A → A → (linked : Bool) → Removal A
  remove_node s d linked =
      let count = decrement s.count in
      record {
        count = count;
        stats = record s.stats {
          deletes = s.stats.deletes + 1;
          nodes = decrement s.stats.nodes;
          fill = if count == 0 then decrement s.stats.fill else s.stats.fill;
        };
        gone = destroy tr d s.gone;
        held = s.held && (if count == 0 then not linked else linked);
      }

  -- The loop with `p_next`, where `doomed` is its test and `front` tells whether a node stays in front.
  unfoldable pub remove_nodes : (Node A → Bool) → Bool → Removal A → List (Node A) → Sieved A
  remove_nodes doomed front s [] = record { kept = []; removed = []; after = s }
  remove_nodes doomed front s (p ∷ ps) =
      let r =
        remove_nodes doomed (front || not (doomed p))
          (if doomed p then remove_node s p.item (front || is_linked ps) else s) ps in
      record {
        kept = if doomed p then r.kept else p ∷ r.kept;
        removed = if doomed p then p.item ∷ r.removed else r.removed;
        after = r.after;
      }

  -- The table, the value that is returned, and what is stored in `*p_val`.
  -- Nothing, if an assertion failed.
  unfoldable pub hash_table_remove : Table A → Option A → Option (Table A × Outcome × Option A)
  hash_table_remove tab none = some (tab, einval, none)
  hash_table_remove tab (some key) =
      let i = slot (hashfunc tr tab.random key) tab.size in
      let b = bucket_at tab.buckets i in
      let r =
        remove_nodes (matches tr tab.random key) false (removal_from b tab.stats tab.gone) b.head in
      let done : Table A × Outcome × Option A = (
        record tab {
          buckets = set tab.buckets i (bucket r.kept r.after.count);
          stats = r.after.stats;
          gone = r.after.gone;
        },
        if length r.removed == 0 then enoent else ok,
        last_of r.removed,
      ) in
      if r.after.held then some done else none

  unfoldable pub sweep : (Field A → Bool) → ℕ → Stats → List A → List (Bucket A) → Swept A
  sweep pred n st gone [] = record {
    buckets = [];
    retval = n;
    stats = st;
    gone = gone;
    held = true;
  }
  sweep pred n st gone (b ∷ bs) =
      let r =
        remove_nodes (λ p. pred (record { data_at = p.item })) false (removal_from b st gone)
          b.head in
      let rest = sweep pred (n + length r.removed) r.after.stats r.after.gone bs in
      record rest {
        buckets = bucket r.kept r.after.count ∷ rest.buckets;
        held = r.after.held && rest.held;
      }

  unfoldable pub hash_table_remove_if : Table A → (Field A → Bool) → Option (Table A × ℕ)
  hash_table_remove_if tab pred =
      let r = sweep pred 0 tab.stats tab.gone tab.buckets in
      if r.held
      then some (record tab { buckets = r.buckets; stats = r.stats; gone = r.gone }, r.retval)
      else none

  -- The items that `hash_table_delete` hands to `dtor` after those in `gone`.
  delete_chain : List A → List (Node A) → List A
  delete_chain gone [] = gone
  delete_chain gone (p ∷ ps) = delete_chain (destroy tr p.item gone) ps

  delete_buckets : List A → List (Bucket A) → List A
  unfolding delete_chain
  delete_buckets gone [] = gone
  delete_buckets gone (b ∷ bs) = delete_buckets (delete_chain gone b.head) bs

  unfoldable pub hash_table_delete : Table A → List A
  unfolding delete_buckets
  hash_table_delete tab = delete_buckets tab.gone tab.buckets

abbrev pub no_stats : Stats
no_stats = record {
  size = 0;
  nodes = 0;
  fill = 0;
  maxchainlen = 0;
  splits = 0;
  inserts = 0;
  lookups = 0;
  failed_lookups = 0;
  replaces = 0;
  deletes = 0;
}

-- `hash_table_new`, given all pointers: what the allocator answers for the table and for its buckets,
-- the policy's `logsize` and `fillmax`, and the random number.
unfoldable pub hash_table_new {ℓ} : {A : Type ℓ} → Bool → (ℕ → Bool) → ℕ → ℕ → ℕ → Created A
hash_table_new {A = A} tab_given array_given logsize fillmax random =
    let i = if (logsize == 0) || leb 64 logsize then 10 else logsize in
    let max = if (fillmax == 0) || leb 100 fillmax then 80 else fillmax in
    let tab : Table A = record {
      buckets = replicate (2 ^ i) no_bucket;
      size = 2 ^ i;
      fillmax = max;
      random = random;
      stats = no_stats;
      gone = [];
    } in
    let sized =
      if leb 31 i then undefined else if array_given (2 ^ i) then created tab else failed enomem in
    if tab_given then sized else failed enomem

-- `hash_table_apply`, with a function that takes its cookie to the next one.
apply_chain {ℓ κ} : {A : Type ℓ} {C : Type κ} → (C → A → C) → C → List (Node A) → C
apply_chain apply cookie [] = cookie
apply_chain apply cookie (p ∷ ps) = apply_chain apply (apply cookie p.item) ps

apply_buckets {ℓ κ} : {A : Type ℓ} {C : Type κ} → (C → A → C) → C → List (Bucket A) → C
unfolding apply_chain
apply_buckets apply cookie [] = cookie
apply_buckets apply cookie (b ∷ bs) = apply_buckets apply (apply_chain apply cookie b.head) bs

unfoldable pub hash_table_apply {ℓ κ} : {A : Type ℓ} {C : Type κ} → Table A → (C → A → C) → C → C
unfolding apply_buckets
hash_table_apply tab apply cookie = apply_buckets apply cookie tab.buckets

-- `hash_table_stats`: the copy of the statistics, with the size.
unfoldable pub hash_table_stats {ℓ} : {A : Type ℓ} → Table A → Stats
hash_table_stats tab = record tab.stats { size = tab.size }
