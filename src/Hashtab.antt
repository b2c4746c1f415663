-- ===== src/Hashtab.antt =====
-- src/hashtable/hashtab.c: a hash table of chained buckets that doubles when too many of its buckets
-- are filled. The client's functions are a parameter. The locks have no state here: every call below
-- runs to its end before the next one; `leaves_locked` tells which calls return with a lock held.
-- Counters are those of nodes and buckets in memory
-- and of calls, far below their types' limits.
pub mod Chains
pub mod Move
pub mod Valid
pub mod Adding
pub mod Resize
pub mod Replacing
pub mod Remove
pub mod Removing
pub mod Sweeping
pub mod Dictionary
pub mod Iterate
pub mod Visiting
mod Tests
use portable_lib.Prelude.{
  ℕ, ◌+◌, ◌-◌, ◌*◌, ◌/◌, ◌%◌, ◌^◌, Bool, true, false, ◌&&◌, ◌||◌, not, Option, none, some, List, [],
  ◌∷◌, ◌++◌, if◌then◌else◌, ◌==◌, ltb, leb, bit_and, bit_xor, get_or, set, replicate, u64_mod,
  length,
}

-- What the table uses of `hash_table_policy`: the hash, whether `cmp` returns 0, and whether there
-- is a `dtor`.
pub record Policy {ℓ} (A : Type ℓ) : Type ℓ where
  pub hash : A → ℕ
  pub cmp : A → A → Bool
  pub dtor : Bool

pub record Node {ℓ} (A : Type ℓ) : Type ℓ where
  pub hash : ℕ
  pub item : A

abbrev pub node {ℓ} : {A : Type ℓ} → ℕ → A → Node A
node h d = record { hash = h; item = d }

pub record Bucket {ℓ} (A : Type ℓ) : Type ℓ where
  pub head : List (Node A)
  pub count : ℕ

abbrev pub bucket {ℓ} : {A : Type ℓ} → List (Node A) → ℕ → Bucket A
bucket ps n = record { head = ps; count = n }

abbrev pub no_bucket {ℓ} : {A : Type ℓ} → Bucket A
no_bucket = bucket [] 0

pub record Stats : Type 0 where
  pub size : ℕ
  pub nodes : ℕ
  pub fill : ℕ
  pub maxchainlen : ℕ
  pub splits : ℕ
  pub inserts : ℕ
  pub lookups : ℕ
  pub failed_lookups : ℕ
  pub replaces : ℕ
  pub deletes : ℕ

-- `gone` is the trace of the calls of `dtor`, the last one first.
pub record Table {ℓ} (A : Type ℓ) : Type ℓ where
  pub buckets : List (Bucket A)
  pub size : ℕ
  pub fillmax : ℕ
  pub random : ℕ
  pub stats : Stats
  pub gone : List A

-- What the allocator answers: a node, and an array of so many buckets.
pub record Memory : Type 0 where
  pub node_given : Bool
  pub array_given : ℕ → Bool

-- The values that are returned: 0, -EEXIST, -ENOMEM, -ENOENT and -EINVAL.
pub data Outcome : Type 0 where
  ok : Outcome
  eexist : Outcome
  enomem : Outcome
  enoent : Outcome
  einval : Outcome

-- TAB_NODUP, TAB_REPLACE and TAB_PROBE
pub data Op : Type 0 where
  nodup : Op
  replacing : Op
  probing : Op

-- `hash & (size - 1)`
unfoldable pub slot : ℕ → ℕ → ℕ
slot h size = bit_and h (size - 1)

-- `--n` on a `size_t`
abbrev pub decrement : ℕ → ℕ
decrement n = if n == 0 then u64_mod - 1 else n - 1

-- The buckets under construction in `resize`, and its locals.
pub record Split {ℓ} (A : Type ℓ) : Type ℓ where
  pub buckets : List (Bucket A)
  pub fill : ℕ
  pub maxchainlen : ℕ

abbrev pub count_insert : Stats → ℕ → Stats
count_insert st n = record st {
  inserts = st.inserts + 1;
  nodes = st.nodes + 1;
  maxchainlen = if ltb st.maxchainlen n then n else st.maxchainlen;
  fill = if n == 1 then st.fill + 1 else st.fill;
}

module _ {ℓ} {A : Type ℓ} where
  abbrev pub on_ok : Outcome → A → Option A
  on_ok ok d = some d
  on_ok _ d = none

  abbrev pub count_lookup : Stats → Option A → Stats
  count_lookup st (some d) = record st { lookups = st.lookups + 1 }
  count_lookup st none = record st { failed_lookups = st.failed_lookups + 1 }

  abbrev pub bucket_at : List (Bucket A) → ℕ → Bucket A
  bucket_at bs i = get_or bs i no_bucket

  -- The body of the loop over a chain in `resize`.
  unfoldable pub move_node : ℕ → Split A → Node A → Split A
  move_node newsize s p =
      let j = slot p.hash newsize in
      let n = (bucket_at s.buckets j).count + 1 in
      record {
        buckets = set s.buckets j (bucket (p ∷ (bucket_at s.buckets j).head) n);
        fill = if n == 1 then s.fill + 1 else s.fill;
        maxchainlen = if ltb s.maxchainlen n then n else s.maxchainlen;
      }

  unfoldable pub move_chain : ℕ → Split A → List (Node A) → Split A
  move_chain newsize s [] = s
  move_chain newsize s (p ∷ rest) = move_chain newsize (move_node newsize s p) rest

  unfoldable pub move_buckets : ℕ → Split A → List (Bucket A) → Split A
  move_buckets newsize s [] = s
  move_buckets newsize s (b ∷ rest) = move_buckets newsize (move_chain newsize s b.head) rest

  abbrev pub new_split : ℕ → Split A
  new_split newsize = record { buckets = replicate newsize no_bucket; fill = 0; maxchainlen = 0 }

  abbrev pub count_split : Stats → Split A → Stats
  count_split st s = record st {
    splits = st.splits + 1;
    maxchainlen = s.maxchainlen;
    fill = s.fill;
  }

  unfoldable pub resize : Memory → Table A → Table A × Outcome
  resize mem tab =
      let newsize = tab.size * 2 % u64_mod in
      let s = move_buckets newsize (new_split newsize) tab.buckets in
      if mem.array_given newsize
      then (record tab { buckets = s.buckets; size = newsize; stats = count_split tab.stats s }, ok)
      else (tab, enomem)

  -- `insert_internal` from `SL_INSERT_HEAD` on: the node is there, then the statistics, then the table
  -- may grow.
  unfoldable pub push_node : Table A → Node A → Table A
  push_node tab e =
      let i = slot e.hash tab.size in
      let n = (bucket_at tab.buckets i).count + 1 in
      record tab {
        buckets = set tab.buckets i (bucket (e ∷ (bucket_at tab.buckets i).head) n);
        stats = count_insert tab.stats n;
      }

  unfoldable pub is_full : Table A → Bool
  is_full tab = ltb tab.fillmax (tab.stats.fill * 100 / (tab.size + 1))

  unfoldable pub add_node : Memory → Table A → Node A → Table A × Outcome
  add_node mem tab e =
      let tab' = push_node tab e in
      if ((bucket_at tab.buckets (slot e.hash tab.size)).count + 1 == 1) && is_full tab'
      then resize mem tab'
      else (tab', ok)

module _ {ℓ} {A : Type ℓ} (tr : Policy A) where
  unfoldable pub hashfunc : ℕ → A → ℕ
  hashfunc random key = bit_xor random (tr.hash key)

  -- The two tests in each loop over a chain.
  unfoldable pub matches : ℕ → A → Node A → Bool
  matches random key p = (p.hash == hashfunc random key) && tr.cmp key p.item

  unfoldable pub find_node : ℕ → A → List (Node A) → Option A
  find_node random key [] = none
  find_node random key (p ∷ rest) =
      let later = find_node random key rest in if matches random key p then some p.item else later

  -- `e->data = data` for the node that the loop stops at.
  unfoldable pub put_data : ℕ → A → List (Node A) → List (Node A)
  put_data random d [] = []
  put_data random d (p ∷ rest) =
      let later = put_data random d rest in
      if matches random d p then node p.hash d ∷ rest else p ∷ later

  abbrev pub destroy : A → List A → List A
  destroy d gone = if tr.dtor then d ∷ gone else gone

  -- A collision with a node that holds `e`, in the bucket `i`.
  unfoldable pub collide : Table A → ℕ → A → A → Op → Table A × Outcome × A
  collide tab i d e nodup = (tab, eexist, e)
  collide tab i d e replacing =
      let b = bucket_at tab.buckets i in
      (
        record tab {
          buckets = set tab.buckets i (bucket (put_data tab.random d b.head) b.count);
          stats = record tab.stats { replaces = tab.stats.replaces + 1 };
          gone = destroy e tab.gone;
        },
        ok,
        e,
      )
  collide tab i d e probing = (tab, ok, e)

  -- The table, the value that is returned, and `*p_data`.
  unfoldable pub insert_internal : Memory → Table A → A → Op → Table A × Outcome × A
  insert_internal mem tab d op =
      let h = hashfunc tab.random d in
      let added = add_node mem tab (node h d) in
      elim (find_node tab.random d (bucket_at tab.buckets (slot h tab.size)).head) [
        | some e ↦ collide tab (slot h tab.size) d e op
        | none ↦ if mem.node_given then (added.0, added.1, d) else (tab, enomem, d)
      ]

  -- Whether `insert_internal` jumps to `_done` past the unlocking of the bucket.
  unfoldable pub leaves_locked : Memory → Table A → A → Bool
  leaves_locked mem tab d =
      let h = hashfunc tab.random d in
      elim (find_node tab.random d (bucket_at tab.buckets (slot h tab.size)).head) [
        | some e ↦ true
        | none ↦ not mem.node_given
      ]

  -- The calls, where a null pointer is a missing argument.
  unfoldable pub hash_table_insert : Memory → Table A → Option A → Table A × Outcome
  hash_table_insert mem tab none = (tab, einval)
  hash_table_insert mem tab (some d) = let r = insert_internal mem tab d nodup in (r.0, r.1)

  unfoldable pub hash_table_replace : Memory → Table A → Option A → Table A × Outcome
  hash_table_replace mem tab none = (tab, einval)
  hash_table_replace mem tab (some d) = let r = insert_internal mem tab d replacing in (r.0, r.1)

  unfoldable pub hash_table_probe : Memory → Table A → Option A → Table A × Option A
  hash_table_probe mem tab none = (tab, none)
  hash_table_probe mem tab (some d) =
      let r = insert_internal mem tab d probing in (r.0, on_ok r.1 r.2)

  -- What is found is stored in `*p_ret`, and 1 is returned where there is something. The key is given.
  unfoldable pub hash_table_lookup : Table A → A → Table A × Option A
  hash_table_lookup tab key =
      let i = slot (hashfunc tab.random key) tab.size in
      let found = find_node tab.random key (bucket_at tab.buckets i).head in
      (record tab { stats = count_lookup tab.stats found }, found)
