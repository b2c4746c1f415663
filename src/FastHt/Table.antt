-- ===== src/FastHt/Table.antt =====
-- src/hashtable/fast-ht.c and inc/utils/fast-ht.h: the table and its public operations.
-- A `void *` is a number, 0 being NULL. `getentropy` and `posix_memalign` are the environment's: the
-- salt that `rand64` draws is an argument, and a request past `max_buckets` buckets aborts.
pub mod Buckets
pub mod Move
pub mod Resize
pub mod Laws
pub mod Probe
pub mod Init
pub mod Trace
pub mod Capacity
use portable_lib.Prelude.{
  ◌>>=◌, ℕ, zero, suc, ◌+◌, ◌-◌, ◌*◌, ◌/◌, ◌%◌, ◌^◌, bit_and, bit_or, bit_xor, Option, none, some,
  List, [], ◌∷◌, ltb, leb, ◌==◌, if◌then◌else◌, get_or, set, replicate, u32_mod, u64_mod, add32,
  add64, sub64, mul64,
}
use portable_lib.FastHt.Bag.{Bag, bagsz, control}
use portable_lib.FastHt.Bucket.{Bucket, insert, insert_quick, findx, assign, vacate}

-- `ht`, less its padding
pub record Table : Type 0 where
  pub b : List Bucket
  pub n : ℕ
  pub salt : ℕ
  pub fill : ℕ
  pub maxfill : ℕ
  pub nodes : ℕ
  pub splits : ℕ
  pub bagmax : ℕ
  pub maxn : ℕ

abbrev pub fillpct : ℕ
fillpct = 85

-- The most buckets that an allocation grants: 2 ^ 62 bytes of them.
abbrev pub max_buckets : ℕ
max_buckets = 2 ^ 58

-- `_hashmix`
unfoldable pub mix : ℕ → ℕ
mix h =
    let h1 = bit_xor h (h / 2 ^ 23) in
    let h2 = mul64 h1 0x2127599bf4325c37 in bit_xor h2 (h2 / 2 ^ 47)

-- `__hash`
unfoldable pub hash : ℕ → ℕ → ℕ → ℕ
hash hv n salt =
    let h1 = bit_xor hv (bit_xor (mix hv) salt) in
    let h2 = mul64 h1 0x880355f21e6d1965 in bit_and (sub64 n 1) h2

abbrev pub empty_bucket : Bucket
empty_bucket = record { head = []; nodes = 0; bags = 0 }

-- `__NEWZA(hb, n)`
unfoldable pub new_buckets : ℕ → Option (List Bucket)
new_buckets n = if leb n max_buckets then some (replicate n empty_bucket) else none

-- The locals of `resize`.
pub record Fresh : Type 0 where
  pub b : List Bucket
  pub maxbags : ℕ
  pub maxn : ℕ
  pub fill : ℕ

unfoldable pub put_bucket : Fresh → ℕ → Bucket → Fresh
put_bucket f j x = record {
  b = set f.b j x;
  maxbags = if ltb f.maxbags x.bags then x.bags else f.maxbags;
  maxn = if ltb f.maxn x.nodes then x.nodes else f.maxn;
  fill = if x.nodes == 1 then add64 f.fill 1 else f.fill;
}

module _ (n salt : ℕ) where
  unfoldable pub move_entry : Fresh → ℕ → ℕ → Option Fresh
  unfolding put_bucket
  move_entry f p v = do
    let j = hash p n salt
    x ← insert_quick (get_or f.b j empty_bucket) p v
    some (put_bucket f j x)

  -- One round of `for (int i = 0; i < FASTHT_BAGSZ; i++)`.
  unfoldable pub move_slot : Bag → ℕ → Fresh → Option Fresh
  move_slot g i f =
      let p = get_or g.hk i 0 in
      if bit_and (control g.fp) (2 ^ i) == 0
      then if p == 0 then some f else move_entry f p (get_or g.hv i 0)
      else some f

  unfoldable pub move_slots : ℕ → ℕ → Bag → Fresh → Option Fresh
  move_slots zero i g f = some f
  move_slots (suc rounds) i g f = move_slot g i f >>= move_slots rounds (i + 1) g

  unfoldable pub move_bags : List Bag → Fresh → Option Fresh
  move_bags [] f = some f
  move_bags (g ∷ gs) f = move_slots bagsz 0 g f >>= move_bags gs

  unfoldable pub move_buckets : List Bucket → Fresh → Option Fresh
  move_buckets [] f = some f
  move_buckets (o ∷ os) f = move_bags o.head f >>= move_buckets os

unfoldable pub resize : Table → ℕ → Option Table
resize h salt = do
  let n = mul64 h.n 2
  b ← new_buckets n
  f ← move_buckets n salt h.b (record { b = b; maxbags = 0; maxn = 0; fill = 0 })
  some (record h {
    salt = salt;
    n = n;
    b = f.b;
    bagmax = f.maxbags % u32_mod;
    maxn = f.maxn % u32_mod;
    fill = f.fill;
  })

-- `NEXTPOW2`, on a `uint32_t`
unfoldable pub next_pow2 : ℕ → ℕ
next_pow2 v =
    let n0 = sub64 v 1 in
    let n1 = bit_or n0 (n0 / 2) in
    let n2 = bit_or n1 (n1 / 2 ^ 2) in
    let n3 = bit_or n2 (n2 / 2 ^ 4) in
    let n4 = bit_or n3 (n3 / 2 ^ 8) in
    let n5 = bit_or n4 (n4 / 2 ^ 16) in let n6 = bit_or n5 (n5 / 2 ^ 32) in (n6 + 1) % u32_mod

unfoldable pub init : ℕ → ℕ → ℕ → Option Table
init size maxfill salt = do
  let size' =
      if size == 0 then 128 else if bit_and size (size - 1) == 0 then size else next_pow2 size
  b ← new_buckets size'
  some (record {
    b = b;
    n = size';
    salt = salt;
    fill = 0;
    maxfill = if maxfill == 0 then fillpct else maxfill;
    nodes = 0;
    splits = 0;
    bagmax = 0;
    maxn = 0;
  })

unfoldable pub bucket_of : Table → ℕ → Bucket
bucket_of h k = get_or h.b (hash k h.n h.salt) empty_bucket

-- The last two updates of `ht_probe`.
unfoldable pub record_max : Table → ℕ → Table
record_max h k =
    let b = bucket_of h k in
    record h {
      bagmax = if ltb h.bagmax b.bags then b.bags else h.bagmax;
      maxn = if ltb h.maxn b.nodes then b.nodes else h.maxn;
    }

-- "time to split?"
unfoldable pub split_if : Table → ℕ → Option Table
split_if h salt =
    let filled = record h { fill = add64 h.fill 1 } in
    let t : Table = filled in
    if ltb t.maxfill (mul64 t.fill 100 / t.n)
    then resize (record t { splits = add32 t.splits 1 }) salt
    else some t

-- `ht_probe`: the value that was there, or 0; `salt` is what `rand64` would draw.
unfoldable pub probe : Table → ℕ → ℕ → ℕ → Option (ℕ × Table)
probe h k v salt =
    let (x, nv) = insert (bucket_of h k) k v in
    let h1 = record h { b = set h.b (hash k h.n h.salt) x } in
    let h2 : Table = record h1 { nodes = add64 h.nodes 1 } in
    let grown = if x.nodes == 1 then split_if h2 salt else some h2 in
    if nv == 0 then grown >>= (λ h3. some (0, record_max h3 k)) else some (nv, h1)

-- `ht_find`: the value, if the key is found.
unfoldable pub find : Table → ℕ → Option ℕ
find h k = elim (findx (bucket_of h k).head 0 k) [ some (i, slot, val) ↦ some val | none ↦ none ]

unfoldable pub replace : Table → ℕ → ℕ → Table × ℕ
replace h k v = elim (findx (bucket_of h k).head 0 k) [
  | some (i, slot, val) ↦
      (record h { b = set h.b (hash k h.n h.salt) (assign (bucket_of h k) i slot v) }, 1)
  | none ↦ (h, 0)
]

-- `ht_remove`: the table, and the value that was removed.
unfoldable pub remove : Table → ℕ → Table × Option ℕ
remove h k = elim (findx (bucket_of h k).head 0 k) [
  | some (i, slot, val) ↦ (
    record h {
      b = set h.b (hash k h.n h.salt) (vacate (bucket_of h k) i slot);
      nodes = sub64 h.nodes 1;
    },
    some val,
  )
  | none ↦ (h, none)
]
