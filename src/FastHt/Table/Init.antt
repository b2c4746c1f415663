-- ===== src/FastHt/Table/Init.antt =====
-- `ht_init`, and the rounding of its size hint.
use portable_lib.Prelude.{
  ℕ, ◌+◌, ◌-◌, ◌/◌, ◌^◌, ◌≤◌, ◌<◌, none, some, [], ◌≡◌, refl, ◌∙◌, arith, ◌==◌, length-replicate,
  replicate, get_or, get_or-replicate, le→leb, if◌then◌else◌, bit_or, bit_and, bit_or-lt, sub64,
}
use portable_lib.FastHt.Bucket.{findx}
use portable_lib.FastHt.Table.{
  Table, fillpct, next_pow2, init, new_buckets, empty_bucket, max_buckets, bucket_of, hash, find,
  ◌>>=◌,
}
use portable_lib.FastHt.Table.Buckets.{IsBucket, Each, bucket_get, IsValid, find-bucket}

-- A size hint of at most 2 ^ 31 rounds to a size from 1 to 2 ^ 31.
next_pow2_bounds : (v : ℕ) → 0 < v → v ≤ 2 ^ 31 → (0 < next_pow2 v) × (next_pow2 v ≤ 2 ^ 31)
unfolding next_pow2
next_pow2_bounds v pos small = omega (arith, n6)
  where
    smear : ℕ → ℕ → ℕ
    smear n k = bit_or n (n / k)

    smear-lt : (n k : ℕ) → n < 2 ^ 31 → n / k < 2 ^ 31 → smear n k < 2 ^ 31
    smear-lt n k h h' = bit_or-lt 31 n (n / k) h h'

    n0 : sub64 v 1 < 2 ^ 31
    n0 = omega arith

    n1 : smear (sub64 v 1) 2 < 2 ^ 31
    n1 = smear-lt _ 2 n0 (omega (arith, n0))

    n2 : smear (smear (sub64 v 1) 2) (2 ^ 2) < 2 ^ 31
    n2 = smear-lt _ (2 ^ 2) n1 (omega (arith, n1))

    n3 : smear (smear (smear (sub64 v 1) 2) (2 ^ 2)) (2 ^ 4) < 2 ^ 31
    n3 = smear-lt _ (2 ^ 4) n2 (omega (arith, n2))

    n4 : smear (smear (smear (smear (sub64 v 1) 2) (2 ^ 2)) (2 ^ 4)) (2 ^ 8) < 2 ^ 31
    n4 = smear-lt _ (2 ^ 8) n3 (omega (arith, n3))

    n5 :
        smear (smear (smear (smear (smear (sub64 v 1) 2) (2 ^ 2)) (2 ^ 4)) (2 ^ 8)) (2 ^ 16)
        < 2 ^ 31
    n5 = smear-lt _ (2 ^ 16) n4 (omega (arith, n4))

    n6 :
        smear
          (smear (smear (smear (smear (smear (sub64 v 1) 2) (2 ^ 2)) (2 ^ 4)) (2 ^ 8)) (2 ^ 16))
          (2 ^ 32)
        < 2 ^ 31
    n6 = smear-lt _ (2 ^ 32) n5 (omega (arith, n5))

empty-buckets : (n salt i m : ℕ) → Each (IsBucket n salt) i (replicate m empty_bucket)
empty-buckets n salt i ℕ.zero = tt
empty-buckets n salt i (ℕ.suc m) =
    (record { cells = []; head = refl; keys = tt }, empty-buckets n salt (i + 1) m)

pub record Initialized (maxfill : ℕ) (h : Table) : Type 0 where
  pub valid : IsValid h
  pub load : h.maxfill ≡ (if maxfill == 0 then 85 else maxfill)
  pub empty : (q : ℕ) → find h q ≡ none

abbrev size_of : ℕ → ℕ
size_of size =
    if size == 0 then 128 else if bit_and size (size - 1) == 0 then size else next_pow2 size

size_of_bounds : (size : ℕ) → size ≤ 2 ^ 31 → (0 < size_of size) × (size_of size ≤ 2 ^ 31)
size_of_bounds size small = ground (arith, next_pow2_bounds size)

-- ht_init gives a valid empty table for a size hint of at most 2^31.
pub init-Initialized :
    (size maxfill salt : ℕ)
    → size ≤ 2 ^ 31
    → (h : Table) × (init size maxfill salt ≡ some h) × Initialized maxfill h
unfolding init new_buckets bucket_of
init-Initialized size maxfill salt small =
    let n = size_of size in
    let (pos, top) = size_of_bounds size small in
    let h : Table = record {
      b = replicate n empty_bucket;
      n = n;
      salt = salt;
      fill = 0;
      maxfill = if maxfill == 0 then fillpct else maxfill;
      nodes = 0;
      splits = 0;
      bagmax = 0;
      maxn = 0;
    } in
    (
      h,
      rw (le→leb n max_buckets (omega (arith, top)), ◌>>=◌),
      record {
        valid = record {
          buckets = empty-buckets n salt 0 n;
          size = length-replicate n empty_bucket;
          pos = pos;
          small = omega (arith, top);
        };
        load = refl;
        empty = λ q. find-bucket h q ∙ nothing n (hash q n salt) q;
      },
    )
  where
    nothing : (n j q : ℕ) → bucket_get (get_or (replicate n empty_bucket) j empty_bucket) q ≡ none
    nothing n j q = rw (get_or-replicate n j empty_bucket) (unfold findx in refl)
