-- ===== src/Bloom.antt =====
-- src/hashtable/bloom.c and src/hashtable/bloom_internal.h: standard and counting Bloom filters. An
-- item is the 64-bit number that the caller hashed it to.
pub mod Scalable
pub mod Places
pub mod Loops
pub mod Standard
pub mod Counting
pub mod Bags
pub mod Growing
pub mod Scaling
pub mod Spanning
pub mod Equal
mod Tests
use portable_lib.Prelude.{
  ℕ, zero, suc, ◌+◌, ◌*◌, ◌/◌, ◌%◌, ◌^◌, ◌-◌, Bool, true, false, ◌||◌, Option, none, some, List,
  if◌then◌else◌, ◌==◌, ltb, bit_and, bit_or, bit_xor, u8_mod, add64, sub64, mul64, get_or, set,
  replicate,
}

-- Floating-point numbers, with what bloom.c uses of them and of the mathematics library.
pub record Floats : Type 1 where
  pub Double : Type 0
  pub log : Double → Double
  pub exp : Double → Double
  pub ceil : Double → Double
  pub neg : Double → Double
  pub sub : Double → Double → Double
  pub mul : Double → Double → Double
  pub div : Double → Double → Double
  pub gt : Double → Double → Bool
  pub fabs : Double → Double
  pub of_u64 : ℕ → Double
  pub to_u64 : Double → ℕ
  pub half : Double
  pub nine_tenths : Double
  pub epsilon : Double

-- `flags` and the padding are left out.
pub record Bloom (D : Type 0) : Type 0 where
  pub m : ℕ
  pub k : ℕ
  pub salt : ℕ
  pub bitmap : List ℕ
  pub size : ℕ
  pub bmsize : ℕ
  pub e : D

unfoldable pub mix : ℕ → ℕ
mix h =
    let h1 = bit_xor h (h / 2 ^ 23) in
    let h2 = mul64 h1 0x2127599bf4325c37 in bit_xor h2 (h2 / 2 ^ 47)

unfoldable pub hash_val : ℕ → ℕ → ℕ
hash_val v salt =
    let m : ℕ = 0x880355f21e6d1965 in
    let h0 = mul64 8 m in let h1 = mul64 (bit_xor h0 (mix v)) m in bit_xor (mix h1) salt

unfoldable pub testbit : List ℕ → ℕ → Bool
testbit bm i = ltb 0 (bit_and (get_or bm (i / 8) 0) (2 ^ (i % 8)))

unfoldable pub setbit : List ℕ → ℕ → List ℕ
setbit bm i = set bm (i / 8) (bit_or (get_or bm (i / 8) 0) (2 ^ (i % 8)) % u8_mod)

-- The counters of a counting filter are bytes.
unfoldable pub count_up : List ℕ → ℕ → List ℕ
count_up bm j = set bm j ((get_or bm j 0 + 1) % u8_mod)

unfoldable pub count_down : List ℕ → ℕ → List ℕ
count_down bm j = if get_or bm j 0 == 0 then bm else set bm j (get_or bm j 0 - 1)

-- The slot in partition `i` for the hash `z`: the two lines that open each loop's body.
unfoldable pub place : (m z i : ℕ) → ℕ
place m z i =
    let h1 = bit_and z 0xffffffff in
    let h2 = z / 2 ^ 32 in let k = add64 h1 (mul64 i h2) % m in add64 k (mul64 i m)

-- The loops over the partitions from `i` on, of which `left` are left: one that writes the slots and
-- one that stops at the first empty slot.
unfoldable pub for_slots : (List ℕ → ℕ → List ℕ) → (m z i left : ℕ) → List ℕ → List ℕ
for_slots write m z i zero bm = bm
for_slots write m z i (suc left) bm = for_slots write m z (i + 1) left (write bm (place m z i))

unfoldable pub all_slots : (List ℕ → ℕ → Bool) → (m z i left : ℕ) → List ℕ → Bool
all_slots test m z i zero bm = true
all_slots test m z i (suc left) bm =
    if test bm (place m z i) then all_slots test m z (i + 1) left bm else false

-- `r` of counting_bloom_remove: a counter was there to be taken down.
unfoldable pub any_counted : (m z i left r : ℕ) → List ℕ → ℕ
any_counted m z i zero r bm = r
any_counted m z i (suc left) r bm =
    let j = place m z i in
    any_counted m z (i + 1) left (if get_or bm j 0 == 0 then r else 1) (count_down bm j)

unfoldable pub counted : List ℕ → ℕ → Bool
counted bm j = ltb 0 (get_or bm j 0)

module _ {D : Type 0} where
  unfoldable pub standard_bloom_probe : Bloom D → ℕ → Bloom D
  standard_bloom_probe b val =
      let z = hash_val val b.salt in
      record b { bitmap = for_slots setbit b.m z 0 b.k b.bitmap; size = add64 b.size 1 }

  unfoldable pub standard_bloom_find : Bloom D → ℕ → Bool
  standard_bloom_find b val = let z = hash_val val b.salt in all_slots testbit b.m z 0 b.k b.bitmap

  unfoldable pub counting_bloom_probe : Bloom D → ℕ → Bloom D
  counting_bloom_probe b val =
      let z = hash_val val b.salt in
      record b { bitmap = for_slots count_up b.m z 0 b.k b.bitmap; size = add64 b.size 1 }

  unfoldable pub counting_bloom_remove : Bloom D → ℕ → Bloom D × ℕ
  counting_bloom_remove b val =
      let z = hash_val val b.salt in
      (
        record b { bitmap = for_slots count_down b.m z 0 b.k b.bitmap; size = sub64 b.size 1 },
        any_counted b.m z 0 b.k 0 b.bitmap,
      )

  unfoldable pub counting_bloom_find : Bloom D → ℕ → Bool
  counting_bloom_find b val = let z = hash_val val b.salt in all_slots counted b.m z 0 b.k b.bitmap

module _ (fl : Floats) where
  open fl use {Double, log, exp, ceil, neg, sub, mul, div, gt, of_u64, to_u64, half}

  unfoldable pub make_k : Double → ℕ
  make_k e = to_u64 (ceil (div (neg (log e)) (log (of_u64 2))))

  unfoldable pub make_m : ℕ → Double → ℕ
  make_m n e =
      let z0 = div (neg (log e)) (mul (log (of_u64 2)) (log (of_u64 2))) in
      mul64 n (to_u64 (ceil z0))

  unfoldable pub make_n : ℕ → Double → ℕ
  make_n m e =
      let z0 = div (mul (log (of_u64 2)) (log (of_u64 2))) (neg (log e)) in
      to_u64 (ceil (mul (of_u64 m) z0))

  unfoldable pub bloom_fill_ratio_est : Bloom Double → Double
  bloom_fill_ratio_est b = let r = div (of_u64 b.size) (of_u64 b.m) in sub (of_u64 1) (exp (neg r))

  -- The slots of one partition, `ceil(m/k)`.
  unfoldable pub slots_each : ℕ → Double → ℕ
  unfolding make_k make_m
  slots_each n e =
      let k = make_k e in let m = make_m n e in add64 (m / k) (if m % k == 0 then 0 else 1)

  -- `_ALIGN_UP(x, 64)`
  unfoldable pub align_up64 : ℕ → ℕ
  align_up64 x = bit_and (add64 x 63) (2 ^ 64 - 1 - 63)

  -- The memory of the filter is `b`; its `size` is left as it is.
  unfoldable pub standard_bloom_init : Bloom Double → ℕ → Double → ℕ → Bloom Double
  unfolding slots_each make_k align_up64
  standard_bloom_init b n e salt =
      let k = make_k e in
      let msub = slots_each n e in
      let nbits = align_up64 (mul64 msub k) in
      let bytes = nbits / 8 in
      record b { m = msub; k = k; salt = salt; bitmap = replicate bytes 0; bmsize = bytes; e = e }

  unfoldable pub counting_bloom_init : Bloom Double → ℕ → Double → ℕ → Bloom Double
  unfolding slots_each make_k
  counting_bloom_init b n e salt =
      let k = make_k e in
      let s = slots_each n e in
      let bytes = mul64 s k in
      record b { m = s; k = k; salt = salt; bitmap = replicate bytes 0; bmsize = bytes; e = e }
