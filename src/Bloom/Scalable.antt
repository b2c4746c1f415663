-- ===== src/Bloom/Scalable.antt =====
-- src/hashtable/bloom.c: scalable Bloom filters, which are arrays of standard ones, and the calls that
-- serve every kind of filter. `junk` is what memory that is not initialized holds.
use portable_lib.Prelude.{
  ℕ, zero, suc, ◌*◌, ◌%◌, ◌-◌, Bool, true, false, Option, none, some, List, ◌++◌, if◌then◌else◌,
  ◌==◌, ltb, u32_mod, mul64, add32, sub32, get_or, set, replicate, ◌>>=◌,
}
use portable_lib.Bloom.{
  Floats, Bloom, standard_bloom_probe, standard_bloom_find, standard_bloom_init, make_n,
  bloom_fill_ratio_est, counting_bloom_probe, counting_bloom_find, counting_bloom_remove,
  counting_bloom_init,
}

-- The pointer back to the interface is left out.
pub record ScalableBloom (D : Type 0) : Type 0 where
  pub bfa : List (Bloom D)
  pub len : ℕ
  pub cap : ℕ
  pub scale : ℕ
  pub r : D

-- `struct Bloom`: the type and the filter; its function pointers are the cases of the calls below.
pub data Filter (D : Type 0) : Type 0 where
  counting : Bloom D → Filter D
  quick : Bloom D → Filter D
  scaled : ScalableBloom D → Filter D

module _ {D : Type 0} (junk : Bloom D) where
  unfoldable pub filter_at : List (Bloom D) → ℕ → Bloom D
  filter_at bfa i = get_or bfa i junk

  -- The pointer that is returned is to the filter at the old length.
  unfoldable pub maybe_grow_filter : ScalableBloom D → Option (ScalableBloom D)
  maybe_grow_filter sb =
      let x = sb.cap * 2 % u32_mod in
      let longer = record sb {
        bfa = sb.bfa ++ replicate (x - sb.cap) junk;
        cap = x;
        len = add32 sb.len 1;
      } in
      if sb.len == sb.cap
      then if ltb sb.cap x then some longer else none
      else some (record sb { len = add32 sb.len 1 })

  -- The loop from number `i - 1` down to 0.
  unfoldable pub find_down : List (Bloom D) → ℕ → ℕ → Bool
  unfolding filter_at
  find_down bfa zero v = false
  find_down bfa (suc i) v =
      if standard_bloom_find (filter_at bfa i) v then true else find_down bfa i v

  unfoldable pub scalable_find : ScalableBloom D → ℕ → Option Bool
  unfolding find_down
  scalable_find sb v = if ltb 0 sb.len then some (find_down sb.bfa sb.len v) else none

-- The filter that a zeroed piece of memory is.
abbrev pub blank : {D : Type 0} → D → Bloom D
blank e = record { m = 0; k = 0; salt = 0; bitmap = List.[]; size = 0; bmsize = 0; e = e }

module _ (fl : Floats) where
  open fl use {Double, mul, gt, of_u64, half, nine_tenths}

  -- The error rate and the number of items for the filter that follows `f`.
  unfoldable pub next_e : ScalableBloom Double → Bloom Double → Double
  next_e sb f = mul f.e sb.r

  unfoldable pub next_n : ScalableBloom Double → Bloom Double → ℕ
  unfolding next_e
  next_n sb f = make_n fl (mul64 (mul64 f.m f.k) sb.scale) (next_e sb f)

  unfoldable pub is_overfull : Bloom Double → Bool
  is_overfull f = gt (bloom_fill_ratio_est fl f) half

  -- The new filter's part of scalable_probe, before the probe.
  unfoldable pub with_new_filter :
      Bloom Double → ScalableBloom Double → Bloom Double → ℕ → Option (ScalableBloom Double)
  unfolding maybe_grow_filter filter_at next_e next_n
  with_new_filter junk sb f salt = maybe_grow_filter junk sb >>= λ g. some (record g {
    bfa =
        set g.bfa sb.len
          (standard_bloom_init fl (filter_at junk g.bfa sb.len) (next_n sb f) (next_e sb f) salt);
  })

  unfoldable pub probe_at : Bloom Double → ℕ → ℕ → ScalableBloom Double → ScalableBloom Double
  unfolding filter_at
  probe_at junk v i sb = record sb {
    bfa = set sb.bfa i (standard_bloom_probe (filter_at junk sb.bfa i) v);
  }

  unfoldable pub scalable_probe :
      Bloom Double → ScalableBloom Double → ℕ → ℕ → Option (ScalableBloom Double)
  unfolding filter_at with_new_filter is_overfull probe_at
  scalable_probe junk sb v salt =
      let i = sub32 sb.len 1 in
      let f = filter_at junk sb.bfa i in
      if ltb i sb.len
      then if is_overfull f
        then (with_new_filter junk sb f salt >>= λ g. some (probe_at junk v sb.len g))
        else some (probe_at junk v i sb)
      else none

  unfoldable pub scalable_new : ℕ → Double → ℕ → ScalableBloom Double
  scalable_new n e salt = record {
    bfa =
        set (replicate 8 (blank (of_u64 0))) 0 (standard_bloom_init fl (blank (of_u64 0)) n e salt);
    len = 1;
    cap = 8;
    scale = 2;
    r = nine_tenths;
  }

  -- The memory of the filter itself is given.
  unfoldable pub standard_bloom_new : ℕ → Double → Bool → ℕ → Filter Double
  unfolding scalable_new
  standard_bloom_new n e scalable salt =
      if scalable
      then scaled (scalable_new n e salt)
      else quick (standard_bloom_init fl (blank (of_u64 0)) n e salt)

  unfoldable pub counting_bloom_new : ℕ → Double → ℕ → Filter Double
  counting_bloom_new n e salt = counting (counting_bloom_init fl (blank (of_u64 0)) n e salt)

  unfoldable pub bloom_probe : Bloom Double → Filter Double → ℕ → ℕ → Option (Filter Double)
  unfolding scalable_probe
  bloom_probe junk (counting b) v salt = some (counting (counting_bloom_probe b v))
  bloom_probe junk (quick b) v salt = some (quick (standard_bloom_probe b v))
  bloom_probe junk (scaled sb) v salt = scalable_probe junk sb v salt >>= λ g. some (scaled g)

  unfoldable pub bloom_find : Bloom Double → Filter Double → ℕ → Option Bool
  unfolding scalable_find
  bloom_find junk (counting b) v = some (counting_bloom_find b v)
  bloom_find junk (quick b) v = some (standard_bloom_find b v)
  bloom_find junk (scaled sb) v = scalable_find junk sb v

  -- `null_remov` for the filters that do not count: nothing changes, and the result is 1.
  unfoldable pub bloom_remove : Filter Double → ℕ → Filter Double × ℕ
  bloom_remove (counting b) v = let (b', r) = counting_bloom_remove b v in (counting b', r)
  bloom_remove (quick b) v = (quick b, 1)
  bloom_remove (scaled sb) v = (scaled sb, 1)
