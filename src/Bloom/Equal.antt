-- ===== src/Bloom/Equal.antt =====
-- src/hashtable/bloom.c: the comparison of two filters.
use portable_lib.Prelude.{
  ℕ, zero, suc, ◌+◌, ◌/◌, ◌<◌, ◌≤◌, Bool, true, false, ◌&&◌, some, List, [], ◌∷◌, ◌≡◌, refl, ap,
  inl, inr, arith, if◌then◌else◌, ◌==◌, ltb, Bool-cases, get_or, length,
}
use portable_lib.Bloom.{
  Floats, Bloom, testbit, counted, place, all_slots, standard_bloom_find, counting_bloom_find,
}
use portable_lib.Bloom.Scalable.{
  ScalableBloom, Filter, counting, quick, scaled, filter_at, find_down, scalable_find, bloom_find,
}

-- `memcmp` of `n` bytes gives 0.
unfoldable pub same_bytes : ℕ → (a b : List ℕ) → Bool
same_bytes zero a b = true
same_bytes (suc n) a b = get_or a n 0 == get_or b n 0 && same_bytes n a b

unfoldable pub bloom_eq : {D : Type 0} → Bloom D → Bloom D → Bool
unfolding same_bytes
bloom_eq a b =
    a.m == b.m
    && (a.k == b.k
        && (a.salt == b.salt
            && (a.size == b.size
                && (a.bmsize == b.bmsize && same_bytes a.bmsize a.bitmap b.bitmap))))

module _ (fl : Floats) (junk : Bloom fl.Double) where
  -- The loop over the filters, of which the first `n` are compared.
  unfoldable pub filters_eq : ℕ → (a b : List (Bloom fl.Double)) → Bool
  unfolding filter_at bloom_eq
  filters_eq zero a b = true
  filters_eq (suc n) a b = bloom_eq (filter_at junk a n) (filter_at junk b n) && filters_eq n a b

  unfoldable pub scaled_bloom_eq : (a b : ScalableBloom fl.Double) → Bool
  unfolding filters_eq
  scaled_bloom_eq a b =
      a.len == b.len
      && (a.scale == b.scale
          && (if fl.gt (fl.fabs (fl.sub a.r b.r)) fl.epsilon
              then false
              else filters_eq a.len a.bfa b.bfa))

  -- `Bloom_eq`: filters of different types differ.
  unfoldable pub filter_eq : (a b : Filter fl.Double) → Bool
  unfolding bloom_eq scaled_bloom_eq
  filter_eq (counting a) (counting b) = bloom_eq a b
  filter_eq (quick a) (quick b) = bloom_eq a b
  filter_eq (scaled a) (scaled b) = scaled_bloom_eq a b
  filter_eq a b = false

get_or-beyond : (a : List ℕ) (j : ℕ) → length a ≤ j → get_or a j 0 ≡ 0
get_or-beyond [] j h = refl
get_or-beyond (x ∷ a) zero h = absurd (omega arith)
get_or-beyond (x ∷ a) (suc j) h = get_or-beyond a j (omega arith)

get_or-same_bytes :
    (n : ℕ) (a b : List ℕ) (j : ℕ) → same_bytes n a b ≡ true → j < n → get_or a j 0 ≡ get_or b j 0
unfolding same_bytes
get_or-same_bytes zero a b j e h = absurd (omega arith)
get_or-same_bytes (suc n) a b j e h = elim (Bool-cases (j == n)) [
  | inl t ↦ let last : j ≡ n = ground (arith, t) in rw last (ground (arith, e))
  | inr f ↦ get_or-same_bytes n a b j (ground (arith, e)) (ground (arith, f, h))
]

all_slots-same :
    (test : List ℕ → ℕ → Bool) (m z i left : ℕ) (a b : List ℕ)
    → ((j : ℕ) → test a j ≡ test b j)
    → all_slots test m z i left a ≡ all_slots test m z i left b
unfolding all_slots
all_slots-same test m z i zero a b same = refl
all_slots-same test m z i (suc left) a b same =
    rw (same (place m z i), all_slots-same test m z (i + 1) left a b same) refl

-- The memory that memcmp compares is the whole bitmap.
abbrev IsWhole : {D : Type 0} → Bloom D → Type 0
IsWhole b = length b.bitmap ≡ b.bmsize

module _ {D : Type 0} (a b : Bloom D) (same : bloom_eq a b ≡ true) (whole_a : IsWhole a)
    (whole_b : IsWhole b) where
  same_m : a.m ≡ b.m
  unfolding bloom_eq
  same_m = ground (arith, same)

  same_k : a.k ≡ b.k
  unfolding bloom_eq
  same_k = ground (arith, same)

  same_salt : a.salt ≡ b.salt
  unfolding bloom_eq
  same_salt = ground (arith, same)

  same_bitmap : (j : ℕ) → get_or a.bitmap j 0 ≡ get_or b.bitmap j 0
  unfolding bloom_eq
  same_bitmap j =
      let size : a.bmsize ≡ b.bmsize = ground (arith, same) in
      let bytes : same_bytes a.bmsize a.bitmap b.bitmap ≡ true = ground (arith, same) in
      elim (Bool-cases (ltb j a.bmsize)) [
        | inl t ↦ get_or-same_bytes a.bmsize a.bitmap b.bitmap j bytes (ground (arith, t))
        | inr f ↦ ground (
          arith,
          get_or-beyond a.bitmap j (ground (arith, f, whole_a)),
          get_or-beyond b.bitmap j (ground (arith, f, whole_b, size)),
        )
      ]

  standard_bloom_find-same : (v : ℕ) → standard_bloom_find a v ≡ standard_bloom_find b v
  unfolding standard_bloom_find testbit
  standard_bloom_find-same v =
      rw (same_m, same_k, same_salt)
        (all_slots-same testbit b.m _ 0 b.k a.bitmap b.bitmap (λ j. rw (same_bitmap (j / 8)) refl))

  counting_bloom_find-same : (v : ℕ) → counting_bloom_find a v ≡ counting_bloom_find b v
  unfolding counting_bloom_find counted
  counting_bloom_find-same v =
      rw (same_m, same_k, same_salt)
        (all_slots-same counted b.m _ 0 b.k a.bitmap b.bitmap (λ j. rw (same_bitmap j) refl))

module _ (fl : Floats) (junk : Bloom fl.Double) where
  find_down-same :
      (n : ℕ) (a b : List (Bloom fl.Double)) (v : ℕ)
      → filters_eq fl junk n a b ≡ true
      → ((i : ℕ) → i < n → IsWhole (filter_at junk a i))
      → ((i : ℕ) → i < n → IsWhole (filter_at junk b i))
      → find_down junk a n v ≡ find_down junk b n v
  unfolding find_down filters_eq
  find_down-same zero a b v same whole_a whole_b = refl
  find_down-same (suc n) a b v same whole_a whole_b =
      let first : bloom_eq (filter_at junk a n) (filter_at junk b n) ≡ true =
        ground (arith, same) in
      let one =
        standard_bloom_find-same (filter_at junk a n) (filter_at junk b n) first
          (whole_a n (omega arith)) (whole_b n (omega arith)) v in
      let rest =
        find_down-same n a b v (ground (arith, same)) (λ i h. whole_a i (omega arith))
          (λ i h. whole_b i (omega arith)) in
      rw (one, rest) refl

  abbrev AllWhole : Filter fl.Double → Type 0
  AllWhole (counting b) = IsWhole b
  AllWhole (quick b) = IsWhole b
  AllWhole (scaled sb) = (i : ℕ) → i < sb.len → IsWhole (filter_at junk sb.bfa i)

  -- Filters that Bloom_eq finds equal find the same items, if it compares the whole of their bitmaps.
  bloom_find-same :
      (f g : Filter fl.Double) (v : ℕ)
      → filter_eq fl junk f g ≡ true
      → AllWhole f
      → AllWhole g
      → bloom_find fl junk f v ≡ bloom_find fl junk g v
  unfolding bloom_find filter_eq scaled_bloom_eq scalable_find
  bloom_find-same (counting a) (counting b) v same wa wb =
      ap some (counting_bloom_find-same a b same wa wb v)
  bloom_find-same (quick a) (quick b) v same wa wb =
      ap some (standard_bloom_find-same a b same wa wb v)
  bloom_find-same (scaled a) (scaled b) v same wa wb =
      let len : a.len ≡ b.len = ground (arith, same) in
      let each : filters_eq fl junk a.len a.bfa b.bfa ≡ true = ground (arith, same) in
      let down = find_down-same a.len a.bfa b.bfa v each wa (λ i h. wb i (omega (arith, len, h))) in
      rw (down, len) refl
  bloom_find-same (counting a) (quick b) v same wa wb = absurd (cc)
  bloom_find-same (counting a) (scaled b) v same wa wb = absurd (cc)
  bloom_find-same (quick a) (counting b) v same wa wb = absurd (cc)
  bloom_find-same (quick a) (scaled b) v same wa wb = absurd (cc)
  bloom_find-same (scaled a) (counting b) v same wa wb = absurd (cc)
  bloom_find-same (scaled a) (quick b) v same wa wb = absurd (cc)
