-- ===== src/Bloom/Standard.antt =====
-- Standard filters: what is found after any items were added.
use portable_lib.Prelude.{
  ℕ, ◌+◌, ◌*◌, ◌/◌, ◌%◌, ◌^◌, ◌<◌, ◌≤◌, ◌-◌, true, false, List, [], ◌∷◌, ◌++◌, ◌≡◌, ◌≢◌, refl, ap,
  subst, ◌∙◌, ◌↔◌, inl, inr, arith, if◌then◌else◌, ◌==◌, ltb, Bool-cases, bit_and, bit_or,
  bit_and_comm, u8_mod, get_or, set, length, length-set, get_or-set_self, get_or-set_ne, replicate,
  length-replicate, get_or-replicate, bit_and-shift, mul64, add64, mask-bit_and, All, All-splits,
}
use portable_lib.Bitset.Digits.{
  testbit as digit, testbit-bit_or as digit-bit_or, testbit-pow_self as digit-pow_self,
  testbit-pow_ne as digit-pow_ne, testbit-mod as digit-mod, testbit-lt as digit-lt, mask-is_set,
  testbit-zero as digit-zero,
}
use portable_lib.Bloom.{
  Floats, Bloom, testbit, setbit, place, hash_val, standard_bloom_probe, standard_bloom_find,
  standard_bloom_init, make_k, slots_each, align_up64,
}
use portable_lib.Bloom.Places.{IsSized, times, times-pos, SharesSlots, all_slots_iff}
use portable_lib.Bloom.Loops.{within, length-for_slots, for_slots-view}

pub length-setbit : (n : ℕ) (bm : List ℕ) (s : ℕ) → length bm ≡ n → length (setbit bm s) ≡ n
unfolding setbit
length-setbit n bm s h = length-set bm (s / 8) _ ∙ h

testbit-digit : (bm : List ℕ) (j : ℕ) → testbit bm j ≡ (digit (j % 8) (get_or bm (j / 8) 0) == 1)
unfolding testbit
testbit-digit bm j =
    ap (ltb 0) (bit_and_comm (get_or bm (j / 8) 0) (2 ^ (j % 8)))
    ∙ mask-is_set (j % 8) (get_or bm (j / 8) 0)

byte-set :
    (x i k : ℕ) → k < 8 → digit k (bit_or x (2 ^ i) % u8_mod) ≡ (if i == k then 1 else digit k x)
byte-set x i k h = elim (Bool-cases (i == k)) [
  | inl t ↦
      let same : i ≡ k = ground (arith, t) in
      rw (t, same)
        (omega (
          arith,
          digit-mod 8 k (bit_or x (2 ^ k)) h,
          digit-bit_or k x (2 ^ k),
          digit-pow_self k,
          digit-lt k x,
        ))
  | inr f ↦
      let ne : k ≢ i = λ e. absurd (ground (arith, f, e)) in
      rw f (
        omega (
          arith,
          digit-mod 8 k (bit_or x (2 ^ i)) h,
          digit-bit_or k x (2 ^ i),
          digit-pow_ne k i ne,
        ))
]

pub testbit-setbit :
    (n : ℕ) (bm : List ℕ) (s j : ℕ)
    → length bm ≡ n
    → s < 8 * n
    → testbit (setbit bm s) j ≡ (if s == j then true else testbit bm j)
unfolding setbit
testbit-setbit n bm s j h low = elim (Bool-cases (s / 8 == j / 8)) [
  | inl t ↦
      let same : j / 8 ≡ s / 8 = ground (arith, t) in
      let byte = bit_or (get_or bm (s / 8) 0) (2 ^ (s % 8)) % u8_mod in
      let back = get_or-set_self bm (s / 8) byte 0 (omega arith) in
      let e = byte-set (get_or bm (s / 8) 0) (s % 8) (j % 8) (omega arith) in
      rw (testbit-digit (set bm (s / 8) byte) j, testbit-digit bm j, same, back, e)
        (ground (arith, same))
  | inr f ↦
      let ne : s / 8 ≢ j / 8 = λ e. absurd (ground (arith, f, e)) in
      let other : (s == j) ≡ false = ground (arith, f) in
      rw (testbit-digit _ j, testbit-digit bm j, get_or-set_ne bm _ 0 ne, other) refl
]

module _ {D : Type 0} where
  -- The filter after items were added, the last one first.
  unfoldable pub probe_all : List ℕ → Bloom D → Bloom D
  probe_all [] b = b
  probe_all (v ∷ vs) b = standard_bloom_probe (probe_all vs b) v

  -- A filter that holds the items of a list: each bit tells whether an item has that slot.
  pub record Holds (b : Bloom D) (vs : List ℕ) : Type 0 where
    pub sized : IsSized b.m b.k
    pub room : b.m * b.k ≤ 8 * length b.bitmap
    pub bits : (j : ℕ) → testbit b.bitmap j ≡ ltb 0 (times b.m b.k b.salt vs j)

  pub standard_bloom_probe-Holds :
      (b : Bloom D) (vs : List ℕ) (v : ℕ) → Holds b vs → Holds (standard_bloom_probe b v) (v ∷ vs)
  unfolding standard_bloom_probe times within
  standard_bloom_probe-Holds b vs v h =
      let z = hash_val v b.salt in
      let n = length b.bitmap in
      record {
        sized = h.sized;
        room =
            rw
              (length-for_slots testbit (λ _. true) setbit (8 * n) n (length-setbit n)
                (testbit-setbit n) b.m z 0 b.k b.bitmap refl)
              h.room;
        bits = λ j.
            for_slots-view testbit (λ _. true) setbit (8 * n) n (length-setbit n) (testbit-setbit n)
              b.m b.k z 0 b.k b.bitmap j h.sized refl h.room (omega arith)
            ∙ ground (arith, h.bits j);
      }

  pub probe_all-Holds : (vs : List ℕ) (b : Bloom D) → Holds b [] → Holds (probe_all vs b) vs
  unfolding probe_all
  probe_all-Holds [] b h = h
  probe_all-Holds (v ∷ vs) b h =
      standard_bloom_probe-Holds (probe_all vs b) vs v (probe_all-Holds vs b h)

  -- A filter finds exactly the numbers each of whose slots is a slot of some item.
  pub Holds-find :
      (b : Bloom D) (vs : List ℕ) (v : ℕ)
      → Holds b vs
      → (standard_bloom_find b v ≡ true) ↔ SharesSlots b.m b.k b.salt vs v
  unfolding standard_bloom_find
  Holds-find b vs v h =
      let z = hash_val v b.salt in
      let iff = all_slots_iff testbit b.m z 0 b.k b.bitmap in
      (
        (λ found i low.
            let t = iff.0 found i (omega arith) (omega arith) in
            ground (arith, h.bits (place b.m z i), t)),
        (λ all. iff.1 (λ i low high.
            let t = all i (omega arith) in ground (arith, h.bits (place b.m z i), t))),
      )

-- So each item of the list is found.
pub Holds-member :
    {D : Type 0} (b : Bloom D) (front : List ℕ) (v : ℕ) (back : List ℕ)
    → Holds b (front ++ (v ∷ back))
    → standard_bloom_find b v ≡ true
Holds-member b front v back h =
    (Holds-find b (front ++ (v ∷ back)) v h).1
      (λ i low. times-pos b.m b.k b.salt front v back i h.sized low)

-- The partitions of a filter for `n` items at an error rate are not empty, and their slots, rounded
-- up to words, can be numbered by 64 bits.
pub record IsFeasible (fl : Floats) (n : ℕ) (e : fl.Double) : Type 0 where
  pub some_slots : 0 < slots_each fl n e
  pub some_parts : 0 < make_k fl e
  pub fits : slots_each fl n e * make_k fl e + 64 ≤ 2 ^ 64

align_up64_lem : (fl : Floats) (x : ℕ) → x + 64 ≤ 2 ^ 64 → align_up64 fl x ≡ (x + 63) / 64 * 64
unfolding align_up64
align_up64_lem fl x h =
    let ones : 2 ^ 64 - 1 - 63 ≡ (2 ^ 58 - 1) * 2 ^ 6 = refl in
    bit_and_comm (add64 x 63) (2 ^ 64 - 1 - 63)
    ∙ ap (λ t. bit_and t (add64 x 63)) ones
    ∙ bit_and-shift 6 (2 ^ 58 - 1) (add64 x 63)
    ∙ omega (arith, mask-bit_and 58 (add64 x 63 / 2 ^ 6))

testbit-fresh : (n j : ℕ) → testbit (replicate n 0) j ≡ false
testbit-fresh n j =
    rw (testbit-digit (replicate n 0) j, get_or-replicate {A = ℕ} n (j / 8) 0, digit-zero (j % 8))
      refl

pub standard_bloom_init-Holds :
    (fl : Floats) (b : Bloom fl.Double) (n : ℕ) (e : fl.Double) (salt : ℕ)
    → IsFeasible fl n e
    → Holds (standard_bloom_init fl b n e salt) []
unfolding standard_bloom_init times
standard_bloom_init-Holds fl b n e salt h =
    let m = slots_each fl n e in
    let k = make_k fl e in
    let whole : mul64 m k ≡ m * k = omega (arith, h.fits) in
    let bytes = align_up64 fl (mul64 m k) / 8 in
    let len = length-replicate {A = ℕ} bytes 0 in
    record {
      sized = record {
        some_slots = h.some_slots;
        some_parts = h.some_parts;
        fits = omega (arith, h.fits);
      };
      room =
          omega (arith, len, whole, align_up64_lem fl (mul64 m k) (omega (arith, whole, h.fits)));
      bits = λ j. testbit-fresh bytes j;
    }

-- A new standard filter of feasible size to which items were added finds exactly the numbers each of
-- whose slots is a slot of one of the items; so it finds each of the items.
pub standard_bloom_find-probe_all :
    (fl : Floats) (b : Bloom fl.Double) (n : ℕ) (e : fl.Double) (salt : ℕ) (vs : List ℕ)
    → IsFeasible fl n e
    → let b' = probe_all vs (standard_bloom_init fl b n e salt) in
      ((v : ℕ) → (standard_bloom_find b' v ≡ true) ↔ SharesSlots b'.m b'.k b'.salt vs v)
      × All (λ v. standard_bloom_find b' v ≡ true) vs
standard_bloom_find-probe_all fl b n e salt vs h =
    let b' = probe_all vs (standard_bloom_init fl b n e salt) in
    let holds = probe_all-Holds vs _ (standard_bloom_init-Holds fl b n e salt h) in
    (
      (λ v. Holds-find b' vs v holds),
      All-splits (λ v. standard_bloom_find b' v ≡ true) vs
          (λ front v back split.
            Holds-member b' front v back (subst (λ (l : List ℕ). Holds b' l) split holds)),
    )
