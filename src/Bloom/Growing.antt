-- ===== src/Bloom/Growing.antt =====
-- Scalable filters: no item that was added is missed, whatever filters were appended since.
use portable_lib.Prelude.{
  ℕ, zero, suc, ◌*◌, ◌<◌, ◌≤◌, true, List, [], ◌∷◌, ◌++◌, ◌≡◌, ◌≢◌, refl, ◌∙◌, subst, inl, inr,
  arith, if◌then◌else◌, ◌==◌, Bool-cases, set, length, get_or-set_self, get_or-set_ne, All, u32_mod,
}
use portable_lib.Bloom.{Bloom, testbit, setbit, hash_val, standard_bloom_probe, standard_bloom_find}
use portable_lib.Bloom.Scalable.{ScalableBloom, filter_at, find_down}
use portable_lib.Bloom.Places.{IsSized, has_slot, has_slot-place, all_slots_iff}
use portable_lib.Bloom.Loops.{within, length-for_slots, for_slots-view}
use portable_lib.Bloom.Standard.{length-setbit, testbit-setbit}

module _ {D : Type 0} where
  -- A filter whose slots are inside its memory.
  pub record IsUsable (b : Bloom D) : Type 0 where
    pub sized : IsSized b.m b.k
    pub room : b.m * b.k ≤ 8 * length b.bitmap

  probe-bits :
      (b : Bloom D) (v j : ℕ)
      → IsUsable b
      → testbit (standard_bloom_probe b v).bitmap j
        ≡ (if has_slot b.m b.k (hash_val v b.salt) j then true else testbit b.bitmap j)
  unfolding standard_bloom_probe within
  probe-bits b v j h =
      let n = length b.bitmap in
      for_slots-view testbit (λ _. true) setbit (8 * n) n (length-setbit n) (testbit-setbit n) b.m
        b.k (hash_val v b.salt) 0 b.k b.bitmap j h.sized refl h.room (omega arith)
      ∙ ground arith

  pub probe-IsUsable : (b : Bloom D) (v : ℕ) → IsUsable b → IsUsable (standard_bloom_probe b v)
  unfolding standard_bloom_probe
  probe-IsUsable b v h =
      let n = length b.bitmap in
      record {
        sized = h.sized;
        room =
            rw
              (length-for_slots testbit (λ _. true) setbit (8 * n) n (length-setbit n)
                (testbit-setbit n) b.m (hash_val v b.salt) 0 b.k b.bitmap refl)
              h.room;
      }

  pub find-probe_self :
      (b : Bloom D) (v : ℕ) → IsUsable b → standard_bloom_find (standard_bloom_probe b v) v ≡ true
  unfolding standard_bloom_find standard_bloom_probe
  find-probe_self b v h =
      let z = hash_val v b.salt in
      let b' = standard_bloom_probe b v in
      (all_slots_iff testbit b.m z 0 b.k b'.bitmap).1 (λ i low high.
        probe-bits b v _ h ∙ rw (has_slot-place b.m b.k z i h.sized (omega arith)) refl)

  pub find-probe_keeps :
      (b : Bloom D) (v w : ℕ)
      → IsUsable b
      → standard_bloom_find b w ≡ true
      → standard_bloom_find (standard_bloom_probe b v) w ≡ true
  unfolding standard_bloom_find standard_bloom_probe
  find-probe_keeps b v w h found =
      let z = hash_val w b.salt in
      let b' = standard_bloom_probe b v in
      (all_slots_iff testbit b.m z 0 b.k b'.bitmap).1 (λ i low high.
        let t = (all_slots_iff testbit b.m z 0 b.k b.bitmap).0 found i low high in
        probe-bits b v _ h ∙ ground (arith, t))

module _ {D : Type 0} (junk : Bloom D) where
  -- An item that one of the first `n` filters finds.
  abbrev pub IsFound : List (Bloom D) → ℕ → ℕ → Type 0
  IsFound bfa n v = (i : ℕ) × (i < n) × (standard_bloom_find (filter_at junk bfa i) v ≡ true)

  pub find_down-IsFound :
      (bfa : List (Bloom D)) (n v : ℕ) → IsFound bfa n v → find_down junk bfa n v ≡ true
  unfolding find_down
  find_down-IsFound bfa zero v (i, low, found) = absurd (omega arith)
  find_down-IsFound bfa (suc n) v (i, low, found) = elim (Bool-cases (i == n)) [
    | inl e ↦
        let same : i ≡ n = ground (arith, e) in
        let here = subst (λ t. standard_bloom_find (filter_at junk bfa t) v ≡ true) same found in
        rw here refl
    | inr e ↦ let ih = find_down-IsFound bfa n v (i, ground arith, found) in ground (arith, ih)
  ]

  pub record Spans (sb : ScalableBloom D) (vs : List ℕ) : Type 0 where
    pub some_filters : 0 < sb.len
    pub in_array : sb.len ≤ sb.cap
    pub array : length sb.bfa ≡ sb.cap
    pub small : sb.cap < u32_mod
    pub usable : (i : ℕ) → i < sb.len → IsUsable (filter_at junk sb.bfa i)
    pub items : All (IsFound sb.bfa sb.len) vs

  pub filter_at-set_self :
      (bfa : List (Bloom D)) (i : ℕ) (f : Bloom D)
      → i < length bfa
      → filter_at junk (set bfa i f) i ≡ f
  unfolding filter_at
  filter_at-set_self bfa i f h = get_or-set_self bfa i f junk h

  pub filter_at-set_ne :
      (bfa : List (Bloom D)) {i j : ℕ} (f : Bloom D)
      → i ≢ j
      → filter_at junk (set bfa i f) j ≡ filter_at junk bfa j
  unfolding filter_at
  filter_at-set_ne bfa f h = get_or-set_ne bfa f junk h

  pub filter_at-append :
      (bfa more : List (Bloom D)) (i : ℕ)
      → i < length bfa
      → filter_at junk (bfa ++ more) i ≡ filter_at junk bfa i
  unfolding filter_at
  filter_at-append [] more i h = absurd (omega arith)
  filter_at-append (f ∷ bfa) more zero h = refl
  filter_at-append (f ∷ bfa) more (suc i) h = filter_at-append bfa more i (omega arith)
