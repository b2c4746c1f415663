-- ===== src/Bloom/Counting.antt =====
-- Counting filters: what is found after any items were added and taken out again.
use portable_lib.Prelude.{
  ℕ, zero, suc, ◌+◌, ◌*◌, ◌%◌, ◌<◌, ◌≤◌, ◌-◌, false, List, [], ◌∷◌, ◌++◌, ◌≡◌, ◌≢◌, refl, sym, ◌∙◌,
  inl, inr, arith, if◌then◌else◌, ◌==◌, Bool-cases, u8_mod, get_or, set, length, length-set,
  length-append, get_or-set_self, get_or-set_ne,
}
use portable_lib.Bloom.{
  Bloom, count_up, count_down, any_counted, place, hash_val, counting_bloom_probe,
  counting_bloom_remove,
}
use portable_lib.Bloom.Places.{IsSized, times, times-append}
use portable_lib.Bloom.Loops.{within, length-for_slots, for_slots-view}

abbrev pub cell : List ℕ → ℕ → ℕ
cell bm j = get_or bm j 0

length-count_up : (n : ℕ) (bm : List ℕ) (s : ℕ) → length bm ≡ n → length (count_up bm s) ≡ n
unfolding count_up
length-count_up n bm s h = length-set bm s _ ∙ h

length-count_down : (n : ℕ) (bm : List ℕ) (s : ℕ) → length bm ≡ n → length (count_down bm s) ≡ n
unfolding count_down
length-count_down n bm s h = ground (arith, length-set bm s (get_or bm s 0 - 1))

module _ (n : ℕ) (bm : List ℕ) (s j : ℕ) (h : length bm ≡ n) (low : s < n) where
  cell-set : (x : ℕ) → cell (set bm s x) j ≡ (if s == j then x else cell bm j)
  cell-set x = elim (Bool-cases (s == j)) [
    | inl t ↦
        let same : s ≡ j = ground (arith, t) in
        rw (t, sym same, get_or-set_self bm s x 0 (omega arith)) refl
    | inr f ↦
        let ne : s ≢ j = λ e. absurd (ground (arith, f, e)) in rw (f, get_or-set_ne bm x 0 ne) refl
  ]

  cell-count_up : cell (count_up bm s) j ≡ (if s == j then (cell bm j + 1) % u8_mod else cell bm j)
  unfolding count_up
  cell-count_up = cell-set ((get_or bm s 0 + 1) % u8_mod) ∙ elim (Bool-cases (s == j)) [
    | inl t ↦ let same : s ≡ j = ground (arith, t) in rw (t, same) refl
    | inr f ↦ rw f refl
  ]

  cell-count_down : cell (count_down bm s) j ≡ (if s == j then cell bm j - 1 else cell bm j)
  unfolding count_down
  cell-count_down = elim (Bool-cases (s == j)) [
    | inl t ↦
        let same : s ≡ j = ground (arith, t) in ground (arith, cell-set (get_or bm s 0 - 1), same)
    | inr f ↦ ground (arith, cell-set (get_or bm s 0 - 1), f)
  ]

times-le : (m k salt : ℕ) (vs : List ℕ) (j : ℕ) → times m k salt vs j ≤ length vs
unfolding times
times-le m k salt [] j = omega arith
times-le m k salt (v ∷ vs) j = ground (arith, times-le m k salt vs j)

any_counted-one : (m z i left : ℕ) (bm : List ℕ) → any_counted m z i left 1 bm ≡ 1
unfolding any_counted
any_counted-one m z i zero bm = refl
any_counted-one m z i (suc left) bm = elim (Bool-cases (get_or bm (place m z i) 0 == 0)) [
  | inl t ↦ rw t (any_counted-one m z (i + 1) left _)
  | inr f ↦ rw f (any_counted-one m z (i + 1) left _)
]

pub any_counted-first :
    (m z k : ℕ) (bm : List ℕ) → 0 < k → 0 < cell bm (place m z 0) → any_counted m z 0 k 0 bm ≡ 1
unfolding any_counted
any_counted-first m z zero bm pos h = absurd (omega arith)
any_counted-first m z (suc k) bm pos h =
    let there : (get_or bm (place m z 0) 0 == 0) ≡ false = ground arith in
    rw there (any_counted-one m z (0 + 1) k _)

module _ {D : Type 0} where
  -- A filter that counts the items of a list, of which there are too few to fill a counter.
  pub record Counts (b : Bloom D) (vs : List ℕ) : Type 0 where
    pub sized : IsSized b.m b.k
    pub room : b.m * b.k ≤ length b.bitmap
    pub few : length vs ≤ 255
    pub number : b.size ≡ length vs
    pub cells : (j : ℕ) → cell b.bitmap j ≡ times b.m b.k b.salt vs j

  pub counting_bloom_probe-Counts :
      (b : Bloom D) (vs : List ℕ) (v : ℕ)
      → length vs < 255
      → Counts b vs
      → Counts (counting_bloom_probe b v) (v ∷ vs)
  unfolding counting_bloom_probe times within
  counting_bloom_probe-Counts b vs v few h =
      let z = hash_val v b.salt in
      let n = length b.bitmap in
      let keeps = length-count_up n in
      let effect =
        λ (bm : List ℕ) (s j : ℕ) (p : length bm ≡ n) (q : s < n). cell-count_up n bm s j p q in
      record {
        sized = h.sized;
        room =
            rw
              (length-for_slots cell (λ x. (x + 1) % u8_mod) count_up n n keeps effect b.m z 0 b.k
                b.bitmap refl)
              h.room;
        few = omega arith;
        number = omega (arith, h.number, few);
        cells = λ j.
            for_slots-view cell (λ x. (x + 1) % u8_mod) count_up n n keeps effect b.m b.k z 0 b.k
              b.bitmap j h.sized refl h.room (omega arith)
            ∙ ground (arith, h.cells j, times-le b.m b.k b.salt vs j);
      }

  pub counting_bloom_remove-Counts :
      (b : Bloom D) (front : List ℕ) (v : ℕ) (back : List ℕ)
      → Counts b (front ++ (v ∷ back))
      → Counts (counting_bloom_remove b v).0 (front ++ back)
  unfolding counting_bloom_remove times within
  counting_bloom_remove-Counts b front v back h =
      let z = hash_val v b.salt in
      let n = length b.bitmap in
      let keeps = length-count_down n in
      let effect =
        λ (bm : List ℕ) (s j : ℕ) (p : length bm ≡ n) (q : s < n). cell-count_down n bm s j p q in
      let before = length-append front (v ∷ back) in
      let after = length-append front back in
      record {
        sized = h.sized;
        room =
            rw
              (length-for_slots cell (λ x. x - 1) count_down n n keeps effect b.m z 0 b.k b.bitmap
                refl)
              h.room;
        few = omega (arith, h.few, before, after);
        number = omega (arith, h.number, h.few, before, after);
        cells = λ j.
            for_slots-view cell (λ x. x - 1) count_down n n keeps effect b.m b.k z 0 b.k b.bitmap j
              h.sized refl h.room (omega arith)
            ∙ ground (
              arith,
              h.cells j,
              times-append b.m b.k b.salt front (v ∷ back) j,
              times-append b.m b.k b.salt front back j,
            );
      }
