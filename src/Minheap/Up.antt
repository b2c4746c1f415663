-- ===== src/Minheap/Up.antt =====
-- Sifting an element up.
use portable_lib.Prelude.{
  ℕ, zero, suc, ◌≤◌, ◌<◌, true, false, some, List, ◌≡◌, ◌≢◌, refl, ◌∙◌, inl, inr, arith, ◌==◌,
  Bool-cases, get_or, length,
}
use portable_lib.Vect.{swap_elems}
use portable_lib.Vect.Shuffled.{length-swap_elems}
use portable_lib.Minheap.{Comp, at, parent, siftup_loop}
use portable_lib.Minheap.Order.{IsLawful, key, at-get_or, key-swap_elems, Rearranged-refl}
use portable_lib.Minheap.Down.{Sifted, Sifted-swap}

module _ {ℓ} {A : Type ℓ} (c : Comp A) (d : A) (law : IsLawful c d) where
  abbrev k_of : List A → ℕ → ℕ
  k_of h i = key c d law h i

  -- In order but for the edge above `i`; those below `i` reach over it.
  pub record IsRising (n : ℕ) (h : List A) (i : ℕ) : Type 0 where
    pub others : (k : ℕ) → 0 < k → k < n → k ≢ i → k_of h (parent k) ≤ k_of h k
    pub over : (k : ℕ) → 0 < k → k < n → parent k ≡ i → 0 < i → k_of h (parent i) ≤ k_of h k

  swap-IsRising :
      (n : ℕ) (h : List A) (i : ℕ)
      → n ≤ length h
      → 0 < i
      → i < n
      → IsRising n h i
      → k_of h i < k_of h (parent i)
      → IsRising n (swap_elems d h i (parent i)) (parent i)
  swap-IsRising n h i room pos low rising below =
      let p = parent i in
      let seen = λ (k : ℕ). key-swap_elems c d law h i p k (omega arith) (omega arith) in
      record {
        others = λ k pk inside ne.
            ground (arith, seen k, seen (parent k), rising.others k, rising.over k);
        over = λ k pk inside e pp.
            ground (arith, seen k, seen (parent p), rising.others k, rising.others p);
      }

  siftup_turn :
      (turns : ℕ) (h h' : List A) (i : ℕ) (x y : A)
      → (i == 0) ≡ false
      → at c h i ≡ some x
      → at c h (parent i) ≡ some y
      → c.lt x y ≡ true
      → c.swap h i (parent i) ≡ h'
      → siftup_loop c (suc turns) h i ≡ siftup_loop c turns h' (parent i)
  unfolding siftup_loop
  siftup_turn turns h h' i x y inner at_i at_p l swapped = rw (inner, at_i, at_p, l, swapped) refl

  module _ (n : ℕ) where
    pub siftup_loop-Sifted :
        (turns : ℕ) (h : List A) (i : ℕ)
        → n ≤ length h
        → i < n
        → i < turns
        → IsRising n h i
        → Sifted c d law 0 n h (siftup_loop c turns h i)
    unfolding siftup_loop
    siftup_loop-Sifted zero h i room low enough rising = absurd (omega arith)
    siftup_loop-Sifted (suc turns) h i room low enough rising = elim (Bool-cases (i == 0)) [
      | inl t ↦
          let top : i ≡ 0 = ground (arith, t) in
          record {
            result = h;
            returns = rw t refl;
            ordered = λ k pos inside lo. rising.others k pos inside (λ e. absurd (omega arith));
            elements = Rearranged-refl c d law n h;
          }
      | inr f ↦
          let pos : 0 < i = ground (arith, f) in
          let x = get_or h i d in
          let y = get_or h (parent i) d in
          let at_i = at-get_or c d law h i (omega arith) in
          let at_p = at-get_or c d law h (parent i) (omega arith) in
          elim (Bool-cases (c.lt x y)) [
            | inr g ↦
                let right : law.rank y ≤ law.rank x = ground (arith, law.lt_rank x y, g) in
                record {
                  result = h;
                  returns = rw (f, at_i, at_p, g) refl;
                  ordered = λ k pk inside lo. elim (Bool-cases (k == i)) [
                    | inl e ↦ let same : k ≡ i = ground (arith, e) in rw same right
                    | inr e ↦
                        rising.others k pk inside (λ (w : k ≡ i). absurd (ground (arith, e, w)))
                  ];
                  elements = Rearranged-refl c d law n h;
                }
            | inl g ↦
                let below : law.rank x < law.rank y = ground (arith, law.lt_rank x y, g) in
                let h' = swap_elems d h i (parent i) in
                let long = length-swap_elems d h i (parent i) in
                let swapped = law.exchange h i (parent i) (omega arith) (omega arith) in
                let later =
                  siftup_loop-Sifted turns h' (parent i) (omega (arith, long, room)) (omega arith)
                    (omega arith) (swap-IsRising n h i room pos low rising below) in
                let all = Sifted-swap c d law 0 n h i (parent i) low (omega arith) room later in
                record {
                  result = all.result;
                  returns = siftup_turn turns h h' i x y f at_i at_p g swapped ∙ all.returns;
                  ordered = all.ordered;
                  elements = all.elements;
                }
          ]
    ]
