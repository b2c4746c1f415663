-- ===== src/Minheap/Down.antt =====
-- Sifting an element down, and making a heap of an array.
use native.Mathlib.Nat.{le_refl}
use portable_lib.Prelude.{
  ℕ, zero, suc, ◌+◌, ◌/◌, ◌≤◌, ◌<◌, true, false, Option, some, List, ◌≡◌, ◌≢◌, refl, ◌∙◌, ◌⊎◌, inl,
  inr, arith, ◌==◌, ltb, leb, Bool-cases, lt→ltb, get_or, length,
}
use portable_lib.Vect.{swap_elems}
use portable_lib.Vect.Shuffled.{length-swap_elems}
use portable_lib.Minheap.{
  Comp, at, parent, leftchild, rightchild, is_leaf, child, siftdown_loop, siftdown, build_down,
}
use portable_lib.Minheap.Order.{
  IsLawful, key, at-get_or, key-swap_elems, IsOrdered, Rearranged, Rearranged-refl,
  Rearranged-trans, swap_elems-Rearranged,
}

children_of : (k i : ℕ) → 0 < k → parent k ≡ i → (k ≡ leftchild i) ⊎ (k ≡ rightchild i)
children_of k i pos p = elim (Bool-cases (k == leftchild i)) [
  | inl t ↦ inl (ground (arith, t))
  | inr f ↦ inr (ground (arith, f, p))
]

module _ {ℓ} {A : Type ℓ} (c : Comp A) (d : A) (law : IsLawful c d) where
  abbrev k_of : List A → ℕ → ℕ
  k_of h i = key c d law h i

  -- In order but for the edges below `i`; those reach over it.
  pub record IsLoose (lo n : ℕ) (h : List A) (i : ℕ) : Type 0 where
    pub others :
        (k : ℕ) → 0 < k → k < n → lo ≤ parent k → parent k ≢ i → k_of h (parent k) ≤ k_of h k
    pub over :
        (k : ℕ)
        → 0 < k
        → k < n
        → parent k ≡ i
        → 0 < i
        → lo ≤ parent i
        → k_of h (parent i) ≤ k_of h k

  -- A child of `i` that is not above the other one.
  record IsLeast (n : ℕ) (h : List A) (i j : ℕ) : Type 0 where
    inside : j < n
    of_i : (j ≡ leftchild i) ⊎ (j ≡ rightchild i)
    least : (k : ℕ) → 0 < k → k < n → parent k ≡ i → k_of h j ≤ k_of h k

  child-IsLeast :
      (h : List A) (n i : ℕ)
      → n ≤ length h
      → leftchild i < n
      → (j : ℕ) × (child c h n i ≡ some j) × IsLeast n h i j
  unfolding child
  child-IsLeast h n i room low = elim (Bool-cases (ltb (rightchild i) n)) [
    | inl t ↦
        let two : rightchild i < n = ground (arith, t) in
        let x = get_or h (leftchild i) d in
        let y = get_or h (rightchild i) d in
        let at_l = at-get_or c d law h (leftchild i) (omega arith) in
        let at_r = at-get_or c d law h (rightchild i) (omega arith) in
        elim (Bool-cases (c.gt x y)) [
          | inl g ↦
              let above : law.rank y < law.rank x = ground (arith, law.gt_rank x y, g) in
              (
                rightchild i,
                rw (t, at_l, at_r, g) refl,
                record {
                  inside = two;
                  of_i = inr refl;
                  least = λ k pos inside p. elim (children_of k i pos p) [
                    | inl e ↦ rw e (omega arith)
                    | inr e ↦ rw e (le_refl _)
                  ];
                },
              )
          | inr g ↦
              let below : law.rank x ≤ law.rank y = ground (arith, law.gt_rank x y, g) in
              (
                leftchild i,
                rw (t, at_l, at_r, g) refl,
                record {
                  inside = low;
                  of_i = inl refl;
                  least = λ k pos inside p. elim (children_of k i pos p) [
                    | inl e ↦ rw e (le_refl _)
                    | inr e ↦ rw e below
                  ];
                },
              )
        ]
    | inr f ↦ (
      leftchild i,
      rw f refl,
      record {
        inside = low;
        of_i = inl refl;
        least = λ k pos inside p.
            let only : k ≡ leftchild i = ground (arith, f, p) in rw only (le_refl _);
      },
    )
  ]

  swap-IsLoose :
      (lo n : ℕ) (h : List A) (i j : ℕ)
      → n ≤ length h
      → IsLoose lo n h i
      → IsLeast n h i j
      → k_of h j < k_of h i
      → IsLoose lo n (swap_elems d h i j) j
  swap-IsLoose lo n h i j room loose s below =
      let seen = λ (k : ℕ).
        key-swap_elems c d law h i j k (omega (arith, s.inside, s.of_i))
          (omega (arith, s.inside)) in
      record {
        others = λ k pos inside top ne.
            ground
              (arith, seen k, seen (parent k), loose.others k, loose.over j, s.least k, s.of_i);
        over = λ k pos inside p pj top.
            ground (arith, seen k, seen (parent j), loose.others k, s.of_i);
      }

  -- What sifting gives: the array in order, and its elements.
  pub record Sifted (lo n : ℕ) (h : List A) (r : Option (List A)) : Type ℓ where
    pub result : List A
    pub returns : r ≡ some result
    pub ordered : IsOrdered c d law lo n result
    pub elements : Rearranged c d law n h result

  pub Sifted-swap :
      (lo n : ℕ) (h : List A) (i j : ℕ) {r : Option (List A)}
      → i < n
      → j < n
      → n ≤ length h
      → Sifted lo n (swap_elems d h i j) r
      → Sifted lo n h r
  Sifted-swap lo n h i j hi hj room s = record {
    result = s.result;
    returns = s.returns;
    ordered = s.ordered;
    elements =
        Rearranged-trans c d law n h (swap_elems d h i j) s.result
          (swap_elems-Rearranged c d law n h i j hi hj room) s.elements;
  }

  siftdown_turn :
      (turns : ℕ) (h h' : List A) (n i j : ℕ) (x y : A)
      → leb (n / 2) i ≡ false
      → child c h n i ≡ some j
      → at c h i ≡ some x
      → at c h j ≡ some y
      → c.gt x y ≡ true
      → c.swap h i j ≡ h'
      → siftdown_loop c (suc turns) h n i ≡ siftdown_loop c turns h' n j
  unfolding siftdown_loop is_leaf
  siftdown_turn turns h h' n i j x y inner e at_i at_j g swapped =
      rw (inner, e, at_i, at_j, g, swapped) refl

  module _ (lo n : ℕ) where
    siftdown_loop-Sifted :
        (turns : ℕ) (h : List A) (i : ℕ)
        → n ≤ length h
        → i < n
        → n < turns + i
        → IsLoose lo n h i
        → Sifted lo n h (siftdown_loop c turns h n i)
    unfolding siftdown_loop is_leaf
    siftdown_loop-Sifted zero h i room low enough loose = absurd (omega arith)
    siftdown_loop-Sifted (suc turns) h i room low enough loose = elim (Bool-cases (leb (n / 2) i)) [
      | inl t ↦
          let here : ltb i n ≡ true = lt→ltb i n low in
          let bottom : n / 2 ≤ i = ground (arith, t) in
          record {
            result = h;
            returns = rw (t, here) refl;
            ordered = λ k pos inside top. loose.others k pos inside top (λ e. absurd (omega arith));
            elements = Rearranged-refl c d law n h;
          }
      | inr f ↦
          let inner : leftchild i < n = ground (arith, f) in
          let (j, e, s) = child-IsLeast h n i room inner in
          let x = get_or h i d in
          let y = get_or h j d in
          let at_i = at-get_or c d law h i (omega arith) in
          let at_j = at-get_or c d law h j (omega (arith, s.inside)) in
          elim (Bool-cases (c.gt x y)) [
            | inr g ↦
                let right : law.rank x ≤ law.rank y = ground (arith, law.gt_rank x y, g) in
                record {
                  result = h;
                  returns = rw (f, e, at_i, at_j, g) refl;
                  ordered = λ k pos inside top. ground (arith, loose.others k, s.least k, right);
                  elements = Rearranged-refl c d law n h;
                }
            | inl g ↦
                let below : law.rank y < law.rank x = ground (arith, law.gt_rank x y, g) in
                let h' = swap_elems d h i j in
                let long = length-swap_elems d h i j in
                let swapped = law.exchange h i j (omega arith) (omega (arith, s.inside)) in
                let later =
                  siftdown_loop-Sifted turns h' j (omega (arith, long, room)) s.inside
                    (omega (arith, s.of_i)) (swap-IsLoose lo n h i j room loose s below) in
                let all = Sifted-swap lo n h i j low s.inside room later in
                record {
                  result = all.result;
                  returns =
                      siftdown_turn turns h h' n i j x y f e at_i at_j g swapped ∙ all.returns;
                  ordered = all.ordered;
                  elements = all.elements;
                }
          ]
    ]

    pub siftdown-Sifted :
        (h : List A) (i : ℕ)
        → n ≤ length h
        → i < n
        → IsLoose lo n h i
        → Sifted lo n h (siftdown c h n i)
    unfolding siftdown
    siftdown-Sifted h i room low loose =
        siftdown_loop-Sifted (length h + 1) h i room low (omega arith) loose

  build_down-Sifted :
      (n i : ℕ) (h : List A)
      → n ≤ length h
      → i ≤ n
      → IsOrdered c d law i n h
      → Sifted 0 n h (build_down c h n i)
  unfolding build_down
  build_down-Sifted n zero h room low ordered = record {
    result = h;
    returns = refl;
    ordered = ordered;
    elements = Rearranged-refl c d law n h;
  }
  build_down-Sifted n (suc i) h room low ordered =
      let s = siftdown-Sifted i n h i room low (record {
        others = λ k pos inside top ne. ordered k pos inside (omega (arith, ne));
        over = λ k pos inside p pi top. absurd (omega arith);
      }) in
      let later =
        build_down-Sifted n i s.result (omega (arith, room, s.elements.same_length)) (omega arith)
          s.ordered in
      record {
        result = later.result;
        returns = rw s.returns later.returns;
        ordered = later.ordered;
        elements = Rearranged-trans c d law n h s.result later.result s.elements later.elements;
      }

  -- From position n / 2 on there are no parents.
  pub build-Sifted : (n : ℕ) (h : List A) → n ≤ length h → Sifted 0 n h (build_down c h n (n / 2))
  build-Sifted n h room =
      build_down-Sifted n (n / 2) h room (omega arith) (λ k pos inside top. absurd (omega arith))
