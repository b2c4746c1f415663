-- ===== src/Minheap/Order.antt =====
-- The heap order, and what an exchange does to it.
use mathlib.Core.List.{Perm}
use mathlib.Core.List.Perm
use portable_lib.Prelude.{
  ℕ, zero, suc, ◌≤◌, ◌<◌, false, some, List, [], ◌∷◌, ◌≡◌, ◌≢◌, refl, sym, ap, ◌∙◌, subst, inl, inr,
  arith, if◌then◌else◌, ◌==◌, ltb, Bool-cases, set, get_or, take, length, length-set, length-take,
  get_or-set_self, get_or-set_ne,
}
use portable_lib.Vect.{swap_elems}
use portable_lib.Vect.Shuffled.{swap_elems-Perm, length-swap_elems, take-swap_elems}
use portable_lib.Minheap.{Comp, at, swap_at, parent}

-- The comparisons go by a number, and `swap` exchanges two elements; `d` is any element.
pub record IsLawful {ℓ} {A : Type ℓ} (c : Comp A) (d : A) : Type ℓ where
  pub rank : A → ℕ
  pub lt_rank : (x y : A) → c.lt x y ≡ ltb (rank x) (rank y)
  pub gt_rank : (x y : A) → c.gt x y ≡ ltb (rank y) (rank x)
  pub exchange :
      (h : List A) (i j : ℕ) → i < length h → j < length h → c.swap h i j ≡ swap_elems d h i j

module _ {ℓ} {A : Type ℓ} (c : Comp A) (d : A) (law : IsLawful c d) where
  abbrev pub key : List A → ℕ → ℕ
  key h i = law.rank (get_or h i d)

  pub at-get_or : (h : List A) (i : ℕ) → i < length h → at c h i ≡ some (get_or h i d)
  unfolding at
  at-get_or [] i low = absurd (omega arith)
  at-get_or (x ∷ h) zero low = refl
  at-get_or (x ∷ h) (suc i) low = at-get_or h i (omega arith)

  pub swap_at-swap_elems :
      (h : List A) (i j : ℕ)
      → i < length h
      → j < length h
      → swap_at c h i j ≡ some (swap_elems d h i j)
  unfolding swap_at
  swap_at-swap_elems h i j hi hj =
      rw (at-get_or h i hi, at-get_or h j hj, law.exchange h i j hi hj) refl

  pub get_or-swap_elems :
      (h : List A) (i j k : ℕ)
      → i < length h
      → j < length h
      → get_or (swap_elems d h i j) k d
        ≡ (if j == k then get_or h i d else if i == k then get_or h j d else get_or h k d)
  unfolding swap_elems
  get_or-swap_elems h i j k hi hj =
      let first = set h i (get_or h j d) in
      elim (Bool-cases (j == k)) [
        | inl t ↦
            let same : j ≡ k = ground (arith, t) in
            rw (t, sym same)
              (get_or-set_self first j (get_or h i d) d
                (omega (arith, length-set h i (get_or h j d))))
        | inr f ↦
            let ne : j ≢ k = λ e. absurd (ground (arith, f, e)) in
            rw (f, get_or-set_ne first (get_or h i d) d ne)
              (elim (Bool-cases (i == k)) [
                | inl u ↦
                    let same : i ≡ k = ground (arith, u) in
                    rw (u, sym same) (get_or-set_self h i (get_or h j d) d hi)
                | inr g ↦
                    rw
                      (
                        g,
                        get_or-set_ne h (get_or h j d) d
                            (λ (e : i ≡ k). absurd (ground (arith, g, e))),
                      )
                      refl
              ])
      ]

  pub key-swap_elems :
      (h : List A) (i j k : ℕ)
      → i < length h
      → j < length h
      → key (swap_elems d h i j) k
        ≡ (if j == k then key h i else if i == k then key h j else key h k)
  key-swap_elems h i j k hi hj =
      ap law.rank (get_or-swap_elems h i j k hi hj) ∙ elim (Bool-cases (j == k)) [
        | inl t ↦ rw t refl
        | inr f ↦ rw f (elim (Bool-cases (i == k)) [ inl u ↦ rw u refl | inr g ↦ rw g refl ])
      ]

  -- The elements before position `n` stand in order along each edge whose parent is `lo` or later.
  abbrev pub IsOrdered : (lo n : ℕ) → List A → Type 0
  IsOrdered lo n h = (k : ℕ) → 0 < k → k < n → lo ≤ parent k → key h (parent k) ≤ key h k

  -- An array of the same length, with the same elements before `n` and behind it the same ones.
  pub record Rearranged (n : ℕ) (h h' : List A) : Type ℓ where
    pub same_length : length h' ≡ length h
    pub front : Perm (take n h') (take n h)
    pub behind : (k : ℕ) → n ≤ k → get_or h' k d ≡ get_or h k d

  pub Rearranged-refl : (n : ℕ) (h : List A) → Rearranged n h h
  Rearranged-refl n h = record {
    same_length = refl;
    front = Perm.refl (take n h);
    behind = λ k low. refl;
  }

  pub Rearranged-trans :
      (n : ℕ) (h1 h2 h3 : List A) → Rearranged n h1 h2 → Rearranged n h2 h3 → Rearranged n h1 h3
  Rearranged-trans n h1 h2 h3 p q = record {
    same_length = q.same_length ∙ p.same_length;
    front = Perm.trans q.front p.front;
    behind = λ k low. q.behind k low ∙ p.behind k low;
  }

  pub swap_elems-Rearranged :
      (n : ℕ) (h : List A) (i j : ℕ)
      → i < n
      → j < n
      → n ≤ length h
      → Rearranged n h (swap_elems d h i j)
  swap_elems-Rearranged n h i j hi hj room = record {
    same_length = length-swap_elems d h i j;
    front =
        subst (λ l. Perm l (take n h)) (sym (take-swap_elems d h n i j hi hj))
          (swap_elems-Perm d (take n h) i j (omega (arith, length-take h n room))
            (omega (arith, length-take h n room)));
    behind = λ k low.
        let not_j : (j == k) ≡ false = ground arith in
        let not_i : (i == k) ≡ false = ground arith in
        get_or-swap_elems h i j k (omega arith) (omega arith) ∙ rw (not_j, not_i) refl;
  }
