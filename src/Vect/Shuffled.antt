-- ===== src/Vect/Shuffled.antt =====
-- A shuffled vector holds the same elements.
use mathlib.Core.List.{Perm}
use mathlib.Core.List.Perm
use native.Mathlib.Nat.{mod-lt}
use portable_lib.Prelude.{
  ℕ, zero, suc, ◌+◌, ◌-◌, ◌%◌, ◌<◌, ◌^◌, false, true, some, ltb, u32_mod, sub64, List, [], ◌∷◌, ◌≡◌,
  refl, sym, ap, ◌∙◌, subst, inl, inr, arith, ◌==◌, Bool-cases, set, get_or, take, length,
  length-set, get_or-set_self, get_or-set_ne, get_or-take,
}
use portable_lib.Vect.{Vect, swap_elems, shuffle_down, vect_shuffle}
use portable_lib.Vect.Room.{IsValid, contents}
use portable_lib.Vect.Ends.{length-contents}

module _ {ℓ} {A : Type ℓ} (d : A) where
  -- An element for another.
  pub set-Perm :
      (l : List A) (i : ℕ) (y : A) → i < length l → Perm (get_or l i d ∷ set l i y) (y ∷ l)
  set-Perm [] i y h = absurd (omega arith)
  set-Perm (x ∷ l) zero y h = Perm.swap y x l
  set-Perm (x ∷ l) (suc i) y h =
      Perm.trans (Perm.swap x (get_or l i d) (set l i y))
        (Perm.trans (Perm.cons x (set-Perm l i y (omega arith))) (Perm.swap y x l))

  get_or-set_same :
      (l : List A) (i j : ℕ) → i < length l → get_or (set l i (get_or l j d)) j d ≡ get_or l j d
  get_or-set_same l i j h = elim (Bool-cases (i == j)) [
    | inl t ↦
        let same : i ≡ j = ground (arith, t) in
        ap (λ k. get_or (set l i (get_or l j d)) k d) (sym same)
        ∙ get_or-set_self l i (get_or l j d) d h
    | inr f ↦ get_or-set_ne l (get_or l j d) d (λ (e : i ≡ j). absurd (ground (arith, f, e)))
  ]

  pub swap_elems-Perm :
      (l : List A) (i j : ℕ) → i < length l → j < length l → Perm (swap_elems d l i j) l
  unfolding swap_elems
  swap_elems-Perm l i j hi hj =
      let a = get_or l i d in
      let b = get_or l j d in
      let l' = set l i b in
      let second : Perm (b ∷ set l' j a) (a ∷ l') =
        subst (λ x. Perm (x ∷ set l' j a) (a ∷ l')) (get_or-set_same l i j hi)
          (set-Perm l' j a (omega (arith, length-set l i b))) in
      Perm.cons_inv (Perm.trans second (set-Perm l i b hi))

  pub length-swap_elems : (l : List A) (i j : ℕ) → length (swap_elems d l i j) ≡ length l
  unfolding swap_elems
  length-swap_elems l i j =
      length-set (set l i (get_or l j d)) j (get_or l i d) ∙ length-set l i (get_or l j d)

  shuffle_down-Perm :
      (rnd : ℕ → ℕ) (l : List A) (i : ℕ) → i < length l → Perm (shuffle_down d rnd l i) l
  unfolding shuffle_down
  shuffle_down-Perm rnd l zero h = Perm.refl l
  shuffle_down-Perm rnd l (suc i) h =
      let j = rnd (suc i) % (suc i + 1) in
      let low : j < suc i + 1 = mod-lt (rnd (suc i)) (omega arith) in
      let l' = swap_elems d l (suc i) j in
      Perm.trans (shuffle_down-Perm rnd l' i (omega (arith, length-swap_elems l (suc i) j)))
        (swap_elems-Perm l (suc i) j h (omega (arith, low)))

  pub take-set_in : (l : List A) (n i : ℕ) (x : A) → i < n → take n (set l i x) ≡ set (take n l) i x
  take-set_in l zero i x h = absurd (omega arith)
  take-set_in [] (suc n) i x h = refl
  take-set_in (y ∷ l) (suc n) zero x h = refl
  take-set_in (y ∷ l) (suc n) (suc i) x h = ap (λ r. y ∷ r) (take-set_in l n i x (omega arith))

  pub take-swap_elems :
      (l : List A) (n i j : ℕ)
      → i < n
      → j < n
      → take n (swap_elems d l i j) ≡ swap_elems d (take n l) i j
  unfolding swap_elems
  take-swap_elems l n i j hi hj =
      take-set_in (set l i (get_or l j d)) n j (get_or l i d) hj
      ∙ rw (take-set_in l n i (get_or l j d) hi, get_or-take l i n d hi, get_or-take l j n d hj)
          refl

  take-shuffle_down :
      (rnd : ℕ → ℕ) (l : List A) (n i : ℕ)
      → i < n
      → take n (shuffle_down d rnd l i) ≡ shuffle_down d rnd (take n l) i
  unfolding shuffle_down
  take-shuffle_down rnd l n zero h = refl
  take-shuffle_down rnd l n (suc i) h =
      let j = rnd (suc i) % (suc i + 1) in
      let low : j < suc i + 1 = mod-lt (rnd (suc i)) (omega arith) in
      take-shuffle_down rnd (swap_elems d l (suc i) j) n i (omega arith)
      ∙ ap (λ k. shuffle_down d rnd k i) (take-swap_elems l n (suc i) j h (omega (arith, low)))

  length-shuffle_down :
      (rnd : ℕ → ℕ) (l : List A) (i : ℕ) → length (shuffle_down d rnd l i) ≡ length l
  unfolding shuffle_down
  length-shuffle_down rnd l zero = refl
  length-shuffle_down rnd l (suc i) =
      let j = rnd (suc i) % (suc i + 1) in
      length-shuffle_down rnd (swap_elems d l (suc i) j) i ∙ length-swap_elems l (suc i) j

  rearranged :
      (rnd : ℕ → ℕ) (l : List A) (n : ℕ)
      → length (take n l) ≡ n
      → Perm (take n (shuffle_down d rnd l (n - 1))) (take n l)
  rearranged rnd l zero len = Perm.refl []
  rearranged rnd l (suc n) len =
      subst (λ x. Perm x (take (suc n) l))
        (sym (take-shuffle_down rnd l (suc n) (suc n - 1) (omega arith)))
        (shuffle_down-Perm rnd (take (suc n) l) (suc n - 1) (omega (arith, len)))

  -- Whatever random numbers are drawn, VECT_SHUFFLE of a valid vector of less than 2^31 elements returns,
  -- keeps it valid and of the same size and rearranges its elements.
  pub vect_shuffle-Perm :
      (null : A) (v : Vect A) (rnd : ℕ → ℕ)
      → IsValid v
      → v.size < 2 ^ 31
      → (w : Vect A) × (vect_shuffle null d v rnd ≡ some w)
        × IsValid w
        × (w.size ≡ v.size)
        × Perm (contents w) (contents v)
  unfolding vect_shuffle
  vect_shuffle-Perm null v rnd h small = elim (Bool-cases (v.size == 0)) [
    | inl t ↦
        let e : ltb (sub64 v.size 1 % u32_mod) (2 ^ 31) ≡ false = ground (arith, t) in
        (v, rw e refl, h, refl, Perm.refl (contents v))
    | inr f ↦
        let i : sub64 v.size 1 % u32_mod ≡ v.size - 1 = ground (arith, f, small) in
        let low : ltb (v.size - 1) (2 ^ 31) ≡ true = ground (arith, small) in
        let last : (v.size - 1 == 2 ^ 31 - 1) ≡ false = ground (arith, small) in
        (
          record v { arr = shuffle_down d rnd v.arr (v.size - 1) },
          rw (i, low, last) refl,
          record {
            in_cap = h.in_cap;
            array = length-shuffle_down rnd v.arr (v.size - 1) ∙ h.array;
            some_room = h.some_room;
            low_cap = h.low_cap;
          },
          refl,
          rearranged rnd v.arr v.size (length-contents v h),
        )
  ]
