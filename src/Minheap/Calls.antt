-- ===== src/Minheap/Calls.antt =====
-- The calls on a heap.
use mathlib.Core.List.{Perm, perm_middle}
use mathlib.Core.List.Perm
use portable_lib.Prelude.{
  ℕ, zero, suc, ◌+◌, ◌-◌, ◌≤◌, ◌<◌, Bool, true, false, Option, none, some, List, [], ◌∷◌, ◌++◌,
  append-nil, ◌≡◌, ◌≢◌, refl, sym, ap, ◌∙◌, subst, inl, inr, arith, if◌then◌else◌, ◌==◌, leb,
  Bool-cases, set, get_or, take, length, length-set, get_or-set_ne, take_more,
}
use portable_lib.Vect.{swap_elems}
use portable_lib.Vect.Shifts.{take-suc}
use portable_lib.Vect.Shuffled.{length-swap_elems}
use portable_lib.Minheap.{Comp, Minheap, parent, siftdown, minheap, insert, removemin}
use portable_lib.Minheap.Order.{
  IsLawful, key, at-get_or, swap_at-swap_elems, key-swap_elems, IsOrdered, Rearranged,
  Rearranged-refl, swap_elems-Rearranged, get_or-swap_elems,
}
use portable_lib.Minheap.Down.{Sifted, siftdown-Sifted, build-Sifted}
use portable_lib.Minheap.Up.{siftup_loop-Sifted}

module _ {ℓ} {A : Type ℓ} (c : Comp A) (d : A) (law : IsLawful c d) where
  abbrev pub contents : Minheap A → List A
  contents m = take m.n m.heap

  pub record IsHeap (m : Minheap A) : Type ℓ where
    pub in_array : m.n ≤ length m.heap
    pub ordered : IsOrdered c d law 0 m.n m.heap

  -- On an array with room for num elements the constructor returns a heap of these elements.
  pub minheap-IsHeap :
      (h : List A) (num : ℕ)
      → num ≤ length h
      → (m : Minheap A) × (minheap c h num ≡ some m) × IsHeap m × Perm (contents m) (take num h)
  unfolding minheap
  minheap-IsHeap h num room =
      let s = build-Sifted c d law num h room in
      (
        record { heap = s.result; n = num },
        rw s.returns refl,
        record { in_array = omega (arith, s.elements.same_length, room); ordered = s.ordered },
        s.elements.front,
      )

  -- A call has to have a result.
  pub data NoResult : Type ℓ where

  -- What insert does: it adds the element where there is room, and nothing where there is none.
  abbrev pub IsInserted : Minheap A → A → Option (Minheap A × Bool) → Type ℓ
  IsInserted m val none = NoResult
  IsInserted m val (some (m', true)) =
      (m.n < length m.heap) × IsHeap m' × Perm (contents m') (contents m ++ (val ∷ []))
  IsInserted m val (some (m', false)) = (length m.heap ≤ m.n) × (m' ≡ m)

  insert_room :
      (m : Minheap A) (val : A) → IsHeap m → m.n < length m.heap → IsInserted m val (insert c m val)
  unfolding insert
  insert_room m val heap room =
      let h = set m.heap m.n val in
      let long = length-set m.heap m.n val in
      let kept = λ (k : ℕ) (ne : m.n ≢ k). ap law.rank (get_or-set_ne m.heap val d ne) in
      let s =
        siftup_loop-Sifted c d law (m.n + 1) (m.n + 1) h m.n (omega (arith, long, room))
          (omega arith) (omega arith)
          (record {
            others = λ k pos inside ne. ground (
              arith,
              kept k (λ (e : m.n ≡ k). absurd (ne (sym e))),
              kept (parent k) (λ (e : m.n ≡ parent k). absurd (omega arith)),
              heap.ordered k,
            );
            over = λ k pos inside e top. absurd (omega arith);
          }) in
      let fits : leb (length m.heap) m.n ≡ false = ground arith in
      rw (fits, s.returns)
        (
          room,
          record {
            in_array = omega (arith, s.elements.same_length, long, room);
            ordered = s.ordered;
          },
          subst (λ l. Perm (take (m.n + 1) s.result) l) (take_more m.heap m.n val room)
              s.elements.front,
        )

  -- On a heap insert returns: true with a heap that holds the element too if the array has room, and
  -- false with the heap as it was if it has none.
  pub insert-IsInserted : (m : Minheap A) (val : A) → IsHeap m → IsInserted m val (insert c m val)
  unfolding insert
  insert-IsInserted m val heap = elim (Bool-cases (leb (length m.heap) m.n)) [
    | inl t ↦ rw t (ground (arith, t), refl)
    | inr f ↦ insert_room m val heap (ground (arith, f))
  ]

  root_below :
      (k i n : ℕ) (h : List A)
      → IsOrdered c d law 0 n h
      → i < k
      → i < n
      → key c d law h 0 ≤ key c d law h i
  root_below zero i n h ordered low inside = absurd (omega arith)
  root_below (suc k) zero n h ordered low inside = omega arith
  root_below (suc k) (suc i) n h ordered low inside = omega (
    arith,
    root_below k (parent (suc i)) n h ordered (omega arith) (omega arith),
    ordered (suc i) (omega arith) inside (omega arith),
  )

  -- What removemin does: it takes out an element that is not above any other, if there is one.
  abbrev pub IsRemoved : Minheap A → Option (Minheap A × Option A) → Type ℓ
  IsRemoved m none = NoResult
  IsRemoved m (some (m', some it)) =
      IsHeap m'
      × Perm (it ∷ contents m') (contents m)
      × ((k : ℕ) → k < m.n → law.rank it ≤ key c d law m.heap k)
  IsRemoved m (some (m', none)) = (m.n ≡ 0) × (m' ≡ m)

  -- The array before the sift, and after it.
  module _ (h : List A) (n : ℕ) (room : n < length h)
      (ordered : IsOrdered c d law 0 (n + 1) h) where
    abbrev exchanged : List A
    exchanged = swap_elems d h 0 n

    root-Sifted :
        Sifted c d law 0 n exchanged (if n == 0 then some exchanged else siftdown c exchanged n 0)
    root-Sifted = elim (Bool-cases (n == 0)) [
      | inl t ↦
          let nothing : n ≡ 0 = ground (arith, t) in
          rw t (record {
            result = exchanged;
            returns = refl;
            ordered = λ k pos inside top. absurd (omega arith);
            elements = Rearranged-refl c d law n exchanged;
          })
      | inr f ↦
          let pos : 0 < n = ground (arith, f) in
          let long = length-swap_elems d h 0 n in
          rw f (
            siftdown-Sifted c d law 0 n exchanged 0 (omega (arith, long, room)) pos (record {
              others = λ k pk inside top ne. ground (
                arith,
                key-swap_elems c d law h 0 n k (omega arith) room,
                key-swap_elems c d law h 0 n (parent k) (omega arith) room,
                ordered k,
              );
              over = λ k pk inside e none_above top. absurd (omega arith);
            }))
    ]

    -- The last element is the old root.
    taken_out : (l : List A) → Rearranged c d law n exchanged l → get_or l n d ≡ get_or h 0 d
    taken_out l r =
        r.behind n (omega arith)
        ∙ get_or-swap_elems c d law h 0 n n (omega arith) room
        ∙ ground arith

    all_there :
        (l : List A)
        → Rearranged c d law n exchanged l
        → Perm (get_or h 0 d ∷ take n l) (take (n + 1) h)
    all_there l r =
        let more : n + 1 ≡ suc n = omega arith in
        let swapped =
          swap_elems-Rearranged c d law (n + 1) h 0 n (omega arith) (omega arith) (omega arith) in
        let low : n < length exchanged = omega (arith, length-swap_elems d h 0 n, room) in
        let last : get_or exchanged n d ≡ get_or h 0 d =
          get_or-swap_elems c d law h 0 n n (omega arith) room ∙ ground arith in
        let split : take (n + 1) exchanged ≡ take n exchanged ++ (get_or h 0 d ∷ []) =
          rw more (take-suc d exchanged n low ∙ ap (λ x. take n exchanged ++ (x ∷ [])) last) in
        let front : Perm (take n exchanged ++ (get_or h 0 d ∷ [])) (take (n + 1) h) =
          subst (λ p. Perm p (take (n + 1) h)) split swapped.front in
        let moved : Perm (take n exchanged ++ (get_or h 0 d ∷ []))
            (get_or h 0 d ∷ take n exchanged) =
          subst (λ p. Perm (take n exchanged ++ (get_or h 0 d ∷ [])) (get_or h 0 d ∷ p))
            (append-nil (take n exchanged)) (perm_middle (take n exchanged) []) in
        Perm.trans (Perm.cons (get_or h 0 d) r.front) (Perm.trans (Perm.symm moved) front)

  removemin_some : (m : Minheap A) (n : ℕ) → m.n ≡ n + 1 → IsHeap m → IsRemoved m (removemin c m)
  unfolding removemin
  removemin_some m n e heap =
      let h = m.heap in
      let room : n < length h = omega (arith, e, heap.in_array) in
      let ordered : IsOrdered c d law 0 (n + 1) h =
        λ k pos inside top. heap.ordered k pos (omega arith) top in
      let s = root-Sifted h n room ordered in
      let inside : n < length s.result =
        omega (arith, s.elements.same_length, length-swap_elems d h 0 n, room) in
      let some_left : (m.n == 0) ≡ false = ground (arith, e) in
      let last : m.n - 1 ≡ n = omega arith in
      let it =
        at-get_or c d law s.result n inside
        ∙ ap some (taken_out h n room ordered s.result s.elements) in
      rw (some_left, last, swap_at-swap_elems c d law h 0 n (omega arith) room, s.returns, it)
        (
          record { in_array = omega arith; ordered = s.ordered },
          subst (λ k. Perm (get_or h 0 d ∷ take n s.result) (take k h)) (sym e)
              (all_there h n room ordered s.result s.elements),
          (λ k low. root_below (k + 1) k m.n h heap.ordered (omega arith) low),
        )

  -- On a heap removemin returns: if it has elements, one that is not above any of them, with a heap of
  -- the others, and else nothing, with the heap as it was.
  pub removemin-IsRemoved : (m : Minheap A) → IsHeap m → IsRemoved m (removemin c m)
  unfolding removemin
  removemin-IsRemoved m heap = elim (Bool-cases (m.n == 0)) [
    | inl t ↦ rw t (ground (arith, t), refl)
    | inr f ↦ removemin_some m (m.n - 1) (ground (arith, f)) heap
  ]
