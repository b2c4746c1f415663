-- ===== src/Bloom/Loops.antt =====
-- The loops that write slots, seen through any view of the memory.
use portable_lib.Prelude.{
  ℕ, zero, suc, ◌+◌, ◌*◌, ◌/◌, ◌<◌, ◌≤◌, Bool, false, ◌&&◌, List, ◌≡◌, refl, sym, ap, ◌∙◌, inl, inr,
  arith, if◌then◌else◌, ◌==◌, leb, Bool-cases, length,
}
use portable_lib.Bloom.{for_slots, place}
use portable_lib.Bloom.Places.{IsSized, place-lt, place-div, has_slot}

-- The slots for `z` in the partitions from `i` on, of which there are `left`.
unfoldable pub within : (m z i left j : ℕ) → Bool
unfolding has_slot
within m z i left j = leb i (j / m) && has_slot m (i + left) z j

within-zero : (m z i j : ℕ) → within m z i 0 j ≡ false
unfolding within
within-zero m z i j = ground arith

-- A view of the memory on which a write to a slot acts by `f`, and only there.
module _ {ℓ} {V : Type ℓ} (view : List ℕ → ℕ → V) (f : V → V) (write : List ℕ → ℕ → List ℕ)
    (room n : ℕ) (keeps : (bm : List ℕ) (s : ℕ) → length bm ≡ n → length (write bm s) ≡ n)
    (effect : (bm : List ℕ) (s j : ℕ)
      → length bm ≡ n
      → s < room
      → view (write bm s) j ≡ (if s == j then f (view bm j) else view bm j)) where
  pub length-for_slots :
      (m z i left : ℕ) (bm : List ℕ) → length bm ≡ n → length (for_slots write m z i left bm) ≡ n
  unfolding for_slots
  length-for_slots m z i zero bm h = h
  length-for_slots m z i (suc left) bm h =
      length-for_slots m z (i + 1) left (write bm (place m z i)) (keeps bm _ h)

  -- A turn of the loop and the later ones, seen at one slot.
  within_turn :
      (m k z i left j : ℕ) (x : V)
      → IsSized m k
      → i + suc left ≤ k
      → (if within m z (i + 1) left j
          then f (if place m z i == j then f x else x)
          else (if place m z i == j then f x else x))
        ≡ (if within m z i (suc left) j then f x else x)
  unfolding within
  within_turn m k z i left j x sized h =
      let at_i = place-div m k z i sized (omega arith) in
      let e : i + 1 + left ≡ i + suc left = omega arith in
      rw e (elim (Bool-cases (place m z i == j)) [
        | inl here ↦
            let same : place m z i ≡ j = ground (arith, here) in
            let num : j / m ≡ i = ap (λ t. t / m) (sym same) ∙ at_i in ground (arith, num, here)
        | inr there ↦ rw there (elsewhere there)
      ])
    where
      elsewhere :
          (place m z i == j) ≡ false
          → (if leb (i + 1) (j / m) && has_slot m (i + suc left) z j then f x else x)
            ≡ (if leb i (j / m) && has_slot m (i + suc left) z j then f x else x)
      elsewhere there = elim (Bool-cases (i == j / m)) [
        | inl e ↦ let num : j / m ≡ i = ground (arith, e) in ground (arith, num, there)
        | inr e ↦ ground (arith, e)
      ]

  pub for_slots-view :
      (m k z i left : ℕ) (bm : List ℕ) (j : ℕ)
      → IsSized m k
      → length bm ≡ n
      → m * k ≤ room
      → i + left ≤ k
      → view (for_slots write m z i left bm) j
        ≡ (if within m z i left j then f (view bm j) else view bm j)
  unfolding for_slots
  for_slots-view m k z i zero bm j sized h r b = rw (within-zero m z i j) refl
  for_slots-view m k z i (suc left) bm j sized h r b =
      let p = place m z i in
      let low : p < room = omega (arith, place-lt m k z i sized (omega arith)) in
      for_slots-view m k z (i + 1) left (write bm p) j sized (keeps bm p h) r (omega arith)
      ∙ rw (effect bm p j h low) (within_turn m k z i left j (view bm j) sized b)
