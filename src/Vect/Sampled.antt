-- ===== src/Vect/Sampled.antt =====
-- VECT_SAMPLE draws from different positions.
use mathlib.Core.List.{Perm, perm_middle}
use mathlib.Core.List.Perm
use portable_lib.Prelude.{
  ◌⊎◌, ℕ, zero, suc, ◌+◌, ◌-◌, ◌%◌, ◌≤◌, ◌<◌, Bool, true, false, some, List, [], ◌∷◌, ◌++◌,
  append-nil, ◌≡◌, refl, sym, ◌∙◌, subst, inl, inr, arith, if◌then◌else◌, ltb, leb, Bool-cases, set,
  get_or, take, length, length-set, write_at, length-write_at, take-write_at, length-take,
}
use portable_lib.Vect.{Vect, sample_from, vect_sample}
use portable_lib.Vect.Shifts.{take-suc}
use portable_lib.Vect.Room.{IsValid, contents}
use portable_lib.Vect.Shuffled.{set-Perm, take-set_in}

module _ {ℓ} {A : Type ℓ} where
  -- The elements in `x` and others together are those of the first `i` of `y`.
  record IsDrawn (x y : List A) (k i : ℕ) : Type ℓ where
    left_out : List A
    all : Perm (take k x ++ left_out) (take i y)

  -- A valid vector with `k` elements, which together with others are those of `s`.
  pub record IsSample (s after : Vect A) (k : ℕ) : Type ℓ where
    pub valid : IsValid after
    pub size : after.size ≡ k
    pub left_out : List A
    pub all : Perm (contents after ++ left_out) (contents s)

module _ {ℓ} {A : Type ℓ} (junk : A) where
  keep-Perm :
      (t rest all : List A) (e : A)
      → Perm (t ++ rest) all
      → Perm (e ∷ (t ++ rest)) (all ++ (e ∷ []))
  keep-Perm t rest all e p = Perm.trans (Perm.cons e p) (
      Perm.symm (subst (λ l. Perm (all ++ (e ∷ [])) (e ∷ l)) (append-nil all) (perm_middle all [])))

  draw-Perm :
      (t rest all : List A) (j : ℕ) (e : A)
      → j < length t
      → Perm (t ++ rest) all
      → Perm (set t j e ++ (get_or t j junk ∷ rest)) (all ++ (e ∷ []))
  draw-Perm t rest all j e h p =
      Perm.trans (perm_middle (set t j e) rest)
        (Perm.trans (Perm.append_right rest (set-Perm junk t j e h)) (keep-Perm t rest all e p))

  skip-Perm :
      (t rest all : List A) (e : A)
      → Perm (t ++ rest) all
      → Perm (t ++ (e ∷ rest)) (all ++ (e ∷ []))
  skip-Perm t rest all e p = Perm.trans (perm_middle t rest) (keep-Perm t rest all e p)

  -- One turn of the second loop.
  turn-IsDrawn :
      (x y : List A) (k i j : ℕ)
      → k ≤ length x
      → i < length y
      → IsDrawn x y k i
      → IsDrawn (if ltb j k then set x j (get_or y i junk) else x) y k (i + 1)
  turn-IsDrawn x y k i j room h drawn =
      let e = get_or y i junk in
      let e' : i + 1 ≡ suc i = omega arith in
      let more : take i y ++ (e ∷ []) ≡ take (i + 1) y = rw e' (sym (take-suc junk y i h)) in
      elim (Bool-cases (ltb j k)) [
        | inl t ↦
            let low : j < k = ground (arith, t) in
            rw t (record {
              left_out = get_or (take k x) j junk ∷ drawn.left_out;
              all = rw (take-set_in junk x k j e low) (
                  subst (Perm (set (take k x) j e ++ (get_or (take k x) j junk ∷ drawn.left_out)))
                    more
                    (draw-Perm (take k x) drawn.left_out (take i y) j e
                      (omega (arith, length-take x k room, low)) drawn.all));
            })
        | inr f ↦ rw f (record {
          left_out = e ∷ drawn.left_out;
          all =
              subst (Perm (take k x ++ (e ∷ drawn.left_out))) more
                (skip-Perm (take k x) drawn.left_out (take i y) e drawn.all);
        })
      ]

  length-choice :
      (b : Bool) (x : List A) (j : ℕ) (e : A) → length (if b then set x j e else x) ≡ length x
  length-choice true x j e = length-set x j e
  length-choice false x j e = refl

  sample_from-IsDrawn :
      (rnd : ℕ → ℕ) (k : ℕ) (x y : List A) (i left : ℕ)
      → k ≤ length x
      → i + left ≤ length y
      → IsDrawn x y k i
      → IsDrawn (sample_from junk rnd k x y i left) y k (i + left)
  unfolding sample_from
  sample_from-IsDrawn rnd k x y i zero room h drawn = let e : i + 0 ≡ i = omega arith in rw e drawn
  sample_from-IsDrawn rnd k x y i (suc left) room h drawn =
      let e : i + suc left ≡ i + 1 + left = omega arith in
      let j = rnd i % (i + 1) in
      rw e (
        sample_from-IsDrawn rnd k (if ltb j k then set x j (get_or y i junk) else x) y (i + 1) left
          (omega (arith, length-choice (ltb j k) x j (get_or y i junk))) (omega arith)
          (turn-IsDrawn x y k i j room (omega arith) drawn))

  length-sample_from :
      (rnd : ℕ → ℕ) (k : ℕ) (x y : List A) (i left : ℕ)
      → length (sample_from junk rnd k x y i left) ≡ length x
  unfolding sample_from
  length-sample_from rnd k x y i zero = refl
  length-sample_from rnd k x y i (suc left) =
      let j = rnd i % (i + 1) in
      length-sample_from rnd k (if ltb j k then set x j (get_or y i junk) else x) y (i + 1) left
      ∙ length-choice (ltb j k) x j (get_or y i junk)

  take-copied :
      (buf y : List A) (k : ℕ)
      → k ≤ length buf
      → k ≤ length y
      → take k (write_at buf 0 (take k y)) ≡ take k y
  take-copied buf y k room enough =
      let e : 0 + length (take k y) ≡ k = omega (arith, length-take y k enough) in
      subst (λ n. take n (write_at buf 0 (take k y)) ≡ take k y) e
        (take-write_at (take k y) buf 0 (omega (arith, length-take y k enough)))

  copied-IsDrawn :
      (buf y : List A) (k : ℕ)
      → k ≤ length buf
      → k ≤ length y
      → IsDrawn (write_at buf 0 (take k y)) y k k
  copied-IsDrawn buf y k room enough = record {
    left_out = [];
    all =
        subst (λ l. Perm l (take k y))
          (sym (append-nil (take k (write_at buf 0 (take k y))) ∙ take-copied buf y k room enough))
          (Perm.refl (take k y));
  }

  -- Whatever random numbers are drawn, VECT_SAMPLE of k elements, with k below the target's capacity,
  -- refuses a valid source of at most k elements and leaves the target as it is, and otherwise leaves the
  -- valid target valid, with k elements from different positions of the source.
  pub vect_sample-IsSample :
      (null : A) (d s : Vect A) (k : ℕ) (rnd : ℕ → ℕ)
      → IsValid d
      → IsValid s
      → k < d.cap
      → ((s.size ≤ k) × (vect_sample null junk d s k rnd ≡ some (d, false)))
        ⊎ (k < s.size)
          × (after : Vect A) × (vect_sample null junk d s k rnd ≡ some (after, true))
          × IsSample s after k
  unfolding vect_sample
  vect_sample-IsSample null d s k rnd ok_d ok_s room = elim (Bool-cases (ltb k s.size)) [
    | inr f ↦ inl (ground (arith, f), rw f refl)
    | inl t ↦
        let more : k < s.size = ground (arith, t) in
        let fits : leb d.cap k ≡ false = ground arith in
        inr (more, drawn, rw (t, fits) refl, drawn-IsSample more)
  ]
    where
      x : List A
      x = write_at d.arr 0 (take k s.arr)

      drawn : Vect A
      drawn = record d { size = k; arr = sample_from junk rnd k x s.arr k (s.size - k) }

      drawn-IsSample : k < s.size → IsSample s drawn k
      drawn-IsSample more =
          let room_x : k ≤ length x =
            omega (arith, length-write_at d.arr 0 (take k s.arr), ok_d.array) in
          let e : k + (s.size - k) ≡ s.size = omega arith in
          let all =
            sample_from-IsDrawn rnd k x s.arr k (s.size - k) room_x (omega (arith, ok_s.array)) (
              copied-IsDrawn d.arr s.arr k (omega (arith, ok_d.array))
                (omega (arith, ok_s.array))) in
          record {
            valid = record {
              in_cap = omega arith;
              array =
                  length-sample_from rnd k x s.arr k (s.size - k)
                  ∙ (length-write_at d.arr 0 (take k s.arr) ∙ ok_d.array);
              some_room = ok_d.some_room;
              low_cap = ok_d.low_cap;
            };
            size = refl;
            left_out = all.left_out;
            all = subst (λ n. Perm (take k drawn.arr ++ all.left_out) (take n s.arr)) e all.all;
          }
