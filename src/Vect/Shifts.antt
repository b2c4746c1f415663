-- ===== src/Vect/Shifts.antt =====
-- The loops that move all elements of an array by one.
use portable_lib.Prelude.{
  ℕ, zero, suc, ◌+◌, ◌<◌, List, [], ◌∷◌, ◌++◌, append_assoc, ◌≡◌, refl, sym, ap, ◌∙◌, arith, set,
  take, drop, get_or, length, length-set, get_or-set_self, get_or-set_ne, take-set, take_more,
  append-nil,
}
use portable_lib.Vect.{shift_up, shift_down}

module _ {ℓ} {A : Type ℓ} (d : A) where
  pub take-suc :
      (xs : List A) (n : ℕ) → n < length xs → take (suc n) xs ≡ take n xs ++ (get_or xs n d ∷ [])
  take-suc [] n h = absurd (omega arith)
  take-suc (x ∷ xs) zero h = refl
  take-suc (x ∷ xs) (suc n) h = ap (λ r. x ∷ r) (take-suc xs n (omega arith))

  pub take-drop-suc :
      (xs : List A) (k n : ℕ)
      → k < length xs
      → take (suc n) (drop k xs) ≡ get_or xs k d ∷ take n (drop (suc k) xs)
  take-drop-suc [] k n h = absurd (omega arith)
  take-drop-suc (x ∷ xs) zero n h = refl
  take-drop-suc (x ∷ xs) (suc k) n h = take-drop-suc xs k n (omega arith)

  drop-set : (xs : List A) (i k : ℕ) (x : A) → i < k → drop k (set xs i x) ≡ drop k xs
  drop-set [] i k x h = refl
  drop-set (y ∷ xs) i zero x h = absurd (omega arith)
  drop-set (y ∷ xs) zero (suc k) x h = refl
  drop-set (y ∷ xs) (suc i) (suc k) x h = drop-set xs i k x (omega arith)

  pub length-shift_up : (buf : List A) (n : ℕ) → length (shift_up d buf n) ≡ length buf
  unfolding shift_up
  length-shift_up buf zero = refl
  length-shift_up buf (suc n) =
      length-shift_up (set buf (suc n) (get_or buf n d)) n ∙ length-set buf (suc n) (get_or buf n d)

  pub length-shift_down : (buf : List A) (i n : ℕ) → length (shift_down d buf i n) ≡ length buf
  unfolding shift_down
  length-shift_down buf i zero = refl
  length-shift_down buf i (suc n) =
      length-shift_down (set buf i (get_or buf (i + 1) d)) (i + 1) n
      ∙ length-set buf i (get_or buf (i + 1) d)

  shift_up-beyond :
      (buf : List A) (n j : ℕ) → n < j → get_or (shift_up d buf n) j d ≡ get_or buf j d
  unfolding shift_up
  shift_up-beyond buf zero j h = refl
  shift_up-beyond buf (suc n) j h =
      shift_up-beyond (set buf (suc n) (get_or buf n d)) n j (omega arith)
      ∙ get_or-set_ne buf (get_or buf n d) d (λ (e : suc n ≡ j). absurd (omega arith))

  -- The first element is left where it was.
  pub take-shift_up :
      (buf : List A) (n : ℕ)
      → n < length buf
      → take (suc n) (shift_up d buf n) ≡ get_or buf 0 d ∷ take n buf
  unfolding shift_up
  take-shift_up [] zero h = absurd (omega arith)
  take-shift_up (x ∷ buf) zero h = refl
  take-shift_up buf (suc n) h =
      let moved = set buf (suc n) (get_or buf n d) in
      let long = length-set buf (suc n) (get_or buf n d) in
      take-suc (shift_up d moved n) (suc n) (omega (arith, length-shift_up moved n, long))
      ∙ rw
          (
            take-shift_up moved n (omega (arith, long)),
            shift_up-beyond moved n (suc n) (omega arith),
            get_or-set_self buf (suc n) (get_or buf n d) d h,
            take-set buf n (suc n) (get_or buf n d) (omega arith),
            get_or-set_ne buf (get_or buf n d) d (λ (e : suc n ≡ 0). absurd (omega arith)),
            take-suc buf n (omega arith),
          )
          refl

  pub take-shift_down :
      (buf : List A) (i n : ℕ)
      → i + n < length buf
      → take (i + n) (shift_down d buf i n) ≡ take i buf ++ take n (drop (i + 1) buf)
  unfolding shift_down
  take-shift_down buf i zero h =
      let e : i + 0 ≡ i = omega arith in rw e (sym (append-nil (take i buf)))
  take-shift_down buf i (suc n) h =
      let x = get_or buf (i + 1) d in
      let e : i + suc n ≡ i + 1 + n = omega arith in
      let next : suc (i + 1) ≡ i + 1 + 1 = omega arith in
      rw
        (
          e,
          take-shift_down (set buf i x) (i + 1) n (omega (arith, length-set buf i x)),
          take_more buf i x (omega arith),
          drop-set buf i (i + 1 + 1) x (omega arith),
          take-drop-suc buf (i + 1) n (omega arith),
          next,
          append_assoc (take i buf) (x ∷ []) (take n (drop (i + 1 + 1) buf)),
        )
        refl

  pub take-set_first :
      (xs l : List A) (n : ℕ) (x e : A)
      → take (suc n) xs ≡ x ∷ l
      → take (suc n) (set xs 0 e) ≡ e ∷ l
  take-set_first [] l n x e h = cc
  take-set_first (y ∷ xs) l n x e h = cc
