-- ===== src/Prelude/Buffers.antt =====
-- Writes into a buffer, seen through what stands at its front.
use Prim.Native.Nat.{ℕ, zero, suc, ◌+◌, ◌≤◌, ◌<◌}
use mathlib.Core.Path.{◌≡◌, refl, sym, ap, ◌∙◌}
use mathlib.Core.List.{List, [], ◌∷◌, ◌++◌, append_assoc, append-nil}
use native.Mathlib.Omega.{arith}
use portable_lib.Prelude.Lists.{length, take, set, get_or, length-set}

module _ {ℓ} {A : Type ℓ} where
  -- `memcpy` into a buffer, from index `i` on
  unfoldable pub write_at : List A → ℕ → List A → List A
  write_at buf i [] = buf
  write_at buf i (x ∷ xs) = write_at (set buf i x) (i + 1) xs

  pub take-set : (buf : List A) (n i : ℕ) (x : A) → n ≤ i → take n (set buf i x) ≡ take n buf
  take-set [] n i x h = refl
  take-set (y ∷ buf) zero i x h = refl
  take-set (y ∷ buf) (suc n) zero x h = absurd (omega arith)
  take-set (y ∷ buf) (suc n) (suc i) x h = ap (λ r. y ∷ r) (take-set buf n i x (omega arith))

  pub take_more :
      (buf : List A) (i : ℕ) (x : A)
      → i < length buf
      → take (i + 1) (set buf i x) ≡ take i buf ++ (x ∷ [])
  take_more buf i x h = let n : i + 1 ≡ suc i = omega arith in rw n (more buf i x h)
    where
      more :
          (buf : List A) (i : ℕ) (x : A)
          → i < length buf
          → take (suc i) (set buf i x) ≡ take i buf ++ (x ∷ [])
      more [] i x h = absurd (omega arith)
      more (y ∷ buf) zero x h = refl
      more (y ∷ buf) (suc i) x h = ap (λ r. y ∷ r) (more buf i x (omega arith))

  pub length-write_at :
      (buf : List A) (i : ℕ) (xs : List A) → length (write_at buf i xs) ≡ length buf
  unfolding write_at
  length-write_at buf i [] = refl
  length-write_at buf i (x ∷ xs) = length-write_at (set buf i x) (i + 1) xs ∙ length-set buf i x

  pub take-write_at :
      (xs buf : List A) (i : ℕ)
      → i + length xs ≤ length buf
      → take (i + length xs) (write_at buf i xs) ≡ take i buf ++ xs
  unfolding write_at
  take-write_at [] buf i h = let e : i + 0 ≡ i = omega arith in rw e (sym (append-nil (take i buf)))
  take-write_at (x ∷ xs) buf i h =
      let e : i + suc (length xs) ≡ i + 1 + length xs = omega arith in
      rw e (
        take-write_at xs (set buf i x) (i + 1) (omega (arith, length-set buf i x))
        ∙ rw (take_more buf i x (omega arith)) (append_assoc (take i buf) (x ∷ []) xs))

  pub write_at-append :
      (xs buf : List A) (i : ℕ) (y : A)
      → write_at buf i (xs ++ (y ∷ [])) ≡ set (write_at buf i xs) (i + length xs) y
  unfolding write_at
  write_at-append [] buf i y = let e : i + 0 ≡ i = omega arith in rw e refl
  write_at-append (x ∷ xs) buf i y =
      let e : i + suc (length xs) ≡ i + 1 + length xs = omega arith in
      rw e (write_at-append xs (set buf i x) (i + 1) y)

  pub take-append : (xs ys : List A) (n : ℕ) → n ≤ length xs → take n (xs ++ ys) ≡ take n xs
  take-append xs ys zero h = refl
  take-append [] ys (suc n) h = absurd (omega arith)
  take-append (x ∷ xs) ys (suc n) h = ap (λ r. x ∷ r) (take-append xs ys n (omega arith))

  pub take-take : (xs : List A) (n m : ℕ) → n ≤ m → take n (take m xs) ≡ take n xs
  take-take xs zero m h = refl
  take-take [] (suc n) zero h = refl
  take-take [] (suc n) (suc m) h = refl
  take-take (x ∷ xs) (suc n) zero h = absurd (omega arith)
  take-take (x ∷ xs) (suc n) (suc m) h = ap (λ r. x ∷ r) (take-take xs n m (omega arith))

  pub get_or-take : (xs : List A) (i n : ℕ) (d : A) → i < n → get_or (take n xs) i d ≡ get_or xs i d
  get_or-take xs i zero d h = absurd (omega arith)
  get_or-take [] i (suc n) d h = refl
  get_or-take (x ∷ xs) zero (suc n) d h = refl
  get_or-take (x ∷ xs) (suc i) (suc n) d h = get_or-take xs i n d (omega arith)

  pub length-take : (xs : List A) (n : ℕ) → n ≤ length xs → length (take n xs) ≡ n
  length-take xs zero h = refl
  length-take [] (suc n) h = absurd (omega arith)
  length-take (x ∷ xs) (suc n) h = omega (arith, length-take xs n (omega arith))

  pub take-length : (xs : List A) → take (length xs) xs ≡ xs
  take-length [] = refl
  take-length (x ∷ xs) = ap (λ r. x ∷ r) (take-length xs)
