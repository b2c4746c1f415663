-- ===== src/Minheap/Draining.antt =====
-- A heap gives its elements in order.
use mathlib.Core.List.{Perm, Permᴰ}
use mathlib.Core.List.Perm
use mathlib.Core.Logic.{∥∥₁_elim}
use mathlib.Core.Bool.{Bool-set}
use native.Mathlib.Nat.{ℕ_set}
use portable_lib.Prelude.{
  ℕ, zero, suc, ◌≤◌, ◌<◌, Bool, true, ◌&&◌, Option, none, some, List, [], ◌∷◌, ◌≡◌, refl, sym, ap,
  ◌∙◌, subst, arith, leb, get_or, take, length, length-take, ◌>>=◌,
}
use portable_lib.Minheap.{Comp, Minheap, minheap, removemin}
use portable_lib.Minheap.Order.{IsLawful}
use portable_lib.Minheap.Calls.{contents, IsHeap, minheap-IsHeap, IsRemoved, removemin-IsRemoved}

module _ {ℓ} {A : Type ℓ} where
  length-Permᴰ : {xs ys : List A} → Permᴰ xs ys → length xs ≡ length ys
  length-Permᴰ Permᴰ.nil = refl
  length-Permᴰ (Permᴰ.cons e p) = ap suc (length-Permᴰ p)
  length-Permᴰ (Permᴰ.swap e f) = refl
  length-Permᴰ (Permᴰ.trans p q) = length-Permᴰ p ∙ length-Permᴰ q

  length-Perm : {xs ys : List A} → Perm xs ys → length xs ≡ length ys
  length-Perm p = ∥∥₁_elim p (ℕ_set _ _) length-Permᴰ

module _ {ℓ} {A : Type ℓ} (rank : A → ℕ) where
  -- No element ranks below `r`.
  unfoldable pub least : ℕ → List A → Bool
  least r [] = true
  least r (y ∷ ys) = leb r (rank y) && least r ys

  unfoldable pub sorted : List A → Bool
  unfolding least
  sorted [] = true
  sorted (x ∷ xs) = least (rank x) xs && sorted xs

  least-Permᴰ : (r : ℕ) {xs ys : List A} → Permᴰ xs ys → least r xs ≡ least r ys
  unfolding least
  least-Permᴰ r Permᴰ.nil = refl
  least-Permᴰ r (Permᴰ.cons e p) = rw (ap rank e, least-Permᴰ r p) refl
  least-Permᴰ r (Permᴰ.swap e f) = rw (ap rank e, ap rank f) (ground arith)
  least-Permᴰ r (Permᴰ.trans p q) = least-Permᴰ r p ∙ least-Permᴰ r q

  least-Perm : (r : ℕ) {xs ys : List A} → Perm xs ys → least r xs ≡ least r ys
  least-Perm r p = ∥∥₁_elim p (Bool-set _ _) (least-Permᴰ r)

  least-take :
      (d : A) (r n : ℕ) (xs : List A)
      → ((k : ℕ) → k < n → r ≤ rank (get_or xs k d))
      → least r (take n xs) ≡ true
  unfolding least
  least-take d r zero xs low = refl
  least-take d r (suc n) [] low = refl
  least-take d r (suc n) (x ∷ xs) low =
      ground (arith, low 0, least-take d r n xs (λ k h. low (suc k) (omega arith)))

module _ {ℓ} {A : Type ℓ} (c : Comp A) where
  -- `turns` calls of `removemin`, or as many as find an element: the elements that they give.
  unfoldable pub drain : ℕ → Minheap A → Option (List A)
  drain zero m = some []
  drain (suc turns) m = removemin c m >>= λ r. elim r.1 [
    | none ↦ some []
    | some it ↦ drain turns r.0 >>= λ its. some (it ∷ its)
  ]

module _ {ℓ} {A : Type ℓ} (c : Comp A) (d : A) (law : IsLawful c d) where
  -- What a heap gives until it is empty: its elements in order.
  record IsDrained (turns : ℕ) (m : Minheap A) : Type ℓ where
    given : List A
    returns : drain c turns m ≡ some given
    in_order : sorted law.rank given ≡ true
    all : Perm given (contents c d law m)

  length-contents : (m : Minheap A) → IsHeap c d law m → length (contents c d law m) ≡ m.n
  length-contents m heap = length-take m.heap m.n heap.in_array

  one_less :
      (m m' : Minheap A) (it : A)
      → IsHeap c d law m
      → IsHeap c d law m'
      → Perm (it ∷ contents c d law m') (contents c d law m)
      → m.n ≡ suc m'.n
  one_less m m' it heap heap' p =
      omega (arith, length-Perm p, length-contents m heap, length-contents m' heap')

  taken-IsDrained :
      (n : ℕ) (m m' : Minheap A) (it : A)
      → removemin c m ≡ some (m', some it)
      → Perm (it ∷ contents c d law m') (contents c d law m)
      → least law.rank (law.rank it) (contents c d law m) ≡ true
      → IsDrained n m'
      → IsDrained (suc n) m
  unfolding drain sorted least
  taken-IsDrained n m m' it e p low z =
      let all = Perm.trans (Perm.cons it z.all) p in
      let below = least-Perm law.rank (law.rank it) all in
      record {
        given = it ∷ z.given;
        returns = rw (e, ◌>>=◌) (rw (z.returns, ◌>>=◌) refl);
        in_order = ground (arith, below, low, z.in_order);
        all = all;
      }

  first-IsDrained :
      (n : ℕ) (m : Minheap A) (r : Option (Minheap A × Option A))
      → m.n ≡ suc n
      → IsHeap c d law m
      → removemin c m ≡ r
      → IsRemoved c d law m r
      → ((m' : Minheap A) → m'.n ≡ n → IsHeap c d law m' → IsDrained n m')
      → IsDrained (suc n) m
  first-IsDrained n m none e heap same gone rest = elim gone [ ]
  first-IsDrained n m (some (m', none)) e heap same gone rest = absurd (omega (arith, e, gone.0))
  first-IsDrained n m (some (m', some it)) e heap same gone rest =
      let fewer = one_less m m' it heap gone.0 gone.1 in
      taken-IsDrained n m m' it same gone.1 (least-take law.rank d (law.rank it) m.n m.heap gone.2)
        (rest m' (omega (arith, e, fewer)) gone.0)

  drain-IsDrained : (n : ℕ) (m : Minheap A) → m.n ≡ n → IsHeap c d law m → IsDrained n m
  unfolding drain sorted
  drain-IsDrained zero m e heap = record {
    given = [];
    returns = refl;
    in_order = refl;
    all = subst (λ k. Perm [] (take k m.heap)) (sym e) (Perm.refl []);
  }
  drain-IsDrained (suc n) m e heap =
      first-IsDrained n m (removemin c m) e heap refl (removemin-IsRemoved c d law m heap)
        (drain-IsDrained n)

  -- On an array with room for num elements the constructor returns a heap from which num calls of
  -- removemin give these elements in order.
  pub drain-minheap :
      (h : List A) (num : ℕ)
      → num ≤ length h
      → (xs : List A) × ((minheap c h num >>= λ m. drain c num m) ≡ some xs)
        × (sorted law.rank xs ≡ true)
        × Perm xs (take num h)
  drain-minheap h num room =
      let (m, made, heap, front) = minheap-IsHeap c d law h num room in
      let long = length-contents m heap in
      let z =
        drain-IsDrained num m (omega (arith, length-Perm front, long, length-take h num room))
          heap in
      (z.given, rw (made, ◌>>=◌) z.returns, z.in_order, Perm.trans z.all front)
