-- ===== src/Minheap.antt =====
-- inc/utils/minheap.h: a heap in an array that the client gives. Reading or exchanging outside the
-- array gives no result.
pub mod Order
pub mod Down
pub mod Up
pub mod Calls
pub mod Draining
mod Tests
use portable_lib.Prelude.{
  ℕ, zero, suc, ◌+◌, ◌-◌, ◌*◌, ◌/◌, Bool, true, false, ◌&&◌, Option, none, some, List, [], ◌∷◌,
  if◌then◌else◌, ◌==◌, ltb, leb, set, length, ◌>>=◌,
}

-- What the client gives beside the elements: `Comp` and the function `swap`.
pub record Comp {ℓ} (A : Type ℓ) : Type ℓ where
  pub lt : A → A → Bool
  pub gt : A → A → Bool
  pub swap : List A → ℕ → ℕ → List A

-- `size` is the length of the array.
pub record Minheap {ℓ} (A : Type ℓ) : Type ℓ where
  pub heap : List A
  pub n : ℕ

unfoldable pub is_leaf : (n pos : ℕ) → Bool
is_leaf n pos = leb (n / 2) pos && ltb pos n

abbrev pub leftchild : ℕ → ℕ
leftchild pos = 2 * pos + 1

abbrev pub rightchild : ℕ → ℕ
rightchild pos = 2 * pos + 2

abbrev pub parent : ℕ → ℕ
parent pos = (pos - 1) / 2

module _ {ℓ} {A : Type ℓ} (c : Comp A) where
  unfoldable pub at : List A → ℕ → Option A
  at [] i = none
  at (x ∷ h) zero = some x
  at (x ∷ h) (suc i) = at h i

  unfoldable pub swap_at : List A → ℕ → ℕ → Option (List A)
  unfolding at
  swap_at h i j = at h i >>= λ x. at h j >>= λ y. some (c.swap h i j)

  -- `j`, the child that is compared.
  unfoldable pub child : List A → (n pos : ℕ) → Option ℕ
  unfolding at
  child h n pos =
      let j = leftchild pos in
      let rc = rightchild pos in
      if ltb rc n
      then (at h j >>= λ x. at h rc >>= λ y. some (if c.gt x y then rc else j))
      else some j

  -- Each turn goes to a larger position, so one turn for each element is enough.
  unfoldable pub siftdown_loop : ℕ → List A → (n pos : ℕ) → Option (List A)
  unfolding at child swap_at is_leaf
  siftdown_loop zero h n pos = none
  siftdown_loop (suc turns) h n pos =
      let turn = child h n pos >>= λ j. at h pos >>= λ x. at h j >>= λ y.
      let rest = swap_at h pos j >>= λ h'. siftdown_loop turns h' n j in
      if c.gt x y then rest else some h in
      if is_leaf n pos then some h else turn

  unfoldable pub siftdown : List A → (n pos : ℕ) → Option (List A)
  unfolding siftdown_loop
  siftdown h n pos = siftdown_loop (length h + 1) h n pos

  -- The loop from position `i - 1` down to 0.
  unfoldable pub build_down : List A → (n i : ℕ) → Option (List A)
  unfolding siftdown
  build_down h n zero = some h
  build_down h n (suc i) = siftdown h n i >>= λ h'. build_down h' n i

  -- The constructor
  unfoldable pub minheap : List A → ℕ → Option (Minheap A)
  unfolding build_down
  minheap h num = build_down h num (num / 2) >>= λ h'. some (record { heap = h'; n = num })

  unfoldable pub siftup_loop : ℕ → List A → ℕ → Option (List A)
  unfolding at swap_at
  siftup_loop zero h curr = none
  siftup_loop (suc turns) h curr =
      let turn = at h curr >>= λ x. at h (parent curr) >>= λ y.
      let rest = swap_at h curr (parent curr) >>= λ h'. siftup_loop turns h' (parent curr) in
      if c.lt x y then rest else some h in
      if curr == 0 then some h else turn

  unfoldable pub insert : Minheap A → A → Option (Minheap A × Bool)
  unfolding siftup_loop
  insert m val =
      let filled = siftup_loop (m.n + 1) (set m.heap m.n val) m.n >>= λ h.
      some (record { heap = h; n = m.n + 1 }, true) in
      if leb (length m.heap) m.n then some (m, false) else filled

  unfoldable pub removemin : Minheap A → Option (Minheap A × Option A)
  unfolding at swap_at siftdown
  removemin m =
      let n = m.n - 1 in
      let removed = swap_at m.heap 0 n >>= λ h.
      (if n == 0 then some h else siftdown h n 0) >>= λ h'.
      at h' n >>= λ it. some (record { heap = h'; n = n }, some it) in
      if m.n == 0 then some (m, none) else removed

  -- The loop of `remove`, which stays at its position.
  unfoldable pub push_up : ℕ → List A → ℕ → Option (List A)
  unfolding at swap_at
  push_up zero h pos = none
  push_up (suc turns) h pos =
      let turn = at h pos >>= λ x. at h (parent pos) >>= λ y.
      let rest = swap_at h pos (parent pos) >>= λ h'. push_up turns h' pos in
      if c.lt x y then rest else some h in
      if pos == 0 then some h else turn

  -- Two turns are enough: after an exchange the order is right.
  unfoldable pub remove : Minheap A → ℕ → Option (Minheap A × Option A)
  unfolding at swap_at siftdown push_up
  remove m pos =
      let n = m.n - 1 in
      let removed = swap_at m.heap pos n >>= λ h. push_up 2 h pos >>= λ h1.
      siftdown h1 n pos >>= λ h2. at h2 n >>= λ it. some (record { heap = h2; n = n }, some it) in
      if ltb pos m.n then removed else some (m, none)
