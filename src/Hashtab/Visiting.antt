-- ===== src/Hashtab/Visiting.antt =====
-- An iteration over a table reaches every item and ends.
use portable_lib.Prelude.{ℕ, List, [], ◌∷◌, ◌++◌, ◌≡◌, drop}
use portable_lib.Hashtab.{Node, Bucket}
use portable_lib.Hashtab.Iterate.{Iter}
use portable_lib.Hashtab.Valid.{flat}

module _ {ℓ} {B : Type ℓ} where
  tail_of : List B → List B
  tail_of [] = []
  tail_of (b ∷ bs) = bs

module _ {ℓ} {A : Type ℓ} where
  abbrev pub items : List (Node A) → List A
  items [] = []
  items (p ∷ ps) = p.item ∷ items ps

  -- From a current chain and the number of the next bucket, the nodes `ns` are still to be visited.
  abbrev IsAhead : List (Bucket A) → List (Node A) → ℕ → List (Node A) → Type ℓ
  IsAhead all [] n ns = ns ≡ []
  IsAhead all (p ∷ ps) n ns = p ∷ ps ++ flat (drop n all) ≡ ns

  abbrev IsFound : List (Bucket A) → Iter A → List (Node A) → Type ℓ
  IsFound all it ns = IsAhead all it.cur it.next_bucket ns
