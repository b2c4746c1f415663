-- ===== src/Hashtab/Chains.antt =====
-- What the client promises of its functions, and the search in one chain under this promise.
use portable_lib.Prelude.{
  ℕ, true, false, Option, none, some, List, [], ◌∷◌, ◌++◌, ◌≡◌, refl, sym, ap, ◌∙◌, if◌then◌else◌,
  ==_refl, bit_xor, All, Bool-cases, inl, inr, arith,
}
use portable_lib.Hashtab.{Policy, Node, hashfunc, matches, find_node}

-- `cmp` tells equal keys apart from others, and equal keys have the same hash.
pub record IsPolicy {ℓ} {A : Type ℓ} (tr : Policy A) : Type ℓ where
  pub cmp_refl : (a : A) → tr.cmp a a ≡ true
  pub cmp_sym : (a b : A) → tr.cmp a b ≡ true → tr.cmp b a ≡ true
  pub cmp_trans : (a b c : A) → tr.cmp a b ≡ true → tr.cmp b c ≡ true → tr.cmp a c ≡ true
  pub hash_cmp : (a b : A) → tr.cmp a b ≡ true → tr.hash a ≡ tr.hash b

abbrev pub orelse {ℓ} : {A : Type ℓ} → Option A → Option A → Option A
orelse (some d) o = some d
orelse none o = o

pub orelse-none {ℓ} : {A : Type ℓ} (o : Option A) → orelse o none ≡ o
orelse-none none = refl
orelse-none (some d) = refl

module _ {ℓ} {A : Type ℓ} (tr : Policy A) (random : ℕ) where
  abbrev pub IsHashed : Node A → Type 0
  IsHashed p = p.hash ≡ hashfunc tr random p.item

  abbrev pub IsFresh : A → List (Node A) → Type 0
  IsFresh d ps = All (λ p. tr.cmp d p.item ≡ false) ps

  -- Each node has its hash, and no later node has its key.
  abbrev pub IsChain : List (Node A) → Type 0
  IsChain [] = Unit
  IsChain (p ∷ rest) = IsHashed p × IsFresh p.item rest × IsChain rest

module _ {ℓ} {A : Type ℓ} (tr : Policy A) (law : IsPolicy tr) (random : ℕ) where
  pub hash_eq : (a b : A) → tr.cmp a b ≡ true → hashfunc tr random a ≡ hashfunc tr random b
  unfolding hashfunc
  hash_eq a b e = ap (bit_xor random) (law.hash_cmp a b e)

  pub matches-cmp :
      (key : A) (p : Node A) → IsHashed tr random p → matches tr random key p ≡ tr.cmp key p.item
  unfolding matches
  matches-cmp key p h = elim (Bool-cases (tr.cmp key p.item)) [
    | inl e ↦
        let same : p.hash ≡ hashfunc tr random key = h ∙ sym (hash_eq key p.item e) in
        rw (e, same, ==_refl (hashfunc tr random key)) refl
    | inr e ↦ rw e (ground arith)
  ]

  pub find_node-cons :
      (key : A) (p : Node A) (rest : List (Node A))
      → IsHashed tr random p
      → find_node tr random key (p ∷ rest)
        ≡ (if tr.cmp key p.item then some p.item else find_node tr random key rest)
  unfolding find_node
  find_node-cons key p rest h = rw (matches-cmp key p h) refl

  pub cmp_ne_sym : (a b : A) → tr.cmp a b ≡ false → tr.cmp b a ≡ false
  cmp_ne_sym a b e = elim (Bool-cases (tr.cmp b a)) [
    | inl e' ↦ absurd (ground (arith, e, law.cmp_sym b a e'))
    | inr e' ↦ e'
  ]

  pub cmp_ne_trans : (a b c : A) → tr.cmp a b ≡ true → tr.cmp b c ≡ false → tr.cmp a c ≡ false
  cmp_ne_trans a b c e n = elim (Bool-cases (tr.cmp a c)) [
    | inl e' ↦ absurd (ground (arith, n, law.cmp_trans b a c (law.cmp_sym a b e) e'))
    | inr e' ↦ e'
  ]

  pub cmp_eq : (a b c : A) → tr.cmp a b ≡ true → tr.cmp a c ≡ tr.cmp b c
  cmp_eq a b c e = elim (Bool-cases (tr.cmp b c)) [
    | inl e' ↦ law.cmp_trans a b c e e' ∙ sym e'
    | inr n ↦ cmp_ne_trans a b c e n ∙ sym n
  ]

  pub cmp_right : (a b c : A) → tr.cmp a b ≡ true → tr.cmp c a ≡ tr.cmp c b
  cmp_right a b c e = elim (Bool-cases (tr.cmp c a)) [
    | inl e' ↦ e' ∙ sym (law.cmp_trans c a b e' e)
    | inr n ↦ n ∙ sym (cmp_ne_sym b c (cmp_ne_trans b a c (law.cmp_sym a b e) (cmp_ne_sym c a n)))
  ]

  pub IsFresh-cmp :
      (a b : A) (ps : List (Node A))
      → tr.cmp a b ≡ true
      → IsFresh tr random b ps
      → IsFresh tr random a ps
  IsFresh-cmp a b [] e f = tt
  IsFresh-cmp a b (p ∷ rest) e (n, f) = (cmp_ne_trans a b p.item e n, IsFresh-cmp a b rest e f)

  pub find_node-IsFresh :
      (key : A) (ps : List (Node A))
      → IsChain tr random ps
      → IsFresh tr random key ps
      → find_node tr random key ps ≡ none
  unfolding find_node
  find_node-IsFresh key [] c f = refl
  find_node-IsFresh key (p ∷ rest) c f =
      find_node-cons key p rest c.0 ∙ rw f.0 (find_node-IsFresh key rest c.2 f.1)

  pub IsFresh-find_node :
      (key : A) (ps : List (Node A))
      → IsChain tr random ps
      → find_node tr random key ps ≡ none
      → IsFresh tr random key ps
  IsFresh-find_node key [] c e = tt
  IsFresh-find_node key (p ∷ rest) c e =
      let e' = sym (find_node-cons key p rest c.0) ∙ e in
      elim (Bool-cases (tr.cmp key p.item)) [
        | inl same ↦ absurd (ground (arith, e', same))
        | inr other ↦ (other, IsFresh-find_node key rest c.2 (ground (arith, e', other)))
      ]

  pub find_node-append :
      (key : A) (xs ys : List (Node A))
      → IsChain tr random xs
      → find_node tr random key (xs ++ ys)
        ≡ orelse (find_node tr random key xs) (find_node tr random key ys)
  unfolding find_node
  find_node-append key [] ys c = refl
  find_node-append key (p ∷ xs) ys c =
      find_node-cons key p (xs ++ ys) c.0
      ∙ rw (find_node-append key xs ys c.2, find_node-cons key p xs c.0)
          (elim (Bool-cases (tr.cmp key p.item)) [ inl e ↦ rw e refl | inr e ↦ rw e refl ])

  pub IsFresh-append :
      (d : A) (xs ys : List (Node A))
      → IsFresh tr random d xs
      → IsFresh tr random d ys
      → IsFresh tr random d (xs ++ ys)
  IsFresh-append d [] ys f g = g
  IsFresh-append d (p ∷ xs) ys f g = (f.0, IsFresh-append d xs ys f.1 g)

  pub IsChain-append :
      (xs ys : List (Node A))
      → IsChain tr random xs
      → IsChain tr random ys
      → All (λ p. IsFresh tr random p.item ys) xs
      → IsChain tr random (xs ++ ys)
  IsChain-append [] ys c d a = d
  IsChain-append (p ∷ xs) ys c d a =
      (c.0, IsFresh-append p.item xs ys c.1 a.0, IsChain-append xs ys c.2 d a.1)
