-- ===== src/Hashtab/Valid.antt =====
-- Well-formed arrays of buckets, and the nodes that they hold in the order in which the loops walk
-- them.
use portable_lib.Prelude.{
  ℕ, zero, suc, ◌+◌, ◌%◌, ◌^◌, ◌<◌, ◌≤◌, Option, List, [], ◌∷◌, ◌++◌, ◌≡◌, ◌≢◌, refl, sym, ap, ◌∙◌,
  subst, if◌then◌else◌, ◌==◌, ==_iff, All, Bool-cases, inl, inr, arith, length, set, replicate,
  get_or-set_self, get_or-set_ne, length-set, length-replicate, get_or-replicate, bit_and-mask,
  length-append,
}
use native.Mathlib.Nat.{mod-lt, one-le-pow}
use portable_lib.Hashtab.{Policy, Node, Bucket, no_bucket, bucket_at, slot, hashfunc, find_node}
use portable_lib.Hashtab.Chains.{
  IsPolicy, IsFresh, IsChain, hash_eq, find_node-IsFresh, find_node-append, IsChain-append,
  IsFresh-append, orelse-none,
}

-- A size of a table: a power of two that leaves room for its double.
pub record IsSize (n : ℕ) : Type 0 where
  pub log : ℕ
  pub power : n ≡ 2 ^ log
  pub small : n < 2 ^ 63

pub slot-lt : (h n : ℕ) → IsSize n → slot h n < n
unfolding slot
slot-lt h n s =
    let e : slot h n ≡ h % 2 ^ s.log = rw s.power (bit_and-mask s.log h) in
    let one : 1 ≤ 2 ^ s.log = one-le-pow s.log 2 (omega arith) in
    rw (e, s.power) (mod-lt h (omega (arith, one)))

module _ {ℓ} {A : Type ℓ} where
  abbrev pub flat : List (Bucket A) → List (Node A)
  flat [] = []
  flat (b ∷ bs) = b.head ++ flat bs

  abbrev pub is_filled : Bucket A → ℕ
  is_filled b = if length b.head == 0 then 0 else 1

  abbrev pub filled : List (Bucket A) → ℕ
  filled [] = 0
  filled (b ∷ bs) = is_filled b + filled bs

  pub filled-set :
      (bs : List (Bucket A)) (i : ℕ) (b : Bucket A)
      → i < length bs
      → filled (set bs i b) + is_filled (bucket_at bs i) ≡ filled bs + is_filled b
  filled-set [] i b h = absurd (omega arith)
  filled-set (x ∷ bs) zero b h = omega arith
  filled-set (x ∷ bs) (suc i) b h = let e = filled-set bs i b (omega arith) in omega (arith, e)

  pub length-flat-set :
      (bs : List (Bucket A)) (i : ℕ) (b : Bucket A)
      → i < length bs
      → length (flat (set bs i b)) + length (bucket_at bs i).head ≡ length (flat bs) + length b.head
  length-flat-set [] i b h = absurd (omega arith)
  length-flat-set (x ∷ bs) zero b h =
      omega (arith, length-append x.head (flat bs), length-append b.head (flat bs))
  length-flat-set (x ∷ bs) (suc i) b h = omega (
    arith,
    length-flat-set bs i b (omega arith),
    length-append x.head (flat bs),
    length-append x.head (flat (set bs i b)),
  )

  pub flat-replicate : (n : ℕ) → flat (replicate n (no_bucket {A = A})) ≡ []
  flat-replicate zero = refl
  flat-replicate (suc n) = flat-replicate n

pub filled-replicate {ℓ} : (A : Type ℓ) (n : ℕ) → filled (replicate n (no_bucket {A = A})) ≡ 0
filled-replicate A zero = refl
filled-replicate A (suc n) = omega (arith, filled-replicate A n)

module _ {ℓ} {A : Type ℓ} (tr : Policy A) (random n : ℕ) where
  -- The bucket `i` of `n`.
  pub record IsBucket (i : ℕ) (b : Bucket A) : Type 0 where
    pub chain : IsChain tr random b.head
    pub home : All (λ p. slot p.hash n ≡ i) b.head
    pub count : b.count ≡ length b.head

  pub record IsBuckets (bs : List (Bucket A)) : Type 0 where
    pub size : length bs ≡ n
    pub each : (i : ℕ) → i < n → IsBucket i (bucket_at bs i)

  pub no_bucket-IsBucket : (i : ℕ) → IsBucket i no_bucket
  no_bucket-IsBucket i = record { chain = tt; home = tt; count = refl }

  pub replicate-IsBuckets : IsBuckets (replicate n no_bucket)
  replicate-IsBuckets = record {
    size = length-replicate n no_bucket;
    each = λ i h. subst (IsBucket i) (sym (get_or-replicate n i no_bucket)) (no_bucket-IsBucket i);
  }

  pub set-IsBuckets :
      (bs : List (Bucket A)) (i : ℕ) (b : Bucket A)
      → IsBuckets bs
      → i < n
      → IsBucket i b
      → IsBuckets (set bs i b)
  set-IsBuckets bs i b v h vb = record {
    size = length-set bs i b ∙ v.size;
    each = λ j hj. elim (Bool-cases (i == j)) [
      | inl e ↦
          let same : i ≡ j = (==_iff i j).0 e in
          subst (λ k. IsBucket k (bucket_at (set bs i b) k)) same
            (subst (IsBucket i) (sym (get_or-set_self bs i b no_bucket (omega (arith, v.size)))) vb)
      | inr e ↦
          let other : i ≢ j = λ same. absurd (ground (arith, e, same)) in
          subst (IsBucket j) (sym (get_or-set_ne bs b no_bucket other)) (v.each j hj)
    ];
  }

module _ {ℓ} {A : Type ℓ} (tr : Policy A) (law : IsPolicy tr) (random n : ℕ) where
  abbrev pub home_of : A → ℕ
  home_of key = slot (hashfunc tr random key) n

  abbrev pub find_in : List (Bucket A) → A → Option A
  find_in bs key = find_node tr random key (bucket_at bs (home_of key)).head

  home-IsFresh :
      (key : A) (i : ℕ) (ps : List (Node A))
      → IsChain tr random ps
      → All (λ p. slot p.hash n ≡ i) ps
      → home_of key ≢ i
      → IsFresh tr random key ps
  home-IsFresh key i [] c h ne = tt
  home-IsFresh key i (p ∷ rest) c h ne = (
    elim (Bool-cases (tr.cmp key p.item)) [
      | inl e ↦
          let same = ap (λ x. slot x n) (hash_eq tr law random key p.item e ∙ sym c.0) in
          absurd (ne (same ∙ h.0))
      | inr e ↦ e
    ],
    home-IsFresh key i rest c.2 h.1 ne,
  )

  -- The buckets from the one with number `off` on.
  abbrev AreFrom : ℕ → List (Bucket A) → Type 0
  AreFrom off bs = (j i : ℕ) → j < length bs → i ≡ off + j → IsBucket tr random n i (bucket_at bs j)

  AreFrom-tail :
      (off : ℕ) (b : Bucket A) (bs : List (Bucket A)) → AreFrom off (b ∷ bs) → AreFrom (off + 1) bs
  AreFrom-tail off b bs v j i h e = v (suc j) i (omega arith) (omega arith)

  from_zero : (bs : List (Bucket A)) → IsBuckets tr random n bs → AreFrom 0 bs
  from_zero bs v j i h e =
      subst (λ k. IsBucket tr random n k (bucket_at bs j)) (omega arith)
        (v.each j (omega (arith, v.size)))

  flat_from :
      (off : ℕ) (bs : List (Bucket A))
      → AreFrom off bs
      → IsChain tr random (flat bs)
        × ((key : A) → home_of key < off → IsFresh tr random key (flat bs))
        × ((key : A) (j : ℕ)
            → j < length bs
            → home_of key ≡ off + j
            → find_node tr random key (flat bs) ≡ find_node tr random key (bucket_at bs j).head)
  flat_from off [] v = (tt, λ key h. tt, λ key j h e. absurd (omega arith))
  flat_from off (b ∷ bs) v =
      let vb = v 0 off (omega arith) (omega arith) in
      let more = flat_from (off + 1) bs (AreFrom-tail off b bs v) in
      let fresh =
        λ (key : A) (h : home_of key ≢ off). home-IsFresh key off b.head vb.chain vb.home h in
      let all =
        IsChain-append tr law random b.head (flat bs) vb.chain more.0
          (others b.head vb.chain vb.home more.1) in
      (
        all,
        λ key h.
            IsFresh-append tr law random key b.head (flat bs)
              (fresh key (λ e. absurd (omega (arith, e, h)))) (more.1 key (omega arith)),
        found more.0 more.1 more.2 fresh,
      )
    where
      found :
          IsChain tr random (flat bs)
          → ((key : A) → home_of key < off + 1 → IsFresh tr random key (flat bs))
          → ((key : A) (j : ℕ)
              → j < length bs
              → home_of key ≡ off + 1 + j
              → find_node tr random key (flat bs) ≡ find_node tr random key (bucket_at bs j).head)
          → ((key : A) → home_of key ≢ off → IsFresh tr random key b.head)
          → (key : A) (j : ℕ) → j < length (b ∷ bs)
          → home_of key ≡ off + j
          → find_node tr random key (b.head ++ flat bs)
            ≡ find_node tr random key (bucket_at (b ∷ bs) j).head
      found c below later fresh key zero h e =
          let chain = (v 0 off (omega arith) (omega arith)).chain in
          find_node-append tr law random key b.head (flat bs) chain
          ∙ rw (find_node-IsFresh tr law random key (flat bs) c (below key (omega (arith, e))))
              (orelse-none (find_node tr random key b.head))
      found c below later fresh key (suc j) h e =
          let chain = (v 0 off (omega arith) (omega arith)).chain in
          let f = fresh key (λ same. absurd (omega (arith, e, same))) in
          find_node-append tr law random key b.head (flat bs) chain
          ∙ rw (find_node-IsFresh tr law random key b.head chain f)
              (later key j (omega arith) (omega (arith, e)))

      others :
          (ps : List (Node A))
          → IsChain tr random ps
          → All (λ p. slot p.hash n ≡ off) ps
          → ((key : A) → home_of key < off + 1 → IsFresh tr random key (flat bs))
          → All (λ p. IsFresh tr random p.item (flat bs)) ps
      others [] c h f = tt
      others (p ∷ rest) c h f =
          (f p.item (omega (arith, ap (λ x. slot x n) (sym c.0) ∙ h.0)), others rest c.2 h.1 f)

  pub flat-IsChain : (bs : List (Bucket A)) → IsBuckets tr random n bs → IsChain tr random (flat bs)
  flat-IsChain bs v = (flat_from 0 bs (from_zero bs v)).0

  -- The bucket of a key decides what the whole array has for it.
  pub find_node-flat :
      (bs : List (Bucket A)) (key : A)
      → IsBuckets tr random n bs
      → home_of key < n
      → find_node tr random key (flat bs) ≡ find_in bs key
  find_node-flat bs key v h =
      (flat_from 0 bs (from_zero bs v)).2 key (home_of key) (omega (arith, v.size)) (omega arith)
