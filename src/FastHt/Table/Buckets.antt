-- ===== src/FastHt/Table/Buckets.antt =====
-- An array of buckets, each of which is a map of the keys that hash to its index.
use native.Mathlib.Decide.{ℕ_discrete}
use portable_lib.Prelude.{
  get_or-set_self, get_or-set_ne, ne→==-false, ℕ, zero, suc, ◌+◌, ◌≤◌, ◌<◌, Option, none, some,
  List, [], ◌∷◌, ◌≡◌, ◌≢◌, refl, sym, ap, ◌∙◌, subst, arith, ◌==◌, length, get_or, set, inl, inr,
  Bool-cases, Option-cases, bit_and-le, sub64, if◌then◌else◌,
}
use portable_lib.FastHt.Bag.Cell.{Cell}
use portable_lib.FastHt.Bucket.{Bucket, findx}
use portable_lib.FastHt.Bucket.Cells.{bags_of, cells_get, Search, absent, found, findx-Search}
use portable_lib.FastHt.Bucket.Map.{IsMap}
use portable_lib.FastHt.Table.{Table, hash, empty_bucket, max_buckets, find, bucket_of}

-- The index of a key lies in the array.
pub hash-lt : (k n salt : ℕ) → 0 < n → n ≤ max_buckets → hash k n salt < n
unfolding hash
hash-lt k n salt pos small = omega (arith, bit_and-le (sub64 n 1))

-- What `__findx` finds in a bucket.
abbrev pub value_of : Option (ℕ × ℕ × ℕ) → Option ℕ
value_of none = none
value_of (some (i, slot, v)) = some v

abbrev pub bucket_get : Bucket → ℕ → Option ℕ
bucket_get b q = value_of (findx b.head 0 q)

pub record IsBucket (n salt i : ℕ) (b : Bucket) : Type 0 where
  pub cells : List Cell
  pub head : b.head ≡ bags_of cells
  pub keys : IsMap (λ k. hash k n salt ≡ i) cells

pub bucket_get-cells :
    (b : Bucket) (cs : List Cell) (q : ℕ)
    → b.head ≡ bags_of cs
    → 0 < q
    → bucket_get b q ≡ cells_get cs q
bucket_get-cells b cs q e h = rw e (value (findx-Search cs q h))
  where
    value : {r : Option (ℕ × ℕ × ℕ)} → Search cs q r → value_of r ≡ cells_get cs q
    value (absent g) = sym g
    value (found bag g put) = sym g

pub get-misplaced :
    (P : ℕ → Type 0) (cs : List Cell) (q : ℕ) → IsMap P cs → ¬ (P q) → cells_get cs q ≡ none
get-misplaced P [] q m ne = refl
get-misplaced P (none ∷ cs) q m ne = get-misplaced P cs q m ne
get-misplaced P (some (k, v) ∷ cs) q (pos, p, new, m) ne = elim (Bool-cases (k == q)) [
  | inl t ↦ let e : k ≡ q = ground arith in absurd (ne (subst P e p))
  | inr t ↦ rw t (get-misplaced P cs q m ne)
]

-- A predicate at each bucket, with its index.
module _ (Q : ℕ → Bucket → Type 0) where
  abbrev pub Each : ℕ → List Bucket → Type 0
  Each i [] = Unit
  Each i (b ∷ bs) = Q i b × Each (i + 1) bs

  pub Each-get :
      (i j k : ℕ) (bs : List Bucket)
      → Each i bs
      → j < length bs
      → i + j ≡ k
      → Q k (get_or bs j empty_bucket)
  Each-get i j k [] m h e = absurd (omega arith)
  Each-get i zero k (b ∷ bs) m h e = subst (λ t. Q t b) (omega arith) m.0
  Each-get i (suc j) k (b ∷ bs) m h e = Each-get (i + 1) j k bs m.1 (omega arith) (omega arith)

  pub Each-set :
      (i j k : ℕ) (bs : List Bucket) (x : Bucket)
      → Each i bs
      → i + j ≡ k
      → Q k x
      → Each i (set bs j x)
  Each-set i j k [] x m e q = tt
  Each-set i zero k (b ∷ bs) x m e q = (subst (λ t. Q t x) (omega arith) q, m.1)
  Each-set i (suc j) k (b ∷ bs) x m e q = (m.0, Each-set (i + 1) j k bs x m.1 (omega arith) q)

-- A bucket that is written changes what is found at one key.
pub array-reads :
    (n salt k q : ℕ) (bs : List Bucket) (x : Bucket) (r : Option ℕ)
    → hash k n salt < length bs
    → bucket_get x q ≡ (if k == q then r else bucket_get (get_or bs (hash k n salt) empty_bucket) q)
    → bucket_get (get_or (set bs (hash k n salt) x) (hash q n salt) empty_bucket) q
      ≡ (if k == q then r else bucket_get (get_or bs (hash q n salt) empty_bucket) q)
array-reads n salt k q bs x r inside e = elim (ℕ_discrete (hash k n salt) (hash q n salt)) [
  | yes same ↦ rw (← same, get_or-set_self bs (hash k n salt) x empty_bucket inside, e)
  | no other ↦
      let apart : k ≢ q = λ t. other (ap (λ u. hash u n salt) t) in
      rw (get_or-set_ne bs x empty_bucket other, ne→==-false k q apart)
]

pub Each-map :
    (P Q : ℕ → Bucket → Type 0) (f : (i : ℕ) (b : Bucket) → P i b → Q i b) (i : ℕ)
    (bs : List Bucket)
    → Each P i bs
    → Each Q i bs
Each-map P Q f i [] m = tt
Each-map P Q f i (b ∷ bs) m = (f i b m.0, Each-map P Q f (i + 1) bs m.1)

pub record IsValid (h : Table) : Type 0 where
  pub buckets : Each (IsBucket h.n h.salt) 0 h.b
  pub size : length h.b ≡ h.n
  pub pos : 0 < h.n
  pub small : h.n ≤ max_buckets

-- The bucket of a key, its cells, and what `ht_find` reads from them.
pub bucket-IsBucket :
    {h : Table} (k : ℕ) → IsValid h → IsBucket h.n h.salt (hash k h.n h.salt) (bucket_of h k)
unfolding bucket_of
bucket-IsBucket {h} k v =
    let j = hash k h.n h.salt in
    Each-get (IsBucket h.n h.salt) 0 j j h.b v.buckets
      (omega (arith, hash-lt k h.n h.salt v.pos v.small, v.size)) (omega arith)

pub find-bucket : (h : Table) (k : ℕ) → find h k ≡ bucket_get (bucket_of h k) k
unfolding find
find-bucket h k = elim (Option-cases (findx (bucket_of h k).head 0 k)) [
  | inl e ↦ ground arith
  | inr (r, e) ↦ ground arith
]

pub find-cells :
    {h : Table} (k : ℕ) (v : IsValid h) → 0 < k → find h k ≡ cells_get (bucket-IsBucket k v).cells k
find-cells {h} k v p =
    let b = bucket-IsBucket k v in
    find-bucket h k ∙ bucket_get-cells (bucket_of h k) b.cells k b.head p

-- The value of a key in an array, wherever it stands.
abbrev pub all_get : List Bucket → ℕ → Option ℕ
all_get [] q = none
all_get (b ∷ bs) q = elim (bucket_get b q) [ some v ↦ some v | none ↦ all_get bs q ]

module _ (n salt : ℕ) where
  pub bucket_get-misplaced :
      (i : ℕ) (b : Bucket) (q : ℕ)
      → IsBucket n salt i b
      → 0 < q
      → hash q n salt ≢ i
      → bucket_get b q ≡ none
  bucket_get-misplaced i b q m p ne =
      bucket_get-cells b m.cells q m.head p
      ∙ get-misplaced (λ k. hash k n salt ≡ i) m.cells q m.keys ne

  pub all_get-below :
      (i : ℕ) (bs : List Bucket) (q : ℕ)
      → Each (IsBucket n salt) i bs
      → 0 < q
      → hash q n salt < i
      → all_get bs q ≡ none
  all_get-below i [] q m p lt = refl
  all_get-below i (b ∷ bs) q m p lt = ground (
    arith,
    bucket_get-misplaced i b q m.0 p (omega arith),
    all_get-below (i + 1) bs q m.1 p (omega arith),
  )

  pub all_get-at :
      (i j : ℕ) (bs : List Bucket) (q : ℕ)
      → Each (IsBucket n salt) i bs
      → 0 < q
      → i + j ≡ hash q n salt
      → j < length bs
      → all_get bs q ≡ bucket_get (get_or bs j empty_bucket) q
  all_get-at i j [] q m p e lt = absurd (omega arith)
  all_get-at i zero (b ∷ bs) q m p e lt =
      ground (arith, all_get-below (i + 1) bs q m.1 p (omega arith))
  all_get-at i (suc j) (b ∷ bs) q m p e lt = ground (
    arith,
    bucket_get-misplaced i b q m.0 p (omega arith),
    all_get-at (i + 1) j bs q m.1 p (omega arith) (omega arith),
  )
