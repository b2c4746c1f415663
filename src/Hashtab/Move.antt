-- ===== src/Hashtab/Move.antt =====
-- A node put before a bucket's chain, and a chain's nodes put before those of another array.
use portable_lib.Prelude.{
  ℕ, ◌+◌, ◌<◌, Option, none, some, List, [], ◌∷◌, ◌≡◌, refl, sym, ap, ◌∙◌, subst, if◌then◌else◌,
  ◌==◌, ==_iff, All, Bool-cases, inl, inr, arith, length, set, get_or-set_self, get_or-set_ne,
}
use portable_lib.Hashtab.{
  Policy, Node, Bucket, bucket, no_bucket, bucket_at, slot, find_node, Split, move_node, move_chain,
}
use portable_lib.Hashtab.Chains.{
  IsPolicy, orelse, IsHashed, IsFresh, IsChain, hash_eq, cmp_ne_sym, find_node-IsFresh,
  IsFresh-find_node, find_node-cons, IsFresh-cmp, matches-cmp,
}
use portable_lib.Hashtab.Valid.{
  IsSize, slot-lt, IsBucket, IsBuckets, set-IsBuckets, flat, filled, filled-set, length-flat-set,
  home_of, find_in,
}

-- `SL_INSERT_HEAD` and `++count`
abbrev pub push {ℓ} : {A : Type ℓ} → List (Bucket A) → ℕ → Node A → List (Bucket A)
push bs n p =
    set bs (slot p.hash n)
      (bucket (p ∷ (bucket_at bs (slot p.hash n)).head) ((bucket_at bs (slot p.hash n)).count + 1))

module _ {ℓ} {A : Type ℓ} (tr : Policy A) (law : IsPolicy tr) (random n : ℕ) (s : IsSize n) where
  -- A bucket that changes for one key changes the array for this key.
  pub find_in-set :
      (bs : List (Bucket A)) (i : ℕ) (d : A) (answer : Option A) (b : Bucket A)
      → i ≡ home_of tr law random n d
      → i < length bs
      → ((key : A)
          → find_node tr random key b.head
            ≡ (if tr.cmp key d then answer else find_node tr random key (bucket_at bs i).head))
      → (key : A)
      → find_in tr law random n (set bs i b) key
        ≡ (if tr.cmp key d then answer else find_in tr law random n bs key)
  find_in-set bs i d answer b home h changes key =
      elim (Bool-cases (i == home_of tr law random n key)) [
        | inl e ↦
            let same : i ≡ home_of tr law random n key = (==_iff _ _).0 e in
            subst
              (λ k.
                find_node tr random key (bucket_at (set bs i b) k).head
                ≡ (if tr.cmp key d then answer else find_node tr random key (bucket_at bs k).head))
              same
              (ap (λ x. find_node tr random key x.head) (get_or-set_self bs i b no_bucket h)
                ∙ changes key)
        | inr e ↦
            let other =
              λ (same : i ≡ home_of tr law random n key). absurd (ground (arith, e, same)) in
            ap (λ x. find_node tr random key x.head) (get_or-set_ne bs b no_bucket other)
            ∙ sym (elim (Bool-cases (tr.cmp key d)) [
              | inl same ↦
                  absurd
                    (other (home ∙ ap (λ x. slot x n) (sym (hash_eq tr law random key d same))))
              | inr ne ↦ rw ne refl
            ])
      ]

  -- What an array needs so that a node can be put into it.
  pub record CanPush (bs : List (Bucket A)) (p : Node A) : Type ℓ where
    pub valid : IsBuckets tr random n bs
    pub hashed : IsHashed tr random p
    pub absent : find_in tr law random n bs p.item ≡ none

  module _ (bs : List (Bucket A)) (p : Node A) (c : CanPush bs p) where
    pub slot_home : slot p.hash n ≡ home_of tr law random n p.item
    slot_home = ap (λ h. slot h n) c.hashed

    old : IsBucket tr random n (slot p.hash n) (bucket_at bs (slot p.hash n))
    old = c.valid.each (slot p.hash n) (slot-lt p.hash n s)

    pub push-IsBuckets : IsBuckets tr random n (push bs n p)
    push-IsBuckets =
        let gone =
          subst (λ i. find_node tr random p.item (bucket_at bs i).head ≡ none) (sym slot_home)
            c.absent in
        set-IsBuckets tr random n bs (slot p.hash n) _ c.valid (slot-lt p.hash n s) (record {
          chain = (c.hashed, IsFresh-find_node tr law random p.item _ old.chain gone, old.chain);
          home = (refl, old.home);
          count = omega (arith, old.count);
        })

    -- The key of the new node finds it; every other key finds what it found before.
    pub find_in-push :
        (key : A)
        → find_in tr law random n (push bs n p) key
          ≡ (if tr.cmp key p.item then some p.item else find_in tr law random n bs key)
    find_in-push =
        find_in-set bs (slot p.hash n) p.item (some p.item) _ slot_home
          (omega (arith, slot-lt p.hash n s, c.valid.size))
          (λ key. find_node-cons tr law random key p (bucket_at bs (slot p.hash n)).head c.hashed)

    pub length-push : length (flat (push bs n p)) ≡ length (flat bs) + 1
    length-push =
        let e =
          length-flat-set bs (slot p.hash n)
            (bucket (p ∷ (bucket_at bs (slot p.hash n)).head)
              ((bucket_at bs (slot p.hash n)).count + 1))
            (omega (arith, slot-lt p.hash n s, c.valid.size)) in
        omega (arith, e)

    pub filled-push :
        filled (push bs n p)
        ≡ (if (bucket_at bs (slot p.hash n)).count + 1 == 1 then filled bs + 1 else filled bs)
    filled-push =
        let e =
          filled-set bs (slot p.hash n)
            (bucket (p ∷ (bucket_at bs (slot p.hash n)).head)
              ((bucket_at bs (slot p.hash n)).count + 1))
            (omega (arith, slot-lt p.hash n s, c.valid.size)) in
        ground (arith, e, old.count)

  -- The buckets and `fill` of a split.
  pub record IsSplit (t : Split A) : Type 0 where
    pub valid : IsBuckets tr random n t.buckets
    pub fill : t.fill ≡ filled t.buckets

  -- Nodes that may be moved: each key once, and none that is there already.
  pub record CanMove (t : Split A) (ps : List (Node A)) : Type ℓ where
    pub chain : IsChain tr random ps
    pub absent : All (λ p. find_in tr law random n t.buckets p.item ≡ none) ps

  -- What moving them leads to.
  pub record Moves (t : Split A) (ps : List (Node A)) (t' : Split A) : Type ℓ where
    pub split : IsSplit t'
    pub found :
        (key : A)
        → find_in tr law random n t'.buckets key
          ≡ orelse (find_node tr random key ps) (find_in tr law random n t.buckets key)
    pub total : length (flat t'.buckets) ≡ length (flat t.buckets) + length ps

  absent_later :
      (p : Node A) (ps : List (Node A)) (t : Split A)
      → CanPush t.buckets p
      → IsFresh tr random p.item ps
      → All (λ q. find_in tr law random n t.buckets q.item ≡ none) ps
      → All (λ q. find_in tr law random n (push t.buckets n p) q.item ≡ none) ps
  absent_later p [] t c f a = tt
  absent_later p (q ∷ ps) t c f a = (
    find_in-push t.buckets p c q.item ∙ rw (cmp_ne_sym tr law random p.item q.item f.0) a.0,
    absent_later p ps t c f.1 a.1,
  )

  pub move_chain_lem :
      (ps : List (Node A)) (t : Split A) → IsSplit t → CanMove t ps → Moves t ps (move_chain n t ps)
  unfolding move_chain move_node find_node
  move_chain_lem [] t v c = record { split = v; found = λ key. refl; total = omega arith }
  move_chain_lem (p ∷ ps) t v c =
      let cp : CanPush t.buckets p = record {
        valid = v.valid;
        hashed = c.chain.0;
        absent = c.absent.0;
      } in
      let next : IsSplit (move_node n t p) = record {
        valid = push-IsBuckets t.buckets p cp;
        fill = rw (filled-push t.buckets p cp, v.fill) refl;
      } in
      let later = absent_later p ps t cp c.chain.1 c.absent.1 in
      let m =
        move_chain_lem ps (move_node n t p) next (record { chain = c.chain.2; absent = later }) in
      record {
        split = m.split;
        found = λ key.
            m.found key
            ∙ rw (find_in-push t.buckets p cp key, matches-cmp tr law random key p c.chain.0)
                (elim (Bool-cases (tr.cmp key p.item)) [
                  | inl e ↦
                      let gone =
                        find_node-IsFresh tr law random key ps c.chain.2
                          (IsFresh-cmp tr law random key p.item ps e c.chain.1) in
                      rw (e, gone) refl
                  | inr e ↦ rw e refl
                ]);
        total = omega (arith, m.total, length-push t.buckets p cp);
      }
