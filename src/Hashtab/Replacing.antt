-- ===== src/Hashtab/Replacing.antt =====
-- `hash_table_replace`: the node that has the key takes the new item.
use portable_lib.Prelude.{
  ◌⊎◌, ℕ, ◌<◌, true, false, none, some, List, [], ◌∷◌, ◌≡◌, refl, sym, ◌∙◌, subst, All, Bool-cases,
  inl, inr, arith, if◌then◌else◌, length, Option, Bool,
}
use portable_lib.Hashtab.{
  Policy, Node, node, bucket, bucket_at, slot, hashfunc, find_node, matches, put_data, Memory,
  Table, Outcome, ok, enomem, hash_table_replace, replacing, collide, destroy,
}
use portable_lib.Hashtab.Chains.{
  IsPolicy, IsHashed, IsFresh, IsChain, hash_eq, matches-cmp, find_node-cons, cmp_ne_sym,
  IsFresh-cmp, cmp_eq, cmp_right,
}
use portable_lib.Hashtab.Valid.{home_of, slot-lt, set-IsBuckets, filled-set, length-flat-set}
use portable_lib.Hashtab.Move.{find_in-set}
use portable_lib.Hashtab.Resize.{IsMemory, IsTable, lookup}
use portable_lib.Hashtab.Adding.{
  Added, insert_internal-some, insert_internal-none, add_node-Added, add_node-outcome, new_node,
}

module _ {ℓ} {A : Type ℓ} (tr : Policy A) (law : IsPolicy tr) where
  module _ (random : ℕ) (d : A) where
    -- The two ways through the loop.
    put_data-here :
        (p : Node A) (ps : List (Node A))
        → IsHashed tr random p
        → tr.cmp d p.item ≡ true
        → put_data tr random d (p ∷ ps) ≡ node p.hash d ∷ ps
    unfolding put_data
    put_data-here p ps h e = rw (matches-cmp tr law random d p h, e) refl

    put_data-later :
        (p : Node A) (ps : List (Node A))
        → IsHashed tr random p
        → tr.cmp d p.item ≡ false
        → put_data tr random d (p ∷ ps) ≡ p ∷ put_data tr random d ps
    unfolding put_data
    put_data-later p ps h e = rw (matches-cmp tr law random d p h, e) refl

    put_data-All :
        (Q : ℕ → Type 0) (ps : List (Node A))
        → All (λ p. Q p.hash) ps
        → All (λ p. Q p.hash) (put_data tr random d ps)
    unfolding put_data
    put_data-All Q [] a = tt
    put_data-All Q (p ∷ ps) a = elim (Bool-cases (matches tr random d p)) [
      | inl e ↦ rw e a
      | inr e ↦ rw e (a.0, put_data-All Q ps a.1)
    ]

    length-put_data : (ps : List (Node A)) → length (put_data tr random d ps) ≡ length ps
    unfolding put_data
    length-put_data [] = refl
    length-put_data (p ∷ ps) = elim (Bool-cases (matches tr random d p)) [
      | inl e ↦ rw e refl
      | inr e ↦ rw e (omega (arith, length-put_data ps))
    ]

    put_data-IsFresh :
        (x : A) (ps : List (Node A))
        → tr.cmp x d ≡ false
        → IsFresh tr random x ps
        → IsFresh tr random x (put_data tr random d ps)
    unfolding put_data
    put_data-IsFresh x [] n f = tt
    put_data-IsFresh x (p ∷ ps) n f = elim (Bool-cases (matches tr random d p)) [
      | inl e ↦ rw e (n, f.1)
      | inr e ↦ rw e (f.0, put_data-IsFresh x ps n f.1)
    ]

    put_data-IsChain :
        (ps : List (Node A)) → IsChain tr random ps → IsChain tr random (put_data tr random d ps)
    unfolding put_data
    put_data-IsChain [] c = tt
    put_data-IsChain (p ∷ ps) c = elim (Bool-cases (tr.cmp d p.item)) [
      | inl e ↦ rw (put_data-here p ps c.0 e) (
        c.0 ∙ sym (hash_eq tr law random d p.item e),
        IsFresh-cmp tr law random d p.item ps e c.1,
        c.2,
      )
      | inr e ↦ rw (put_data-later p ps c.0 e) (
        c.0,
        put_data-IsFresh p.item ps (cmp_ne_sym tr law random d p.item e) c.1,
        put_data-IsChain ps c.2,
      )
    ]

    find_node-put_data :
        (key : A) (e : A) (ps : List (Node A))
        → IsChain tr random ps
        → find_node tr random d ps ≡ some e
        → find_node tr random key (put_data tr random d ps)
          ≡ (if tr.cmp key d then some d else find_node tr random key ps)
    unfolding find_node
    find_node-put_data key e [] c h = absurd (ground (arith, h))
    find_node-put_data key e (p ∷ ps) c h = elim (Bool-cases (tr.cmp d p.item)) [
      | inl same ↦ rw (put_data-here p ps c.0 same) (
          find_node-cons tr law random key (node p.hash d) ps
            (c.0 ∙ sym (hash_eq tr law random d p.item same))
          ∙ rw (matches-cmp tr law random key p c.0) (elim (Bool-cases (tr.cmp key d)) [
            | inl e ↦ rw e refl
            | inr n ↦ rw (n, sym (cmp_right tr law random d p.item key same) ∙ n) refl
          ]))
      | inr other ↦ rw (put_data-later p ps c.0 other) (
          find_node-cons tr law random key p _ c.0
          ∙ rw
              (
                matches-cmp tr law random key p c.0,
                find_node-put_data key e ps c.2 (rest p ps c.0 other h),
              )
              (elim (Bool-cases (tr.cmp key d)) [
                | inl same ↦ rw (same, cmp_eq tr law random key d p.item same ∙ other) refl
                | inr n ↦ rw n refl
              ]))
    ]
      where
        rest :
            (p : Node A) (ps : List (Node A))
            → IsHashed tr random p
            → tr.cmp d p.item ≡ false
            → find_node tr random d (p ∷ ps) ≡ some e
            → find_node tr random d ps ≡ some e
        rest p ps hp other h =
            subst (λ b. (if b then some p.item else find_node tr random d ps) ≡ some e) other
              (sym (find_node-cons tr law random d p ps hp) ∙ h)

  -- A table in which the item of one key is another one.
  pub record Replaced (tab : Table A) (d e : A) (tab' : Table A) : Type ℓ where
    pub valid : IsTable tr law tab'
    pub found :
        (key : A)
        → lookup tr law tab' key ≡ (if tr.cmp key d then some d else lookup tr law tab key)
    pub nodes : tab'.stats.nodes ≡ tab.stats.nodes
    pub gone : tab'.gone ≡ destroy tr e tab.gone

  collide-Replaced :
      (tab : Table A) (d e : A)
      → IsTable tr law tab
      → lookup tr law tab d ≡ some e
      → Replaced tab d e (collide tr tab (slot (hashfunc tr tab.random d) tab.size) d e replacing).0
  unfolding collide
  collide-Replaced tab d e v h =
      let i = home_of tr law tab.random tab.size d in
      let lt = slot-lt (hashfunc tr tab.random d) tab.size v.size in
      let b = bucket_at tab.buckets i in
      let vb = v.buckets.each i lt in
      let b' = bucket (put_data tr tab.random d b.head) b.count in
      let len = length-put_data tab.random d b.head in
      let inside : i < length tab.buckets = omega (arith, lt, v.buckets.size) in
      record {
        valid = record {
          size = v.size;
          buckets = set-IsBuckets tr tab.random tab.size tab.buckets i b' v.buckets lt (record {
            chain = put_data-IsChain tab.random d b.head vb.chain;
            home = put_data-All tab.random d (λ x. slot x tab.size ≡ i) b.head vb.home;
            count = vb.count ∙ sym len;
          });
          fill = ground (arith, v.fill, filled-set tab.buckets i b' inside, len);
          nodes = omega (arith, v.nodes, length-flat-set tab.buckets i b' inside, len);
        };
        found =
            find_in-set tr law tab.random tab.size v.size tab.buckets i d (some d) b' refl inside
              (λ key. find_node-put_data tab.random d key e b.head vb.chain h);
        nodes = refl;
        gone = refl;
      }

  collide-ok : (tab : Table A) (i : ℕ) (d e : A) → (collide tr tab i d e replacing).1 ≡ ok
  unfolding collide
  collide-ok tab i d e = refl

  replace_there :
      (tab : Table A) (d e : A)
      → IsTable tr law tab
      → lookup tr law tab d ≡ some e
      → (mem : Memory)
      → Replaced tab d e (hash_table_replace tr mem tab (some d)).0
        × ((hash_table_replace tr mem tab (some d)).1 ≡ ok)
  unfolding hash_table_replace
  replace_there tab d e v h mem =
      rw (insert_internal-some tr law mem tab d e replacing h)
        (collide-Replaced tab d e v h, collide-ok tab _ d e)

  replace_refused :
      (tab : Table A) (d : A)
      → lookup tr law tab d ≡ none
      → (mem : Memory) → mem.node_given ≡ false
      → hash_table_replace tr mem tab (some d) ≡ (tab, enomem)
  unfolding hash_table_replace
  replace_refused tab d h mem g = rw (insert_internal-none tr law mem tab d replacing h, g) refl

  replace_new :
      (tab : Table A) (d : A)
      → IsTable tr law tab
      → lookup tr law tab d ≡ none
      → (mem : Memory) → IsMemory mem
      → mem.node_given ≡ true
      → Added tr law tab d (hash_table_replace tr mem tab (some d)).0
        × (((hash_table_replace tr mem tab (some d)).1 ≡ ok)
            ⊎ ((hash_table_replace tr mem tab (some d)).1 ≡ enomem))
  unfolding hash_table_replace
  replace_new tab d v h mem m g = rw (insert_internal-none tr law mem tab d replacing h) (
      simp g (
        add_node-Added tr law tab d v h mem m,
        add_node-outcome tr law mem tab (new_node tr law tab d),
      ))

  -- What a call of `hash_table_replace` does, by what the key finds and whether a node is given.
  abbrev pub IsReplaced : Option A → Bool → Table A → A → Table A × Outcome → Type ℓ
  IsReplaced (some e) given tab d r = Replaced tab d e r.0 × (r.1 ≡ ok)
  IsReplaced none false tab d r = r ≡ (tab, enomem)
  IsReplaced none true tab d r = Added tr law tab d r.0 × ((r.1 ≡ ok) ⊎ (r.1 ≡ enomem))

  -- hash_table_replace puts the item in the place of the one with its key, which is handed to
  -- dtor, or adds it where the key is not there and a node is given; with no node it returns
  -- ENOMEM.
  pub hash_table_replace-IsReplaced :
      (mem : Memory) (tab : Table A) (d : A)
      → IsMemory mem
      → IsTable tr law tab
      → IsReplaced
          (lookup tr law tab d)
          mem.node_given
          tab
          d
          (hash_table_replace tr mem tab (some d))
  hash_table_replace-IsReplaced mem tab d m v =
      decide (lookup tr law tab d) mem.node_given refl refl
    where
      decide :
          (o : Option A) (given : Bool)
          → lookup tr law tab d ≡ o
          → mem.node_given ≡ given
          → IsReplaced o given tab d (hash_table_replace tr mem tab (some d))
      decide (some e) given h g = replace_there tab d e v h mem
      decide none false h g = replace_refused tab d h mem g
      decide none true h g = replace_new tab d v h mem m g
