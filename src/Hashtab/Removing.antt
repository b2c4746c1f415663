-- ===== src/Hashtab/Removing.antt =====
-- `remove_node` in its loop, `hash_table_remove` and `hash_table_remove_if`.
use portable_lib.Prelude.{
  ℕ, suc, ◌+◌, ◌<◌, ◌≤◌, Bool, true, false, ◌||◌, ltb, set, Option, none, some, List, [], ◌∷◌, ◌≡◌,
  refl, sym, ap, ◌∙◌, subst, All, Bool-cases, inl, inr, arith, if◌then◌else◌, length, ◌==◌,
}
use portable_lib.Hashtab.{
  Policy, Node, bucket, bucket_at, no_bucket, slot, hashfunc, find_node, matches, Table, Outcome,
  ok, enoent,
}
use portable_lib.Hashtab.Remove.{
  Removal, Sieved, last_of, remove_node, remove_nodes, removal_from, is_linked, hash_table_remove,
}
use portable_lib.Hashtab.Chains.{
  IsPolicy, IsChain, matches-cmp, find_node-cons, IsFresh-cmp, cmp_eq, cmp_right, find_node-IsFresh,
}
use portable_lib.Hashtab.Valid.{home_of, slot-lt, set-IsBuckets, filled-set, length-flat-set}
use portable_lib.Hashtab.Move.{find_in-set}
use portable_lib.Hashtab.Resize.{IsTable, lookup}

module _ {ℓ} {A : Type ℓ} where
  -- The nodes that stay, and the items of those that do not.
  abbrev pub keep : (Node A → Bool) → List (Node A) → List (Node A)
  keep doomed [] = []
  keep doomed (p ∷ ps) = if doomed p then keep doomed ps else p ∷ keep doomed ps

  abbrev pub pick : (Node A → Bool) → List (Node A) → List A
  pick doomed [] = []
  pick doomed (p ∷ ps) = if doomed p then p.item ∷ pick doomed ps else pick doomed ps

  pub length-keep :
      (doomed : Node A → Bool) (ps : List (Node A))
      → length (keep doomed ps) + length (pick doomed ps) ≡ length ps
  length-keep doomed [] = omega arith
  length-keep doomed (p ∷ ps) = elim (Bool-cases (doomed p)) [
    | inl e ↦ rw e (omega (arith, length-keep doomed ps))
    | inr e ↦ rw e (omega (arith, length-keep doomed ps))
  ]

  pub keep-All :
      (doomed : Node A → Bool) (Q : Node A → Type 0) (ps : List (Node A))
      → All Q ps
      → All Q (keep doomed ps)
  keep-All doomed Q [] a = tt
  keep-All doomed Q (p ∷ ps) a = elim (Bool-cases (doomed p)) [
    | inl e ↦ rw e (keep-All doomed Q ps a.1)
    | inr e ↦ rw e (a.0, keep-All doomed Q ps a.1)
  ]

abbrev pub bit : ℕ → ℕ
bit n = if n == 0 then 0 else 1

module _ {ℓ} {A : Type ℓ} (tr : Policy A) where
  -- What a walk of `remove_nodes` over `ps` does, from the state `s`.
  pub record Sieves (doomed : Node A → Bool) (s : Removal A) (ps : List (Node A)) (r : Sieved A)
      : Type ℓ where
    pub kept : r.kept ≡ keep doomed ps
    pub removed : r.removed ≡ pick doomed ps
    pub count : r.after.count + length (pick doomed ps) ≡ s.count
    pub nodes : r.after.stats.nodes + length (pick doomed ps) ≡ s.stats.nodes
    pub fill : r.after.stats.fill + bit s.count ≡ s.stats.fill + bit r.after.count

  removed_one :
      (s : Removal A) (d : A) (linked : Bool)
      → 0 < s.count
      → 0 < s.stats.nodes
      → bit s.count ≤ s.stats.fill
      → (suc (remove_node tr s d linked).count ≡ s.count)
        × (suc (remove_node tr s d linked).stats.nodes ≡ s.stats.nodes)
        × ((remove_node tr s d linked).stats.fill + bit s.count
            ≡ s.stats.fill + bit (remove_node tr s d linked).count)
        × (bit (remove_node tr s d linked).count ≤ (remove_node tr s d linked).stats.fill)
  unfolding remove_node
  removed_one s d linked c n f = (ground arith, ground arith, ground arith, ground arith)

  pub remove_nodes-Sieves :
      (doomed : Node A → Bool) (front : Bool) (s : Removal A) (ps : List (Node A))
      → length ps ≤ s.count
      → length ps ≤ s.stats.nodes
      → bit s.count ≤ s.stats.fill
      → Sieves doomed s ps (remove_nodes tr doomed front s ps)
  unfolding remove_nodes
  remove_nodes-Sieves doomed front s [] c n f = record {
    kept = refl;
    removed = refl;
    count = omega arith;
    nodes = omega arith;
    fill = refl;
  }
  remove_nodes-Sieves doomed front s (p ∷ ps) c n f = elim (Bool-cases (doomed p)) [
    | inl e ↦
        let linked = front || is_linked ps in
        let s' = remove_node tr s p.item linked in
        let one = removed_one s p.item linked (omega (arith, c)) (omega (arith, n)) f in
        let r =
          remove_nodes-Sieves doomed (front || false) s' ps (omega (arith, one.0, c))
            (omega (arith, one.1, n)) one.3 in
        record {
          kept = rw e r.kept;
          removed = rw e (ap (λ ds. p.item ∷ ds) r.removed);
          count = rw e (omega (arith, one, r.count));
          nodes = rw e (omega (arith, one, r.nodes));
          fill = rw e (omega (arith, one, r.fill));
        }
    | inr e ↦
        let r =
          remove_nodes-Sieves doomed (front || true) s ps (omega (arith, c)) (omega (arith, n)) f in
        record {
          kept = rw e (ap (λ qs. p ∷ qs) r.kept);
          removed = rw e r.removed;
          count = rw e r.count;
          nodes = rw e r.nodes;
          fill = rw e r.fill;
        }
  ]

  held_one :
      (s : Removal A) (d : A) (k : ℕ) (front : Bool) (ps : List (Node A))
      → front ≡ ltb 0 k
      → s.count ≡ k + suc (length ps)
      → s.held ≡ true
      → ((remove_node tr s d (front || is_linked ps)).count ≡ k + length ps)
        × ((remove_node tr s d (front || is_linked ps)).held ≡ true)
  unfolding remove_node
  held_one s d k front [] f c h = (ground arith, ground arith)
  held_one s d k front (q ∷ ps) f c h = (ground arith, ground arith)

  -- The assertions hold: `k` nodes stay in front, and the count is that of all nodes.
  pub remove_nodes-held :
      (doomed : Node A → Bool) (k : ℕ) (front : Bool) (s : Removal A) (ps : List (Node A))
      → front ≡ ltb 0 k
      → s.count ≡ k + length ps
      → s.held ≡ true
      → (remove_nodes tr doomed front s ps).after.held ≡ true
  unfolding remove_nodes
  remove_nodes-held doomed k front s [] f c h = h
  remove_nodes-held doomed k front s (p ∷ ps) f c h = elim (Bool-cases (doomed p)) [
    | inl e ↦
        let one = held_one s p.item k front ps f c h in
        rw e (
          remove_nodes-held doomed k (front || false)
            (remove_node tr s p.item (front || is_linked ps)) ps (ground (arith, f)) one.0 one.1)
    | inr e ↦ rw e (
        remove_nodes-held doomed (k + 1) (front || true) s ps (ground (arith, f)) (omega (arith, c))
          h)
  ]

  module _ (law : IsPolicy tr) (random : ℕ) (doomed : Node A → Bool) where
    pub keep-IsChain :
        (ps : List (Node A)) → IsChain tr random ps → IsChain tr random (keep doomed ps)
    keep-IsChain [] c = tt
    keep-IsChain (p ∷ ps) c = elim (Bool-cases (doomed p)) [
      | inl e ↦ rw e (keep-IsChain ps c.2)
      | inr e ↦
          rw e
            (c.0, keep-All doomed (λ q. tr.cmp p.item q.item ≡ false) ps c.1, keep-IsChain ps c.2)
    ]

  -- The loop of `hash_table_remove` leaves every other key.
  find_node-keep :
      (law : IsPolicy tr) (random : ℕ) (d key : A) (ps : List (Node A))
      → IsChain tr random ps
      → find_node tr random key (keep (matches tr random d) ps)
        ≡ (if tr.cmp key d then none else find_node tr random key ps)
  unfolding find_node
  find_node-keep law random d key [] c = ground arith
  find_node-keep law random d key (p ∷ ps) c =
      rw (matches-cmp tr law random d p c.0, matches-cmp tr law random key p c.0)
        (elim (Bool-cases (tr.cmp d p.item)) [
          | inl e ↦
              rw
                (
                  e,
                  find_node-keep law random d key ps c.2,
                  sym (cmp_right tr law random d p.item key e),
                )
                (ground arith)
          | inr n ↦ rw n (
              find_node-cons tr law random key p (keep (matches tr random d) ps) c.0
              ∙ rw (find_node-keep law random d key ps c.2) (elim (Bool-cases (tr.cmp key d)) [
                | inl same ↦ rw (same, cmp_eq tr law random key d p.item same ∙ n) refl
                | inr other ↦ rw other refl
              ]))
        ])

  -- It takes out what the search finds, and nothing else.
  pick-find_node :
      (law : IsPolicy tr) (random : ℕ) (d : A) (ps : List (Node A))
      → IsChain tr random ps
      → pick (matches tr random d) ps
        ≡ elim (find_node tr random d ps) [ none ↦ [] | some e ↦ e ∷ [] ]
  unfolding find_node
  pick-find_node law random d [] c = refl
  pick-find_node law random d (p ∷ ps) c = elim (Bool-cases (matches tr random d p)) [
    | inl e ↦
        let same = sym (matches-cmp tr law random d p c.0) ∙ e in
        let gone =
          find_node-IsFresh tr law random d ps c.2
            (IsFresh-cmp tr law random d p.item ps same c.1) in
        let more = pick-find_node law random d ps c.2 in
        rw e (
          ap (λ ds. p.item ∷ ds)
            (subst (λ o. pick (matches tr random d) ps ≡ elim o [ none ↦ [] | some x ↦ x ∷ [] ])
              gone more))
    | inr e ↦ rw e (pick-find_node law random d ps c.2)
  ]

  -- A call of `hash_table_remove` with a key.
  pub record Removes (law : IsPolicy tr) (tab : Table A) (d : A) (r : Table A × Outcome × Option A)
      : Type ℓ where
    pub valid : IsTable tr law r.0
    pub found :
        (key : A) → lookup tr law r.0 key ≡ (if tr.cmp key d then none else lookup tr law tab key)
    pub outcome : r.1 ≡ elim (lookup tr law tab d) [ none ↦ enoent | some e ↦ ok ]
    pub value : r.2 ≡ lookup tr law tab d

  outcome_of :
      (ds : List A) (o : Option A)
      → ds ≡ elim o [ none ↦ [] | some e ↦ e ∷ [] ]
      → ((if length ds == 0 then enoent else ok) ≡ elim o [ none ↦ enoent | some e ↦ ok ])
        × (last_of ds ≡ o)
  outcome_of ds none e = rw e (refl, refl)
  outcome_of ds (some x) e = rw e (refl, refl)

  module _ (law : IsPolicy tr) (tab : Table A) (v : IsTable tr law tab) where
    -- A bucket's share in the statistics.
    pub share :
        (i : ℕ)
        → i < tab.size
        → (bit (bucket_at tab.buckets i).count ≤ tab.stats.fill)
          × (length (bucket_at tab.buckets i).head ≤ tab.stats.nodes)
    share i lt =
        let inside : i < length tab.buckets = omega (arith, v.buckets.size) in
        let f = filled-set tab.buckets i no_bucket inside in
        let n = length-flat-set tab.buckets i no_bucket inside in
        (ground (arith, v.fill, f, (v.buckets.each i lt).count), omega (arith, v.nodes, n))

    -- hash_table_remove returns without a failed assertion, keeps a table well-formed, removes the key and no other, returns 0 with
    -- the item that was there and ENOENT where there was none.
    pub hash_table_remove-Removes :
        (d : A)
        → (r : Table A × Outcome × Option A) × (hash_table_remove tr tab (some d) ≡ some r)
          × Removes law tab d r
    unfolding hash_table_remove
    hash_table_remove-Removes d =
        let i = home_of tr law tab.random tab.size d in
        let lt = slot-lt (hashfunc tr tab.random d) tab.size v.size in
        let b = bucket_at tab.buckets i in
        let vb = v.buckets.each i lt in
        let doomed = matches tr tab.random d in
        let start = removal_from b tab.stats tab.gone in
        let s =
          remove_nodes-Sieves doomed false start b.head (omega (arith, vb.count)) (share i lt).1
            (share i lt).0 in
        let r = remove_nodes tr doomed false start b.head in
        let sane =
          remove_nodes-held doomed 0 false start b.head refl (omega (arith, vb.count)) refl in
        let b' = bucket r.kept r.after.count in
        let len = length-keep doomed b.head in
        let count : r.after.count ≡ length r.kept =
          omega (arith, s.count, len, ap length s.kept, vb.count) in
        let inside : i < length tab.buckets = omega (arith, lt, v.buckets.size) in
        let out =
          outcome_of r.removed (lookup tr law tab d)
            (s.removed ∙ pick-find_node law tab.random d b.head vb.chain) in
        let done : Table A × Outcome × Option A = (
          record tab { buckets = set tab.buckets i b'; stats = r.after.stats; gone = r.after.gone },
          if length r.removed == 0 then enoent else ok,
          last_of r.removed,
        ) in
        (
          done,
          rw sane refl,
          record {
            valid = record {
              size = v.size;
              buckets = set-IsBuckets tr tab.random tab.size tab.buckets i b' v.buckets lt (record {
                chain =
                    subst (IsChain tr tab.random) (sym s.kept)
                      (keep-IsChain law tab.random doomed b.head vb.chain);
                home =
                    subst (All (λ p. slot p.hash tab.size ≡ i)) (sym s.kept)
                      (keep-All doomed (λ p. slot p.hash tab.size ≡ i) b.head vb.home);
                count = count;
              });
              fill =
                  ground
                    (arith, v.fill, s.fill, filled-set tab.buckets i b' inside, vb.count, count);
              nodes = omega (
                arith,
                v.nodes,
                s.nodes,
                length-flat-set tab.buckets i b' inside,
                len,
                ap length s.kept,
              );
            };
            found =
                find_in-set tr law tab.random tab.size v.size tab.buckets i d none b' refl inside
                  (λ key.
                    ap (find_node tr tab.random key) s.kept
                    ∙ find_node-keep law tab.random d key b.head vb.chain);
            outcome = out.0;
            value = out.1;
          },
        )
