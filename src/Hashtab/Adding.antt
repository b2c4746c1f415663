-- ===== src/Hashtab/Adding.antt =====
-- `insert_internal` where no node has the key: the new node, and the growth of the table.
use portable_lib.Prelude.{
  subst, sym, ◌⊎◌, ◌+◌, ◌*◌, ◌%◌, true, false, ◌&&◌, Option, none, some, ◌≡◌, refl, ◌∙◌, Bool-cases,
  inl, inr, arith, if◌then◌else◌, ◌==◌, u64_mod, Bool, Option-cases,
}
use portable_lib.Hashtab.{
  Policy, Node, node, bucket_at, slot, hashfunc, Memory, Table, resize, Outcome, ok, enomem, eexist,
  push_node, is_full, add_node, insert_internal, hash_table_insert, hash_table_probe, Op, nodup,
  probing, collide,
}
use portable_lib.Hashtab.Chains.{IsPolicy}
use portable_lib.Hashtab.Move.{CanPush, push-IsBuckets, find_in-push, filled-push, length-push}
use portable_lib.Hashtab.Resize.{
  IsMemory, IsTable, lookup, Resized, hashtab_resize-Resized, resize-outcome,
}

module _ {ℓ} {A : Type ℓ} (tr : Policy A) (law : IsPolicy tr) where
  -- A table that has one more item.
  pub record Added (tab : Table A) (d : A) (tab' : Table A) : Type ℓ where
    pub valid : IsTable tr law tab'
    pub found :
        (key : A)
        → lookup tr law tab' key ≡ (if tr.cmp key d then some d else lookup tr law tab key)
    pub nodes : tab'.stats.nodes ≡ tab.stats.nodes + 1

  abbrev pub new_node : Table A → A → Node A
  new_node tab d = node (hashfunc tr tab.random d) d

  module _ (tab : Table A) (d : A) (v : IsTable tr law tab)
      (absent : lookup tr law tab d ≡ none) where
    can_push : CanPush tr law tab.random tab.size v.size tab.buckets (new_node tab d)
    can_push = record { valid = v.buckets; hashed = refl; absent = absent }

    push_node-Added : Added tab d (push_node tab (new_node tab d))
    unfolding push_node
    push_node-Added =
        let s = v.size in
        record {
          valid = record {
            size = s;
            buckets =
                push-IsBuckets tr law tab.random tab.size s tab.buckets (new_node tab d) can_push;
            fill =
                rw
                  (
                    filled-push tr law tab.random tab.size s tab.buckets (new_node tab d) can_push,
                    v.fill,
                  )
                  refl;
            nodes = omega (
              arith,
              v.nodes,
              length-push tr law tab.random tab.size s tab.buckets (new_node tab d) can_push,
            );
          };
          found = find_in-push tr law tab.random tab.size s tab.buckets (new_node tab d) can_push;
          nodes = refl;
        }

    Added-Resized : (t t' : Table A) → Added tab d t → Resized tr law t t' → Added tab d t'
    Added-Resized t t' a r = record {
      valid = r.valid;
      found = λ key. r.found key ∙ a.found key;
      nodes = r.nodes ∙ a.nodes;
    }

    pub add_node-Added :
        (mem : Memory) → IsMemory mem → Added tab d (add_node mem tab (new_node tab d)).0
    unfolding add_node
    add_node-Added mem m =
        let first = (bucket_at tab.buckets (slot (new_node tab d).hash tab.size)).count + 1 == 1 in
        let p = push_node-Added in
        elim (Bool-cases (first && is_full (push_node tab (new_node tab d)))) [
          | inl e ↦ rw e (
              Added-Resized (push_node tab (new_node tab d))
                (resize mem (push_node tab (new_node tab d))).0 p
                (hashtab_resize-Resized tr law mem (push_node tab (new_node tab d)) m p.valid))
          | inr e ↦ rw e p
        ]

  pub insert_internal-some :
      (mem : Memory) (tab : Table A) (d e : A) (op : Op)
      → lookup tr law tab d ≡ some e
      → insert_internal tr mem tab d op
        ≡ collide tr tab (slot (hashfunc tr tab.random d) tab.size) d e op
  unfolding insert_internal
  insert_internal-some mem tab d e op h = rw (h, insert_internal) refl

  pub insert_internal-none :
      (mem : Memory) (tab : Table A) (d : A) (op : Op)
      → lookup tr law tab d ≡ none
      → insert_internal tr mem tab d op ≡ (
          if mem.node_given
          then ((add_node mem tab (new_node tab d)).0, (add_node mem tab (new_node tab d)).1, d)
          else (tab, enomem, d))
  unfolding insert_internal
  insert_internal-none mem tab d op h = rw (h, insert_internal) refl

  -- The branches of `hash_table_insert`.
  record Inserts (mem : Memory) (tab : Table A) (d : A) (r : Table A × Outcome) : Type ℓ where
    clash : (e : A) → lookup tr law tab d ≡ some e → r ≡ (tab, eexist)
    refused : lookup tr law tab d ≡ none → mem.node_given ≡ false → r ≡ (tab, enomem)
    added :
        lookup tr law tab d ≡ none
        → mem.node_given ≡ true
        → Added tab d r.0 × ((r.1 ≡ ok) ⊎ (r.1 ≡ enomem))

  -- A growth that fails is reported, though the node is there.
  pub add_node-outcome :
      (mem : Memory) (tab : Table A) (e : Node A)
      → ((add_node mem tab e).1 ≡ ok) ⊎ ((add_node mem tab e).1 ≡ enomem)
  unfolding add_node
  add_node-outcome mem tab e =
      let first = (bucket_at tab.buckets (slot e.hash tab.size)).count + 1 == 1 in
      let given = mem.array_given ((push_node tab e).size * 2 % u64_mod) in
      elim (Bool-cases (first && is_full (push_node tab e))) [
        | inl f ↦ elim (Bool-cases given) [
          | inl g ↦ inl (rw (f, resize-outcome tr law mem (push_node tab e), g) refl)
          | inr g ↦ inr (rw (f, resize-outcome tr law mem (push_node tab e), g) refl)
        ]
        | inr f ↦ inl (rw f refl)
      ]

  insert_branches :
      (mem : Memory) (tab : Table A) (d : A)
      → IsMemory mem
      → IsTable tr law tab
      → Inserts mem tab d (hash_table_insert tr mem tab (some d))
  unfolding hash_table_insert collide
  insert_branches mem tab d m v = record {
    clash = λ e h. rw (insert_internal-some mem tab d e nodup h) refl;
    refused = λ h g. rw (insert_internal-none mem tab d nodup h, g) refl;
    added = λ h g.
        rw (insert_internal-none mem tab d nodup h)
          (simp g (add_node-Added tab d v h mem m, add_node-outcome mem tab (new_node tab d)));
  }

  -- What a call of `hash_table_insert` does, by what the key finds and whether a node is given.
  abbrev pub IsInserted : Option A → Bool → Table A → A → Table A × Outcome → Type ℓ
  IsInserted (some e) given tab d r = r ≡ (tab, eexist)
  IsInserted none false tab d r = r ≡ (tab, enomem)
  IsInserted none true tab d r = Added tab d r.0 × ((r.1 ≡ ok) ⊎ (r.1 ≡ enomem))

  -- hash_table_insert leaves a table as it is and returns EEXIST where the key is there, or
  -- ENOMEM where it is not and no node is given; else the item is added in a well-formed table,
  -- and the result is 0 or ENOMEM.
  pub hash_table_insert-IsInserted :
      (mem : Memory) (tab : Table A) (d : A)
      → IsMemory mem
      → IsTable tr law tab
      → IsInserted
          (lookup tr law tab d)
          mem.node_given
          tab
          d
          (hash_table_insert tr mem tab (some d))
  hash_table_insert-IsInserted mem tab d m v = decide (lookup tr law tab d) mem.node_given refl refl
    where
      decide :
          (o : Option A) (given : Bool)
          → lookup tr law tab d ≡ o
          → mem.node_given ≡ given
          → IsInserted o given tab d (hash_table_insert tr mem tab (some d))
      decide (some e) given h g = (insert_branches mem tab d m v).clash e h
      decide none false h g = (insert_branches mem tab d m v).refused h g
      decide none true h g = (insert_branches mem tab d m v).added h g

  add_node-ok :
      (mem : Memory) (tab : Table A) (e : Node A)
      → mem.array_given (tab.size * 2 % u64_mod) ≡ true
      → (add_node mem tab e).1 ≡ ok
  unfolding add_node push_node
  add_node-ok mem tab e all =
      let first = (bucket_at tab.buckets (slot e.hash tab.size)).count + 1 == 1 in
      elim (Bool-cases (first && is_full (push_node tab e))) [
        | inl f ↦ rw (f, resize-outcome tr law mem (push_node tab e), all) refl
        | inr f ↦ rw f refl
      ]

  -- What a call of `hash_table_probe` does, by what the key finds.
  abbrev pub IsProbed : Option A → Table A → A → Table A × Option A → Type ℓ
  IsProbed (some e) tab d r = r ≡ (tab, some e)
  IsProbed none tab d r = Added tab d r.0 × (r.1 ≡ some d)

  -- With memory given, hash_table_probe returns the item that has the key and leaves the table
  -- as it is, or adds the new item and returns it.
  pub hash_table_probe-IsProbed :
      (mem : Memory) (tab : Table A) (d : A)
      → IsMemory mem
      → mem.node_given ≡ true
      → mem.array_given (tab.size * 2 % u64_mod) ≡ true
      → IsTable tr law tab
      → IsProbed (lookup tr law tab d) tab d (hash_table_probe tr mem tab (some d))
  unfolding hash_table_probe collide
  hash_table_probe-IsProbed mem tab d m g all v = elim (Option-cases (lookup tr law tab d)) [
    | inl h ↦
        subst (λ o. IsProbed o tab d (hash_table_probe tr mem tab (some d))) (sym h)
          (rw (insert_internal-none mem tab d probing h) (
            simp g
              (add_node-Added tab d v h mem m, rw (add_node-ok mem tab (new_node tab d) all) refl)))
    | inr (e, h) ↦
        subst (λ o. IsProbed o tab d (hash_table_probe tr mem tab (some d))) (sym h)
          (rw (insert_internal-some mem tab d e probing h) refl)
  ]
