-- ===== src/Hashtab/Resize.antt =====
-- Well-formed tables, and `resize`.
use portable_lib.Prelude.{
  ℕ, suc, ◌*◌, ◌%◌, ◌^◌, ◌<◌, true, Option, none, List, [], ◌∷◌, ◌++◌, ◌≡◌, refl, sym, ap, ◌∙◌,
  subst, All, Bool-cases, inl, inr, arith, length, replicate, u64_mod, if◌then◌else◌,
  get_or-replicate,
}
use native.Mathlib.Nat.{pow-suc}
use portable_lib.Hashtab.{
  Policy, Node, Bucket, no_bucket, find_node, Split, move_node, move_chain, move_buckets, new_split,
  Memory, Table, resize, ok, enomem,
}
use portable_lib.Hashtab.Chains.{IsPolicy, orelse-none}
use portable_lib.Hashtab.Valid.{
  IsSize, slot-lt, IsBuckets, flat, filled, home_of, find_in, replicate-IsBuckets, flat-replicate,
  filled-replicate, flat-IsChain, find_node-flat,
}
use portable_lib.Hashtab.Move.{IsSplit, Moves, move_chain_lem}

pub move_chain-append {ℓ} :
    {A : Type ℓ} (n : ℕ) (s : Split A) (xs ys : List (Node A))
    → move_chain n s (xs ++ ys) ≡ move_chain n (move_chain n s xs) ys
unfolding move_chain
move_chain-append n s [] ys = refl
move_chain-append n s (p ∷ xs) ys = move_chain-append n (move_node n s p) xs ys

-- The loop over the buckets is one loop over all nodes.
pub move_buckets-flat {ℓ} :
    {A : Type ℓ} (n : ℕ) (s : Split A) (bs : List (Bucket A))
    → move_buckets n s bs ≡ move_chain n s (flat bs)
unfolding move_buckets move_chain
move_buckets-flat n s [] = refl
move_buckets-flat n s (b ∷ bs) =
    move_buckets-flat n (move_chain n s b.head) bs ∙ sym (move_chain-append n s b.head (flat bs))

-- The allocator gives no array that is larger than the address space.
pub record IsMemory (mem : Memory) : Type 0 where
  pub limit : (n : ℕ) → mem.array_given n ≡ true → n < 2 ^ 63

pub double-IsSize : (n : ℕ) → IsSize n → n * 2 < 2 ^ 63 → IsSize (n * 2)
double-IsSize n s h = record {
  log = suc s.log;
  power = omega (arith, s.power, pow-suc 2 s.log);
  small = h;
}

module _ {ℓ} {A : Type ℓ} (tr : Policy A) (law : IsPolicy tr) where
  -- What the table has for a key.
  abbrev pub lookup : Table A → A → Option A
  lookup tab key = find_in tr law tab.random tab.size tab.buckets key

  pub record IsTable (tab : Table A) : Type 0 where
    pub size : IsSize tab.size
    pub buckets : IsBuckets tr tab.random tab.size tab.buckets
    pub fill : tab.stats.fill ≡ filled tab.buckets
    pub nodes : tab.stats.nodes ≡ length (flat tab.buckets)

  pub new_split-IsSplit : (random n : ℕ) (s : IsSize n) → IsSplit tr law random n s (new_split n)
  new_split-IsSplit random n s = record {
    valid = replicate-IsBuckets tr random n;
    fill = sym (filled-replicate A n);
  }

  pub find_in-new :
      (random n : ℕ) (key : A) → find_in tr law random n (replicate n no_bucket) key ≡ none
  unfolding find_node
  find_in-new random n key =
      rw (get_or-replicate n (home_of tr law random n key) (no_bucket {A = A})) refl

  absent_new :
      (random n : ℕ) (ps : List (Node A))
      → All (λ p. find_in tr law random n (replicate n no_bucket) p.item ≡ none) ps
  absent_new random n [] = tt
  absent_new random n (p ∷ ps) = (find_in-new random n p.item, absent_new random n ps)

  -- A table after `resize`, against the one before it.
  pub record Resized (tab tab' : Table A) : Type ℓ where
    pub valid : IsTable tab'
    pub found : (key : A) → lookup tab' key ≡ lookup tab key
    pub nodes : tab'.stats.nodes ≡ tab.stats.nodes

  grown :
      (tab : Table A) (n : ℕ)
      → IsTable tab
      → (s : IsSize n)
      → Moves tr law tab.random n s
          (new_split n)
          (flat tab.buckets)
          (move_buckets n (new_split n) tab.buckets)
  grown tab n v s = rw (move_buckets-flat n (new_split n) tab.buckets) (
      move_chain_lem tr law tab.random n s (flat tab.buckets) (new_split n)
        (new_split-IsSplit tab.random n s)
        (record {
          chain = flat-IsChain tr law tab.random tab.size tab.buckets v.buckets;
          absent = absent_new tab.random n (flat tab.buckets);
        }))

  -- Growing a well-formed table, granted or refused, keeps it well-formed, keeps what each key
  -- finds and the number of nodes.
  pub hashtab_resize-Resized :
      (mem : Memory) (tab : Table A) → IsMemory mem → IsTable tab → Resized tab (resize mem tab).0
  unfolding resize
  hashtab_resize-Resized mem tab m v =
      elim (Bool-cases (mem.array_given (tab.size * 2 % u64_mod))) [
        | inl e ↦
            let plain : tab.size * 2 % u64_mod ≡ tab.size * 2 = omega (arith, v.size.small) in
            let size =
              subst IsSize (sym plain)
                (double-IsSize tab.size v.size (subst (λ n. n < 2 ^ 63) plain (m.limit _ e))) in
            let g = grown tab (tab.size * 2 % u64_mod) v size in
            rw e (record {
              valid = record {
                size = size;
                buckets = g.split.valid;
                fill = g.split.fill;
                nodes = omega (
                  arith,
                  g.total,
                  v.nodes,
                  ap length (flat-replicate {A = A} (tab.size * 2 % u64_mod)),
                );
              };
              found = λ key.
                  g.found key
                  ∙ rw
                      (
                        find_in-new tab.random (tab.size * 2 % u64_mod) key,
                        find_node-flat tr law tab.random tab.size tab.buckets key v.buckets
                            (slot-lt _ tab.size v.size),
                      )
                      (orelse-none (lookup tab key));
              nodes = refl;
            })
        | inr e ↦ rw e (record { valid = v; found = λ key. refl; nodes = refl })
      ]

  pub resize-outcome :
      (mem : Memory) (tab : Table A)
      → (resize mem tab).1 ≡ (if mem.array_given (tab.size * 2 % u64_mod) then ok else enomem)
  unfolding resize
  resize-outcome mem tab = ground arith
