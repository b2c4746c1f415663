-- ===== src/Hashtab/Sweeping.antt =====
-- `hash_table_remove_if`: the walk over all buckets.
use portable_lib.Prelude.{
  ℕ, zero, suc, ◌+◌, ◌<◌, ◌≤◌, Bool, true, false, Option, none, some, List, [], ◌∷◌, ◌≡◌, refl, sym,
  ap, ◌∙◌, subst, All, Bool-cases, inl, inr, arith, if◌then◌else◌, length, length-append,
}
use portable_lib.Hashtab.{Policy, Node, Bucket, bucket, bucket_at, Stats, slot, find_node, Table}
use portable_lib.Hashtab.Remove.{
  Field, Swept, remove_nodes, removal_from, sweep, hash_table_remove_if,
}
use portable_lib.Hashtab.Chains.{
  IsPolicy, IsChain, matches-cmp, find_node-cons, find_node-IsFresh, IsFresh-cmp,
}
use portable_lib.Hashtab.Valid.{flat, filled, is_filled, home_of, slot-lt, IsBucket, IsBuckets}
use portable_lib.Hashtab.Resize.{IsTable, lookup}
use portable_lib.Hashtab.Removing.{
  keep, length-keep, keep-All, keep-IsChain, bit, remove_nodes-Sieves, remove_nodes-held,
}

module _ {ℓ} {A : Type ℓ} (pred : Field A → Bool) where
  -- The answer for the field in which an item is stored.
  abbrev pub says : A → Bool
  says d = pred (record { data_at = d })

  abbrev pub doomed : Node A → Bool
  doomed p = says p.item

  abbrev pub thin : Bucket A → Bucket A
  thin b = bucket (keep doomed b.head) (length (keep doomed b.head))

  abbrev pub thin_all : List (Bucket A) → List (Bucket A)
  thin_all [] = []
  thin_all (b ∷ bs) = thin b ∷ thin_all bs

  pub bucket_at-thin :
      (bs : List (Bucket A)) (i : ℕ) → bucket_at (thin_all bs) i ≡ thin (bucket_at bs i)
  bucket_at-thin [] i = refl
  bucket_at-thin (b ∷ bs) zero = refl
  bucket_at-thin (b ∷ bs) (suc i) = bucket_at-thin bs i

  pub length-thin : (bs : List (Bucket A)) → length (thin_all bs) ≡ length bs
  length-thin [] = refl
  length-thin (b ∷ bs) = ap suc (length-thin bs)

  -- What is kept for a key where it is found.
  abbrev pub spared : Option A → Option A
  spared none = none
  spared (some e) = if says e then none else some e

  pub find_node-thin :
      (tr : Policy A) (law : IsPolicy tr) (random : ℕ) (key : A) (ps : List (Node A))
      → IsChain tr random ps
      → find_node tr random key (keep doomed ps) ≡ spared (find_node tr random key ps)
  unfolding find_node
  find_node-thin tr law random key [] c = refl
  find_node-thin tr law random key (p ∷ ps) c =
      let more = find_node-thin tr law random key ps c.2 in
      rw (matches-cmp tr law random key p c.0) (elim (Bool-cases (says p.item)) [
        | inl e ↦ rw e (elim (Bool-cases (tr.cmp key p.item)) [
          | inl same ↦
              let gone =
                find_node-IsFresh tr law random key ps c.2
                  (IsFresh-cmp tr law random key p.item ps same c.1) in
              more ∙ rw (gone, same, e) refl
          | inr other ↦ rw other more
        ])
        | inr n ↦ rw n (
            find_node-cons tr law random key p (keep doomed ps) c.0
            ∙ (elim (Bool-cases (tr.cmp key p.item)) [
              | inl same ↦ rw (same, n) refl
              | inr other ↦ rw other more
            ]))
      ])

  abbrev AreCounted : List (Bucket A) → Type 0
  AreCounted bs = All (λ b. b.count ≡ length b.head) bs

  are_counted :
      (bs : List (Bucket A))
      → ((i : ℕ) → i < length bs → (bucket_at bs i).count ≡ length (bucket_at bs i).head)
      → AreCounted bs
  are_counted [] h = tt
  are_counted (b ∷ bs) h = (h 0 (omega arith), are_counted bs (λ i lt. h (suc i) (omega arith)))

  -- What the walk over `bs` does from the statistics `st`, with `n` nodes removed before it.
  record Sweeps (n : ℕ) (st : Stats) (bs : List (Bucket A)) (r : Swept A) : Type ℓ where
    kept : r.buckets ≡ thin_all bs
    retval : r.retval + length (flat r.buckets) ≡ n + length (flat bs)
    nodes : r.stats.nodes + length (flat bs) ≡ st.nodes + length (flat r.buckets)
    fill : r.stats.fill + filled bs ≡ st.fill + filled r.buckets
    held : r.held ≡ true

  sweep-Sweeps :
      (tr : Policy A) (n : ℕ) (st : Stats) (gone : List A) (bs : List (Bucket A))
      → AreCounted bs
      → length (flat bs) ≤ st.nodes
      → filled bs ≤ st.fill
      → Sweeps n st bs (sweep tr pred n st gone bs)
  unfolding sweep
  sweep-Sweeps tr n st gone [] c hn hf = record {
    kept = refl;
    retval = refl;
    nodes = refl;
    fill = refl;
    held = refl;
  }
  sweep-Sweeps tr n st gone (b ∷ bs) c hn hf =
      let start = removal_from b st gone in
      let la = length-append b.head (flat bs) in
      let s =
        remove_nodes-Sieves tr doomed false start b.head (omega (arith, c)) (omega (arith, hn, la))
          (ground (arith, hf, c)) in
      let r = remove_nodes tr doomed false start b.head in
      let sane = remove_nodes-held tr doomed 0 false start b.head refl (omega (arith, c.0)) refl in
      let len = length-keep doomed b.head in
      let count : r.after.count ≡ length r.kept =
        omega (arith, s.count, len, ap length s.kept, c) in
      let first : bucket r.kept r.after.count ≡ thin b = rw (count, s.kept) refl in
      let one : is_filled (bucket r.kept r.after.count) ≡ bit r.after.count =
        ground (arith, count) in
      let w =
        sweep-Sweeps tr (n + length r.removed) r.after.stats r.after.gone bs c.1
          (omega (arith, hn, la, s.nodes, len)) (ground (arith, hf, s.fill, c.0)) in
      let la' =
        length-append r.kept
          (flat (sweep tr pred (n + length r.removed) r.after.stats r.after.gone bs).buckets) in
      record {
        kept = rw (first, w.kept) refl;
        retval = omega (arith, w.retval, la, la', len, ap length s.kept, ap length s.removed);
        nodes = omega (arith, w.nodes, s.nodes, la, la', len, ap length s.kept);
        fill = ground (arith, w.fill, s.fill, count, c.0);
        held = rw (sane, w.held) refl;
      }

  module _ (tr : Policy A) (law : IsPolicy tr) where
    thin-IsBuckets :
        (random n : ℕ) (bs : List (Bucket A))
        → IsBuckets tr random n bs
        → IsBuckets tr random n (thin_all bs)
    thin-IsBuckets random n bs v = record {
      size = length-thin bs ∙ v.size;
      each = λ i lt.
          let b = bucket_at bs i in
          subst (IsBucket tr random n i) (sym (bucket_at-thin bs i)) (record {
            chain = keep-IsChain tr law random doomed b.head (v.each i lt).chain;
            home = keep-All doomed (λ p. slot p.hash n ≡ i) b.head (v.each i lt).home;
            count = refl;
          });
    }

    -- A call of `hash_table_remove_if`: the items that satisfy the test are gone, and counted.
    pub record RemovesIf (tab : Table A) (r : Table A × ℕ) : Type ℓ where
      pub valid : IsTable tr law r.0
      pub found : (key : A) → lookup tr law r.0 key ≡ spared (lookup tr law tab key)
      pub removed : r.1 + r.0.stats.nodes ≡ tab.stats.nodes

    pub hash_table_remove_if-RemovesIf :
        (tab : Table A)
        → IsTable tr law tab
        → (r : Table A × ℕ) × (hash_table_remove_if tr tab pred ≡ some r) × RemovesIf tab r
    unfolding hash_table_remove_if
    hash_table_remove_if-RemovesIf tab v =
        let counted =
          are_counted tab.buckets
            (λ i lt. (v.buckets.each i (omega (arith, v.buckets.size, lt))).count) in
        let w =
          sweep-Sweeps tr 0 tab.stats tab.gone tab.buckets counted (omega (arith, v.nodes))
            (omega (arith, v.fill)) in
        let r = sweep tr pred 0 tab.stats tab.gone tab.buckets in
        let swept : Table A = record tab { buckets = r.buckets; stats = r.stats; gone = r.gone } in
        (
          (swept, r.retval),
          rw w.held refl,
          record {
            valid = record {
              size = v.size;
              buckets =
                  subst (IsBuckets tr tab.random tab.size) (sym w.kept)
                    (thin-IsBuckets tab.random tab.size tab.buckets v.buckets);
              fill = omega (arith, w.fill, v.fill);
              nodes = omega (arith, w.nodes, v.nodes);
            };
            found = λ key.
                let i = home_of tr law tab.random tab.size key in
                ap (λ bs. find_node tr tab.random key (bucket_at bs i).head) w.kept
                ∙ ap (λ b. find_node tr tab.random key b.head) (bucket_at-thin tab.buckets i)
                ∙ find_node-thin tr law tab.random key (bucket_at tab.buckets i).head
                    (v.buckets.each i (slot-lt _ tab.size v.size)).chain;
            removed = omega (arith, w.retval, w.nodes, v.nodes);
          },
        )
