-- ===== src/Hashtab/Dictionary.antt =====
-- A table from `hash_table_new` on, through any sequence of calls, against a dictionary: a function
-- from keys to what is stored for them.
use portable_lib.Prelude.{
  ◌⊎◌, ℕ, ◌<◌, ◌^◌, ◌||◌, Bool, true, false, Option, none, some, List, [], ◌∷◌, ◌≡◌, refl, sym, ap,
  ◌>>=◌, ◌∙◌, subst, Bool-cases, Option-cases, inl, inr, arith, if◌then◌else◌, replicate, length,
  ◌==◌, leb,
}
use native.Mathlib.Nat.{pow-le-pow_right}
use portable_lib.Hashtab.{
  Policy, no_bucket, Memory, Table, Outcome, ok, eexist, enomem, hash_table_insert,
  hash_table_replace, hash_table_lookup, leaves_locked,
}
use portable_lib.Hashtab.Remove.{
  Created, created, hash_table_new, hash_table_remove, hash_table_remove_if, no_stats, Field,
}
use portable_lib.Hashtab.Chains.{IsPolicy}
use portable_lib.Hashtab.Valid.{IsSize, replicate-IsBuckets, filled-replicate, flat-replicate}
use portable_lib.Hashtab.Resize.{IsMemory, IsTable, lookup, find_in-new}
use portable_lib.Hashtab.Adding.{Added, hash_table_insert-IsInserted, IsInserted}
use portable_lib.Hashtab.Replacing.{hash_table_replace-IsReplaced, IsReplaced}
use portable_lib.Hashtab.Removing.{hash_table_remove-Removes}
use portable_lib.Hashtab.Sweeping.{hash_table_remove_if-RemovesIf, spared}

-- The calls, and what the caller sees. A growth that fails is not told apart from one that succeeds:
-- the item is stored in both cases.
pub data Call {ℓ} (A : Type ℓ) : Type ℓ where
  insert : A → Call A
  replace : A → Call A
  look : A → Call A
  remove : A → Call A
  remove_if : (Field A → Bool) → Call A

pub data Answer {ℓ} (A : Type ℓ) : Type ℓ where
  stored : Answer A
  existed : Answer A
  got : Option A → Answer A

abbrev pub Dict {ℓ} : Type ℓ → Type ℓ
Dict A = A → Option A

module _ {ℓ} {A : Type ℓ} where
  abbrev pub answer_of : Outcome → Answer A
  answer_of eexist = existed
  answer_of _ = stored

  abbrev pub update : (A → A → Bool) → Dict A → A → Option A → Dict A
  update cmp f d o key = if cmp key d then o else f key

  abbrev pub dict_insert : (A → A → Bool) → Dict A → A → Option A → Dict A × Answer A
  dict_insert cmp f d none = (update cmp f d (some d), stored)
  dict_insert cmp f d (some e) = (f, existed)

  -- The dictionary after a call, and the answer.
  abbrev pub dict_call : (A → A → Bool) → Dict A → Call A → Dict A × Answer A
  dict_call cmp f (insert d) = dict_insert cmp f d (f d)
  dict_call cmp f (replace d) = (update cmp f d (some d), stored)
  dict_call cmp f (look key) = (f, got (f key))
  dict_call cmp f (remove key) = (update cmp f key none, got (f key))
  dict_call cmp f (remove_if pred) = (λ key. spared pred (f key), stored)

  abbrev pub dict_calls : (A → A → Bool) → Dict A → List (Call A) → List (Answer A)
  dict_calls cmp f [] = []
  dict_calls cmp f (c ∷ cs) = (dict_call cmp f c).1 ∷ dict_calls cmp (dict_call cmp f c).0 cs

-- The lock managers of inc/utils/lockmgr.h: the null one does nothing.
pub data Locker : Type 0 where
  null_locker : Locker
  mutex_locker : Locker

-- A call that returns with a bucket's mutex held has no result: the next one that needs the bucket waits
-- forever.
unfoldable pub unless_held {ℓ} : {X : Type ℓ} → Locker → Bool → Option X → Option X
unless_held null_locker held r = r
unless_held mutex_locker held r = if held then none else r

module _ {ℓ} {A : Type ℓ} (tr : Policy A) (locker : Locker) (mem : Memory) where
  -- No result either, if an assertion fails.
  unfoldable pub table_call : Table A → Call A → Option (Table A × Answer A)
  unfolding unless_held
  table_call tab (insert d) =
      let r = hash_table_insert tr mem tab (some d) in
      unless_held locker (leaves_locked tr mem tab d) (some (r.0, answer_of r.1))
  table_call tab (replace d) =
      let r = hash_table_replace tr mem tab (some d) in
      unless_held locker (leaves_locked tr mem tab d) (some (r.0, answer_of r.1))
  table_call tab (look key) = let r = hash_table_lookup tr tab key in some (r.0, got r.1)
  table_call tab (remove key) = hash_table_remove tr tab (some key) >>= λ r. some (r.0, got r.2)
  table_call tab (remove_if pred) = hash_table_remove_if tr tab pred >>= λ r. some (r.0, stored)

  unfoldable pub table_calls : Table A → List (Call A) → Option (List (Answer A))
  unfolding table_call
  table_calls tab [] = some []
  table_calls tab (c ∷ cs) =
      table_call tab c >>= λ r. table_calls r.0 cs >>= λ answers. some (r.1 ∷ answers)

module _ {ℓ} {A : Type ℓ} (tr : Policy A) (law : IsPolicy tr) where
  pub record Refines (tab : Table A) (f : Dict A) : Type ℓ where
    pub valid : IsTable tr law tab
    pub same : (key : A) → lookup tr law tab key ≡ f key

  -- What `hash_table_new` creates is empty and well-formed.
  abbrev IsEmptyTable : Created A → Type ℓ
  IsEmptyTable (created tab) = Refines tab (λ key. none)
  IsEmptyTable _ = Unit

  small_size : (i : ℕ) → i < 31 → IsSize (2 ^ i)
  small_size i h = record {
    log = i;
    power = refl;
    small = omega (arith, pow-le-pow_right {n = 2} (omega arith) {i = i} {j = 31} (omega arith));
  }

  empty_table :
      (i fillmax random : ℕ)
      → i < 31
      → Refines
          (record {
            buckets = replicate (2 ^ i) no_bucket;
            size = 2 ^ i;
            fillmax = fillmax;
            random = random;
            stats = no_stats;
            gone = [];
          })
          (λ key. none)
  empty_table i fillmax random h = record {
    valid = record {
      size = small_size i h;
      buckets = replicate-IsBuckets tr random (2 ^ i);
      fill = sym (filled-replicate A (2 ^ i));
      nodes = sym (ap length (flat-replicate {A = A} (2 ^ i)));
    };
    same = find_in-new tr law random (2 ^ i);
  }

  new_empty :
      (tab_given : Bool) (array_given : ℕ → Bool) (logsize fillmax random : ℕ)
      → IsEmptyTable (hash_table_new tab_given array_given logsize fillmax random)
  unfolding hash_table_new
  new_empty false array_given logsize fillmax random = tt
  new_empty true array_given logsize fillmax random =
      let i = if (logsize == 0) || leb 64 logsize then 10 else logsize in
      let max = if (fillmax == 0) || leb 100 fillmax then 80 else fillmax in
      elim (Bool-cases (leb 31 i)) [
        | inl e ↦ rw e tt
        | inr e ↦ elim (Bool-cases (array_given (2 ^ i))) [
          | inl g ↦ rw (e, g) (empty_table i max random (ground (arith, e)))
          | inr g ↦ rw (e, g) tt
        ]
      ]

  pub hash_table_new-Refines :
      (tab_given : Bool) (array_given : ℕ → Bool) (logsize fillmax random : ℕ) (tab : Table A)
      → hash_table_new tab_given array_given logsize fillmax random ≡ created tab
      → Refines tab (λ key. none)
  hash_table_new-Refines tab_given array_given logsize fillmax random tab h =
      subst IsEmptyTable h (new_empty tab_given array_given logsize fillmax random)

  lookup_call :
      (tab : Table A) (key : A)
      → IsTable tr law tab
      → IsTable tr law (hash_table_lookup tr tab key).0
  unfolding hash_table_lookup
  lookup_call tab key v = elim (Option-cases (lookup tr law tab key)) [
    | inl e ↦ rw e (record { size = v.size; buckets = v.buckets; fill = v.fill; nodes = v.nodes })
    | inr (d, e) ↦
        rw e (record { size = v.size; buckets = v.buckets; fill = v.fill; nodes = v.nodes })
  ]

  after_adding :
      (tab : Table A) (f : Dict A) (d : A) (tab' : Table A)
      → Refines tab f
      → Added tr law tab d tab'
      → Refines tab' (update tr.cmp f d (some d))
  after_adding tab f d tab' r a = record {
    valid = a.valid;
    same = λ key. a.found key ∙ rw (r.same key) refl;
  }

  answer_stored : (o : Outcome) → (o ≡ ok) ⊎ (o ≡ enomem) → answer_of {A = A} o ≡ stored
  answer_stored o (inl e) = ap answer_of e
  answer_stored o (inr e) = ap answer_of e

  inserted :
      (tab : Table A) (f : Dict A) (d : A) (q : Table A × Outcome)
      → Refines tab f
      → (o : Option A) → f d ≡ o
      → IsInserted tr law o true tab d q
      → Refines q.0 (dict_insert tr.cmp f d o).0
        × (answer_of {A = A} q.1 ≡ (dict_insert tr.cmp f d o).1)
  inserted tab f d q r none e a = (after_adding tab f d q.0 r a.0, answer_stored q.1 a.1)
  inserted tab f d q r (some old) e same =
      subst (λ q. Refines q.0 f × (answer_of {A = A} q.1 ≡ existed)) (sym same) (r, refl)

  replaced :
      (tab : Table A) (f : Dict A) (d : A) (q : Table A × Outcome)
      → Refines tab f
      → (o : Option A) → IsReplaced tr law o true tab d q
      → Refines q.0 (update tr.cmp f d (some d)) × (answer_of {A = A} q.1 ≡ stored)
  replaced tab f d q r none a = (after_adding tab f d q.0 r a.0, answer_stored q.1 a.1)
  replaced tab f d q r (some old) t = (
    record { valid = t.0.valid; same = λ key. t.0.found key ∙ rw (r.same key) refl },
    ap answer_of t.1,
  )

  module _ (mem : Memory) (m : IsMemory mem) (given : mem.node_given ≡ true) where
    -- One call keeps a table and a dictionary together, and answers the same.
    pub table_call-Refines :
        (tab : Table A) (f : Dict A) (c : Call A)
        → Refines tab f
        → (q : Table A × Answer A) × (table_call tr null_locker mem tab c ≡ some q)
          × Refines q.0 (dict_call tr.cmp f c).0
          × (q.1 ≡ (dict_call tr.cmp f c).1)
    unfolding hash_table_lookup table_call unless_held
    table_call-Refines tab f (insert d) r =
        let x = inserted tab f d _ r (f d) refl (
          subst (λ o. IsInserted tr law o true tab d (hash_table_insert tr mem tab (some d)))
            (r.same d)
            (subst
              (λ g.
                IsInserted tr law (lookup tr law tab d) g tab d
                  (hash_table_insert tr mem tab (some d)))
              given (hash_table_insert-IsInserted tr law mem tab d m r.valid))) in
        (_, refl, x.0, x.1)
    table_call-Refines tab f (replace d) r =
        let x = replaced tab f d _ r (f d) (
          subst (λ o. IsReplaced tr law o true tab d (hash_table_replace tr mem tab (some d)))
            (r.same d)
            (subst
              (λ g.
                IsReplaced tr law (lookup tr law tab d) g tab d
                  (hash_table_replace tr mem tab (some d)))
              given (hash_table_replace-IsReplaced tr law mem tab d m r.valid))) in
        (_, refl, x.0, x.1)
    table_call-Refines tab f (look key) r = (
      _,
      refl,
      record { valid = lookup_call tab key r.valid; same = r.same },
      ap got (r.same key),
    )
    table_call-Refines tab f (remove d) r =
        let (q, run, x) = hash_table_remove-Removes tr law tab r.valid d in
        (
          (q.0, got q.2),
          rw (run, ◌>>=◌) refl,
          record { valid = x.valid; same = λ key. x.found key ∙ rw (r.same key) refl },
          ap got (x.value ∙ r.same d),
        )
    table_call-Refines tab f (remove_if pred) r =
        let (q, run, x) = hash_table_remove_if-RemovesIf pred tr law tab r.valid in
        (
          (q.0, stored),
          rw (run, ◌>>=◌) refl,
          record { valid = x.valid; same = λ key. x.found key ∙ ap (spared pred) (r.same key) },
          refl,
        )

    pub table_calls-Refines :
        (cs : List (Call A)) (tab : Table A) (f : Dict A)
        → Refines tab f
        → table_calls tr null_locker mem tab cs ≡ some (dict_calls tr.cmp f cs)
    unfolding table_calls
    table_calls-Refines [] tab f r = refl
    table_calls-Refines (c ∷ cs) tab f r =
        let (q, run, rest, same) = table_call-Refines tab f c r in
        rw (run, ◌>>=◌) (rw (table_calls-Refines cs q.0 _ rest, ◌>>=◌, same) refl)

  -- A table made by hash_table_new, under Null_locker, whose lock and unlock do nothing,
  -- answers every sequence of insertions, replacements, lookups and removals as a dictionary that starts
  -- empty does, growths of the table included, if nodes are allocated; no assertion fails. The predicate
  -- of a removal is given the address of the field in which the item's pointer is stored.
  pub hash_table_refines :
      (mem : Memory) (tab_given : Bool) (logsize fillmax random : ℕ) (tab : Table A)
      → IsMemory mem
      → mem.node_given ≡ true
      → hash_table_new tab_given mem.array_given logsize fillmax random ≡ created tab
      → (cs : List (Call A))
      → table_calls tr null_locker mem tab cs ≡ some (dict_calls tr.cmp (λ key. none) cs)
  hash_table_refines mem tab_given logsize fillmax random tab m given h cs =
      table_calls-Refines mem m given cs tab (λ key. none)
        (hash_table_new-Refines tab_given mem.array_given logsize fillmax random tab h)
