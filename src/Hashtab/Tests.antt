-- ===== src/Hashtab/Tests.antt =====
-- Tables of numbers, whose key is their last two digits.
use portable_lib.Prelude.{
  ℕ, ◌+◌, ◌%◌, ◌^◌, replicate, true, false, Option, none, some, List, [], ◌∷◌, ◌≡◌, refl, ap, sym,
  subst, arith, ◌==◌, ltb, leb, ltb→lt,
}
use portable_lib.Hashtab.{
  Policy, Table, no_bucket, Memory, Outcome, enomem, slot, hashfunc, matches, find_node, put_data,
  collide, insert_internal, move_node, move_chain, move_buckets, resize, push_node, is_full,
  add_node, hash_table_insert, hash_table_replace, hash_table_probe, hash_table_lookup,
  leaves_locked,
}
use portable_lib.Hashtab.Remove.{
  created, undefined, remove_node, remove_nodes, hash_table_remove, sweep, hash_table_remove_if,
  hash_table_new, hash_table_delete, hash_table_apply, no_stats,
}
use portable_lib.Hashtab.Chains.{IsPolicy}
use portable_lib.Hashtab.Resize.{lookup, IsMemory, IsTable, Resized, hashtab_resize-Resized}
use portable_lib.Hashtab.Adding.{
  IsInserted, hash_table_insert-IsInserted, IsProbed, hash_table_probe-IsProbed,
}
use portable_lib.Hashtab.Replacing.{IsReplaced, hash_table_replace-IsReplaced}
use mathlib.Core.Option.{some-injective}
use portable_lib.Hashtab.Iterate.{
  find_next_node, vanilla_iter_begin, vanilla_iter_next, vanilla_iter_item, visit, bucket_iter_init,
  bucket_iter_begin, bucket_iter_next, bucket_iter_item,
}
use portable_lib.Hashtab.Dictionary.{
  Call, insert, replace, look, remove, remove_if, stored, existed, got, table_calls, dict_calls,
  dict_call, null_locker, mutex_locker, unless_held, hash_table_refines, Refines, table_call,
  table_call-Refines, hash_table_new-Refines,
}

program : Unit {0}
unfolding slot hashfunc matches find_node put_data collide insert_internal move_node move_chain
    move_buckets resize push_node is_full add_node hash_table_insert hash_table_replace
    hash_table_probe hash_table_lookup remove_node remove_nodes hash_table_remove sweep
    hash_table_remove_if hash_table_new hash_table_delete hash_table_apply find_next_node
    vanilla_iter_begin vanilla_iter_next vanilla_iter_item visit bucket_iter_init bucket_iter_begin
    bucket_iter_next bucket_iter_item table_call table_calls unless_held leaves_locked
program = tt

abbrev keyed : Policy ℕ
keyed = record { hash = λ x. x % 100; cmp = λ x y. x % 100 == y % 100; dtor = true }

keyed-IsPolicy : IsPolicy keyed
keyed-IsPolicy = record {
  cmp_refl = λ a. ground arith;
  cmp_sym = λ a b e. ground (arith, e);
  cmp_trans = λ a b c e f. ground (arith, e, f);
  hash_cmp = λ a b e. ground (arith, e);
}

abbrev plenty : Memory
plenty = record { node_given = true; array_given = λ n. ltb n (2 ^ 63) }

plenty-IsMemory : IsMemory plenty
plenty-IsMemory = record { limit = λ n e. ltb→lt n (2 ^ 63) e }

abbrev two_buckets : Table ℕ
two_buckets = record {
  buckets = replicate (2 ^ 1) no_bucket;
  size = 2 ^ 1;
  fillmax = 50;
  random = 5;
  stats = no_stats;
  gone = [];
}

is_new : hash_table_new {A = ℕ} true plenty.array_given 1 50 5 ≡ created two_buckets
unfolding program
is_new = refl

too_large : hash_table_new {A = ℕ} true plenty.array_given 31 50 5 ≡ undefined
unfolding program
too_large = refl

abbrev table_after : Table ℕ → List ℕ → Table ℕ
table_after tab [] = tab
table_after tab (d ∷ ds) = table_after (hash_table_insert keyed plenty tab (some d)).0 ds

table_after-IsTable :
    (ds : List ℕ) (tab : Table ℕ) (f : ℕ → Option ℕ)
    → Refines keyed keyed-IsPolicy tab f
    → IsTable keyed keyed-IsPolicy (table_after tab ds)
unfolding table_call
table_after-IsTable [] tab f r = r.valid
table_after-IsTable (d ∷ ds) tab f r =
    let (q, run, next, same) =
      table_call-Refines keyed keyed-IsPolicy plenty plenty-IsMemory refl tab f (insert d) r in
    let after : q.0 ≡ (hash_table_insert keyed plenty tab (some d)).0 =
      ap (λ x. x.0) (sym (some-injective _ _ run)) in
    table_after-IsTable ds _ _
      (subst (λ t. Refines keyed keyed-IsPolicy t (dict_call keyed.cmp f (insert d)).0) after next)

new-Refines : Refines keyed keyed-IsPolicy two_buckets (λ key. none)
new-Refines =
    hash_table_new-Refines keyed keyed-IsPolicy true plenty.array_given 1 50 5 two_buckets is_new

-- Four items, with one growth.
abbrev four_items : Table ℕ
four_items = table_after two_buckets (101 ∷ 7 ∷ 12 ∷ 213 ∷ [])

four_items-IsTable : IsTable keyed keyed-IsPolicy four_items
four_items-IsTable = table_after-IsTable (101 ∷ 7 ∷ 12 ∷ 213 ∷ []) two_buckets _ new-Refines

has_grown : (four_items.size ≡ 4) × (four_items.stats.nodes ≡ 4) × (four_items.stats.splits ≡ 1)
unfolding program
has_grown = (refl, refl, refl)

abbrev script : List (Call ℕ)
script =
    insert 101
    ∷ insert 7
    ∷ insert 401
    ∷ look 1
    ∷ replace 301
    ∷ look 1
    ∷ remove 7
    ∷ look 7
    ∷ insert 12
    ∷ remove_if (λ field. leb 100 field.data_at)
    ∷ look 1
    ∷ look 12
    ∷ []

answers :
    table_calls keyed null_locker plenty two_buckets script
    ≡ some (
        stored
        ∷ stored
        ∷ existed
        ∷ got (some 101)
        ∷ stored
        ∷ got (some 301)
        ∷ got (some 7)
        ∷ got none
        ∷ stored
        ∷ stored
        ∷ got none
        ∷ got (some 12)
        ∷ [])
unfolding program
answers = refl

-- With mutexes, the bucket of 401 stays locked.
locked : table_calls keyed mutex_locker plenty two_buckets (insert 101 ∷ insert 401 ∷ []) ≡ none
unfolding program
locked = refl

-- An allocator that gives nodes, and no array.
abbrev no_arrays : Memory
no_arrays = record { node_given = true; array_given = λ n. false }

abbrev failed_growth : Table ℕ × Outcome
failed_growth = hash_table_insert keyed no_arrays (table_after two_buckets (101 ∷ [])) (some 6)

-- -ENOMEM, and yet the item is there.
reported : (failed_growth.1 ≡ enomem) × ((hash_table_lookup keyed failed_growth.0 6).1 ≡ some 6)
unfolding program
reported = (refl, refl)

destroyed : hash_table_delete keyed four_items ≡ 7 ∷ 12 ∷ 101 ∷ 213 ∷ []
unfolding program
destroyed = refl

applied : hash_table_apply four_items ◌+◌ 0 ≡ 333
unfolding program
applied = refl

hash_table_refines_example :
    table_calls keyed null_locker plenty two_buckets script
    ≡ some (dict_calls keyed.cmp (λ key. none) script)
hash_table_refines_example =
    hash_table_refines keyed keyed-IsPolicy plenty true 1 50 5 two_buckets plenty-IsMemory refl
      is_new script

hash_table_insert-IsInserted_example :
    IsInserted keyed keyed-IsPolicy
      (lookup keyed keyed-IsPolicy four_items 45)
      true
      four_items
      45
      (hash_table_insert keyed plenty four_items (some 45))
hash_table_insert-IsInserted_example =
    hash_table_insert-IsInserted keyed keyed-IsPolicy plenty four_items 45 plenty-IsMemory
      four_items-IsTable

hash_table_probe-IsProbed_example :
    IsProbed keyed keyed-IsPolicy
      (lookup keyed keyed-IsPolicy four_items 501)
      four_items
      501
      (hash_table_probe keyed plenty four_items (some 501))
unfolding program
hash_table_probe-IsProbed_example =
    hash_table_probe-IsProbed keyed keyed-IsPolicy plenty four_items 501 plenty-IsMemory refl refl
      four_items-IsTable

hash_table_replace-IsReplaced_example :
    IsReplaced keyed keyed-IsPolicy
      (lookup keyed keyed-IsPolicy four_items 501)
      true
      four_items
      501
      (hash_table_replace keyed plenty four_items (some 501))
hash_table_replace-IsReplaced_example =
    hash_table_replace-IsReplaced keyed keyed-IsPolicy plenty four_items 501 plenty-IsMemory
      four_items-IsTable

hashtab_resize-Resized_example :
    Resized keyed keyed-IsPolicy four_items (resize plenty four_items).0
hashtab_resize-Resized_example =
    hashtab_resize-Resized keyed keyed-IsPolicy plenty four_items plenty-IsMemory four_items-IsTable

visited : visit 5 four_items (vanilla_iter_begin four_items) ≡ some (213 ∷ 101 ∷ 12 ∷ 7 ∷ [])
unfolding program
visited = refl

-- The iterator for the key 1 walks another bucket than the one that holds the key.
strays :
    ((hash_table_lookup keyed four_items 1).1 ≡ some 101)
    × (bucket_iter_item (bucket_iter_begin (bucket_iter_init keyed four_items 1)) ≡ some 12)
unfolding program
strays = (refl, refl)
