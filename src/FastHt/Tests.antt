-- ===== src/FastHt/Tests.antt =====
-- The fast hash table at small inputs.
use portable_lib.Prelude.{
  ℕ, none, some, List, [], ◌∷◌, ◌⊎◌, ◌≡◌, refl, arith, replicate, get_or, ◌∙◌, All,
}
use portable_lib.FastHt.Bag.{
  find_key, find_key_or_add, find_empty_slot, candidates, scan_mask, occupy, update_fp, clear_fp,
}
use portable_lib.FastHt.Bucket.{insert, insert_quick, insert_scan, findx, assign, vacate}
use portable_lib.FastHt.Table.{
  Table, hash, put_bucket, move_entry, move_slot, move_slots, move_bags, move_buckets, new_buckets,
  empty_bucket, resize, init, next_pow2, bucket_of, record_max, split_if, probe, find, replace,
  remove, mix,
}
use portable_lib.FastHt.Table.Trace.{
  run_refines, Op, probing, finding, replacing, removing, Reply, pointer, truth, result, step, run,
  map_run, Outgrows,
}
use portable_lib.FastHt.Bag.Cell.{bag_of}
use portable_lib.FastHt.Table.Buckets.{IsValid, find-bucket}
use portable_lib.FastHt.Table.Probe.{Probed, probe-Probed, probe_total}
use portable_lib.FastHt.Table.Resize.{empty-get, Resized, resize-Resized}
use portable_lib.FastHt.Table.Laws.{Replaced, replace-Replaced, Removed, remove-Removed}
use portable_lib.FastHt.Table.Init.{Initialized, init-Initialized}
use portable_lib.FastHt.Table.Capacity.{IsSingle, after, bags-IsSingle}

program : Unit {0}
unfolding find_key find_key_or_add find_empty_slot candidates scan_mask occupy update_fp clear_fp
    insert insert_quick insert_scan findx assign vacate hash put_bucket move_entry move_slot
    move_slots move_bags move_buckets new_buckets resize init next_pow2 bucket_of record_max
    split_if probe find replace remove step run after mix
program = tt

abbrev empty : Table
empty = record {
  b = replicate 2 empty_bucket;
  n = 2;
  salt = 7;
  fill = 0;
  maxfill = 40;
  nodes = 0;
  splits = 0;
  bagmax = 0;
  maxn = 0;
}

abbrev script : List Op
script =
    probing 5 50 11
    ∷ probing 9 90 12
    ∷ finding 5
    ∷ probing 5 51 13
    ∷ replacing 9 91
    ∷ removing 5
    ∷ finding 5
    ∷ probing 14 40 14
    ∷ finding 9
    ∷ finding 14
    ∷ []

abbrev replies : List Reply
replies =
    pointer 0
    ∷ pointer 0
    ∷ result (some 50)
    ∷ pointer 50
    ∷ truth 1
    ∷ result (some 50)
    ∷ result none
    ∷ pointer 0
    ∷ result (some 91)
    ∷ result (some 40)
    ∷ []

script_runs : run empty script ≡ some replies
unfolding program
script_runs = refl

rounding : next_pow2 100 ≡ 128
unfolding program
rounding = refl

empty-IsValid : IsValid empty
empty-IsValid = record {
  buckets = (
    record { cells = []; head = refl; keys = tt },
    (record { cells = []; head = refl; keys = tt }, tt),
  );
  size = refl;
  pos = omega arith;
  small = omega arith;
}

-- The key 5 hashes to bucket 0.
abbrev one : Table
one = record empty {
  b = record { head = bag_of (some (5, 50)) ∷ []; nodes = 1; bags = 1 } ∷ empty_bucket ∷ [];
  nodes = 1;
}

home_of_five : hash 5 2 7 ≡ 0
unfolding program
home_of_five = refl

one-IsValid : IsValid one
one-IsValid = record {
  buckets = (
    record { cells = some (5, 50) ∷ []; head = refl; keys = (omega arith, home_of_five, refl, tt) },
    (record { cells = []; head = refl; keys = tt }, tt),
  );
  size = refl;
  pos = omega arith;
  small = omega arith;
}

empty_found : (q : ℕ) → find empty q ≡ none
unfolding bucket_of
empty_found q = find-bucket empty q ∙ empty-get 2 (hash q 2 7) q

run_refines_example : (run empty script ≡ some (map_run (λ q. none) script)) ⊎ Outgrows empty script
run_refines_example =
    run_refines script (record { valid = empty-IsValid; agree = λ q hq. empty_found q })
      (omega arith)

probe_five : probe one 5 51 3 ≡ some (50, one)
unfolding program
probe_five = refl

probe-Probed_example : Probed one 5 51 (50, one)
probe-Probed_example = probe-Probed one 5 51 3 one-IsValid (omega arith) probe_five

probe_total_example : (r : ℕ × Table) × (probe empty 5 50 11 ≡ some r)
probe_total_example = probe_total empty 5 50 11 empty-IsValid (omega arith) (omega arith)

resize-Resized_example : Resized one (resize one 11)
resize-Resized_example = resize-Resized 11 one-IsValid (omega arith)

replace-Replaced_example : Replaced one 5 99 (replace one 5 99)
replace-Replaced_example = replace-Replaced 5 one-IsValid (omega arith) 99

remove-Removed_example : Removed one 5 (remove one 5)
remove-Removed_example = remove-Removed 5 one-IsValid (omega arith)

init-Initialized_example : (h : Table) × (init 100 0 7 ≡ some h) × Initialized 0 h
init-Initialized_example = init-Initialized 100 0 7 (omega arith)

-- The table that the calls leave.
ended : Table
unfolding program
ended = elim (after empty script) [ none ↦ empty | some t ↦ t ]

script_ends : after empty script ≡ some ended
unfolding program ended
script_ends = refl

ended_grown : ended.n ≡ 8
unfolding program ended
ended_grown = refl

made : init 2 40 7 ≡ some empty
unfolding program
made = refl

bags-IsSingle_example : All IsSingle (get_or ended.b 0 empty_bucket).head
bags-IsSingle_example =
    bags-IsSingle 2 40 7 script 0 (omega arith) made (omega arith) script_ends
      (omega (arith, ended_grown))
