-- ===== src/FastHt/Bucket/Scan.antt =====
-- The loop of `__insert` over the bags: it ends at the key, or with the first vacant cell.
use portable_lib.Prelude.{
  ℕ, suc, ◌+◌, ◌<◌, Option, none, some, List, [], ◌∷◌, ◌≡◌, refl, ap, arith, set, true, false,
}
use portable_lib.FastHt.Bag.Cell.{Cell, bag_of, find_key_or_add-cell}
use portable_lib.FastHt.Bucket.{present, room, first_room, insert_scan, bag_at}
use portable_lib.FastHt.Bucket.Cells.{bags_of, cells_get, vacant, fill}

-- The scan of `__insert`: the value of a key that is there, or the first vacant cell.
pub record Vacancy (cs : List Cell) (i : ℕ) (r : Option (ℕ × ℕ)) : Type 0 where
  pub at : ℕ
  pub report : r ≡ some (i + at, 0)
  pub bag : bag_at (bags_of cs) at ≡ bag_of none
  pub put : (c : Cell) → set cs at c ≡ fill cs c

pub insert_scan-present :
    (cs : List Cell) (i k v : ℕ) (bg : Option (ℕ × ℕ))
    → 0 < k
    → cells_get cs k ≡ some v
    → insert_scan (bags_of cs) i k bg ≡ present v
unfolding insert_scan
insert_scan-present [] i k v bg h e = cc
insert_scan-present (none ∷ cs) i k v bg h e = ground (
  arith,
  find_key_or_add-cell none k h,
  insert_scan-present cs (i + 1) k v (first_room bg i (some 0)) h,
)
insert_scan-present (some (k', w) ∷ cs) i k v bg h e = ground (
  arith,
  find_key_or_add-cell (some (k', w)) k h,
  insert_scan-present cs (i + 1) k v (first_room bg i none) h,
)

insert_scan-chosen :
    (cs : List Cell) (i k : ℕ) (bg : ℕ × ℕ)
    → 0 < k
    → cells_get cs k ≡ none
    → insert_scan (bags_of cs) i k (some bg) ≡ room (some bg)
unfolding insert_scan first_room
insert_scan-chosen [] i k bg h e = refl
insert_scan-chosen (none ∷ cs) i k bg h e =
    ground (arith, find_key_or_add-cell none k h, insert_scan-chosen cs (i + 1) k bg h)
insert_scan-chosen (some (k', w) ∷ cs) i k bg h e =
    ground (arith, find_key_or_add-cell (some (k', w)) k h, insert_scan-chosen cs (i + 1) k bg h)

pub insert_scan-full :
    (cs : List Cell) (i k : ℕ)
    → 0 < k
    → cells_get cs k ≡ none
    → vacant cs ≡ false
    → insert_scan (bags_of cs) i k none ≡ room none
unfolding insert_scan first_room
insert_scan-full [] i k h e f = refl
insert_scan-full (none ∷ cs) i k h e f = cc
insert_scan-full (some (k', w) ∷ cs) i k h e f =
    ground (arith, find_key_or_add-cell (some (k', w)) k h, insert_scan-full cs (i + 1) k h)

pub insert_scan-Vacancy :
    (cs : List Cell) (i k : ℕ)
    → 0 < k
    → cells_get cs k ≡ none
    → vacant cs ≡ true
    → (r : Option (ℕ × ℕ)) × (insert_scan (bags_of cs) i k none ≡ room r) × Vacancy cs i r
unfolding insert_scan first_room bag_at
insert_scan-Vacancy [] i k h e f = cc
insert_scan-Vacancy (none ∷ cs) i k h e f = (
  some (i, 0),
  ground (arith, find_key_or_add-cell none k h, insert_scan-chosen cs (i + 1) k (i, 0) h),
  record { at = 0; report = ground arith; bag = refl; put = λ c. refl },
)
insert_scan-Vacancy (some (k', w) ∷ cs) i k h e f =
    let (r, run, v) = insert_scan-Vacancy cs (i + 1) k h (ground arith) f in
    (
      r,
      ground (arith, find_key_or_add-cell (some (k', w)) k h),
      record {
        at = suc v.at;
        report = rw v.report (ground arith);
        bag = v.bag;
        put = λ c. ap (◌∷◌ (some (k', w))) (v.put c);
      },
    )
