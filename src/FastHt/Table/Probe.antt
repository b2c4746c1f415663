-- ===== src/FastHt/Table/Probe.antt =====
-- `ht_probe`: the value that was there is returned and kept; a new key is added, and the table may be
-- doubled on the way.
use native.Mathlib.Decide.{ℕ_discrete}
use mathlib.Core.Option.{some-injective}
use portable_lib.Prelude.{
  ℕ, subst, ◌*◌, ◌/◌, ◌≤◌, ◌<◌, Option, none, some, ◌≡◌, ◌≢◌, refl, sym, ◌∙◌, arith, ◌==◌, set, inl,
  inr, Bool-cases, Option-cases, if◌then◌else◌, add32, add64, mul64, ltb, leb→le, leb,
}
use portable_lib.FastHt.Bucket.{Bucket, insert}
use portable_lib.FastHt.Bucket.Effect.{value_or_null}
use portable_lib.FastHt.Table.{
  Table, hash, max_buckets, new_buckets, resize, bucket_of, record_max, split_if, probe, find,
  ◌>>=◌,
}
use portable_lib.FastHt.Table.Buckets.{IsValid, find-bucket}
use portable_lib.FastHt.Table.Resize.{Resized, resize-Resized}
use portable_lib.FastHt.Table.Laws.{insert-Written, insert-returns}

-- A table with other counters, or moved to other buckets.
pub record Same (h to : Table) : Type 0 where
  pub valid : IsValid to
  pub reads : (q : ℕ) → 0 < q → find to q ≡ find h q

counters-Same : (h to : Table) → IsValid h → to.b ≡ h.b → to.n ≡ h.n → to.salt ≡ h.salt → Same h to
unfolding bucket_of
counters-Same h to v b n salt = record {
  valid = record {
    buckets = rw (b, n, salt) v.buckets;
    size = rw (b, n) v.size;
    pos = rw n v.pos;
    small = rw n v.small;
  };
  reads = λ q hq. rw (find-bucket to q, find-bucket h q, b, n, salt);
}

-- Past `max_buckets` the allocation of `resize` aborts.
resize-room :
    {h to : Table} (salt : ℕ) → IsValid h → resize h salt ≡ some to → h.n * 2 ≤ max_buckets
unfolding resize new_buckets
resize-room {h} salt v e = elim (Bool-cases (leb (h.n * 2) max_buckets)) [
  | inl t ↦ leb→le _ _ t
  | inr t ↦ let exact : mul64 h.n 2 ≡ h.n * 2 = omega (arith, v.small) in ground (arith, exact)
]

Same-trans : (h t u : Table) → Same h t → Same t u → Same h u
Same-trans h t u a b = record { valid = b.valid; reads = λ q hq. b.reads q hq ∙ a.reads q hq }

Resized-Same : {h : Table} {r : Option Table} {to : Table} → Resized h r → r ≡ some to → Same h to
Resized-Same {h} {r} {to} z e =
    let same : z.to ≡ to = ground (arith, z.run) in
    subst (Same h) same (record { valid = z.valid; reads = z.reads })

module _ (h : Table) (salt : ℕ) (v : IsValid h) where
  abbrev filled : Table
  filled = record h { fill = add64 h.fill 1 }

  abbrev splitting : Table
  splitting = record filled { splits = add32 h.splits 1 }

  split_if-Same : {to : Table} → split_if h salt ≡ some to → Same h to
  unfolding split_if
  split_if-Same {to} e = elim (Bool-cases (ltb h.maxfill (mul64 (add64 h.fill 1) 100 / h.n))) [
    | inl t ↦
        let grown : resize splitting salt ≡ some to = ground arith in
        let before = counters-Same h splitting v refl refl refl in
        let room = resize-room salt before.valid grown in
        Same-trans h splitting to before
          (Resized-Same (resize-Resized salt before.valid room) grown)
    | inr t ↦
        let kept : filled ≡ to = ground arith in
        subst (Same h) kept (counters-Same h filled v refl refl refl)
  ]

  split_if_total : h.n * 2 ≤ max_buckets → (to : Table) × (split_if h salt ≡ some to)
  unfolding split_if
  split_if_total room = elim (Bool-cases (ltb h.maxfill (mul64 (add64 h.fill 1) 100 / h.n))) [
    | inl t ↦
        let before = counters-Same h splitting v refl refl refl in
        let z = resize-Resized salt before.valid room in (z.to, rw t z.run)
    | inr t ↦ (filled, rw t)
  ]

-- What `ht_probe` returns, and the table that it leaves.
pub record Probed (h : Table) (k v : ℕ) (r : ℕ × Table) : Type 0 where
  pub returns : r.0 ≡ value_or_null (find h k)
  pub valid : IsValid r.1
  pub reads :
      (q : ℕ)
      → 0 < q
      → find r.1 q
        ≡ elim (find h k) [ some old ↦ find h q | none ↦ if k == q then some v else find h q ]

module _ (h : Table) (k v salt : ℕ) (valid : IsValid h) (pos : 0 < k) where
  abbrev bucket : Bucket
  bucket = (insert (bucket_of h k) k v).0

  abbrev written : Table
  written = record h { b = set h.b (hash k h.n h.salt) bucket }

  abbrev counted : Table
  counted = record written { nodes = add64 h.nodes 1 }

  abbrev grown : Option Table
  grown = if bucket.nodes == 1 then split_if counted salt else some counted

  probe-old :
      (insert (bucket_of h k) k v).1 ≢ 0
      → probe h k v salt ≡ some ((insert (bucket_of h k) k v).1, written)
  unfolding probe
  probe-old e = ground arith

  probe-new :
      (insert (bucket_of h k) k v).1 ≡ 0
      → probe h k v salt ≡ (grown >>= λ t. some (0, record_max t k))
  unfolding probe
  probe-new e = ground arith

  record_max-Same : (t : Table) → IsValid t → Same t (record_max t k)
  unfolding record_max
  record_max-Same t w = counters-Same t _ w refl refl refl

  grown-Same : {t : Table} → grown ≡ some t → Same counted t
  grown-Same {t} e =
      let w =
        insert-Written k valid pos v counted (record { array = refl; n = refl; salt = refl }) in
      elim (Bool-cases (bucket.nodes == 1)) [
        | inl one ↦ split_if-Same counted salt w.0 (ground arith)
        | inr more ↦
            let same : counted ≡ t = ground arith in
            subst (Same counted) same (record { valid = w.0; reads = λ q hq. refl })
      ]

  -- Whenever ht_probe returns on a valid table and a non-zero key, it returns the value that was
  -- there or NULL, binds a new key, keeps every other one, and keeps the table valid.
  pub probe-Probed : {r : ℕ × Table} → probe h k v salt ≡ some r → Probed h k v r
  probe-Probed {r} e = elim (ℕ_discrete (insert (bucket_of h k) k v).1 0) [
    | no nonzero ↦
        let w =
          insert-Written k valid pos v written (record { array = refl; n = refl; salt = refl }) in
        let same : ((insert (bucket_of h k) k v).1, written) ≡ r =
          some-injective _ _ (sym (probe-old nonzero) ∙ e) in
        subst (Probed h k v) same
          (record { returns = insert-returns k valid pos v; valid = w.0; reads = w.1 })
    | yes null ↦ elim (Option-cases grown) [
      | inl stuck ↦ let failed = sym (probe-new null) ∙ e in absurd (ground (arith, failed, stuck))
      | inr (t, run) ↦
          let w =
            insert-Written k valid pos v counted (record { array = refl; n = refl; salt = refl }) in
          let s = grown-Same run in
          let m = record_max-Same t s.valid in
          let ends : (grown >>= λ t. some (0, record_max t k)) ≡ some (0, record_max t k) =
            rw (run, ◌>>=◌) in
          let same : (0, record_max t k) ≡ r =
            some-injective _ _ (sym (probe-new null ∙ ends) ∙ e) in
          subst (Probed h k v) same (record {
            returns = sym null ∙ insert-returns k valid pos v;
            valid = m.valid;
            reads = λ q hq. m.reads q hq ∙ s.reads q hq ∙ w.1 q hq;
          })
    ]
  ]

  -- ht_probe returns on a valid table whose number of buckets can be doubled, for every non-zero
  -- key.
  pub probe_total : h.n * 2 ≤ max_buckets → (r : ℕ × Table) × (probe h k v salt ≡ some r)
  probe_total room = elim (ℕ_discrete (insert (bucket_of h k) k v).1 0) [
    | no nonzero ↦ (_, probe-old nonzero)
    | yes null ↦
        let w =
          insert-Written k valid pos v counted (record { array = refl; n = refl; salt = refl }) in
        let (t, run) = grown_total w.0 in ((0, record_max t k), probe-new null ∙ (rw (run, ◌>>=◌)))
  ]
    where
      grown_total : IsValid counted → (t : Table) × (grown ≡ some t)
      grown_total w = elim (Bool-cases (bucket.nodes == 1)) [
        | inl one ↦ let (t, run) = split_if_total counted salt w room in (t, rw one run)
        | inr more ↦ (counted, rw more)
      ]
