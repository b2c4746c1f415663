-- ===== src/FastHt/Table/Trace.antt =====
-- A client's calls in order, and the finite map that they cannot be told from.
use mathlib.Core.Option.{some-injective}
use portable_lib.Prelude.{
  ◌>>=◌, ◌⊎◌, ℕ, ◌*◌, ◌≤◌, ◌<◌, refl, Bool-cases, leb, Option, none, some, List, [], ◌∷◌, ◌≡◌, ap,
  ◌∙◌, arith, ◌==◌, inl, inr, Option-cases, if◌then◌else◌, All, subst,
}
use portable_lib.FastHt.Bucket.Effect.{value_or_null}
use portable_lib.FastHt.Table.{Table, max_buckets, probe, find, replace, remove}
use portable_lib.FastHt.Table.Buckets.{IsValid}
use portable_lib.FastHt.Table.Laws.{is_found, replace-Replaced, remove-Removed}
use portable_lib.FastHt.Table.Probe.{probe-Probed, probe_total}

-- A call, with its key, its value and, for `ht_probe`, the salt that a split would draw.
pub data Op : Type 0 where
  probing : ℕ → ℕ → ℕ → Op
  finding : ℕ → Op
  replacing : ℕ → ℕ → Op
  removing : ℕ → Op

pub data Reply : Type 0 where
  pointer : ℕ → Reply
  truth : ℕ → Reply
  result : Option ℕ → Reply

unfoldable pub step : Table → Op → Option (Reply × Table)
step h (probing k v salt) = probe h k v salt >>= λ r. some (pointer r.0, r.1)
step h (finding k) = some (result (find h k), h)
step h (replacing k v) = let r = replace h k v in some (truth r.1, r.0)
step h (removing k) = let r = remove h k in some (result r.1, r.0)

unfoldable pub run : Table → List Op → Option (List Reply)
run h [] = some []
run h (op ∷ ops) = step h op >>= λ r. run r.1 ops >>= λ rs. some (r.0 ∷ rs)

-- The finite map from keys to values that the table promises to be.
abbrev pub Map : Type 0
Map = ℕ → Option ℕ

unfoldable pub map_step : Map → Op → Reply × Map
map_step m (probing k v salt) = (
  pointer (value_or_null (m k)),
  λ q. elim (m k) [ some old ↦ m q | none ↦ if k == q then some v else m q ],
)
map_step m (finding k) = (result (m k), m)
map_step m (replacing k v) = (
  truth (is_found (m k)),
  λ q. elim (m k) [ none ↦ m q | some old ↦ if k == q then some v else m q ],
)
map_step m (removing k) = (result (m k), λ q. if k == q then none else m q)

unfoldable pub map_run : Map → List Op → List Reply
map_run m [] = []
map_run m (op ∷ ops) = let r = map_step m op in r.0 ∷ map_run r.1 ops

abbrev pub HasKey : Op → Type 0
HasKey (probing k v salt) = 0 < k
HasKey (finding k) = 0 < k
HasKey (replacing k v) = 0 < k
HasKey (removing k) = 0 < k

pub record Models (h : Table) (m : Map) : Type 0 where
  pub valid : IsValid h
  pub agree : (q : ℕ) → 0 < q → find h q ≡ m q

abbrev pub Steps : Map → Op → Reply × Table → Type 0
Steps m op r = (r.0 ≡ (map_step m op).0) × Models r.1 (map_step m op).1

pub step-Models :
    {h : Table} {m : Map} (op : Op) {r : Reply × Table}
    → Models h m
    → HasKey op
    → step h op ≡ some r
    → Steps m op r
unfolding step map_step
step-Models {h} {m} (probing k v salt) {r} w key e = elim (Option-cases (probe h k v salt)) [
  | inl stuck ↦ absurd (ground arith)
  | inr (s, run) ↦
      let p = probe-Probed h k v salt w.valid key run in
      let same : (pointer s.0, s.1) ≡ r = ground arith in
      subst (Steps m (probing k v salt)) same (
        ap pointer (p.returns ∙ ap value_or_null (w.agree k key)),
        record {
          valid = p.valid;
          agree = λ q hq. ground (arith, p.reads q hq, w.agree k key, w.agree q hq);
        },
      )
]
step-Models {h} {m} (finding k) {r} w key e =
    subst (Steps m (finding k)) (some-injective _ _ e) (ap result (w.agree k key), w)
step-Models {h} {m} (replacing k v) {r} w key e =
    let p = replace-Replaced k w.valid key v in
    subst (Steps m (replacing k v)) (some-injective _ _ e) (
      ap truth (p.returns ∙ ap is_found (w.agree k key)),
      record {
        valid = p.valid;
        agree = λ q hq. ground (arith, p.reads q hq, w.agree k key, w.agree q hq);
      },
    )
step-Models {h} {m} (removing k) {r} w key e =
    let p = remove-Removed k w.valid key in
    subst (Steps m (removing k)) (some-injective _ _ e) (
      ap result (p.returns ∙ w.agree k key),
      record {
        valid = p.valid;
        agree = λ q hq. p.reads q hq ∙ ap (λ t. if k == q then none else t) (w.agree q hq);
      },
    )

step_total :
    {h : Table} (op : Op)
    → IsValid h
    → HasKey op
    → h.n * 2 ≤ max_buckets
    → (r : Reply × Table) × (step h op ≡ some r)
unfolding step
step_total {h} (probing k v salt) valid key room =
    let (r, e) = probe_total h k v salt valid key room in ((pointer r.0, r.1), rw e refl)
step_total (finding k) valid key room = (_, refl)
step_total (replacing k v) valid key room = (_, refl)
step_total (removing k) valid key room = (_, refl)

-- The calls reach a table that has too many buckets to be doubled: half of what an allocation can
-- hold.
pub data Outgrows : Table → List Op → Type 0 where
  full : {h : Table} {op : Op} {ops : List Op} → max_buckets < h.n * 2 → Outgrows h (op ∷ ops)
  later :
      {h : Table} {op : Op} {ops : List Op} {r : Reply × Table}
      → step h op ≡ some r
      → Outgrows r.1 ops
      → Outgrows h (op ∷ ops)

-- A sequence of probes, finds, replacements and removals of non-zero keys on a table that models a
-- finite map returns and replies what the map replies, resizes included, unless it reaches a table
-- that has more buckets than half of what an allocation can hold.
pub run_refines :
    (ops : List Op) {h : Table} {m : Map}
    → Models h m
    → All HasKey ops
    → (run h ops ≡ some (map_run m ops)) ⊎ Outgrows h ops
unfolding run map_run
run_refines [] w keys = inl refl
run_refines (op ∷ ops) {h} {m} w (key, keys) = elim (Bool-cases (leb (h.n * 2) max_buckets)) [
  | inr f ↦ inr (full (ground (arith, f)))
  | inl t ↦
      let (r, one) = step_total op w.valid key (ground (arith, t)) in
      let s = step-Models op w key one in
      elim (run_refines ops s.1 keys) [
        | inr o ↦ inr (later one o)
        | inl e ↦ inl (rw (one, ◌>>=◌) (rw (e, ◌>>=◌, s.0) refl))
      ]
]
