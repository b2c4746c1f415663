-- ===== src/Bloom/Places.antt =====
-- The slots of an item: one in each partition, inside the filter's memory.
use native.Mathlib.Nat.{mod-lt, mul-le-mul_right, add-mul-div_right, div-eq_of_lt}
use portable_lib.Prelude.{
  ℕ, zero, suc, ◌+◌, ◌*◌, ◌/◌, ◌%◌, ◌^◌, ◌<◌, ◌≤◌, Bool, true, ◌&&◌, List, [], ◌∷◌, ◌++◌, ◌≡◌, refl,
  sym, ◌∙◌, ◌↔◌, inl, inr, arith, if◌then◌else◌, ◌==◌, ltb, Bool-cases, bit_and, add64, mul64,
}
use portable_lib.Bloom.{place, all_slots, hash_val}

-- The partitions fit an address space, and there is something in each.
pub record IsSized (m k : ℕ) : Type 0 where
  pub some_slots : 0 < m
  pub some_parts : 0 < k
  pub fits : m * k < 2 ^ 64

place-sum : (m k z i : ℕ) → IsSized m k → i < k → (r : ℕ) × (r < m) × (place m z i ≡ r + i * m)
unfolding place
place-sum m k z i sized h =
    let r = add64 (bit_and z 0xffffffff) (mul64 i (z / 2 ^ 32)) % m in
    let low : r < m = mod-lt _ sized.some_slots in
    let below : suc i * m ≤ k * m = mul-le-mul_right m h in
    (r, low, omega (arith, below, sized.fits, low))

pub place-lt : (m k z i : ℕ) → IsSized m k → i < k → place m z i < m * k
place-lt m k z i sized h =
    let (r, low, e) = place-sum m k z i sized h in
    let below : suc i * m ≤ k * m = mul-le-mul_right m h in omega (arith, e, low, below)

pub place-div : (m k z i : ℕ) → IsSized m k → i < k → place m z i / m ≡ i
place-div m k z i sized h =
    let (r, low, e) = place-sum m k z i sized h in
    rw e (add-mul-div_right r i sized.some_slots ∙ rw (div-eq_of_lt low) (omega arith))

-- Whether the slot `j` is one of the slots for the hash `z`.
unfoldable pub has_slot : (m k z j : ℕ) → Bool
has_slot m k z j = ltb (j / m) k && (place m z (j / m) == j)

-- How many of the items have the slot `j`.
unfoldable pub times : (m k salt : ℕ) → List ℕ → ℕ → ℕ
unfolding has_slot
times m k salt [] j = 0
times m k salt (v ∷ vs) j =
    (if has_slot m k (hash_val v salt) j then 1 else 0) + times m k salt vs j

pub has_slot-place : (m k z i : ℕ) → IsSized m k → i < k → has_slot m k z (place m z i) ≡ true
unfolding has_slot
has_slot-place m k z i sized h = let e = place-div m k z i sized h in rw e (ground arith)

pub times-append :
    (m k salt : ℕ) (front back : List ℕ) (j : ℕ)
    → times m k salt (front ++ back) j ≡ times m k salt front j + times m k salt back j
unfolding times
times-append m k salt [] back j = omega arith
times-append m k salt (v ∷ front) back j = omega (arith, times-append m k salt front back j)

-- In each partition the slot of `v` is a slot of some item.
abbrev pub SharesSlots : (m k salt : ℕ) → List ℕ → ℕ → Type 0
SharesSlots m k salt vs v = (i : ℕ) → i < k → 0 < times m k salt vs (place m (hash_val v salt) i)

pub all_slots_iff :
    (test : List ℕ → ℕ → Bool) (m z i left : ℕ) (bm : List ℕ)
    → (all_slots test m z i left bm ≡ true)
      ↔ ((n : ℕ) → i ≤ n → n < i + left → test bm (place m z n) ≡ true)
unfolding all_slots
all_slots_iff test m z i zero bm = (λ h n low high. absurd (omega arith), λ h. refl)
all_slots_iff test m z i (suc left) bm = elim (Bool-cases (test bm (place m z i))) [
  | inl t ↦
      let ih = all_slots_iff test m z (i + 1) left bm in
      rw t (
        (λ h n low high. elim (Bool-cases (i == n)) [
          | inl e ↦ let same : i ≡ n = ground arith in rw (sym same) t
          | inr e ↦ ih.0 h n (ground arith) (omega arith)
        ]),
        (λ h. ih.1 (λ n low high. h n (omega arith) (omega arith))),
      )
  | inr f ↦ rw f ((λ h. cc), (λ h. let t = h i (omega arith) (omega arith) in cc))
]

-- The slots of an added item are slots of some item.
pub times-pos :
    (m k salt : ℕ) (front : List ℕ) (v : ℕ) (back : List ℕ) (i : ℕ)
    → IsSized m k
    → i < k
    → 0 < times m k salt (front ++ (v ∷ back)) (place m (hash_val v salt) i)
unfolding times
times-pos m k salt front v back i sized h =
    let j = place m (hash_val v salt) i in
    let e = has_slot-place m k (hash_val v salt) i sized h in
    rw (times-append m k salt front (v ∷ back) j, e) (omega arith)
