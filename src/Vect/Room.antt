-- ===== src/Vect/Room.antt =====
-- Growing keeps what a vector holds, and gives the room that is wanted.
use native.Mathlib.Nat.{pow-suc, mul_assoc}
use portable_lib.Prelude.{
  ℕ, zero, suc, ◌+◌, ◌-◌, ◌*◌, ◌%◌, ◌^◌, ◌≤◌, ◌<◌, some, List, ◌++◌, ◌≡◌, refl, ap, ◌∙◌, inl, inr,
  arith, if◌then◌else◌, ltb, leb, Bool-cases, set, replicate, take, length, length-append,
  length-set, length-replicate, u64_mod, take-set, take-append, lt→ltb,
}
use portable_lib.Vect.{Vect, doubled, fill, vect_reserve}

doubled_step :
    (turns n want : ℕ)
    → n * 2 < 2 ^ 64
    → doubled (suc turns) n want
      ≡ (if ltb (n * 2) want then doubled turns (n * 2) want else some (n * 2))
unfolding doubled
doubled_step turns n want h = let exact : n * 2 % u64_mod ≡ n * 2 = omega arith in rw exact refl

doubled_more :
    (turns n want : ℕ) {r : ℕ}
    → n * 2 < want
    → want < 2 ^ 62
    → doubled turns (n * 2) want ≡ some r
    → doubled (suc turns) n want ≡ some r
doubled_more turns n want more small e =
    doubled_step turns n want (omega arith) ∙ rw (lt→ltb _ _ more) e

pub doubled_enough :
    (turns n want : ℕ)
    → 0 < n
    → n ≤ want
    → want < 2 ^ 62
    → want < n * 2 ^ turns
    → (r : ℕ) × (doubled turns n want ≡ some r) × (want ≤ r) × (r ≤ 2 * want)
doubled_enough zero n want pos le small enough = absurd (omega arith)
doubled_enough (suc turns) n want pos le small enough = elim (Bool-cases (ltb (n * 2) want)) [
  | inl t ↦
      let more : n * 2 < want = ground (arith, t) in
      let (r, e, low, high) =
        doubled_enough turns (n * 2) want (omega arith) (omega arith) small
          (omega (arith, ap (λ (t : ℕ). n * t) (pow-suc 2 turns), mul_assoc n 2 (2 ^ turns))) in
      (r, doubled_more turns n want more small e, low, high)
  | inr f ↦
      (n * 2, doubled_step turns n want (omega arith) ∙ rw f refl, ground (arith, f), omega arith)
]

module _ {ℓ} {A : Type ℓ} where
  pub length-fill : (buf : List A) (i n : ℕ) (x : A) → length (fill buf i n x) ≡ length buf
  unfolding fill
  length-fill buf i zero x = refl
  length-fill buf i (suc n) x = length-fill (set buf i x) (i + 1) n x ∙ length-set buf i x

  pub take-fill : (buf : List A) (k i n : ℕ) (x : A) → k ≤ i → take k (fill buf i n x) ≡ take k buf
  unfolding fill
  take-fill buf k i zero x h = refl
  take-fill buf k i (suc n) x h =
      take-fill (set buf i x) k (i + 1) n x (omega arith) ∙ take-set buf k i x h

  -- The array has the capacity, which is not 0 and can be doubled.
  pub record IsValid (v : Vect A) : Type ℓ where
    pub in_cap : v.size ≤ v.cap
    pub array : length v.arr ≡ v.cap
    pub some_room : 0 < v.cap
    pub low_cap : v.cap < 2 ^ 63

  abbrev pub contents : Vect A → List A
  contents v = take v.size v.arr

  -- A vector with room for `want` elements and the contents of `v`.
  pub record Reserved (v w : Vect A) (want : ℕ) : Type ℓ where
    pub valid : IsValid w
    pub same_size : w.size ≡ v.size
    pub room : want ≤ w.cap
    pub same : contents w ≡ contents v

  module _ (null junk : A) where
    pub vect_reserve-Reserved :
        (v : Vect A) (want : ℕ)
        → IsValid v
        → want < 2 ^ 62
        → (w : Vect A) × (vect_reserve null junk v want ≡ some w) × Reserved v w want
    unfolding vect_reserve
    vect_reserve-Reserved v want h small = elim (Bool-cases (leb v.cap want)) [
      | inr f ↦ (
        v,
        rw f refl,
        record { valid = h; same_size = refl; room = ground (arith, f); same = refl },
      )
      | inl t ↦
          let full : v.cap ≤ want = ground (arith, t) in
          let (n, e, low, high) =
            doubled_enough 65 v.cap want h.some_room full small (omega (arith, h.some_room)) in
          let more = replicate (n - v.cap) junk in
          let long : length (v.arr ++ more) ≡ n = omega (
            arith,
            length-append v.arr more,
            length-replicate (n - v.cap) junk,
            h.array,
            full,
            low,
          ) in
          (
            record v { arr = fill (v.arr ++ more) v.size (n - v.cap) null; cap = n },
            rw (t, e) refl,
            record {
              valid = record {
                in_cap = omega (arith, h.in_cap, full, low);
                array = length-fill (v.arr ++ more) v.size (n - v.cap) null ∙ long;
                some_room = omega (arith, h.some_room, full, low);
                low_cap = omega (arith, high, small);
              };
              same_size = refl;
              room = low;
              same =
                  take-fill (v.arr ++ more) v.size v.size (n - v.cap) null (omega arith)
                  ∙ take-append v.arr more v.size (omega (arith, h.in_cap, h.array));
            },
          )
    ]
