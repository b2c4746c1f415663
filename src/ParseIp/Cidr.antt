-- ===== src/ParseIp/Cidr.antt =====
-- `mask_to_cidr4` finds the prefix length of a netmask, and of no other number.
use mathlib.Core.Option.{some-injective}
use portable_lib.Prelude.{
  ℕ, zero, suc, ◌+◌, ◌-◌, ◌*◌, ◌/◌, ◌%◌, ◌^◌, ◌<◌, ◌≤◌, Bool, true, false, Option, none, some, ◌≡◌,
  refl, ap, ◌∙◌, sym, arith, ◌&&◌, ◌||◌, not, if◌then◌else◌, ◌==◌, leb, bit_and, each_below,
  at_each, bit_and-mask, bit_and-shift, mask-bit_and, ◌↔◌, Bool-cases, Option-cases, inl, inr,
  u32_mod, ◌>>=◌,
}
use portable_lib.ParseIp.{count_ones, count_octets, mask_to_cidr4}

-- The netmask of `k` ones.
abbrev pub netmask : ℕ → ℕ
netmask k = 2 ^ 32 - 2 ^ (32 - k)

count_ones-add :
    (fuel m n v : ℕ)
    → count_ones fuel (m + n) v ≡ (count_ones fuel n v >>= λ r. some (m + r.0, r.1))
unfolding count_ones
count_ones-add zero m n v = refl
count_ones-add (suc fuel) m n v =
    let moved : m + n + 1 ≡ m + (n + 1) = omega arith in
    rw (moved, count_ones-add fuel m (n + 1) (bit_and (v * 2) 0xff))
      (elim (Bool-cases (bit_and v 0x80 == 0)) [ inl t ↦ rw t refl | inr f ↦ rw f refl ])

-- An octet below 255 is a shorter prefix of ones, or bits remain behind its ones.
abbrev octet_fits : ℕ → Bool
octet_fits v = elim (count_ones 9 0 v) [
  | none ↦ false
  | some r ↦ leb r.0 8 && (if r.1 == 0 then v == 256 - 2 ^ (8 - r.0) else true)
]

octets-fit : each_below 256 octet_fits ≡ true
unfolding each_below count_ones
octets-fit = refl

record Counted (n v : ℕ) : Type 0 where
  ones : ℕ
  left : ℕ
  counted : count_ones 9 n v ≡ some (n + ones, left)
  ones_le : ones ≤ 8
  left_lem : left ≡ 0 → v ≡ 256 - 2 ^ (8 - ones)

count_ones-Counted : (n v : ℕ) → v < 256 → Counted n v
count_ones-Counted n v h =
    let fits = at_each 256 octet_fits v octets-fit h in
    elim (Option-cases (count_ones 9 0 v)) [
      | inl e ↦ absurd (ground (arith, e, fits))
      | inr (r, e) ↦ record {
        ones = r.0;
        left = r.1;
        counted =
            let same : n ≡ n + 0 = omega arith in
            ap (λ t. count_ones 9 t v) same
            ∙ count_ones-add 9 n 0 v
            ∙ ap (λ o. o >>= λ r. some (n + r.0, r.1)) e;
        ones_le = ground (arith, e, fits);
        left_lem = λ z. ground (arith, e, fits, z);
      }
    ]

-- The octet that an iteration looks at, and the rest of the mask.
top_octet :
    (mask : ℕ) → mask < 2 ^ 32 → bit_and (bit_and 0xff000000 mask / 2 ^ 24) 0xff ≡ mask / 2 ^ 24
top_octet mask h = omega (
  arith,
  bit_and-shift 24 0xff mask,
  mask-bit_and 8 (mask / 2 ^ 24),
  bit_and-mask 8 (bit_and 0xff000000 mask / 2 ^ 24),
)

-- What an iteration does, with the octet and the rest as numbers.
count_octets-suc :
    (fuel n mask : ℕ)
    → mask < 2 ^ 32
    → count_octets (suc fuel) n mask ≡ (
        if mask == 0
        then some (some n)
        else if mask / 2 ^ 24 == 0xff
        then count_octets fuel (n + 8) (mask * 2 ^ 8 % u32_mod)
        else count_ones 9 n (mask / 2 ^ 24) >>= λ r.
            if not (r.1 == 0)
            then some none
            else if not (mask * 2 ^ 8 % u32_mod == 0)
            then some none
            else some (some r.0))
unfolding count_octets
count_octets-suc fuel n mask h = rw (top_octet mask h) refl

-- A result of the loop: where it is a length, it is that of the mask's ones.
abbrev Sound : ℕ → ℕ → Option ℕ → Type 0
Sound n mask r = (k : ℕ) → r ≡ some k → (j : ℕ) × (k ≡ n + j) × (j ≤ 32) × (mask ≡ netmask j)

abbrev Ends : ℕ → ℕ → ℕ → Type 0
Ends fuel n mask = (r : Option ℕ) × (count_octets fuel n mask ≡ some r) × Sound n mask r

-- The facts on powers that the two places of a mask's last one need.
long_masks : each_below 33 (λ j. leb j 24 || not (netmask j % 256 == 0)) ≡ true
unfolding each_below
long_masks = refl

short_masks :
    each_below 25
      (λ j. (netmask j / 2 ^ 8 + 0xff000000 == netmask (8 + j)) && (netmask j % 2 ^ 8 == 0))
    ≡ true
unfolding each_below
short_masks = refl

octet_masks : each_below 9 (λ j. (256 - 2 ^ (8 - j)) * 2 ^ 24 == netmask j) ≡ true
unfolding each_below
octet_masks = refl

netmask-shift :
    (mask j : ℕ)
    → mask < 2 ^ 32
    → mask / 2 ^ 24 ≡ 255
    → j ≤ 32
    → mask * 2 ^ 8 % 2 ^ 32 ≡ netmask j
    → (8 + j ≤ 32) × (mask ≡ netmask (8 + j))
netmask-shift mask j h top le e =
    let long =
      at_each 33 (λ j. leb j 24 || not (netmask j % 256 == 0)) j long_masks (omega arith) in
    let fits : j < 25 = ground (arith, long, e) in
    let short =
      at_each 25
        (λ j. (netmask j / 2 ^ 8 + 0xff000000 == netmask (8 + j)) && (netmask j % 2 ^ 8 == 0)) j
        short_masks fits in
    (omega (arith, fits), ground (arith, short, e, top, h))

-- The iteration that meets the first octet below 255.
last_Ends :
    (fuel n mask : ℕ)
    → mask < 2 ^ 32
    → (mask == 0) ≡ false
    → (mask / 2 ^ 24 == 0xff) ≡ false
    → Ends (suc fuel) n mask
last_Ends fuel n mask h t top =
    let c = count_ones-Counted n (mask / 2 ^ 24) (omega arith) in
    elim (Bool-cases (c.left == 0)) [
      | inr f ↦ (
        none,
        count_octets-suc fuel n mask h ∙ rw (t, top, c.counted, f) refl,
        λ k q. absurd (ground (arith, q)),
      )
      | inl f ↦ elim (Bool-cases (mask * 2 ^ 8 % u32_mod == 0)) [
        | inr g ↦ (
          none,
          count_octets-suc fuel n mask h ∙ rw (t, top, c.counted, f, g) refl,
          λ k q. absurd (ground (arith, q)),
        )
        | inl g ↦
            let octet = c.left_lem (ground (arith, f)) in
            let same =
              at_each 9 (λ j. (256 - 2 ^ (8 - j)) * 2 ^ 24 == netmask j) c.ones octet_masks
                (omega (arith, c.ones_le)) in
            (
              some (n + c.ones),
              count_octets-suc fuel n mask h ∙ rw (t, top, c.counted, f, g) refl,
              λ k q. (
                c.ones,
                omega (arith, some-injective _ _ q),
                omega (arith, c.ones_le),
                ground (arith, octet, same, g, h),
              ),
            )
      ]
    ]

step_Ends :
    (fuel n mask : ℕ)
    → mask < 2 ^ 32
    → Ends fuel (n + 8) (mask * 2 ^ 8 % u32_mod)
    → Ends (suc fuel) n mask
step_Ends fuel n mask h (r, e, sound) = elim (Bool-cases (mask == 0)) [
  | inl t ↦
      let zero_mask : mask ≡ 0 = ground (arith, t) in
      (
        some n,
        count_octets-suc fuel n mask h ∙ rw t refl,
        λ k q. (0, omega (arith, some-injective _ _ q), omega arith, omega (arith, zero_mask)),
      )
  | inr t ↦ elim (Bool-cases (mask / 2 ^ 24 == 0xff)) [
    | inl top ↦ (
      r,
      count_octets-suc fuel n mask h ∙ rw (t, top) e,
      λ k q.
          let s = sound k q in
          let shift = netmask-shift mask s.0 h (ground (arith, top)) s.2 s.3 in
          (8 + s.0, omega (arith, s.1), shift.0, shift.1),
    )
    | inr top ↦ last_Ends fuel n mask h t top
  ]
]

zero_Ends : (fuel n mask : ℕ) → mask ≡ 0 → Ends (suc fuel) n mask
zero_Ends fuel n mask z = (
  some n,
  count_octets-suc fuel n mask (omega (arith, z)) ∙ rw z refl,
  λ k q. (0, omega (arith, some-injective _ _ q), omega arith, omega (arith, z)),
)

-- Five iterations are enough: after four, nothing is left of the mask.
all_Ends : (mask : ℕ) → mask < 2 ^ 32 → Ends 5 0 mask
all_Ends mask h = step_Ends 4 0 mask h (
    step_Ends 3 8 (mask * 2 ^ 8 % u32_mod) (omega arith) (
      step_Ends 2 16 (mask * 2 ^ 8 % u32_mod * 2 ^ 8 % u32_mod) (omega arith) (
        step_Ends 1 24 (mask * 2 ^ 8 % u32_mod * 2 ^ 8 % u32_mod * 2 ^ 8 % u32_mod) (omega arith)
          (zero_Ends 0 32 _ (omega arith)))))

abbrev finds_length : ℕ → Bool
finds_length j = elim (count_octets 5 0 (netmask j)) [
  | none ↦ false
  | some r ↦ elim r [ none ↦ false | some k ↦ k == j ]
]

finds_lengths : each_below 33 finds_length ≡ true
unfolding each_below count_octets count_ones
finds_lengths = refl

finds : (j : ℕ) → j < 33 → count_octets 5 0 (netmask j) ≡ some (some j)
finds j h =
    let found = at_each 33 finds_length j finds_lengths h in
    elim (Option-cases (count_octets 5 0 (netmask j))) [
      | inl e ↦ absurd (ground (arith, e, found))
      | inr (r, e) ↦ elim (Option-cases r) [
        | inl q ↦ absurd (ground (arith, e, q, found))
        | inr (k, q) ↦ ground (arith, e, q, found)
      ]
    ]

-- For every 32-bit mask mask_to_cidr4 returns: the number of ones where the mask is a prefix of
-- ones, and a failure for every other mask.
pub mask_to_cidr4_lem :
    (mask : ℕ)
    → mask < 2 ^ 32
    → (r : Option ℕ) × (mask_to_cidr4 mask ≡ some r)
      × ((k : ℕ) → (r ≡ some k) ↔ ((k ≤ 32) × (mask ≡ netmask k)))
unfolding mask_to_cidr4
mask_to_cidr4_lem mask h =
    let (r, e, sound) = all_Ends mask h in
    (
      r,
      e,
      λ k. (
        λ q. let s = sound k q in ground (arith, s),
        λ (le, m). some-injective _ _ (sym e ∙ ap (count_octets 5 0) m ∙ finds k (omega arith)),
      ),
    )
