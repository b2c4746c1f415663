-- ===== src/FastHt/Bag.antt =====
-- src/hashtable/fast-ht.c: one bag, its fingerprint word, and the slots that a key may stand in.
-- The build is the one with SIMD compares (amd64, arm64).
pub mod Cell
use portable_lib.Prelude.{
  ℕ, zero, suc, ◌+◌, ◌-◌, ◌*◌, ◌/◌, ◌%◌, ◌^◌, bit_and, bit_or, Option, none, some, List, ◌==◌,
  if◌then◌else◌, get_or, set, replicate, u8_mod, u32_mod, u64_mod, mul64,
}

pub record Bag : Type 0 where
  pub fp : ℕ
  pub hk : List ℕ
  pub hv : List ℕ

abbrev pub bagsz : ℕ
bagsz = 7

-- `__fp`, `__h2` and `__control`
unfoldable pub fp_bytes : ℕ → ℕ
fp_bytes fp = bit_and fp (2 ^ 56 - 1)

unfoldable pub low_byte : ℕ → ℕ
low_byte k = bit_and k 0xff

unfoldable pub control : ℕ → ℕ
control fp = bit_and 0x7f (fp / 2 ^ 56) % u8_mod

-- The bit `i` of `SIMD_MOVEMASK_EPI8(SIMD_CMPEQ_EPI8(...))` says that byte `i` of `x` is `h2`.
movemask : ℕ → ℕ → ℕ → ℕ → ℕ
movemask zero i x h2 = 0
movemask (suc lanes) i x h2 =
    (if x / 2 ^ (8 * i) % 256 == h2 then 2 ^ i else 0) + movemask lanes (i + 1) x h2

unfoldable pub find_matches : ℕ → ℕ → ℕ
unfolding movemask
find_matches fp_h2 h2 = bit_and 0x7f (movemask 16 0 fp_h2 h2)

-- `__builtin_ctz`, of an argument below 2 ^ 16
ctz_from : ℕ → ℕ → ℕ
ctz_from zero p = 0
ctz_from (suc w) p = let rest = ctz_from w (p / 2) in if p % 2 == 0 then suc rest else 0

unfoldable pub ctz : ℕ → ℕ
unfolding ctz_from
ctz p = ctz_from 16 p

-- `p &= ~(1 << j)` on a `uint16_t`
unfoldable pub clear_bit : ℕ → ℕ → ℕ
clear_bit p j = bit_and p (2 ^ 16 - 1 - 2 ^ j)

-- `while (p) { ... }`: the slots of the mask, lowest first, until one holds the key.
unfoldable pub scan_mask : ℕ → ℕ → List ℕ → ℕ → Option ℕ
unfolding ctz clear_bit
scan_mask zero p hk k = none
scan_mask (suc f) p hk k =
    let j = ctz p in
    let rest = scan_mask f (clear_bit p j) hk k in
    let visit = if get_or hk j 0 == k then some j else rest in if p == 0 then none else visit

-- The candidates of `__find_key`: slots whose byte matches and that are occupied.
unfoldable pub candidates : Bag → ℕ → ℕ
unfolding fp_bytes low_byte control find_matches
candidates g k =
    bit_and (find_matches (fp_bytes g.fp) (low_byte k)) (bit_and (u32_mod - 1 - control g.fp) 0x7f)

-- The slot and the value of the key. A mask has at most `bagsz` bits, hence the fuel.
unfoldable pub find_key : Bag → ℕ → Option (ℕ × ℕ)
find_key g k = elim (scan_mask 8 (candidates g k) g.hk k) [
  | none ↦ none
  | some j ↦ some (j, get_or g.hv j 0)
]

unfoldable pub find_empty_slot : Bag → Option ℕ
unfolding control ctz
find_empty_slot g = if control g.fp == 0 then none else some (ctz (control g.fp))

-- What `__find_key_or_add` reports: the value found, or the free slot if there is one.
pub data Lookup : Type 0 where
  hit : ℕ → Lookup
  miss : Option ℕ → Lookup

unfoldable pub find_key_or_add : Bag → ℕ → Lookup
find_key_or_add g k = elim (find_key g k) [
  | some (j, val) ↦ hit val
  | none ↦ miss (find_empty_slot g)
]

unfoldable pub update_fp : ℕ → ℕ → ℕ → ℕ
unfolding control low_byte
update_fp fp k slot =
    let ctrl = bit_and (control fp) (u32_mod - 1 - 2 ^ slot) in
    let h2 = bit_or (mul64 (bit_and k 0xff) (2 ^ (8 * slot))) (low_byte fp) in
    bit_or h2 (mul64 ctrl (2 ^ 56))

unfoldable pub clear_fp : ℕ → ℕ → ℕ
unfolding control low_byte
clear_fp fp slot =
    let ctrl = bit_or (control fp) (2 ^ slot) in
    let h2 = bit_and (low_byte fp) (u64_mod - 1 - mul64 0xff (2 ^ (8 * slot))) in
    bit_or h2 (mul64 ctrl (2 ^ 56))

-- `__NEWZ(bag)`: memory from `__alloc` is zeroed.
abbrev pub new_bag : Bag
new_bag = record { fp = 0; hk = replicate bagsz 0; hv = replicate bagsz 0 }

-- The three writes that occupy a slot.
unfoldable pub occupy : Bag → ℕ → ℕ → ℕ → Bag
occupy g slot k v = record {
  fp = update_fp g.fp k slot;
  hk = set g.hk slot k;
  hv = set g.hv slot v;
}
