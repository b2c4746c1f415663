-- ===== src/FastHt/Bag/Cell.antt =====
-- What a bag holds in practice. `__alloc` zeroes a bag, and a zero control bit means "occupied": only
-- slot 0 is ever used. A cell is that slot, vacant or with its key and value.
use portable_lib.Prelude.{
  ℕ, zero, suc, ◌+◌, ◌-◌, ◌*◌, ◌/◌, ◌%◌, ◌^◌, ◌≤◌, ◌<◌, bit_and, bit_or, Option, none, some, List,
  ◌∷◌, ◌≡◌, refl, ap, arith, ◌==◌, ==_iff, if◌then◌else◌, replicate, true, inl, inr, Bool-cases,
  each_below, at_each, bit_and-mask, bit_or-zero, mul64,
}
use native.Mathlib.Nat.{pow-le-pow_right, div-eq_of_lt, le_trans}
use portable_lib.FastHt.Bag.{
  movemask, Bag, new_bag, find_key, find_key_or_add, Lookup, hit, miss, find_empty_slot, occupy,
  clear_fp, low_byte, fp_bytes, control, find_matches, candidates, scan_mask, update_fp,
}

abbrev pub Cell : Type 0
Cell = Option (ℕ × ℕ)

abbrev pub bag_of : Cell → Bag
bag_of none = record { fp = 2 ^ 56; hk = replicate 7 0; hv = replicate 7 0 }
bag_of (some (k, v)) = record { fp = k % 256; hk = k ∷ replicate 6 0; hv = v ∷ replicate 6 0 }

low_byte-mod : (k : ℕ) → low_byte k ≡ k % 256
unfolding low_byte
low_byte-mod k = bit_and-mask 8 k

fp_bytes-mod : (k : ℕ) → fp_bytes k ≡ k % 2 ^ 56
unfolding fp_bytes
fp_bytes-mod k = bit_and-mask 56 k

pub control-byte : (b : ℕ) → b < 256 → control b ≡ 0
unfolding control
control-byte b h = let e : b / 2 ^ 56 ≡ 0 = omega arith in rw e

-- Bytes 1 and up of a byte are zero.
high_byte-zero : (i f : ℕ) → f < 256 → 1 ≤ i → f / 2 ^ (8 * i) % 256 ≡ 0
high_byte-zero i f hf hi =
    let p : 2 ^ 8 ≤ 2 ^ (8 * i) =
      pow-le-pow_right {n = 2} (omega arith) {i = 8} {j = 8 * i} (omega arith) in
    rw (div-eq_of_lt {n = f} {m = 2 ^ (8 * i)} (le_trans hf p))

abbrev ones : ℕ → ℕ → ℕ
ones zero i = 0
ones (suc lanes) i = 2 ^ i + ones lanes (i + 1)

movemask_high :
    (lanes i f h : ℕ)
    → f < 256
    → 1 ≤ i
    → movemask lanes i f h ≡ (if 0 == h then ones lanes i else 0)
unfolding movemask
movemask_high zero i f h hf hi = ground arith
movemask_high (suc lanes) i f h hf hi =
    rw (high_byte-zero i f hf hi, movemask_high lanes (i + 1) f h hf (omega arith)) (ground arith)

-- The compare of one byte, with zeroes in the other slots.
matches-byte :
    (f h : ℕ)
    → f < 256
    → find_matches f h ≡ bit_and 0x7f ((if f == h then 1 else 0) + (if 0 == h then 65534 else 0))
unfolding find_matches
matches-byte f h hf = ap (bit_and 0x7f) (rw (low, movemask_high 15 1 f h hf (omega arith)))
  where
    low : movemask 16 0 f h ≡ (if f == h then 1 else 0) + movemask 15 1 f h
    low = ground arith

abbrev pub cell_find : Cell → ℕ → Option (ℕ × ℕ)
cell_find none k = none
cell_find (some (k', v)) k = if k' == k then some (0, v) else none

-- The slots that are compared: slot 0 if its byte matches, and every other slot for a byte of zero.
candidates-full :
    (k' v k : ℕ)
    → candidates (bag_of (some (k', v))) k
      ≡ bit_and
          (bit_and 0x7f
            ((if k' % 256 == k % 256 then 1 else 0) + (if 0 == k % 256 then 65534 else 0)))
          127
unfolding candidates
candidates-full k' v k =
    rw
      (
        control-byte (k' % 256) (omega arith),
        fp_bytes-mod (k' % 256),
        low_byte-mod k,
        matches-byte (k' % 256 % 2 ^ 56) (k % 256) (omega arith),
      )
      (ground arith)

candidates-free :
    (k : ℕ)
    → candidates (bag_of none) k
      ≡ bit_and
          (bit_and 0x7f ((if 0 == k % 256 then 1 else 0) + (if 0 == k % 256 then 65534 else 0)))
          126
unfolding candidates
candidates-free k = rw (low_byte-mod k, matches-byte 0 (k % 256) (omega arith))

abbrev bits : ℕ → ℕ → ℕ
bits low high = bit_and 0x7f (low + high)

-- The key is compared with slot 0 where bit 0 of the mask is set; the other slots hold no key.
module _ (x k : ℕ) (h : 0 < k) where
  abbrev keys : List ℕ
  keys = x ∷ replicate 6 0

  scan_none : scan_mask 8 0 keys k ≡ none
  unfolding scan_mask
  scan_none = refl

  scan_low : scan_mask 8 1 keys k ≡ (if x == k then some 0 else none)
  unfolding scan_mask
  scan_low = ground arith

  scan_high : scan_mask 8 126 keys k ≡ none
  unfolding scan_mask
  scan_high = ground arith

  scan_all : scan_mask 8 127 keys k ≡ (if x == k then some 0 else none)
  unfolding scan_mask
  scan_all = ground arith

pub find_key-cell : (c : Cell) (k : ℕ) → 0 < k → find_key (bag_of c) k ≡ cell_find c k
unfolding find_key
find_key-cell none k h = elim (Bool-cases (0 == k % 256)) [
  | inl e ↦ rw (candidates-free k, find_key) (rw e (rw (scan_high 0 k h)))
  | inr e ↦ rw (candidates-free k, find_key) (rw e (rw (scan_none 0 k h)))
]
find_key-cell (some (k', v)) k h = rw (candidates-full k' v k, find_key) (rw full (ground arith))
  where
    full :
        scan_mask 8
          (bit_and
            (bit_and 0x7f
              ((if k' % 256 == k % 256 then 1 else 0) + (if 0 == k % 256 then 65534 else 0)))
            127)
          (keys k' k h)
          k
        ≡ (if k' == k then some 0 else none)
    full = elim (Bool-cases (k' % 256 == k % 256)) [
      | inl e ↦ elim (Bool-cases (0 == k % 256)) [
        | inl z ↦ rw e (rw z (scan_all k' k h))
        | inr z ↦ rw e (rw z (scan_low k' k h))
      ]
      | inr e ↦ elim (Bool-cases (0 == k % 256)) [
        | inl z ↦ rw e (rw z (rw (scan_high k' k h) (ground arith)))
        | inr z ↦ rw e (rw z (rw (scan_none k' k h) (ground arith)))
      ]
    ]

-- A vacant bag offers slot 0; an occupied one has no free slot, although six are unused.
abbrev pub cell_room : Cell → Option ℕ
cell_room none = some 0
cell_room (some _) = none

pub find_empty_slot-cell : (c : Cell) → find_empty_slot (bag_of c) ≡ cell_room c
unfolding find_empty_slot
find_empty_slot-cell none = refl
find_empty_slot-cell (some (k', v)) = rw (control-byte (k' % 256) (omega arith))

abbrev pub cell_lookup : Cell → ℕ → Lookup
cell_lookup none k = miss (some 0)
cell_lookup (some (k', v)) k = if k' == k then hit v else miss none

pub find_key_or_add-cell :
    (c : Cell) (k : ℕ) → 0 < k → find_key_or_add (bag_of c) k ≡ cell_lookup c k
unfolding find_key_or_add
find_key_or_add-cell none k h =
    rw (find_key-cell none k h, find_key_or_add) (rw (find_empty_slot-cell none))
find_key_or_add-cell (some (k', v)) k h =
    ground (arith, find_key-cell (some (k', v)) k h, find_empty_slot-cell (some (k', v)))

-- Filling slot 0 of a fresh or of a vacated bag, and vacating it.
slot_word : (k : ℕ) → bit_or (bit_or (mul64 (bit_and k 0xff) 1) 0) 0 ≡ k % 256
slot_word k = rw (bit_and-mask 8 k, bit_or-zero, bit_or-zero) (omega arith)

update_fp-new : (k : ℕ) → update_fp 0 k 0 ≡ k % 256
unfolding update_fp
update_fp-new k = slot_word k

update_fp-free : (k : ℕ) → update_fp (2 ^ 56) k 0 ≡ k % 256
unfolding update_fp
update_fp-free k = slot_word k

pub occupy-new : (k v : ℕ) → occupy new_bag 0 k v ≡ bag_of (some (k, v))
unfolding occupy
occupy-new k v = rw (update_fp-new k, occupy)

pub occupy-free : (k v : ℕ) → occupy (bag_of none) 0 k v ≡ bag_of (some (k, v))
unfolding occupy
occupy-free k v = rw (update_fp-free k, occupy)

-- The mask that clears byte 0 leaves nothing of a byte.
cleared_bytes : each_below 256 (λ f. bit_and f (2 ^ 64 - 256) == 0) ≡ true
unfolding each_below
cleared_bytes = refl

pub clear_fp-byte : (k : ℕ) → clear_fp (k % 256) 0 ≡ 2 ^ 56
unfolding clear_fp
clear_fp-byte k =
    rw (control-byte (k % 256) (omega arith), low_byte-mod (k % 256))
      (rw ((==_iff _ 0).0 (at_each 256 _ (k % 256 % 256) cleared_bytes (omega arith))))
