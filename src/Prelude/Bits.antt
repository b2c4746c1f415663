-- ===== src/Prelude/Bits.antt =====
-- The native `bit_and` and `bit_or` at variables: one equation for the lowest digit of each, and from
-- it the two forms that C code relies on, a mask of low bits and the union of disjoint fields.
use Prim.Native.Nat.{ℕ, zero, suc, ◌+◌, ◌-◌, ◌*◌, ◌/◌, ◌%◌, ◌^◌, ◌≤◌, ◌<◌, min, max}
use Prim.Native.Nat.{
  bit_and, bit_or, bit_xor, digits, differ, bit_and-bitwise, bit_or-bitwise, bit_xor-bitwise,
}
use mathlib.Core.Path.{◌≡◌, refl, ap, ◌∙◌, ◌≡⟨◌⟩◌, ◌∎}
use mathlib.Core.Bool.{Bool, true, ◌&&◌}
use native.Mathlib.Nat.{pow-suc, one-le-pow, le_refl}
use native.Mathlib.Nat.{
  mul-add-mod_self_right, mod-eq_of_lt, mod-lt, div-add-mod', div-div-eq-div-mul,
}
use native.Mathlib.Omega.{arith}

-- Enough fuel, and more, give the same digits.
module _ (pad : ℕ → ℕ) (op : ℕ → ℕ → ℕ) where
  digits_stable : (k l x y : ℕ) → x ≤ k → x ≤ l → digits pad op k x y ≡ digits pad op l x y
  digits_stable zero zero x y hx hy = refl
  digits_stable zero (suc l) zero y hx hy = refl
  digits_stable zero (suc l) (suc x) y hx hy = absurd (omega arith)
  digits_stable (suc k) zero zero y hx hy = refl
  digits_stable (suc k) zero (suc x) y hx hy = absurd (omega arith)
  digits_stable (suc k) (suc l) zero y hx hy = refl
  digits_stable (suc k) (suc l) (suc x) y hx hy =
      omega (arith, digits_stable k l (suc x / 2) (y / 2) (omega arith) (omega arith))

zero-bit_and : (y : ℕ) → bit_and 0 y ≡ 0
zero-bit_and y = bit_and-bitwise 0 y

pub zero-bit_or : (y : ℕ) → bit_or 0 y ≡ y
zero-bit_or y = bit_or-bitwise 0 y

zero-bit_xor : (y : ℕ) → bit_xor 0 y ≡ y
zero-bit_xor y = bit_xor-bitwise 0 y

pub bit_and_low : (x y : ℕ) → bit_and x y ≡ bit_and (x / 2) (y / 2) * 2 + min (x % 2) (y % 2)
bit_and_low zero y = omega (arith, zero-bit_and y, zero-bit_and (y / 2))
bit_and_low (suc x) y = omega (
  arith,
  bit_and-bitwise (suc x) y,
  bit_and-bitwise (suc x / 2) (y / 2),
  digits_stable (λ v. zero) min x (suc x / 2) (suc x / 2) (y / 2) (omega arith) (le_refl _),
)

pub bit_or_low : (x y : ℕ) → bit_or x y ≡ bit_or (x / 2) (y / 2) * 2 + max (x % 2) (y % 2)
bit_or_low zero y = omega (arith, zero-bit_or y, zero-bit_or (y / 2))
bit_or_low (suc x) y = omega (
  arith,
  bit_or-bitwise (suc x) y,
  bit_or-bitwise (suc x / 2) (y / 2),
  digits_stable (λ v. v) max x (suc x / 2) (suc x / 2) (y / 2) (omega arith) (le_refl _),
)

pub bit_xor_low : (x y : ℕ) → bit_xor x y ≡ bit_xor (x / 2) (y / 2) * 2 + differ (x % 2) (y % 2)
bit_xor_low zero y = omega (arith, zero-bit_xor y, zero-bit_xor (y / 2))
bit_xor_low (suc x) y = omega (
  arith,
  bit_xor-bitwise (suc x) y,
  bit_xor-bitwise (suc x / 2) (y / 2),
  digits_stable (λ v. v) differ x (suc x / 2) (suc x / 2) (y / 2) (omega arith) (le_refl _),
)

bit_and-le_below : (n x y : ℕ) → x ≤ n → bit_and x y ≤ x
bit_and-le_below n zero y le = omega (arith, zero-bit_and y)
bit_and-le_below zero (suc x) y le = absurd (omega arith)
bit_and-le_below (suc n) (suc x) y le =
    omega (arith, bit_and_low (suc x) y, bit_and-le_below n (suc x / 2) (y / 2) (omega arith))

-- Masking never exceeds the mask.
pub bit_and-le : (x y : ℕ) → bit_and x y ≤ x
bit_and-le x y = bit_and-le_below x x y (le_refl x)

bit_and-zero_below : (n x : ℕ) → x ≤ n → bit_and x 0 ≡ 0
bit_and-zero_below n zero le = refl
bit_and-zero_below zero (suc x) le = absurd (omega arith)
bit_and-zero_below (suc n) (suc x) le =
    omega (arith, bit_and_low (suc x) 0, bit_and-zero_below n (suc x / 2) (omega arith))

bit_or-zero_below : (n x : ℕ) → x ≤ n → bit_or x 0 ≡ x
bit_or-zero_below n zero le = refl
bit_or-zero_below zero (suc x) le = absurd (omega arith)
bit_or-zero_below (suc n) (suc x) le =
    omega (arith, bit_or_low (suc x) 0, bit_or-zero_below n (suc x / 2) (omega arith))

pub bit_or-zero : (x : ℕ) → bit_or x 0 ≡ x
bit_or-zero x = bit_or-zero_below x x (le_refl x)

twice_pow : (a k : ℕ) → a * 2 ^ suc k ≡ 2 * (a * 2 ^ k)
twice_pow a k = omega (arith, ap (λ (t : ℕ). a * t) (pow-suc 2 k))

mod_twice : (p x : ℕ) → 1 ≤ p → x % (p * 2) ≡ x / 2 % p * 2 + x % 2
mod_twice p x h =
    x % (p * 2)
    ≡⟨ ap (λ (t : ℕ). t % (p * 2)) split ⟩ (x / 2 / p * (p * 2) + (x / 2 % p * 2 + x % 2)) % (p * 2)
    ≡⟨ mul-add-mod_self_right _ _ _ ⟩ (x / 2 % p * 2 + x % 2) % (p * 2)
    ≡⟨ mod-eq_of_lt (omega (arith, mod-lt (x / 2) h)) ⟩ x / 2 % p * 2 + x % 2 ∎
  where
    split : x ≡ x / 2 / p * (p * 2) + (x / 2 % p * 2 + x % 2)
    split = omega (arith, div-add-mod' (x / 2) p)

-- `x & ((1 << k) - 1)` is the remainder by `2 ^ k`.
pub bit_and-mask : (k x : ℕ) → bit_and x (2 ^ k - 1) ≡ x % 2 ^ k
bit_and-mask zero x = omega (arith, bit_and-zero_below x x (le_refl x))
bit_and-mask (suc k) x = ground (
  arith,
  bit_and_low x (2 ^ suc k - 1),
  bit_and-mask k (x / 2),
  pow-suc 2 k,
  one-le-pow k 2,
  mod_twice (2 ^ k) x,
)

bit_and_comm_below : (k a b : ℕ) → a ≤ k → bit_and a b ≡ bit_and b a
bit_and_comm_below k zero b h = omega (arith, zero-bit_and b, bit_and-zero_below b b (le_refl b))
bit_and_comm_below zero (suc a) b h = absurd (omega arith)
bit_and_comm_below (suc k) (suc a) b h = omega (
  arith,
  bit_and_low (suc a) b,
  bit_and_low b (suc a),
  bit_and_comm_below k (suc a / 2) (b / 2) (omega arith),
)

pub bit_and_comm : (a b : ℕ) → bit_and a b ≡ bit_and b a
bit_and_comm a b = bit_and_comm_below a a b (le_refl a)

pub mask-bit_and : (k x : ℕ) → bit_and (2 ^ k - 1) x ≡ x % 2 ^ k
mask-bit_and k x = bit_and_comm_below (2 ^ k - 1) (2 ^ k - 1) x (le_refl _) ∙ bit_and-mask k x

-- The union of two `k`-bit words is a `k`-bit word.
pub bit_or-lt : (k a b : ℕ) → a < 2 ^ k → b < 2 ^ k → bit_or a b < 2 ^ k
bit_or-lt zero a b ha hb = let e : a ≡ 0 = omega arith in rw e (omega (arith, zero-bit_or b))
bit_or-lt (suc k) a b ha hb = omega (
  arith,
  pow-suc 2 k,
  bit_or_low a b,
  bit_or-lt k (a / 2) (b / 2) (omega (arith, pow-suc 2 k)) (omega (arith, pow-suc 2 k)),
)

-- `(a << k) | b` is a sum when `b` fits `k` bits.
pub bit_or-fields : (k a b : ℕ) → b < 2 ^ k → bit_or (a * 2 ^ k) b ≡ a * 2 ^ k + b
bit_or-fields zero a b h = ground (arith, bit_or-zero a)
bit_or-fields (suc k) a b h = ground (
  arith,
  bit_or_low (a * 2 ^ suc k) b,
  twice_pow a k,
  pow-suc 2 k,
  bit_or-fields k a (b / 2) (omega (arith, pow-suc 2 k)),
)

pub fields-bit_or : (k a b : ℕ) → b < 2 ^ k → bit_or b (a * 2 ^ k) ≡ b + a * 2 ^ k
fields-bit_or zero a b h = let e : b ≡ 0 = omega arith in rw e (omega (arith, zero-bit_or (a * 1)))
fields-bit_or (suc k) a b h = ground (
  arith,
  bit_or_low b (a * 2 ^ suc k),
  twice_pow a k,
  pow-suc 2 k,
  fields-bit_or k a (b / 2) (omega (arith, pow-suc 2 k)),
)

-- A test that holds at every number below a bound, by evaluation.
unfoldable pub each_below : ℕ → (ℕ → Bool) → Bool
each_below zero test = true
each_below (suc top) test = each_below top test && test top

pub at_each :
    (top : ℕ) (test : ℕ → Bool) (k : ℕ) → each_below top test ≡ true → k < top → test k ≡ true
unfolding each_below
at_each zero test k held below = absurd (omega arith)
at_each (suc top) test k held below = ground (arith, at_each top test k)

pub div-pow_suc : (b k : ℕ) → b / 2 / 2 ^ k ≡ b / 2 ^ suc k
div-pow_suc b k =
    let e : 2 * 2 ^ k ≡ 2 ^ suc k = omega (arith, pow-suc 2 k) in
    div-div-eq-div-mul b 2 (2 ^ k) ∙ ap (λ (t : ℕ). b / t) e

-- A mask of high bits tests the shifted number.
pub bit_and-shift : (k a b : ℕ) → bit_and (a * 2 ^ k) b ≡ bit_and a (b / 2 ^ k) * 2 ^ k
bit_and-shift zero a b =
    let ha : a * 2 ^ 0 ≡ a = omega arith in
    let hb : b / 2 ^ 0 ≡ b = omega arith in rw (ha, hb) (omega arith)
bit_and-shift (suc k) a b = ground (
  arith,
  bit_and_low (a * 2 ^ suc k) b,
  twice_pow a k,
  twice_pow (bit_and a (b / 2 ^ suc k)) k,
  bit_and-shift k a (b / 2),
  ap (λ (t : ℕ). bit_and a t * 2 ^ k) (div-pow_suc b k),
)
