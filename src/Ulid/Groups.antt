-- ===== src/Ulid/Groups.antt =====
-- The eight characters of five bytes: their numbers, and the bytes made of the numbers.
use portable_lib.Prelude.{
  ℕ, ◌+◌, ◌-◌, ◌*◌, ◌/◌, ◌%◌, ◌^◌, ◌<◌, Bool, true, false, ◌&&◌, none, some, List, [], ◌∷◌, ◌++◌,
  ◌≡◌, refl, arith, ◌==◌, bit_and, bit_or, bit_or-fields, u8_mod, each_below, at_each, All,
}
use portable_lib.Ulid.{value, values, unpack, digit, pack}

-- The masks and shifts of a byte, as arithmetic.
is_split : ℕ → Bool
is_split x =
    (bit_and x 224 / 2 ^ 5 == x / 32)
    && (bit_and x 31 == x % 32)
    && (bit_and x 248 / 2 ^ 3 == x / 8)
    && (bit_and x 7 * 2 ^ 2 == x % 8 * 2 ^ 2)
    && (bit_and x 192 / 2 ^ 6 == x / 64)
    && (bit_and x 62 / 2 ^ 1 == x / 2 % 32)
    && (bit_and x 1 * 2 ^ 4 == x % 2 * 2 ^ 4)
    && (bit_and x 240 / 2 ^ 4 == x / 16)
    && (bit_and x 15 * 2 ^ 1 == x % 16 * 2 ^ 1)
    && (bit_and x 128 / 2 ^ 7 == x / 128)
    && (bit_and x 124 / 2 ^ 2 == x / 4 % 32)
    && (bit_and x 3 * 2 ^ 3 == x % 4 * 2 ^ 3)

pub record Fields (x : ℕ) : Type 0 where
  pub high3 : bit_and x 224 / 2 ^ 5 ≡ x / 32
  pub low5 : bit_and x 31 ≡ x % 32
  pub high5 : bit_and x 248 / 2 ^ 3 ≡ x / 8
  pub low3 : bit_and x 7 * 2 ^ 2 ≡ x % 8 * 2 ^ 2
  pub high2 : bit_and x 192 / 2 ^ 6 ≡ x / 64
  pub middle : bit_and x 62 / 2 ^ 1 ≡ x / 2 % 32
  pub low1 : bit_and x 1 * 2 ^ 4 ≡ x % 2 * 2 ^ 4
  pub high4 : bit_and x 240 / 2 ^ 4 ≡ x / 16
  pub low4 : bit_and x 15 * 2 ^ 1 ≡ x % 16 * 2 ^ 1
  pub high1 : bit_and x 128 / 2 ^ 7 ≡ x / 128
  pub upper : bit_and x 124 / 2 ^ 2 ≡ x / 4 % 32
  pub low2 : bit_and x 3 * 2 ^ 3 ≡ x % 4 * 2 ^ 3

split_table : each_below 256 is_split ≡ true
unfolding each_below is_split
split_table = refl

opened : (x : ℕ) → is_split x ≡ true → Fields x
unfolding is_split
opened x t = ground arith

pub byte-Fields : (x : ℕ) → x < 256 → Fields x
byte-Fields x h = opened x (at_each 256 is_split x split_table h)

is_read : ℕ → Bool
is_read i = elim (value (digit i)) [ none ↦ false | some j ↦ j == i ]

read_table : each_below 32 is_read ≡ true
unfolding each_below is_read value digit
read_table = refl

value-digit : (i : ℕ) → i < 32 → value (digit i) ≡ some i
unfolding is_read
value-digit i h = let t = at_each 32 is_read i read_table h in ground (arith, t)

unfoldable pub digits : List ℕ → List ℕ
digits [] = []
digits (i ∷ is) = digit i ∷ digits is

pub values-digits : (is : List ℕ) → All (λ i. i < 32) is → values (digits is) ≡ some is
unfolding values digits
values-digits [] h = refl
values-digits (i ∷ is) h = rw (value-digit i h.0, values-digits is h.1) refl

-- The numbers of eight characters, from five bytes and the byte of the odd bit.
abbrev pub fives : (x y o z w u : ℕ) → List ℕ
fives x y o z w u =
    x / 8
    ∷ (x % 8 * 2 ^ 2 + y / 64)
    ∷ y / 2 % 32
    ∷ (o % 2 * 2 ^ 4 + z / 16)
    ∷ (z % 16 * 2 ^ 1 + w / 128)
    ∷ w / 4 % 32
    ∷ (w % 4 * 2 ^ 3 + u / 32)
    ∷ u % 32
    ∷ []

module _ (x y o z w u : ℕ) (hx : x < 256) (hy : y < 256) (ho : o < 256) (hz : z < 256)
    (hw : w < 256) (hu : u < 256) where
  pub pack-fives : pack x y o z w u ≡ digits (fives x y o z w u)
  unfolding pack digits
  pack-fives =
      let fx = byte-Fields x hx in
      let fy = byte-Fields y hy in
      let fo = byte-Fields o ho in
      let fz = byte-Fields z hz in
      let fw = byte-Fields w hw in
      let fu = byte-Fields u hu in
      let j1 = bit_or-fields 2 (x % 8) (y / 64) (omega arith) in
      let j2 = bit_or-fields 4 (o % 2) (z / 16) (omega arith) in
      let j3 = bit_or-fields 1 (z % 16) (w / 128) (omega arith) in
      let j4 = bit_or-fields 3 (w % 4) (u / 32) (omega arith) in
      rw
        (
          fx.high5, fx.low3, fy.high2, j1, fy.middle, fo.low1, fz.high4, j2, fz.low4, fw.high1, j3,
          fw.upper, fw.low2, fu.high3, j4, fu.low5,
        )
        refl

  -- The five bytes that are made of the eight numbers.
  fives-lt : All (λ i. i < 32) (fives x y o z w u)
  fives-lt = omega arith

  first : bit_or (x / 8 * 2 ^ 3) ((x % 8 * 2 ^ 2 + y / 64) / 2 ^ 2) % u8_mod ≡ x
  first = omega (arith, bit_or-fields 3 (x / 8) ((x % 8 * 2 ^ 2 + y / 64) / 2 ^ 2) (omega arith))

  second :
      bit_or
          (bit_or ((x % 8 * 2 ^ 2 + y / 64) * 2 ^ 6) (y / 2 % 32 * 2 ^ 1))
          ((o % 2 * 2 ^ 4 + z / 16) / 2 ^ 4)
        % u8_mod
      ≡ y - y % 2 + o % 2
  second =
      let a = x % 8 * 2 ^ 2 + y / 64 in
      let b = y / 2 % 32 in
      let c = (o % 2 * 2 ^ 4 + z / 16) / 2 ^ 4 in
      let j1 = bit_or-fields 6 a (b * 2 ^ 1) (omega arith) in
      let shape : a * 2 ^ 6 + b * 2 ^ 1 ≡ (a * 32 + b) * 2 ^ 1 = omega arith in
      let j2 = bit_or-fields 1 (a * 32 + b) c (omega arith) in rw (j1, shape, j2) (omega arith)

  third :
      bit_or ((o % 2 * 2 ^ 4 + z / 16) * 2 ^ 4) ((z % 16 * 2 ^ 1 + w / 128) / 2 ^ 1) % u8_mod ≡ z
  third = omega (
    arith,
    bit_or-fields 4 (o % 2 * 2 ^ 4 + z / 16) ((z % 16 * 2 ^ 1 + w / 128) / 2 ^ 1) (omega arith),
  )

  fourth :
      bit_or
          (bit_or ((z % 16 * 2 ^ 1 + w / 128) * 2 ^ 7) (w / 4 % 32 * 2 ^ 2))
          ((w % 4 * 2 ^ 3 + u / 32) / 2 ^ 3)
        % u8_mod
      ≡ w
  fourth =
      let a = z % 16 * 2 ^ 1 + w / 128 in
      let b = w / 4 % 32 in
      let c = (w % 4 * 2 ^ 3 + u / 32) / 2 ^ 3 in
      let j1 = bit_or-fields 7 a (b * 2 ^ 2) (omega arith) in
      let shape : a * 2 ^ 7 + b * 2 ^ 2 ≡ (a * 32 + b) * 2 ^ 2 = omega arith in
      let j2 = bit_or-fields 2 (a * 32 + b) c (omega arith) in rw (j1, shape, j2) (omega arith)

  fifth : bit_or ((w % 4 * 2 ^ 3 + u / 32) * 2 ^ 5) (u % 32) % u8_mod ≡ u
  fifth = omega (arith, bit_or-fields 5 (w % 4 * 2 ^ 3 + u / 32) (u % 32) (omega arith))

  unfoldable pub AreFive : List ℕ → Type 0
  AreFive bs = bs ≡ x ∷ (y - y % 2 + o % 2) ∷ z ∷ w ∷ u ∷ []

  join_five :
      {a b c d e : ℕ}
      → a ≡ x
      → b ≡ y - y % 2 + o % 2
      → c ≡ z
      → d ≡ w
      → e ≡ u
      → AreFive (a ∷ b ∷ c ∷ d ∷ e ∷ [])
  unfolding AreFive
  join_five ea eb ec ed ee = cc

  -- The eight numbers behind two others, and behind eight more, and behind sixteen more.
  module _ (p q : ℕ) (rest : List ℕ) where
    pub unpack_first : AreFive (unpack (p ∷ q ∷ (fives x y o z w u ++ rest)) 2)
    unfolding unpack
    unpack_first = join_five first second third fourth fifth

    module _ (x1 y1 o1 z1 w1 u1 : ℕ) where
      pub unpack_second :
          AreFive (unpack (p ∷ q ∷ (fives x1 y1 o1 z1 w1 u1 ++ (fives x y o z w u ++ rest))) 10)
      unfolding unpack
      unpack_second = join_five first second third fourth fifth

      pub unpack_third :
          (x2 y2 o2 z2 w2 u2 : ℕ)
          → AreFive (
              unpack
                (p
                  ∷ q
                  ∷ (fives x1 y1 o1 z1 w1 u1
                      ++ (fives x2 y2 o2 z2 w2 u2 ++ (fives x y o z w u ++ rest))))
                18)
      unfolding unpack
      unpack_third x2 y2 o2 z2 w2 u2 = join_five first second third fourth fifth
