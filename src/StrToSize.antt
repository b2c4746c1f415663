-- ===== src/StrToSize.antt =====
-- src/strtosize.c: numbers of 64 bits from strings, and sizes with a unit. `endptr` is the rest of
-- the string. A base is not negative here; the code refuses a negative one like 1.
pub mod Digits
pub mod Numbers
pub mod Sizes
mod Tests
use portable_lib.Prelude.{
  ℕ, zero, suc, ◌+◌, ◌-◌, ◌*◌, ◌/◌, ◌%◌, ◌^◌, Bool, true, false, not, ◌&&◌, ◌||◌, Option, none,
  some, List, [], ◌∷◌, if◌then◌else◌, ◌==◌, ltb, leb, u64_mod, mul64, add64,
}
use portable_lib.Chars.{isdigit, isalpha, isupper, isspace}

pub data Number : Type 0 where
  einval : List ℕ → Number
  erange : List ℕ → Number
  number : ℕ → List ℕ → Number

-- What one character does in the loop over the digits.
pub data Digit : Type 0 where
  bad : Digit
  stop : Digit
  over : Digit
  next : ℕ → Digit

unfoldable pub digit_value : ℕ → Option ℕ
digit_value c =
    if isdigit c
    then some (c - 0x30)
    else if isalpha c
    then some (if isupper c then c - 55 else c - 87)
    else none

-- `~0 / mult` and `~0 % mult`
abbrev pub cutoff : ℕ → ℕ
cutoff mult = (2 ^ 64 - 1) / mult

abbrev pub cutchar : ℕ → ℕ
cutchar mult = (2 ^ 64 - 1) % mult

unfoldable pub take_value : ℕ → ℕ → ℕ → Digit
take_value mult val d =
    if leb mult d
    then stop
    else if ltb (cutoff mult) val || ((val == cutoff mult) && ltb (cutchar mult) d)
    then over
    else next (add64 (mul64 val mult) d)

unfoldable pub take_digit : ℕ → ℕ → ℕ → Digit
take_digit mult val c = elim (digit_value c) [ none ↦ bad | some d ↦ take_value mult val d ]

-- The loop over the digits, from `val` on.
unfoldable pub take_digits : ℕ → ℕ → List ℕ → Number
take_digits mult val [] = number val []
take_digits mult val (c ∷ s) = elim (take_digit mult val c) [
  | bad ↦ einval (c ∷ s)
  | stop ↦ number val (c ∷ s)
  | over ↦ erange (c ∷ s)
  | next v ↦ take_digits mult v s
]

unfoldable pub skip_spaces : List ℕ → List ℕ
skip_spaces [] = []
skip_spaces (c ∷ s) = let rest = skip_spaces s in if isspace c then rest else c ∷ s

-- The sign, and what follows it.
unfoldable pub take_sign : ℕ → List ℕ → Bool × List ℕ
take_sign c s = if c == 0x2d then (true, s) else (false, if c == 0x2b then s else c ∷ s)

unfoldable pub starts_hex : List ℕ → Bool
starts_hex (c ∷ x ∷ s) = (c == 0x30) && ((x == 0x78) || (x == 0x58))
starts_hex s = false

unfoldable pub starts_zero : List ℕ → Bool
starts_zero [] = false
starts_zero (c ∷ s) = c == 0x30

unfoldable pub drop2 : List ℕ → List ℕ
drop2 (c ∷ x ∷ s) = s
drop2 s = []

-- `mult`, and where the digits start.
unfoldable pub take_base : ℕ → List ℕ → ℕ × List ℕ
take_base base s =
    if ((base == 0) || (base == 16)) && starts_hex s
    then (16, drop2 s)
    else if base == 0
    then (if starts_zero s then 8 else 10, s)
    else (base, s)

unfoldable pub negate : Bool → Number → Number
negate neg (number v s) = number (if neg then (2 ^ 64 - v) % u64_mod else v) s
negate neg r = r

-- From `start`: the string begins with a character that is no space.
unfoldable pub take_number : ℕ → ℕ → List ℕ → Number
take_number base c s =
    let sign = take_sign c s in
    let digits = take_base base sign.1 in negate sign.0 (take_digits digits.0 0 digits.1)

unfoldable pub start : ℕ → List ℕ → Number
start base [] = number 0 []
start base (c ∷ s) = take_number base c s

unfoldable pub strtou64 : List ℕ → ℕ → Number
strtou64 str base = if ltb 36 base || (base == 1) then einval str else start base (skip_spaces str)

pub data Size : Type 0 where
  invalid : Size
  too_large : Size
  size : ℕ → Size

-- The multiplier of a unit.
unfoldable pub unit_of : ℕ → Option ℕ
unit_of c =
    if c == 0x20
    then some 1
    else if (c == 0x6b) || (c == 0x4b)
    then some (2 ^ 10)
    else if c == 0x4d
    then some (2 ^ 20)
    else if c == 0x47
    then some (2 ^ 30)
    else if c == 0x54
    then some (2 ^ 40)
    else if c == 0x50
    then some (2 ^ 50)
    else if c == 0x45
    then some (2 ^ 60)
    else none

-- Bytes or bits behind the unit.
unfoldable pub bits_or_bytes : ℕ → List ℕ → Option ℕ
bits_or_bytes mult [] = some mult
bits_or_bytes mult (c ∷ s) =
    if c == 0x42
    then some mult
    else if c == 0x62
    then some (mult / 8)
    else if isspace c
    then some mult
    else none

unfoldable pub take_unit : List ℕ → Option ℕ
take_unit [] = some 1
take_unit (c ∷ s) = elim (unit_of c) [ none ↦ none | some mult ↦ bits_or_bytes mult s ]

unfoldable pub scale : ℕ → ℕ → Size
scale v mult =
    let res = mul64 v mult in if ltb 0 v && (ltb res v || ltb res mult) then too_large else size res

unfoldable pub strtosize : List ℕ → ℕ → Size
strtosize str base = elim (strtou64 str base) [
  | einval s ↦ invalid
  | erange s ↦ too_large
  | number v s ↦ elim (take_unit s) [ none ↦ invalid | some mult ↦ scale v mult ]
]
