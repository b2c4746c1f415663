-- ===== src/Hex/Digits.antt =====
-- What `chunk` and `uuid2str` write, `str2hex` reads; and which strings it refuses.
use portable_lib.Prelude.{
  ℕ, ◌+◌, ◌-◌, ◌*◌, ◌&&◌, subst, ◌/◌, ◌%◌, ◌^◌, ◌<◌, ◌≤◌, Bool, true, false, Option, none, some,
  List, [], ◌∷◌, ◌≡◌, refl, ◌∙◌, All, Bool-cases, Option-cases, inl, inr, arith, if◌then◌else◌, ltb,
  ◌==◌, bit_and, bit_or, get_or, length, each_below, at_each, u8_mod, ◌>>=◌,
}
use portable_lib.Chars.{every, isdigit, isxdigit}
use portable_lib.Hex.{nybble, decode_from, str2hex, decoded, einval, hex, chunk}

-- Two digits of a byte, read back.
abbrev pub reads_back : ℕ → Bool
reads_back z =
    let hi = nybble (get_or hex (bit_and 0xf (z / 2 ^ 4)) 0) in
    let lo = nybble (get_or hex (bit_and 0xf z) 0) in
    elim hi [
      | none ↦ false
      | some a ↦ elim lo [
        | none ↦ false
        | some b ↦ bit_or (bit_or 0 (a * 2 ^ 4) % u8_mod) (b * 2 ^ 0) % u8_mod == z
      ]
    ]

pub all_read_back : each_below 256 reads_back ≡ true
unfolding each_below nybble
all_read_back = refl

passes :
    (z : ℕ) (o : Option (List ℕ))
    → ((o >>= λ out. some (z ∷ out)) >>= λ out. some out) ≡ (o >>= λ out. some (z ∷ out))
passes z none = refl
passes z (some out) = refl

decode_from-digits :
    (z : ℕ) (s : List ℕ)
    → z < 256
    → decode_from 0 4 (get_or hex (bit_and 0xf (z / 2 ^ 4)) 0 ∷ get_or hex (bit_and 0xf z) 0 ∷ s)
      ≡ (decode_from 0 4 s >>= λ out. some (z ∷ out))
unfolding decode_from
decode_from-digits z s h =
    let t = at_each 256 reads_back z all_read_back h in
    elim (Option-cases (nybble (get_or hex (bit_and 0xf (z / 2 ^ 4)) 0))) [
      | inl e ↦ absurd (ground (arith, e, t))
      | inr (a, e) ↦ elim (Option-cases (nybble (get_or hex (bit_and 0xf z) 0))) [
        | inl e' ↦ absurd (ground (arith, e, e', t))
        | inr (b, e') ↦
            let whole : bit_or (bit_or 0 (a * 2 ^ 4) % u8_mod) (b * 2 ^ 0) % u8_mod ≡ z =
              ground (arith, e, e', t) in
            rw (e, e', whole) (passes z (decode_from 0 4 s))
      ]
    ]

decode_from-chunk : (b : List ℕ) → All (λ z. z < 256) b → decode_from 0 4 (chunk b) ≡ some b
unfolding chunk decode_from
decode_from-chunk [] a = refl
decode_from-chunk (z ∷ b) a = decode_from-digits z (chunk b) a.0 ∙ rw (decode_from-chunk b a.1) refl

pub length-chunk : (b : List ℕ) → length (chunk b) ≡ length b * 2
unfolding chunk
length-chunk [] = omega arith
length-chunk (z ∷ b) = omega (arith, length-chunk b)

-- str2hex reads bytes back from the digits that chunk writes, where there is room for them.
str2hex-chunk :
    (b : List ℕ) (outlen : ℕ)
    → All (λ z. z < 256) b
    → length b ≤ outlen
    → str2hex outlen (chunk b) ≡ decoded b
unfolding str2hex
str2hex-chunk b outlen a room =
    let fits : ltb outlen ((length (chunk b) + 1) / 2) ≡ false = ground (arith, length-chunk b) in
    rw (fits, decode_from-chunk b a) refl

-- The value of a hexadecimal digit: letters of either case stand 9 below it in their row of 32.
unfoldable pub digit_value : ℕ → ℕ
digit_value c = if isdigit c then c - 0x30 else c % 32 + 9

-- The bytes that two digits each spell, the higher one first; a last single digit is the higher one.
unfoldable pub spelled : List ℕ → List ℕ
unfolding digit_value
spelled [] = []
spelled (c ∷ []) = (16 * digit_value c) ∷ []
spelled (c ∷ e ∷ s) = (16 * digit_value c + digit_value e) ∷ spelled s

nybble-digit_value :
    (c : ℕ) → isxdigit c ≡ true → (nybble c ≡ some (digit_value c)) × (digit_value c < 16)
unfolding nybble digit_value
nybble-digit_value c d = (ground (arith, d), ground (arith, d))

nybble-some : (c : ℕ) → isxdigit c ≡ true → (v : ℕ) × (nybble c ≡ some v)
nybble-some c d = (digit_value c, (nybble-digit_value c d).0)

-- The digits of a byte joined as `str2hex` joins them.
abbrev joins : ℕ → Bool
joins z =
    (bit_or 0 (z / 16 * 2 ^ 4) % u8_mod == 16 * (z / 16))
    && (bit_or (bit_or 0 (z / 16 * 2 ^ 4) % u8_mod) (z % 16 * 2 ^ 0) % u8_mod == z)

all_joined : each_below 256 joins ≡ true
unfolding each_below
all_joined = refl

joined :
    (a b : ℕ)
    → a < 16
    → b < 16
    → (bit_or 0 (a * 2 ^ 4) % u8_mod ≡ 16 * a)
      × (bit_or (bit_or 0 (a * 2 ^ 4) % u8_mod) (b * 2 ^ 0) % u8_mod ≡ 16 * a + b)
joined a b ha hb =
    let t = at_each 256 joins (16 * a + b) all_joined (omega arith) in
    let hi : (16 * a + b) / 16 ≡ a = omega arith in
    let lo : (16 * a + b) % 16 ≡ b = omega arith in
    let t' =
      subst
        (λ x.
          ((bit_or 0 (x * 2 ^ 4) % u8_mod == 16 * x)
            && (bit_or (bit_or 0 (x * 2 ^ 4) % u8_mod) ((16 * a + b) % 16 * 2 ^ 0) % u8_mod
                == 16 * a + b))
          ≡ true)
        hi t in
    let t'' =
      subst
        (λ y.
          ((bit_or 0 (a * 2 ^ 4) % u8_mod == 16 * a)
            && (bit_or (bit_or 0 (a * 2 ^ 4) % u8_mod) (y * 2 ^ 0) % u8_mod == 16 * a + b))
          ≡ true)
        lo t' in
    (ground (arith, t''), ground (arith, t''))

nybble-none : (c : ℕ) → isxdigit c ≡ false → nybble c ≡ none
unfolding nybble
nybble-none c d = ground (arith, d)

decode_from-none :
    (byte shift : ℕ) (s : List ℕ) → every isxdigit s ≡ false → decode_from byte shift s ≡ none
unfolding decode_from every
decode_from-none byte shift [] d = absurd (ground (arith, d))
decode_from-none byte shift (c ∷ s) d = elim (Bool-cases (isxdigit c)) [
  | inl e ↦
      let (v, n) = nybble-some c e in
      let rest : every isxdigit s ≡ false = ground (arith, d, e) in
      rw
        (
          n,
          decode_from-none (if shift == 0 then 0 else bit_or byte (v * 2 ^ shift) % u8_mod)
              (if shift == 0 then 4 else 0) s rest,
        )
        refl
  | inr e ↦ rw (nybble-none c e) refl
]

decode_from-spelled : (s : List ℕ) → every isxdigit s ≡ true → decode_from 0 4 s ≡ some (spelled s)
unfolding decode_from every spelled
decode_from-spelled [] d = refl
decode_from-spelled (c ∷ []) d =
    let n = nybble-digit_value c (ground (arith, d)) in
    rw (n.0, (joined (digit_value c) 0 n.1 (omega arith)).0) refl
decode_from-spelled (c ∷ e ∷ s) d =
    let n = nybble-digit_value c (ground (arith, d)) in
    let m = nybble-digit_value e (ground (arith, d)) in
    let rest = decode_from-spelled s (ground (arith, d)) in
    rw (n.0, m.0, (joined (digit_value c) (digit_value e) n.1 m.1).1, rest) refl

-- Where there is room for them, str2hex gives the bytes that the digits spell, two digits each and the
-- higher one first, if all characters are hexadecimal digits of either case; a last single digit is the
-- higher one of its byte. It gives EINVAL if a character is no such digit.
pub str2hex-spelled :
    (str : List ℕ) (outlen : ℕ)
    → (length str + 1) / 2 ≤ outlen
    → str2hex outlen str ≡ (if every isxdigit str then decoded (spelled str) else einval)
unfolding str2hex
str2hex-spelled str outlen room =
    let fits : ltb outlen ((length str + 1) / 2) ≡ false = ground arith in
    elim (Bool-cases (every isxdigit str)) [
      | inl e ↦ rw (e, fits, decode_from-spelled str e) refl
      | inr e ↦ rw (e, fits, decode_from-none 0 4 str e) refl
    ]
