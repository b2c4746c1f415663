-- ===== src/Hex.antt =====
-- src/str2hex.c, src/uuid2str.c and src/uuid.c: bytes and their hexadecimal digits.
pub mod Digits
pub mod Uuid
mod Tests
use portable_lib.Prelude.{
  ℕ, ◌+◌, ◌-◌, ◌*◌, ◌/◌, ◌%◌, ◌^◌, Bool, ◌&&◌, Option, none, some, List, [], ◌∷◌, ◌++◌,
  if◌then◌else◌, ◌==◌, ltb, leb, bit_and, bit_or, get_or, set, not, length, take, drop, u8_mod,
  ◌>>=◌,
}

-- -ENOMEM, -EINVAL, or the bytes that are written.
pub data Decoded : Type 0 where
  enomem : Decoded
  einval : Decoded
  decoded : List ℕ → Decoded

-- The cases of the switch.
unfoldable pub nybble : ℕ → Option ℕ
nybble c =
    if leb 0x30 c && leb c 0x39
    then some (c - 0x30)
    else if leb 0x61 c && leb c 0x66
    then some (c - 0x61 + 10)
    else if leb 0x41 c && leb c 0x46
    then some (c - 0x41 + 10)
    else none

-- The loop, from the values of `byte` and `shift` on, and the odd digit behind it.
unfoldable pub decode_from : ℕ → ℕ → List ℕ → Option (List ℕ)
decode_from byte shift [] = some (if shift == 4 then [] else byte ∷ [])
decode_from byte shift (c ∷ str) = nybble c >>= λ v.
    let byte' = bit_or byte (v * 2 ^ shift) % u8_mod in
    let full = shift == 0 in
    decode_from (if full then 0 else byte') (if full then 4 else 0) str >>= λ out.
    some (if full then byte' ∷ out else out)

unfoldable pub str2hex : ℕ → List ℕ → Decoded
str2hex outlen str =
    let out = decode_from 0 4 str in
    if ltb outlen ((length str + 1) / 2)
    then enomem
    else elim out [ none ↦ einval | some bytes ↦ decoded bytes ]

-- `hex` of `chunk`
abbrev pub hex : List ℕ
hex =
    0x30 ∷ 0x31 ∷ 0x32 ∷ 0x33 ∷ 0x34 ∷ 0x35 ∷ 0x36 ∷ 0x37 ∷ 0x38 ∷ 0x39 ∷ 0x41 ∷ 0x42 ∷ 0x43 ∷ 0x44
    ∷ 0x45 ∷ 0x46 ∷ []

unfoldable pub chunk : List ℕ → List ℕ
chunk [] = []
chunk (z ∷ b) = get_or hex (bit_and 0xf (z / 2 ^ 4)) 0 ∷ get_or hex (bit_and 0xf z) 0 ∷ chunk b

-- Nothing for -ENOSPC; else the text, which a NUL ends and whose length is returned with it.
unfoldable pub uuid2str : ℕ → List ℕ → Option (List ℕ)
uuid2str outsz uuid =
    if ltb outsz 37
    then none
    else some (
        chunk (take 4 uuid)
        ++ (0x2d ∷ chunk (take 2 (drop 4 uuid))
            ++ (0x2d ∷ chunk (take 2 (drop 6 uuid))
                ++ (0x2d ∷ chunk (take 2 (drop 8 uuid))
                    ++ (0x2d ∷ chunk (take 6 (drop 10 uuid)))))))

-- The results of `uuid_fromstring`: -ENOSPC, -EINVAL, or the bytes.
pub data UuidResult : Type 0 where
  uuid_enospc : UuidResult
  uuid_einval : UuidResult
  uuid_bytes : List ℕ → UuidResult

-- The loop of `uuid_fromstring`, from the values of `byte` and `shift` on: the bytes that it stores,
-- which may be more than 16.
unfoldable pub parse_from : ℕ → ℕ → List ℕ → Option (List ℕ)
parse_from byte shift [] = some []
parse_from byte shift (c ∷ str) =
    let skip = c == 0x2d in
    (if skip then some 0 else nybble c) >>= λ v.
    let byte' = bit_or byte (v * 2 ^ shift) % u8_mod in
    let full = not skip && (shift == 0) in
    parse_from (if skip then byte else if full then 0 else byte')
      (if skip then shift else if full then 4 else 0) str
    >>= λ out. some (if full then byte' ∷ out else out)

unfoldable pub uuid_fromstring : ℕ → List ℕ → UuidResult
uuid_fromstring bsiz str =
    let out = parse_from 0 4 str in
    let stored : UuidResult = elim out [
      | none ↦ uuid_einval
      | some bytes ↦ if length bytes == 16 then uuid_bytes bytes else uuid_einval
    ] in
    if ltb bsiz 16 then uuid_enospc else if length str == 36 then stored else uuid_einval

-- `uuid_generate`, from the bytes that `getentropy` gives: -EINVAL, -ENOSPC, or a UUID of version 4.
unfoldable pub uuid_generate : ℕ → List ℕ → UuidResult
uuid_generate bsiz random =
    let six = bit_and 0x4f (bit_or (get_or random 6 0) 0x40) in
    let eight = bit_and 0xbf (bit_or (get_or random 8 0) 0x80) in
    if bsiz == 0
    then uuid_einval
    else if ltb bsiz 16
    then uuid_enospc
    else uuid_bytes (set (set random 6 six) 8 eight)
