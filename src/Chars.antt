-- ===== src/Chars.antt =====
-- Characters as their codes, and strings as lists of codes without the NUL that ends them: the tests
-- of <ctype.h> in the C locale, `strchr`, and the decimal digits that "%d" writes for an octet.
use portable_lib.Prelude.{
  ℕ, ◌+◌, ◌/◌, ◌%◌, Bool, true, ◌||◌, ◌&&◌, List, [], ◌∷◌, Option, none, some, if◌then◌else◌, ◌==◌,
  ltb, leb, ◌>>=◌,
}

-- A property of every character, as a test.
unfoldable pub every : (ℕ → Bool) → List ℕ → Bool
every p [] = true
every p (c ∷ s) = p c && every p s

abbrev pub isdigit : ℕ → Bool
isdigit c = leb 0x30 c && leb c 0x39

abbrev pub isupper : ℕ → Bool
isupper c = leb 0x41 c && leb c 0x5a

abbrev pub islower : ℕ → Bool
islower c = leb 0x61 c && leb c 0x7a

abbrev pub isalpha : ℕ → Bool
isalpha c = isupper c || islower c

abbrev pub isxdigit : ℕ → Bool
isxdigit c = isdigit c || ((leb 0x41 c && leb c 0x46) || (leb 0x61 c && leb c 0x66))

abbrev pub isspace : ℕ → Bool
isspace c = (c == 0x20) || (leb 9 c && leb c 13)

-- The part of the string before the first `c`, and the part behind it.
unfoldable pub strchr : List ℕ → ℕ → Option (List ℕ × List ℕ)
strchr [] c = none
strchr (x ∷ s) c =
    let behind = strchr s c in if x == c then some ([], s) else behind >>= λ r. some (x ∷ r.0, r.1)

abbrev pub digit : ℕ → ℕ
digit d = 0x30 + d

-- "%d" for a number below 1000
unfoldable pub print_octet : ℕ → List ℕ
print_octet v =
    if ltb v 10
    then digit v ∷ []
    else if ltb v 100
    then digit (v / 10) ∷ digit (v % 10) ∷ []
    else digit (v / 100) ∷ digit (v / 10 % 10) ∷ digit (v % 10) ∷ []
