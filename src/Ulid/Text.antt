-- ===== src/Ulid/Text.antt =====
-- The text of an identifier, read back.
use portable_lib.Prelude.{ℕ, ◌/◌, ◌%◌, ◌<◌, List, [], ◌∷◌, ◌++◌, All}
use portable_lib.Ulid.Groups.{fives}

module _ (b0 b1 b2 b3 b4 b5 b6 b7 b8 b9 b10 b11 b12 b13 b14 b15 : ℕ)
    (bytes : All
      (λ b. b < 256)
      (b0 ∷ b1 ∷ b2 ∷ b3 ∷ b4 ∷ b5 ∷ b6 ∷ b7 ∷ b8 ∷ b9 ∷ b10 ∷ b11 ∷ b12 ∷ b13 ∷ b14 ∷ b15
        ∷ [])) where
  abbrev numbers : List ℕ
  numbers =
      b0 / 32
      ∷ b0 % 32
      ∷ (fives b1 b2 b3 b3 b4 b5 ++ (fives b6 b7 b7 b8 b9 b10 ++ fives b11 b12 b12 b13 b14 b15))
