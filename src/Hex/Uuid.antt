-- ===== src/Hex/Uuid.antt =====
-- The text that `uuid2str` and `uuid_tostring` write, read by `uuid_fromstring`.
use portable_lib.Prelude.{
  ℕ, zero, suc, ◌+◌, ◌-◌, ◌/◌, ◌^◌, ◌<◌, ◌≤◌, Bool, true, false, Option, none, some, List, [], ◌∷◌,
  ◌++◌, ◌≡◌, refl, sym, ap, ◌∙◌, All, arith, ltb, ◌==◌, bit_and, get_or, length, take, drop, ◌>>=◌,
  length-append, each_below, at_each, mask-bit_and, not, Option-cases, inl, inr, append-nil, bit_or,
  u8_mod, ◌*◌, ◌%◌,
}
use portable_lib.Hex.{nybble, hex, chunk, uuid2str, parse_from, uuid_fromstring, uuid_bytes}
use portable_lib.Hex.Digits.{all_read_back, reads_back, length-chunk}

take-drop : (n : ℕ) (b : List ℕ) → take n b ++ drop n b ≡ b
take-drop zero b = refl
take-drop (suc n) [] = refl
take-drop (suc n) (z ∷ b) = ap (λ r. z ∷ r) (take-drop n b)

drop-nil : (n : ℕ) → drop {A = ℕ} n [] ≡ []
drop-nil zero = refl
drop-nil (suc n) = refl

drop-drop : (n m : ℕ) (b : List ℕ) → drop m (drop n b) ≡ drop (n + m) b
drop-drop zero m b = ap (λ k. drop k b) (omega arith)
drop-drop (suc n) m [] = drop-nil m ∙ sym (drop-nil (suc n + m))
drop-drop (suc n) m (z ∷ b) =
    let e : suc (n + m) ≡ suc n + m = omega arith in drop-drop n m b ∙ ap (λ k. drop k (z ∷ b)) e

length-drop : (n : ℕ) (b : List ℕ) → length (drop n b) ≡ length b - n
length-drop zero b = omega arith
length-drop (suc n) [] = omega arith
length-drop (suc n) (z ∷ b) = omega (arith, length-drop n b)

take_whole : (n : ℕ) (b : List ℕ) → length b ≤ n → take n b ≡ b
take_whole zero [] h = refl
take_whole zero (z ∷ b) h = absurd (omega arith)
take_whole (suc n) [] h = refl
take_whole (suc n) (z ∷ b) h = ap (λ r. z ∷ r) (take_whole n b (omega arith))

length-take : (n : ℕ) (b : List ℕ) → n ≤ length b → length (take n b) ≡ n
length-take zero b h = refl
length-take (suc n) [] h = absurd (omega arith)
length-take (suc n) (z ∷ b) h = omega (arith, length-take n b (omega arith))

part_join : (k n : ℕ) (b : List ℕ) → take n (drop k b) ++ drop (k + n) b ≡ drop k b
part_join k n b = ap (λ r. take n (drop k b) ++ r) (sym (drop-drop k n b)) ∙ take-drop n (drop k b)

take-All : (Q : ℕ → Type 0) (n : ℕ) (b : List ℕ) → All Q b → All Q (take n b)
take-All Q zero b a = tt
take-All Q (suc n) [] a = tt
take-All Q (suc n) (z ∷ b) a = (a.0, take-All Q n b a.1)

drop-All : (Q : ℕ → Type 0) (n : ℕ) (b : List ℕ) → All Q b → All Q (drop n b)
drop-All Q zero b a = a
drop-All Q (suc n) [] a = tt
drop-All Q (suc n) (z ∷ b) a = drop-All Q n b a.1

passes :
    (z : ℕ) (o : Option (List ℕ))
    → ((o >>= λ out. some (z ∷ out)) >>= λ out. some out) ≡ (o >>= λ out. some (z ∷ out))
passes z none = refl
passes z (some out) = refl

abbrev is_digit : ℕ → Bool
is_digit v = not (get_or hex v 0 == 0x2d)

all_digits : each_below 16 is_digit ≡ true
unfolding each_below
all_digits = refl

digit-ne : (z : ℕ) → (get_or hex (bit_and 0xf z) 0 == 0x2d) ≡ false
digit-ne z =
    let low : bit_and 0xf z < 16 = omega (arith, mask-bit_and 4 z) in
    ground (arith, at_each 16 is_digit (bit_and 0xf z) all_digits low)

parse_from-digits :
    (z : ℕ) (s : List ℕ)
    → z < 256
    → parse_from 0 4 (get_or hex (bit_and 0xf (z / 2 ^ 4)) 0 ∷ get_or hex (bit_and 0xf z) 0 ∷ s)
      ≡ (parse_from 0 4 s >>= λ out. some (z ∷ out))
unfolding parse_from
parse_from-digits z s h =
    let t = at_each 256 reads_back z all_read_back h in
    elim (Option-cases (nybble (get_or hex (bit_and 0xf (z / 2 ^ 4)) 0))) [
      | inl e ↦ absurd (ground (arith, e, t))
      | inr (a, e) ↦ elim (Option-cases (nybble (get_or hex (bit_and 0xf z) 0))) [
        | inl e' ↦ absurd (ground (arith, e, e', t))
        | inr (b, e') ↦
            let whole : bit_or (bit_or 0 (a * 2 ^ 4) % u8_mod) (b * 2 ^ 0) % u8_mod ≡ z =
              ground (arith, e, e', t) in
            rw (digit-ne (z / 2 ^ 4), digit-ne z, e, e', whole) (passes z (parse_from 0 4 s))
      ]
    ]

append_step :
    (z : ℕ) (b : List ℕ) (o : Option (List ℕ))
    → ((o >>= λ out. some (b ++ out)) >>= λ out. some (z ∷ out))
      ≡ (o >>= λ out. some ((z ∷ b) ++ out))
append_step z b none = refl
append_step z b (some out) = refl

self : (o : Option (List ℕ)) → o ≡ (o >>= λ out. some ([] ++ out))
self none = refl
self (some out) = refl

parse_from-chunk :
    (b s : List ℕ)
    → All (λ z. z < 256) b
    → parse_from 0 4 (chunk b ++ s) ≡ (parse_from 0 4 s >>= λ out. some (b ++ out))
unfolding chunk
parse_from-chunk [] s a = self (parse_from 0 4 s)
parse_from-chunk (z ∷ b) s a =
    parse_from-digits z (chunk b ++ s) a.0
    ∙ rw (parse_from-chunk b s a.1) (append_step z b (parse_from 0 4 s))

same : (o : Option (List ℕ)) → (o >>= λ out. some out) ≡ o
same none = refl
same (some out) = refl

parse_from-hyphen : (s : List ℕ) → parse_from 0 4 (0x2d ∷ s) ≡ parse_from 0 4 s
unfolding parse_from
parse_from-hyphen s = same (parse_from 0 4 s)

module _ (uuid : List ℕ) (n : length uuid ≡ 16) (a : All (λ z. z < 256) uuid) where
  abbrev part : ℕ → ℕ → List ℕ
  part k m = take m (drop k uuid)

  part-All : (k m : ℕ) → All (λ z. z < 256) (part k m)
  part-All k m = take-All (λ z. z < 256) m (drop k uuid) (drop-All (λ z. z < 256) k uuid a)

  length-part : (k m : ℕ) → k + m ≤ 16 → length (chunk (part k m)) ≡ m * 2
  length-part k m h = omega (
    arith,
    length-chunk (part k m),
    length-take m (drop k uuid) (omega (arith, length-drop k uuid)),
    length-drop k uuid,
  )

  length-step :
      (k m : ℕ) (s : List ℕ)
      → k + m ≤ 16
      → length (chunk (part k m) ++ (0x2d ∷ s)) ≡ m * 2 + 1 + length s
  length-step k m s h =
      omega (arith, length-append (chunk (part k m)) (0x2d ∷ s), length-part k m h)

  parse_from-step :
      (k m : ℕ) (s : List ℕ)
      → parse_from 0 4 (chunk (part k m) ++ (0x2d ∷ s))
        ≡ (parse_from 0 4 s >>= λ out. some (part k m ++ out))
  parse_from-step k m s =
      parse_from-chunk (part k m) (0x2d ∷ s) (part-All k m) ∙ rw (parse_from-hyphen s) refl

  parse_from-last : parse_from 0 4 (chunk (part 10 6)) ≡ some (drop 10 uuid)
  unfolding parse_from
  parse_from-last =
      ap (parse_from 0 4) (sym (append-nil (chunk (part 10 6))))
      ∙ parse_from-chunk (part 10 6) [] (part-All 10 6)
      ∙ ap some (
          append-nil (part 10 6) ∙ take_whole 6 (drop 10 uuid) (omega (arith, length-drop 10 uuid)))

  abbrev text : List ℕ
  text =
      chunk (part 0 4)
      ++ (0x2d ∷ chunk (part 4 2)
          ++ (0x2d ∷ chunk (part 6 2) ++ (0x2d ∷ chunk (part 8 2) ++ (0x2d ∷ chunk (part 10 6)))))

  length-text : length text ≡ 36
  length-text =
      rw
        (
          length-step 0 4 _ (omega arith),
          length-step 4 2 _ (omega arith),
          length-step 6 2 _ (omega arith),
          length-step 8 2 _ (omega arith),
          length-part 10 6 (omega arith),
        )
        refl

  parse_from-text : parse_from 0 4 text ≡ some uuid
  parse_from-text =
      rw
        (
          parse_from-step 0 4 _,
          parse_from-step 4 2 _,
          parse_from-step 6 2 _,
          parse_from-step 8 2 _,
          parse_from-last,
        )
        (rw (part_join 8 2 uuid, part_join 6 2 uuid, part_join 4 2 uuid, part_join 0 4 uuid) refl)

  -- For 16 bytes and buffers of at least 37 characters and 16 bytes, uuid_fromstring reads the
  -- bytes back from the text that uuid2str writes.
  pub uuid_fromstring-uuid2str :
      (outsz bsiz : ℕ)
      → 37 ≤ outsz
      → 16 ≤ bsiz
      → (uuid2str outsz uuid >>= λ s. some (uuid_fromstring bsiz s)) ≡ some (uuid_bytes uuid)
  unfolding uuid2str uuid_fromstring
  uuid_fromstring-uuid2str outsz bsiz ho hb =
      let fits : ltb outsz 37 ≡ false = ground arith in
      let room : ltb bsiz 16 ≡ false = ground arith in
      rw (fits, length-text, room, parse_from-text) (rw n refl)
