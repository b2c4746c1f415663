-- ===== src/ParseIp/Masked.antt =====
-- The two ways to write a mask behind an address, and none.
use portable_lib.Prelude.{
  ℕ, zero, suc, ◌+◌, ◌-◌, ◌*◌, ◌/◌, ◌%◌, ◌^◌, ◌<◌, ◌≤◌, Bool, true, false, none, some, List, [],
  ◌∷◌, ◌++◌, ◌≡◌, refl, ap, ◌∙◌, sym, arith, not, ◌==◌, ltb, bit_and, each_below, at_each, take,
  length, length-append, Option-cases, inl, inr, ◌>>=◌, u32_mod, append-nil,
}
use portable_lib.Chars.{print_octet, strchr, every}
use portable_lib.ParseIp.{
  str_ipv4, parsed, safe_strcpy, split_mask, shift_mask, parse_mask, parse_ipv4_and_mask,
}
use portable_lib.ParseIp.Printed.{is_plain, print_octet-ReadsBack, parse_ipv4-str_ipv4, octet-lt}
use portable_lib.ParseIp.Cidr.{netmask}

-- `strchr` skips what is not its character.
strchr-every :
    (p : ℕ → Bool) (c : ℕ) (cs s : List ℕ)
    → ((x : ℕ) → p x ≡ true → (x == c) ≡ false)
    → every p cs ≡ true
    → strchr (cs ++ s) c ≡ (strchr s c >>= λ r. some (cs ++ r.0, r.1))
unfolding strchr every
strchr-every p c [] s h hp = elim (Option-cases (strchr s c)) [
  | inl e ↦ rw e refl
  | inr (r, e) ↦ rw e refl
]
strchr-every p c (x ∷ cs) s h hp =
    let other : (x == c) ≡ false = h x (ground (arith, hp)) in
    let rest : every p cs ≡ true = ground (arith, hp) in
    rw (other, strchr-every p c cs s h rest)
      (elim (Option-cases (strchr s c)) [ inl e ↦ rw e refl | inr (r, e) ↦ rw e refl ])

every-append :
    (p : ℕ → Bool) (cs s : List ℕ) → every p cs ≡ true → every p s ≡ true → every p (cs ++ s) ≡ true
unfolding every
every-append p [] s hc hs = hs
every-append p (c ∷ cs) s hc hs =
    let first : p c ≡ true = ground (arith, hc) in
    rw (first, every-append p cs s (ground (arith, hc)) hs) refl

abbrev no_slash : ℕ → Bool
no_slash c = not (c == 0x2f)

every-weaken : (cs : List ℕ) → every is_plain cs ≡ true → every no_slash cs ≡ true
unfolding every
every-weaken [] h = refl
every-weaken (c ∷ cs) h =
    let first : no_slash c ≡ true = ground (arith, h) in
    rw (first, every-weaken cs (ground (arith, h))) refl

print-no_slash : (v : ℕ) → v < 256 → every no_slash (print_octet v) ≡ true
print-no_slash v h = every-weaken (print_octet v) (print_octet-ReadsBack v h).plain

-- An octet, its dot and what follows.
dot-no_slash :
    (x : ℕ) (s : List ℕ)
    → every no_slash s ≡ true
    → every no_slash (print_octet (bit_and x 0xff) ++ (0x2e ∷ s)) ≡ true
unfolding every
dot-no_slash x s h =
    every-append no_slash (print_octet (bit_and x 0xff)) (0x2e ∷ s)
      (print-no_slash (bit_and x 0xff) (octet-lt x)) h

dot-length :
    (x n : ℕ) (s : List ℕ)
    → length s ≤ n
    → length (print_octet (bit_and x 0xff) ++ (0x2e ∷ s)) ≤ n + 4
dot-length x n s h = omega (
  arith,
  (print_octet-ReadsBack (bit_and x 0xff) (octet-lt x)).few_chars,
  length-append (print_octet (bit_and x 0xff)) (0x2e ∷ s),
)

record Printed (a : ℕ) : Type 0 where
  slashless : every no_slash (str_ipv4 a) ≡ true
  short : length (str_ipv4 a) ≤ 15

str_ipv4-Printed : (a : ℕ) → Printed a
unfolding str_ipv4
str_ipv4-Printed a =
    let last = print_octet-ReadsBack (bit_and (a / 2 ^ 0) 0xff) (octet-lt (a / 2 ^ 0)) in
    record {
      slashless = dot-no_slash (a / 2 ^ 24) _ (
          dot-no_slash (a / 2 ^ 16) _ (
            dot-no_slash (a / 2 ^ 8) _
              (print-no_slash (bit_and (a / 2 ^ 0) 0xff) (octet-lt (a / 2 ^ 0)))));
      short =
          dot-length (a / 2 ^ 24) 11 _
            (dot-length (a / 2 ^ 16) 7 _ (dot-length (a / 2 ^ 8) 3 _ last.few_chars));
    }

take-all {ℓ} : {A : Type ℓ} (n : ℕ) (xs : List A) → length xs ≤ n → take n xs ≡ xs
take-all zero [] h = refl
take-all zero (x ∷ xs) h = absurd (omega arith)
take-all (suc n) [] h = refl
take-all (suc n) (x ∷ xs) h = ap (λ ys. x ∷ ys) (take-all n xs (omega arith))

-- A short mask behind the slash arrives whole.
split_mask-slash :
    (a : ℕ) (ms : List ℕ)
    → length ms ≤ 31
    → split_mask (str_ipv4 a ++ (0x2f ∷ ms)) ≡ some (str_ipv4 a, ms)
unfolding split_mask safe_strcpy strchr
split_mask-slash a ms h =
    let p = str_ipv4-Printed a in
    let found =
      strchr-every no_slash 0x2f (str_ipv4 a) (0x2f ∷ ms) (λ x q. ground (arith, q)) p.slashless in
    let fits : ltb 15 (length (str_ipv4 a)) ≡ false = ground (arith, p.short) in
    rw (found, split_mask, append-nil (str_ipv4 a), fits, take-all 31 ms h) refl

split_mask-bare : (a : ℕ) → split_mask (str_ipv4 a) ≡ some (str_ipv4 a, [])
unfolding split_mask safe_strcpy strchr
split_mask-bare a =
    let p = str_ipv4-Printed a in
    let found = strchr-every no_slash 0x2f (str_ipv4 a) [] (λ x q. ground (arith, q)) p.slashless in
    let missing : strchr (str_ipv4 a) 0x2f ≡ none =
      ap (λ s. strchr s 0x2f) (sym (append-nil (str_ipv4 a))) ∙ found in
    let fits : ltb (length (str_ipv4 a)) 32 ≡ true = ground (arith, p.short) in
    rw (missing, split_mask, fits, take-all 31 (str_ipv4 a) (omega (arith, p.short))) refl

abbrev length_reads : ℕ → Bool
length_reads z = 0xffffffff * 2 ^ (32 - suc z) % u32_mod == netmask (suc z)

lengths-read : each_below 32 length_reads ≡ true
unfolding each_below
lengths-read = refl

shift_mask-netmask : (a z : ℕ) → z < 32 → shift_mask a (suc z) ≡ parsed a (netmask (suc z))
unfolding shift_mask
shift_mask-netmask a z h =
    let mask = at_each 32 length_reads z lengths-read h in
    let e : 0xffffffff * 2 ^ (32 - suc z) % u32_mod ≡ netmask (suc z) = ground (arith, mask) in
    let nonzero : (suc z == 0) ≡ false = ground arith in rw nonzero (ap (parsed a) e)

-- A prefix length behind the slash.
parse_mask-length :
    (a z : ℕ) → z < 32 → parse_mask a (print_octet (suc z)) ≡ parsed a (netmask (suc z))
unfolding parse_mask strchr
parse_mask-length a z h =
    let o = print_octet-ReadsBack (suc z) (omega arith) in
    let found =
      strchr-every is_plain 0x2e (print_octet (suc z)) [] (λ x q. ground (arith, q)) o.plain in
    let missing : strchr (print_octet (suc z)) 0x2e ≡ none =
      ap (λ s. strchr s 0x2e) (sym (append-nil (print_octet (suc z)))) ∙ found in
    let chars : ltb 0 (length (print_octet (suc z))) ≡ true = ground (arith, o.some_chars) in
    let small : ltb 32 (suc z) ≡ false = ground arith in
    rw (missing, parse_mask, chars, o.reads, small) (shift_mask-netmask a z h)

parse_mask-bare : (a : ℕ) → parse_mask a [] ≡ parsed a 0xffffffff
unfolding parse_mask strchr shift_mask
parse_mask-bare a = refl

has_dot :
    (v : ℕ) (s : List ℕ)
    → v < 256
    → (r : List ℕ × List ℕ) × (strchr (print_octet v ++ (0x2e ∷ s)) 0x2e ≡ some r)
unfolding strchr
has_dot v s h =
    let o = print_octet-ReadsBack v h in
    (
      (print_octet v ++ [], s),
      strchr-every is_plain 0x2e (print_octet v) (0x2e ∷ s) (λ x q. ground (arith, q)) o.plain,
    )

str_ipv4-dot : (m : ℕ) → (r : List ℕ × List ℕ) × (strchr (str_ipv4 m) 0x2e ≡ some r)
unfolding str_ipv4
str_ipv4-dot m = has_dot (bit_and (m / 2 ^ 24) 0xff) _ (octet-lt (m / 2 ^ 24))

-- A mask that is printed as an address is.
parse_mask-printed : (a m : ℕ) → m < 2 ^ 32 → parse_mask a (str_ipv4 m) ≡ parsed a m
unfolding parse_mask
parse_mask-printed a m h = rw ((str_ipv4-dot m).1, parse_mask, parse_ipv4-str_ipv4 m h) refl

-- Behind a printed address, parse_ipv4_and_mask takes a prefix length from 1 to 32, a printed
-- mask, or nothing, which means the mask of 32 ones.
pub parse_ipv4_and_mask-str_ipv4 :
    (a m z : ℕ)
    → a < 2 ^ 32
    → m < 2 ^ 32
    → 0 < z
    → z ≤ 32
    → (parse_ipv4_and_mask (str_ipv4 a ++ (0x2f ∷ print_octet z)) ≡ parsed a (netmask z))
      × (parse_ipv4_and_mask (str_ipv4 a ++ (0x2f ∷ str_ipv4 m)) ≡ parsed a m)
      × (parse_ipv4_and_mask (str_ipv4 a) ≡ parsed a 0xffffffff)
unfolding parse_ipv4_and_mask
parse_ipv4_and_mask-str_ipv4 a m zero ha hm hp hz = absurd (omega arith)
parse_ipv4_and_mask-str_ipv4 a m (suc z) ha hm hp hz =
    let few = (print_octet-ReadsBack (suc z) (omega arith)).few_chars in
    let short = (str_ipv4-Printed m).short in
    let read = parse_ipv4-str_ipv4 a ha in
    (
      rw (split_mask-slash a (print_octet (suc z)) (omega (arith, few)), parse_ipv4_and_mask, read)
          (parse_mask-length a z (omega arith)),
      rw (split_mask-slash a (str_ipv4 m) (omega (arith, short)), parse_ipv4_and_mask, read)
          (parse_mask-printed a m hm),
      rw (split_mask-bare a, parse_ipv4_and_mask, read) (parse_mask-bare a),
    )
