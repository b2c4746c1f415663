-- ===== src/ParseIp/Printed.antt =====
-- What `str_ipv4` writes, `parse_ipv4` reads.
use portable_lib.Prelude.{
  ℕ, ◌+◌, ◌/◌, ◌^◌, ◌<◌, ◌≤◌, Bool, true, false, none, some, List, [], ◌∷◌, ◌++◌, ◌≡◌, refl, ap,
  ◌∙◌, sym, arith, ◌&&◌, not, ◌==◌, leb, ltb, bit_and, each_below, at_each, bit_and-mask,
  mask-bit_and, set, length, length-append, Option-cases, inl, inr, append_assoc, append-nil,
}
use portable_lib.Chars.{every, print_octet}
use portable_lib.Encdec.{dec_be_u32, enc_be_u32, byte}
use portable_lib.Encdec.Roundtrip.{dec_be_u32-enc_be_u32}
use portable_lib.ParseIp.{
  octets, no_octets, dtoi, dtoi_from, end_octet, take_char, take_chars, parse_ipv4, str_ipv4,
}

abbrev pub is_plain : ℕ → Bool
is_plain c = not (c == 0x2e) && not (c == 0x2f)

abbrev octet_reads : ℕ → Bool
octet_reads v =
    (elim (dtoi (print_octet v)) [ none ↦ false | some z ↦ z == v ])
    && (ltb 0 (length (print_octet v)) && leb (length (print_octet v)) 3)
    && every is_plain (print_octet v)

octets-read : each_below 256 octet_reads ≡ true
unfolding each_below dtoi dtoi_from print_octet every
octets-read = refl

pub record ReadsBack (v : ℕ) : Type 0 where
  pub reads : dtoi (print_octet v) ≡ some v
  pub some_chars : 0 < length (print_octet v)
  pub few_chars : length (print_octet v) ≤ 3
  pub plain : every is_plain (print_octet v) ≡ true

pub print_octet-ReadsBack : (v : ℕ) → v < 256 → ReadsBack v
print_octet-ReadsBack v h =
    let r = at_each 256 octet_reads v octets-read h in
    elim (Option-cases (dtoi (print_octet v))) [
      | inl e ↦ absurd (ground (arith, e, r))
      | inr (z, e) ↦ record {
        reads = ground (arith, e, r);
        some_chars = ground (arith, e, r);
        few_chars = ground (arith, e, r);
        plain = ground (arith, e, r);
      }
    ]

-- Characters other than a dot are collected, four at most.
take_chars-plain :
    (p : List ℕ) (n : ℕ) (x cs s : List ℕ)
    → n ≤ 3
    → length x + length cs ≤ 4
    → every is_plain cs ≡ true
    → take_chars (octets p n x) (cs ++ s) ≡ take_chars (octets p n (x ++ cs)) s
unfolding take_chars take_char every
take_chars-plain p n x [] s hn hx hp = rw (append-nil x) refl
take_chars-plain p n x (c ∷ cs) s hn hx hp =
    let room : ltb 3 n ≡ false = ground arith in
    let fits : ltb 3 (length x) ≡ false = ground arith in
    let other : (c == 0x2e) ≡ false = ground (arith, hp) in
    let rest : every is_plain cs ≡ true = ground (arith, hp) in
    let len = length-append x (c ∷ []) in
    rw (room, fits, other)
      (take_chars-plain p n (x ++ (c ∷ [])) cs s hn (omega (arith, len)) rest
        ∙ ap (λ y. take_chars (octets p n y) s) (append_assoc x (c ∷ []) cs))

end_octet-print :
    (p : List ℕ) (n v : ℕ)
    → v < 256
    → end_octet (octets p n (print_octet v)) ≡ some (octets (set p n v) (n + 1) [])
unfolding end_octet
end_octet-print p n v h =
    let o = print_octet-ReadsBack v h in
    let small : ltb 255 v ≡ false = ground arith in
    let low : bit_and v 0xff ≡ v = omega (arith, bit_and-mask 8 v) in rw (o.reads, small, low) refl

take_chars-dot :
    (p : List ℕ) (n v : ℕ) (s : List ℕ)
    → n ≤ 3
    → v < 256
    → take_chars (octets p n (print_octet v)) (0x2e ∷ s)
      ≡ take_chars (octets (set p n v) (n + 1) []) s
unfolding take_chars take_char
take_chars-dot p n v s hn h =
    let o = print_octet-ReadsBack v h in
    let room : ltb 3 n ≡ false = ground arith in
    let fits : ltb 3 (length (print_octet v)) ≡ false = ground (arith, o.few_chars) in
    rw (room, fits, end_octet-print p n v h) refl

-- An octet and its dot.
take_chars-octet :
    (p : List ℕ) (n v : ℕ) (s : List ℕ)
    → n ≤ 3
    → v < 256
    → take_chars (octets p n []) (print_octet v ++ (0x2e ∷ s))
      ≡ take_chars (octets (set p n v) (n + 1) []) s
take_chars-octet p n v s hn h =
    let o = print_octet-ReadsBack v h in
    take_chars-plain p n [] (print_octet v) (0x2e ∷ s) hn (omega (arith, o.few_chars)) o.plain
    ∙ take_chars-dot p n v s hn h

-- The last octet has no dot behind it.
take_chars-last :
    (p : List ℕ) (v : ℕ)
    → v < 256
    → take_chars (octets p 3 []) (print_octet v) ≡ some (octets p 3 (print_octet v))
unfolding take_chars
take_chars-last p v h =
    let o = print_octet-ReadsBack v h in
    ap (take_chars (octets p 3 [])) (sym (append-nil (print_octet v)))
    ∙ take_chars-plain p 3 [] (print_octet v) [] (omega arith) (omega (arith, o.few_chars)) o.plain

abbrev dotted : ℕ → ℕ → ℕ → ℕ → List ℕ
dotted a b c d =
    print_octet a ++ (0x2e ∷ print_octet b ++ (0x2e ∷ print_octet c ++ (0x2e ∷ print_octet d)))

take_chars-dotted :
    (a b c d : ℕ)
    → a < 256
    → b < 256
    → c < 256
    → d < 256
    → take_chars no_octets (dotted a b c d) ≡ some (octets (a ∷ b ∷ c ∷ 0 ∷ []) 3 (print_octet d))
take_chars-dotted a b c d ha hb hc hd =
    take_chars-octet (0 ∷ 0 ∷ 0 ∷ 0 ∷ []) 0 a _ (omega arith) ha
    ∙ take_chars-octet (a ∷ 0 ∷ 0 ∷ 0 ∷ []) 1 b _ (omega arith) hb
    ∙ take_chars-octet (a ∷ b ∷ 0 ∷ 0 ∷ []) 2 c _ (omega arith) hc
    ∙ take_chars-last (a ∷ b ∷ c ∷ 0 ∷ []) d hd

parse_ipv4-dotted :
    (a b c d : ℕ)
    → a < 256
    → b < 256
    → c < 256
    → d < 256
    → parse_ipv4 (dotted a b c d) ≡ some (dec_be_u32 (a ∷ b ∷ c ∷ d ∷ []))
unfolding parse_ipv4
parse_ipv4-dotted a b c d ha hb hc hd =
    let o = print_octet-ReadsBack d hd in
    let chars : ltb 0 (length (print_octet d)) ≡ true = ground (arith, o.some_chars) in
    rw (take_chars-dotted a b c d ha hb hc hd, chars, end_octet-print (a ∷ b ∷ c ∷ 0 ∷ []) 3 d hd)
      refl

pub octet-lt : (x : ℕ) → bit_and x 0xff < 256
octet-lt x = omega (arith, bit_and-mask 8 x)

octet-byte : (a k : ℕ) → bit_and (a / 2 ^ k) 0xff ≡ byte a k
unfolding byte
octet-byte a k = bit_and-mask 8 (a / 2 ^ k) ∙ sym (mask-bit_and 8 (a / 2 ^ k))

-- Every 32-bit address is read back from what str_ipv4 prints for it.
pub parse_ipv4-str_ipv4 : (a : ℕ) → a < 2 ^ 32 → parse_ipv4 (str_ipv4 a) ≡ some a
unfolding str_ipv4 enc_be_u32
parse_ipv4-str_ipv4 a h =
    parse_ipv4-dotted _ _ _ _ (octet-lt (a / 2 ^ 24)) (octet-lt (a / 2 ^ 16)) (octet-lt (a / 2 ^ 8))
      (octet-lt (a / 2 ^ 0))
    ∙ rw (octet-byte a 24, octet-byte a 16, octet-byte a 8, octet-byte a 0)
        (ap some (dec_be_u32-enc_be_u32 a h))
