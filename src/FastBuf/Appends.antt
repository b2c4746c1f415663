-- ===== src/FastBuf/Appends.antt =====
-- What a buffer holds after any appends.
use portable_lib.Prelude.{
  ℕ, ◌+◌, ◌^◌, ◌≤◌, ◌<◌, Option, some, List, [], ◌∷◌, ◌++◌, ◌≡◌, refl, ap, ◌∙◌, inl, inr, arith,
  if◌then◌else◌, ◌==◌, leb, Bool-cases, set, take, length, length-append, length-set,
  length-replicate, take_more, write_at, length-write_at, take-write_at, add64, take-length, ◌>>=◌,
}
use portable_lib.Vect.Room.{doubled_enough}
use portable_lib.FastBuf.{
  FastBuf, fast_buf_init, fast_buf_reserve, fast_buf_grow, fast_buf_append_buf,
  fast_buf_append_byte, fast_buf_reset,
}

abbrev contents : FastBuf → List ℕ
contents b = take b.size b.buf

-- A buffer that holds the bytes.
record Holds (b : FastBuf) (bytes : List ℕ) : Type 0 where
  in_cap : b.size ≤ b.cap
  array : length b.buf ≡ b.cap
  some_room : 0 < b.cap
  length_eq : b.size ≡ length bytes
  as_list : contents b ≡ bytes

-- What RENEW has to do: the memory has the length that is asked for, and keeps what it has in common
-- with the old one.
pub record IsRenew (renew : List ℕ → ℕ → List ℕ) : Type 0 where
  pub long : (buf : List ℕ) (n : ℕ) → length (renew buf n) ≡ n
  pub kept : (buf : List ℕ) (n k : ℕ) → k ≤ length buf → k ≤ n → take k (renew buf n) ≡ take k buf

module _ (renew : List ℕ → ℕ → List ℕ) (law : IsRenew renew) where
  fast_buf_grow-Holds :
      (b : FastBuf) (n : ℕ) (bytes : List ℕ)
      → Holds b bytes
      → length bytes + n < 2 ^ 62
      → (g : FastBuf) × (fast_buf_grow renew b n ≡ some g) × Holds g bytes × (g.size + n ≤ g.cap)
  unfolding fast_buf_grow fast_buf_reserve
  fast_buf_grow-Holds b n bytes h small =
      let want = add64 b.size n in
      let exact : want ≡ b.size + n = omega (arith, h.length_eq) in
      elim (Bool-cases (leb b.cap want)) [
        | inr f ↦ (b, rw f refl, h, ground (arith, f, exact))
        | inl t ↦
            let full : b.cap ≤ want = ground (arith, t) in
            let (r, e, low, high) =
              doubled_enough 65 b.cap want h.some_room full (omega (arith, exact, h.length_eq))
                (omega (arith, h.some_room)) in
            (
              record b { buf = renew b.buf r; cap = r },
              rw (t, e) refl,
              record {
                in_cap = omega (arith, h.in_cap, full, low);
                array = law.long b.buf r;
                some_room = omega (arith, h.some_room, full, low);
                length_eq = h.length_eq;
                as_list =
                    law.kept b.buf r b.size (omega (arith, h.in_cap, h.array))
                      (omega (arith, h.in_cap, full, low))
                    ∙ h.as_list;
              },
              omega (arith, low, exact),
            )
      ]

  append_buf-Holds :
      (b : FastBuf) (held bytes : List ℕ)
      → Holds b held
      → length held + length bytes < 2 ^ 62
      → (g : FastBuf) × (fast_buf_append_buf renew b bytes (length bytes) ≡ some g)
        × Holds g (held ++ bytes)
  unfolding fast_buf_append_buf
  append_buf-Holds b held bytes h small =
      let (g, made, hg, room) = fast_buf_grow-Holds b (length bytes) held h small in
      let sum : add64 g.size (length bytes) ≡ g.size + length bytes = omega (arith, hg.length_eq) in
      (
        record g { buf = write_at g.buf g.size bytes; size = add64 g.size (length bytes) },
        rw (made, take-length bytes) refl,
        record {
          in_cap = omega (arith, sum, room);
          array = length-write_at g.buf g.size bytes ∙ hg.array;
          some_room = hg.some_room;
          length_eq = omega (arith, sum, hg.length_eq, length-append held bytes);
          as_list =
              ap (λ n. take n (write_at g.buf g.size bytes)) sum
              ∙ take-write_at bytes g.buf g.size (omega (arith, room, hg.array))
              ∙ ap (λ l. l ++ bytes) hg.as_list;
        },
      )

  append_byte-Holds :
      (b : FastBuf) (held : List ℕ) (c : ℕ)
      → Holds b held
      → length held + 1 < 2 ^ 62
      → (g : FastBuf) × (fast_buf_append_byte renew b c ≡ some g) × Holds g (held ++ (c ∷ []))
  unfolding fast_buf_append_byte
  append_byte-Holds b held c h small =
      let (g, made, hg, room) = fast_buf_grow-Holds b 1 held h small in
      let sum : add64 g.size 1 ≡ g.size + 1 = omega (arith, hg.length_eq) in
      (
        record g { buf = set g.buf g.size c; size = add64 g.size 1 },
        rw made refl,
        record {
          in_cap = omega (arith, sum, room);
          array = length-set g.buf g.size c ∙ hg.array;
          some_room = hg.some_room;
          length_eq = omega (arith, sum, hg.length_eq, length-append held (c ∷ []));
          as_list =
              ap (λ n. take n (set g.buf g.size c)) sum
              ∙ take_more g.buf g.size c (omega (arith, room, hg.array))
              ∙ ap (λ l. l ++ (c ∷ [])) hg.as_list;
        },
      )

pub data Call : Type 0 where
  append_buf : List ℕ → Call
  append_byte : ℕ → Call
  reset : Call

unfoldable pub buf_calls : (List ℕ → ℕ → List ℕ) → FastBuf → List Call → Option (List ℕ)
buf_calls renew b [] = some (contents b)
buf_calls renew b (append_buf bytes ∷ cs) =
    fast_buf_append_buf renew b bytes (length bytes) >>= λ g. buf_calls renew g cs
buf_calls renew b (append_byte c ∷ cs) =
    fast_buf_append_byte renew b c >>= λ g. buf_calls renew g cs
buf_calls renew b (reset ∷ cs) = buf_calls renew (fast_buf_reset b) cs

unfoldable pub bytes_calls : List ℕ → List Call → List ℕ
bytes_calls held [] = held
bytes_calls held (append_buf bytes ∷ cs) = bytes_calls (held ++ bytes) cs
bytes_calls held (append_byte c ∷ cs) = bytes_calls (held ++ (c ∷ [])) cs
bytes_calls held (reset ∷ cs) = bytes_calls [] cs

abbrev pub given : List Call → ℕ
given [] = 0
given (append_buf bytes ∷ cs) = length bytes + given cs
given (append_byte c ∷ cs) = 1 + given cs
given (reset ∷ cs) = given cs

calls-same :
    (renew : List ℕ → ℕ → List ℕ) (law : IsRenew renew) (cs : List Call) (b : FastBuf)
    (held : List ℕ)
    → Holds b held
    → length held + given cs < 2 ^ 62
    → buf_calls renew b cs ≡ some (bytes_calls held cs)
unfolding buf_calls bytes_calls fast_buf_reset
calls-same renew law [] b held h small = ap some h.as_list
calls-same renew law (append_buf bytes ∷ cs) b held h small =
    let (g, made, hg) = append_buf-Holds renew law b held bytes h (omega arith) in
    rw made (calls-same renew law cs g (held ++ bytes) hg (omega (arith, length-append held bytes)))
calls-same renew law (append_byte c ∷ cs) b held h small =
    let (g, made, hg) = append_byte-Holds renew law b held c h (omega arith) in
    rw made
      (calls-same renew law cs g (held ++ (c ∷ [])) hg (omega (arith, length-append held (c ∷ []))))
calls-same renew law (reset ∷ cs) b held h small =
    calls-same renew law cs (fast_buf_reset b) []
      (record {
        in_cap = omega arith;
        array = h.array;
        some_room = h.some_room;
        length_eq = refl;
        as_list = refl;
      })
      (omega arith)

fast_buf_init-Holds : (junk sz : ℕ) → Holds (fast_buf_init junk sz) []
unfolding fast_buf_init
fast_buf_init-Holds junk sz = record {
  in_cap = omega arith;
  array = length-replicate (if sz == 0 then 128 else sz) junk;
  some_room = ground arith;
  length_eq = refl;
  as_list = refl;
}

-- Given a RENEW that returns memory of the size asked for and keeps the bytes that fit, a new buffer,
-- after any calls that append bytes, less than 2^62 in all, and that reset it, holds the bytes that
-- were appended since the last reset, in order; each call returns.
pub buf_calls_refines :
    (renew : List ℕ → ℕ → List ℕ) (junk sz : ℕ) (cs : List Call)
    → IsRenew renew
    → given cs < 2 ^ 62
    → buf_calls renew (fast_buf_init junk sz) cs ≡ some (bytes_calls [] cs)
buf_calls_refines renew junk sz cs law small =
    calls-same renew law cs (fast_buf_init junk sz) [] (fast_buf_init-Holds junk sz) (omega arith)
