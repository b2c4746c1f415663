-- ===== src/FastBuf/Tests.antt =====
-- Buffers at concrete bytes.
use portable_lib.Prelude.{
  ℕ, zero, suc, ◌≤◌, ap, length, take, List, [], ◌∷◌, none, some, ◌≡◌, refl, arith, write_at,
}
use portable_lib.Vect.{doubled}
use portable_lib.FastBuf.{
  fast_buf_init, fast_buf_reserve, fast_buf_grow, fast_buf_append_buf, fast_buf_append_byte,
  fast_buf_reset, fast_buf_fini,
}
use portable_lib.FastBuf.Appends.{
  Call, append_buf, append_byte, reset, buf_calls, bytes_calls, IsRenew, buf_calls_refines,
}

program : Unit {0}
unfolding write_at doubled fast_buf_init fast_buf_reserve fast_buf_grow fast_buf_append_buf
    fast_buf_append_byte fast_buf_reset fast_buf_fini buf_calls bytes_calls
program = tt

-- `realloc`, over memory that holds 0xaa.
abbrev renewed : List ℕ → ℕ → List ℕ
renewed buf zero = []
renewed [] (suc n) = 0xaa ∷ renewed [] n
renewed (x ∷ buf) (suc n) = x ∷ renewed buf n

length-renewed : (buf : List ℕ) (n : ℕ) → length (renewed buf n) ≡ n
length-renewed buf zero = refl
length-renewed [] (suc n) = ap suc (length-renewed [] n)
length-renewed (x ∷ buf) (suc n) = ap suc (length-renewed buf n)

take-renewed :
    (buf : List ℕ) (n k : ℕ) → k ≤ length buf → k ≤ n → take k (renewed buf n) ≡ take k buf
take-renewed buf n zero h low = refl
take-renewed buf zero (suc k) h low = absurd (omega arith)
take-renewed [] (suc n) (suc k) h low = absurd (omega arith)
take-renewed (x ∷ buf) (suc n) (suc k) h low =
    ap (λ l. x ∷ l) (take-renewed buf n k (omega arith) (omega arith))

renewed-IsRenew : IsRenew renewed
renewed-IsRenew = record { long = length-renewed; kept = take-renewed }

abbrev script : List Call
script = append_byte 9 ∷ reset ∷ append_buf (1 ∷ 2 ∷ 3 ∷ []) ∷ append_byte 4 ∷ append_buf [] ∷ []

run : buf_calls renewed (fast_buf_init 0xaa 1) script ≡ some (1 ∷ 2 ∷ 3 ∷ 4 ∷ [])
unfolding program
run = refl

-- A buffer that was finalized has no capacity to double.
no_end : fast_buf_append_byte renewed (fast_buf_fini (fast_buf_init 0xaa 1)) 7 ≡ none
unfolding program
no_end = refl

buf_calls_refines_example :
    buf_calls renewed (fast_buf_init 0xaa 1) script ≡ some (bytes_calls [] script)
buf_calls_refines_example = buf_calls_refines renewed 0xaa 1 script renewed-IsRenew (omega arith)
