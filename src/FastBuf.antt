-- ===== src/FastBuf.antt =====
-- inc/fast/buf.h: byte buffers that grow. An allocation gives its memory; `junk` is what it holds. The
-- macro RENEW, by which a buffer grows, is defined nowhere in the repository: `renew` stands for it, and
-- gives the new memory for a buffer and a number of bytes. A call that does not end gives no result.
pub mod Appends
mod Tests
use portable_lib.Prelude.{
  ℕ, ◌+◌, Option, none, some, List, if◌then◌else◌, ◌==◌, leb, set, replicate, add64, write_at, take,
  ◌>>=◌,
}
use portable_lib.Vect.{doubled}

pub record FastBuf : Type 0 where
  pub buf : List ℕ
  pub size : ℕ
  pub cap : ℕ

unfoldable pub fast_buf_init : ℕ → ℕ → FastBuf
fast_buf_init junk sz =
    let n = if sz == 0 then 128 else sz in record { buf = replicate n junk; size = 0; cap = n }

module _ (renew : List ℕ → ℕ → List ℕ) where
  -- The loop is that of the vectors.
  unfoldable pub fast_buf_reserve : FastBuf → ℕ → Option FastBuf
  unfolding doubled
  fast_buf_reserve b want =
      let grown = doubled 65 b.cap want >>= λ n. some (record b { buf = renew b.buf n; cap = n }) in
      if leb b.cap want then grown else some b

  unfoldable pub fast_buf_grow : FastBuf → ℕ → Option FastBuf
  unfolding fast_buf_reserve
  fast_buf_grow b n = fast_buf_reserve b (add64 b.size n)

  unfoldable pub fast_buf_append_buf : FastBuf → List ℕ → ℕ → Option FastBuf
  unfolding fast_buf_grow
  fast_buf_append_buf b bytes n = fast_buf_grow b n >>= λ g.
      some (record g { buf = write_at g.buf g.size (take n bytes); size = add64 g.size n })

  unfoldable pub fast_buf_append_byte : FastBuf → ℕ → Option FastBuf
  unfolding fast_buf_grow
  fast_buf_append_byte b c =
      fast_buf_grow b 1 >>= λ g. some (record g { buf = set g.buf g.size c; size = add64 g.size 1 })

unfoldable pub fast_buf_reset : FastBuf → FastBuf
fast_buf_reset b = record b { size = 0 }

unfoldable pub fast_buf_advance : FastBuf → ℕ → FastBuf
fast_buf_advance b n = record b { size = add64 b.size n }

unfoldable pub fast_buf_fini : FastBuf → FastBuf
fast_buf_fini b = record { buf = List.[]; size = 0; cap = 0 }
