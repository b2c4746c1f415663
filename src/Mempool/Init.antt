-- ===== src/Mempool/Init.antt =====
-- A new pool is valid.
use portable_lib.Prelude.{
  ℕ, ◌+◌, ◌*◌, ◌%◌, ◌^◌, ◌<◌, ◌≤◌, true, false, not, [], ◌∷◌, ◌≡◌, refl, ◌∙◌, arith, some,
  if◌then◌else◌, ◌==◌, ltb, Bool-cases, inl, inr,
}
use portable_lib.Mempool.{Chunk, Mempool, align_size, chunk_at, real_init, min_alloc_units}
use portable_lib.Mempool.Align.{align-Aligned}
use portable_lib.Mempool.Blocks.{IsValid, Separate, Spread}
use portable_lib.Mempool.Growing.{grown-whole, Grants, Sizes, new_chunk-passes, grown-Placed}

pub record SizeAligned (n : ℕ) : Type 0 where
  pub ge : 16 ≤ align_size n
  pub enough : n ≤ align_size n
  pub lt : align_size n < 2 ^ 32
  pub multiple : align_size n % 8 ≡ 0
  pub close : align_size n ≤ (if ltb n 16 then 16 else n) + 7

-- The size of a block is rounded up, and is at least that of the links of a returned one.
pub align_size-SizeAligned : (n : ℕ) → n + 8 < 2 ^ 32 → SizeAligned n
unfolding align_size
align_size-SizeAligned n h = elim (Bool-cases (ltb n 16)) [
  | inl t ↦
      let up = align-Aligned 16 (omega arith) (omega arith) in
      let least : n < 16 = ground (arith, t) in
      record {
        ge = rw t (omega (arith, up.above, up.close));
        enough = rw t (omega (arith, up.above, up.close, least));
        lt = rw t (omega (arith, up.close));
        multiple = rw t (omega (arith, up.multiple, up.close));
        close = rw t (omega (arith, up.above, up.close));
      }
  | inr f ↦
      let least : 16 ≤ n = ground (arith, f) in
      let up = align-Aligned n (omega arith) (omega arith) in
      record {
        ge = rw f (omega (arith, up.above, up.close, least));
        enough = rw f (omega (arith, up.above, up.close));
        lt = rw f (omega (arith, up.close));
        multiple = rw f (omega (arith, up.multiple, up.close));
        close = rw f (omega (arith, up.above, up.close));
      }
]

-- The number of blocks of a chunk: the limit, or what is asked for, or a default.
abbrev pub units_of : ℕ → ℕ → ℕ
units_of max units = if not (max == 0) then max else if units == 0 then min_alloc_units else units

abbrev pub bare : ℕ → ℕ → ℕ → Mempool
bare block_size max units = record {
  chunks = [];
  mru = [];
  block_size = align_size block_size;
  max_blocks = max;
  min_units = units_of max units;
}

-- A pool as it was asked for: its blocks have the size that is wanted, but 16 bytes at least, rounded up
-- to a multiple of 8; it has the limit, no returned blocks, and one chunk with room for exactly as many
-- blocks as the limit, or as were asked for.
pub record IsNew (block_size max units : ℕ) (a : Mempool) : Type 0 where
  pub size_ge : (if ltb block_size 16 then 16 else block_size) ≤ a.block_size
  pub size_close : a.block_size ≤ (if ltb block_size 16 then 16 else block_size) + 7
  pub size_multiple : a.block_size % 8 ≡ 0
  pub limit : a.max_blocks ≡ max
  pub no_returned : a.mru ≡ []
  pub chunk : Chunk
  pub only : a.chunks ≡ chunk ∷ []
  pub room : chunk.end ≡ chunk.free_area + units_of max units * a.block_size

-- Where a chunk has two blocks or more, the block size can be rounded up and the lower layer gives a
-- chunk its memory, __real_init succeeds with a valid pool of which no block is in use: its block size is
-- the one asked for, but at least 16, rounded up to a multiple of 8, its limit is the one asked for, and
-- its one chunk has room for exactly as many blocks as the limit, or else as were asked for, or else
-- 4096.
pub real_init-IsValid :
    (block_size max units got : ℕ)
    → block_size + 8 < 2 ^ 32
    → 2 ≤ units_of max units
    → units_of max units < 2 ^ 32
    → 0 < got
    → Grants (bare block_size max units) got
    → (a : Mempool) × (real_init block_size max units got ≡ some (true, a))
      × IsValid a []
      × IsNew block_size max units a
unfolding real_init Separate Spread
real_init-IsValid block_size max units got h h2 h32 hg g =
    let size = align_size-SizeAligned block_size h in
    let sizes : Sizes (bare block_size max units) = record {
      size_ge = size.ge;
      size_lt = size.lt;
      units_ge = h2;
      units_lt = h32;
    } in
    let nonzero : (got == 0) ≡ false = ground arith in
    let p =
      grown-Placed (bare block_size max units) got [] g
        (record { fits = tt; separate = tt; placed = tt; spread = tt }) in
    (
      record (bare block_size max units) {
        chunks = chunk_at got (align_size block_size * units_of max units) ∷ [];
      },
      new_chunk-passes (bare block_size max units) got sizes ∙ rw nonzero refl,
      record {
        size_ge = size.ge;
        size_lt = size.lt;
        size_aligned = size.multiple;
        units_ge = λ _. h2;
        units_lt = h32;
        some_chunk = omega arith;
        fits = p.fits;
        separate = p.separate;
        placed = p.placed;
        spread = p.spread;
      },
      record {
        size_ge = ground (arith, size.ge, size.enough);
        size_close = size.close;
        size_multiple = size.multiple;
        limit = refl;
        no_returned = refl;
        chunk = chunk_at got (align_size block_size * units_of max units);
        only = refl;
        room = grown-whole (bare block_size max units) got g;
      },
    )
