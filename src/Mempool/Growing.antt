-- ===== src/Mempool/Growing.antt =====
-- A block from the latest chunk, where it has one, and a new chunk where it does not.
use native.Mathlib.Nat.{mul-le-mul, mul-le-mul_left, mul-le-mul_right}
use portable_lib.Prelude.{
  ℕ, ◌+◌, ◌-◌, ◌*◌, ◌%◌, ◌^◌, ◌<◌, ◌≤◌, true, false, List, [], ◌∷◌, ◌≡◌, refl, ap, arith, ◌⊎◌, inl,
  inr, All, All-map, length, ltb, add64, mul64, some, Bool-cases, if◌then◌else◌, ◌==◌,
}
use portable_lib.Mempool.{Chunk, Mempool, alloc_from, new_chunk, chunk_at, align}
use portable_lib.Mempool.Align.{align-Aligned}
use portable_lib.Mempool.Blocks.{Fits, Disjoint, Separate, InSome}
use portable_lib.Mempool.Carving.{Placed, carve-Placed}

-- The latest chunk is used up.
unfoldable pub IsFull : List Chunk → Type 0
IsFull [] = Unit
IsFull (c ∷ cs) = c.end ≤ c.free_area

-- A result of `alloc_from_chunk`, `out` being the blocks in use before it.
pub record Took (a : Mempool) (out : List ℕ) (cs : List Chunk) (r : ℕ × Mempool) : Type 0 where
  pub some_block : 0 < r.0
  pub chunks : List Chunk
  pub some_chunk : 0 < length chunks
  pub same : r.1 ≡ record a { chunks = chunks }
  pub placed : Placed a.block_size chunks (r.0 ∷ out)

pub record Nothing (a : Mempool) (cs : List Chunk) (r : ℕ × Mempool) : Type 0 where
  pub no_block : r.0 ≡ 0
  pub same : r.1 ≡ a
  pub full : IsFull cs

pub alloc_from-Took :
    (a : Mempool) (out : List ℕ) (cs : List Chunk)
    → a.block_size % 8 ≡ 0
    → 0 < length cs
    → Placed a.block_size cs out
    → (r : ℕ × Mempool) × (alloc_from a cs ≡ some r) × (Took a out cs r ⊎ Nothing a cs r)
unfolding alloc_from IsFull
alloc_from-Took a out [] hs hc p = absurd (omega (arith, hc))
alloc_from-Took a out (c ∷ cs) hs hc p = elim (Bool-cases (ltb c.free_area c.end)) [
  | inl t ↦
      let left : c.free_area < c.end = ground (arith, t) in
      let carved = record c { free_area = add64 c.free_area a.block_size } ∷ cs in
      (
        (c.free_area, record a { chunks = carved }),
        rw t refl,
        inl (record {
          some_block = omega (arith, p.fits.0.header);
          chunks = carved;
          some_chunk = omega arith;
          same = refl;
          placed = carve-Placed a.block_size c cs out hs left p;
        }),
      )
  | inr f ↦
      ((0, a), rw f refl, inr (record { no_block = refl; same = refl; full = ground (arith, f) }))
]

-- What the lower layer promises of an address that is not 0: the memory lies below 2 ^ 64 and apart
-- from every chunk that the pool has.
pub record Grants (a : Mempool) (got : ℕ) : Type 0 where
  pub fits : got + (32 + a.block_size * a.min_units) < 2 ^ 64
  pub apart :
      All
        (λ (c : Chunk). (got + (32 + a.block_size * a.min_units) ≤ c.base) ⊎ (c.end ≤ got))
        a.chunks

pub record Sizes (a : Mempool) : Type 0 where
  pub size_ge : 16 ≤ a.block_size
  pub size_lt : a.block_size < 2 ^ 32
  pub units_ge : 2 ≤ a.min_units
  pub units_lt : a.min_units < 2 ^ 32

product_bounds :
    (a : Mempool)
    → Sizes a
    → (a.block_size < a.block_size * a.min_units)
      × (a.min_units < a.block_size * a.min_units)
      × (a.block_size * a.min_units + 32 < 2 ^ 64)
product_bounds a s =
    let least : a.block_size ≤ 2 ^ 32 - 1 = omega (arith, s.size_lt) in
    let most : a.min_units ≤ 2 ^ 32 - 1 = omega (arith, s.units_lt) in
    let twice = mul-le-mul_left a.block_size s.units_ge in
    let often = mul-le-mul_right a.min_units s.size_ge in
    let all = mul-le-mul least most in
    (omega (arith, twice, s.size_ge), omega (arith, often, s.units_ge), omega (arith, all))

-- The assertions of `new_chunk` hold.
pub new_chunk-passes :
    (a : Mempool) (got : ℕ)
    → Sizes a
    → new_chunk a got ≡ (
        if got == 0
        then some (false, a)
        else some
            (true, record a { chunks = chunk_at got (a.block_size * a.min_units) ∷ a.chunks }))
unfolding new_chunk
new_chunk-passes a got s =
    let (b, u, total) = product_bounds a s in
    let exact : mul64 a.block_size a.min_units ≡ a.block_size * a.min_units =
      omega (arith, total) in
    let sum : add64 (add64 24 (a.block_size * a.min_units)) 8 ≡ 32 + a.block_size * a.min_units =
      omega (arith, total) in
    let first : ltb a.block_size (a.block_size * a.min_units) ≡ true = ground (arith, b) in
    let second : ltb a.min_units (a.block_size * a.min_units) ≡ true = ground (arith, u) in
    let third : ltb (a.block_size * a.min_units) (32 + a.block_size * a.min_units) ≡ true =
      ground arith in
    rw (exact, sum, first, second, third) refl

grown-Fits :
    (a : Mempool) (got : ℕ)
    → Grants a got
    → (Fits a.block_size (chunk_at got (a.block_size * a.min_units)))
      × ((chunk_at got (a.block_size * a.min_units)).end < got + (32 + a.block_size * a.min_units))
unfolding chunk_at
grown-Fits a got g =
    let start : add64 got 24 ≡ got + 24 = omega (arith, g.fits) in
    let up = align-Aligned (got + 24) (omega arith) (omega (arith, g.fits)) in
    let stop : add64 (align (got + 24)) (a.block_size * a.min_units)
        ≡ align (got + 24) + a.block_size * a.min_units =
      omega (arith, g.fits, up.close) in
    let swap : a.block_size * a.min_units ≡ a.min_units * a.block_size = omega arith in
    rw (start, stop)
      (
        record {
          header = up.above;
          left = a.min_units;
          whole = omega (arith, swap);
          end_lt = omega (arith, up.close, g.fits);
          aligned = up.multiple;
        },
        omega (arith, up.close),
      )

-- The area of a new chunk has room for the blocks of a chunk.
pub grown-whole :
    (a : Mempool) (got : ℕ)
    → Grants a got
    → (chunk_at got (a.block_size * a.min_units)).end
      ≡ (chunk_at got (a.block_size * a.min_units)).free_area + a.min_units * a.block_size
unfolding chunk_at
grown-whole a got g =
    let start : add64 got 24 ≡ got + 24 = omega (arith, g.fits) in
    let up = align-Aligned (got + 24) (omega arith) (omega (arith, g.fits)) in
    let stop : add64 (align (got + 24)) (a.block_size * a.min_units)
        ≡ align (got + 24) + a.block_size * a.min_units =
      omega (arith, g.fits, up.close) in
    let swap : a.block_size * a.min_units ≡ a.min_units * a.block_size = omega arith in
    rw (start, stop) (omega (arith, swap))

chunk_at-base : (got size : ℕ) → (chunk_at got size).base ≡ got
unfolding chunk_at
chunk_at-base got size = refl

beside :
    (got size room : ℕ) (c : Chunk)
    → (got + room ≤ c.base) ⊎ (c.end ≤ got)
    → (chunk_at got size).end < got + room
    → Disjoint (chunk_at got size) c
beside got size room c (inl h) stop = inl (omega (arith, h, stop))
beside got size room c (inr h) stop = inr (omega (arith, h, chunk_at-base got size))

pub grown-Placed :
    (a : Mempool) (got : ℕ) (out : List ℕ)
    → Grants a got
    → Placed a.block_size a.chunks out
    → Placed a.block_size (chunk_at got (a.block_size * a.min_units) ∷ a.chunks) out
unfolding Separate InSome
grown-Placed a got out g p =
    let new = chunk_at got (a.block_size * a.min_units) in
    let (f, stop) = grown-Fits a got g in
    record {
      fits = (f, p.fits);
      separate = (
        All-map (λ (c : Chunk). (got + (32 + a.block_size * a.min_units) ≤ c.base) ⊎ (c.end ≤ got))
            (Disjoint new) a.chunks (λ c h. beside got _ _ c h stop) g.apart,
        p.separate,
      );
      placed =
          All-map (InSome a.block_size a.chunks) (InSome a.block_size (new ∷ a.chunks)) out
            (λ x i. inr i) p.placed;
      spread = p.spread;
    }

-- A new chunk has a block.
pub grown-room :
    (a : Mempool) (got : ℕ) (cs : List Chunk)
    → Grants a got
    → Sizes a
    → IsFull (chunk_at got (a.block_size * a.min_units) ∷ cs)
    → 1 ≤ 0
unfolding chunk_at IsFull
grown-room a got cs g s full =
    let start : add64 got 24 ≡ got + 24 = omega (arith, g.fits) in
    let up = align-Aligned (got + 24) (omega arith) (omega (arith, g.fits)) in
    let first = align (add64 got 24) in
    let same : first ≡ align (got + 24) = ap align start in
    let (b, u, total) = product_bounds a s in omega (arith, full, same, up.close, g.fits, b)
