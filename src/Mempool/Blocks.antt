-- ===== src/Mempool/Blocks.antt =====
-- Where the blocks of a pool stand, and the invariant that keeps them apart.
use portable_lib.Prelude.{
  ℕ, ◌+◌, ◌*◌, ◌%◌, ◌^◌, ◌<◌, ◌≤◌, true, List, [], ◌∷◌, ◌++◌, ◌≡◌, refl, arith, ◌⊎◌, inl, inr, All,
  length, leb, ltb, add64,
}
use portable_lib.Mempool.{Chunk, Mempool, valid_blk}

-- The area from `free_area` to `end` is a whole number of blocks behind the chunk's header.
pub record Fits (size : ℕ) (c : Chunk) : Type 0 where
  pub header : c.base + 24 ≤ c.free_area
  pub left : ℕ
  pub whole : c.end ≡ c.free_area + left * size
  pub end_lt : c.end < 2 ^ 64
  pub aligned : c.free_area % 8 ≡ 0

abbrev pub Disjoint : Chunk → Chunk → Type 0
Disjoint c d = (c.end ≤ d.base) ⊎ (d.end ≤ c.base)

unfoldable pub Separate : List Chunk → Type 0
Separate [] = Unit
Separate (c ∷ cs) = All (Disjoint c) cs × Separate cs

-- A block that was carved from the chunk.
pub record Carved (size : ℕ) (c : Chunk) (b : ℕ) : Type 0 where
  pub from_header : c.base + 24 ≤ b
  pub to_free : b + size ≤ c.free_area
  pub aligned : b % 8 ≡ 0

unfoldable pub InSome : ℕ → List Chunk → ℕ → Type 0
InSome size [] b = b < 0
InSome size (c ∷ cs) b = Carved size c b ⊎ InSome size cs b

-- Two blocks do not overlap.
abbrev pub Apart : ℕ → ℕ → ℕ → Type 0
Apart size b x = (x + size ≤ b) ⊎ (b + size ≤ x)

unfoldable pub Spread : ℕ → List ℕ → Type 0
Spread size [] = Unit
Spread size (b ∷ bs) = All (Apart size b) bs × Spread size bs

-- `out` lists the blocks that the client holds.
pub record IsValid (a : Mempool) (out : List ℕ) : Type 0 where
  pub size_ge : 16 ≤ a.block_size
  pub size_lt : a.block_size < 2 ^ 32
  pub size_aligned : a.block_size % 8 ≡ 0
  pub units_ge : a.max_blocks ≡ 0 → 2 ≤ a.min_units
  pub units_lt : a.min_units < 2 ^ 32
  pub some_chunk : 0 < length a.chunks
  pub fits : All (Fits a.block_size) a.chunks
  pub separate : Separate a.chunks
  pub placed : All (InSome a.block_size a.chunks) (a.mru ++ out)
  pub spread : Spread a.block_size (a.mru ++ out)

-- A block of the middle of the list moved to its front.
pub All-front :
    (P : ℕ → Type 0) (xs : List ℕ) (b : ℕ) (ys : List ℕ)
    → All P (xs ++ (b ∷ ys))
    → P b × All P (xs ++ ys)
All-front P [] b ys all = all
All-front P (x ∷ xs) b ys (p, all) = let (q, rest) = All-front P xs b ys all in (q, (p, rest))

Apart-swap : (size x b : ℕ) → Apart size x b → Apart size b x
Apart-swap size x b (inl h) = inr h
Apart-swap size x b (inr h) = inl h

pub Spread-front :
    (size : ℕ) (xs : List ℕ) (b : ℕ) (ys : List ℕ)
    → Spread size (xs ++ (b ∷ ys))
    → Spread size (b ∷ (xs ++ ys))
unfolding Spread
Spread-front size [] b ys s = s
Spread-front size (x ∷ xs) b ys (far, s) =
    let (away, rest) = Spread-front size xs b ys s in
    let (near, others) = All-front (Apart size x) xs b ys far in
    ((Apart-swap size x b near, away), (others, rest))

-- A carved block passes the check of `mempool_free`.
pub valid_blk-InSome :
    (size : ℕ) (cs : List Chunk) (b : ℕ)
    → 0 < size
    → All (Fits size) cs
    → InSome size cs b
    → valid_blk cs b ≡ true
unfolding valid_blk InSome
valid_blk-InSome size [] b h all i = absurd (omega (arith, i))
valid_blk-InSome size (c ∷ cs) b h (f, all) (inl k) =
    let exact : add64 c.base 24 ≡ c.base + 24 = omega (arith, f.header, f.whole, f.end_lt) in
    let lower : leb (add64 c.base 24) b ≡ true = ground (arith, exact, k.from_header) in
    let upper : ltb b c.end ≡ true = ground (arith, k.to_free, f.whole, h) in rw (lower, upper) refl
valid_blk-InSome size (c ∷ cs) b h (f, all) (inr i) =
    let rest = valid_blk-InSome size cs b h all i in ground (arith, rest)
