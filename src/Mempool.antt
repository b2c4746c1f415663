-- ===== src/Mempool.antt =====
-- src/mempool.c: blocks of one size, carved from chunks, with a list of the blocks that came back.
-- Pointers are addresses of 64 bits, and the sizes of the structs are those of an LP64 platform. The
-- lower layer's allocator is not in the repository: what it returns, 0 on failure, is an argument
-- of an operation that may call it. The links that a returned block holds are a list here, and its
-- other contents are left out. A failed assertion and a read through a null pointer give no result.
pub mod Align
pub mod Blocks
pub mod Carving
pub mod Growing
pub mod Returning
pub mod Allocation
pub mod Init
mod Tests
use portable_lib.Prelude.{
  ℕ, ◌+◌, ◌-◌, ◌*◌, ◌/◌, ◌%◌, ◌^◌, Bool, true, false, ◌&&◌, ◌||◌, not, Option, none, some, List, [],
  ◌∷◌, if◌then◌else◌, ◌==◌, ltb, leb, bit_and, u32_mod, add64, mul64, sub64, ◌>>=◌,
}

pub record Chunk : Type 0 where
  pub base : ℕ
  pub free_area : ℕ
  pub end : ℕ

pub record Mempool : Type 0 where
  pub chunks : List Chunk
  pub mru : List ℕ
  pub block_size : ℕ
  pub max_blocks : ℕ
  pub min_units : ℕ

-- `sizeof(memchunk)`, `MINALIGNMENT`, `MIN_OBJ_SIZE` and `MEMPOOL_MIN_ALLOC_UNITS`
abbrev pub chunk_header : ℕ
chunk_header = 24

abbrev pub min_alignment : ℕ
min_alignment = 8

abbrev pub min_obj_size : ℕ
min_obj_size = 16

abbrev pub min_alloc_units : ℕ
min_alloc_units = 4096

-- `_Align`, as an address or as an `unsigned int`
unfoldable pub align : ℕ → ℕ
align p =
    if bit_and (min_alignment - 1) p == p
    then p
    else bit_and 0xfffffffffffffff8 (add64 p (min_alignment - 1))

unfoldable pub align_size : ℕ → ℕ
align_size n = align (if ltb n min_obj_size then min_obj_size else n) % u32_mod

unfoldable pub chunk_at : ℕ → ℕ → Chunk
chunk_at got size =
    let first = align (add64 got chunk_header) in
    record { base = got; free_area = first; end = add64 first size }

-- `got` is what the lower layer returns.
unfoldable pub new_chunk : Mempool → ℕ → Option (Bool × Mempool)
new_chunk a got =
    let chunk_size = mul64 a.block_size a.min_units in
    let alloc_size = add64 (add64 chunk_header chunk_size) min_alignment in
    if ltb a.block_size chunk_size && ltb a.min_units chunk_size && ltb chunk_size alloc_size
    then if got == 0
      then some (false, a)
      else some (true, record a { chunks = chunk_at got chunk_size ∷ a.chunks })
    else none

unfoldable pub alloc_from : Mempool → List Chunk → Option (ℕ × Mempool)
alloc_from a [] = none
alloc_from a (ch ∷ rest) =
    if ltb ch.free_area ch.end
    then some (
      ch.free_area,
      record a { chunks = record ch { free_area = add64 ch.free_area a.block_size } ∷ rest },
    )
    else some (0, a)

unfoldable pub alloc_from_chunk : Mempool → Option (ℕ × Mempool)
alloc_from_chunk a = alloc_from a a.chunks

-- `_valid_blk_p`
unfoldable pub valid_blk : List Chunk → ℕ → Bool
valid_blk [] ptr = false
valid_blk (ch ∷ rest) ptr =
    (leb (add64 ch.base chunk_header) ptr && ltb ptr ch.end) || valid_blk rest ptr

-- `__real_init`, which `mempool_init` and `mempool_new` call
unfoldable pub real_init : ℕ → ℕ → ℕ → ℕ → Option (Bool × Mempool)
real_init block_size max units got =
    new_chunk
      (record {
        chunks = [];
        mru = [];
        block_size = align_size block_size;
        max_blocks = max;
        min_units = if not (max == 0) then max else if units == 0 then min_alloc_units else units;
      })
      got

-- `mempool_init_from_mem`, from the alignment of the pool on, for a pool of `poolsize` bytes.
unfoldable pub init_from_mem : ℕ → ℕ → ℕ → Option Mempool
init_from_mem block_size pool poolsz =
    let size = align_size block_size in
    let ptr = align pool in
    let poolsize = sub64 poolsz (sub64 ptr pool) in
    let first = align (add64 ptr chunk_header) in
    let end = add64 (add64 ptr chunk_header) (sub64 poolsize chunk_header) in
    let nblocks = sub64 end first / size % u32_mod in
    let ch_end = add64 first (nblocks * size % u32_mod) in
    if (pool == 0)
      || (poolsz == 0)
      || ltb poolsize (add64 ((size + min_alignment) % 2 ^ 64) chunk_header)
    then none
    else if leb ch_end end
    then some (record {
      chunks = record { base = ptr; free_area = first; end = ch_end } ∷ [];
      mru = [];
      block_size = size;
      max_blocks = nblocks;
      min_units = nblocks;
    })
    else none

-- `DL_REMOVE_TAIL`
unfoldable pub remove_tail : List ℕ → Option (ℕ × List ℕ)
remove_tail [] = none
remove_tail (b ∷ []) = some (b, [])
remove_tail (b ∷ c ∷ bs) = remove_tail (c ∷ bs) >>= λ r. some (r.0, b ∷ r.1)

unfoldable pub alloc_fresh : Mempool → ℕ → Option (ℕ × Mempool)
alloc_fresh a got = new_chunk a got >>= λ r. if r.0 then alloc_from_chunk r.1 else some (0, r.1)

unfoldable pub alloc : Mempool → ℕ → Option (ℕ × Mempool)
alloc a got = elim (remove_tail a.mru) [
  | some r ↦ some (r.0, record a { mru = r.1 })
  | none ↦ alloc_from_chunk a >>= λ r.
      if not (r.0 == 0) || not (a.max_blocks == 0) then some r else alloc_fresh r.1 got
]

unfoldable pub free : Mempool → ℕ → Option Mempool
free a ptr = if valid_blk a.chunks ptr then some (record a { mru = ptr ∷ a.mru }) else none
