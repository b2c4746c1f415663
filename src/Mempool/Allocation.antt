-- ===== src/Mempool/Allocation.antt =====
-- Allocation keeps the pool's blocks apart.
use portable_lib.Prelude.{
  ℕ, ◌*◌, ◌<◌, true, false, ◌||◌, not, List, [], ◌∷◌, ◌++◌, ◌≡◌, refl, ap, sym, subst, ◌∙◌, arith,
  ◌⊎◌, inl, inr, All, length, none, some, if◌then◌else◌, ◌==◌, Bool-cases, Option-cases,
}
use portable_lib.Mempool.{
  Chunk, Mempool, remove_tail, alloc_from, alloc_from_chunk, alloc_fresh, alloc, chunk_at,
}
use portable_lib.Mempool.Returning.{remove_tail-append, remove_tail-none, reuse-IsValid}
use portable_lib.Mempool.Carving.{Placed}
use portable_lib.Mempool.Growing.{
  Took, Grants, Sizes, alloc_from-Took, new_chunk-passes, grown-Placed, grown-room,
}
use portable_lib.Mempool.Blocks.{InSome, Spread, IsValid, All-front}

-- What `mempool_alloc` gives: a block that the client holds from then on, or 0, where the pool has a
-- limit or the lower layer has no memory.
pub record Allocated (a : Mempool) (out : List ℕ) (got ptr : ℕ) (a' : Mempool) : Type 0 where
  pub answer :
      ((0 < ptr) × IsValid a' (ptr ∷ out))
      ⊎ ((ptr ≡ 0) × IsValid a' out × ((0 < a.max_blocks) ⊎ (got ≡ 0)))

Placed-IsValid :
    (a : Mempool) (out : List ℕ) → IsValid a out → a.mru ≡ [] → Placed a.block_size a.chunks out
Placed-IsValid a out v e = record {
  fits = v.fits;
  separate = v.separate;
  placed = subst (λ xs. All (InSome a.block_size a.chunks) (xs ++ out)) e v.placed;
  spread = subst (λ xs. Spread a.block_size (xs ++ out)) e v.spread;
}

rebuilt-IsValid :
    (a : Mempool) (out xs : List ℕ) (cs : List Chunk)
    → IsValid a out
    → a.mru ≡ []
    → 0 < length cs
    → Placed a.block_size cs xs
    → IsValid (record a { chunks = cs }) xs
rebuilt-IsValid a out xs cs v e some_chunk p = record {
  size_ge = v.size_ge;
  size_lt = v.size_lt;
  size_aligned = v.size_aligned;
  units_ge = v.units_ge;
  units_lt = v.units_lt;
  some_chunk = some_chunk;
  fits = p.fits;
  separate = p.separate;
  placed = subst (λ ys. All (InSome a.block_size cs) (ys ++ xs)) (sym e) p.placed;
  spread = subst (λ ys. Spread a.block_size (ys ++ xs)) (sym e) p.spread;
}

block-Allocated :
    (a : Mempool) (out : List ℕ) (got : ℕ) (cs : List Chunk) (r : ℕ × Mempool)
    → IsValid a out
    → a.mru ≡ []
    → Took a out cs r
    → Allocated a out got r.0 r.1
block-Allocated a out got cs r v e t = record {
  answer = inl (
    t.some_block,
    subst (λ p. IsValid p (r.0 ∷ out)) (sym t.same)
        (rebuilt-IsValid a out (r.0 ∷ out) t.chunks v e t.some_chunk t.placed),
  );
}

alloc_fresh-fails :
    (a : Mempool) (got : ℕ) → Sizes a → (got == 0) ≡ true → alloc_fresh a got ≡ some (0, a)
unfolding alloc_fresh
alloc_fresh-fails a got s z = rw (new_chunk-passes a got s, z) refl

abbrev grown : Mempool → ℕ → Mempool
grown a got = record a { chunks = chunk_at got (a.block_size * a.min_units) ∷ a.chunks }

alloc_fresh-grows :
    (a : Mempool) (got : ℕ)
    → Sizes a
    → (got == 0) ≡ false
    → alloc_fresh a got ≡ alloc_from (grown a got) (grown a got).chunks
unfolding alloc_fresh alloc_from_chunk
alloc_fresh-grows a got s z = rw (new_chunk-passes a got s, z) refl

-- With a new chunk at hand there is a block.
fresh-Allocated :
    (a : Mempool) (out : List ℕ) (got : ℕ)
    → IsValid a out
    → a.mru ≡ []
    → a.max_blocks ≡ 0
    → (0 < got → Grants a got)
    → (r : ℕ × Mempool) × (alloc_fresh a got ≡ some r) × Allocated a out got r.0 r.1
fresh-Allocated a out got v e unlimited grants =
    let sizes : Sizes a = record {
      size_ge = v.size_ge;
      size_lt = v.size_lt;
      units_ge = v.units_ge unlimited;
      units_lt = v.units_lt;
    } in
    elim (Bool-cases (got == 0)) [
      | inl z ↦ (
        (0, a),
        alloc_fresh-fails a got sizes z,
        record { answer = inr (refl, v, inr (ground (arith, z))) },
      )
      | inr z ↦
          let g = grants (ground (arith, z)) in
          let p = grown-Placed a got out g (Placed-IsValid a out v e) in
          let v' = rebuilt-IsValid a out out (grown a got).chunks v e (omega arith) p in
          let (r, q, took) =
            alloc_from-Took (grown a got) out (grown a got).chunks v.size_aligned (omega arith) p in
          (
            r,
            alloc_fresh-grows a got sizes z ∙ q,
            elim took [
              | inl t ↦ record {
                answer =
                    (block-Allocated (grown a got) out got (grown a got).chunks r v' e t).answer;
              }
              | inr n ↦ absurd (omega (arith, grown-room a got a.chunks g sizes n.full))
            ],
          )
    ]

alloc-reuses :
    (a : Mempool) (got : ℕ) (r : ℕ × List ℕ)
    → remove_tail a.mru ≡ some r
    → alloc a got ≡ some (r.0, record a { mru = r.1 })
unfolding alloc
alloc-reuses a got r e = rw (e, alloc) refl

alloc-carves :
    (a : Mempool) (got : ℕ) (r : ℕ × Mempool)
    → remove_tail a.mru ≡ none
    → alloc_from a a.chunks ≡ some r
    → alloc a got
      ≡ (if not (r.0 == 0) || not (a.max_blocks == 0) then some r else alloc_fresh r.1 got)
unfolding alloc alloc_from_chunk
alloc-carves a got r n e = rw (n, alloc, e) refl

-- A block that came back stands behind the chunk's header, so its address is not 0.
InSome-positive : (size : ℕ) (cs : List Chunk) (b : ℕ) → InSome size cs b → 0 < b
unfolding InSome
InSome-positive size [] b i = absurd (omega (arith, i))
InSome-positive size (c ∷ cs) b (inl k) = omega (arith, k.from_header)
InSome-positive size (c ∷ cs) b (inr i) = InSome-positive size cs b i

carved-Allocated :
    (a : Mempool) (out : List ℕ) (got : ℕ)
    → IsValid a out
    → remove_tail a.mru ≡ none
    → (0 < got → Grants a got)
    → (r : ℕ × Mempool) × (alloc a got ≡ some r) × Allocated a out got r.0 r.1
carved-Allocated a out got v n grants =
    let e = remove_tail-none a.mru n in
    let (r, q, took) =
      alloc_from-Took a out a.chunks v.size_aligned v.some_chunk (Placed-IsValid a out v e) in
    let next = alloc-carves a got r n q in
    elim took [
      | inl t ↦
          let nonzero : (r.0 == 0) ≡ false = ground (arith, t.some_block) in
          (r, next ∙ rw nonzero refl, block-Allocated a out got a.chunks r v e t)
      | inr t ↦
          let zero_block : (r.0 == 0) ≡ true = ground (arith, t.no_block) in
          elim (Bool-cases (a.max_blocks == 0)) [
            | inr m ↦ (
              r,
              next ∙ rw (zero_block, m) refl,
              record {
                answer = inr (
                  t.no_block,
                  subst (λ p. IsValid p out) (sym t.same) v,
                  inl (ground (arith, m)),
                );
              },
            )
            | inl m ↦
                let (f, c, done) = fresh-Allocated a out got v e (ground (arith, m)) grants in
                (f, next ∙ rw (zero_block, m) (ap (λ p. alloc_fresh p got) t.same ∙ c), done)
          ]
    ]

-- On a valid pool mempool_alloc returns, without a failed assertion: with a block that overlaps
-- none of those in use, or with 0 where the pool has a limit or the lower layer has no memory;
-- and the pool stays valid. The lower layer's memory lies apart from the pool's chunks.
pub alloc-Allocated :
    (a : Mempool) (out : List ℕ) (got : ℕ)
    → IsValid a out
    → (0 < got → Grants a got)
    → (r : ℕ × Mempool) × (alloc a got ≡ some r) × Allocated a out got r.0 r.1
alloc-Allocated a out got v grants = elim (Option-cases (remove_tail a.mru)) [
  | inl n ↦ carved-Allocated a out got v n grants
  | inr ((b, rest), e) ↦
      let same = remove_tail-append a.mru b rest e in
      let reused = reuse-IsValid a out b rest v same in
      let (i, others) = All-front (InSome a.block_size a.chunks) rest b out reused.placed in
      (
        (b, record a { mru = rest }),
        alloc-reuses a got (b, rest) e,
        record { answer = inl (InSome-positive a.block_size a.chunks b i, reused) },
      )
]
