-- ===== src/Mempool/Returning.antt =====
-- Blocks that come back, and that are given out again, stay apart from the others.
use mathlib.Core.Option.{some-injective}
use portable_lib.Prelude.{
  ℕ, ◌+◌, ◌<◌, ◌≤◌, ◌⊎◌, false, add64, List, [], ◌∷◌, ◌++◌, ◌≡◌, refl, ap, sym, subst, ◌∙◌, arith,
  inl, inr, All, none, some, ◌>>=◌, Option-cases, append_assoc,
}
use portable_lib.Mempool.{Chunk, Mempool, chunk_header, valid_blk, remove_tail, free}
use portable_lib.Mempool.Blocks.{
  Fits, InSome, Spread, IsValid, All-front, Spread-front, valid_blk-InSome,
}

pub remove_tail-append :
    (bs : List ℕ) (b : ℕ) (rest : List ℕ) → remove_tail bs ≡ some (b, rest) → bs ≡ rest ++ (b ∷ [])
unfolding remove_tail
remove_tail-append [] b rest e = absurd (ground (arith, e))
remove_tail-append (c ∷ []) b rest e =
    let same = some-injective _ _ e in ap (λ r. r.1 ++ (r.0 ∷ [])) same
remove_tail-append (c ∷ d ∷ bs) b rest e = elim (Option-cases (remove_tail (d ∷ bs))) [
  | inl n ↦ absurd (ground (arith, e, n))
  | inr (r, f) ↦
      let same = some-injective _ _ (ap (λ o. o >>= λ r. some (r.0, c ∷ r.1)) (sym f) ∙ e) in
      ap (λ xs. c ∷ xs) (remove_tail-append (d ∷ bs) r.0 r.1 f) ∙ ap (λ r. r.1 ++ (r.0 ∷ [])) same
]

pub remove_tail-none : (bs : List ℕ) → remove_tail bs ≡ none → bs ≡ []
unfolding remove_tail
remove_tail-none [] e = refl
remove_tail-none (c ∷ []) e = absurd (ground (arith, e))
remove_tail-none (c ∷ d ∷ bs) e = elim (Option-cases (remove_tail (d ∷ bs))) [
  | inl n ↦ absurd (ground (arith, remove_tail-none (d ∷ bs) n))
  | inr (r, f) ↦ absurd (ground (arith, e, f))
]

-- The block that the tail of the list gives is the client's now.
pub reuse-IsValid :
    (a : Mempool) (out : List ℕ) (b : ℕ) (rest : List ℕ)
    → IsValid a out
    → a.mru ≡ rest ++ (b ∷ [])
    → IsValid (record a { mru = rest }) (b ∷ out)
reuse-IsValid a out b rest v e =
    let same : a.mru ++ out ≡ rest ++ (b ∷ out) =
      ap (λ xs. xs ++ out) e ∙ append_assoc rest (b ∷ []) out in
    record {
      size_ge = v.size_ge;
      size_lt = v.size_lt;
      size_aligned = v.size_aligned;
      units_ge = v.units_ge;
      units_lt = v.units_lt;
      some_chunk = v.some_chunk;
      fits = v.fits;
      separate = v.separate;
      placed = subst (λ xs. All (InSome a.block_size a.chunks) xs) same v.placed;
      spread = subst (Spread a.block_size) same v.spread;
    }

-- The address is in the memory of no chunk, its header left out.
abbrev pub Outside : Chunk → ℕ → Type 0
Outside ch q = (q < ch.base + 24) ⊎ (ch.end ≤ q)

valid_blk-Outside :
    (size : ℕ) (cs : List Chunk) (q : ℕ)
    → All (Fits size) cs
    → All (λ ch. Outside ch q) cs
    → valid_blk cs q ≡ false
unfolding valid_blk
valid_blk-Outside size [] q fits out = refl
valid_blk-Outside size (ch ∷ cs) q (fit, fits) (inl low, out) =
    let rest = valid_blk-Outside size cs q fits out in
    let exact : add64 ch.base chunk_header ≡ ch.base + 24 =
      omega (arith, fit.header, fit.whole, fit.end_lt) in
    ground (arith, exact, rest, low)
valid_blk-Outside size (ch ∷ cs) q (fit, fits) (inr high, out) =
    let rest = valid_blk-Outside size cs q fits out in ground (arith, rest, high)

-- On a valid pool mempool_free, given a block that the client holds, returns without a failed assertion:
-- the block is the head of the list of returned ones, of which the others and the chunks stay as they
-- are, and the pool stays valid without the client's block. For an address outside the chunks' memory
-- its assertion fails.
pub free-IsValid :
    (a : Mempool) (held back : List ℕ) (ptr q : ℕ)
    → IsValid a (held ++ (ptr ∷ back))
    → All (λ ch. Outside ch q) a.chunks
    → ((a' : Mempool) × (free a ptr ≡ some a')
        × IsValid a' (held ++ back)
        × (a'.mru ≡ ptr ∷ a.mru)
        × (a'.chunks ≡ a.chunks))
      × (free a q ≡ none)
unfolding free Spread
free-IsValid a held back ptr q v outside =
    let assoc = sym (append_assoc a.mru held (ptr ∷ back)) in
    let placed =
      All-front (InSome a.block_size a.chunks) (a.mru ++ held) ptr back
        (subst (λ xs. All (InSome a.block_size a.chunks) xs) assoc v.placed) in
    let spread =
      Spread-front a.block_size (a.mru ++ held) ptr back
        (subst (Spread a.block_size) assoc v.spread) in
    let ok =
      valid_blk-InSome a.block_size a.chunks ptr (omega (arith, v.size_ge)) v.fits placed.0 in
    let again = append_assoc a.mru held back in
    let bad = valid_blk-Outside a.block_size a.chunks q v.fits outside in
    (
      (
        record a { mru = ptr ∷ a.mru },
        rw ok refl,
        record {
          size_ge = v.size_ge;
          size_lt = v.size_lt;
          size_aligned = v.size_aligned;
          units_ge = v.units_ge;
          units_lt = v.units_lt;
          some_chunk = v.some_chunk;
          fits = v.fits;
          separate = v.separate;
          placed = (placed.0, subst (λ xs. All (InSome a.block_size a.chunks) xs) again placed.1);
          spread = subst (λ xs. Spread a.block_size (ptr ∷ xs)) again spread;
        },
        refl,
        refl,
      ),
      rw bad refl,
    )
