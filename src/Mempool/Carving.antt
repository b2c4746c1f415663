-- ===== src/Mempool/Carving.antt =====
-- Carving a block from the latest chunk, and adding a chunk, keep the blocks apart.
use native.Mathlib.Nat.{suc-mul}
use portable_lib.Prelude.{
  ℕ, zero, suc, ◌+◌, ◌*◌, ◌%◌, ◌<◌, ◌≤◌, List, [], ◌∷◌, ◌≡◌, arith, inl, inr, All, All-map, add64,
}
use portable_lib.Mempool.{Chunk}
use portable_lib.Mempool.Blocks.{Fits, Disjoint, Separate, InSome, Apart, Spread}

-- The part of the invariant that is about chunks and the blocks in use.
pub record Placed (size : ℕ) (cs : List Chunk) (xs : List ℕ) : Type 0 where
  pub fits : All (Fits size) cs
  pub separate : Separate cs
  pub placed : All (InSome size cs) xs
  pub spread : Spread size xs

abbrev carve : ℕ → Chunk → Chunk
carve size c = record c { free_area = add64 c.free_area size }

carve-Fits :
    (size : ℕ) (c : Chunk)
    → size % 8 ≡ 0
    → Fits size c
    → c.free_area < c.end
    → Fits size (carve size c)
      × (add64 c.free_area size ≡ c.free_area + size)
      × (c.free_area + size ≤ c.end)
carve-Fits size c hs f h = go f.left f.whole
  where
    go :
        (n : ℕ)
        → c.end ≡ c.free_area + n * size
        → Fits size (carve size c)
          × (add64 c.free_area size ≡ c.free_area + size)
          × (c.free_area + size ≤ c.end)
    go zero e = absurd (omega (arith, e, h))
    go (suc n) e =
        let split = suc-mul n size in
        let exact : add64 c.free_area size ≡ c.free_area + size =
          omega (arith, e, split, f.end_lt) in
        (
          record {
            header = omega (arith, exact, f.header);
            left = n;
            whole = omega (arith, exact, e, split);
            end_lt = f.end_lt;
            aligned = omega (arith, exact, f.aligned, hs);
          },
          exact,
          omega (arith, e, split),
        )

carve-InSome :
    (size : ℕ) (c : Chunk) (cs : List Chunk) (x : ℕ)
    → c.free_area ≤ add64 c.free_area size
    → InSome size (c ∷ cs) x
    → InSome size (carve size c ∷ cs) x
unfolding InSome
carve-InSome size c cs x h (inl k) = inl (record {
  from_header = k.from_header;
  to_free = omega (arith, k.to_free, h);
  aligned = k.aligned;
})
carve-InSome size c cs x h (inr i) = inr i

-- A block of another chunk is apart from every block of this one.
other-Apart :
    (size : ℕ) (c : Chunk) (cs : List Chunk) (x : ℕ)
    → c.free_area + size ≤ c.end
    → c.base ≤ c.free_area
    → All (Disjoint c) cs
    → All (Fits size) cs
    → InSome size cs x
    → Apart size c.free_area x
unfolding InSome
other-Apart size c [] x h hb ds fs i = absurd (omega (arith, i))
other-Apart size c (d ∷ cs) x h hb (inl s, ds) (f, fs) (inl k) =
    inr (omega (arith, s, k.from_header, h))
other-Apart size c (d ∷ cs) x h hb (inr s, ds) (f, fs) (inl k) =
    inl (omega (arith, s, k.to_free, f.whole, hb))
other-Apart size c (d ∷ cs) x h hb (s, ds) (f, fs) (inr i) = other-Apart size c cs x h hb ds fs i

new-Apart :
    (size : ℕ) (c : Chunk) (cs : List Chunk) (x : ℕ)
    → c.free_area + size ≤ c.end
    → c.base ≤ c.free_area
    → All (Disjoint c) cs
    → All (Fits size) cs
    → InSome size (c ∷ cs) x
    → Apart size c.free_area x
unfolding InSome
new-Apart size c cs x h hb ds fs (inl k) = inl k.to_free
new-Apart size c cs x h hb ds fs (inr i) = other-Apart size c cs x h hb ds fs i

pub carve-Placed :
    (size : ℕ) (c : Chunk) (cs : List Chunk) (xs : List ℕ)
    → size % 8 ≡ 0
    → c.free_area < c.end
    → Placed size (c ∷ cs) xs
    → Placed size (carve size c ∷ cs) (c.free_area ∷ xs)
unfolding Separate InSome Spread
carve-Placed size c cs xs hs h p =
    let (f, fs) = p.fits in
    let (g, exact, room) = carve-Fits size c hs f h in
    let grown = carve-InSome size c cs in
    record {
      fits = (g, fs);
      separate = p.separate;
      placed = (
        inl (record {
          from_header = f.header;
          to_free = omega (arith, exact);
          aligned = f.aligned;
        }),
        All-map (InSome size (c ∷ cs)) (InSome size (carve size c ∷ cs)) xs
            (λ x i. grown x (omega (arith, exact)) i) p.placed,
      );
      spread = (
        All-map (InSome size (c ∷ cs)) (Apart size c.free_area) xs
            (λ x i. new-Apart size c cs x room (omega (arith, f.header)) p.separate.0 fs i)
            p.placed,
        p.spread,
      );
    }
