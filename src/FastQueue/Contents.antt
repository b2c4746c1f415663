-- ===== src/FastQueue/Contents.antt =====
-- The elements that a queue holds, from the oldest to the newest, and how the index steps move
-- through them.
use portable_lib.Prelude.{
  ℕ, zero, suc, ◌+◌, ◌<◌, ◌^◌, List, [], ◌∷◌, ◌++◌, ◌≡◌, ◌≢◌, refl, ap, arith, length, get_or, set,
  get_or-set_self, get_or-set_ne, ◌⊎◌,
}
use portable_lib.FastQueue.{Queue, indexes, next, size}

-- The indexes stand inside an array of `sz` elements.
pub record IsValid {ℓ} {A : Type ℓ} (s : Queue A) : Type 0 where
  pub rd_lt : s.q.rd < s.q.sz
  pub wr_lt : s.q.wr < s.q.sz
  pub sz_lt : s.q.sz < 2 ^ 32
  pub length_elem : length s.elem ≡ s.q.sz

module _ {ℓ} {A : Type ℓ} where
  -- The `n` elements from index `i` on, with wrap-around at `sz`.
  unfoldable pub walk : A → List A → ℕ → ℕ → ℕ → List A
  walk junk elem sz i zero = []
  walk junk elem sz i (suc n) = get_or elem i junk ∷ walk junk elem sz (next i sz) n

  unfoldable pub contents : A → Queue A → List A
  contents junk s = walk junk s.elem s.q.sz s.q.rd (size s.q)

-- `n` steps from `rd` lead to `wr`.
abbrev pub Leads : ℕ → ℕ → ℕ → ℕ → Type 0
Leads sz rd n wr = (rd + n ≡ wr) ⊎ (rd + n ≡ wr + sz)

-- A step goes to the next index, or from the last one to 0.
pub next-cases :
    (i sz : ℕ)
    → i < sz
    → sz < 2 ^ 32
    → ((suc i < sz) × (next i sz ≡ suc i)) ⊎ ((suc i ≡ sz) × (next i sz ≡ 0))
unfolding next
next-cases i sz h hs = ground arith

pub next-lt : (i sz : ℕ) → i < sz → sz < 2 ^ 32 → next i sz < sz
next-lt i sz h hs = ground (arith, next-cases i sz h hs)

-- One step fewer leads there from the next index.
Leads-next :
    (sz i m wr : ℕ)
    → i < sz
    → sz < 2 ^ 32
    → suc m < sz
    → wr < sz
    → Leads sz i (suc m) wr
    → Leads sz (next i sz) m wr
Leads-next sz i m wr h hs hm hw l = ground (arith, next-cases i sz h hs)

-- `__q_size` is the number of steps from the read index to the write index, and the only one.
pub size-Leads :
    (rd wr sz : ℕ)
    → rd < sz
    → wr < sz
    → sz < 2 ^ 32
    → (size (indexes rd wr sz) < sz) × Leads sz rd (size (indexes rd wr sz)) wr
unfolding size
size-Leads rd wr sz hr hw hs = ground arith

pub size_unique :
    (rd wr sz n : ℕ)
    → rd < sz
    → wr < sz
    → sz < 2 ^ 32
    → n < sz
    → Leads sz rd n wr
    → size (indexes rd wr sz) ≡ n
size_unique rd wr sz n hr hw hs hn l = ground (arith, size-Leads rd wr sz hr hw hs)

module _ {ℓ} {A : Type ℓ} (junk e : A) (sz wr : ℕ) (hw : wr < sz) (hs : sz < 2 ^ 32) where
  -- A write at the index that the walk reaches adds the element at its end.
  pub walk-set :
      (elem : List A) (n i : ℕ)
      → length elem ≡ sz
      → i < sz
      → n < sz
      → Leads sz i n wr
      → walk junk (set elem wr e) sz i (suc n) ≡ walk junk elem sz i n ++ (e ∷ [])
  unfolding walk
  walk-set elem zero i he hi hn l =
      let here : i ≡ wr = ground arith in
      rw (here, get_or-set_self elem wr e junk (omega arith)) refl
  walk-set elem (suc m) i he hi hn l =
      let ne : wr ≢ i = λ p. absurd (ground arith) in
      rw (get_or-set_ne elem e junk ne) (
        ap (λ xs. get_or elem i junk ∷ xs)
          (walk-set elem m (next i sz) he (next-lt i sz hi hs) (omega arith)
            (Leads-next sz i m wr hi hs hn hw l)))
