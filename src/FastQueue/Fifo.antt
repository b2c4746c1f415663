-- ===== src/FastQueue/Fifo.antt =====
-- The bounded first-in first-out list that a queue of `sz` slots cannot be told from.
use portable_lib.Prelude.{
  ℕ, zero, suc, ◌-◌, ◌^◌, ◌<◌, Bool, true, false, List, [], ◌∷◌, ◌++◌, ◌≡◌, refl, ap, ◌∙◌, arith,
  length, set, get_or, length-set, Bool-cases, inl, inr, ltb, ◌==◌, if◌then◌else◌, not,
}
use portable_lib.FastQueue.{Queue, queue, indexes, next, size, next_wr, next_rd, enq, deq}
use portable_lib.FastQueue.Contents.{
  IsValid, walk, contents, next-cases, next-lt, size-Leads, size_unique, walk-set,
}

-- The number of elements is what FQ_SIZE says.
pub length-walk {ℓ} :
    {A : Type ℓ} (junk : A) (elem : List A) (sz i n : ℕ) → length (walk junk elem sz i n) ≡ n
unfolding walk
length-walk junk elem sz i zero = refl
length-walk junk elem sz i (suc n) = ap suc (length-walk junk elem sz (next i sz) n)

-- The write index is before the read index exactly where the queue is full.
pub full-size :
    (rd wr sz : ℕ)
    → rd < sz
    → wr < sz
    → sz < 2 ^ 32
    → (next wr sz == rd) ≡ not (ltb (size (indexes rd wr sz)) (sz - 1))
full-size rd wr sz hr hw hs = ground (arith, next-cases wr sz hw hs, size-Leads rd wr sz hr hw hs)

-- A step of the write index makes room for one element more.
size-next :
    (rd wr sz : ℕ)
    → rd < sz
    → wr < sz
    → sz < 2 ^ 32
    → size (indexes rd wr sz) < sz - 1
    → size (indexes rd (next wr sz) sz) ≡ suc (size (indexes rd wr sz))
size-next rd wr sz hr hw hs h =
    size_unique rd (next wr sz) sz (suc (size (indexes rd wr sz))) hr (next-lt wr sz hw hs) hs
      (omega arith) (ground (arith, next-cases wr sz hw hs, size-Leads rd wr sz hr hw hs))

module _ {ℓ} {A : Type ℓ} where
  unfoldable pub fifo_enq : ℕ → List A → A → Bool × List A
  fifo_enq cap xs e = if ltb (length xs) cap then (true, xs ++ (e ∷ [])) else (false, xs)

  unfoldable pub fifo_deq : List A → A → Bool × (A × List A)
  fifo_deq [] e = (false, (e, []))
  fifo_deq (x ∷ xs) e = (true, (x, xs))

  pub record Enqueued (junk : A) (s : Queue A) (e : A) : Type ℓ where
    pub valid : IsValid (enq s e).1
    pub same_sz : (enq s e).1.q.sz ≡ s.q.sz
    pub as_fifo :
        fifo_enq (s.q.sz - 1) (contents junk s) e ≡ ((enq s e).0, contents junk (enq s e).1)

  pub record Dequeued (junk : A) (s : Queue A) (e : A) : Type ℓ where
    pub valid : IsValid (deq junk s e).1.1
    pub same_sz : (deq junk s e).1.1.q.sz ≡ s.q.sz
    pub as_fifo :
        fifo_deq (contents junk s) e
        ≡ ((deq junk s e).0, ((deq junk s e).1.0, contents junk (deq junk s e).1.1))

  enq-full : (s : Queue A) (e : A) → (next s.q.wr s.q.sz == s.q.rd) ≡ true → enq s e ≡ (false, s)
  unfolding enq next_wr
  enq-full s e t = rw (t, enq, next_wr) refl

  enq-room :
      (s : Queue A) (e : A)
      → (next s.q.wr s.q.sz == s.q.rd) ≡ false
      → enq s e ≡ (true, queue (indexes s.q.rd (next s.q.wr s.q.sz) s.q.sz) (set s.elem s.q.wr e))
  unfolding enq next_wr
  enq-room s e t = rw (t, enq, next_wr) refl

  fifo_enq-full :
      (cap : ℕ) (xs : List A) (e : A)
      → ltb (length xs) cap ≡ false
      → fifo_enq cap xs e ≡ (false, xs)
  unfolding fifo_enq
  fifo_enq-full cap xs e h = rw h refl

  fifo_enq-room :
      (cap : ℕ) (xs : List A) (e : A)
      → ltb (length xs) cap ≡ true
      → fifo_enq cap xs e ≡ (true, xs ++ (e ∷ []))
  unfolding fifo_enq
  fifo_enq-room cap xs e h = rw h refl

  pub length-contents : (junk : A) (s : Queue A) → length (contents junk s) ≡ size s.q
  unfolding contents
  length-contents junk s = length-walk junk s.elem s.q.sz s.q.rd (size s.q)

  -- A write at the write index, and a step of it, append the element.
  contents-enq :
      (junk : A) (s : Queue A) (e : A)
      → IsValid s
      → size s.q < s.q.sz - 1
      → contents junk (queue (indexes s.q.rd (next s.q.wr s.q.sz) s.q.sz) (set s.elem s.q.wr e))
        ≡ contents junk s ++ (e ∷ [])
  unfolding contents
  contents-enq junk s e v h =
      let leads = size-Leads s.q.rd s.q.wr s.q.sz v.rd_lt v.wr_lt v.sz_lt in
      rw (size-next s.q.rd s.q.wr s.q.sz v.rd_lt v.wr_lt v.sz_lt h) (
        walk-set junk e s.q.sz s.q.wr v.wr_lt v.sz_lt s.elem (size s.q) s.q.rd v.length_elem v.rd_lt
          leads.0 leads.1)

  -- FQ_ENQ on a valid queue is an append that is refused where `sz - 1` elements wait.
  pub enq-Enqueued : (junk : A) (s : Queue A) (e : A) → IsValid s → Enqueued junk s e
  enq-Enqueued junk s e v =
      let full = full-size s.q.rd s.q.wr s.q.sz v.rd_lt v.wr_lt v.sz_lt in
      let len = length-contents junk s in
      elim (Bool-cases (next s.q.wr s.q.sz == s.q.rd)) [
        | inl t ↦
            let stays = enq-full s e t in
            record {
              valid = rw stays v;
              same_sz = rw stays refl;
              as_fifo =
                  rw stays
                    (fifo_enq-full (s.q.sz - 1) (contents junk s) e (ground (arith, full, t, len)));
            }
        | inr f ↦
            let goes = enq-room s e f in
            let room : size s.q < s.q.sz - 1 = ground (arith, full, f) in
            record {
              valid = rw goes (record {
                rd_lt = v.rd_lt;
                wr_lt = next-lt s.q.wr s.q.sz v.wr_lt v.sz_lt;
                sz_lt = v.sz_lt;
                length_elem = length-set s.elem s.q.wr e ∙ v.length_elem;
              });
              same_sz = rw goes refl;
              as_fifo =
                  rw (goes, contents-enq junk s e v room)
                    (fifo_enq-room (s.q.sz - 1) (contents junk s) e (ground (arith, room, len)));
            }
      ]

  deq-empty :
      (junk : A) (s : Queue A) (e : A) → (s.q.rd == s.q.wr) ≡ true → deq junk s e ≡ (false, (e, s))
  unfolding deq next_rd
  deq-empty junk s e t = rw (t, deq, next_rd) refl

  deq-some :
      (junk : A) (s : Queue A) (e : A)
      → (s.q.rd == s.q.wr) ≡ false
      → deq junk s e ≡ (
        true,
        (get_or s.elem s.q.rd junk, queue (indexes (next s.q.rd s.q.sz) s.q.wr s.q.sz) s.elem),
      )
  unfolding deq next_rd
  deq-some junk s e t = rw (t, deq, next_rd) refl

  contents-empty : (junk : A) (s : Queue A) → size s.q ≡ 0 → contents junk s ≡ []
  unfolding contents walk
  contents-empty junk s h = rw h refl

  -- The oldest element stands at the read index; behind it, the others.
  contents-deq :
      (junk : A) (s : Queue A)
      → IsValid s
      → (n : ℕ) → size s.q ≡ suc n
      → contents junk s
        ≡ get_or s.elem s.q.rd junk
          ∷ contents junk (queue (indexes (next s.q.rd s.q.sz) s.q.wr s.q.sz) s.elem)
  unfolding contents walk
  contents-deq junk s v n h =
      let leads = size-Leads s.q.rd s.q.wr s.q.sz v.rd_lt v.wr_lt v.sz_lt in
      let less =
        size_unique (next s.q.rd s.q.sz) s.q.wr s.q.sz n (next-lt s.q.rd s.q.sz v.rd_lt v.sz_lt)
          v.wr_lt v.sz_lt (omega (arith, leads.0, h))
          (ground (arith, leads, h, next-cases s.q.rd s.q.sz v.rd_lt v.sz_lt)) in
      rw (h, less) refl

  -- FQ_DEQ on a valid queue takes the oldest element, and is refused where none waits.
  pub deq-Dequeued : (junk : A) (s : Queue A) (e : A) → IsValid s → Dequeued junk s e
  unfolding fifo_deq
  deq-Dequeued junk s e v =
      let leads = size-Leads s.q.rd s.q.wr s.q.sz v.rd_lt v.wr_lt v.sz_lt in
      elim (Bool-cases (s.q.rd == s.q.wr)) [
        | inl t ↦
            let stays = deq-empty junk s e t in
            record {
              valid = rw stays v;
              same_sz = rw stays refl;
              as_fifo = rw (stays, contents-empty junk s (ground (arith, t, leads))) refl;
            }
        | inr f ↦
            let goes = deq-some junk s e f in
            let held : size s.q ≡ suc (size s.q - 1) = ground (arith, f, leads) in
            record {
              valid = rw goes (record {
                rd_lt = next-lt s.q.rd s.q.sz v.rd_lt v.sz_lt;
                wr_lt = v.wr_lt;
                sz_lt = v.sz_lt;
                length_elem = v.length_elem;
              });
              same_sz = rw goes refl;
              as_fifo = rw (goes, contents-deq junk s v (size s.q - 1) held) refl;
            }
      ]
