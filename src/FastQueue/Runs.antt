-- ===== src/FastQueue/Runs.antt =====
-- A client's calls in order, and the bounded list that a queue cannot be told from.
use portable_lib.Prelude.{
  ℕ, ◌-◌, ◌<◌, ◌^◌, Bool, true, List, [], ◌∷◌, ◌≡◌, refl, subst, ap, arith, length, ◌==◌, leb,
}
use portable_lib.FastQueue.{Queue, enq, deq, reset, init, size, is_full, is_empty}
use portable_lib.FastQueue.Contents.{IsValid, contents, size-Leads, walk}
use portable_lib.FastQueue.Fifo.{
  fifo_enq, fifo_deq, enq-Enqueued, deq-Dequeued, length-contents, full-size,
}

pub data Op {ℓ} (A : Type ℓ) : Type ℓ where
  enqueuing : A → Op A
  dequeuing : A → Op A
  resetting : Op A
  asking : Op A

pub data Reply {ℓ} (A : Type ℓ) : Type ℓ where
  flag : Bool → Reply A
  taken : Bool → A → Reply A
  state : ℕ → Bool → Bool → Reply A

module _ {ℓ} {A : Type ℓ} where
  unfoldable pub step : A → Queue A → Op A → Reply A × Queue A
  step junk s (enqueuing e) = let r = enq s e in (flag r.0, r.1)
  step junk s (dequeuing e) = let r = deq junk s e in (taken r.0 r.1.0, r.1.1)
  step junk s resetting = (flag true, reset s)
  step junk s asking = (state (size s.q) (is_empty s.q) (is_full s.q), s)

  unfoldable pub run : A → Queue A → List (Op A) → List (Reply A)
  run junk s [] = []
  run junk s (op ∷ ops) = let r = step junk s op in r.0 ∷ run junk r.1 ops

  -- The list holds `cap` elements at most.
  unfoldable pub fifo_step : ℕ → List A → Op A → Reply A × List A
  fifo_step cap xs (enqueuing e) = let r = fifo_enq cap xs e in (flag r.0, r.1)
  fifo_step cap xs (dequeuing e) = let r = fifo_deq xs e in (taken r.0 r.1.0, r.1.1)
  fifo_step cap xs resetting = (flag true, [])
  fifo_step cap xs asking = (state (length xs) (length xs == 0) (leb cap (length xs)), xs)

  unfoldable pub fifo_run : ℕ → List A → List (Op A) → List (Reply A)
  fifo_run cap xs [] = []
  fifo_run cap xs (op ∷ ops) = let r = fifo_step cap xs op in r.0 ∷ fifo_run cap r.1 ops

  record Stepped (junk : A) (s : Queue A) (op : Op A) : Type ℓ where
    valid : IsValid (step junk s op).1
    same_sz : (step junk s op).1.q.sz ≡ s.q.sz
    as_fifo :
        fifo_step (s.q.sz - 1) (contents junk s) op
        ≡ ((step junk s op).0, contents junk (step junk s op).1)

  contents-reset : (junk : A) (s : Queue A) → contents junk (reset s) ≡ []
  unfolding contents walk size reset
  contents-reset junk s = refl

  reset-IsValid : (s : Queue A) → IsValid s → IsValid (reset s)
  unfolding reset
  reset-IsValid s v = record {
    rd_lt = omega (arith, v.rd_lt);
    wr_lt = omega (arith, v.rd_lt);
    sz_lt = v.sz_lt;
    length_elem = v.length_elem;
  }

  -- In a valid queue FQ_SIZE is the number of waiting elements, FQ_EMPTY_P holds at 0 and
  -- FQ_FULL_P at sz - 1 of them.
  pub questions_lem :
      (junk : A) (s : Queue A)
      → IsValid s
      → (size s.q ≡ length (contents junk s))
        × (is_empty s.q ≡ (length (contents junk s) == 0))
        × (is_full s.q ≡ leb (s.q.sz - 1) (length (contents junk s)))
  unfolding is_empty is_full
  questions_lem junk s v =
      let len = length-contents junk s in
      let leads = size-Leads s.q.rd s.q.wr s.q.sz v.rd_lt v.wr_lt v.sz_lt in
      let full = full-size s.q.rd s.q.wr s.q.sz v.rd_lt v.wr_lt v.sz_lt in
      (omega (arith, len), ground (arith, len, leads), ground (arith, len, leads, full))

  step-Stepped : (junk : A) (s : Queue A) (op : Op A) → IsValid s → Stepped junk s op
  unfolding step fifo_step reset
  step-Stepped junk s (enqueuing e) v =
      let r = enq-Enqueued junk s e v in
      record { valid = r.valid; same_sz = r.same_sz; as_fifo = ap (λ p. (flag p.0, p.1)) r.as_fifo }
  step-Stepped junk s (dequeuing e) v =
      let r = deq-Dequeued junk s e v in
      record {
        valid = r.valid;
        same_sz = r.same_sz;
        as_fifo = ap (λ p. (taken p.0 p.1.0, p.1.1)) r.as_fifo;
      }
  step-Stepped junk s resetting v = record {
    valid = reset-IsValid s v;
    same_sz = refl;
    as_fifo = rw (contents-reset junk s) refl;
  }
  step-Stepped junk s asking v =
      let said = questions_lem junk s v in
      record { valid = v; same_sz = refl; as_fifo = rw (said.0, said.1, said.2) refl }

  -- Calls on a valid queue of sz slots answer as calls on a first-in first-out list of at most
  -- sz - 1 elements.
  pub queue_run_refines :
      (junk : A) (s : Queue A) (ops : List (Op A))
      → IsValid s
      → run junk s ops ≡ fifo_run (s.q.sz - 1) (contents junk s) ops
  unfolding run fifo_run
  queue_run_refines junk s [] v = refl
  queue_run_refines junk s (op ∷ ops) v =
      let r = step-Stepped junk s op v in
      rw r.as_fifo (
        ap (λ rs. (step junk s op).0 ∷ rs)
          (subst
            (λ n.
              run junk (step junk s op).1 ops
              ≡ fifo_run (n - 1) (contents junk (step junk s op).1) ops)
            r.same_sz (queue_run_refines junk (step junk s op).1 ops r.valid)))

  pub init-IsValid :
      (junk : A) (elem : List A) (n : ℕ)
      → 0 < n
      → n < 2 ^ 32
      → length elem ≡ n
      → IsValid (init elem n) × (contents junk (init elem n) ≡ [])
  unfolding init contents walk size
  init-IsValid junk elem n hp hn he =
      (record { rd_lt = hp; wr_lt = hp; sz_lt = hn; length_elem = he }, refl)
