-- ===== src/FastQueue/Tests.antt =====
-- Queues of three slots, which hold two elements.
use portable_lib.Prelude.{ℕ, ◌-◌, true, false, List, [], ◌∷◌, ◌≡◌, refl, arith, length, ◌==◌, leb}
use portable_lib.FastQueue.{
  Queue, queue, indexes, enq, deq, init, size, is_full, is_empty, next, next_rd, next_wr, reset,
}
use portable_lib.FastQueue.Contents.{IsValid, contents, walk}
use portable_lib.FastQueue.Runs.{
  Op, enqueuing, dequeuing, resetting, asking, flag, state, taken, run, fifo_run, queue_run_refines,
  questions_lem, step,
}
use portable_lib.FastQueue.Fifo.{Enqueued, Dequeued, enq-Enqueued, deq-Dequeued}

program : Unit {0}
unfolding enq deq init size is_full is_empty next next_rd next_wr reset contents walk run step
program = tt

-- The write index has wrapped around: 8 is the oldest element, 9 the newest.
abbrev wrapped : Queue ℕ
wrapped = queue (indexes 2 1 3) (9 ∷ 7 ∷ 8 ∷ [])

wrapped-IsValid : IsValid wrapped
wrapped-IsValid = record {
  rd_lt = omega arith;
  wr_lt = omega arith;
  sz_lt = omega arith;
  length_elem = refl;
}

wrapped-contents : contents 0 wrapped ≡ 8 ∷ 9 ∷ []
unfolding program
wrapped-contents = refl

abbrev calls : List (Op ℕ)
calls =
    enqueuing 5 ∷ asking ∷ dequeuing 0 ∷ enqueuing 6 ∷ dequeuing 0 ∷ resetting ∷ dequeuing 4 ∷ []

calls-run :
    run 0 wrapped calls
    ≡ flag false
      ∷ state 2 false true
      ∷ taken true 8
      ∷ flag true
      ∷ taken true 9
      ∷ flag true
      ∷ taken false 4
      ∷ []
unfolding program
calls-run = refl

queue_run_refines_example : run 0 wrapped calls ≡ fifo_run (3 - 1) (contents 0 wrapped) calls
queue_run_refines_example = queue_run_refines 0 wrapped calls wrapped-IsValid

enq-Enqueued_example : Enqueued 0 wrapped 5
enq-Enqueued_example = enq-Enqueued 0 wrapped 5 wrapped-IsValid

deq-Dequeued_example : Dequeued 0 wrapped 5
deq-Dequeued_example = deq-Dequeued 0 wrapped 5 wrapped-IsValid

questions_lem_example :
    (size wrapped.q ≡ length (contents 0 wrapped))
    × (is_empty wrapped.q ≡ (length (contents 0 wrapped) == 0))
    × (is_full wrapped.q ≡ leb (3 - 1) (length (contents 0 wrapped)))
questions_lem_example = questions_lem 0 wrapped wrapped-IsValid
