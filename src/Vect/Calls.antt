-- ===== src/Vect/Calls.antt =====
-- Sequences of calls on a vector, and the same on a list.
use portable_lib.Prelude.{ℕ, ◌+◌, Option, none, some, List, [], ◌∷◌, ◌++◌, ◌>>=◌}
use portable_lib.Vect.{
  Vect, vect_reserve, vect_push_back, vect_pop_back, vect_push_front, vect_pop_front, vect_reset,
  vect_copy, vect_append_vect,
}
use portable_lib.Vect.Room.{IsValid, contents}
use portable_lib.Vect.Ends.{init_of, last_or}

-- The vectors that are appended or copied are given by what they are.
pub data Call {ℓ} (A : Type ℓ) : Type ℓ where
  push_back : A → Call A
  push_front : A → Call A
  pop_back : Call A
  pop_front : Call A
  reserve : ℕ → Call A
  reset : Call A
  append_vect : Vect A → Call A
  copy_from : Vect A → Call A

module _ {ℓ} {A : Type ℓ} (null junk : A) where
  -- An element that was popped, and the vector.
  abbrev pub CallResult : Type ℓ
  CallResult = Option (Option A × Vect A)

  unfoldable pub quiet : Option (Vect A) → CallResult
  quiet none = none
  quiet (some w) = some (none, w)

  unfoldable pub loud : Option (A × Vect A) → CallResult
  loud none = none
  loud (some (x, w)) = some (some x, w)

  unfoldable pub vect_call : Vect A → Call A → CallResult
  unfolding quiet loud
  vect_call v (push_back e) = quiet (vect_push_back null junk v e)
  vect_call v (push_front e) = quiet (vect_push_front null junk v e)
  vect_call v pop_back = loud (vect_pop_back null junk v)
  vect_call v pop_front = loud (vect_pop_front null junk v)
  vect_call v (reserve n) = quiet (vect_reserve null junk v n)
  vect_call v reset = some (none, vect_reset null junk v)
  vect_call v (append_vect s) = quiet (vect_append_vect null junk v s)
  vect_call v (copy_from s) = quiet (vect_copy null junk v s)

  -- The same on lists; an empty one has nothing to pop.
  unfoldable pub list_call : List A → Call A → Option (Option A × List A)
  list_call xs (push_back e) = some (none, xs ++ (e ∷ []))
  list_call xs (push_front e) = some (none, e ∷ xs)
  list_call [] pop_back = none
  list_call (x ∷ xs) pop_back = some (some (last_or (x ∷ xs) junk), init_of (x ∷ xs))
  list_call [] pop_front = none
  list_call (x ∷ xs) pop_front = some (some x, xs)
  list_call xs (reserve n) = some (none, xs)
  list_call xs reset = some (none, [])
  list_call xs (append_vect s) = some (none, xs ++ contents s)
  list_call xs (copy_from s) = some (none, contents s)

  -- The elements popped by a sequence of calls, and what is left; calls behind one that has no result
  -- are not made.
  unfoldable pub vect_run : Vect A → List (Call A) → Option (List (Option A) × List A)
  vect_run v [] = some ([], contents v)
  vect_run v (c ∷ cs) = vect_call v c >>= λ r. vect_run r.1 cs >>= λ rs. some (r.0 ∷ rs.0, rs.1)

  unfoldable pub list_run : List A → List (Call A) → Option (List (Option A) × List A)
  list_run xs [] = some ([], xs)
  list_run xs (c ∷ cs) = list_call xs c >>= λ r. list_run r.1 cs >>= λ rs. some (r.0 ∷ rs.0, rs.1)

  -- The vectors of a call are valid.
  abbrev pub IsGood : Call A → Type ℓ
  IsGood (append_vect s) = IsValid s
  IsGood (copy_from s) = IsValid s
  IsGood c = Unit

  -- A bound on what a call adds, or on what it reserves.
  abbrev pub weight : Call A → ℕ
  weight (push_back e) = 1
  weight (push_front e) = 1
  weight (reserve n) = n
  weight (append_vect s) = s.size
  weight (copy_from s) = s.size
  weight c = 0

  abbrev pub total : List (Call A) → ℕ
  total [] = 0
  total (c ∷ cs) = weight c + total cs
