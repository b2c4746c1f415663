-- ===== src/Vect/Runs.antt =====
-- Each call on a vector does what it does on a list; so do sequences of them.
use portable_lib.Prelude.{
  ℕ, ◌+◌, ◌-◌, ◌^◌, ◌≤◌, ◌<◌, Option, none, some, List, [], ◌∷◌, ◌++◌, ◌≡◌, refl, sym, ap, ◌∙◌,
  arith, true, false, ◌==◌, ◌⊎◌, length, length-append, length-take, ltb, All, if◌then◌else◌, inl,
  inr, length-replicate,
}
use portable_lib.Vect.{Vect, vect_init, vect_pop_back, vect_pop_front, vect_reset}
use portable_lib.Vect.Room.{IsValid, contents, vect_reserve-Reserved}
use portable_lib.Vect.Ends.{
  Holds, init_of, last_or, length-contents, vect_push_back-Holds, vect_push_front-Holds,
  vect_pop_back-Holds, vect_pop_front-Holds, vect_append_vect-Holds, vect_copy-Holds,
}
use portable_lib.Vect.Calls.{
  Call, push_back, push_front, pop_back, pop_front, reserve, reset, append_vect, copy_from,
  CallResult, loud, vect_call, list_call, vect_run, list_run, IsGood, weight, total,
}

module _ {ℓ} {A : Type ℓ} (null junk : A) where
  -- A call that has a result on both sides.
  record Answered (v : Vect A) (xs : List A) (c : Call A) : Type ℓ where
    popped : Option A
    after : Vect A
    left : List A
    on_vect : vect_call null junk v c ≡ some (popped, after)
    on_list : list_call null junk xs c ≡ some (popped, left)
    holds : Holds after left
    length_le : length left ≤ length xs + weight null junk c

  Agrees : Vect A → List A → Call A → Type ℓ
  Agrees v xs c =
      ((vect_call null junk v c ≡ none) × (list_call null junk xs c ≡ none)) ⊎ Answered v xs c

  size-Holds : {v : Vect A} {xs : List A} → Holds v xs → v.size ≡ length xs
  size-Holds {v} h = sym (length-contents v h.valid) ∙ ap length h.as_list

  rewrite_held : {w : Vect A} {xs ys : List A} → Holds w xs → xs ≡ ys → Holds w ys
  rewrite_held h e = record { valid = h.valid; as_list = h.as_list ∙ e }

  module _ (v : Vect A) where
    push_back-Agrees :
        (xs : List A) (e : A) → Holds v xs → length xs + 1 < 2 ^ 62 → Agrees v xs (push_back e)
    unfolding vect_call list_call Agrees
    push_back-Agrees xs e h small =
        let (w, made, held) =
          vect_push_back-Holds null junk v e h.valid (omega (arith, size-Holds h)) in
        inr (record {
          popped = none;
          after = w;
          left = xs ++ (e ∷ []);
          on_vect = rw made refl;
          on_list = refl;
          holds = rewrite_held held (ap (λ l. l ++ (e ∷ [])) h.as_list);
          length_le = omega (arith, length-append xs (e ∷ []));
        })

    push_front-Agrees :
        (xs : List A) (e : A) → Holds v xs → length xs + 1 < 2 ^ 62 → Agrees v xs (push_front e)
    unfolding vect_call list_call Agrees
    push_front-Agrees xs e h small =
        let (w, made, held) =
          vect_push_front-Holds null junk v e h.valid (omega (arith, size-Holds h)) in
        inr (record {
          popped = none;
          after = w;
          left = e ∷ xs;
          on_vect = rw made refl;
          on_list = refl;
          holds = rewrite_held held (ap (λ l. e ∷ l) h.as_list);
          length_le = omega arith;
        })

    pop_back-Agrees : (xs : List A) → Holds v xs → Agrees v xs pop_back
    unfolding vect_call list_call Agrees vect_pop_back
    pop_back-Agrees [] h =
        let none_left : ltb 0 v.size ≡ false = ground (arith, size-Holds h) in
        inl (rw none_left refl, refl)
    pop_back-Agrees (x ∷ xs) h =
        let (w, made, held) =
          vect_pop_back-Holds null junk v h.valid (omega (arith, size-Holds h)) in
        let given : List A → CallResult null junk = λ l. some (some (last_or l junk), w) in
        inr (record {
          popped = some (last_or (x ∷ xs) junk);
          after = w;
          left = init_of (x ∷ xs);
          on_vect = ap (loud null junk) made ∙ ap given h.as_list;
          on_list = refl;
          holds = rewrite_held held (ap init_of h.as_list);
          length_le = omega (arith, length-take (x ∷ xs) (length (x ∷ xs) - 1) (omega arith));
        })

    pop_front-Agrees : (xs : List A) → Holds v xs → Agrees v xs pop_front
    unfolding vect_call list_call Agrees vect_pop_front
    pop_front-Agrees [] h =
        let none_left : (v.size == 0) ≡ true = ground (arith, size-Holds h) in
        inl (rw none_left refl, refl)
    pop_front-Agrees (x ∷ xs) h =
        let (w, made, held) = vect_pop_front-Holds null junk v x xs h.valid h.as_list in
        inr (record {
          popped = some x;
          after = w;
          left = xs;
          on_vect = rw made refl;
          on_list = refl;
          holds = held;
          length_le = omega arith;
        })

    reserve-Agrees : (xs : List A) (n : ℕ) → Holds v xs → n < 2 ^ 62 → Agrees v xs (reserve n)
    unfolding vect_call list_call Agrees
    reserve-Agrees xs n h small =
        let (w, made, r) = vect_reserve-Reserved null junk v n h.valid small in
        inr (record {
          popped = none;
          after = w;
          left = xs;
          on_vect = rw made refl;
          on_list = refl;
          holds = record { valid = r.valid; as_list = r.same ∙ h.as_list };
          length_le = omega arith;
        })

    reset-Agrees : (xs : List A) → Holds v xs → Agrees v xs reset
    unfolding vect_call list_call Agrees vect_reset
    reset-Agrees xs h = inr (record {
      popped = none;
      after = vect_reset null junk v;
      left = [];
      on_vect = refl;
      on_list = refl;
      holds = record {
        valid = record {
          in_cap = omega arith;
          array = h.valid.array;
          some_room = h.valid.some_room;
          low_cap = h.valid.low_cap;
        };
        as_list = refl;
      };
      length_le = omega arith;
    })

    append_vect-Agrees :
        (xs : List A) (s : Vect A)
        → Holds v xs
        → IsValid s
        → length xs + s.size < 2 ^ 62
        → Agrees v xs (append_vect s)
    unfolding vect_call list_call Agrees
    append_vect-Agrees xs s h hs small =
        let (w, made, held) =
          vect_append_vect-Holds null junk v s h.valid hs (omega (arith, size-Holds h)) in
        inr (record {
          popped = none;
          after = w;
          left = xs ++ contents s;
          on_vect = rw made refl;
          on_list = refl;
          holds = rewrite_held held (ap (λ l. l ++ contents s) h.as_list);
          length_le = omega (arith, length-append xs (contents s), length-contents s hs);
        })

    copy-Agrees :
        (xs : List A) (s : Vect A)
        → Holds v xs
        → IsValid s
        → s.size < 2 ^ 62
        → Agrees v xs (copy_from s)
    unfolding vect_call list_call Agrees
    copy-Agrees xs s h hs small =
        let (w, made, held) = vect_copy-Holds null junk v s h.valid hs small in
        inr (record {
          popped = none;
          after = w;
          left = contents s;
          on_vect = rw made refl;
          on_list = refl;
          holds = held;
          length_le = omega (arith, length-contents s hs);
        })

  call-Agrees :
      (v : Vect A) (xs : List A) (c : Call A)
      → Holds v xs
      → IsGood null junk c
      → length xs + weight null junk c < 2 ^ 62
      → Agrees v xs c
  call-Agrees v xs (push_back e) h good small = push_back-Agrees v xs e h small
  call-Agrees v xs (push_front e) h good small = push_front-Agrees v xs e h small
  call-Agrees v xs pop_back h good small = pop_back-Agrees v xs h
  call-Agrees v xs pop_front h good small = pop_front-Agrees v xs h
  call-Agrees v xs (reserve n) h good small = reserve-Agrees v xs n h (omega arith)
  call-Agrees v xs reset h good small = reset-Agrees v xs h
  call-Agrees v xs (append_vect s) h good small = append_vect-Agrees v xs s h good small
  call-Agrees v xs (copy_from s) h good small = copy-Agrees v xs s h good (omega arith)

  run-same :
      (cs : List (Call A)) (v : Vect A) (xs : List A)
      → Holds v xs
      → All (IsGood null junk) cs
      → length xs + total null junk cs < 2 ^ 62
      → vect_run null junk v cs ≡ list_run null junk xs cs
  unfolding vect_run list_run Agrees
  run-same [] v xs h good small = ap (λ l. some ([], l)) h.as_list
  run-same (c ∷ cs) v xs h (good, others) small = elim (call-Agrees v xs c h good (omega arith)) [
    | inl stop ↦ rw (stop.0, stop.1) refl
    | inr a ↦
        rw
          (
            a.on_vect,
            a.on_list,
            run-same cs a.after a.left a.holds others (omega (arith, a.length_le)),
          )
          refl
  ]

  vect_init-Holds : (n : ℕ) → n < 2 ^ 63 → Holds (vect_init null junk n) []
  unfolding vect_init
  vect_init-Holds n small = record {
    valid = record {
      in_cap = omega arith;
      array = length-replicate (if n == 0 then 16 else n) null;
      some_room = ground arith;
      low_cap = ground arith;
    };
    as_list = refl;
  }

  -- On a new vector any calls, with valid vectors to append or copy, and with reservations and additions
  -- of less than 2^62 in all, pop what the same calls on a list give and leave the same elements; a
  -- sequence ends early, without a result, exactly where an empty one is popped. So no call runs
  -- forever while it makes room.
  pub vect_run_refines :
      (n : ℕ) (cs : List (Call A))
      → n < 2 ^ 63
      → All (IsGood null junk) cs
      → total null junk cs < 2 ^ 62
      → vect_run null junk (vect_init null junk n) cs ≡ list_run null junk [] cs
  vect_run_refines n cs room good small =
      run-same cs (vect_init null junk n) [] (vect_init-Holds n room) good (omega arith)
