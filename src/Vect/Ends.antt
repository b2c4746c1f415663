-- ===== src/Vect/Ends.antt =====
-- What the calls at either end of a vector do to its contents.
use portable_lib.Prelude.{
  suc, ◌+◌, ◌-◌, ◌^◌, ◌≤◌, ◌<◌, false, some, List, [], ◌∷◌, ◌++◌, ◌≡◌, refl, sym, ap, ◌∙◌, arith,
  ◌==◌, set, take, drop, get_or, length, length-set, length-take, take-take, get_or-take, take_more,
  write_at, length-write_at, take-write_at, add64, lt→ltb,
}
use portable_lib.Vect.{
  Vect, shift_up, shift_down, vect_push_back, vect_pop_back, vect_push_front, vect_pop_front,
  vect_copy, vect_append_vect,
}
use portable_lib.Vect.Room.{IsValid, contents, vect_reserve-Reserved}
use portable_lib.Vect.Shifts.{
  length-shift_up, length-shift_down, take-shift_up, take-shift_down, take-drop-suc, take-set_first,
}

module _ {ℓ} {A : Type ℓ} where
  -- A valid vector that holds the list.
  pub record Holds (w : Vect A) (xs : List A) : Type ℓ where
    pub valid : IsValid w
    pub as_list : contents w ≡ xs

  pub length-contents : (v : Vect A) → IsValid v → length (contents v) ≡ v.size
  length-contents v h = length-take v.arr v.size (omega (arith, h.in_cap, h.array))

  -- The list without its last element, and the last element.
  abbrev pub init_of : List A → List A
  init_of xs = take (length xs - 1) xs

  abbrev pub last_or : List A → A → A
  last_or xs d = get_or xs (length xs - 1) d

  module _ (null junk : A) where
    pub vect_push_back-Holds :
        (v : Vect A) (e : A)
        → IsValid v
        → v.size + 1 < 2 ^ 62
        → (w : Vect A) × (vect_push_back null junk v e ≡ some w) × Holds w (contents v ++ (e ∷ []))
    unfolding vect_push_back
    vect_push_back-Holds v e h small =
        let (w, made, r) = vect_reserve-Reserved null junk v (add64 v.size 1) h (omega arith) in
        (
          record w { arr = set w.arr w.size e; size = w.size + 1 },
          rw made refl,
          record {
            valid = record {
              in_cap = omega (arith, r.room, r.same_size);
              array = length-set w.arr w.size e ∙ r.valid.array;
              some_room = r.valid.some_room;
              low_cap = r.valid.low_cap;
            };
            as_list =
                take_more w.arr w.size e (omega (arith, r.room, r.same_size, r.valid.array))
                ∙ ap (λ l. l ++ (e ∷ [])) r.same;
          },
        )

    pub vect_push_front-Holds :
        (v : Vect A) (e : A)
        → IsValid v
        → v.size + 1 < 2 ^ 62
        → (w : Vect A) × (vect_push_front null junk v e ≡ some w) × Holds w (e ∷ contents v)
    unfolding vect_push_front
    vect_push_front-Holds v e h small =
        let (w, made, r) = vect_reserve-Reserved null junk v (add64 v.size 1) h (omega arith) in
        let moved = shift_up junk w.arr w.size in
        let long = length-shift_up junk w.arr w.size in
        let inside : w.size < length w.arr = omega (arith, r.room, r.same_size, r.valid.array) in
        (
          record w { arr = set moved 0 e; size = w.size + 1 },
          rw made refl,
          record {
            valid = record {
              in_cap = omega (arith, r.room, r.same_size);
              array = length-set moved 0 e ∙ long ∙ r.valid.array;
              some_room = r.valid.some_room;
              low_cap = r.valid.low_cap;
            };
            as_list =
                let more : w.size + 1 ≡ suc w.size = omega arith in
                rw more (
                  take-set_first junk moved (take w.size w.arr) w.size (get_or w.arr 0 junk) e
                    (take-shift_up junk w.arr w.size inside))
                ∙ ap (λ l. e ∷ l) r.same;
          },
        )

    pub vect_pop_back-Holds :
        (v : Vect A)
        → IsValid v
        → 0 < v.size
        → (w : Vect A) × (vect_pop_back null junk v ≡ some (last_or (contents v) junk, w))
          × Holds w (init_of (contents v))
    unfolding vect_pop_back
    vect_pop_back-Holds v h some_elem =
        let len = length-contents v h in
        let last : last_or (contents v) junk ≡ get_or v.arr (v.size - 1) junk =
          rw len (get_or-take v.arr (v.size - 1) v.size junk (omega arith)) in
        (
          record v { size = v.size - 1 },
          rw (lt→ltb _ _ some_elem, last) refl,
          record {
            valid = record {
              in_cap = omega (arith, h.in_cap);
              array = h.array;
              some_room = h.some_room;
              low_cap = h.low_cap;
            };
            as_list = rw len (sym (take-take v.arr (v.size - 1) v.size (omega arith)));
          },
        )

    pub vect_pop_front-Holds :
        (v : Vect A) (x : A) (xs : List A)
        → IsValid v
        → contents v ≡ x ∷ xs
        → (w : Vect A) × (vect_pop_front null junk v ≡ some (x, w)) × Holds w xs
    unfolding vect_pop_front
    vect_pop_front-Holds v x xs h e =
        let n = v.size - 1 in
        let len = length-contents v h in
        let pos : length (x ∷ xs) ≡ v.size = ap length (sym e) ∙ len in
        let more : v.size ≡ suc n = omega (arith, pos) in
        let there : (v.size == 0) ≡ false = ground (arith, pos) in
        let split : get_or v.arr 0 junk ∷ take n (drop 1 v.arr) ≡ x ∷ xs =
          sym (take-drop-suc junk v.arr 0 n (omega (arith, pos, h.in_cap, h.array)))
          ∙ ap (λ k. take k v.arr) (sym more)
          ∙ e in
        let first : get_or v.arr 0 junk ≡ x = cc in
        let rest : take n (drop 1 v.arr) ≡ xs = cc in
        let zeroth : n ≡ 0 + n = omega arith in
        let one : 0 + 1 ≡ 1 = refl in
        (
          record v { arr = shift_down junk v.arr 0 n; size = n },
          rw (there, first) refl,
          record {
            valid = record {
              in_cap = omega (arith, h.in_cap);
              array = length-shift_down junk v.arr 0 n ∙ h.array;
              some_room = h.some_room;
              low_cap = h.low_cap;
            };
            as_list =
                ap (λ k. take k (shift_down junk v.arr 0 n)) zeroth
                ∙ take-shift_down junk v.arr 0 n (omega (arith, pos, h.in_cap, h.array))
                ∙ rest;
          },
        )

    pub vect_append_vect-Holds :
        (v s : Vect A)
        → IsValid v
        → IsValid s
        → v.size + s.size < 2 ^ 62
        → (w : Vect A) × (vect_append_vect null junk v s ≡ some w)
          × Holds w (contents v ++ contents s)
    unfolding vect_append_vect
    vect_append_vect-Holds v s h hs small =
        let (w, made, r) =
          vect_reserve-Reserved null junk v (add64 v.size s.size) h (omega arith) in
        let len = length-contents s hs in
        let room : w.size + s.size ≤ w.cap = omega (arith, r.room, r.same_size) in
        (
          record w { arr = write_at w.arr w.size (contents s); size = w.size + s.size },
          rw made refl,
          record {
            valid = record {
              in_cap = room;
              array = length-write_at w.arr w.size (contents s) ∙ r.valid.array;
              some_room = r.valid.some_room;
              low_cap = r.valid.low_cap;
            };
            as_list =
                ap (λ n. take (w.size + n) (write_at w.arr w.size (contents s))) (sym len)
                ∙ take-write_at (contents s) w.arr w.size (omega (arith, len, room, r.valid.array))
                ∙ ap (λ l. l ++ contents s) r.same;
          },
        )

    pub vect_copy-Holds :
        (v s : Vect A)
        → IsValid v
        → IsValid s
        → s.size < 2 ^ 62
        → (w : Vect A) × (vect_copy null junk v s ≡ some w) × Holds w (contents s)
    unfolding vect_copy
    vect_copy-Holds v s h hs small =
        let (w, made, r) = vect_reserve-Reserved null junk v s.size h small in
        let len = length-contents s hs in
        (
          record w { arr = write_at w.arr 0 (contents s); size = s.size },
          rw made refl,
          record {
            valid = record {
              in_cap = r.room;
              array = length-write_at w.arr 0 (contents s) ∙ r.valid.array;
              some_room = r.valid.some_room;
              low_cap = r.valid.low_cap;
            };
            as_list =
                let all : s.size ≡ 0 + length (contents s) = omega (arith, len) in
                ap (λ n. take n (write_at w.arr 0 (contents s))) all
                ∙ take-write_at (contents s) w.arr 0 (omega (arith, len, r.room, r.valid.array));
          },
        )
