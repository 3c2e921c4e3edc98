-- ===== src/CircularDeque/Ends.antt =====
-- src/circular_deque.tcc: `front`, `back`, and the pushes and pops, which do not grow the buffer.
use motion_planning_gadget_s.Common.{
  ℕ, zero, suc, ◌+◌, ◌-◌, ◌<◌, ◌≡◌, ◌≢◌, refl, ◌∙◌, sym, ap, subst, List, [], ◌∷◌, ◌++◌, ◌==◌,
  Option, none, some, length, get_or, get_elem?, set, arith, add32, sub32, get_or-set_self,
  get_or-set_ne, length-set, length-append, get_elem?-append_left, get_elem?-append_right,
  Bool-cases, inl, inr,
}
use motion_planning_gadget_s.CircularDeque.{
  Deque, mask, front, back, put_front, put_back, pop_front, pop_back,
}
use motion_planning_gadget_s.CircularDeque.Inv.{
  slot_of, slot_of-lt, slot_of-ne, slot_of-next, slot_of-previous, Represents, mask_lem, inc_lem,
  dec_lem,
}

module _ {ℓ} {A : Type ℓ} where
  -- A write to the slot of element `n` shows there and nowhere else.
  slots-set :
      (d : Deque A) (xs : List A) (e : Option A) (k n : ℕ)
      → Represents d xs
      → k < d.size
      → n < d.capacity
      → k ≢ n
      → get_or (set d.slots (slot_of d.capacity d.head n) e) (slot_of d.capacity d.head k) none
        ≡ get_elem? xs k
  slots-set d xs e k n r h m ne =
      let v = r.valid in
      get_or-set_ne d.slots e none
        (slot_of-ne d.capacity d.head n k v.head_in m (omega arith) (omega arith))
      ∙ r.elements k h

  pub put_back-Represents :
      (d : Deque A) (xs : List A) (x : A)
      → Represents d xs
      → d.size < d.capacity
      → Represents (put_back d x) (xs ++ (x ∷ []))
  put_back-Represents d xs x r room =
      let v = r.valid in
      let sum : add32 d.head d.size ≡ d.head + d.size = omega arith in
      let grown : add32 d.size 1 ≡ d.size + 1 = omega arith in
      let at : mask d (add32 d.head d.size) ≡ slot_of d.capacity d.head d.size =
        rw sum (mask_lem d d.size v (omega arith)) in
      rw (at, grown)
        (record {
          valid = record {
            storage = length-set d.slots _ (some x) ∙ v.storage;
            small_enough = v.small_enough;
            head_in = v.head_in;
            size_in = omega arith;
          };
          counted = omega (arith, length-append xs (x ∷ []), r.counted);
          elements = λ k h. elim (Bool-cases (k == d.size)) [
            | inl e ↦
                let last : k ≡ d.size = ground arith in
                rw last (
                  get_or-set_self d.slots (slot_of d.capacity d.head d.size) (some x) none
                    (omega (arith, slot_of-lt d.capacity d.head d.size, v.storage))
                  ∙ sym (get_elem?-append_right xs (x ∷ []) d.size 0 (omega (arith, r.counted))))
            | inr e ↦
                slots-set d xs (some x) k d.size r (ground arith) room (ground arith)
                ∙ sym (get_elem?-append_left xs (x ∷ []) k (ground (arith, r.counted)))
          ];
        })

  pub put_front-Represents :
      (d : Deque A) (xs : List A) (x : A)
      → Represents d xs
      → d.size < d.capacity
      → Represents (put_front d x) (x ∷ xs)
  put_front-Represents d xs x r room =
      let v = r.valid in
      let grown : add32 d.size 1 ≡ suc d.size = omega arith in
      let before = slot_of-lt d.capacity d.head (d.capacity - 1) v.head_in (omega arith) in
      rw (dec_lem d v, grown)
        (record {
          valid = record {
            storage = length-set d.slots _ (some x) ∙ v.storage;
            small_enough = v.small_enough;
            head_in = before;
            size_in = room;
          };
          counted = ap suc r.counted;
          elements = element;
        })
    where
      element :
          (k : ℕ)
          → k < suc d.size
          → get_or
              (set d.slots (slot_of d.capacity d.head (d.capacity - 1)) (some x))
              (slot_of d.capacity (slot_of d.capacity d.head (d.capacity - 1)) k)
              none
            ≡ get_elem? (x ∷ xs) k
      element zero h =
          let v = r.valid in
          let inside = slot_of-lt d.capacity d.head (d.capacity - 1) v.head_in (omega arith) in
          let same : slot_of d.capacity (slot_of d.capacity d.head (d.capacity - 1)) 0
              ≡ slot_of d.capacity d.head (d.capacity - 1) =
            ground arith in
          rw same (
            get_or-set_self d.slots (slot_of d.capacity d.head (d.capacity - 1)) (some x) none
              (omega (arith, v.storage)))
      element (suc k) h =
          let v = r.valid in
          rw (slot_of-previous d.capacity d.head k v.head_in (omega arith))
            (slots-set d xs (some x) k (d.capacity - 1) r (omega arith) (omega arith) (omega arith))

  -- On a deque that holds `x` and then `xs`, `pop_front` returns `x` and leaves `xs`.
  pub pop_front-Represents :
      (d : Deque A) (x : A) (xs : List A)
      → Represents d (x ∷ xs)
      → ((pop_front d).0 ≡ some x) × Represents (pop_front d).1 xs
  unfolding pop_front front
  pop_front-Represents d x xs r =
      let v = r.valid in
      let first : slot_of d.capacity d.head 0 ≡ d.head = ground arith in
      let less : sub32 d.size 1 ≡ length xs = omega (arith, r.counted) in
      (
        rw first at (r.elements 0 (omega (arith, r.counted))),
        rw (inc_lem d v, less)
            (record {
              valid = record {
                storage = length-set d.slots _ none ∙ v.storage;
                small_enough = v.small_enough;
                head_in = ground arith;
                size_in = omega (arith, r.counted);
              };
              counted = refl;
              elements = λ k h.
                  rw (slot_of-next d.capacity d.head k v.head_in (omega (arith, r.counted))) (
                    subst
                      (λ s.
                        get_or (set d.slots s none) (slot_of d.capacity d.head (suc k)) none
                        ≡ get_elem? xs k)
                      first
                      (slots-set d (x ∷ xs) none (suc k) 0 r (omega (arith, r.counted))
                        (omega (arith, v.head_in)) (omega arith)));
            }),
      )

  -- On a deque that holds `xs` and then `x`, `pop_back` returns `x` and leaves `xs`.
  pub pop_back-Represents :
      (d : Deque A) (xs : List A) (x : A)
      → Represents d (xs ++ (x ∷ []))
      → ((pop_back d).0 ≡ some x) × Represents (pop_back d).1 xs
  unfolding pop_back back
  pop_back-Represents d xs x r =
      let v = r.valid in
      let counted : d.size ≡ length xs + 1 = r.counted ∙ length-append xs (x ∷ []) in
      let less : sub32 d.size 1 ≡ length xs = omega arith in
      let end : sub32 (add32 d.head d.size) 1 ≡ d.head + length xs = omega arith in
      let end' : add32 d.head (length xs) ≡ d.head + length xs = omega arith in
      let at = mask_lem d (length xs) v (omega arith) in
      (
        rw (end, at)
            (r.elements (length xs) (omega arith)
              ∙ get_elem?-append_right xs (x ∷ []) (length xs) 0 (omega arith)),
        rw (less, end', at)
            (record {
              valid = record {
                storage = length-set d.slots _ none ∙ v.storage;
                small_enough = v.small_enough;
                head_in = v.head_in;
                size_in = omega arith;
              };
              counted = refl;
              elements = λ k h.
                  slots-set d (xs ++ (x ∷ [])) none k (length xs) r (omega arith) (omega arith)
                    (omega arith)
                  ∙ get_elem?-append_left xs (x ∷ []) k h;
            }),
      )
