-- ===== src/CircularDeque/Append.antt =====
-- src/circular_deque.tcc: `append` copies a range behind the elements, round the end of the buffer.
use motion_planning_gadget_s.Common.{
  subst, ℕ, zero, suc, ◌+◌, ◌-◌, ◌≤◌, ◌<◌, ◌≡◌, ◌⊎◌, refl, ◌∙◌, sym, min, List, [], ◌∷◌, ◌++◌, leb,
  ltb, Option, none, some, length, drop, get_or, get_elem?, set, arith, add32, length-take,
  length-drop, length-set, length-append, get_or-set_self, get_or-set_ne, get_elem?-take,
  get_elem?-drop, get_elem?-append_left, get_elem?-append_right, Bool-cases, inl, inr,
}
use motion_planning_gadget_s.CircularDeque.{
  take, Deque, Allocator, linear, suffix_end, copy_to, append, append_fitting,
}
use motion_planning_gadget_s.CircularDeque.Inv.{
  slot_of, max_capacity, IsValid, Represents, mask_lem,
}
use motion_planning_gadget_s.CircularDeque.Grow.{IsHonest, grown, make_fit-Represents}

module _ {ℓ} {A : Type ℓ} where
  length-copy_to : (l : List (Option A)) (i : ℕ) (xs : List A) → length (copy_to l i xs) ≡ length l
  unfolding copy_to
  length-copy_to l i [] = refl
  length-copy_to l i (x ∷ xs) =
      length-copy_to (set l i (some x)) (i + 1) xs ∙ length-set l i (some x)

  -- A copy leaves the slots outside its range alone.
  copy_to_outside :
      (l : List (Option A)) (i j : ℕ) (xs : List A)
      → (j < i) ⊎ (i + length xs ≤ j)
      → get_or (copy_to l i xs) j none ≡ get_or l j none
  unfolding copy_to
  copy_to_outside l i j [] h = refl
  copy_to_outside l i j (x ∷ xs) h =
      copy_to_outside (set l i (some x)) (i + 1) j xs (outside h)
      ∙ get_or-set_ne l (some x) none (omega arith)
    where
      outside : (j < i) ⊎ (i + length (x ∷ xs) ≤ j) → (j < i + 1) ⊎ (i + 1 + length xs ≤ j)
      outside h = ground arith

  -- Inside its range it puts the elements in order.
  copy_to_inside :
      (l : List (Option A)) (i j k : ℕ) (xs : List A)
      → i + length xs ≤ length l
      → k < length xs
      → j ≡ i + k
      → get_or (copy_to l i xs) j none ≡ get_elem? xs k
  unfolding copy_to
  copy_to_inside l i j k [] h m e = absurd (omega arith)
  copy_to_inside l i j zero (x ∷ xs) h m e =
      let at : j ≡ i = omega arith in
      copy_to_outside (set l i (some x)) (i + 1) j xs (inl (omega arith))
      ∙ rw at (get_or-set_self l i (some x) none (omega arith))
  copy_to_inside l i j (suc k) (x ∷ xs) h m e =
      copy_to_inside (set l i (some x)) (i + 1) j k xs (omega (arith, length-set l i (some x)))
        (omega arith) (omega arith)

  -- The buffer that `append` leaves, by the two ways to write it.
  wrapped_copy : Deque A → List A → List (Option A)
  wrapped_copy d ys =
      let end = d.head + d.size in
      let segment = min (length ys) (d.capacity - end) in
      copy_to (copy_to d.slots end (take segment ys)) 0 (drop segment ys)

  wrapped_copy_old :
      (d : Deque A) (ys : List A) (k : ℕ)
      → IsValid d
      → d.head + d.size ≤ d.capacity
      → d.size + length ys ≤ d.capacity
      → k < d.size
      → get_or (wrapped_copy d ys) (slot_of d.capacity d.head k) none
        ≡ get_or d.slots (slot_of d.capacity d.head k) none
  unfolding wrapped_copy
  wrapped_copy_old d ys k v h m p =
      let segment = min (length ys) (d.capacity - (d.head + d.size)) in
      copy_to_outside _ 0 (slot_of d.capacity d.head k) (drop segment ys)
        (inr (ground (arith, length-drop segment ys)))
      ∙ copy_to_outside d.slots (d.head + d.size) (slot_of d.capacity d.head k) (take segment ys)
          (inl (ground arith))

  wrapped_copy_new :
      (d : Deque A) (ys : List A) (k : ℕ)
      → IsValid d
      → d.head + d.size ≤ d.capacity
      → d.size + length ys ≤ d.capacity
      → k < length ys
      → get_or (wrapped_copy d ys) (slot_of d.capacity d.head (d.size + k)) none ≡ get_elem? ys k
  unfolding wrapped_copy
  wrapped_copy_new d ys k v h m p =
      let end = d.head + d.size in
      let segment = min (length ys) (d.capacity - end) in
      let i = slot_of d.capacity d.head (d.size + k) in
      elim (Bool-cases (ltb (end + k) d.capacity)) [
        | inl e ↦
            copy_to_outside _ 0 i (drop segment ys) (inr (ground (arith, length-drop segment ys)))
            ∙ copy_to_inside d.slots end i k (take segment ys)
                (omega (arith, length-take segment ys, v.storage))
                (ground (arith, length-take segment ys)) (ground arith)
            ∙ get_elem?-take segment k ys (ground arith)
        | inr e ↦
            copy_to_inside _ 0 i (k - segment) (drop segment ys)
              (omega (
                arith,
                length-drop segment ys,
                length-copy_to d.slots end (take segment ys),
                v.storage,
                v.head_in,
              ))
              (ground (arith, length-drop segment ys)) (ground arith)
            ∙ get_elem?-drop segment (k - segment) k ys (ground arith)
      ]

  linear_lem : (d : Deque A) → IsValid d → linear d ≡ leb (d.head + d.size) d.capacity
  unfolding linear suffix_end
  linear_lem d v = ground arith

  -- What the new buffer has to show.
  Appended : Deque A → List A → List (Option A) → Type ℓ
  Appended d ys slots =
      (length slots ≡ d.capacity)
      × ((k : ℕ)
          → k < d.size
          → get_or slots (slot_of d.capacity d.head k) none
            ≡ get_or d.slots (slot_of d.capacity d.head k) none)
      × ((k : ℕ)
          → k < length ys
          → get_or slots (slot_of d.capacity d.head (d.size + k)) none ≡ get_elem? ys k)

  wrapped_copy-Appended :
      (d : Deque A) (ys : List A)
      → IsValid d
      → d.head + d.size ≤ d.capacity
      → d.size + length ys ≤ d.capacity
      → Appended d ys (wrapped_copy d ys)
  unfolding wrapped_copy Appended
  wrapped_copy-Appended d ys v h m = (
    length-copy_to _ 0 _ ∙ length-copy_to d.slots _ _ ∙ v.storage,
    λ k p. unfold wrapped_copy in wrapped_copy_old d ys k v h m p,
    λ k p. wrapped_copy_new d ys k v h m p,
  )

  straight_copy-Appended :
      (d : Deque A) (ys : List A)
      → IsValid d
      → d.capacity < d.head + d.size
      → d.size + length ys ≤ d.capacity
      → Appended d ys (copy_to d.slots (d.head + d.size - d.capacity) ys)
  unfolding Appended
  straight_copy-Appended d ys v h m =
      let i = d.head + d.size - d.capacity in
      (
        length-copy_to d.slots i ys ∙ v.storage,
        λ k p.
            copy_to_outside d.slots i (slot_of d.capacity d.head k) ys
              (straight_outside d ys k v h m p),
        λ k p.
            copy_to_inside d.slots i (slot_of d.capacity d.head (d.size + k)) k ys
              (omega (arith, v.storage, v.head_in)) p (ground arith),
      )
    where
      straight_outside :
          (d : Deque A) (ys : List A) (k : ℕ)
          → IsValid d
          → d.capacity < d.head + d.size
          → d.size + length ys ≤ d.capacity
          → k < d.size
          → (slot_of d.capacity d.head k < d.head + d.size - d.capacity)
            ⊎ (d.head + d.size - d.capacity + length ys ≤ slot_of d.capacity d.head k)
      straight_outside d ys k v h m p = ground (arith, v.head_in)

  append_fitting-Appended :
      (d : Deque A) (ys : List A)
      → IsValid d
      → d.size + length ys ≤ d.capacity
      → Appended d ys (append_fitting d ys).slots
  append_fitting-Appended d ys v m =
      let sum : add32 d.head d.size ≡ d.head + d.size = omega arith in
      elim (Bool-cases (leb (d.head + d.size) d.capacity)) [
        | inl e ↦
            rw (linear_lem d v, e, sum)
              (unfold wrapped_copy in wrapped_copy-Appended d ys v (ground arith) m)
        | inr e ↦
            let at : slot_of d.capacity d.head d.size ≡ d.head + d.size - d.capacity =
              ground arith in
            rw (linear_lem d v, e, sum, mask_lem d d.size v (omega arith), at)
              (straight_copy-Appended d ys v (ground arith) m)
      ]

  append_fitting-Represents :
      (d : Deque A) (xs ys : List A)
      → Represents d xs
      → d.size + length ys ≤ d.capacity
      → Represents (append_fitting d ys) (xs ++ ys)
  unfolding Appended
  append_fitting-Represents d xs ys r m =
      let v = r.valid in
      let (s, old, new) = append_fitting-Appended d ys v m in
      let sum : add32 d.size (length ys) ≡ d.size + length ys = omega arith in
      record {
        valid = record {
          storage = s;
          small_enough = v.small_enough;
          head_in = v.head_in;
          size_in = rw sum m;
        };
        counted = rw sum (omega (arith, r.counted, length-append xs ys));
        elements = λ k h. elim (Bool-cases (ltb k d.size)) [
          | inl e ↦
              old k (ground arith)
              ∙ r.elements k (ground arith)
              ∙ sym (get_elem?-append_left xs ys k (ground (arith, r.counted)))
          | inr e ↦
              let at : k ≡ d.size + (k - d.size) = ground arith in
              subst
                (λ j.
                  get_or (append_fitting d ys).slots (slot_of d.capacity d.head j) none
                  ≡ get_elem? (xs ++ ys) j)
                (sym at)
                (new (k - d.size) (ground (arith, sum))
                  ∙ sym (get_elem?-append_right xs ys _ (k - d.size) (omega (arith, r.counted))))
        ];
      }

  -- `append` puts the whole range behind the elements. If they do not fit, it first asks for the
  -- capacity that they need, which has to stay below 2 ^ 31.
  pub append-Represents :
      (m : Allocator) (d : Deque A) (xs ys : List A)
      → IsHonest m
      → d.size + length ys < max_capacity
      → grown m d.capacity (d.size + length ys) < max_capacity
      → Represents d xs
      → (d' : Deque A) × (append m d ys ≡ some d') × Represents d' (xs ++ ys)
  unfolding append
  append-Represents m d xs ys a w small r =
      let sum : add32 d.size (length ys) ≡ d.size + length ys = omega arith in
      let (d', p, r', room) = make_fit-Represents m d (d.size + length ys) xs a small r in
      (
        append_fitting d' ys,
        (rw (append, sum, p)),
        append_fitting-Represents d' xs ys r' (omega (arith, r.counted, r'.counted)),
      )
