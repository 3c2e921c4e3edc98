-- ===== src/CircularDeque/Grow.antt =====
-- src/circular_deque.tcc: `ensureCapacity` keeps the elements, so `push_front` and `push_back` work
-- on a full buffer too.
use motion_planning_gadget_s.Common.{
  ℕ, ◌-◌, ◌*◌, ◌/◌, ◌%◌, ◌≤◌, ◌<◌, ◌≡◌, ◌∙◌, ap, min, max, List, [], ◌∷◌, ◌++◌, ltb, ◌==◌, none,
  some, length, take, drop, replicate, get_or, arith, word32, length-replicate, length-take,
  length-drop, length-append, get_or-append_left, get_or-append_right, get_or-take, get_or-drop,
  Bool-cases, inl, inr, true, false,
}
use motion_planning_gadget_s.CircularDeque.{
  Option, Deque, Allocator, full, segments, prefix_end, suffix_end, ensure_capacity, make_fit,
  make_room, put_front, put_back, push_front, push_back,
}
use motion_planning_gadget_s.CircularDeque.Inv.{slot_of, max_capacity, IsValid, Represents}
use motion_planning_gadget_s.CircularDeque.Ends.{put_front-Represents, put_back-Represents}

-- What the deque relies on: elements have a size, and a block is no smaller than the request.
pub record IsHonest (m : Allocator) : Type 0 where
  pub sized : 0 < m.size_of
  pub large_enough : (n : ℕ) → n ≤ m.nallocx n

-- The capacity that `ensureCapacity` arrives at.
abbrev pub grown : Allocator → ℕ → ℕ → ℕ
grown m capacity min_capacity =
    m.nallocx (max ((2 * capacity) % word32) min_capacity * m.size_of) / m.size_of

le-mul_div : (t s n : ℕ) → 0 < s → t * s ≤ n → t ≤ n / s
le-mul_div t s n h k = grind arith

grown-ge :
    (m : Allocator) (capacity min_capacity : ℕ)
    → IsHonest m
    → capacity < max_capacity
    → max (2 * capacity) min_capacity ≤ grown m capacity min_capacity
grown-ge m capacity min_capacity a h =
    let double : (2 * capacity) % word32 ≡ 2 * capacity = omega arith in
    rw double (
      le-mul_div (max (2 * capacity) min_capacity) m.size_of _ a.sized
        (a.large_enough (max (2 * capacity) min_capacity * m.size_of)))

module _ {ℓ} {A : Type ℓ} where
  -- The lengths of the two segments.
  prefix_lem : (d : Deque A) → IsValid d → prefix_end d - d.head ≡ min d.size (d.capacity - d.head)
  unfolding prefix_end
  prefix_lem d v = omega arith

  suffix_lem : (d : Deque A) → IsValid d → suffix_end d ≡ d.size - (d.capacity - d.head)
  unfolding suffix_end
  suffix_lem d v = ground arith

  length-prefix :
      (d : Deque A)
      → IsValid d
      → length (take (prefix_end d - d.head) (drop d.head d.slots))
        ≡ min d.size (d.capacity - d.head)
  length-prefix d v = omega (
    arith,
    length-take (prefix_end d - d.head) (drop d.head d.slots),
    length-drop d.head d.slots,
    prefix_lem d v,
    v.storage,
  )

  pub length-segments : (d : Deque A) → IsValid d → length (segments d) ≡ d.size
  unfolding segments
  length-segments d v =
      let front = take (prefix_end d - d.head) (drop d.head d.slots) in
      omega (
        arith,
        length-append front (take (suffix_end d) d.slots),
        length-prefix d v,
        length-take (suffix_end d) d.slots,
        suffix_lem d v,
        v.storage,
      )

  pub get_or-segments :
      (d : Deque A) (k : ℕ)
      → IsValid d
      → k < d.size
      → get_or (segments d) k none ≡ get_or d.slots (slot_of d.capacity d.head k) none
  unfolding segments
  get_or-segments d k v h =
      let n = prefix_end d - d.head in
      let front = take n (drop d.head d.slots) in
      elim (Bool-cases (ltb k (d.capacity - d.head))) [
        | inl e ↦
            get_or-append_left front _ k none (ground (arith, length-prefix d v))
            ∙ get_or-take n k (drop d.head d.slots) none (ground (arith, prefix_lem d v))
            ∙ get_or-drop d.head k (slot_of d.capacity d.head k) d.slots none (ground arith)
        | inr e ↦
            let j = k - (d.capacity - d.head) in
            get_or-append_right front _ k j none (ground (arith, length-prefix d v))
            ∙ get_or-take (suffix_end d) j d.slots none (ground (arith, suffix_lem d v))
            ∙ ap (λ i. get_or d.slots i none) (ground arith)
      ]

  -- If the new capacity stays below 2 ^ 31, `ensureCapacity` gives the deque at least twice its
  -- capacity and at least the demanded one, and keeps its elements in order.
  pub ensure_capacity-Represents :
      (m : Allocator) (d : Deque A) (min_capacity : ℕ) (xs : List A)
      → IsHonest m
      → grown m d.capacity min_capacity < max_capacity
      → Represents d xs
      → (d' : Deque A) × (ensure_capacity m d min_capacity ≡ some d')
        × Represents d' xs
        × (max (2 * d.capacity) min_capacity ≤ d'.capacity)
  unfolding ensure_capacity
  ensure_capacity-Represents m d min_capacity xs a small r =
      let v = r.valid in
      let actual = grown m d.capacity min_capacity in
      let moved = segments d in
      let enough = grown-ge m d.capacity min_capacity a v.small_enough in
      let count = length-segments d v in
      (
        record {
          slots = moved ++ replicate (actual - length moved) none;
          capacity = actual;
          head = 0;
          size = length moved;
          small = false;
        },
        (let fits : ltb actual word32 ≡ true = ground arith in rw fits),
        record {
          valid = record {
            storage = omega (
              arith,
              length-append moved (replicate (actual - length moved) none),
              length-replicate {A = Option A} (actual - length moved) none,
              count,
              enough,
              v.size_in,
            );
            small_enough = small;
            head_in = omega (arith, enough, v.head_in);
            size_in = omega (arith, count, enough, v.size_in);
          };
          counted = count ∙ r.counted;
          elements = λ k h.
              let at : slot_of actual 0 k ≡ k = ground (arith, count, enough, v.size_in) in
              rw at (
                get_or-append_left moved _ k none h
                ∙ get_or-segments d k v (omega (arith, count))
                ∙ r.elements k (omega (arith, count)));
        },
        enough,
      )

  make_room-Represents :
      (m : Allocator) (d : Deque A) (xs : List A)
      → IsHonest m
      → grown m d.capacity 0 < max_capacity
      → Represents d xs
      → (d' : Deque A) × (make_room m d ≡ some d') × Represents d' xs × (d'.size < d'.capacity)
  unfolding make_room full
  make_room-Represents m d xs a small r = elim (Bool-cases (d.size == d.capacity)) [
    | inl e ↦
        let (d', p, r', c) = ensure_capacity-Represents m d 0 xs a small r in
        (d', rw e p, r', ground (arith, r.counted, r'.counted, r.valid.head_in))
    | inr e ↦ (d, rw e, r, ground (arith, r.valid.size_in))
  ]

  -- `push_back` appends the element, also to a full deque, if a doubled capacity stays below 2 ^ 31.
  pub push_back-Represents :
      (m : Allocator) (d : Deque A) (xs : List A) (x : A)
      → IsHonest m
      → grown m d.capacity 0 < max_capacity
      → Represents d xs
      → (d' : Deque A) × (push_back m d x ≡ some d') × Represents d' (xs ++ (x ∷ []))
  unfolding push_back
  push_back-Represents m d xs x a small r =
      let (d', p, r', room) = make_room-Represents m d xs a small r in
      (put_back d' x, rw (p, push_back), put_back-Represents d' xs x r' room)

  -- `push_front` puts the element in front, also on a full deque, if a doubled capacity stays below
  -- 2 ^ 31.
  pub push_front-Represents :
      (m : Allocator) (d : Deque A) (xs : List A) (x : A)
      → IsHonest m
      → grown m d.capacity 0 < max_capacity
      → Represents d xs
      → (d' : Deque A) × (push_front m d x ≡ some d') × Represents d' (x ∷ xs)
  unfolding push_front
  push_front-Represents m d xs x a small r =
      let (d', p, r', room) = make_room-Represents m d xs a small r in
      (put_front d' x, rw (p, push_front), put_front-Represents d' xs x r' room)

  pub make_fit-Represents :
      (m : Allocator) (d : Deque A) (n : ℕ) (xs : List A)
      → IsHonest m
      → grown m d.capacity n < max_capacity
      → Represents d xs
      → (d' : Deque A) × (make_fit m d n ≡ some d') × Represents d' xs × (n ≤ d'.capacity)
  unfolding make_fit
  make_fit-Represents m d n xs a small r = elim (Bool-cases (ltb d.capacity n)) [
    | inl e ↦
        let (d', p, r', c) = ensure_capacity-Represents m d n xs a small r in
        (d', rw e p, r', omega arith)
    | inr e ↦ (d, rw e, r, ground arith)
  ]
