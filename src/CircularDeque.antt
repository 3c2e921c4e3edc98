-- ===== src/CircularDeque.antt =====
-- src/circular_deque.hpp and src/circular_deque.tcc: a double-ended queue in a circular buffer.
-- A slot of raw storage is `none` where no element lives. Indices are `size_type`, 32 bits wide.
pub mod Inv
pub mod Ends
pub mod Grow
pub mod Append
use motion_planning_gadget_s.Common.{
  ℕ, zero, suc, ◌+◌, ◌-◌, ◌*◌, ◌/◌, ◌%◌, ◌<◌, min, max, List, [], ◌∷◌, ◌++◌, map, Bool, true, false,
  not,
}
use motion_planning_gadget_s.Common.{
  ◌==◌, leb, ltb, if◌then◌else◌, Option, none, some, length, get_or, set, take, drop, replicate,
  add32, sub32, word32,
}

-- `circular_deque_base<T>`; `small` is `data_ == &first_`.
pub record Deque {ℓ} (A : Type ℓ) : Type ℓ where
  pub slots : List (Option A)
  pub capacity : ℕ
  pub head : ℕ
  pub size : ℕ
  pub small : Bool

-- What jemalloc gives: `sizeof(T)`, and `nallocx`, the size in bytes of the block for a request.
pub record Allocator : Type 0 where
  pub size_of : ℕ
  pub nallocx : ℕ → ℕ

module _ {ℓ} {A : Type ℓ} where
  -- The constructor of `circular_deque<T, N>`.
  pub create : ℕ → Deque A
  create n = record { slots = replicate n none; capacity = n; head = 0; size = 0; small = true }

  pub is_empty : Deque A → Bool
  is_empty d = d.size == 0

  pub mask : Deque A → ℕ → ℕ
  mask d i = if leb d.capacity i then sub32 i d.capacity else i

  pub inc : Deque A → ℕ → ℕ
  inc d i = if leb d.capacity (add32 i 1) then 0 else add32 i 1

  -- `i-1` underflows at 0, deliberately.
  pub dec : Deque A → ℕ → ℕ
  dec d i = if leb d.capacity (sub32 i 1) then sub32 d.capacity 1 else sub32 i 1

  -- The ends of the two segments of present elements, as offsets from `data_`.
  pub prefix_end : Deque A → ℕ
  prefix_end d = min (add32 d.head d.size) d.capacity

  pub suffix_end : Deque A → ℕ
  suffix_end d = if ltb d.capacity (add32 d.head d.size) then d.head + d.size - d.capacity else 0

  pub linear : Deque A → Bool
  unfolding suffix_end
  linear d = suffix_end d == 0

  pub full : Deque A → Bool
  full d = d.size == d.capacity

  pub front : Deque A → Option A
  front d = get_or d.slots d.head none

  pub back : Deque A → Option A
  unfolding mask
  back d = get_or d.slots (mask d (sub32 (add32 d.head d.size) 1)) none

  -- The elements of the prefix and then of the suffix, as `ensureCapacity` moves them.
  pub segments : Deque A → List (Option A)
  unfolding prefix_end suffix_end
  segments d = take (prefix_end d - d.head) (drop d.head d.slots) ++ take (suffix_end d) d.slots

  -- `none` is the failure of the `numeric_cast` of the new capacity.
  pub ensure_capacity : Allocator → Deque A → ℕ → Option (Deque A)
  unfolding segments
  ensure_capacity m d min_capacity =
      let target = max ((2 * d.capacity) % word32) min_capacity in
      let actual = m.nallocx (target * m.size_of) / m.size_of in
      let moved = segments d in
      if ltb actual word32
      then some (record {
        slots = moved ++ replicate (actual - length moved) none;
        capacity = actual;
        head = 0;
        size = length moved;
        small = false;
      })
      else none

  -- `if (n > capacity()) ensureCapacity(n);`, of `reserve` and `append`
  pub make_fit : Allocator → Deque A → ℕ → Option (Deque A)
  unfolding ensure_capacity
  make_fit m d n = if ltb d.capacity n then ensure_capacity m d n else some d

  pub reserve : Allocator → Deque A → ℕ → Option (Deque A × ℕ)
  reserve m d min_capacity = elim (make_fit m d min_capacity) [
    | none ↦ none
    | some d' ↦ some (d', d'.capacity)
  ]

  -- `if (full()) ensureCapacity();`
  pub make_room : Allocator → Deque A → Option (Deque A)
  unfolding full ensure_capacity
  make_room m d = if full d then ensure_capacity m d 0 else some d

  abbrev pub put_front : Deque A → A → Deque A
  put_front d e =
      let h = dec d d.head in
      record d { slots = set d.slots h (some e); head = h; size = add32 d.size 1 }

  abbrev pub put_back : Deque A → A → Deque A
  put_back d e = record d {
    slots = set d.slots (mask d (add32 d.head d.size)) (some e);
    size = add32 d.size 1;
  }

  -- Also `push_front(T&&)` and `emplace_front`, and so for `push_back`.
  pub push_front : Allocator → Deque A → A → Option (Deque A)
  unfolding dec
  push_front m d e = elim (make_room m d) [ none ↦ none | some d' ↦ some (put_front d' e) ]

  pub push_back : Allocator → Deque A → A → Option (Deque A)
  unfolding mask
  push_back m d e = elim (make_room m d) [ none ↦ none | some d' ↦ some (put_back d' e) ]

  -- The option is the element returned, `none` if the slot held none.
  pub pop_front : Deque A → Option A × Deque A
  unfolding front inc
  pop_front d = (
    front d,
    record d { slots = set d.slots d.head none; head = inc d d.head; size = sub32 d.size 1 },
  )

  pub pop_back : Deque A → Option A × Deque A
  unfolding back mask
  pop_back d =
      let n = sub32 d.size 1 in
      (back d, record d { slots = set d.slots (mask d (add32 d.head n)) none; size = n })

  -- `std::destroy` of the slots from `i` to `j`
  pub destroy_range : List (Option A) → ℕ → ℕ → List (Option A)
  destroy_range l i zero = l
  destroy_range l i (suc n) = destroy_range (set l i none) (i + 1) n

  pub clear : Deque A → Deque A
  unfolding destroy_range prefix_end suffix_end
  clear d = record d {
    slots = destroy_range (destroy_range d.slots d.head (prefix_end d - d.head)) 0 (suffix_end d);
    head = 0;
    size = 0;
  }

  -- `std::uninitialized_copy` to the slots from `i` on
  pub copy_to : List (Option A) → ℕ → List A → List (Option A)
  copy_to l i [] = l
  copy_to l i (x ∷ xs) = copy_to (set l i (some x)) (i + 1) xs

  abbrev pub append_fitting : Deque A → List A → Deque A
  append_fitting d xs =
      let end = add32 d.head d.size in
      let segment = min (length xs) (d.capacity - end) in
      let two = copy_to (copy_to d.slots end (take segment xs)) 0 (drop segment xs) in
      let one = copy_to d.slots (mask d end) xs in
      record d { slots = if linear d then two else one; size = add32 d.size (length xs) }

  -- The range `[first, last)` is the list `xs`.
  pub append : Allocator → Deque A → List A → Option (Deque A)
  unfolding mask linear copy_to
  append m d xs = elim (make_fit m d (add32 d.size (length xs))) [
    | none ↦ none
    | some d' ↦ some (append_fitting d' xs)
  ]
