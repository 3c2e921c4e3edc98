-- ===== src/Intervals/Accumulator/Correct.antt =====
-- src/intervals.hpp: `interval_accumulator::finish` returns the set of everything that was added.
use motion_planning_gadget_s.Common.{
  ℕ, suc, List, [], ◌∷◌, ◌++◌, ◌==◌, length, ◌+◌, ◌<◌, ◌≡◌, ◌∙◌, ◌||◌, Bool, false, Bool-cases, inl,
  inr, word, arith, some,
}
use motion_planning_gadget_s.Intervals.Sets.{
  Interval, covers, covers-append, IsMaximal, MaximalFrom,
}
use motion_planning_gadget_s.Intervals.Points.RoundTrip.{elem, maximal_intervals_lem}
use motion_planning_gadget_s.Intervals.Points.{maximal_intervals}
use motion_planning_gadget_s.Intervals.Merge.Coalesce.{interval_coalesce_lem}
use motion_planning_gadget_s.Intervals.Accumulator.{
  IntervalAccumulator, sort_numbers, sort_intervals, unique, create, drain_buffer, add, add_all,
  finish,
}
use motion_planning_gadget_s.Intervals.Accumulator.Sorting.{
  Fit, Nonempty, unique-sort_numbers-Increasing, elem-unique-sort_numbers,
  sort_intervals-SortedFrom, covers-sort_intervals,
}

-- The accumulator holds the numbers that `has` tells.
record Holds (a : IntervalAccumulator) (has : ℕ → Bool) : Type 0 where
  fit : Fit a.buf
  nonempty : Nonempty a.accum
  members : (x : ℕ) → (covers x a.accum || elem x a.buf) ≡ has x

Nonempty-of_maximal : (lo : ℕ) (l : List Interval) → MaximalFrom lo l → Nonempty l
Nonempty-of_maximal lo [] m = tt
Nonempty-of_maximal lo ((a, b) ∷ l) m = (m.1, Nonempty-of_maximal (suc b) l m.2)

Nonempty-append : (l m : List Interval) → Nonempty l → Nonempty m → Nonempty (l ++ m)
Nonempty-append [] m p q = q
Nonempty-append (i ∷ l) m p q = (p.0, Nonempty-append l m p.1 q)

Fit-append : (xs : List ℕ) (x : ℕ) → Fit xs → x + 1 < word → Fit (xs ++ (x ∷ []))
Fit-append [] x p q = (q, tt)
Fit-append (y ∷ ys) x p q = (p.0, Fit-append ys x p.1 q)

elem-snoc : (z x : ℕ) (xs : List ℕ) → elem z (xs ++ (x ∷ [])) ≡ (elem z xs || z == x)
elem-snoc z x [] = ground arith
elem-snoc z x (y ∷ ys) = ground (arith, elem-snoc z x ys)

drain_buffer-Holds :
    (a : IntervalAccumulator) (has : ℕ → Bool) → Holds a has → Holds (drain_buffer a) has
unfolding drain_buffer
drain_buffer-Holds a has h =
    let batch = unique (sort_numbers a.buf) in
    let (m, c) = maximal_intervals_lem batch (unique-sort_numbers-Increasing a.buf h.fit) in
    record {
      fit = tt;
      nonempty = Nonempty-append a.accum _ h.nonempty (Nonempty-of_maximal 0 _ m);
      members = λ x. ground (
        arith,
        covers-append x a.accum (maximal_intervals batch),
        c x,
        elem-unique-sort_numbers x a.buf,
        h.members x,
      );
    }

push-Holds :
    (a : IntervalAccumulator) (has : ℕ → Bool) (x : ℕ)
    → x + 1 < word
    → Holds a has
    → Holds (record a { buf = a.buf ++ (x ∷ []) }) (λ z. has z || z == x)
push-Holds a has x w h = record {
  fit = Fit-append a.buf x h.fit w;
  nonempty = h.nonempty;
  members = λ z. ground (arith, elem-snoc z x a.buf, h.members z);
}

add-Holds :
    (a : IntervalAccumulator) (has : ℕ → Bool) (x : ℕ)
    → x + 1 < word
    → Holds a has
    → Holds (add a x) (λ z. has z || z == x)
unfolding add
add-Holds a has x w h = elim (Bool-cases (length a.buf == a.capacity)) [
  | inl full ↦ rw full (push-Holds (drain_buffer a) has x w (drain_buffer-Holds a has h))
  | inr room ↦ rw room (push-Holds a has x w h)
]

add_all-Holds :
    (a : IntervalAccumulator) (has : ℕ → Bool) (xs : List ℕ)
    → Fit xs
    → Holds a has
    → Holds (add_all a xs) (λ z. has z || elem z xs)
unfolding add_all
add_all-Holds a has [] w h = record {
  fit = h.fit;
  nonempty = h.nonempty;
  members = λ z. ground (arith, h.members z);
}
add_all-Holds a has (x ∷ xs) w h =
    let k = add_all-Holds (add a x) (λ z. has z || z == x) xs w.1 (add-Holds a has x w.0 h) in
    record { fit = k.fit; nonempty = k.nonempty; members = λ z. k.members z ∙ ground arith }

finish-Holds :
    (a : IntervalAccumulator) (has : ℕ → Bool)
    → Holds a has
    → IsMaximal (finish a) × ((x : ℕ) → covers x (finish a) ≡ has x)
unfolding finish drain_buffer
finish-Holds a has h =
    let k = drain_buffer-Holds a has h in
    let all = (drain_buffer a).accum in
    let (m, c) =
      interval_coalesce_lem (sort_intervals all) (sort_intervals-SortedFrom all k.nonempty) in
    (m, λ x. c x ∙ covers-sort_intervals x all ∙ ground (arith, k.members x))

-- Whatever the buffer capacity and the order of the numbers, `finish` returns the maximal interval
-- list of exactly the numbers that were added, if the last 64-bit number is not among them.
pub finish-add_all :
    (buffer_capacity : ℕ) (a : IntervalAccumulator) (xs : List ℕ)
    → create buffer_capacity ≡ some a
    → Fit xs
    → IsMaximal (finish (add_all a xs)) × ((x : ℕ) → covers x (finish (add_all a xs)) ≡ elem x xs)
unfolding create
finish-add_all n a xs e w = finish-Holds (add_all a xs) _ (add_all-Holds a (λ z. false) xs w fresh)
  where
    fresh : Holds a (λ z. false)
    fresh = record { fit = ground arith; nonempty = ground arith; members = λ z. ground arith }
