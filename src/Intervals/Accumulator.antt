-- ===== src/Intervals/Accumulator.antt =====
-- src/intervals.hpp: `interval_accumulator` at `T = std::uint64_t`.
pub mod Sorting
pub mod Correct
use motion_planning_gadget_s.Common.{
  ℕ, List, [], ◌∷◌, ◌++◌, ◌==◌, leb, ltb, if◌then◌else◌, length, Option, none, some, ◌&&◌, ◌||◌,
  Bool,
}
use motion_planning_gadget_s.Intervals.Sets.{Interval}
use motion_planning_gadget_s.Intervals.Merge.{interval_coalesce}
use motion_planning_gadget_s.Intervals.Points.{maximal_intervals}

-- The class: `capacity` is `buf.capacity()`.
pub record IntervalAccumulator : Type 0 where
  pub accum : List Interval
  pub buf : List ℕ
  pub capacity : ℕ

-- `std::sort`, on numbers and on pairs in their lexicographic order
unfoldable pub insert_number : ℕ → List ℕ → List ℕ
insert_number x [] = x ∷ []
insert_number x (y ∷ ys) = if leb x y then x ∷ y ∷ ys else y ∷ insert_number x ys

unfoldable pub sort_numbers : List ℕ → List ℕ
unfolding insert_number
sort_numbers [] = []
sort_numbers (x ∷ xs) = insert_number x (sort_numbers xs)

abbrev pub pair_le : Interval → Interval → Bool
pair_le i j = ltb i.0 j.0 || (i.0 == j.0 && leb i.1 j.1)

pub insert_interval : Interval → List Interval → List Interval
insert_interval x [] = x ∷ []
insert_interval x (y ∷ ys) = if pair_le x y then x ∷ y ∷ ys else y ∷ insert_interval x ys

unfoldable pub sort_intervals : List Interval → List Interval
unfolding insert_interval
sort_intervals [] = []
sort_intervals (x ∷ xs) = insert_interval x (sort_intervals xs)

-- `buf.erase(std::unique(buf.begin(), buf.end()), buf.end())`: of equal neighbours the first stays.
pub unique_after : ℕ → List ℕ → List ℕ
unique_after x [] = []
unique_after x (y ∷ ys) = if x == y then unique_after x ys else y ∷ unique_after y ys

unfoldable pub unique : List ℕ → List ℕ
unfolding unique_after
unique [] = []
unique (x ∷ xs) = x ∷ unique_after x xs

-- The constructor; `none` is its `std::length_error`.
unfoldable pub create : ℕ → Option IntervalAccumulator
create buffer_capacity =
    if buffer_capacity == 0
    then none
    else some (record { accum = []; buf = []; capacity = buffer_capacity })

pub drain_buffer : IntervalAccumulator → IntervalAccumulator
drain_buffer a = record a {
  accum = a.accum ++ maximal_intervals (unique (sort_numbers a.buf));
  buf = [];
}

-- `operator()`
pub add : IntervalAccumulator → ℕ → IntervalAccumulator
unfolding drain_buffer
add a x =
    let drained = if length a.buf == a.capacity then drain_buffer a else a in
    record drained { buf = drained.buf ++ (x ∷ []) }

pub finish : IntervalAccumulator → List Interval
unfolding drain_buffer
finish a = interval_coalesce (sort_intervals (drain_buffer a).accum)

-- A client's calls `accumulator(x)` in order, and then `std::move(accumulator).finish()`.
unfoldable pub add_all : IntervalAccumulator → List ℕ → IntervalAccumulator
unfolding add
add_all a [] = a
add_all a (x ∷ xs) = add_all (add a x) xs
