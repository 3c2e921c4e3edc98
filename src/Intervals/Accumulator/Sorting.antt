-- ===== src/Intervals/Accumulator/Sorting.antt =====
-- src/intervals.hpp: sorting and deduplicating the buffers of `interval_accumulator` keeps their sets.
use motion_planning_gadget_s.Common.{
  ℕ, suc, List, [], ◌∷◌, ◌==◌, ◌+◌, ◌≤◌, ◌<◌, ◌≡◌, refl, ◌∙◌, ◌||◌, word, arith,
}
use motion_planning_gadget_s.Intervals.Sets.{Interval, covers, in_interval, SortedFrom}
use motion_planning_gadget_s.Intervals.Points.RoundTrip.{elem, Increasing}
use motion_planning_gadget_s.Intervals.Accumulator.{
  insert_number, sort_numbers, insert_interval, sort_intervals, unique_after, unique,
}

-- Sorted numbers from `lo` on, none of them the last 64-bit number.
abbrev pub SortedNumbers : ℕ → List ℕ → Type 0
SortedNumbers lo [] = Unit
SortedNumbers lo (x ∷ xs) = (lo ≤ x) × (x + 1 < word) × SortedNumbers x xs

-- No number is the last 64-bit number.
abbrev pub Fit : List ℕ → Type 0
Fit [] = Unit
Fit (x ∷ xs) = (x + 1 < word) × Fit xs

abbrev pub Nonempty : List Interval → Type 0
Nonempty [] = Unit
Nonempty (i ∷ l) = (i.0 < i.1) × Nonempty l

insert_number-SortedNumbers :
    (lo x : ℕ) (xs : List ℕ)
    → lo ≤ x
    → x + 1 < word
    → SortedNumbers lo xs
    → SortedNumbers lo (insert_number x xs)
unfolding insert_number
insert_number-SortedNumbers lo x [] h w s = (h, w, tt)
insert_number-SortedNumbers lo x (y ∷ ys) h w s = ground (arith, insert_number-SortedNumbers y x ys)

sort_numbers-SortedNumbers : (xs : List ℕ) → Fit xs → SortedNumbers 0 (sort_numbers xs)
unfolding sort_numbers
sort_numbers-SortedNumbers [] w = tt
sort_numbers-SortedNumbers (x ∷ xs) w =
    insert_number-SortedNumbers 0 x (sort_numbers xs) (omega arith) w.0
      (sort_numbers-SortedNumbers xs w.1)

elem-insert_number : (z x : ℕ) (xs : List ℕ) → elem z (insert_number x xs) ≡ (z == x || elem z xs)
unfolding insert_number
elem-insert_number z x [] = refl
elem-insert_number z x (y ∷ ys) = ground (arith, elem-insert_number z x ys)

elem-sort_numbers : (z : ℕ) (xs : List ℕ) → elem z (sort_numbers xs) ≡ elem z xs
unfolding sort_numbers
elem-sort_numbers z [] = refl
elem-sort_numbers z (x ∷ xs) =
    ground (arith, elem-insert_number z x (sort_numbers xs), elem-sort_numbers z xs)

unique_after-Increasing :
    (x : ℕ) (xs : List ℕ) → SortedNumbers x xs → Increasing (suc x) (unique_after x xs)
unfolding unique_after
unique_after-Increasing x [] s = tt
unique_after-Increasing x (y ∷ ys) s =
    ground (arith, unique_after-Increasing x ys, unique_after-Increasing y ys)

elem-unique_after :
    (z x : ℕ) (xs : List ℕ) → (z == x || elem z (unique_after x xs)) ≡ (z == x || elem z xs)
unfolding unique_after
elem-unique_after z x [] = refl
elem-unique_after z x (y ∷ ys) = ground (arith, elem-unique_after z x ys, elem-unique_after z y ys)

pub unique-sort_numbers-Increasing :
    (xs : List ℕ) → Fit xs → Increasing 0 (unique (sort_numbers xs))
unique-sort_numbers-Increasing xs w = go (sort_numbers xs) (sort_numbers-SortedNumbers xs w)
  where
    go : (ys : List ℕ) → SortedNumbers 0 ys → Increasing 0 (unique ys)
    go [] s = unfold unique in tt
    go (y ∷ ys) s = unfold unique in (s.0, s.1, unique_after-Increasing y ys s.2)

elem-unique : (z : ℕ) (xs : List ℕ) → elem z (unique xs) ≡ elem z xs
unfolding unique
elem-unique z [] = refl
elem-unique z (x ∷ xs) = elem-unique_after z x xs

pub elem-unique-sort_numbers : (z : ℕ) (xs : List ℕ) → elem z (unique (sort_numbers xs)) ≡ elem z xs
elem-unique-sort_numbers z xs = elem-unique z (sort_numbers xs) ∙ elem-sort_numbers z xs

insert_interval-SortedFrom :
    (lo : ℕ) (i : Interval) (l : List Interval)
    → lo ≤ i.0
    → i.0 < i.1
    → SortedFrom lo l
    → SortedFrom lo (insert_interval i l)
unfolding insert_interval
insert_interval-SortedFrom lo i [] h k s = (h, k, tt)
insert_interval-SortedFrom lo (a, b) ((c, e) ∷ l) h k s =
    ground (arith, insert_interval-SortedFrom c (a, b) l)

pub sort_intervals-SortedFrom : (l : List Interval) → Nonempty l → SortedFrom 0 (sort_intervals l)
unfolding sort_intervals
sort_intervals-SortedFrom [] n = tt
sort_intervals-SortedFrom (i ∷ l) n =
    insert_interval-SortedFrom 0 i (sort_intervals l) (omega arith) n.0
      (sort_intervals-SortedFrom l n.1)

covers-insert_interval :
    (x : ℕ) (i : Interval) (l : List Interval)
    → covers x (insert_interval i l) ≡ (in_interval x i || covers x l)
unfolding insert_interval
covers-insert_interval x i [] = refl
covers-insert_interval x i (j ∷ l) = ground (arith, covers-insert_interval x i l)

pub covers-sort_intervals : (x : ℕ) (l : List Interval) → covers x (sort_intervals l) ≡ covers x l
unfolding sort_intervals
covers-sort_intervals x [] = refl
covers-sort_intervals x (i ∷ l) =
    ground (arith, covers-insert_interval x i (sort_intervals l), covers-sort_intervals x l)
