-- ===== src/Intervals/Sweep.antt =====
-- src/intervals.hpp: `interval_overlap`, `interval_intersection`, `interval_difference`.
pub mod Intersection
pub mod Overlap
pub mod Difference
use motion_planning_gadget_s.Common.{
  ℕ, zero, suc, ◌+◌, ◌*◌, max, min, List, [], ◌∷◌, leb, ltb, ◌==◌,
}
use motion_planning_gadget_s.Common.{if◌then◌else◌, Bool, true, false, ◌&&◌, ◌||◌, length}
use motion_planning_gadget_s.Common.{Option, none, some}
use motion_planning_gadget_s.Intervals.Sets.{Interval}

-- `struct overlap_result`
pub data OverlapResult : Type 0 where
  overlap adjacent separate : OverlapResult

-- The test of the loop of `interval_overlap`.
abbrev pub overlapping : Interval → Interval → Bool
overlapping l r = (leb r.0 l.0 && ltb l.0 r.1) || (leb l.0 r.0 && ltb r.0 l.1)

abbrev pub touching : Interval → Interval → Bool
touching l r = l.1 == r.0 || r.1 == l.0

pub overlap_loop : Bool → List Interval → List Interval → OverlapResult
overlap_loop adj [] right = if adj then adjacent else separate
overlap_loop adj (l ∷ left) [] = if adj then adjacent else separate
overlap_loop adj (l ∷ left) (r ∷ right) =
    let adj' = adj || touching l r in
    let next_left = overlap_loop adj' left (r ∷ right) in
    let next_right = overlap_loop adj' (l ∷ left) right in
    if overlapping l r then overlap else if ltb l.0 r.0 then next_left else next_right

pub interval_overlap : List Interval → List Interval → OverlapResult
interval_overlap left right = overlap_loop false left right

-- One round of the loop of `interval_intersection` on the heads `l` and `r`, given what the loop
-- pushes after `++left`, after `++right` and after both.
pub intersection_round :
    Interval → Interval → List Interval → List Interval → List Interval → List Interval
intersection_round l r next_left next_right next_both =
    if leb l.1 r.0
    then next_left
    else if leb r.1 l.0
    then next_right
    else (max l.0 r.0, min l.1 r.1)
      ∷ (if ltb l.1 r.1 then next_left else if ltb r.1 l.1 then next_right else next_both)

-- The vector `ret` is the list of what the loop pushes, in order.
unfoldable pub interval_intersection : List Interval → List Interval → List Interval
interval_intersection [] right = []
interval_intersection (l ∷ left) [] = []
interval_intersection (l ∷ left) (r ∷ right) =
    intersection_round l r (interval_intersection left (r ∷ right))
      (interval_intersection (l ∷ left) right) (interval_intersection left right)

-- `ret.emplace_back`, in front of what the rest of the loop pushes
abbrev pub emit : Interval → Option (List Interval) → Option (List Interval)
emit i none = none
emit i (some l) = some (i ∷ l)

-- The code behind the loop of `interval_difference`, for `left != left_end`.
abbrev pub leftover : ℕ → Interval → List Interval → List Interval
leftover pos l left = if ltb l.0 pos then (pos, l.1) ∷ left else l ∷ left

-- The sweep of `interval_difference`. A round may change `pos` alone, so the loop is on fuel: `none`
-- means that the fuel ran out.
pub difference_loop : ℕ → ℕ → List Interval → List Interval → Option (List Interval)
difference_loop fuel pos [] right = some []
difference_loop fuel pos (l ∷ left) [] = some (leftover pos l left)
difference_loop zero pos (l ∷ left) (r ∷ right) = none
difference_loop (suc fuel) pos (l ∷ left) (r ∷ right) =
    let elf = max pos l.0 in
    let erf = max pos r.0 in
    let whole = emit (elf, l.1) (difference_loop fuel l.1 left (r ∷ right)) in
    let cut = emit (elf, r.0) (difference_loop fuel r.0 (l ∷ left) (r ∷ right)) in
    let skip = difference_loop fuel l.0 (l ∷ left) right in
    let stay = difference_loop fuel l.0 (l ∷ left) (r ∷ right) in
    let left_ends = difference_loop fuel l.1 left (r ∷ right) in
    let right_ends = difference_loop fuel r.1 (l ∷ left) right in
    let both_end = difference_loop fuel l.1 left right in
    if ltb elf erf
    then if leb l.1 r.0 then whole else cut
    else if ltb erf elf
    then if leb r.1 l.0 then skip else stay
    else if ltb l.1 r.1
    then left_ends
    else if ltb r.1 l.1
    then right_ends
    else both_end

-- Each round drops an interval or makes the effective first ends equal, and then the next drops one.
unfoldable pub interval_difference : List Interval → List Interval → Option (List Interval)
interval_difference [] right = some []
interval_difference (l ∷ left) [] = some (l ∷ left)
interval_difference (l ∷ left) (r ∷ right) =
    difference_loop (2 * (length (l ∷ left) + length (r ∷ right)) + 1) (min l.0 r.0) (l ∷ left)
      (r ∷ right)
