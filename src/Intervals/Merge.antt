-- ===== src/Intervals/Merge.antt =====
-- src/intervals.hpp: `interval_coalesce` and `interval_union`.
pub mod Coalesce
pub mod Union
pub mod Limits
use motion_planning_gadget_s.Common.{ℕ, max, List, [], ◌∷◌, leb, ltb, if◌then◌else◌}
use motion_planning_gadget_s.Intervals.Sets.{Interval}

-- One round on the output vector `ret`: extend `ret.back()` if the next interval starts within it
-- or at its end, and push otherwise. On an empty vector the callers push.
pub absorb : List Interval → Interval → List Interval
absorb [] i = i ∷ []
absorb (r ∷ []) i = if leb i.0 r.1 then (r.0, max r.1 i.1) ∷ [] else r ∷ i ∷ []
absorb (r ∷ s ∷ rs) i = r ∷ absorb (s ∷ rs) i

-- `while (left != left_end)` of `interval_coalesce`, and each epilogue of `interval_union`
pub absorb_all : List Interval → List Interval → List Interval
absorb_all ret [] = ret
absorb_all ret (i ∷ left) = absorb_all (absorb ret i) left

pub interval_coalesce : List Interval → List Interval
interval_coalesce [] = []
interval_coalesce (i ∷ left) = absorb_all (i ∷ []) left

-- The main loop of `interval_union` and its two epilogues. The next interval is the one that starts
-- first, the right one on a tie, whether `ret` is empty or not.
pub union_loop : List Interval → List Interval → List Interval → List Interval
union_loop ret [] right = absorb_all ret right
union_loop ret (l ∷ left) [] = absorb_all (absorb ret l) left
union_loop ret (l ∷ left) (r ∷ right) =
    let take_left = union_loop (absorb ret l) left (r ∷ right) in
    let take_right = union_loop (absorb ret r) (l ∷ left) right in
    if ltb l.0 r.0 then take_left else take_right

unfoldable pub interval_union : List Interval → List Interval → List Interval
interval_union [] [] = []
interval_union [] (r ∷ right) = r ∷ right
interval_union (l ∷ left) [] = l ∷ left
interval_union (l ∷ left) (r ∷ right) = union_loop [] (l ∷ left) (r ∷ right)
