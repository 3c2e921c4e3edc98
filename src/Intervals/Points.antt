-- ===== src/Intervals/Points.antt =====
-- src/intervals.hpp: `maximal_intervals`, `interval_inflate` and `interval_size`, between lists of
-- numbers and lists of intervals, at `T = std::uint64_t`.
pub mod RoundTrip
pub mod Inflate
use motion_planning_gadget_s.Common.{ℕ, zero, suc, List, [], ◌∷◌, ◌==◌, if◌then◌else◌, not}
use motion_planning_gadget_s.Common.{Option, none, some, true, false, ◌++◌, word, add64, sub64}
use motion_planning_gadget_s.Intervals.Sets.{Interval}

-- The loop of `maximal_intervals`: `left` and `right` are `*left` and `*right`, and the list is what
-- stands behind `right`.
pub maximal_loop : ℕ → ℕ → List ℕ → List Interval
maximal_loop left right [] = (left, add64 right 1) ∷ []
maximal_loop left right (x ∷ rest) =
    let split = (left, add64 right 1) ∷ maximal_loop x x rest in
    let grow = maximal_loop left x rest in if not (sub64 x right == 1) then split else grow

pub maximal_intervals : List ℕ → List Interval
maximal_intervals [] = []
maximal_intervals (x ∷ rest) = maximal_loop x x rest

-- `for (auto i = first->first; i != first->second; ++i) ret.push_back(i);`
-- `none` means that the fuel ran out.
pub inflate_loop : ℕ → ℕ → ℕ → List ℕ → Option (List ℕ)
inflate_loop zero i second ret = none
inflate_loop (suc fuel) i second ret =
    let more = inflate_loop fuel (add64 i 1) second (ret ++ (i ∷ [])) in
    if i == second then some ret else more

-- After 2 ^ 64 steps `i` has taken every value, so the fuel is enough.
pub inflate_all : List ℕ → List Interval → Option (List ℕ)
inflate_all ret [] = some ret
inflate_all ret (i ∷ rest) = elim (inflate_loop (suc word) i.0 i.1 ret) [
  | none ↦ none
  | some ret' ↦ inflate_all ret' rest
]

pub interval_inflate : List Interval → Option (List ℕ)
interval_inflate l = inflate_all [] l

-- `size += i->second - i->first`
pub size_loop : ℕ → List Interval → ℕ
size_loop size [] = size
size_loop size (i ∷ rest) = size_loop (add64 size (sub64 i.1 i.0)) rest

pub interval_size : List Interval → ℕ
interval_size l = size_loop 0 l
