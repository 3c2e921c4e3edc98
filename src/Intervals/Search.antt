-- ===== src/Intervals/Search.antt =====
-- src/intervals.hpp: `interval_contains`, a binary search.
pub mod Correct
use motion_planning_gadget_s.Common.{
  ℕ, zero, suc, List, [], ◌∷◌, leb, ltb, if◌then◌else◌, ◌+◌, ◌-◌, ◌/◌, ◌≤◌, ◌<◌, ◌≡◌, refl, ◌∙◌, ap,
  sym,
}
use motion_planning_gadget_s.Common.{
  Bool, ◌||◌, ◌&&◌, Option, none, some, true, false, ◌++◌, arith, length, take, drop, get_elem?,
  Bool-cases, inl, inr,
}
use motion_planning_gadget_s.Intervals.Sets.{
  Interval, covers, in_interval, DisjointFrom, IsDisjoint, covers-below,
}

-- The first end of `base[half]`. The loop reads inside the list; 0 stands for a read behind it.
abbrev pub first_at : List Interval → ℕ → ℕ
first_at base half = elim (get_elem? base half) [ none ↦ 0 | some i ↦ i.0 ]

-- The loop of `interval_contains`: `base` is the list from the iterator on. Returns the last `base`;
-- a round halves `n`, so that `n` rounds are more than enough.
pub search_loop : ℕ → ℕ → List Interval → ℕ → Option (List Interval)
search_loop zero element base n = none
search_loop (suc fuel) element base n =
    let half = n / 2 in
    let next = if ltb element (first_at base half) then base else drop half base in
    let more = search_loop fuel element next (n - half) in if ltb 1 n then more else some base

-- `(base->first <= element) & (element < base->second)`
abbrev pub hit : ℕ → List Interval → Bool
hit element [] = false
hit element (i ∷ rest) = leb i.0 element && ltb element i.1

pub interval_contains : List Interval → ℕ → Option Bool
interval_contains [] element = some false
interval_contains (i ∷ l) element =
    elim (search_loop (length (i ∷ l)) element (i ∷ l) (length (i ∷ l))) [
      | none ↦ none
      | some base ↦ some (hit element base)
    ]
