-- ===== src/Intervals/Merge/Union.antt =====
-- src/intervals.hpp: what `interval_union` returns.
use motion_planning_gadget_s.Common.{ℕ, ◌≡◌, refl, List, [], ◌∷◌, ◌∙◌, sym, Bool}
use motion_planning_gadget_s.Common.{Bool-cases, inl, inr, ◌||◌, ltb, if◌then◌else◌, arith}
use motion_planning_gadget_s.Intervals.Sets.{
  Interval, covers, SortedFrom, SortedFrom-of_disjoint, IsMaximal, DisjointFrom-of_maximal,
}
use motion_planning_gadget_s.Intervals.Merge.{absorb, absorb_all, union_loop, interval_union}
use motion_planning_gadget_s.Intervals.Merge.Coalesce.{interval_coalesce_lem, absorb_all-nil}
use motion_planning_gadget_s.Intervals.Canonical.{IsMaximal-unique}

-- The order in which the loop of `interval_union` takes the intervals.
pub merge : List Interval → List Interval → List Interval
merge [] right = right
merge (l ∷ left) [] = l ∷ left
merge (l ∷ left) (r ∷ right) =
    let take_left = l ∷ merge left (r ∷ right) in
    let take_right = r ∷ merge (l ∷ left) right in if ltb l.0 r.0 then take_left else take_right

union_loop-eq-absorb_all :
    (ret left right : List Interval) → union_loop ret left right ≡ absorb_all ret (merge left right)
unfolding union_loop merge absorb_all
union_loop-eq-absorb_all ret [] right = refl
union_loop-eq-absorb_all ret (l ∷ left) [] = refl
union_loop-eq-absorb_all ret (l ∷ left) (r ∷ right) = elim (Bool-cases (ltb l.0 r.0)) [
  | inl e ↦ rw e (union_loop-eq-absorb_all (absorb ret l) left (r ∷ right))
  | inr e ↦ rw e (union_loop-eq-absorb_all (absorb ret r) (l ∷ left) right)
]

covers-merge :
    (x : ℕ) (left right : List Interval)
    → covers x (merge left right) ≡ (covers x left || covers x right)
unfolding merge
covers-merge x [] right = refl
covers-merge x (l ∷ left) [] = ground arith
covers-merge x (l ∷ left) (r ∷ right) = elim (Bool-cases (ltb l.0 r.0)) [
  | inl e ↦ rw e (ground (arith, covers-merge x left (r ∷ right)))
  | inr e ↦ rw e (ground (arith, covers-merge x (l ∷ left) right))
]

merge-SortedFrom :
    (lo : ℕ) (left right : List Interval)
    → SortedFrom lo left
    → SortedFrom lo right
    → SortedFrom lo (merge left right)
unfolding merge
merge-SortedFrom lo [] right s t = t
merge-SortedFrom lo (l ∷ left) [] s t = s
merge-SortedFrom lo ((a, b) ∷ left) ((c, e) ∷ right) s t = elim (Bool-cases (ltb a c)) [
  | inl h ↦ rw h (ground (arith, merge-SortedFrom a left ((c, e) ∷ right)))
  | inr h ↦ rw h (ground (arith, merge-SortedFrom c ((a, b) ∷ left) right))
]

-- On two interval lists sorted by their first ends `interval_union` returns a list of the union of
-- their sets.
pub covers-interval_union :
    (x : ℕ) (left right : List Interval)
    → SortedFrom 0 left
    → SortedFrom 0 right
    → covers x (interval_union left right) ≡ (covers x left || covers x right)
unfolding interval_union
covers-interval_union x [] [] s t = refl
covers-interval_union x [] (r ∷ right) s t = refl
covers-interval_union x (l ∷ left) [] s t = ground arith
covers-interval_union x (l ∷ left) (r ∷ right) s t =
    let all = merge (l ∷ left) (r ∷ right) in
    rw (union_loop-eq-absorb_all [] (l ∷ left) (r ∷ right), absorb_all-nil all)
      ((interval_coalesce_lem all (merge-SortedFrom 0 (l ∷ left) (r ∷ right) s t)).1 x
        ∙ covers-merge x (l ∷ left) (r ∷ right))

sorted : (l : List Interval) → IsMaximal l → SortedFrom 0 l
sorted l m = SortedFrom-of_disjoint 0 l (DisjointFrom-of_maximal 0 l m)

interval_union-IsMaximal :
    (left right : List Interval)
    → IsMaximal left
    → IsMaximal right
    → IsMaximal (interval_union left right)
unfolding interval_union
interval_union-IsMaximal [] [] s t = tt
interval_union-IsMaximal [] (r ∷ right) s t = t
interval_union-IsMaximal (l ∷ left) [] s t = s
interval_union-IsMaximal (l ∷ left) (r ∷ right) s t =
    let all = merge (l ∷ left) (r ∷ right) in
    rw (union_loop-eq-absorb_all [] (l ∷ left) (r ∷ right), absorb_all-nil all)
      (interval_coalesce_lem all
        (merge-SortedFrom 0 (l ∷ left) (r ∷ right) (sorted (l ∷ left) s) (sorted (r ∷ right) t))).0

-- On two maximal interval lists `interval_union` returns the maximal list of the union.
pub interval_union_lem :
    (left right : List Interval)
    → IsMaximal left
    → IsMaximal right
    → IsMaximal (interval_union left right)
      × ((x : ℕ) → covers x (interval_union left right) ≡ (covers x left || covers x right))
interval_union_lem left right s t = (
  interval_union-IsMaximal left right s t,
  λ x. covers-interval_union x left right (sorted left s) (sorted right t),
)

-- `interval_union` of maximal lists does not depend on the order of its arguments, although its loop
-- treats ties between them unevenly.
pub interval_union_comm :
    (left right : List Interval)
    → IsMaximal left
    → IsMaximal right
    → interval_union left right ≡ interval_union right left
interval_union_comm left right s t =
    let (m, u) = interval_union_lem left right s t in
    let (n, v) = interval_union_lem right left t s in
    IsMaximal-unique _ _ m n (λ x. u x ∙ or_comm (covers x left) (covers x right) ∙ sym (v x))
  where
    or_comm : (a b : Bool) → (a || b) ≡ (b || a)
    or_comm a b = ground arith
