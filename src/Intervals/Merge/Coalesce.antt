-- ===== src/Intervals/Merge/Coalesce.antt =====
-- src/intervals.hpp: what `interval_coalesce` returns.
use motion_planning_gadget_s.Common.{ℕ, suc, max, ◌≡◌, refl, List, [], ◌∷◌, ◌++◌, ◌≤◌, ◌<◌, ap}
use motion_planning_gadget_s.Common.{
  Bool-cases, inl, inr, ◌||◌, leb, if◌then◌else◌, arith, append_assoc,
}
use motion_planning_gadget_s.Intervals.Sets.{
  Interval, in_interval, covers, SortedFrom, SortedFrom-lower,
}
use motion_planning_gadget_s.Intervals.Sets.{MaximalFrom, IsMaximal}
use motion_planning_gadget_s.Intervals.Merge.{absorb, absorb_all, interval_coalesce}

-- The same by recursion from the front: `r` is the interval that may still grow.
pub coalesce_from : Interval → List Interval → List Interval
coalesce_from r [] = r ∷ []
coalesce_from r (i ∷ l) =
    let grow = coalesce_from (r.0, max r.1 i.1) l in
    let push = r ∷ coalesce_from i l in if leb i.0 r.1 then grow else push

absorb-append :
    (pre : List Interval) (r i : Interval) → absorb (pre ++ (r ∷ [])) i ≡ pre ++ absorb (r ∷ []) i
unfolding absorb
absorb-append [] r i = refl
absorb-append (p ∷ []) r i = refl
absorb-append (p ∷ q ∷ pre) r i = ap (λ l. p ∷ l) (absorb-append (q ∷ pre) r i)

pub absorb_all-eq-coalesce_from :
    (pre : List Interval) (r : Interval) (l : List Interval)
    → absorb_all (pre ++ (r ∷ [])) l ≡ pre ++ coalesce_from r l
unfolding absorb_all coalesce_from absorb
absorb_all-eq-coalesce_from pre r [] = refl
absorb_all-eq-coalesce_from pre r (i ∷ l) =
    rw (absorb-append pre r i) elim (Bool-cases (leb i.0 r.1)) [
      | inl grow ↦ rw grow (absorb_all-eq-coalesce_from pre (r.0, max r.1 i.1) l)
      | inr push ↦
          rw
            (
              push,
              ← append_assoc pre (r ∷ []) (i ∷ []),
              absorb_all-eq-coalesce_from (pre ++ (r ∷ [])) i l,
            )
            (append_assoc pre (r ∷ []) (coalesce_from i l))
    ]

-- Each round keeps the first end of the growing interval at or below what is still to come.
pub covers-coalesce_from :
    (x : ℕ) (r : Interval) (l : List Interval)
    → SortedFrom r.0 l
    → covers x (coalesce_from r l) ≡ (in_interval x r || covers x l)
unfolding coalesce_from
covers-coalesce_from x (a, b) [] s = refl
covers-coalesce_from x (a, b) ((c, e) ∷ l) s = elim (Bool-cases (leb c b)) [
  | inl grow ↦
      rw grow (ground (arith, SortedFrom-lower c a l, covers-coalesce_from x (a, max b e) l))
  | inr push ↦ rw push (ground (arith, covers-coalesce_from x (c, e) l))
]

pub coalesce_from-MaximalFrom :
    (lo : ℕ) (r : Interval) (l : List Interval)
    → lo ≤ r.0
    → r.0 < r.1
    → SortedFrom r.0 l
    → MaximalFrom lo (coalesce_from r l)
unfolding coalesce_from
coalesce_from-MaximalFrom lo (a, b) [] h k s = (h, k, tt)
coalesce_from-MaximalFrom lo (a, b) ((c, e) ∷ l) h k s = elim (Bool-cases (leb c b)) [
  | inl grow ↦
      rw grow (ground (arith, SortedFrom-lower c a l, coalesce_from-MaximalFrom lo (a, max b e) l))
  | inr push ↦ rw push (ground (arith, coalesce_from-MaximalFrom (suc b) (c, e) l))
]

-- From intervals sorted by their first end `interval_coalesce` returns the maximal list of the same
-- set.
pub interval_coalesce_lem :
    (l : List Interval)
    → SortedFrom 0 l
    → IsMaximal (interval_coalesce l) × ((x : ℕ) → covers x (interval_coalesce l) ≡ covers x l)
unfolding interval_coalesce
interval_coalesce_lem [] s = (tt, λ x. refl)
interval_coalesce_lem (i ∷ l) (h, k, s) =
    rw (absorb_all-eq-coalesce_from [] i l)
      (coalesce_from-MaximalFrom 0 i l h k s, λ x. covers-coalesce_from x i l s)

pub absorb_all-nil : (l : List Interval) → absorb_all [] l ≡ interval_coalesce l
unfolding absorb_all absorb interval_coalesce
absorb_all-nil [] = refl
absorb_all-nil (i ∷ l) = refl
