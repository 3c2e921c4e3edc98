-- ===== src/Intervals/Merge/Limits.antt =====
-- src/intervals.hpp: what bounds the intervals bounds their union.
use motion_planning_gadget_s.Common.{ℕ, ◌<◌, List, [], ◌∷◌, leb, ltb, Bool-cases, inl, inr, arith}
use motion_planning_gadget_s.Intervals.Sets.{Interval}
use motion_planning_gadget_s.Intervals.Merge.{absorb, absorb_all, union_loop, interval_union}
use motion_planning_gadget_s.Intervals.Points.Inflate.{Below}

absorb-Below :
    (n : ℕ) (ret : List Interval) (i : Interval) → Below n ret → i.1 < n → Below n (absorb ret i)
unfolding absorb
absorb-Below n [] i b h = (h, tt)
absorb-Below n (r ∷ []) i b h = elim (Bool-cases (leb i.0 r.1)) [
  | inl k ↦ rw k (omega (arith, b.0, h), tt)
  | inr k ↦ rw k (b.0, (h, tt))
]
absorb-Below n (r ∷ s ∷ rs) i b h = (b.0, absorb-Below n (s ∷ rs) i b.1 h)

absorb_all-Below :
    (n : ℕ) (ret left : List Interval) → Below n ret → Below n left → Below n (absorb_all ret left)
unfolding absorb_all
absorb_all-Below n ret [] b c = b
absorb_all-Below n ret (i ∷ left) b c =
    absorb_all-Below n (absorb ret i) left (absorb-Below n ret i b c.0) c.1

union_loop-Below :
    (n : ℕ) (ret left right : List Interval)
    → Below n ret
    → Below n left
    → Below n right
    → Below n (union_loop ret left right)
unfolding union_loop
union_loop-Below n ret [] right b c d = absorb_all-Below n ret right b d
union_loop-Below n ret (l ∷ left) [] b c d =
    absorb_all-Below n (absorb ret l) left (absorb-Below n ret l b c.0) c.1
union_loop-Below n ret (l ∷ left) (r ∷ right) b c d = elim (Bool-cases (ltb l.0 r.0)) [
  | inl k ↦
      rw k (union_loop-Below n (absorb ret l) left (r ∷ right) (absorb-Below n ret l b c.0) c.1 d)
  | inr k ↦
      rw k (union_loop-Below n (absorb ret r) (l ∷ left) right (absorb-Below n ret r b d.0) c d.1)
]

pub interval_union-Below :
    (n : ℕ) (left right : List Interval)
    → Below n left
    → Below n right
    → Below n (interval_union left right)
unfolding interval_union
interval_union-Below n [] [] b c = tt
interval_union-Below n [] (r ∷ right) b c = c
interval_union-Below n (l ∷ left) [] b c = b
interval_union-Below n (l ∷ left) (r ∷ right) b c =
    union_loop-Below n [] (l ∷ left) (r ∷ right) tt b c
