-- ===== src/Intervals/Sweep/Difference.antt =====
-- src/intervals.hpp: what `interval_difference` returns, and that its loop ends.
use motion_planning_gadget_s.Common.{
  ℕ, zero, max, min, ◌+◌, ◌*◌, ◌≡◌, ◌⊎◌, refl, List, [], ◌∷◌, ◌≤◌, ◌<◌, suc,
}
use motion_planning_gadget_s.Common.{
  not, Bool-cases, inl, inr, ◌&&◌, leb, ltb, ◌==◌, if◌then◌else◌, arith, Option, some, length,
}
use motion_planning_gadget_s.Intervals.Sets.{
  Interval, covers, DisjointFrom, IsDisjoint, covers-below, DisjointFrom-lower,
}
use motion_planning_gadget_s.Intervals.Sweep.{emit, leftover, difference_loop, interval_difference}

-- The effective first end of the left head is what the sweep never takes back.
abbrev start : ℕ → List Interval → ℕ
start pos [] = pos
start pos (l ∷ left) = max pos l.0

-- `pos` is inside the left head, and beyond its first end only inside the right head.
abbrev Placed : ℕ → List Interval → List Interval → Type 0
Placed pos [] right = Unit
Placed pos (l ∷ left) [] = pos < l.1
Placed pos (l ∷ left) (r ∷ right) = (pos < l.1) × ((pos ≤ l.0) ⊎ (pos < r.1))

-- Rounds that are enough: two for each interval, less one if the next round drops an interval.
abbrev rounds : ℕ → List Interval → List Interval → ℕ
rounds pos [] right = 0
rounds pos (l ∷ left) [] = 0
rounds pos (l ∷ left) (r ∷ right) =
    2 * (length left + length right) + (if max pos l.0 == max pos r.0 then 3 else 4)

-- What the sweep from `pos` on has to return.
record Swept (pos : ℕ) (left right : List Interval) (out : Option (List Interval)) : Type 0 where
  ret : List Interval
  returned : out ≡ some ret
  disjoint : DisjointFrom (start pos left) ret
  members : (x : ℕ) → covers x ret ≡ ((leb pos x && covers x left) && not (covers x right))

sweep_nil :
    (fuel pos : ℕ) (right : List Interval) → Swept pos [] right (difference_loop fuel pos [] right)
unfolding difference_loop
sweep_nil fuel pos right = record {
  ret = [];
  returned = refl;
  disjoint = tt;
  members = λ x. ground arith;
}

sweep_leftover :
    (fuel lo pos : ℕ) (l : Interval) (left : List Interval)
    → DisjointFrom lo (l ∷ left)
    → pos < l.1
    → Swept pos (l ∷ left) [] (difference_loop fuel pos (l ∷ left) [])
unfolding difference_loop
sweep_leftover fuel lo pos (a, b) left d h = record {
  ret = leftover pos (a, b) left;
  returned = refl;
  disjoint = ground arith;
  members = λ x. ground (arith, covers-below x b left);
}

rounds-le :
    (pos : ℕ) (left right : List Interval)
    → rounds pos left right ≤ 2 * (length left + length right)
rounds-le pos [] right = omega arith
rounds-le pos (l ∷ left) [] = omega arith
rounds-le pos (l ∷ left) (r ∷ right) = ground arith

Placed-next : (pos : ℕ) (left right : List Interval) → DisjointFrom pos left → Placed pos left right
Placed-next pos [] right d = tt
Placed-next pos (l ∷ left) [] d = omega arith
Placed-next pos (l ∷ left) (r ∷ right) d = (omega arith, inl (omega arith))

Placed-drop :
    (pos k : ℕ) (l : Interval) (left right : List Interval)
    → DisjointFrom k right
    → pos < l.1
    → (pos ≤ l.0) ⊎ (pos ≤ k)
    → Placed pos (l ∷ left) right
Placed-drop pos k l left [] d h m = h
Placed-drop pos k l left (r ∷ right) d h m = (h, ground arith)

DisjointFrom-start :
    (pos : ℕ) (left ret : List Interval) → DisjointFrom (start pos left) ret → DisjointFrom pos ret
DisjointFrom-start pos [] ret d = d
DisjointFrom-start pos (l ∷ left) ret d = DisjointFrom-lower (max pos l.0) pos ret (omega arith) d

module _ (lo k pos a b c f : ℕ) (left right : List Interval) (d : DisjointFrom lo ((a, b) ∷ left))
    (e : DisjointFrom k ((c, f) ∷ right))
    (placed : Placed pos ((a, b) ∷ left) ((c, f) ∷ right)) where
  Swept-whole :
      {out : Option (List Interval)}
      → max pos a < max pos c
      → b ≤ c
      → Swept b left ((c, f) ∷ right) out
      → Swept pos ((a, b) ∷ left) ((c, f) ∷ right) (emit (max pos a, b) out)
  Swept-whole h m s = record {
    ret = (max pos a, b) ∷ s.ret;
    returned = rw s.returned;
    disjoint = (omega arith, omega arith, DisjointFrom-start b left s.ret s.disjoint);
    members =
        λ x. ground (arith, s.members x, covers-below x b left d.2, covers-below x f right e.2);
  }

  Swept-cut :
      {out : Option (List Interval)}
      → max pos a < max pos c
      → c < b
      → Swept c ((a, b) ∷ left) ((c, f) ∷ right) out
      → Swept pos ((a, b) ∷ left) ((c, f) ∷ right) (emit (max pos a, c) out)
  Swept-cut h m s = record {
    ret = (max pos a, c) ∷ s.ret;
    returned = rw s.returned;
    disjoint = (omega arith, omega arith, DisjointFrom-start c ((a, b) ∷ left) s.ret s.disjoint);
    members =
        λ x. ground (arith, s.members x, covers-below x b left d.2, covers-below x f right e.2);
  }

  Swept-skip :
      {out : Option (List Interval)}
      → max pos c < max pos a
      → f ≤ a
      → Swept a ((a, b) ∷ left) right out
      → Swept pos ((a, b) ∷ left) ((c, f) ∷ right) out
  Swept-skip h m s = record {
    ret = s.ret;
    returned = s.returned;
    disjoint = DisjointFrom-lower (max a a) (max pos a) s.ret (omega arith) s.disjoint;
    members = λ x. ground (arith, s.members x, covers-below x b left d.2);
  }

  Swept-stay :
      {out : Option (List Interval)}
      → max pos c < max pos a
      → Swept a ((a, b) ∷ left) ((c, f) ∷ right) out
      → Swept pos ((a, b) ∷ left) ((c, f) ∷ right) out
  Swept-stay h s = record {
    ret = s.ret;
    returned = s.returned;
    disjoint = DisjointFrom-lower (max a a) (max pos a) s.ret (omega arith) s.disjoint;
    members = λ x. ground (arith, s.members x, covers-below x b left d.2);
  }

  Swept-left_ends :
      {out : Option (List Interval)}
      → max pos c ≡ max pos a
      → b < f
      → Swept b left ((c, f) ∷ right) out
      → Swept pos ((a, b) ∷ left) ((c, f) ∷ right) out
  Swept-left_ends h m s = record {
    ret = s.ret;
    returned = s.returned;
    disjoint =
        DisjointFrom-lower b (max pos a) s.ret (omega arith)
          (DisjointFrom-start b left s.ret s.disjoint);
    members =
        λ x. ground (arith, s.members x, covers-below x b left d.2, covers-below x f right e.2);
  }

  Swept-right_ends :
      {out : Option (List Interval)}
      → max pos c ≡ max pos a
      → f < b
      → Swept f ((a, b) ∷ left) right out
      → Swept pos ((a, b) ∷ left) ((c, f) ∷ right) out
  Swept-right_ends h m s = record {
    ret = s.ret;
    returned = s.returned;
    disjoint = DisjointFrom-lower (max f a) (max pos a) s.ret (omega arith) s.disjoint;
    members =
        λ x. ground (arith, s.members x, covers-below x b left d.2, covers-below x f right e.2);
  }

  Swept-both_end :
      {out : Option (List Interval)}
      → max pos c ≡ max pos a
      → f ≡ b
      → Swept b left right out
      → Swept pos ((a, b) ∷ left) ((c, f) ∷ right) out
  Swept-both_end h m s = record {
    ret = s.ret;
    returned = s.returned;
    disjoint =
        DisjointFrom-lower b (max pos a) s.ret (omega arith)
          (DisjointFrom-start b left s.ret s.disjoint);
    members =
        λ x. ground (arith, s.members x, covers-below x b left d.2, covers-below x f right e.2);
  }

difference_loop-Swept :
    (fuel lo k pos : ℕ) (left right : List Interval)
    → DisjointFrom lo left
    → DisjointFrom k right
    → Placed pos left right
    → rounds pos left right ≤ fuel
    → Swept pos left right (difference_loop fuel pos left right)
unfolding difference_loop
difference_loop-Swept fuel lo k pos [] right d e p h = sweep_nil fuel pos right
difference_loop-Swept fuel lo k pos (l ∷ left) [] d e p h = sweep_leftover fuel lo pos l left d p
difference_loop-Swept zero lo k pos (l ∷ left) (r ∷ right) d e p h = absurd (ground arith)
difference_loop-Swept (suc fuel) lo k pos ((a, b) ∷ left) ((c, f) ∷ right) d e p h =
    let whole =
      difference_loop-Swept fuel b k b left ((c, f) ∷ right) d.2 e
        (Placed-next b left ((c, f) ∷ right) d.2)
        (ground (arith, rounds-le b left ((c, f) ∷ right))) in
    let both =
      difference_loop-Swept fuel b f b left right d.2 e.2 (Placed-next b left right d.2)
        (ground (arith, rounds-le b left right)) in
    elim (Bool-cases (ltb (max pos a) (max pos c))) [
      | inl m ↦ rw m elim (Bool-cases (leb b c)) [
        | inl n ↦
            rw n (Swept-whole lo k pos a b c f left right d e p (ground arith) (ground arith) whole)
        | inr n ↦ rw n (
            Swept-cut lo k pos a b c f left right d e p (ground arith) (ground arith) (
              difference_loop-Swept fuel lo k c ((a, b) ∷ left) ((c, f) ∷ right) d e
                (ground arith, ground arith) (ground arith)))
      ]
      | inr m ↦ rw m elim (Bool-cases (ltb (max pos c) (max pos a))) [
        | inl n ↦ rw n elim (Bool-cases (leb f a)) [
          | inl o ↦ rw o (
              Swept-skip lo k pos a b c f left right d e p (ground arith) (ground arith) (
                difference_loop-Swept fuel lo f a ((a, b) ∷ left) right d e.2
                  (Placed-drop a f (a, b) left right e.2 (ground arith) (inl (omega arith)))
                  (ground (arith, rounds-le a ((a, b) ∷ left) right))))
          | inr o ↦ rw o (
              Swept-stay lo k pos a b c f left right d e p (ground arith) (
                difference_loop-Swept fuel lo k a ((a, b) ∷ left) ((c, f) ∷ right) d e
                  (ground arith, ground arith) (ground arith)))
        ]
        | inr n ↦ rw n elim (Bool-cases (ltb b f)) [
          | inl o ↦ rw o (
              Swept-left_ends lo k pos a b c f left right d e p (ground arith) (ground arith) whole)
          | inr o ↦ rw o elim (Bool-cases (ltb f b)) [
            | inl q ↦ rw q (
                Swept-right_ends lo k pos a b c f left right d e p (ground arith) (ground arith) (
                  difference_loop-Swept fuel lo f f ((a, b) ∷ left) right d e.2
                    (Placed-drop f f (a, b) left right e.2 (ground arith) (inr (omega arith)))
                    (ground (arith, rounds-le f ((a, b) ∷ left) right))))
            | inr q ↦ rw q (
                Swept-both_end lo k pos a b c f left right d e p (ground arith) (ground arith) both)
          ]
        ]
      ]
    ]

-- On two lists of disjoint intervals the sweep of `interval_difference` ends, and returns a list of
-- disjoint intervals of the numbers of the left set that are not in the right one.
pub interval_difference_lem :
    (left right : List Interval)
    → IsDisjoint left
    → IsDisjoint right
    → (ret : List Interval) × (interval_difference left right ≡ some ret)
      × IsDisjoint ret
      × ((x : ℕ) → covers x ret ≡ (covers x left && not (covers x right)))
unfolding interval_difference
interval_difference_lem [] right d e = ([], refl, tt, λ x. refl)
interval_difference_lem (l ∷ left) [] d e = (l ∷ left, refl, d, λ x. ground arith)
interval_difference_lem ((a, b) ∷ left) ((c, f) ∷ right) d e =
    let s =
      difference_loop-Swept (2 * (length ((a, b) ∷ left) + length ((c, f) ∷ right)) + 1) 0 0
        (min a c) ((a, b) ∷ left) ((c, f) ∷ right) d e (omega arith, inl (omega arith))
        (ground (arith, rounds-le (min a c) ((a, b) ∷ left) ((c, f) ∷ right))) in
    (
      s.ret,
      s.returned,
      DisjointFrom-lower (max (min a c) a) 0 s.ret (omega arith) s.disjoint,
      λ x. ground (arith, s.members x, covers-below x b left),
    )
