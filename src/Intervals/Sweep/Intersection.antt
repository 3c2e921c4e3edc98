-- ===== src/Intervals/Sweep/Intersection.antt =====
-- src/intervals.hpp: what `interval_intersection` returns.
use motion_planning_gadget_s.Common.{ℕ, max, min, ◌≡◌, refl, List, [], ◌∷◌, ◌≤◌, ◌<◌, suc}
use motion_planning_gadget_s.Common.{Bool-cases, inl, inr, ◌&&◌, leb, ltb, arith}
use motion_planning_gadget_s.Intervals.Sets.{
  Interval, covers, DisjointFrom, IsMaximal, MaximalFrom, IsDisjoint, covers-below,
  DisjointFrom-of_maximal,
}
use motion_planning_gadget_s.Intervals.Sweep.{interval_intersection, intersection_round}

-- To prove something of a round, prove it on each of its branches.
round_elim :
    (P : List Interval → Type 0) (a b c f : ℕ) (nl nr nb : List Interval)
    → (b ≤ c → P nl)
    → (f ≤ a → P nr)
    → (a < f → c < b → b < f → P ((max a c, b) ∷ nl))
    → (a < f → c < b → f < b → P ((max a c, f) ∷ nr))
    → (a < f → c < b → f ≡ b → P ((max a c, b) ∷ nb))
    → P (intersection_round (a, b) (c, f) nl nr nb)
unfolding intersection_round
round_elim P a b c f nl nr nb p1 p2 p3 p4 p5 = elim (Bool-cases (leb b c)) [
  | inl h ↦ rw h (p1 (ground arith))
  | inr h ↦ rw h elim (Bool-cases (leb f a)) [
    | inl m ↦ rw m (p2 (ground arith))
    | inr m ↦ rw m elim (Bool-cases (ltb b f)) [
      | inl n ↦ rw (n, least b f (ground arith)) (p3 (ground arith) (ground arith) (ground arith))
      | inr n ↦ rw n elim (Bool-cases (ltb f b)) [
        | inl o ↦
            rw (o, min_comm b f, least f b (ground arith))
              (p4 (ground arith) (ground arith) (ground arith))
        | inr o ↦ rw (o, least b f (ground arith)) (p5 (ground arith) (ground arith) (ground arith))
      ]
    ]
  ]
]
  where
    least : (m n : ℕ) → m ≤ n → min m n ≡ m
    least m n h = omega arith

    min_comm : (m n : ℕ) → min m n ≡ min n m
    min_comm m n = omega arith

covers-intersection_from :
    (x lo k : ℕ) (left right : List Interval)
    → DisjointFrom lo left
    → DisjointFrom k right
    → covers x (interval_intersection left right) ≡ (covers x left && covers x right)
unfolding interval_intersection
covers-intersection_from x lo k [] right d e = refl
covers-intersection_from x lo k (l ∷ left) [] d e = ground arith
covers-intersection_from x lo k ((a, b) ∷ left) ((c, f) ∷ right) d e =
    let nl = covers-intersection_from x b k left ((c, f) ∷ right) d.2 e in
    let nr = covers-intersection_from x lo f ((a, b) ∷ left) right d e.2 in
    let nb = covers-intersection_from x b f left right d.2 e.2 in
    let left_below = covers-below x b left d.2 in
    let right_below = covers-below x f right e.2 in
    round_elim (λ l. covers x l ≡ (covers x ((a, b) ∷ left) && covers x ((c, f) ∷ right))) a b c f _
      _ _ (λ h. ground (arith, nl, right_below)) (λ h. ground (arith, nr, left_below))
      (λ h m n. ground (arith, nl, right_below)) (λ h m n. ground (arith, nr, left_below))
      (λ h m n. ground (arith, nb, left_below, right_below))

MaximalFrom-lower : (lo k : ℕ) (l : List Interval) → k ≤ lo → MaximalFrom lo l → MaximalFrom k l
MaximalFrom-lower lo k [] h d = tt
MaximalFrom-lower lo k (i ∷ l) h d = ground arith

intersection-MaximalFrom :
    (lo k : ℕ) (left right : List Interval)
    → MaximalFrom lo left
    → MaximalFrom k right
    → MaximalFrom (max lo k) (interval_intersection left right)
unfolding interval_intersection
intersection-MaximalFrom lo k [] right d e = tt
intersection-MaximalFrom lo k (l ∷ left) [] d e = tt
intersection-MaximalFrom lo k ((a, b) ∷ left) ((c, f) ∷ right) d e =
    let nl = intersection-MaximalFrom (suc b) k left ((c, f) ∷ right) d.2 e in
    let nr = intersection-MaximalFrom lo (suc f) ((a, b) ∷ left) right d e.2 in
    let nb = intersection-MaximalFrom (suc b) (suc f) left right d.2 e.2 in
    round_elim (MaximalFrom (max lo k)) a b c f _ _ _
      (λ h. MaximalFrom-lower (max (suc b) k) (max lo k) _ (omega arith) nl)
      (λ h. MaximalFrom-lower (max lo (suc f)) (max lo k) _ (omega arith) nr)
      (λ h m n.
        (omega arith, omega arith, MaximalFrom-lower (max (suc b) k) (suc b) _ (omega arith) nl))
      (λ h m n.
        (omega arith, omega arith, MaximalFrom-lower (max lo (suc f)) (suc f) _ (omega arith) nr))
      (λ h m n. (
        omega arith,
        omega arith,
        MaximalFrom-lower (max (suc b) (suc f)) (suc b) _ (omega arith) nb,
      ))

-- On two lists of disjoint intervals `interval_intersection` returns a list of the intersection of
-- their sets.
pub covers-interval_intersection :
    (x : ℕ) (left right : List Interval)
    → IsDisjoint left
    → IsDisjoint right
    → covers x (interval_intersection left right) ≡ (covers x left && covers x right)
covers-interval_intersection x left right d e = covers-intersection_from x 0 0 left right d e

-- On two maximal interval lists `interval_intersection` returns the maximal list of the
-- intersection.
pub interval_intersection_lem :
    (left right : List Interval)
    → IsMaximal left
    → IsMaximal right
    → IsMaximal (interval_intersection left right)
      × ((x : ℕ) → covers x (interval_intersection left right) ≡ (covers x left && covers x right))
interval_intersection_lem left right d e = (
  MaximalFrom-lower (max 0 0) 0 _ (omega arith) (intersection-MaximalFrom 0 0 left right d e),
  λ x.
      covers-interval_intersection x left right (DisjointFrom-of_maximal 0 left d)
        (DisjointFrom-of_maximal 0 right e),
)
