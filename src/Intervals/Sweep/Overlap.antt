-- ===== src/Intervals/Sweep/Overlap.antt =====
-- src/intervals.hpp: what `interval_overlap` answers.
use motion_planning_gadget_s.Common.{ℕ, max, ◌≡◌, ◌≢◌, ◌↔◌, refl, List, [], ◌∷◌, ◌<◌, ◌∙◌}
use motion_planning_gadget_s.Common.{
  Bool, true, false, Bool-cases, inl, inr, ◌||◌, ltb, if◌then◌else◌, arith,
}
use motion_planning_gadget_s.Intervals.Sets.{
  Interval, covers, DisjointFrom, IsDisjoint, covers-below,
}
use motion_planning_gadget_s.Intervals.Sweep.{
  overlap, adjacent, separate, overlapping, touching, overlap_loop, interval_overlap,
}

-- Some interval of the list ends where `i` starts, or starts where it ends.
pub touches_any : Interval → List Interval → Bool
touches_any i [] = false
touches_any i (r ∷ right) = touching i r || touches_any i right

pub any_touching : List Interval → List Interval → Bool
unfolding touches_any
any_touching [] right = false
any_touching (l ∷ left) right = touches_any l right || any_touching left right

overlap_loop_complete :
    (x lo k : ℕ) (adj : Bool) (left right : List Interval)
    → DisjointFrom lo left
    → DisjointFrom k right
    → covers x left ≡ true
    → covers x right ≡ true
    → overlap_loop adj left right ≡ overlap
unfolding overlap_loop
overlap_loop_complete x lo k adj [] right d e p q = cc
overlap_loop_complete x lo k adj (l ∷ left) [] d e p q = cc
overlap_loop_complete x lo k adj ((a, b) ∷ left) ((c, f) ∷ right) d e p q =
    elim (Bool-cases (overlapping (a, b) (c, f))) [
      | inl h ↦ rw h
      | inr h ↦ rw h elim (Bool-cases (ltb a c)) [
        | inl m ↦ rw m (
            overlap_loop_complete x b k _ left ((c, f) ∷ right) d.2 e
              (ground (arith, covers-below x f right)) q)
        | inr m ↦ rw m (
            overlap_loop_complete x lo f _ ((a, b) ∷ left) right d e.2 p
              (ground (arith, covers-below x b left)))
      ]
    ]

overlap_loop_sound :
    (lo k : ℕ) (adj : Bool) (left right : List Interval)
    → DisjointFrom lo left
    → DisjointFrom k right
    → overlap_loop adj left right ≡ overlap
    → (x : ℕ) × (covers x left ≡ true) × (covers x right ≡ true)
unfolding overlap_loop
overlap_loop_sound lo k adj [] right d e p = absurd (ground arith)
overlap_loop_sound lo k adj (l ∷ left) [] d e p = absurd (ground arith)
overlap_loop_sound lo k adj ((a, b) ∷ left) ((c, f) ∷ right) d e p =
    elim (Bool-cases (overlapping (a, b) (c, f))) [
      | inl h ↦ (max a c, ground arith, ground arith)
      | inr h ↦ elim (Bool-cases (ltb a c)) [
        | inl m ↦
            let (x, u, v) = overlap_loop_sound b k _ left ((c, f) ∷ right) d.2 e (rw (h, m) at p) in
            (x, ground arith, v)
        | inr m ↦
            let (x, u, v) =
              overlap_loop_sound lo f _ ((a, b) ∷ left) right d e.2 (rw (h, m) at p) in
            (x, u, ground arith)
      ]
    ]

touches_any-above :
    (i : Interval) (k : ℕ) (right : List Interval)
    → DisjointFrom k right
    → i.0 < i.1
    → i.1 < k
    → touches_any i right ≡ false
unfolding touches_any
touches_any-above (a, b) k [] d h m = refl
touches_any-above (a, b) k ((c, f) ∷ right) d h m = ground (arith, touches_any-above (a, b) f right)

-- Dropping the right head, which ends before the second left interval starts.
any_touching-drop :
    (k : ℕ) (r : Interval) (left right : List Interval)
    → DisjointFrom k left
    → r.0 < r.1
    → r.1 < k
    → any_touching left (r ∷ right) ≡ any_touching left right
unfolding any_touching
any_touching-drop k r [] right d h m = refl
any_touching-drop k (c, f) ((a, b) ∷ left) right d h m =
    ground (arith, any_touching-drop b (c, f) left right)

any_touching-nil : (left : List Interval) → any_touching left [] ≡ false
unfolding any_touching
any_touching-nil [] = refl
any_touching-nil (l ∷ left) = any_touching-nil left

overlap_loop_apart :
    (lo k : ℕ) (adj : Bool) (left right : List Interval)
    → DisjointFrom lo left
    → DisjointFrom k right
    → overlap_loop adj left right ≢ overlap
    → overlap_loop adj left right ≡ (if adj || any_touching left right then adjacent else separate)
unfolding overlap_loop any_touching
overlap_loop_apart lo k adj [] right d e p = ground arith
overlap_loop_apart lo k adj (l ∷ left) [] d e p = ground (arith, any_touching-nil left)
overlap_loop_apart lo k adj ((a, b) ∷ left) ((c, f) ∷ right) d e p =
    elim (Bool-cases (overlapping (a, b) (c, f))) [
      | inl h ↦ absurd (p (rw h))
      | inr h ↦ elim (Bool-cases (ltb a c)) [
        | inl m ↦
            rw (h, m)
              (overlap_loop_apart b k _ left ((c, f) ∷ right) d.2 e (rw (h, m) at p)
                ∙ ground (arith, touches_any-above (a, b) f right e.2))
        | inr m ↦
            rw (h, m)
              (overlap_loop_apart lo f _ ((a, b) ∷ left) right d e.2 (rw (h, m) at p)
                ∙ ground (arith, any_touching-drop b (c, f) left right))
      ]
    ]

-- On two lists of disjoint intervals `interval_overlap` answers `overlap` exactly when some number
-- is in both sets.
pub interval_overlap-eq-overlap :
    (left right : List Interval)
    → IsDisjoint left
    → IsDisjoint right
    → (interval_overlap left right ≡ overlap)
      ↔ ((x : ℕ) × (covers x left ≡ true) × (covers x right ≡ true))
unfolding interval_overlap
interval_overlap-eq-overlap left right d e = (
  overlap_loop_sound 0 0 false left right d e,
  λ w. overlap_loop_complete w.0 0 0 false left right d e w.1 w.2,
)

-- On two lists of disjoint intervals with no number in common `interval_overlap` answers `adjacent`
-- if some interval of one list ends where one of the other starts, and `separate` if none does.
pub interval_overlap_apart :
    (left right : List Interval)
    → IsDisjoint left
    → IsDisjoint right
    → ((x : ℕ) → covers x left ≡ true → covers x right ≡ true → ⊥)
    → interval_overlap left right ≡ (if any_touching left right then adjacent else separate)
unfolding interval_overlap
interval_overlap_apart left right d e apart =
    overlap_loop_apart 0 0 false left right d e
      (λ p. let (x, u, v) = overlap_loop_sound 0 0 false left right d e p in apart x u v)
