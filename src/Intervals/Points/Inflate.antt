-- ===== src/Intervals/Points/Inflate.antt =====
-- src/intervals.hpp: `interval_inflate` and `interval_size` on any list of disjoint intervals.
use motion_planning_gadget_s.Common.{ℕ, zero, suc, List, [], ◌∷◌, ◌+◌, ◌-◌, ◌<◌, ◌≡◌, refl, ◌∙◌, ap}
use motion_planning_gadget_s.Common.{
  ◌||◌, some, ◌++◌, word, add64, sub64, arith, append_assoc, append-nil, length, length-append,
}
use motion_planning_gadget_s.Intervals.Sets.{
  Interval, covers, in_interval, DisjointFrom, IsDisjoint,
}
use motion_planning_gadget_s.Intervals.Points.{
  inflate_all, interval_inflate, size_loop, interval_size,
}
use motion_planning_gadget_s.Intervals.Points.RoundTrip.{
  run, elem, inflate_all-nil, inflate_all-interval,
}

-- All ends are below `n`.
abbrev pub Below : ℕ → List Interval → Type 0
Below n [] = Unit
Below n (i ∷ l) = (i.1 < n) × Below n l

abbrev pub total : List Interval → ℕ
total [] = 0
total (i ∷ l) = i.1 - i.0 + total l

-- The numbers of the intervals, in order.
abbrev points : List Interval → List ℕ
points [] = []
points (i ∷ l) = run (i.1 - i.0) i.0 ++ points l

total-lt :
    (n lo : ℕ) (l : List Interval) → lo < n → DisjointFrom lo l → Below n l → total l + lo < n
total-lt n lo [] h d w = omega arith
total-lt n lo ((a, b) ∷ l) h d w = omega (arith, total-lt n b l w.0 d.2 w.1)

pub size_loop_lem :
    (size lo : ℕ) (l : List Interval)
    → DisjointFrom lo l
    → Below word l
    → size + total l < word
    → size_loop size l ≡ size + total l
unfolding size_loop
size_loop_lem size lo [] d w h = omega arith
size_loop_lem size lo ((a, b) ∷ l) d w h =
    let step : add64 size (sub64 b a) ≡ size + (b - a) = omega arith in
    rw step (size_loop_lem (size + (b - a)) b l d.2 w.1 (omega arith) ∙ omega arith)

length-run : (n i : ℕ) → length (run n i) ≡ n
length-run zero i = refl
length-run (suc n) i = ap suc (length-run n (i + 1))

elem-append : (x : ℕ) (xs ys : List ℕ) → elem x (xs ++ ys) ≡ (elem x xs || elem x ys)
elem-append x [] ys = refl
elem-append x (y ∷ xs) ys = ground (arith, elem-append x xs ys)

elem-run : (x n i : ℕ) → elem x (run n i) ≡ in_interval x (i, i + n)
elem-run x zero i = ground arith
elem-run x (suc n) i = ground (arith, elem-run x n (i + 1))

length-points : (l : List Interval) → length (points l) ≡ total l
length-points [] = refl
length-points (i ∷ l) = omega (
  arith,
  length-append (run (i.1 - i.0) i.0) (points l),
  length-run (i.1 - i.0) i.0,
  length-points l,
)

elem-points : (x lo : ℕ) (l : List Interval) → DisjointFrom lo l → elem x (points l) ≡ covers x l
elem-points x lo [] d = refl
elem-points x lo ((a, b) ∷ l) d =
    ground
      (arith, elem-append x (run (b - a) a) (points l), elem-run x (b - a) a, elem-points x b l)

inflate_all-points :
    (lo : ℕ) (ret : List ℕ) (l : List Interval)
    → DisjointFrom lo l
    → Below word l
    → inflate_all ret l ≡ some (ret ++ points l)
inflate_all-points lo ret [] d w = inflate_all-nil ret ∙ rw (append-nil ret)
inflate_all-points lo ret ((a, b) ∷ l) d w =
    let end : a + (b - a) ≡ b = omega arith in
    (rw end at (inflate_all-interval a (b - a) ret l (omega arith)))
    ∙ inflate_all-points b (ret ++ run (b - a) a) l d.2 w.1
    ∙ ap some (append_assoc ret (run (b - a) a) (points l))

-- On disjoint intervals below 2 ^ 64 the loops of `interval_inflate` end, and return the numbers of
-- the set; `interval_size` is their count, without a wrap.
pub interval_inflate_lem :
    (l : List Interval)
    → IsDisjoint l
    → Below word l
    → (xs : List ℕ) × (interval_inflate l ≡ some xs)
      × (interval_size l ≡ length xs)
      × ((x : ℕ) → elem x xs ≡ covers x l)
unfolding interval_inflate interval_size
interval_inflate_lem l d w = (
  points l,
  inflate_all-points 0 [] l d w,
  size_loop_lem 0 0 l d w (omega (arith, total-lt word 0 l (omega arith) d w))
      ∙ omega (arith, length-points l),
  λ x. elem-points x 0 l d,
)
