-- ===== src/Intervals/Points/RoundTrip.antt =====
-- src/intervals.hpp: `maximal_intervals` and `interval_inflate` undo one another.
use motion_planning_gadget_s.Common.{
  ℕ, zero, suc, List, [], ◌∷◌, ◌==◌, ◌+◌, ◌≤◌, ◌<◌, ◌≡◌, refl, ◌∙◌, ap,
}
use motion_planning_gadget_s.Common.{
  Bool, Bool-cases, inl, inr, ◌||◌, some, false, ◌++◌, word, add64, sub64, arith, append_assoc,
  append-nil,
}
use motion_planning_gadget_s.Intervals.Sets.{Interval, covers, MaximalFrom, IsMaximal}
use motion_planning_gadget_s.Intervals.Points.{
  maximal_loop, maximal_intervals, inflate_loop, inflate_all, interval_inflate,
}

-- Strictly increasing from `lo` on, and below the last 64-bit number, whose interval would wrap.
abbrev pub Increasing : ℕ → List ℕ → Type 0
Increasing lo [] = Unit
Increasing lo (x ∷ xs) = (lo ≤ x) × (x + 1 < word) × Increasing (suc x) xs

abbrev pub elem : ℕ → List ℕ → Bool
elem x [] = false
elem x (y ∷ ys) = x == y || elem x ys

-- The numbers from `i` on.
abbrev pub run : ℕ → ℕ → List ℕ
run zero i = []
run (suc n) i = i ∷ run n (i + 1)

maximal_loop-MaximalFrom :
    (lo left right : ℕ) (xs : List ℕ)
    → lo ≤ left
    → left ≤ right
    → right + 1 < word
    → Increasing (suc right) xs
    → MaximalFrom lo (maximal_loop left right xs)
unfolding maximal_loop
maximal_loop-MaximalFrom lo left right [] h k m s = (h, omega arith, tt)
maximal_loop-MaximalFrom lo left right (x ∷ xs) h k m s = elim (Bool-cases (sub64 x right == 1)) [
  | inl e ↦ rw e (maximal_loop-MaximalFrom lo left x xs h (omega arith) (omega arith) s.2)
  | inr e ↦ rw e (
    h,
    omega arith,
    maximal_loop-MaximalFrom (suc (add64 right 1)) x x xs (ground arith) (omega arith) (omega arith)
        s.2,
  )
]

covers-maximal_loop :
    (x left right : ℕ) (xs : List ℕ)
    → left ≤ right
    → right + 1 < word
    → Increasing (suc right) xs
    → covers x (maximal_loop left right xs) ≡ (covers x ((left, right + 1) ∷ []) || elem x xs)
unfolding maximal_loop
covers-maximal_loop x left right [] h k s = ground arith
covers-maximal_loop x left right (y ∷ ys) h k s = elim (Bool-cases (sub64 y right == 1)) [
  | inl e ↦ rw e (covers-maximal_loop x left y ys (omega arith) (omega arith) s.2 ∙ ground arith)
  | inr e ↦ rw e (ground (arith, covers-maximal_loop x y y ys))
]

-- A run of `interval_inflate`'s inner loop, given the fuel for its length and its last test.
inflate_loop-run :
    (n fuel i : ℕ) (ret : List ℕ)
    → n < fuel
    → i + n < word
    → inflate_loop fuel i (i + n) ret ≡ some (ret ++ run n i)
unfolding inflate_loop
inflate_loop-run n zero i ret h k = absurd (omega arith)
inflate_loop-run zero (suc fuel) i ret h k = ground (arith, append-nil ret)
inflate_loop-run (suc n) (suc fuel) i ret h k =
    let step : add64 i 1 ≡ i + 1 = omega arith in
    let more : (i == i + suc n) ≡ false = ground arith in
    let shift : i + suc n ≡ i + 1 + n = omega arith in
    rw (more, step)
      (rw shift (
        inflate_loop-run n fuel (i + 1) (ret ++ (i ∷ [])) (omega arith) (omega arith)
        ∙ rw (append_assoc ret (i ∷ []))))

pub inflate_all-nil : (ret : List ℕ) → inflate_all ret [] ≡ some ret
unfolding inflate_all
inflate_all-nil ret = refl

pub inflate_all-interval :
    (i n : ℕ) (ret : List ℕ) (l : List Interval)
    → i + n < word
    → inflate_all ret ((i, i + n) ∷ l) ≡ inflate_all (ret ++ run n i) l
unfolding inflate_all
inflate_all-interval i n ret l h =
    rw (inflate_loop-run n (suc word) i ret (omega arith) h, inflate_all)

run-append : (n i x : ℕ) (xs : List ℕ) → x ≡ i + n → run (suc n) i ++ xs ≡ run n i ++ (x ∷ xs)
run-append zero i x xs h = ground arith
run-append (suc n) i x xs h = ground (arith, run-append n (i + 1) x xs)

inflate_all-maximal_loop :
    (left n right : ℕ) (xs ret : List ℕ)
    → right ≡ left + n
    → right + 1 < word
    → Increasing (suc right) xs
    → inflate_all ret (maximal_loop left right xs) ≡ some (ret ++ (run (suc n) left ++ xs))
unfolding maximal_loop
inflate_all-maximal_loop left n right [] ret p h s =
    let last : add64 right 1 ≡ left + suc n = omega arith in
    rw (last, inflate_all-interval left (suc n) ret [] (omega arith), append-nil (run (suc n) left))
      (inflate_all-nil _)
inflate_all-maximal_loop left n right (x ∷ xs) ret p h s = elim (Bool-cases (sub64 x right == 1)) [
  | inl e ↦
      rw (e, ← run-append (suc n) left x xs (ground arith))
        (inflate_all-maximal_loop left (suc n) x xs ret (ground arith) (omega arith) s.2)
  | inr e ↦
      let last : add64 right 1 ≡ left + suc n = omega arith in
      rw
        (
          e,
          last,
          inflate_all-interval left (suc n) ret (maximal_loop x x xs) (omega arith),
          inflate_all-maximal_loop x 0 x xs (ret ++ run (suc n) left) (omega arith) (omega arith)
              s.2,
        )
        (ap some (append_assoc ret (run (suc n) left) (x ∷ xs)))
]

-- `interval_inflate` gives back the strictly increasing numbers that `maximal_intervals` grouped, if
-- none of them is the last 64-bit number.
pub interval_inflate-maximal_intervals :
    (xs : List ℕ) → Increasing 0 xs → interval_inflate (maximal_intervals xs) ≡ some xs
unfolding interval_inflate maximal_intervals
interval_inflate-maximal_intervals [] s = inflate_all-nil []
interval_inflate-maximal_intervals (x ∷ xs) s =
    inflate_all-maximal_loop x 0 x xs [] (omega arith) (omega arith) s.2

-- From strictly increasing numbers, the last 64-bit number not among them, `maximal_intervals`
-- builds the maximal list of the intervals of exactly these numbers.
pub maximal_intervals_lem :
    (xs : List ℕ)
    → Increasing 0 xs
    → IsMaximal (maximal_intervals xs) × ((x : ℕ) → covers x (maximal_intervals xs) ≡ elem x xs)
unfolding maximal_intervals
maximal_intervals_lem [] s = (tt, λ x. refl)
maximal_intervals_lem (y ∷ ys) s = (
  maximal_loop-MaximalFrom 0 y y ys (omega arith) (omega arith) (omega arith) s.2,
  λ x. ground (arith, covers-maximal_loop x y y ys),
)
