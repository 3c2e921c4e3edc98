-- ===== src/Intervals/Search/Correct.antt =====
-- src/intervals.hpp: the binary search of `interval_contains` answers membership.
use motion_planning_gadget_s.Common.{
  take, ℕ, zero, suc, List, [], ◌∷◌, ltb, ◌+◌, ◌-◌, ◌/◌, ◌≤◌, ◌<◌, ◌≡◌, refl, ◌∙◌, ap, sym,
}
use motion_planning_gadget_s.Common.{
  ◌||◌, some, false, arith, length, drop, Bool-cases, inl, inr, length-drop, take-length,
}
use motion_planning_gadget_s.Intervals.Sets.{
  Interval, covers, in_interval, DisjointFrom, IsDisjoint, DisjointFrom-lower,
}
use motion_planning_gadget_s.Intervals.Search.{first_at, search_loop, hit, interval_contains}

DisjointFrom-drop : (k lo : ℕ) (l : List Interval) → DisjointFrom lo l → DisjointFrom lo (drop k l)
DisjointFrom-drop zero lo l d = d
DisjointFrom-drop (suc k) lo [] d = tt
DisjointFrom-drop (suc k) lo ((a, b) ∷ l) d =
    DisjointFrom-lower b lo (drop k l) (omega arith) (DisjointFrom-drop k b l d.2)

first_at-ge : (lo k : ℕ) (l : List Interval) → DisjointFrom lo l → k < length l → lo ≤ first_at l k
first_at-ge lo k [] d h = absurd (omega arith)
first_at-ge lo zero ((a, b) ∷ l) d h = d.0
first_at-ge lo (suc k) ((a, b) ∷ l) d h = omega (arith, first_at-ge b k l d.2 (omega arith))

covers-take_below :
    (x m lo : ℕ) (l : List Interval) → DisjointFrom lo l → x < lo → covers x (take m l) ≡ false
covers-take_below x zero lo l d h = refl
covers-take_below x (suc m) lo [] d h = refl
covers-take_below x (suc m) lo ((a, b) ∷ l) d h = ground (arith, covers-take_below x m b l d.2)

-- Nothing from index `k` on starts before the interval at `k`.
covers-take_before :
    (x k m lo : ℕ) (l : List Interval)
    → DisjointFrom lo l
    → k < length l
    → k ≤ m
    → x < first_at l k
    → covers x (take m l) ≡ covers x (take k l)
covers-take_before x k m lo [] d h n p = absurd (omega arith)
covers-take_before x zero m lo ((a, b) ∷ l) d h n p =
    covers-take_below x m a ((a, b) ∷ l) (omega arith, d.1, d.2) p
covers-take_before x (suc k) zero lo ((a, b) ∷ l) d h n p = absurd (omega arith)
covers-take_before x (suc k) (suc m) lo ((a, b) ∷ l) d h n p =
    ap (λ c. in_interval x (a, b) || c)
      (covers-take_before x k m b l d.2 (omega arith) (omega arith) p)

-- Everything before index `k` ends before the interval at `k` starts.
covers-take_behind :
    (x k m n lo : ℕ) (l : List Interval)
    → DisjointFrom lo l
    → k < length l
    → first_at l k ≤ x
    → n ≡ k + m
    → covers x (take n l) ≡ covers x (take m (drop k l))
covers-take_behind x k m n lo [] d h p e = absurd (omega arith)
covers-take_behind x zero m n lo ((a, b) ∷ l) d h p e =
    ap (λ c. covers x (take {A = Interval} c ((a, b) ∷ l))) (omega arith)
covers-take_behind x (suc k) m zero lo ((a, b) ∷ l) d h p e = absurd (omega arith)
covers-take_behind x (suc k) m (suc n) lo ((a, b) ∷ l) d h p e =
    ground (arith, covers-take_behind x k m n b l d.2, first_at-ge b k l d.2)

search_loop_lem :
    (fuel x n lo : ℕ) (base : List Interval)
    → DisjointFrom lo base
    → 0 < n
    → n ≤ fuel
    → n ≤ length base
    → (last : List Interval) × (search_loop fuel x base n ≡ some last)
      × (hit x last ≡ covers x (take n base))
unfolding search_loop
search_loop_lem zero x n lo base d h k m = absurd (omega arith)
search_loop_lem (suc fuel) x n lo [] d h k m = absurd (omega arith)
search_loop_lem (suc fuel) x n lo (i ∷ l) d h k m = elim (Bool-cases (ltb 1 n)) [
  | inr one ↦ (i ∷ l, rw one, last_round n i l h (ground arith))
  | inl more ↦ elim (Bool-cases (ltb x (first_at (i ∷ l) (n / 2)))) [
    | inl before ↦
        let (last, e, c) =
          search_loop_lem fuel x (n - n / 2) lo (i ∷ l) d (ground arith) (ground arith)
            (ground arith) in
        (
          last,
          rw (more, before) e,
          c
              ∙ covers-take_before x (n / 2) (n - n / 2) lo (i ∷ l) d (ground arith) (ground arith)
                  (ground arith)
              ∙ sym (
                  covers-take_before x (n / 2) n lo (i ∷ l) d (ground arith) (ground arith)
                    (ground arith)),
        )
    | inr behind ↦
        let (last, e, c) =
          search_loop_lem fuel x (n - n / 2) lo (drop (n / 2) (i ∷ l))
            (DisjointFrom-drop (n / 2) lo (i ∷ l) d) (ground arith) (ground arith)
            (ground (arith, length-drop (n / 2) (i ∷ l))) in
        (
          last,
          rw (more, behind) e,
          c
              ∙ sym (
                  covers-take_behind x (n / 2) (n - n / 2) n lo (i ∷ l) d (ground arith)
                    (ground arith) (ground arith)),
        )
  ]
]
  where
    last_round :
        (n : ℕ) (i : Interval) (l : List Interval)
        → 0 < n
        → n ≤ 1
        → hit x (i ∷ l) ≡ covers x (take {A = Interval} n (i ∷ l))
    last_round zero i l p q = absurd (omega arith)
    last_round (suc zero) i l p q = ground arith
    last_round (suc (suc n)) i l p q = absurd (omega arith)

-- On disjoint intervals the binary search of `interval_contains` ends, and answers whether the
-- element is in the set.
pub interval_contains_lem :
    (l : List Interval) (element : ℕ)
    → IsDisjoint l
    → interval_contains l element ≡ some (covers element l)
unfolding interval_contains
interval_contains_lem [] x d = refl
interval_contains_lem (i ∷ l) x d =
    let (last, e, c) =
      search_loop_lem (length (i ∷ l)) x (length (i ∷ l)) 0 (i ∷ l) d (omega arith) (omega arith)
        (omega arith) in
    rw (e, interval_contains) (ap some (c ∙ ap (covers x) (take-length (i ∷ l))))
