-- ===== src/Tests/Intervals.antt =====
-- src/intervals.hpp at concrete inputs.
use motion_planning_gadget_s.Intervals.Chunk.{interval_chunk}
use motion_planning_gadget_s.Intervals.Chunk.Pieces.{concat}
use motion_planning_gadget_s.Intervals.Chunk.Correct.{Chunks, interval_chunk_lem}
use motion_planning_gadget_s.Common.{
  ℕ, ◌≡◌, ◌↔◌, refl, List, [], ◌∷◌, ◌&&◌, ◌||◌, not, true, some, arith,
}
use motion_planning_gadget_s.Intervals.Sets.{Interval, covers, IsMaximal, IsDisjoint}
use motion_planning_gadget_s.Intervals.Merge.{interval_union}
use motion_planning_gadget_s.Intervals.Merge.Union.{interval_union_lem}
use motion_planning_gadget_s.Intervals.Sweep.{
  overlap, interval_overlap, interval_intersection, interval_difference,
}
use motion_planning_gadget_s.Intervals.Sweep.Intersection.{interval_intersection_lem}
use motion_planning_gadget_s.Intervals.Sweep.Overlap.{interval_overlap-eq-overlap}
use motion_planning_gadget_s.Intervals.Sweep.Difference.{interval_difference_lem}
use motion_planning_gadget_s.Intervals.Points.RoundTrip.{elem}
use motion_planning_gadget_s.Intervals.Search.{interval_contains}
use motion_planning_gadget_s.Intervals.Search.Correct.{interval_contains_lem}
use motion_planning_gadget_s.Intervals.Accumulator.{IntervalAccumulator, create, add_all, finish}
use motion_planning_gadget_s.Intervals.Accumulator.Correct.{finish-add_all}

abbrev evens : List Interval
evens = (0, 4) ∷ (10, 20) ∷ (30, 31) ∷ []

abbrev odds : List Interval
odds = (2, 12) ∷ (15, 16) ∷ (40, 50) ∷ []

abbrev far : List Interval
far = (4, 6) ∷ (60, 70) ∷ []

abbrev sparse : List ℕ
sparse = 3 ∷ 4 ∷ 5 ∷ 9 ∷ []

-- Two numbers fit into the buffer.
abbrev accumulator : IntervalAccumulator
accumulator = record { accum = []; buf = []; capacity = 2 }

interval_union_lem_example :
    IsMaximal (interval_union evens odds)
    × ((x : ℕ) → covers x (interval_union evens odds) ≡ (covers x evens || covers x odds))
interval_union_lem_example = interval_union_lem evens odds (omega arith) (omega arith)

interval_intersection_lem_example :
    IsMaximal (interval_intersection evens odds)
    × ((x : ℕ) → covers x (interval_intersection evens odds) ≡ (covers x evens && covers x odds))
interval_intersection_lem_example = interval_intersection_lem evens odds (omega arith) (omega arith)

interval_difference_lem_example :
    (ret : List Interval) × (interval_difference evens odds ≡ some ret)
    × IsDisjoint ret
    × ((x : ℕ) → covers x ret ≡ (covers x evens && not (covers x odds)))
interval_difference_lem_example = interval_difference_lem evens odds (omega arith) (omega arith)

interval_overlap-eq-overlap_example :
    (interval_overlap evens odds ≡ overlap)
    ↔ ((x : ℕ) × (covers x evens ≡ true) × (covers x odds ≡ true))
interval_overlap-eq-overlap_example =
    interval_overlap-eq-overlap evens odds (omega arith) (omega arith)

apart : (x : ℕ) → covers x evens ≡ true → covers x far ≡ true → ⊥
apart x p q = ground arith

interval_contains_lem_example : interval_contains evens 15 ≡ some (covers 15 evens)
interval_contains_lem_example = interval_contains_lem evens 15 (omega arith)

created : create 2 ≡ some accumulator
unfolding create
created = refl

finish-add_all_example :
    IsMaximal (finish (add_all accumulator (9 ∷ 3 ∷ 9 ∷ 4 ∷ 3 ∷ [])))
    × ((x : ℕ)
        → covers x (finish (add_all accumulator (9 ∷ 3 ∷ 9 ∷ 4 ∷ 3 ∷ [])))
          ≡ elem x (9 ∷ 3 ∷ 9 ∷ 4 ∷ 3 ∷ []))
finish-add_all_example = finish-add_all 2 accumulator (9 ∷ 3 ∷ 9 ∷ 4 ∷ 3 ∷ []) created (omega arith)

interval_chunk_lem_example :
    (chunks : List (List Interval)) × (interval_chunk ((3, 8) ∷ (10, 12) ∷ []) 4 ≡ some chunks)
    × Chunks 4 chunks
    × IsDisjoint (concat chunks)
    × ((x : ℕ) → covers x (concat chunks) ≡ covers x ((3, 8) ∷ (10, 12) ∷ []))
interval_chunk_lem_example =
    interval_chunk_lem ((3, 8) ∷ (10, 12) ∷ []) 4 (omega arith) (omega arith) (omega arith)
      (omega arith)
