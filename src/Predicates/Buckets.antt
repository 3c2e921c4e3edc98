-- ===== src/Predicates/Buckets.antt =====
-- src/toggles/predicates.cpp: what the accumulators hold after the gadgets of a scan.
use motion_planning_gadget_s.Common.{
  ℕ, ◌≤◌, ◌≡◌, refl, sym, ap, ◌∙◌, inl, inr, Bool, false, ◌&&◌, ◌||◌, List, [], ◌∷◌, ltb, leb, ◌==◌,
  if◌then◌else◌, Bool-cases, arith,
}
use motion_planning_gadget_s.Gadget.{Stats}
use motion_planning_gadget_s.Intervals.Points.RoundTrip.{elem}
use motion_planning_gadget_s.Intervals.Accumulator.{add_all}
use motion_planning_gadget_s.Intervals.Accumulator.Sorting.{Fit}
use motion_planning_gadget_s.Predicates.{
  PredicateKind, locations, states, uedges, dedges, total_edges, components, datum,
}
use motion_planning_gadget_s.Predicates.Update.{
  Counters, PredicateUpdateAccumulator, process, accumulate, accumulate_all, counters,
}

-- The rows of a scan, an id with its datum each
abbrev pub Rows : Type 0
Rows = List (ℕ × ℕ)

abbrev pub rows_of : PredicateKind → List (ℕ × Stats) → Rows
rows_of kind [] = []
rows_of kind (row ∷ rows) = (row.0, datum kind row.1) ∷ rows_of kind rows

-- Whether the id has a row with a datum of at most `bound`
abbrev pub has_within : ℕ → ℕ → Rows → Bool
has_within z bound [] = false
has_within z bound (row ∷ rows) = (z == row.0 && leb row.1 bound) || has_within z bound rows

abbrev pub process_all : Counters → Rows → Counters
process_all accum [] = accum
process_all accum (row ∷ rows) = process_all (process row.0 row.1 accum) rows

-- The ids of the rows up to a bound, and the rows above it
abbrev pub ids_within : ℕ → Rows → List ℕ
ids_within bound [] = []
ids_within bound (row ∷ rows) =
    let rest = ids_within bound rows in if ltb bound row.1 then rest else row.0 ∷ rest

abbrev pub above : ℕ → Rows → Rows
above bound [] = []
above bound (row ∷ rows) =
    let rest = above bound rows in if ltb bound row.1 then row ∷ rest else rest

abbrev pub spread : Counters → Rows → Counters
spread [] rows = []
spread (p ∷ accum) rows = (p.0, add_all p.1 (ids_within p.0 rows)) ∷ spread accum (above p.0 rows)

spread-nil : (accum : Counters) → spread accum [] ≡ accum
unfolding add_all
spread-nil [] = refl
spread-nil (p ∷ accum) = ap (λ l. p ∷ l) (spread-nil accum)

spread-process :
    (accum : Counters) (row : ℕ × ℕ) (rows : Rows)
    → spread (process row.0 row.1 accum) rows ≡ spread accum (row ∷ rows)
unfolding add_all
spread-process [] row rows = refl
spread-process (p ∷ accum) row rows = elim (Bool-cases (ltb p.0 row.1)) [
  | inl h ↦ rw h (
      ap (λ l. (p.0, add_all p.1 (ids_within p.0 rows)) ∷ l)
        (spread-process accum row (above p.0 rows)))
  | inr h ↦ rw h refl
]

-- Each row's id goes to the first bound that is not below its datum.
pub process_all-spread :
    (accum : Counters) (rows : Rows) → process_all accum rows ≡ spread accum rows
process_all-spread accum [] = sym (spread-nil accum)
process_all-spread accum (row ∷ rows) =
    process_all-spread (process row.0 row.1 accum) rows ∙ spread-process accum row rows

pub elem-ids_within :
    (z bound : ℕ) (rows : Rows) → elem z (ids_within bound rows) ≡ has_within z bound rows
elem-ids_within z bound [] = refl
elem-ids_within z bound (row ∷ rows) = ground (arith, elem-ids_within z bound rows)

pub has_within-above :
    (z low high : ℕ) (rows : Rows)
    → low ≤ high
    → has_within z high rows ≡ (has_within z low rows || has_within z high (above low rows))
has_within-above z low high [] h = refl
has_within-above z low high (row ∷ rows) h = ground (arith, has_within-above z low high rows h)

abbrev pub FitRows : Rows → Type 0
FitRows [] = Unit
FitRows (row ∷ rows) = Fit (row.0 ∷ []) × FitRows rows

pub ids_within-Fit : (bound : ℕ) (rows : Rows) → FitRows rows → Fit (ids_within bound rows)
ids_within-Fit bound [] f = tt
ids_within-Fit bound (row ∷ rows) f = elim (Bool-cases (ltb bound row.1)) [
  | inl h ↦ rw h (ids_within-Fit bound rows f.1)
  | inr h ↦ rw h (f.0.0, ids_within-Fit bound rows f.1)
]

pub above-FitRows : (bound : ℕ) (rows : Rows) → FitRows rows → FitRows (above bound rows)
above-FitRows bound [] f = tt
above-FitRows bound (row ∷ rows) f = elim (Bool-cases (ltb bound row.1)) [
  | inl h ↦ rw h (f.0, above-FitRows bound rows f.1)
  | inr h ↦ rw h (above-FitRows bound rows f.1)
]

counters-accumulate :
    (kind : PredicateKind) (a : PredicateUpdateAccumulator) (row : ℕ × Stats)
    → counters kind (accumulate a row) ≡ process row.0 (datum kind row.1) (counters kind a)
unfolding accumulate
counters-accumulate locations a row = refl
counters-accumulate states a row = refl
counters-accumulate uedges a row = refl
counters-accumulate dedges a row = refl
counters-accumulate total_edges a row = refl
counters-accumulate components a row = refl

pub counters-accumulate_all :
    (kind : PredicateKind) (a : PredicateUpdateAccumulator) (rows : List (ℕ × Stats))
    → counters kind (accumulate_all a rows) ≡ process_all (counters kind a) (rows_of kind rows)
unfolding accumulate_all
counters-accumulate_all kind a [] = refl
counters-accumulate_all kind a (row ∷ rows) =
    counters-accumulate_all kind (accumulate a row) rows
    ∙ ap (λ c. process_all c (rows_of kind rows)) (counters-accumulate kind a row)
