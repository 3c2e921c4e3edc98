-- ===== src/Predicates/Update.antt =====
-- src/toggles/predicates.cpp: `PredicateUpdateAccumulator`, `PredicateUpdateResult` and the update in
-- batches.
use motion_planning_gadget_s.Common.{
  ℕ, zero, suc, ◌+◌, ◌-◌, min, Option, none, some, List, [], ◌∷◌, ltb, ◌>>=◌, if◌then◌else◌,
}
use motion_planning_gadget_s.Gadget.{Stats}
use motion_planning_gadget_s.Intervals.Sets.{Interval}
use motion_planning_gadget_s.Intervals.Merge.{interval_union}
use motion_planning_gadget_s.Intervals.Accumulator.{IntervalAccumulator, finish}
use motion_planning_gadget_s.Intervals.Accumulator
use motion_planning_gadget_s.SelectById.{select_gadget_id_to_stats}
use motion_planning_gadget_s.Predicates.{
  PredicateKind, locations, states, uedges, dedges, total_edges, components, PredicateDemand, datum,
}

abbrev pub Counters : Type 0
Counters = List (ℕ × IntervalAccumulator)

abbrev pub Lists : Type 0
Lists = List (ℕ × List Interval)

pub record PredicateUpdateAccumulator : Type 0 where
  pub locations : Counters
  pub states : Counters
  pub uedges : Counters
  pub dedges : Counters
  pub tedges : Counters
  pub components : Counters

pub record PredicateUpdateResult : Type 0 where
  pub locations : Lists
  pub states : Lists
  pub uedges : Lists
  pub dedges : Lists
  pub tedges : Lists
  pub components : Lists

-- `init`; the capacity is not 0, so that the constructor of the accumulator does not throw.
abbrev pub fresh : IntervalAccumulator
fresh = record { accum = []; buf = []; capacity = 1024 }

abbrev pub init : List ℕ → Counters
init [] = []
init (i ∷ demand) = (i, fresh) ∷ init demand

unfoldable pub accumulator_of : PredicateDemand → PredicateUpdateAccumulator
accumulator_of d = record {
  locations = init d.locations;
  states = init d.states;
  uedges = init d.uedges;
  dedges = init d.dedges;
  tedges = init d.tedges;
  components = init d.components;
}

-- `process`: `std::lower_bound` finds the first bound that is not below the datum.
abbrev pub process : ℕ → ℕ → Counters → Counters
process gadget_id d [] = []
process gadget_id d (p ∷ accum) =
    if ltb p.0 d
    then p ∷ process gadget_id d accum
    else (p.0, Accumulator.add p.1 gadget_id) ∷ accum

-- `operator()`
unfoldable pub accumulate : PredicateUpdateAccumulator → ℕ × Stats → PredicateUpdateAccumulator
accumulate a row = record {
  locations = process row.0 (datum locations row.1) a.locations;
  states = process row.0 (datum states row.1) a.states;
  uedges = process row.0 (datum uedges row.1) a.uedges;
  dedges = process row.0 (datum dedges row.1) a.dedges;
  tedges = process row.0 (datum total_edges row.1) a.tedges;
  components = process row.0 (datum components row.1) a.components;
}

-- The rounds of `convert_to_less_than` behind a list `previous`, `none` in the first round
abbrev pub with_smaller : Option (List Interval) → List Interval → List Interval
with_smaller none l = l
with_smaller (some previous) l = interval_union previous l

unfoldable pub convert_from : Option (List Interval) → Counters → Lists
convert_from previous [] = []
convert_from previous (p ∷ accum) =
    let l = with_smaller previous (finish p.1) in (p.0, l) ∷ convert_from (some l) accum

abbrev pub convert_to_less_than : Counters → Lists
convert_to_less_than accum = convert_from none accum

unfoldable pub finish_update : PredicateUpdateAccumulator → PredicateUpdateResult
finish_update a = record {
  locations = convert_to_less_than a.locations;
  states = convert_to_less_than a.states;
  uedges = convert_to_less_than a.uedges;
  dedges = convert_to_less_than a.dedges;
  tedges = convert_to_less_than a.tedges;
  components = convert_to_less_than a.components;
}

-- The inner loop of the base case
unfoldable pub accumulate_all :
    PredicateUpdateAccumulator → List (ℕ × Stats) → PredicateUpdateAccumulator
accumulate_all a [] = a
accumulate_all a (row ∷ rows) = accumulate_all (accumulate a row) rows

-- `merge0`: the sizes and the bounds are asserted to agree.
unfoldable pub merge_lists : Lists → Lists → Lists
merge_lists [] them = []
merge_lists (p ∷ us) [] = []
merge_lists (p ∷ us) (q ∷ them) = (p.0, interval_union p.1 q.1) ∷ merge_lists us them

unfoldable pub merge_results : PredicateUpdateResult → PredicateUpdateResult → PredicateUpdateResult
merge_results left right = record {
  locations = merge_lists left.locations right.locations;
  states = merge_lists left.states right.states;
  uedges = merge_lists left.uedges right.uedges;
  dedges = merge_lists left.dedges right.dedges;
  tedges = merge_lists left.tedges right.tedges;
  components = merge_lists left.components right.components;
}

abbrev pub batch_size : ℕ → ℕ → ℕ
batch_size first last = min (last - first) 10000

-- The `while` loop of the base case on fuel; `none` is an exception of `select_gadget_id_to_stats`, or
-- out of fuel.
unfoldable pub batches :
    (ℕ → Option (ℕ × List ℕ))
    → (ℕ → Option (List ℕ))
    → ℕ
    → ℕ
    → ℕ
    → PredicateUpdateAccumulator
    → Option PredicateUpdateAccumulator
batches seek get zero first last a = none
batches seek get (suc fuel) first last a =
    let next = first + batch_size first last in
    let gadgets = select_gadget_id_to_stats seek get ((first, next) ∷ []) in
    let rest = gadgets >>= λ rows. batches seek get fuel next last (accumulate_all a rows) in
    if ltb first last then rest else some a

abbrev pub finished : Option PredicateUpdateAccumulator → Option PredicateUpdateResult
finished none = none
finished (some a) = some (finish_update a)

unfoldable pub update_basecase :
    (ℕ → Option (ℕ × List ℕ))
    → (ℕ → Option (List ℕ))
    → PredicateDemand
    → Option PredicateUpdateResult
unfolding batches
update_basecase seek get d =
    let fuel = suc (d.end_exclusive - d.begin_inclusive) in
    finished (batches seek get fuel d.begin_inclusive d.end_exclusive (accumulator_of d))

-- The part of an accumulator or of a result that is of one kind
abbrev pub counters : PredicateKind → PredicateUpdateAccumulator → Counters
counters locations a = a.locations
counters states a = a.states
counters uedges a = a.uedges
counters dedges a = a.dedges
counters total_edges a = a.tedges
counters components a = a.components

abbrev pub lists : PredicateKind → PredicateUpdateResult → Lists
lists locations r = r.locations
lists states r = r.states
lists uedges r = r.uedges
lists dedges r = r.dedges
lists total_edges r = r.tedges
lists components r = r.components
