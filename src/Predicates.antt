-- ===== src/Predicates.antt =====
-- src/toggles/predicates.cpp: for each bound on a statistic of the gadgets, the ids of the gadgets
-- within it, as an interval list.
pub mod Update
pub mod Buckets
pub mod Correct
pub mod Batches
pub mod Database
pub mod Commit
pub mod Stuff
pub mod Result
pub mod Validity
pub mod Queries
pub mod Demanded
pub mod Refresh
pub mod Parallel
use motion_planning_gadget_s.Common.{
  ℕ, ◌+◌, ◌%◌, Bool, true, false, ◌&&◌, ◌||◌, List, [], ◌∷◌, ◌++◌, ◌==◌, length, word, word32,
  sub64,
}
use motion_planning_gadget_s.Gadget.{Stats}
use motion_planning_gadget_s.Intervals.Accumulator.{sort_numbers}

pub data PredicateKind : Type 0 where
  locations : PredicateKind
  states : PredicateKind
  uedges : PredicateKind
  dedges : PredicateKind
  total_edges : PredicateKind
  components : PredicateKind

pub record PredicateDemand : Type 0 where
  pub begin_inclusive : ℕ
  pub end_exclusive : ℕ
  pub locations : List ℕ
  pub states : List ℕ
  pub uedges : List ℕ
  pub dedges : List ℕ
  pub tedges : List ℕ
  pub components : List ℕ
  pub max_gadget_id : ℕ

abbrev pub size : PredicateDemand → ℕ
size d = sub64 d.end_exclusive d.begin_inclusive

-- `+` binds closer than `==`, and both closer than `||`.
abbrev pub empty : PredicateDemand → Bool
empty d =
    size d == 0
    || (length d.locations
          + length d.states
          + length d.uedges
          + length d.dedges
          + length d.tedges
          + length d.components)
        % word
      == 0

abbrev pub add : PredicateDemand → PredicateKind → ℕ → PredicateDemand
add d locations number = record d { locations = d.locations ++ (number ∷ []) }
add d states number = record d { states = d.states ++ (number ∷ []) }
add d uedges number = record d { uedges = d.uedges ++ (number ∷ []) }
add d dedges number = record d { dedges = d.dedges ++ (number ∷ []) }
add d total_edges number = record d { tedges = d.tedges ++ (number ∷ []) }
add d components number = record d { components = d.components ++ (number ∷ []) }

unfoldable pub sort : PredicateDemand → PredicateDemand
sort d = record d {
  locations = sort_numbers d.locations;
  states = sort_numbers d.states;
  uedges = sort_numbers d.uedges;
  dedges = sort_numbers d.dedges;
  tedges = sort_numbers d.tedges;
  components = sort_numbers d.components;
}

-- The demand's bounds of one kind
abbrev pub bounds : PredicateKind → PredicateDemand → List ℕ
bounds locations d = d.locations
bounds states d = d.states
bounds uedges d = d.uedges
bounds dedges d = d.dedges
bounds total_edges d = d.tedges
bounds components d = d.components

-- The statistic that predicates of a kind bound; the sum of the edges is one of unsigned ints.
abbrev pub datum : PredicateKind → Stats → ℕ
datum locations s = s.locations
datum states s = s.states
datum uedges s = s.undirected_edges
datum dedges s = s.directed_edges
datum total_edges s = (s.undirected_edges + s.directed_edges) % word32
datum components s = s.components
