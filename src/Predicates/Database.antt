-- ===== src/Predicates/Database.antt =====
-- src/toggles/predicates.cpp: the queries of the predicates' database, and the commit of an update.
-- A database key is any type, and `key` is the key's text `fmt::format("{}<={}", kind, bound)`.
use motion_planning_gadget_s.Common.{
  ℕ, Bool, true, false, ◌&&◌, Option, none, some, List, [], ◌∷◌, ◌==◌, ◌>>=◌, ltb, length,
  if◌then◌else◌, sub32,
}
use motion_planning_gadget_s.Varint.{store, load}
use motion_planning_gadget_s.Intervals.Sets.{Interval}
use motion_planning_gadget_s.Intervals.Merge.{interval_union}
use motion_planning_gadget_s.Intervals.Sweep.{interval_difference, interval_intersection}
use motion_planning_gadget_s.Intervals.Stored.{
  Database, View, missing, thrown, viewed, view_value, view_interval_list, to_bytes,
}
use motion_planning_gadget_s.Predicates.{
  PredicateKind, locations, states, uedges, dedges, total_edges, components,
}
use motion_planning_gadget_s.Predicates.Update.{Lists, PredicateUpdateResult}

-- The view of a key that has to exist; `none` is an exception, in all that follows.
abbrev pub required : View → Option (List Interval)
required missing = none
required thrown = none
required (viewed l) = some l

abbrev pub intersected : List Interval → List Interval → Option (List Interval)
intersected intervals l = some (interval_intersection intervals l)

abbrev pub is_locations : PredicateKind → Bool
is_locations locations = true
is_locations states = false
is_locations uedges = false
is_locations dedges = false
is_locations total_edges = false
is_locations components = false

module _ {Key State : Type 0} (db : Database Key State) (key : PredicateKind → ℕ → Key) where
  unfoldable pub get_predicate : State → PredicateKind → ℕ → Option (List Interval)
  get_predicate s kind bound = required (view_interval_list db s (key kind bound))

  unfoldable pub get_predicate_range_query : State → PredicateKind → ℕ → ℕ → Option (List Interval)
  get_predicate_range_query s kind lower_exclusive upper_inclusive = do
    upper ← required (view_interval_list db s (key kind upper_inclusive))
    lower ← required (view_interval_list db s (key kind lower_exclusive))
    interval_difference upper lower

  unfoldable pub get_equal_predicate : State → PredicateKind → ℕ → Option (List Interval)
  get_equal_predicate s kind equal_to =
      if is_locations kind && equal_to == 2
      then get_predicate s kind equal_to
      else get_predicate_range_query s kind (sub32 equal_to 1) equal_to

  unfoldable pub subtract_predicate :
      State → PredicateKind → ℕ → List Interval → Option (List Interval)
  subtract_predicate s kind bound intervals = do
    l ← required (view_interval_list db s (key kind bound))
    interval_difference intervals l

  unfoldable pub intersect_predicate :
      State → PredicateKind → ℕ → List Interval → Option (List Interval)
  intersect_predicate s kind bound intervals = do
    l ← required (view_interval_list db s (key kind bound))
    intersected intervals l

-- What `commit_stuff` does to a key: nothing, an exception, or a put of this list.
pub data Change : Type 0 where
  keep : Change
  throw : Change
  replace : List Interval → Change

abbrev pub change_view : List Interval → View → Change
change_view l missing = replace l
change_view l thrown = throw
change_view l (viewed old) = replace (interval_union l old)

abbrev pub change_nonempty : List Interval → List ℕ → Change
change_nonempty [] value = keep
change_nonempty (i ∷ l) value = change_view (i ∷ l) (view_value (some value))

-- `same` tells that the speculative value and the actual one agree.
unfoldable pub change_of : Bool → List Interval → Option (List ℕ) → Change
change_of same l none = replace l
change_of same l (some value) = if same then keep else change_nonempty l value

abbrev pub from_loaded : Option (ℕ × List ℕ) → Option ℕ
from_loaded none = none
from_loaded (some r) = some r.0

-- `lmdb::from_sv`: `none` where the value is not one 64-bit number.
abbrev pub from_sv : List ℕ → Option ℕ
from_sv value = if length value == 8 then from_loaded (load 8 value) else none

-- The state with the flag `updated`
abbrev pub marked {ℓ} : {State : Type ℓ} → Option State → Option (State × Bool)
marked none = none
marked (some t) = some (t, true)

module _ {Key State : Type 0} (db : Database Key State) where
  abbrev pub apply_change : State → Bool → Key → Change → Option (State × Bool)
  apply_change s updated k keep = some (s, updated)
  apply_change s updated k throw = none
  apply_change s updated k (replace l) = marked (db.put s k (to_bytes l))

  unfoldable pub commit_stuff :
      Bool → State × Bool → List (Key × List Interval) → Option (State × Bool)
  commit_stuff same s [] = some s
  commit_stuff same s (p ∷ stuff) = do
    t ← apply_change s.0 s.1 p.0 (change_of same p.1 (db.get s.0 p.0))
    commit_stuff same t stuff

-- The entries with the text of their keys
abbrev pub keyed {κ} : {Key : Type κ} → (ℕ → Key) → Lists → List (Key × List Interval)
keyed key [] = []
keyed key (p ∷ ps) = (key p.0, p.1) ∷ keyed key ps

module _ {Key State : Type 0} (db : Database Key State) (key : PredicateKind → ℕ → Key)
    (valid_before : Key) where
  abbrev pub commit_result : Bool → State → PredicateUpdateResult → Option (State × Bool)
  commit_result same s result = do
    s1 ← commit_stuff db same (s, false) (keyed (key locations) result.locations)
    s2 ← commit_stuff db same s1 (keyed (key states) result.states)
    s3 ← commit_stuff db same s2 (keyed (key uedges) result.uedges)
    s4 ← commit_stuff db same s3 (keyed (key dedges) result.dedges)
    s5 ← commit_stuff db same s4 (keyed (key total_edges) result.tedges)
    commit_stuff db same s5 (keyed (key components) result.components)

  abbrev pub raise : State → ℕ → ℕ → Option State
  raise s speculative actual =
      if ltb actual speculative then db.put s valid_before (store 8 speculative) else some s

  abbrev pub commit_from : State → ℕ → PredicateUpdateResult → ℕ → Option (State × Bool)
  commit_from s speculative result actual =
      if ltb speculative actual
      then some (s, false)
      else (raise s speculative actual >>= λ t. commit_result (speculative == actual) t result)

  -- `update_SL_predicates_commit`; the transaction of an exception leaves the database as it was.
  unfoldable pub update_sl_predicates_commit :
      State → ℕ → PredicateUpdateResult → Option (State × Bool)
  update_sl_predicates_commit s speculative_value_before result = do
    value ← db.get s valid_before
    actual ← from_sv value
    commit_from s speculative_value_before result actual
