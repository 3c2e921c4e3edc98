-- ===== src/Tests/Predicates.antt =====
-- src/toggles/predicates.cpp and src/toggles/lmdb-interval-list.cpp on a database in memory.
use motion_planning_gadget_s.Common.{
  ℕ, zero, suc, ◌-◌, ◌%◌, ◌≡◌, ◌≢◌, ◌⊎◌, ◌≤◌, ◌<◌, refl, sym, ap, subst, ◌∙◌, inl, inr, Bool, true,
  false, ◌&&◌, ◌||◌, Option, none, some, List, [], ◌∷◌, ◌++◌, ◌==◌, ltb, leb, ==_iff, length, arith,
  ℕ_discrete, if◌then◌else◌, Bool-cases,
}
use motion_planning_gadget_s.Varint.{store}
use motion_planning_gadget_s.Gadget.{Stats}
use motion_planning_gadget_s.Intervals.Sets.{Interval, covers, IsDisjoint}
use motion_planning_gadget_s.Intervals.Points.RoundTrip.{elem}
use motion_planning_gadget_s.Intervals.Stored.{
  Database, DatabaseLaws, to_bytes, write_interval_list_union, view_value, viewed, thrown,
}
use motion_planning_gadget_s.Intervals.Stored.Bytes.{view_value_lem}
use motion_planning_gadget_s.Intervals.Stored.Views.{HasList, write_interval_list_union_lem}
use motion_planning_gadget_s.Predicates.{
  PredicateKind, locations, states, uedges, dedges, total_edges, components, PredicateDemand,
  bounds, datum,
}
use motion_planning_gadget_s.Predicates.Update.{PredicateUpdateResult, update_basecase, lists}
use motion_planning_gadget_s.SelectById.{
  read_page, insert_by_hash, sort_by_hash, read_interval, select_gadget_id_to_hash, select_row,
  select_rows, select_gadget_id_to_value, select_gadget_id_to_stats,
}
use motion_planning_gadget_s.SelectById.Pages.{PageOf, hash_bytes}
use motion_planning_gadget_s.SelectById.Rows.{Indexed}
use motion_planning_gadget_s.Gadget.Decoding.{stats}
use motion_planning_gadget_s.Predicates.Correct.{AscendingFrom, AreListsOf}
use motion_planning_gadget_s.Predicates.Batches.{update_basecase_lem}
use motion_planning_gadget_s.Predicates.Database.{update_sl_predicates_commit, get_equal_predicate}
use motion_planning_gadget_s.Predicates.Commit.{Stores, Exists}
use motion_planning_gadget_s.Predicates.Result.{within, IsValid}
use motion_planning_gadget_s.Predicates.Refresh.{Agrees, update_sl_predicates_lem}
use motion_planning_gadget_s.Predicates.Queries.{get_equal_predicate_lem}

data Key : Type 0 where
  number : Key
  predicate : ℕ → ℕ → Key

Key-discrete : Discrete Key
Key-discrete = hlevel ℕ_discrete

abbrev code : PredicateKind → ℕ
code locations = 0
code states = 1
code uedges = 2
code dedges = 3
code total_edges = 4
code components = 5

abbrev key : PredicateKind → ℕ → Key
key kind b = predicate (code kind) b

abbrev same_key : Key → Key → Bool
same_key number number = true
same_key number (predicate k b) = false
same_key (predicate j a) number = false
same_key (predicate j a) (predicate k b) = (j == k) && (a == b)

abbrev State : Type 0
State = Key → Option (List ℕ)

abbrev db : Database Key State
db = record { get = λ s k. s k; put = λ s k v. some (λ j. if same_key j k then some v else s j) }

same_key_self : (k : Key) → same_key k k ≡ true
same_key_self number = refl
same_key_self (predicate k b) = ground arith

same_key_equal : (j k : Key) → same_key j k ≡ true → j ≡ k
same_key_equal number number h = refl
same_key_equal number (predicate k b) h = absurd (ground (arith, h))
same_key_equal (predicate j a) number h = absurd (ground (arith, h))
same_key_equal (predicate j a) (predicate k b) h =
    ap (λ x. predicate x a) ((==_iff j k).0 (ground (arith, h)))
    ∙ ap (predicate k) ((==_iff a b).0 (ground (arith, h)))

abbrev entry : Key → Option State → Option (List ℕ)
entry k none = none
entry k (some s) = s k

db-DatabaseLaws : DatabaseLaws db
db-DatabaseLaws = record {
  same = λ s t k v e. ap (entry k) (sym e) ∙ rw (same_key_self k) refl;
  other = λ s t k j v e n. ap (entry j) (sym e) ∙ (elim (Bool-cases (same_key j k)) [
    | inl h ↦ absurd (n (same_key_equal j k h))
    | inr h ↦ rw h refl
  ]);
}

-- Every id is that of a gadget with as many states.
abbrev stats_at : ℕ → Stats
stats_at z = record {
  locations = 2;
  states = z;
  undirected_edges = 1;
  directed_edges = 0;
  components = 1;
}

-- The hashes descend, so that the rows are read from the last id to the first.
abbrev hash_of : ℕ → ℕ
hash_of z = 10 - z

-- The index has the ids 1 and 2 on a page, and 3 on the next one.
abbrev page_for : ℕ → Option (ℕ × List ℕ)
page_for id =
    if ltb id 3
    then some (2, hash_bytes hash_of 1 2)
    else if ltb id 4
    then some (3, hash_bytes hash_of 3 1)
    else none

-- The header of a gadget with 2 locations, `z` states and an edge
abbrev header_at : ℕ → List ℕ
header_at z = 1 ∷ 8 ∷ z ∷ 1 ∷ []

abbrev get : ℕ → Option (List ℕ)
get h = if leb 7 h && leb h 9 then some (header_at (10 - h) ++ store 8 (10 - h)) else none

page_at : (id : ℕ) → 1 ≤ id → id < 4 → PageOf page_for hash_of id
page_at zero h k = absurd (omega arith)
page_at (suc zero) h k = record {
  first = 1;
  extent = 2;
  found = refl;
  from = omega arith;
  to = omega arith;
  small = omega arith;
}
page_at (suc (suc zero)) h k = record {
  first = 1;
  extent = 2;
  found = refl;
  from = omega arith;
  to = omega arith;
  small = omega arith;
}
page_at (suc (suc (suc zero))) h k = record {
  first = 3;
  extent = 1;
  found = refl;
  from = omega arith;
  to = omega arith;
  small = omega arith;
}
page_at (suc (suc (suc (suc id)))) h k = absurd (omega arith)

row_at :
    (id : ℕ)
    → 1 ≤ id
    → id < 4
    → (bytes : List ℕ) × (rest : List ℕ) × (get (hash_of id) ≡ some (bytes ++ store 8 id))
      × (stats bytes ≡ some (stats_at id, rest))
unfolding stats
row_at zero h k = absurd (omega arith)
row_at (suc zero) h k = (header_at 1, [], refl, refl)
row_at (suc (suc zero)) h k = (header_at 2, [], refl, refl)
row_at (suc (suc (suc zero))) h k = (header_at 3, [], refl, refl)
row_at (suc (suc (suc (suc id)))) h k = absurd (omega arith)

gadgets-Indexed : Indexed page_for get hash_of stats_at 1 4
gadgets-Indexed = record { pages = page_at; hashes = λ id h k. omega arith; rows = row_at }

selected :
    select_gadget_id_to_stats page_for get ((1, 4) ∷ [])
    ≡ some ((3, stats_at 3) ∷ (2, stats_at 2) ∷ (1, stats_at 1) ∷ [])
unfolding select_gadget_id_to_stats select_gadget_id_to_hash select_gadget_id_to_value read_interval
    read_page sort_by_hash insert_by_hash select_rows select_row stats
selected = refl

abbrev datum_at : ℕ → ℕ → ℕ
datum_at c z = if c == 1 then z else if c == 0 then 2 else if c == 3 then 0 else 1

abbrev has : Key → ℕ → Bool
has number z = false
has (predicate c b) z = leb (datum_at c z) b

abbrev demand : PredicateDemand
demand = record {
  begin_inclusive = 1;
  end_exclusive = 4;
  locations = [];
  states = 1 ∷ 3 ∷ [];
  uedges = [];
  dedges = [];
  tedges = [];
  components = [];
  max_gadget_id = 3;
}

key-Agrees : Agrees db key number has page_for get hash_of stats_at
key-Agrees locations b z = ground arith
key-Agrees states b z = ground arith
key-Agrees uedges b z = ground arith
key-Agrees dedges b z = ground arith
key-Agrees total_edges b z = ground arith
key-Agrees components b z = ground arith

demand-Ascending : (kind : PredicateKind) → AscendingFrom 0 (bounds kind demand)
demand-Ascending locations = tt
demand-Ascending states = ground arith
demand-Ascending uedges = tt
demand-Ascending dedges = tt
demand-Ascending total_edges = tt
demand-Ascending components = tt

-- The database has the predicate of at most 3 states, and is valid up to id 1: no gadget is in it yet.
abbrev initial : State
initial number = some (store 8 1)
initial (predicate c b) = if c == 1 && b == 3 then some [] else none

initial-lists : (k : Key) → k ≢ number → (initial k ≡ none) ⊎ Stores db initial k (within has 1 1 k)
unfolding Stores to_bytes
initial-lists number n = absurd (n refl)
initial-lists (predicate c b) n = elim (Bool-cases (c == 1 && b == 3)) [
  | inl h ↦ inr ([], rw h refl, record { maximal = tt; below = tt; members = λ z. ground arith })
  | inr h ↦ inl (rw h refl)
]

initial-IsValid : IsValid db number has initial 1
initial-IsValid = record { number = refl; lists = initial-lists }

initial-demanded :
    (k : Key)
    → k ≢ number
    → Exists db initial k
    → (kind : PredicateKind) × (b : ℕ) × (k ≡ key kind b) × (elem b (bounds kind demand) ≡ true)
initial-demanded number n e = absurd (n refl)
initial-demanded (predicate c b) n (v, e) = elim (Bool-cases (c == 1 && b == 3)) [
  | inl h ↦
      let one : c ≡ 1 = ground (arith, h) in
      let three : b ≡ 3 = ground (arith, h) in
      (states, 3, ap (λ x. predicate x b) one ∙ ap (predicate 1) three, refl)
  | inr h ↦ absurd (none-some v (sym (rw h refl) ∙ e))
]
  where
    is_none : Option (List ℕ) → Type 0
    is_none none = Unit
    is_none (some v) = ⊥

    none-some : (v : List ℕ) → none ≡ some v → ⊥
    none-some v e = subst (λ o. is_none o) e tt

key-number : (kind : PredicateKind) (b : ℕ) → key kind b ≢ number
key-number kind b e = subst is_predicate e tt
  where
    is_predicate : Key → Type 0
    is_predicate number = ⊥
    is_predicate (predicate c a) = Unit

update_sl_predicates_lem_example :
    (result : PredicateUpdateResult) × (t : State × Bool) × (update_basecase page_for get demand
      ≡ some result)
    × (update_sl_predicates_commit db key number initial 4 result ≡ some t)
    × IsValid db number has t.0 4
    × ((kind : PredicateKind) (b : ℕ)
        → elem b (bounds kind demand) ≡ true
        → Exists db t.0 (key kind b))
update_sl_predicates_lem_example =
    update_sl_predicates_lem db key number has page_for get hash_of stats_at initial demand 1
      Key-discrete db-DatabaseLaws (λ s k v. (_, refl)) key-number gadgets-Indexed key-Agrees
      demand-Ascending initial-IsValid (omega arith) (omega arith) (omega arith) (omega arith)
      (λ kind b m n. omega arith) (λ lt k n e. initial-demanded k n e)

update_basecase_lem_example :
    (result : PredicateUpdateResult) × (update_basecase page_for get demand ≡ some result)
    × ((kind : PredicateKind)
        → AreListsOf
            (λ b z. leb 1 z && (ltb z 4 && leb (datum kind (stats_at z)) b))
            (bounds kind demand)
            (lists kind result))
update_basecase_lem_example =
    update_basecase_lem page_for get hash_of stats_at demand gadgets-Indexed (omega arith)
      (omega arith) (omega arith) demand-Ascending

-- The gadgets below id 4 that are in the database
abbrev known : ℕ → Bool
known z = leb 1 z && ltb z 4

-- A database of the states of those gadgets, up to 1 and up to 2.
abbrev later : State
later number = some (store 8 4)
later (predicate c b) =
    if c == 1 && b == 1
    then some (to_bytes ((1, 2) ∷ []))
    else if c == 1 && b == 2
    then some (to_bytes ((1, 3) ∷ []))
    else none

get_equal_predicate_lem_example :
    (ret : List Interval) × (get_equal_predicate db key later states 2 ≡ some ret)
    × IsDisjoint ret
    × ((z : ℕ) → covers z ret ≡ (known z && datum_at 1 z == 2))
unfolding Stores
get_equal_predicate_lem_example =
    get_equal_predicate_lem db key later states 2 known (λ kind z. datum_at (code kind) z)
      (omega arith) (omega arith) (λ z h. omega arith)
      (
        (1, 3) ∷ [],
        refl,
        record { maximal = ground arith; below = ground arith; members = λ z. ground arith },
      )
      (λ h. (
        (1, 2) ∷ [],
        refl,
        record { maximal = ground arith; below = ground arith; members = λ z. ground arith },
      ))

write_interval_list_union_lem_example :
    (t : State) × (ret : List Interval) × (write_interval_list_union db later
        (key states 1)
        ((2, 3) ∷ [])
      ≡ some (ret, t))
    × HasList db t (key states 1) ret
    × ((x : ℕ) → covers x ret ≡ (covers x ((1, 2) ∷ []) || covers x ((2, 3) ∷ [])))
    × ((j : Key) → j ≢ key states 1 → t j ≡ later j)
write_interval_list_union_lem_example =
    write_interval_list_union_lem db later (key states 1) ((1, 2) ∷ []) ((2, 3) ∷ [])
      db-DatabaseLaws (λ v. (_, refl))
      (record { value = inl refl; maximal = ground arith; below = ground arith }) (ground arith)
      (ground arith)

-- The bytes of the interval from 4 up to 9
abbrev stored : List ℕ
stored = store 8 4 ++ store 8 9

view_value_lem_example :
    ((length stored % 16 ≡ 0)
      × (l : List Interval) × (view_value (some stored) ≡ viewed l)
      × (to_bytes l ≡ stored))
    ⊎ ((length stored % 16 ≢ 0) × (view_value (some stored) ≡ thrown))
view_value_lem_example = view_value_lem stored (ground arith)
