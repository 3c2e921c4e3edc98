-- ===== src/SelectById.antt =====
-- src/toggles/select-by-id.cpp: the statistics of the gadgets of intervals of ids, looked up through
-- the index from ids to hashes and the hash table.
pub mod Pages
pub mod Rows
use motion_planning_gadget_s.Common.{
  ℕ, zero, suc, ◌+◌, ◌-◌, ◌*◌, ◌/◌, ◌%◌, Option, none, some, List, [], ◌∷◌, ◌++◌, ◌==◌, leb, ltb,
  ◌>>=◌, if◌then◌else◌, length, take, drop, add64, sub64, word,
}
use motion_planning_gadget_s.Varint.{load}
use motion_planning_gadget_s.Gadget.{Stats}
use motion_planning_gadget_s.Gadget.Decoding.{stats}
use motion_planning_gadget_s.Intervals.Sets.{Interval}

-- The inner `while` loop from an id on, with the number of ids to go and the bytes of the page that are
-- left: the ids with their hashes, and the number of ids that are left for the next page.
unfoldable pub read_page : ℕ → ℕ → List ℕ → Option (List (ℕ × ℕ) × ℕ)
read_page zero id bytes = some ([], 0)
read_page (suc count) id [] = some ([], suc count)
read_page (suc count) id (b ∷ bytes) = do
  hash ← load 8 (b ∷ bytes)
  page ← read_page count (suc id) hash.1
  some ((id, hash.0) ∷ page.0, page.1)

-- The bytes of a page from an id on, where the key is the page's last id
abbrev pub page_from : ℕ → ℕ × List ℕ → List ℕ
page_from id page =
    let first_id_on_page = add64 (sub64 page.0 (length page.1 / 8)) 1 in
    drop ((sub64 id first_id_on_page * 8) % word) page.1

abbrev pub with_rest : List (ℕ × ℕ) → List (ℕ × ℕ) → Option (List (ℕ × ℕ))
with_rest entries rest = some (entries ++ rest)

-- The last 8 bytes of a value; `substr` throws on fewer.
abbrev pub number_of : Option (ℕ × List ℕ) → Option ℕ
number_of none = none
number_of (some r) = some r.0

abbrev pub appended_id : List ℕ → Option ℕ
appended_id value =
    if ltb (length value) 8 then none else number_of (load 8 (drop (length value - 8) value))

abbrev pub without_id : List ℕ → List ℕ
without_id value = take (length value - 8) value

-- A row from what `stats_extractor` reads
abbrev pub row_of : ℕ → Option (Stats × List ℕ) → Option (ℕ × Stats)
row_of id none = none
row_of id (some s) = some (id, s.0)

abbrev pub checked_row : ℕ → List ℕ → ℕ → Option (ℕ × Stats)
checked_row id value appended =
    if appended == id then row_of id (stats (without_id value)) else none

-- `std::sort` by `proj_less<1>`, on the hashes
unfoldable pub insert_by_hash : ℕ × ℕ → List (ℕ × ℕ) → List (ℕ × ℕ)
insert_by_hash p [] = p ∷ []
insert_by_hash p (q ∷ ps) = if leb p.1 q.1 then p ∷ q ∷ ps else q ∷ insert_by_hash p ps

unfoldable pub sort_by_hash : List (ℕ × ℕ) → List (ℕ × ℕ)
sort_by_hash [] = []
sort_by_hash (p ∷ ps) = insert_by_hash p (sort_by_hash ps)

-- `seek` is a cursor's get with MDB_SET_RANGE in gadget_index, which finds the first key that is not
-- below the id. `none` is an exception from here on, or a read behind a value, or out of fuel.
module _ (seek : ℕ → Option (ℕ × List ℕ)) where
  -- The outer `while` loop, on fuel
  unfoldable pub read_interval : ℕ → ℕ → ℕ → Option (List (ℕ × ℕ))
  read_interval zero count id = none
  read_interval (suc fuel) zero id = some []
  read_interval (suc fuel) (suc count) id = do
    page ← seek id
    read ← read_page (suc count) id (page_from id page)
    rest ← read_interval fuel read.1 (id + (suc count - read.1))
    with_rest read.0 rest

  unfoldable pub select_gadget_id_to_hash : List Interval → Option (List (ℕ × ℕ))
  select_gadget_id_to_hash [] = some []
  select_gadget_id_to_hash (p ∷ gid_intervals) =
      let others = select_gadget_id_to_hash gid_intervals in
      let entries = read_interval (suc (p.1 - p.0)) (p.1 - p.0) p.0 in
      if p.0 == 0 then none else (entries >>= λ es. others >>= λ rest. with_rest es rest)

-- `get` is a cursor's get with MDB_SET in gadget_hashtable.
module _ (get : ℕ → Option (List ℕ)) where
  unfoldable pub select_row : ℕ × ℕ → Option (ℕ × Stats)
  select_row p = do value ← get p.1; appended ← appended_id value; checked_row p.0 value appended

  -- The loop of `select_gadget_id_to_value`
  unfoldable pub select_rows : List (ℕ × ℕ) → Option (List (ℕ × Stats))
  select_rows [] = some []
  select_rows (p ∷ ps) = do row ← select_row p; rest ← select_rows ps; some (row ∷ rest)

  unfoldable pub select_gadget_id_to_value : List (ℕ × ℕ) → Option (List (ℕ × Stats))
  select_gadget_id_to_value id_to_hash = select_rows (sort_by_hash id_to_hash)

unfoldable pub select_gadget_id_to_stats :
    (ℕ → Option (ℕ × List ℕ)) → (ℕ → Option (List ℕ)) → List Interval → Option (List (ℕ × Stats))
select_gadget_id_to_stats seek get gid_intervals = do
  id_to_hash ← select_gadget_id_to_hash seek gid_intervals
  select_gadget_id_to_value get id_to_hash
