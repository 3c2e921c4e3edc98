-- ===== src/Intervals/Stored.antt =====
-- src/toggles/lmdb-interval-list.cpp: interval lists as the values of a database.
pub mod Bytes
pub mod Views
use motion_planning_gadget_s.Common.{
  ℕ, zero, suc, ◌+◌, ◌/◌, ◌%◌, ◌≡◌, ◌≢◌, Option, none, some, List, [], ◌∷◌, ◌++◌, ◌==◌,
  if◌then◌else◌, length,
}
use motion_planning_gadget_s.Varint.{store, load}
use motion_planning_gadget_s.Intervals.Sets.{Interval}
use motion_planning_gadget_s.Intervals.Merge.{interval_union}
use motion_planning_gadget_s.Intervals.Sweep.{interval_difference, interval_intersection}

-- A database inside a transaction, from lmdb++.h: `get` is `none` if the key does not exist, and
-- `put` is `none` where it throws or returns false. A value is a list of bytes.
pub record Database (Key State : Type 0) : Type 0 where
  pub get : State → Key → Option (List ℕ)
  pub put : State → Key → List ℕ → Option State

-- What a put that succeeded promises
pub record DatabaseLaws {Key State : Type 0} (db : Database Key State) : Type 0 where
  pub same : (s t : State) (k : Key) (v : List ℕ) → db.put s k v ≡ some t → db.get t k ≡ some v
  pub other :
      (s t : State) (k j : Key) (v : List ℕ)
      → db.put s k v ≡ some t
      → j ≢ k
      → db.get t j ≡ db.get s j

-- The bytes of an array of pairs of 64-bit numbers
unfoldable pub to_bytes : List Interval → List ℕ
to_bytes [] = []
to_bytes (i ∷ l) = store 8 i.0 ++ (store 8 i.1 ++ to_bytes l)

-- `reinterpret_cast` to an array of so many pairs; `none` is a read behind the value.
abbrev pub in_front : Interval → Option (List Interval) → Option (List Interval)
in_front i none = none
in_front i (some l) = some (i ∷ l)

abbrev pub behind_second :
    ℕ → Option (ℕ × List ℕ) → (List ℕ → Option (List Interval)) → Option (List Interval)
behind_second first none f = none
behind_second first (some second) f = in_front (first, second.0) (f second.1)

abbrev pub behind_first :
    Option (ℕ × List ℕ) → (List ℕ → Option (List Interval)) → Option (List Interval)
behind_first none f = none
behind_first (some first) f = behind_second first.0 (load 8 first.1) f

unfoldable pub read_pairs : ℕ → List ℕ → Option (List Interval)
read_pairs zero bytes = some []
read_pairs (suc count) bytes = behind_first (load 8 bytes) (λ rest. read_pairs count rest)

-- `thrown` is the exception on a value of the wrong size.
pub data View : Type 0 where
  missing : View
  thrown : View
  viewed : List Interval → View

abbrev pub viewed_if : Option (List Interval) → View
viewed_if none = thrown
viewed_if (some l) = viewed l

unfoldable pub view_value : Option (List ℕ) → View
view_value none = missing
view_value (some value) =
    if length value % 16 == 0 then viewed_if (read_pairs (length value / 16) value) else thrown

-- The operations behind the view; `none` is an exception.
abbrev pub subtract_view : View → List Interval → Option (List Interval)
subtract_view missing intervals = some intervals
subtract_view thrown intervals = none
subtract_view (viewed l) intervals = interval_difference intervals l

abbrev pub intersect_view : View → List Interval → Option (List Interval)
intersect_view missing intervals = some []
intersect_view thrown intervals = none
intersect_view (viewed l) intervals = some (interval_intersection intervals l)

abbrev pub union_view : View → List Interval → Option (List Interval)
union_view missing intervals = some intervals
union_view thrown intervals = none
union_view (viewed l) intervals = some (interval_union l intervals)

abbrev pub returning {ℓ} :
    {State : Type ℓ} → List Interval → Option State → Option (List Interval × State)
returning l none = none
returning l (some t) = some (l, t)

module _ {Key State : Type 0} (db : Database Key State) where
  abbrev pub view_interval_list : State → Key → View
  view_interval_list s key = view_value (db.get s key)

  unfoldable pub subtract_interval_list : State → Key → List Interval → Option (List Interval)
  subtract_interval_list s key intervals = subtract_view (view_interval_list s key) intervals

  unfoldable pub intersect_interval_list : State → Key → List Interval → Option (List Interval)
  intersect_interval_list s key intervals = intersect_view (view_interval_list s key) intervals

  abbrev pub put_list : State → Key → List Interval → Option (List Interval × State)
  put_list s key l = returning l (db.put s key (to_bytes l))

  abbrev pub put_result : State → Key → Option (List Interval) → Option (List Interval × State)
  put_result s key none = none
  put_result s key (some l) = put_list s key l

  unfoldable pub write_interval_list_union :
      State → Key → List Interval → Option (List Interval × State)
  write_interval_list_union s key intervals =
      put_result s key (union_view (view_interval_list s key) intervals)
