-- ===== src/SelectById/Rows.antt =====
-- src/toggles/select-by-id.cpp: the rows of an interval of ids, in the order of their hashes.
use motion_planning_gadget_s.Common.{
  ℕ, zero, suc, ◌+◌, ◌-◌, ◌≤◌, ◌<◌, ◌≡◌, refl, sym, ap, ◌∙◌, inl, inr, true, false, Bool, ◌&&◌,
  ◌||◌, Option, none, some, List, [], ◌∷◌, ◌++◌, ◌==◌, leb, ltb, ◌>>=◌, if◌then◌else◌, Bool-cases,
  length, take, length-append, append-nil, word, arith,
}
use motion_planning_gadget_s.Varint.{store, load}
use motion_planning_gadget_s.Varint.Bytes.{load-store, length-store}
use motion_planning_gadget_s.Gadget.{Stats}
use motion_planning_gadget_s.Gadget.Decoding.{stats}
use motion_planning_gadget_s.Pack.RoundTrip.{drop-length}
use motion_planning_gadget_s.Predicates.{PredicateKind, datum}
use motion_planning_gadget_s.Predicates.Buckets.{rows_of, has_within, FitRows}
use motion_planning_gadget_s.SelectById.{
  appended_id, without_id, number_of, checked_row, row_of, insert_by_hash, sort_by_hash,
  select_gadget_id_to_hash, select_row, select_rows, select_gadget_id_to_value,
  select_gadget_id_to_stats,
}
use motion_planning_gadget_s.SelectById.Pages.{PageOf, ids_from, read_interval-ids_from}

-- The gadgets with the ids from `first` up to `last` are in the database: each has a hash, on a page of
-- the index, under which the hash table has the bytes of the gadget, which begin with its statistics,
-- and behind them its id.
pub record Indexed (seek : ℕ → Option (ℕ × List ℕ)) (get : ℕ → Option (List ℕ)) (hash_of : ℕ → ℕ)
    (stats_of : ℕ → Stats) (first last : ℕ) : Type 0 where
  pub pages : (id : ℕ) → first ≤ id → id < last → PageOf seek hash_of id
  pub hashes : (id : ℕ) → first ≤ id → id < last → hash_of id < word
  pub rows :
      (id : ℕ)
      → first ≤ id
      → id < last
      → (bytes : List ℕ) × (rest : List ℕ) × (get (hash_of id) ≡ some (bytes ++ store 8 id))
        × (stats bytes ≡ some (stats_of id, rest))

take-length : (xs rest : List ℕ) → take (length xs) (xs ++ rest) ≡ xs
take-length [] rest = refl
take-length (x ∷ xs) rest = ap (λ l. x ∷ l) (take-length xs rest)

length-with_id : (bytes : List ℕ) (id : ℕ) → length (bytes ++ store 8 id) ≡ length bytes + 8
length-with_id bytes id = omega (arith, length-append bytes (store 8 id), length-store 8 id)

appended_id-append :
    (bytes : List ℕ) (id : ℕ) → id < word → appended_id (bytes ++ store 8 id) ≡ some id
appended_id-append bytes id w =
    let n = length-with_id bytes id in
    let enough : ltb (length (bytes ++ store 8 id)) 8 ≡ false = ground (arith, n) in
    let off : length (bytes ++ store 8 id) - 8 ≡ length bytes = omega (arith, n) in
    rw (enough, off, drop-length bytes (store 8 id))
      (ap (λ l. number_of (load 8 l)) (sym (append-nil (store 8 id)))
        ∙ ap number_of (load-store 8 id [] (omega (arith, w))))

without_id-append : (bytes : List ℕ) (id : ℕ) → without_id (bytes ++ store 8 id) ≡ bytes
without_id-append bytes id =
    let n = length-with_id bytes id in
    let off : length (bytes ++ store 8 id) - 8 ≡ length bytes = omega (arith, n) in
    ap (λ k. take k (bytes ++ store 8 id)) off ∙ take-length bytes (store 8 id)

-- Entries of ids of an interval with their hashes
abbrev pub AreEntries : (ℕ → ℕ) → ℕ → ℕ → List (ℕ × ℕ) → Type 0
AreEntries hash_of first last [] = Unit
AreEntries hash_of first last (p ∷ ps) =
    (p.1 ≡ hash_of p.0) × (first ≤ p.0) × (p.0 < last) × AreEntries hash_of first last ps

insert_by_hash-AreEntries :
    (h : ℕ → ℕ) (first last : ℕ) (p : ℕ × ℕ) (ps : List (ℕ × ℕ))
    → p.1 ≡ h p.0
    → first ≤ p.0
    → p.0 < last
    → AreEntries h first last ps
    → AreEntries h first last (insert_by_hash p ps)
unfolding insert_by_hash
insert_by_hash-AreEntries h first last p [] e l m a = (e, l, m, tt)
insert_by_hash-AreEntries h first last p (q ∷ ps) e l m a = elim (Bool-cases (leb p.1 q.1)) [
  | inl k ↦ rw k (e, l, m, a)
  | inr k ↦ rw k (a.0, a.1, a.2, insert_by_hash-AreEntries h first last p ps e l m a.3)
]

sort_by_hash-AreEntries :
    (h : ℕ → ℕ) (first last : ℕ) (ps : List (ℕ × ℕ))
    → AreEntries h first last ps
    → AreEntries h first last (sort_by_hash ps)
unfolding sort_by_hash
sort_by_hash-AreEntries h first last [] a = tt
sort_by_hash-AreEntries h first last (p ∷ ps) a =
    insert_by_hash-AreEntries h first last p (sort_by_hash ps) a.0 a.1 a.2
      (sort_by_hash-AreEntries h first last ps a.3)

ids_from-AreEntries :
    (h : ℕ → ℕ) (first last id count : ℕ)
    → first ≤ id
    → id + count ≤ last
    → AreEntries h first last (ids_from h id count)
ids_from-AreEntries h first last id zero l m = tt
ids_from-AreEntries h first last id (suc count) l m = (
  refl,
  l,
  omega (arith, m),
  ids_from-AreEntries h first last (suc id) count (omega (arith, l)) (omega (arith, m)),
)

abbrev rows_for : (ℕ → Stats) → List (ℕ × ℕ) → List (ℕ × Stats)
rows_for stats_of [] = []
rows_for stats_of (p ∷ ps) = (p.0, stats_of p.0) ∷ rows_for stats_of ps

-- Whether the id has an entry
abbrev listed : ℕ → List (ℕ × ℕ) → Bool
listed z [] = false
listed z (p ∷ ps) = z == p.0 || listed z ps

listed-insert_by_hash :
    (z : ℕ) (p : ℕ × ℕ) (ps : List (ℕ × ℕ))
    → listed z (insert_by_hash p ps) ≡ (z == p.0 || listed z ps)
unfolding insert_by_hash
listed-insert_by_hash z p [] = refl
listed-insert_by_hash z p (q ∷ ps) = elim (Bool-cases (leb p.1 q.1)) [
  | inl k ↦ rw k refl
  | inr k ↦ rw k (ap (λ b. z == q.0 || b) (listed-insert_by_hash z p ps) ∙ ground arith)
]

listed-sort_by_hash : (z : ℕ) (ps : List (ℕ × ℕ)) → listed z (sort_by_hash ps) ≡ listed z ps
unfolding sort_by_hash
listed-sort_by_hash z [] = refl
listed-sort_by_hash z (p ∷ ps) =
    listed-insert_by_hash z p (sort_by_hash ps) ∙ ap (λ b. z == p.0 || b) (listed-sort_by_hash z ps)

listed-ids_from :
    (h : ℕ → ℕ) (z id count : ℕ) → listed z (ids_from h id count) ≡ (leb id z && ltb z (id + count))
listed-ids_from h z id zero = ground arith
listed-ids_from h z id (suc count) = ground (arith, listed-ids_from h z (suc id) count)

-- The lookups in the hash table
module _ (seek : ℕ → Option (ℕ × List ℕ)) (get : ℕ → Option (List ℕ)) (hash_of : ℕ → ℕ)
    (stats_of : ℕ → Stats) (first last : ℕ) where
  select_row-entry :
      (p : ℕ × ℕ)
      → Indexed seek get hash_of stats_of first last
      → last < word
      → p.1 ≡ hash_of p.0
      → first ≤ p.0
      → p.0 < last
      → select_row get p ≡ some (p.0, stats_of p.0)
  unfolding select_row
  select_row-entry p i w e l m =
      let (bytes, rest, found, read) = i.rows p.0 l m in
      let value = bytes ++ store 8 p.0 in
      let id = p.0 in
      let f : List ℕ → Option (ℕ × Stats) =
        λ v. appended_id v >>= λ appended. checked_row id v appended in
      let same : (id == id) ≡ true = ground arith in
      ap (λ k. get k >>= f) e
      ∙ ap (λ o. o >>= f) found
      ∙ ap (λ o. o >>= λ appended. checked_row id value appended)
          (appended_id-append bytes id (omega (arith, m, w)))
      ∙ ap (λ b. if b then row_of id (stats (without_id value)) else none) same
      ∙ ap (λ l. row_of id (stats l)) (without_id-append bytes id)
      ∙ ap (row_of id) read

  select_rows-AreEntries :
      (ps : List (ℕ × ℕ))
      → Indexed seek get hash_of stats_of first last
      → last < word
      → AreEntries hash_of first last ps
      → select_rows get ps ≡ some (rows_for stats_of ps)
  unfolding select_rows
  select_rows-AreEntries [] i w a = refl
  select_rows-AreEntries (p ∷ ps) i w a =
      ap (λ o. o >>= λ row. select_rows get ps >>= λ rest. some (row ∷ rest))
        (select_row-entry p i w a.0 a.1 a.2)
      ∙ ap (λ o. o >>= λ rest. some ((p.0, stats_of p.0) ∷ rest))
          (select_rows-AreEntries ps i w a.3)

has_within-rows_for :
    (stats_of : ℕ → Stats) (kind : PredicateKind) (z b : ℕ) (ps : List (ℕ × ℕ))
    → has_within z b (rows_of kind (rows_for stats_of ps))
      ≡ (listed z ps && leb (datum kind (stats_of z)) b)
has_within-rows_for stats_of kind z b [] = refl
has_within-rows_for stats_of kind z b (p ∷ ps) = elim (Bool-cases (z == p.0)) [
  | inl k ↦
      let same : p.0 ≡ z = ground (arith, k) in
      rw (k, same)
        (ap (λ o. leb (datum kind (stats_of z)) b || o) (has_within-rows_for stats_of kind z b ps)
          ∙ ground arith)
  | inr k ↦ rw k (has_within-rows_for stats_of kind z b ps)
]

FitRows-rows_for :
    (stats_of : ℕ → Stats) (kind : PredicateKind) (h : ℕ → ℕ) (first last : ℕ) (ps : List (ℕ × ℕ))
    → last < word
    → AreEntries h first last ps
    → FitRows (rows_of kind (rows_for stats_of ps))
FitRows-rows_for stats_of kind h first last [] w a = tt
FitRows-rows_for stats_of kind h first last (p ∷ ps) w a =
    ((omega (arith, w, a.2), tt), FitRows-rows_for stats_of kind h first last ps w a.3)

-- The rows that are read for one interval of ids, all of them in the database, are in the order of
-- their hashes, and have exactly the ids of the interval, each with its statistics.
pub select_gadget_id_to_stats-interval :
    (seek : ℕ → Option (ℕ × List ℕ)) (get : ℕ → Option (List ℕ)) (hash_of : ℕ → ℕ)
    (stats_of : ℕ → Stats) (first last : ℕ)
    → Indexed seek get hash_of stats_of first last
    → 1 ≤ first
    → first ≤ last
    → last < word
    → (rows : List (ℕ × Stats)) × (select_gadget_id_to_stats seek get ((first, last) ∷ [])
        ≡ some rows)
      × ((kind : PredicateKind) (z b : ℕ)
          → has_within z b (rows_of kind rows)
            ≡ ((leb first z && ltb z last) && leb (datum kind (stats_of z)) b))
      × ((kind : PredicateKind) → FitRows (rows_of kind rows))
unfolding select_gadget_id_to_stats select_gadget_id_to_hash select_gadget_id_to_value
select_gadget_id_to_stats-interval seek get h stats_of first last i s l w =
    let ids = ids_from h first (last - first) in
    let end : first + (last - first) ≡ last = omega (arith, l) in
    let entries =
      sort_by_hash-AreEntries h first last ids
        (ids_from-AreEntries h first last first (last - first) (omega arith) (omega (arith, l))) in
    let nonzero : (first == 0) ≡ false = ground (arith, s) in
    let read =
      read_interval-ids_from seek h (suc (last - first)) (last - first) first
        (λ j a b. i.pages j a (omega (arith, l, b))) (λ j a b. i.hashes j a (omega (arith, l, b)))
        (omega arith) in
    (
      rows_for stats_of (sort_by_hash ids),
      rw (nonzero, read, append-nil ids)
          (select_rows-AreEntries seek get h stats_of first last (sort_by_hash ids) i w entries),
      λ kind z b.
          has_within-rows_for stats_of kind z b (sort_by_hash ids)
          ∙ ap (λ o. o && leb (datum kind (stats_of z)) b)
              (listed-sort_by_hash z ids
                ∙ listed-ids_from h z first (last - first)
                ∙ ap (λ n. leb first z && ltb z n) end),
      λ kind. FitRows-rows_for stats_of kind h first last (sort_by_hash ids) w entries,
    )
