-- ===== src/Predicates/Batches.antt =====
-- src/toggles/predicates.cpp: the update in batches, and the bounds of a sorted demand.
use motion_planning_gadget_s.Common.{
  ℕ, zero, suc, ◌+◌, ◌-◌, ◌≤◌, ◌<◌, ◌≡◌, refl, sym, ap, ◌∙◌, inl, inr, some, List, [], ◌∷◌, ◌++◌,
  ltb, leb, Bool, ◌&&◌, ◌||◌, Option, Bool-cases, word, arith,
}
use motion_planning_gadget_s.Gadget.{Stats}
use motion_planning_gadget_s.Intervals.Accumulator.{insert_number, sort_numbers}
use motion_planning_gadget_s.SelectById.Rows.{Indexed, select_gadget_id_to_stats-interval}
use motion_planning_gadget_s.Predicates.{
  PredicateKind, locations, states, uedges, dedges, total_edges, components, PredicateDemand,
  bounds, sort, datum,
}
use motion_planning_gadget_s.Predicates.Update.{
  PredicateUpdateAccumulator, PredicateUpdateResult, accumulator_of, accumulate, accumulate_all,
  finish_update, batch_size, batches, finished, update_basecase, lists,
}
use motion_planning_gadget_s.Predicates.Buckets.{rows_of, has_within, FitRows}
use motion_planning_gadget_s.Predicates.Correct.{
  AscendingFrom, AreListsOf, finish_update-accumulate_all, AreListsOf-told,
}

accumulate_all-append :
    (a : PredicateUpdateAccumulator) (rows more : List (ℕ × Stats))
    → accumulate_all a (rows ++ more) ≡ accumulate_all (accumulate_all a rows) more
unfolding accumulate_all
accumulate_all-append a [] more = refl
accumulate_all-append a (row ∷ rows) more = accumulate_all-append (accumulate a row) rows more

has_within-append :
    (kind : PredicateKind) (z b : ℕ) (rows more : List (ℕ × Stats))
    → has_within z b (rows_of kind (rows ++ more))
      ≡ (has_within z b (rows_of kind rows) || has_within z b (rows_of kind more))
has_within-append kind z b [] more = refl
has_within-append kind z b (row ∷ rows) more = ground (arith, has_within-append kind z b rows more)

FitRows-append :
    (kind : PredicateKind) (rows more : List (ℕ × Stats))
    → FitRows (rows_of kind rows)
    → FitRows (rows_of kind more)
    → FitRows (rows_of kind (rows ++ more))
FitRows-append kind [] more f g = g
FitRows-append kind (row ∷ rows) more f g = (f.0, FitRows-append kind rows more f.1 g)

-- The ids of adjacent intervals
adjacent_ids :
    (a b c z : ℕ) (held : Bool)
    → a ≤ b
    → b ≤ c
    → (((leb a z && ltb z b) && held) || ((leb b z && ltb z c) && held))
      ≡ ((leb a z && ltb z c) && held)
adjacent_ids a b c z held h k = ground (arith, h, k)

and_assoc : (a b c : Bool) → ((a && b) && c) ≡ (a && (b && c))
and_assoc a b c = ground arith

module _ (seek : ℕ → Option (ℕ × List ℕ)) (get : ℕ → Option (List ℕ)) (hash_of : ℕ → ℕ)
    (stats_of : ℕ → Stats) where
  -- The rows have exactly the ids from `first` up to `last`, with their statistics.
  abbrev AreRows : ℕ → ℕ → List (ℕ × Stats) → Type 0
  AreRows first last rows =
      ((kind : PredicateKind) (z b : ℕ)
        → has_within z b (rows_of kind rows)
          ≡ ((leb first z && ltb z last) && leb (datum kind (stats_of z)) b))
      × ((kind : PredicateKind) → FitRows (rows_of kind rows))

  Indexed-part :
      (first last low high : ℕ)
      → Indexed seek get hash_of stats_of first last
      → first ≤ low
      → high ≤ last
      → Indexed seek get hash_of stats_of low high
  Indexed-part first last low high i l m = record {
    pages = λ id a b. i.pages id (omega (arith, a, l)) (omega (arith, b, m));
    hashes = λ id a b. i.hashes id (omega (arith, a, l)) (omega (arith, b, m));
    rows = λ id a b. i.rows id (omega (arith, a, l)) (omega (arith, b, m));
  }

  -- The batches end, and accumulate rows of all the ids.
  batches-AreRows :
      (fuel first last : ℕ) (a : PredicateUpdateAccumulator)
      → Indexed seek get hash_of stats_of first last
      → 1 ≤ first
      → first ≤ last
      → last < word
      → last - first < fuel
      → (rows : List (ℕ × Stats)) × (batches seek get fuel first last a
          ≡ some (accumulate_all a rows))
        × AreRows first last rows
  unfolding batches accumulate_all
  batches-AreRows zero first last a i s h w f = absurd (omega arith)
  batches-AreRows (suc fuel) first last a i s h w f = elim (Bool-cases (ltb first last)) [
    | inl k ↦
        let next = first + batch_size first last in
        let least : 0 < batch_size first last = ground (arith, k) in
        let most : batch_size first last ≤ last - first = omega arith in
        let low : first ≤ next = omega arith in
        let high : next ≤ last = omega (arith, h, most) in
        let (rows, e, members, fit) =
          select_gadget_id_to_stats-interval seek get hash_of stats_of first next
            (Indexed-part first last first next i (omega arith) high) s low
            (omega (arith, high, w)) in
        let (more, g, others) =
          batches-AreRows fuel next last (accumulate_all a rows)
            (Indexed-part first last next last i low (omega arith)) (omega (arith, s, low)) high w
            (omega (arith, h, most, least, f)) in
        (
          rows ++ more,
          rw (k, e) (g ∙ ap some (sym (accumulate_all-append a rows more))),
          (
            λ kind z b.
                has_within-append kind z b rows more
                ∙ ap (λ o. o || has_within z b (rows_of kind more)) (members kind z b)
                ∙ ap (λ o. ((leb first z && ltb z next) && leb (datum kind (stats_of z)) b) || o)
                    (others.0 kind z b)
                ∙ adjacent_ids first next last z (leb (datum kind (stats_of z)) b) low high,
            λ kind. FitRows-append kind rows more (fit kind) (others.1 kind),
          ),
        )
    | inr k ↦ ([], rw k refl, ((λ kind z b. ground (arith, k)), λ kind. tt))
  ]

  -- The batches of the base case end without an exception, and what they accumulate is right for the
  -- demanded ids, in whatever order their hashes put the rows of a batch: if the bounds of each kind
  -- ascend, and the gadgets with the ids from begin_inclusive, at least 1, up to end_exclusive, below
  -- 2 ^ 64, are in the index and in the hash table, then for each kind each bound gets the maximal
  -- interval list of exactly those ids whose datum is at most the bound.
  pub update_basecase_lem :
      (d : PredicateDemand)
      → Indexed seek get hash_of stats_of d.begin_inclusive d.end_exclusive
      → 1 ≤ d.begin_inclusive
      → d.begin_inclusive ≤ d.end_exclusive
      → d.end_exclusive < word
      → ((kind : PredicateKind) → AscendingFrom 0 (bounds kind d))
      → (result : PredicateUpdateResult) × (update_basecase seek get d ≡ some result)
        × ((kind : PredicateKind)
            → AreListsOf
                (λ b z.
                  leb d.begin_inclusive z
                  && (ltb z d.end_exclusive && leb (datum kind (stats_of z)) b))
                (bounds kind d)
                (lists kind result))
  unfolding update_basecase
  update_basecase_lem d i s h w a =
      let (rows, e, r) =
        batches-AreRows (suc (d.end_exclusive - d.begin_inclusive)) d.begin_inclusive
          d.end_exclusive (accumulator_of d) i s h w (omega arith) in
      (
        finish_update (accumulate_all (accumulator_of d) rows),
        ap finished e,
        λ kind.
            AreListsOf-told (λ b z. has_within z b (rows_of kind rows)) _ (bounds kind d)
              (lists kind (finish_update (accumulate_all (accumulator_of d) rows)))
              (λ b z.
                r.0 kind z b
                ∙ and_assoc (leb d.begin_inclusive z) (ltb z d.end_exclusive)
                    (leb (datum kind (stats_of z)) b))
              (finish_update-accumulate_all kind d rows (a kind) (r.1 kind)),
      )

insert_number-AscendingFrom :
    (low x : ℕ) (xs : List ℕ)
    → low ≤ x
    → AscendingFrom low xs
    → AscendingFrom low (insert_number x xs)
unfolding insert_number
insert_number-AscendingFrom low x [] h a = (h, tt)
insert_number-AscendingFrom low x (y ∷ ys) h a = elim (Bool-cases (leb x y)) [
  | inl k ↦ rw k (h, (ground (arith, k), a.1))
  | inr k ↦ rw k (a.0, insert_number-AscendingFrom y x ys (ground (arith, k)) a.1)
]

sort_numbers-AscendingFrom : (xs : List ℕ) → AscendingFrom 0 (sort_numbers xs)
unfolding sort_numbers
sort_numbers-AscendingFrom [] = tt
sort_numbers-AscendingFrom (x ∷ xs) =
    insert_number-AscendingFrom 0 x (sort_numbers xs) (omega arith) (sort_numbers-AscendingFrom xs)

-- The bounds of a sorted demand ascend.
pub sort-AscendingFrom :
    (kind : PredicateKind) (d : PredicateDemand) → AscendingFrom 0 (bounds kind (sort d))
unfolding sort
sort-AscendingFrom locations d = sort_numbers-AscendingFrom d.locations
sort-AscendingFrom states d = sort_numbers-AscendingFrom d.states
sort-AscendingFrom uedges d = sort_numbers-AscendingFrom d.uedges
sort-AscendingFrom dedges d = sort_numbers-AscendingFrom d.dedges
sort-AscendingFrom total_edges d = sort_numbers-AscendingFrom d.tedges
sort-AscendingFrom components d = sort_numbers-AscendingFrom d.components
