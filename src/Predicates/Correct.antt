-- ===== src/Predicates/Correct.antt =====
-- src/toggles/predicates.cpp: `finish` after the gadgets of a scan, and `merge`.
use motion_planning_gadget_s.Common.{
  ℕ, ◌≤◌, ◌≡◌, refl, sym, ap, subst, ◌∙◌, Bool, false, ◌||◌, Option, none, some, List, [], ◌∷◌,
  arith,
}
use motion_planning_gadget_s.Gadget.{Stats}
use motion_planning_gadget_s.Intervals.Sets.{Interval, covers, IsMaximal}
use motion_planning_gadget_s.Intervals.Merge.Union.{interval_union_lem}
use motion_planning_gadget_s.Intervals.Accumulator.{finish, add_all, create}
use motion_planning_gadget_s.Intervals.Accumulator.Correct.{finish-add_all}
use motion_planning_gadget_s.Predicates.{
  PredicateKind, locations, states, uedges, dedges, total_edges, components, PredicateDemand,
  bounds,
}
use motion_planning_gadget_s.Predicates.Update.{
  Lists, PredicateUpdateAccumulator, PredicateUpdateResult, init, fresh, accumulator_of,
  accumulate_all, with_smaller, convert_from, convert_to_less_than, finish_update, merge_lists,
  merge_results, counters, lists,
}
use motion_planning_gadget_s.Predicates.Buckets.{
  Rows, rows_of, has_within, ids_within, above, spread, process_all, process_all-spread,
  elem-ids_within, has_within-above, FitRows, ids_within-Fit, above-FitRows,
  counters-accumulate_all,
}

-- The bounds stand in ascending order, from `low` on; equal bounds may repeat.
abbrev pub AscendingFrom : ℕ → List ℕ → Type 0
AscendingFrom low [] = Unit
AscendingFrom low (b ∷ bs) = (low ≤ b) × AscendingFrom b bs

-- The maximal interval list of the numbers that `has` tells
abbrev pub IsListOf : (ℕ → Bool) → List Interval → Type 0
IsListOf has l = IsMaximal l × ((z : ℕ) → covers z l ≡ has z)

-- Lists at these bounds, of the numbers that `has` tells for each
abbrev pub AreListsOf : (ℕ → ℕ → Bool) → List ℕ → Lists → Type 0
AreListsOf has [] [] = Unit
AreListsOf has [] (p ∷ ps) = ⊥
AreListsOf has (b ∷ bs) [] = ⊥
AreListsOf has (b ∷ bs) (p ∷ ps) = (p.0 ≡ b) × IsListOf (has b) p.1 × AreListsOf has bs ps

bucket-IsListOf :
    (bound : ℕ) (rows : Rows)
    → FitRows rows
    → IsListOf (λ z. has_within z bound rows) (finish (add_all fresh (ids_within bound rows)))
unfolding create
bucket-IsListOf bound rows f =
    let (m, c) =
      finish-add_all 1024 fresh (ids_within bound rows) refl (ids_within-Fit bound rows f) in
    (m, λ z. c z ∙ elem-ids_within z bound rows)

previous_set : Option (List Interval) → ℕ → Bool
previous_set none z = false
previous_set (some l) z = covers z l

IsPrevious : Option (List Interval) → Type 0
IsPrevious none = Unit
IsPrevious (some l) = IsMaximal l

with_smaller-IsListOf :
    (previous : Option (List Interval)) (has : ℕ → Bool) (l : List Interval)
    → IsPrevious previous
    → IsListOf has l
    → IsListOf (λ z. previous_set previous z || has z) (with_smaller previous l)
unfolding previous_set IsPrevious
with_smaller-IsListOf none has l p h = (h.0, λ z. h.1 z)
with_smaller-IsListOf (some k) has l p h =
    let (m, c) = interval_union_lem k l p h.0 in (m, λ z. c z ∙ ap (λ b. covers z k || b) (h.1 z))

AreListsOf-change :
    (has told : ℕ → ℕ → Bool) (low : ℕ) (bs : List ℕ) (ps : Lists)
    → ((b z : ℕ) → low ≤ b → has b z ≡ told b z)
    → AscendingFrom low bs
    → AreListsOf has bs ps
    → AreListsOf told bs ps
AreListsOf-change has told low [] [] e a h = tt
AreListsOf-change has told low [] (p ∷ ps) e a h = absurd h
AreListsOf-change has told low (b ∷ bs) [] e a h = absurd h
AreListsOf-change has told low (b ∷ bs) (p ∷ ps) e a h = (
  h.0,
  (h.1.0, λ z. h.1.1 z ∙ e b z a.0),
  AreListsOf-change has told b bs ps (λ c z k. e c z (omega (arith, k, a.0))) a.1 h.2,
)

-- The same lists, told otherwise
pub AreListsOf-told :
    (has told : ℕ → ℕ → Bool) (bs : List ℕ) (ps : Lists)
    → ((b z : ℕ) → has b z ≡ told b z)
    → AreListsOf has bs ps
    → AreListsOf told bs ps
AreListsOf-told has told [] [] e h = tt
AreListsOf-told has told [] (p ∷ ps) e h = absurd h
AreListsOf-told has told (b ∷ bs) [] e h = absurd h
AreListsOf-told has told (b ∷ bs) (p ∷ ps) e h =
    (h.0, (h.1.0, λ z. h.1.1 z ∙ e b z), AreListsOf-told has told bs ps e h.2)

or_assoc : (a b c : Bool) → ((a || b) || c) ≡ (a || (b || c))
or_assoc a b c = ground arith

convert_from-AreListsOf :
    (low : ℕ) (bs : List ℕ) (previous : Option (List Interval)) (rows : Rows)
    → FitRows rows
    → AscendingFrom low bs
    → IsPrevious previous
    → AreListsOf
        (λ b z. previous_set previous z || has_within z b rows)
        bs
        (convert_from previous (spread (init bs) rows))
unfolding convert_from previous_set IsPrevious
convert_from-AreListsOf low [] previous rows f a p = tt
convert_from-AreListsOf low (b ∷ bs) previous rows f a p =
    let bucket = finish (add_all fresh (ids_within b rows)) in
    let l = with_smaller previous bucket in
    let head =
      with_smaller-IsListOf previous (λ z. has_within z b rows) bucket p
        (bucket-IsListOf b rows f) in
    let tail =
      convert_from-AreListsOf b bs (some l) (above b rows) (above-FitRows b rows f) a.1 head.0 in
    (
      refl,
      head,
      AreListsOf-change (λ c z. covers z l || has_within z c (above b rows))
          (λ c z. previous_set previous z || has_within z c rows) b bs _
          (λ c z k.
            ap (λ x. x || has_within z c (above b rows)) (head.1 z)
            ∙ or_assoc (previous_set previous z) (has_within z b rows)
                (has_within z c (above b rows))
            ∙ ap (λ x. previous_set previous z || x) (sym (has_within-above z b c rows k)))
          a.1 tail,
    )

counters-accumulator_of :
    (kind : PredicateKind) (d : PredicateDemand)
    → counters kind (accumulator_of d) ≡ init (bounds kind d)
unfolding accumulator_of
counters-accumulator_of locations d = refl
counters-accumulator_of states d = refl
counters-accumulator_of uedges d = refl
counters-accumulator_of dedges d = refl
counters-accumulator_of total_edges d = refl
counters-accumulator_of components d = refl

lists-finish_update :
    (kind : PredicateKind) (a : PredicateUpdateAccumulator)
    → lists kind (finish_update a) ≡ convert_to_less_than (counters kind a)
unfolding finish_update
lists-finish_update locations a = refl
lists-finish_update states a = refl
lists-finish_update uedges a = refl
lists-finish_update dedges a = refl
lists-finish_update total_edges a = refl
lists-finish_update components a = refl

-- For a demand whose bounds of a kind ascend, and gadgets with ids below 2 ^ 64 - 1, the result of a
-- scan has for each bound the maximal interval list of exactly the ids whose datum is at most the bound.
pub finish_update-accumulate_all :
    (kind : PredicateKind) (d : PredicateDemand) (rows : List (ℕ × Stats))
    → AscendingFrom 0 (bounds kind d)
    → FitRows (rows_of kind rows)
    → AreListsOf
        (λ b z. has_within z b (rows_of kind rows))
        (bounds kind d)
        (lists kind (finish_update (accumulate_all (accumulator_of d) rows)))
unfolding previous_set IsPrevious
finish_update-accumulate_all kind d rows a f =
    let e =
      lists-finish_update kind (accumulate_all (accumulator_of d) rows)
      ∙ ap convert_to_less_than (
          counters-accumulate_all kind (accumulator_of d) rows
          ∙ ap (λ c. process_all c (rows_of kind rows)) (counters-accumulator_of kind d)
          ∙ process_all-spread (init (bounds kind d)) (rows_of kind rows)) in
    subst (AreListsOf (λ b z. has_within z b (rows_of kind rows)) (bounds kind d)) (sym e)
      (convert_from-AreListsOf 0 (bounds kind d) none (rows_of kind rows) f a tt)

merge_lists-AreListsOf :
    (has told : ℕ → ℕ → Bool) (bs : List ℕ) (us them : Lists)
    → AreListsOf has bs us
    → AreListsOf told bs them
    → AreListsOf (λ b z. has b z || told b z) bs (merge_lists us them)
unfolding merge_lists
merge_lists-AreListsOf has told [] [] [] h t = tt
merge_lists-AreListsOf has told [] [] (q ∷ them) h t = absurd t
merge_lists-AreListsOf has told [] (p ∷ us) them h t = absurd h
merge_lists-AreListsOf has told (b ∷ bs) [] them h t = absurd h
merge_lists-AreListsOf has told (b ∷ bs) (p ∷ us) [] h t = absurd t
merge_lists-AreListsOf has told (b ∷ bs) (p ∷ us) (q ∷ them) h t =
    let (m, c) = interval_union_lem p.1 q.1 h.1.0 t.1.0 in
    (
      h.0,
      (m, λ z. c z ∙ ap (λ x. x || covers z q.1) (h.1.1 z) ∙ ap (λ x. has b z || x) (t.1.1 z)),
      merge_lists-AreListsOf has told bs us them h.2 t.2,
    )

lists-merge_results :
    (kind : PredicateKind) (l r : PredicateUpdateResult)
    → lists kind (merge_results l r) ≡ merge_lists (lists kind l) (lists kind r)
unfolding merge_results
lists-merge_results locations l r = refl
lists-merge_results states l r = refl
lists-merge_results uedges l r = refl
lists-merge_results dedges l r = refl
lists-merge_results total_edges l r = refl
lists-merge_results components l r = refl

-- Merging the results of two tasks of one demand gives at each bound the maximal list of the ids
-- that either has there.
pub merge_results_lem :
    (kind : PredicateKind) (has told : ℕ → ℕ → Bool) (bs : List ℕ) (l r : PredicateUpdateResult)
    → AreListsOf has bs (lists kind l)
    → AreListsOf told bs (lists kind r)
    → AreListsOf (λ b z. has b z || told b z) bs (lists kind (merge_results l r))
merge_results_lem kind has told bs l r h t =
    subst (AreListsOf (λ b z. has b z || told b z) bs) (sym (lists-merge_results kind l r))
      (merge_lists-AreListsOf has told bs (lists kind l) (lists kind r) h t)
