-- ===== src/Predicates/Parallel.antt =====
-- src/toggles/predicates.cpp: the update's tasks, reduced by `transform_reduce` with `merge`.
use motion_planning_gadget_s.Common.{
  ℕ, zero, suc, ◌+◌, ◌-◌, ◌*◌, ◌≤◌, ◌<◌, ◌≡◌, refl, sym, inl, inr, Bool, true, false, some, none,
  List, ltb, Bool-cases, arith,
}
use motion_planning_gadget_s.Predicates.{PredicateKind}
use motion_planning_gadget_s.Predicates.Update.{PredicateUpdateResult, merge_results, lists}
use motion_planning_gadget_s.Predicates.Correct.{AreListsOf, AreListsOf-told, merge_results_lem}
use motion_planning_gadget_s.TransformReduce.{take_turns, initial_state, result_at}
use motion_planning_gadget_s.TransformReduce.Tree.{tree, tree_on}
use motion_planning_gadget_s.TransformReduce.Any.{either, tree-any}
use motion_planning_gadget_s.TransformReduce.Result.{transform_reduce_lem}

module _ (task : ℕ → PredicateUpdateResult) (size : ℕ) (kind : PredicateKind) (bs : List ℕ)
    (has : ℕ → ℕ → ℕ → Bool) where
  tree_on-AreListsOf :
      (fuel v : ℕ)
      → v ≤ 2 * size
      → size ≤ fuel + v
      → ((index : ℕ) → index ≤ size → AreListsOf (has index) bs (lists kind (task index)))
      → AreListsOf
          (λ b z. tree_on (λ index. has index b z) either size fuel v)
          bs
          (lists kind (tree_on task merge_results size fuel v))
  unfolding tree_on
  tree_on-AreListsOf zero v h k a = a (v - size) (omega (arith, h))
  tree_on-AreListsOf (suc fuel) v h k a = elim (Bool-cases (ltb v size)) [
    | inl l ↦
        let lt : v < size = ground (arith, l) in
        rw l (
          merge_results_lem kind _ _ bs _ _
            (tree_on-AreListsOf fuel (2 * v + 1) (omega (arith, lt)) (omega (arith, k)) a)
            (tree_on-AreListsOf fuel (2 * v + 2) (omega (arith, lt)) (omega (arith, k)) a))
    | inr l ↦ rw l (a (v - size) (omega (arith, h)))
  ]

  same_answers : (a b : Bool) → (a ≡ true → b ≡ true) → (b ≡ true → a ≡ true) → a ≡ b
  same_answers true b f g = sym (f refl)
  same_answers false true f g = g refl
  same_answers false false f g = refl

  tree-AreListsOf :
      (told : ℕ → ℕ → Bool)
      → ((index : ℕ) → index ≤ size → AreListsOf (has index) bs (lists kind (task index)))
      → ((index b z : ℕ) → index ≤ size → has index b z ≡ true → told b z ≡ true)
      → ((b z : ℕ) → told b z ≡ true → (index : ℕ) × (index ≤ size) × (has index b z ≡ true))
      → AreListsOf told bs (lists kind (tree task merge_results size 0))
  unfolding tree
  tree-AreListsOf told a from to =
      AreListsOf-told _ told bs _
        (λ b z.
          let any = tree-any (λ index. has index b z) size in
          same_answers (tree (λ index. has index b z) either size 0) (told b z)
            (λ e. let (index, h, t) = any.1 e in from index b z h t)
            (λ e. let (index, h, t) = to b z e in any.0 index h t))
        (tree_on-AreListsOf size 0 (omega arith) (omega arith) a)

  -- Reducing the results of two tasks or more with merge, under every interleaving of the threads
  -- that ends: if each task's lists at the bounds have the ids that `has` tells of it, and an id is
  -- told for a bound if and only if some task has it, then the reduced lists at the bounds are the
  -- maximal lists of the ids told.
  pub transform_reduce-merge_results :
      (told : ℕ → ℕ → Bool) (empty : PredicateUpdateResult) (schedule : List ℕ)
      → 0 < size
      → ((index : ℕ) → index ≤ size → AreListsOf (has index) bs (lists kind (task index)))
      → ((index b z : ℕ) → index ≤ size → has index b z ≡ true → told b z ≡ true)
      → ((b z : ℕ) → told b z ≡ true → (index : ℕ) × (index ≤ size) × (has index b z ≡ true))
      → ((i : ℕ)
          → (take_turns task merge_results size
                (initial_state task merge_results size empty)
                schedule).threads
              i
            ≡ none)
      → size
        < (take_turns task merge_results size
            (initial_state task merge_results size empty)
            schedule).dispenser
      → (result : PredicateUpdateResult) × (result_at
            (take_turns task merge_results size
              (initial_state task merge_results size empty)
              schedule).results
            ((take_turns task merge_results size
                (initial_state task merge_results size empty)
                schedule).pubs
              0)
          ≡ some result)
        × AreListsOf told bs (lists kind result)
  transform_reduce-merge_results told empty schedule p a from to idle over = (
    tree task merge_results size 0,
    transform_reduce_lem task merge_results size empty schedule p idle over,
    tree-AreListsOf told a from to,
  )
