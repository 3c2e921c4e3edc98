-- ===== src/Tests/TransformReduce.antt =====
-- src/transform_reduce.hpp with three tasks and two threads.
use motion_planning_gadget_s.Common.{
  ℕ, ◌+◌, ◌*◌, ◌<◌, ◌≡◌, refl, none, some, List, [], ◌∷◌, All, arith, Bool-cases, inl, inr, ◌==◌,
}
use motion_planning_gadget_s.TransformReduce.{
  ThreadState, take_turns, turn_from, climb, dispense, initial_state, result_at,
}
use motion_planning_gadget_s.TransformReduce.Tree.{tree}
use motion_planning_gadget_s.TransformReduce.Result.{transform_reduce_lem}
use motion_planning_gadget_s.TransformReduce.Ends.{Finished, transform_reduce-ends}

abbrev task : ℕ → ℕ
task index = index + 1

-- The digits tell the order of the reductions.
abbrev digits : ℕ → ℕ → ℕ
digits a b = 10 * a + b

abbrev after : List ℕ → ThreadState ℕ
after schedule = take_turns task digits 2 (initial_state task digits 2 0) schedule

-- Thread 0 takes task 0 and thread 1 task 1, and then task 2; both store their results in the tree,
-- and thread 1 reduces those of tasks 1 and 2 and then the root.
abbrev schedule : List ℕ
schedule = 0 ∷ 1 ∷ 1 ∷ 1 ∷ 0 ∷ 1 ∷ 1 ∷ 0 ∷ []

result_of_schedule : result_at (after schedule).results ((after schedule).pubs 0) ≡ some 231
unfolding take_turns turn_from climb dispense
result_of_schedule = refl

schedule-idle : (i : ℕ) → (after schedule).threads i ≡ none
unfolding take_turns turn_from climb dispense
schedule-idle i = elim (Bool-cases (i == 1)) [
  | inl k ↦ rw k refl
  | inr k ↦ elim (Bool-cases (i == 0)) [ inl l ↦ rw (k, l) refl | inr l ↦ rw (k, l) refl ]
]

transform_reduce_lem_example :
    result_at (after schedule).results ((after schedule).pubs 0) ≡ some (tree task digits 2 0)
unfolding take_turns turn_from climb dispense
transform_reduce_lem_example =
    transform_reduce_lem task digits 2 0 schedule (omega arith) schedule-idle (omega arith)

transform_reduce-ends_example :
    (more : List ℕ) × All (λ i. i < 2) more
    × Finished task digits 2 2 (take_turns task digits 2 (after (0 ∷ 1 ∷ [])) more)
    × (result_at
          (take_turns task digits 2 (after (0 ∷ 1 ∷ [])) more).results
          ((take_turns task digits 2 (after (0 ∷ 1 ∷ [])) more).pubs 0)
        ≡ some (tree task digits 2 0))
transform_reduce-ends_example =
    transform_reduce-ends task digits 2 2 0 (0 ∷ 1 ∷ []) (omega arith) (omega arith) (omega arith)
