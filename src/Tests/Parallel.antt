-- ===== src/Tests/Parallel.antt =====
-- src/toggles/predicates.cpp: three tasks of an update, each with one gadget, and two threads.
use motion_planning_gadget_s.Common.{
  ℕ, ◌+◌, ◌-◌, ◌<◌, ◌≡◌, refl, ◌&&◌, none, some, List, [], ◌∷◌, arith, Bool-cases, inl, inr, ◌==◌,
  ltb, leb,
}
use motion_planning_gadget_s.Predicates.{states}
use motion_planning_gadget_s.Predicates.Update.{PredicateUpdateResult, merge_results, lists}
use motion_planning_gadget_s.Predicates.Correct.{AreListsOf}
use motion_planning_gadget_s.Predicates.Parallel.{transform_reduce-merge_results}
use motion_planning_gadget_s.TransformReduce.{
  ThreadState, take_turns, turn_from, climb, dispense, initial_state, result_at,
}

abbrev scanned : ℕ → PredicateUpdateResult
scanned index = record {
  locations = [];
  states = (5, (index + 1, index + 2) ∷ []) ∷ [];
  uedges = [];
  dedges = [];
  tedges = [];
  components = [];
}

abbrev nothing : PredicateUpdateResult
nothing = record {
  locations = [];
  states = [];
  uedges = [];
  dedges = [];
  tedges = [];
  components = [];
}

abbrev in_turn : List ℕ
in_turn = 0 ∷ 1 ∷ 1 ∷ 1 ∷ 0 ∷ 1 ∷ 1 ∷ 0 ∷ []

abbrev finally : ThreadState PredicateUpdateResult
finally = take_turns scanned merge_results 2 (initial_state scanned merge_results 2 nothing) in_turn

finally-idle : (i : ℕ) → finally.threads i ≡ none
unfolding take_turns turn_from climb dispense
finally-idle i = elim (Bool-cases (i == 1)) [
  | inl k ↦ rw k refl
  | inr k ↦ elim (Bool-cases (i == 0)) [ inl l ↦ rw (k, l) refl | inr l ↦ rw (k, l) refl ]
]

finally-over : 2 < finally.dispenser
unfolding take_turns turn_from climb dispense
finally-over = omega arith

transform_reduce-merge_results_example :
    (result : PredicateUpdateResult) × (result_at finally.results (finally.pubs 0) ≡ some result)
    × AreListsOf (λ b z. leb 1 z && ltb z 4) (5 ∷ []) (lists states result)
transform_reduce-merge_results_example =
    transform_reduce-merge_results scanned 2 states (5 ∷ []) (λ index b z. z == index + 1)
      (λ b z. leb 1 z && ltb z 4) nothing in_turn (omega arith)
      (λ index h. (refl, (ground arith, λ z. ground arith), tt))
      (λ index b z h e. ground (arith, h, e))
      (λ b z e. (z - 1, ground (arith, e), ground (arith, e))) finally-idle finally-over
