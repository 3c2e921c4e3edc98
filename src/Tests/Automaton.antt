-- ===== src/Tests/Automaton.antt =====
-- src/automaton.tcc at a concrete automaton of two states and two symbols.
use motion_planning_gadget_s.Common.{
  ℕ, zero, suc, ◌≤◌, ◌≡◌, ◌↔◌, Bool, true, false, List, [], ◌∷◌, arith, length,
}
use motion_planning_gadget_s.Automaton.{
  Transition, Automaton, step, step_row, add_trans, is_state_deterministic,
}
use motion_planning_gadget_s.Automaton.Build.{Adds, step-add_trans}
use motion_planning_gadget_s.Automaton.Deterministic.{is_state_deterministic_lem}
use motion_planning_gadget_s.Automaton.Flags.{FlagHolds, add_trans-FlagHolds}

-- State 0 goes to state 1 on symbol 0, and state 1 accepts.
abbrev edges : List Transition
edges = record { next = 1; symbols = true ∷ false ∷ [] } ∷ []

abbrev two_states : Automaton
two_states = record {
  transitions = edges ∷ [] ∷ [];
  accept = false ∷ true ∷ [];
  deterministic = true;
  minimal = false;
  canonical = false;
}

abbrev second : List Bool
second = false ∷ true ∷ []

step-add_trans_example : Adds two_states 0 second 1 ((add_trans 2 two_states 0 second 1).1)
step-add_trans_example = step-add_trans 2 two_states 0 second 1 (omega arith)

is_state_deterministic_lem_example :
    (is_state_deterministic 2 edges ≡ true) ↔ ((b : ℕ) → length (step_row edges b) ≤ 1)
is_state_deterministic_lem_example = is_state_deterministic_lem 2 edges (omega arith)

two_states-FlagHolds : FlagHolds two_states
unfolding step
two_states-FlagHolds flag zero symbol = ground arith
two_states-FlagHolds flag (suc zero) symbol = omega arith
two_states-FlagHolds flag (suc (suc s)) symbol = omega arith

add_trans-FlagHolds_example : FlagHolds ((add_trans 2 two_states 0 second 1).1)
unfolding add_trans
add_trans-FlagHolds_example =
    add_trans-FlagHolds 2 two_states 0 second 1 (omega arith) (omega arith) two_states-FlagHolds
