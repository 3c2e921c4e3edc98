-- ===== src/Tests/AutomatonBase.antt =====
-- src/automatonbase.cpp at an automaton of two states and two symbols.
use motion_planning_gadget_s.Common.{
  ℕ, zero, suc, ◌≤◌, refl, true, List, [], ◌∷◌, ◌==◌, arith, length,
}
use motion_planning_gadget_s.LinearSet.{Distinct}
use motion_planning_gadget_s.AutomatonBase.{AutomatonBase, IsAutomaton}

-- The word of symbol 0 alone.
abbrev step_once : ℕ → ℕ → List ℕ
step_once zero zero = 1 ∷ []
step_once zero (suc a) = []
step_once (suc s) a = []

abbrev once : AutomatonBase
once = record {
  state_size = 2;
  alphabet_size = 2;
  deterministic = true;
  accept = λ s. s == 1;
  step = step_once;
}

step_once-Distinct : (s a : ℕ) → Distinct (step_once s a)
step_once-Distinct zero zero = (refl, tt)
step_once-Distinct zero (suc a) = tt
step_once-Distinct (suc s) a = tt

length-step_once : (s a : ℕ) → length (step_once s a) ≤ 1
length-step_once zero zero = omega arith
length-step_once zero (suc a) = omega arith
length-step_once (suc s) a = omega arith

once-IsAutomaton : IsAutomaton once
once-IsAutomaton = record { sets = step_once-Distinct; single = λ e. length-step_once }
