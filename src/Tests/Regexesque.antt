-- ===== src/Tests/Regexesque.antt =====
-- src/automaton-regexesque.hpp at concrete automata of two symbols.
use motion_planning_gadget_s.Common.{
  ℕ, zero, suc, ◌<◌, ◌≡◌, refl, ◌↔◌, Bool, true, false, ◌||◌, List, [], ◌∷◌, ◌==◌, arith,
}
use motion_planning_gadget_s.Automaton.{Automaton, step}
use motion_planning_gadget_s.Automaton.Bits.{mem}
use motion_planning_gadget_s.Regexesque.{HopscotchSet, cat, alt, alt_variadic, star, run}
use motion_planning_gadget_s.Regexesque.Nfa.{Accepts}
use motion_planning_gadget_s.Regexesque.Steps.{nfa, IsValid}
use motion_planning_gadget_s.Regexesque.Run.{run-Accepts}
use motion_planning_gadget_s.Regexesque.Cat.{InTurn, cat-InTurn}
use motion_planning_gadget_s.Regexesque.Alt.{InSome, alt-InSome, alt_variadic-return}
use motion_planning_gadget_s.Regexesque.Star.{Any}
use motion_planning_gadget_s.Regexesque.Closure.{star-Accepts}

-- The word of symbol 0 alone.
abbrev once : Automaton
once = record {
  transitions = (record { next = 1; symbols = true ∷ false ∷ [] } ∷ []) ∷ [] ∷ [];
  accept = false ∷ true ∷ [];
  deterministic = true;
  minimal = true;
  canonical = true;
}

-- Any number of symbols 0, by a step from the initial state to itself.
abbrev repeated : Automaton
repeated = record {
  transitions = (record { next = 0; symbols = true ∷ false ∷ [] } ∷ []) ∷ [];
  accept = true ∷ [];
  deterministic = true;
  minimal = true;
  canonical = true;
}

once-closed : (s c y : ℕ) → s < 2 → mem y (step once s c) ≡ true → y < 2
unfolding step
once-closed zero c y l t = ground arith
once-closed (suc zero) c y l t = ground arith
once-closed (suc (suc s)) c y l t = absurd (omega arith)

once-IsValid : IsValid once
once-IsValid = record { sized = refl; closed = once-closed }

repeated-closed : (s c y : ℕ) → s < 1 → mem y (step repeated s c) ≡ true → y < 1
unfolding step
repeated-closed zero c y l t = ground arith
repeated-closed (suc s) c y l t = absurd (omega arith)

repeated-IsValid : IsValid repeated
repeated-IsValid = record { sized = refl; closed = repeated-closed }

either_way : (x y : Bool) → (x || y) ≡ (y || x)
either_way x y = ground arith

-- A set as a list of elements.
list_set : HopscotchSet
list_set = record {
  Carrier = List ℕ;
  cleared = [];
  insert = λ s y. y ∷ s;
  elements = λ s. s;
  elements-cleared = λ x. refl;
  elements-insert = λ s y x. either_way (x == y) (mem x s);
}

run-Accepts_example : (run list_set once (0 ∷ []) ≡ true) ↔ Accepts (nfa once) 0 (0 ∷ [])
run-Accepts_example = run-Accepts list_set once (0 ∷ [])

cat-InTurn_example :
    Accepts (nfa (cat 2 (once ∷ repeated ∷ []))) 0 (0 ∷ 0 ∷ [])
    ↔ InTurn (once ∷ repeated ∷ []) (0 ∷ 0 ∷ [])
cat-InTurn_example =
    cat-InTurn 2 (once ∷ repeated ∷ [])
      ((once-IsValid, omega arith), ((repeated-IsValid, omega arith), tt)) (omega arith)
      (0 ∷ 0 ∷ [])

alt-InSome_example :
    Accepts (nfa (alt 2 (once ∷ repeated ∷ []))) 0 (0 ∷ 0 ∷ [])
    ↔ InSome (once ∷ repeated ∷ []) (0 ∷ 0 ∷ [])
alt-InSome_example =
    alt-InSome 2 (once ∷ repeated ∷ [])
      ((once-IsValid, omega arith), ((repeated-IsValid, omega arith), tt)) (omega arith)
      (0 ∷ 0 ∷ [])

star-Accepts_example :
    Accepts (nfa (star 2 once)) 0 (0 ∷ 0 ∷ []) ↔ Any (Accepts (nfa once) 0) (0 ∷ 0 ∷ [])
star-Accepts_example = star-Accepts 2 once once-IsValid (omega arith) (omega arith) (0 ∷ 0 ∷ [])

alt_variadic-return_example : Accepts (nfa (alt_variadic 2 (repeated ∷ once ∷ []))) 0 (0 ∷ 0 ∷ [])
unfolding step
alt_variadic-return_example =
    alt_variadic-return 2 repeated once 0 (0 ∷ []) repeated-IsValid once-IsValid (omega arith)
      (omega arith) refl (1, refl, refl)
