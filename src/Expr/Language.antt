-- ===== src/Expr/Language.antt =====
-- The language of a regular expression: what src/expr.hpp's classes mean. A word is the list of its
-- symbols, all of them of the alphabet.
use motion_planning_gadget_s.Common.{ℕ, zero, suc, ◌≤◌, ◌≡◌, ◌⊎◌, List, [], ◌∷◌, ◌++◌}
use motion_planning_gadget_s.Common.Int.{ℤ, pos, negsuc}
use motion_planning_gadget_s.Expr.{
  Expr, Exprs, empty_language, all_strings_language, epsilon_string, any_character, literal,
  concatenation, alternation, intersection, repetition, complement, nil, cons,
}

abbrev pub Word : Type 0
Word = List ℕ

abbrev pub Language : Type 1
Language = Word → Type 0

-- A word of `L` and then one of `M`.
pub record Splits (L M : Language) (w : Word) : Type 0 where
  pub front : Word
  pub back : Word
  pub joined : w ≡ front ++ back
  pub in_front : L front
  pub in_back : M back

-- `n` words of `L`, one behind the other.
abbrev pub Power : Language → ℕ → Language
Power L zero w = w ≡ []
Power L (suc n) w = Splits L (Power L n) w

-- The numbers of copies that `Repetition(child, min, max)` allows.
abbrev pub InRange : ℤ → ℤ → ℕ → Type 0
InRange (pos a) (pos b) n = (a ≤ n) × (n ≤ b)
InRange (pos a) (negsuc zero) n = a ≤ n
InRange (pos a) (negsuc (suc b)) n = ⊥
InRange (negsuc a) max n = ⊥

pub record Repeated (L : Language) (min max : ℤ) (w : Word) : Type 0 where
  pub copies : ℕ
  pub allowed : InRange min max copies
  pub made : Power L copies w

unfoldable mutual
  pub Matches : Expr → Language
  Matches empty_language w = ⊥
  Matches all_strings_language w = Unit {0}
  Matches epsilon_string w = w ≡ []
  Matches any_character w = (a : ℕ) × (w ≡ a ∷ [])
  Matches (literal a) w = w ≡ a ∷ []
  Matches (concatenation ps) w = MatchesInTurn ps w
  Matches (alternation ps) w = MatchesSome ps w
  Matches (intersection ps) w = MatchesEach ps w
  Matches (repetition p min max) w = Repeated (λ u. Matches p u) min max w
  Matches (complement p) w = Matches p w → ⊥

  pub MatchesInTurn : Exprs → Language
  MatchesInTurn nil w = w ≡ []
  MatchesInTurn (cons p ps) w = Splits (λ u. Matches p u) (λ u. MatchesInTurn ps u) w

  pub MatchesSome : Exprs → Language
  MatchesSome nil w = ⊥
  MatchesSome (cons p ps) w = Matches p w ⊎ MatchesSome ps w

  pub MatchesEach : Exprs → Language
  MatchesEach nil w = Unit {0}
  MatchesEach (cons p ps) w = Matches p w × MatchesEach ps w
