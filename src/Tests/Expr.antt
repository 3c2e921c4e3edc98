-- ===== src/Tests/Expr.antt =====
-- src/expr.cpp at concrete inputs.
use motion_planning_gadget_s.Common.{◌≡◌, ◌↔◌, [], ◌∷◌, arith, ◌*◌}
use motion_planning_gadget_s.Common.Int.{ℤ, pos, ◌*ℤ◌, IsInt}
use motion_planning_gadget_s.Expr.{
  Expr, Exprs, empty_language, epsilon_string, any_character, literal, concatenation, alternation,
  repetition, nil, cons, unlimited, cat, repeat,
}
use motion_planning_gadget_s.Expr.Language.{Word, Matches}
use motion_planning_gadget_s.Expr.Reduced.{IsReduced, cat-IsReduced}
use motion_planning_gadget_s.Expr.Folds.{IsRange}
use motion_planning_gadget_s.Expr.Repeat.{Matches-repeat, repeat-unlimited_invalid}

abbrev one_two : Exprs
one_two = cons (literal 1) (cons (literal 2) nil)

abbrev nested : Exprs
nested = cons epsilon_string (cons (concatenation one_two) (cons any_character nil))

abbrev choices : Exprs
choices = cons empty_language (cons (alternation one_two) nil)

abbrev pairs : Expr
pairs = repetition any_character (pos 2) (pos 3)

cat-IsReduced_example :
    IsReduced (cat nested)
    × ((w : Word) → Matches (cat nested) w ↔ Matches (concatenation nested) w)
cat-IsReduced_example = cat-IsReduced nested (tt, ((tt, (tt, tt)), (tt, tt)))

fits : IsInt (pos 2 *ℤ pos 3)
unfolding ◌*ℤ◌
fits = omega arith

Matches-repeat_example :
    Matches (repeat pairs (pos 2) (pos 2)) (1 ∷ 2 ∷ 3 ∷ 4 ∷ [])
    ↔ Matches (repetition pairs (pos 2) (pos 2)) (1 ∷ 2 ∷ 3 ∷ 4 ∷ [])
Matches-repeat_example =
    Matches-repeat pairs (pos 2) (pos 2) (omega arith)
      (omega arith, (λ e. cc), (λ e. ((λ p. cc), fits))) (1 ∷ 2 ∷ 3 ∷ 4 ∷ [])

repeat-unlimited_invalid_example :
    (max : ℤ) × (repeat (repetition any_character (pos 0) unlimited) (pos 2) (pos 2)
      ≡ repetition any_character (pos (2 * 0)) max)
    × (¬ IsRange (pos (2 * 0)) max)
repeat-unlimited_invalid_example =
    repeat-unlimited_invalid any_character 0 2 (omega arith) (omega arith) (omega arith)
