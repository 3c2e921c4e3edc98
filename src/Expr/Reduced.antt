-- ===== src/Expr/Reduced.antt =====
-- src/expr.cpp: the concatenations that `Expr::cat` builds.
use motion_planning_gadget_s.Common.{◌↔◌}
use motion_planning_gadget_s.Expr.{
  Expr, Exprs, empty_language, all_strings_language, epsilon_string, any_character, literal,
  concatenation, alternation, intersection, repetition, complement, nil, cons, append_exprs,
  cat_folder, cat_of, cat,
}
use motion_planning_gadget_s.Expr.Language.{Word, Matches}
use motion_planning_gadget_s.Expr.Factories.{Matches-cat}

-- Neither an epsilon nor a concatenation
abbrev pub IsFactor : Expr → Type 0
IsFactor epsilon_string = ⊥
IsFactor (concatenation qs) = ⊥
IsFactor p = Unit

abbrev pub AreFactors : Exprs → Type 0
AreFactors nil = Unit
AreFactors (cons p ps) = IsFactor p × AreFactors ps

abbrev pub AreTwoFactors : Exprs → Type 0
AreTwoFactors nil = ⊥
AreTwoFactors (cons p nil) = ⊥
AreTwoFactors (cons p (cons q ps)) = AreFactors (cons p (cons q ps))

-- A concatenation has at least two children, and none that is an epsilon or a concatenation.
abbrev pub IsReduced : Expr → Type 0
IsReduced (concatenation qs) = AreTwoFactors qs
IsReduced p = Unit

abbrev pub AreReduced : Exprs → Type 0
AreReduced nil = Unit
AreReduced (cons p ps) = IsReduced p × AreReduced ps

two-AreFactors : (qs : Exprs) → AreTwoFactors qs → AreFactors qs
two-AreFactors nil h = tt
two-AreFactors (cons p nil) h = absurd h
two-AreFactors (cons p (cons q ps)) h = h

factor-IsReduced : (p : Expr) → IsFactor p → IsReduced p
factor-IsReduced (concatenation qs) h = absurd h
factor-IsReduced p h = tt

append_exprs-AreFactors :
    (ps qs : Exprs) → AreFactors ps → AreFactors qs → AreFactors (append_exprs ps qs)
unfolding append_exprs
append_exprs-AreFactors nil qs f g = g
append_exprs-AreFactors (cons p ps) qs f g = (f.0, append_exprs-AreFactors ps qs f.1 g)

cat_folder-AreFactors : (ps : Exprs) → AreReduced ps → AreFactors (cat_folder ps)
unfolding cat_folder
cat_folder-AreFactors nil r = tt
cat_folder-AreFactors (cons epsilon_string ps) r = cat_folder-AreFactors ps r.1
cat_folder-AreFactors (cons (concatenation qs) ps) r =
    append_exprs-AreFactors qs (cat_folder ps) (two-AreFactors qs r.0)
      (cat_folder-AreFactors ps r.1)
cat_folder-AreFactors (cons empty_language ps) r = (tt, cat_folder-AreFactors ps r.1)
cat_folder-AreFactors (cons all_strings_language ps) r = (tt, cat_folder-AreFactors ps r.1)
cat_folder-AreFactors (cons any_character ps) r = (tt, cat_folder-AreFactors ps r.1)
cat_folder-AreFactors (cons (literal a) ps) r = (tt, cat_folder-AreFactors ps r.1)
cat_folder-AreFactors (cons (alternation qs) ps) r = (tt, cat_folder-AreFactors ps r.1)
cat_folder-AreFactors (cons (intersection qs) ps) r = (tt, cat_folder-AreFactors ps r.1)
cat_folder-AreFactors (cons (repetition p a b) ps) r = (tt, cat_folder-AreFactors ps r.1)
cat_folder-AreFactors (cons (complement p) ps) r = (tt, cat_folder-AreFactors ps r.1)

cat_of-IsReduced : (ps : Exprs) → AreFactors ps → IsReduced (cat_of ps)
cat_of-IsReduced nil f = tt
cat_of-IsReduced (cons p nil) f = factor-IsReduced p f.0
cat_of-IsReduced (cons p (cons q ps)) f = f

-- If each expression that is a concatenation has at least two children and none that is an epsilon or
-- a concatenation, then so has the result of `Expr::cat` if it is a concatenation, and the result
-- matches the words that the expressions match one behind the other.
pub cat-IsReduced :
    (ps : Exprs)
    → AreReduced ps
    → IsReduced (cat ps) × ((w : Word) → Matches (cat ps) w ↔ Matches (concatenation ps) w)
unfolding cat
cat-IsReduced ps r =
    (cat_of-IsReduced (cat_folder ps) (cat_folder-AreFactors ps r), λ w. Matches-cat ps w)
