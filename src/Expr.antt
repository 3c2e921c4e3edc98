-- ===== src/Expr.antt =====
-- src/expr.hpp and src/expr.cpp: regular expressions, and the functions of `Expr` that build them
-- and simplify on the way.
pub mod Language
pub mod Factories
pub mod Folds
pub mod Reduced
pub mod Repeat
use motion_planning_gadget_s.Common.{ℕ, zero, suc, Bool, true, false, ◌&&◌, if◌then◌else◌}
use motion_planning_gadget_s.Common.Int.{ℤ, pos, negsuc, ◌==ℤ◌, ◌*ℤ◌, int32}

-- The subclasses of `Expr`; `Exprs` is `Expr::container`.
mutual
  pub data Expr : Type 0 where
    empty_language : Expr
    all_strings_language : Expr
    epsilon_string : Expr
    any_character : Expr
    literal : ℕ → Expr
    concatenation : Exprs → Expr
    alternation : Exprs → Expr
    intersection : Exprs → Expr
    repetition : Expr → ℤ → ℤ → Expr
    complement : Expr → Expr

  pub data Exprs : Type 0 where
    nil : Exprs
    cons : Expr → Exprs → Exprs

-- `folder.insert(folder.end(), …)`
pub append_exprs : Exprs → Exprs → Exprs
append_exprs nil ys = ys
append_exprs (cons x xs) ys = cons x (append_exprs xs ys)

abbrev pub unlimited : ℤ
unlimited = negsuc 0

-- The loops over `regexes` of `Expr::cat` and `Expr::alt`: what they put into `folder`.
pub cat_folder : Exprs → Exprs
unfolding append_exprs
cat_folder nil = nil
cat_folder (cons epsilon_string ps) = cat_folder ps
cat_folder (cons (concatenation qs) ps) = append_exprs qs (cat_folder ps)
cat_folder (cons p ps) = cons p (cat_folder ps)

pub alt_folder : Exprs → Exprs
unfolding append_exprs
alt_folder nil = nil
alt_folder (cons empty_language ps) = alt_folder ps
alt_folder (cons (alternation qs) ps) = append_exprs qs (alt_folder ps)
alt_folder (cons p ps) = cons p (alt_folder ps)

abbrev pub cat_of : Exprs → Expr
cat_of nil = epsilon_string
cat_of (cons p nil) = p
cat_of (cons p (cons q ps)) = concatenation (cons p (cons q ps))

abbrev pub alt_of : Exprs → Expr
alt_of nil = empty_language
alt_of (cons p nil) = p
alt_of (cons p (cons q ps)) = alternation (cons p (cons q ps))

pub cat : Exprs → Expr
cat regexes = cat_of (cat_folder regexes)

pub alt : Exprs → Expr
alt regexes = alt_of (alt_folder regexes)

pub conj : Exprs → Expr
conj nil = all_strings_language
conj (cons p nil) = p
conj (cons p (cons q ps)) = intersection (cons p (cons q ps))

-- `Repetition::isStar`
abbrev pub is_star : ℤ → ℤ → Bool
is_star min max = ◌==ℤ◌ min (pos 0) && ◌==ℤ◌ max unlimited

-- The folds of `Expr::repeat` by the class of `regex`, in the order of the code. The one for
-- `min == max` comes last, also for a repetition that the star folds did not take; its products are
-- `int`s, taken to wrap around.
pub repeat_fixed : Expr → ℤ → ℤ → Expr
repeat_fixed (repetition child qmin qmax) min max =
    if ◌==ℤ◌ min max
    then repetition child (int32 (min *ℤ qmin)) (int32 (max *ℤ qmax))
    else repetition (repetition child qmin qmax) min max
repeat_fixed regex min max = repetition regex min max

pub repeat_star : Expr → ℤ → ℤ → Expr
unfolding repeat_fixed
repeat_star any_character min max = all_strings_language
repeat_star (repetition child qmin qmax) min max =
    if is_star qmin qmax
    then repetition child qmin qmax
    else if ◌==ℤ◌ qmin (pos 0)
    then repetition child (pos 0) unlimited
    else repeat_fixed (repetition child qmin qmax) min max
repeat_star regex min max = repeat_fixed regex min max

pub repeat_class : Expr → ℤ → ℤ → Expr
unfolding repeat_star
repeat_class all_strings_language min max = all_strings_language
repeat_class epsilon_string min max = epsilon_string
repeat_class regex min max =
    if is_star min max then repeat_star regex min max else repeat_fixed regex min max

pub repeat : Expr → ℤ → ℤ → Expr
unfolding repeat_class
repeat regex min max =
    if ◌==ℤ◌ min (pos 0) && ◌==ℤ◌ max (pos 0)
    then epsilon_string
    else if ◌==ℤ◌ min (pos 1) && ◌==ℤ◌ max (pos 1)
    then regex
    else repeat_class regex min max

pub comp : Expr → Expr
comp (complement child) = child
comp regex = complement regex
