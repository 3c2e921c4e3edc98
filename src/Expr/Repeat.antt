-- ===== src/Expr/Repeat.antt =====
-- src/expr.cpp: `Expr::repeat` keeps the language of the repetition, where its folds may; and what
-- the fold of a fixed number of copies makes of an unlimited repetition.
use motion_planning_gadget_s.Common.{
  ◌*◌, ℕ, zero, suc, ◌≤◌, ◌≡◌, ◌≢◌, ◌↔◌, inl, inr, refl, subst, ap, ◌∙◌, ◌<◌, ◌-◌, ◌%◌, ◌^◌, ltb,
  arith, true, false, ◌&&◌, Bool-cases, if◌then◌else◌,
}
use motion_planning_gadget_s.Common.Int.{ℤ, pos, negsuc, ◌==ℤ◌, ◌*ℤ◌, int32, IsInt}
use motion_planning_gadget_s.Expr.{
  Expr, all_strings_language, epsilon_string, any_character, repetition, unlimited, is_star,
  repeat_fixed, repeat_star, repeat_class, repeat,
}
use motion_planning_gadget_s.Expr.Language.{Word, Matches}
use motion_planning_gadget_s.Expr.Folds.{
  IsRange, Same, repeat_none, repeat_once, repeat_epsilon, repeat_all, repeat_any, star_of_star,
  fixed_of_bounded,
}

-- The expressions whose repetition the folds of `Expr::repeat` may rewrite: of a repetition the
-- range is one of more than no copies, and if the new one is for a fixed number, it is bounded, and
-- the product of the upper ends is an `int`.
abbrev pub IsFoldable : Expr → ℤ → ℤ → Type 0
IsFoldable (repetition p qmin qmax) min max =
    IsRange qmin qmax × (qmax ≢ pos 0) × (min ≡ max → (qmax ≢ unlimited) × IsInt (max *ℤ qmax))
IsFoldable p min max = Unit

-- From a test on two `int`s.
==ℤ→eq : (a b : ℤ) → ◌==ℤ◌ a b ≡ true → a ≡ b
==ℤ→eq (pos a) (pos b) h = ground arith
==ℤ→eq (pos a) (negsuc b) h = cc
==ℤ→eq (negsuc a) (pos b) h = cc
==ℤ→eq (negsuc a) (negsuc b) h = ground arith

both : (a b c e : ℤ) → (◌==ℤ◌ a b && ◌==ℤ◌ c e) ≡ true → (a ≡ b) × (c ≡ e)
both a b c e h = (==ℤ→eq a b (ground arith), ==ℤ→eq c e (ground arith))

pos-*ℤ : (n a : ℕ) → pos n *ℤ pos a ≡ pos (n * a)
unfolding ◌*ℤ◌
pos-*ℤ n a = ground arith

int32-pos : (n : ℕ) → n < 2 ^ 31 → int32 (pos n) ≡ pos n
unfolding int32
int32-pos n h = ground (arith, h)

int32-negsuc : (n : ℕ) → n < 2 ^ 31 → int32 (negsuc n) ≡ negsuc n
unfolding int32
int32-negsuc n h =
    let low : n % 2 ^ 32 ≡ n = omega (arith, h) in
    let high : ltb (2 ^ 32 - 1 - n) (2 ^ 31) ≡ false = ground (arith, h) in
    let back : 2 ^ 32 - 1 - (2 ^ 32 - 1 - n) ≡ n = omega (arith, h) in rw (low, high, back) refl

Same-refl : (p : Expr) → Same p p
Same-refl p w = (λ m. m, λ m. m)

-- Ends that are equal are those of a fixed number of copies.
fixed_range : (min max : ℤ) → IsRange min max → min ≡ max → (n : ℕ) × (min ≡ pos n) × (max ≡ pos n)
fixed_range (pos a) (pos b) h e = (b, e, refl)
fixed_range (pos a) (negsuc b) h e = cc
fixed_range (negsuc a) m h e = absurd h

bounded_range :
    (min max : ℤ)
    → IsRange min max
    → max ≢ unlimited
    → (a b : ℕ) × (min ≡ pos a) × (max ≡ pos b) × (a ≤ b)
bounded_range (pos a) (pos b) h ne = (a, b, refl, refl, h)
bounded_range (pos a) (negsuc zero) h ne = absurd (ne refl)
bounded_range (pos a) (negsuc (suc b)) h ne = absurd h
bounded_range (negsuc a) m h ne = absurd h

*_below : (n a b : ℕ) → a ≤ b → n * b < 2 ^ 31 → n * a < 2 ^ 31
*_below n a b h k = let more : n * a ≤ n * b = grind arith in omega (arith, k, more)

fixed_fold :
    (p : Expr) (qmin qmax min max : ℤ)
    → IsRange qmin qmax
    → qmax ≢ unlimited
    → IsInt (max *ℤ qmax)
    → IsRange min max
    → min ≡ max
    → Same
        (repetition p (int32 (min *ℤ qmin)) (int32 (max *ℤ qmax)))
        (repetition (repetition p qmin qmax) min max)
fixed_fold p qmin qmax min max q bounded fits r e =
    let (n, u, v) = fixed_range min max r e in
    let (a, b, s, t, h) = bounded_range qmin qmax q bounded in
    let upper : n * b < 2 ^ 31 =
      subst IsInt (ap (λ m. m *ℤ qmax) v ∙ ap (λ m. pos n *ℤ m) t ∙ pos-*ℤ n b) fits in
    let lower : n * a < 2 ^ 31 = *_below n a b h upper in
    rw (u, v, s, t, pos-*ℤ n a, pos-*ℤ n b, int32-pos (n * a) lower, int32-pos (n * b) upper)
      (fixed_of_bounded p a b n h)

repeat_fixed-Same :
    (p : Expr) (min max : ℤ)
    → IsRange min max
    → IsFoldable p min max
    → Same (repeat_fixed p min max) (repetition p min max)
unfolding repeat_fixed
repeat_fixed-Same (repetition p qmin qmax) min max r f = elim (Bool-cases (◌==ℤ◌ min max)) [
  | inl e ↦
      let eq = ==ℤ→eq min max e in
      rw e (fixed_fold p qmin qmax min max f.0 (f.2 eq).0 (f.2 eq).1 r eq)
  | inr e ↦ rw e (Same-refl (repetition (repetition p qmin qmax) min max))
]
repeat_fixed-Same p min max r f = Same-refl (repetition p min max)

repeat_star-Same :
    (p : Expr)
    → IsFoldable p (pos 0) unlimited
    → Same (repeat_star p (pos 0) unlimited) (repetition p (pos 0) unlimited)
unfolding repeat_star
repeat_star-Same any_character f = repeat_any
repeat_star-Same (repetition p qmin qmax) f = elim (Bool-cases (◌==ℤ◌ qmin (pos 0))) [
  | inl e ↦
      let zero_min = ==ℤ→eq qmin (pos 0) e in
      let q = subst (λ m. IsRange m qmax) zero_min f.0 in
      rw (zero_min) elim (Bool-cases (◌==ℤ◌ qmax unlimited)) [
        | inl s ↦ rw (s, ==ℤ→eq qmax unlimited s) (star_of_star p unlimited tt (λ h. cc))
        | inr s ↦ rw s (star_of_star p qmax q f.1)
      ]
  | inr e ↦ rw e (Same-refl (repetition (repetition p qmin qmax) (pos 0) unlimited))
]
repeat_star-Same p f = Same-refl (repetition p (pos 0) unlimited)

repeat_other-Same :
    (p : Expr) (min max : ℤ)
    → IsRange min max
    → IsFoldable p min max
    → Same
        (if is_star min max then repeat_star p min max else repeat_fixed p min max)
        (repetition p min max)
repeat_other-Same p min max r f = elim (Bool-cases (is_star min max)) [
  | inl e ↦
      let (u, v) = both min (pos 0) max unlimited e in
      rw (e, u, v)
        (repeat_star-Same p
          (subst (λ m. IsFoldable p m unlimited) u (subst (λ m. IsFoldable p min m) v f)))
  | inr e ↦ rw e (repeat_fixed-Same p min max r f)
]

repeat_class-Same :
    (p : Expr) (min max : ℤ)
    → IsRange min max
    → max ≢ pos 0
    → IsFoldable p min max
    → Same (repeat_class p min max) (repetition p min max)
unfolding repeat_class
repeat_class-Same all_strings_language min max r ne f = repeat_all min max r ne
repeat_class-Same epsilon_string min max r ne f = repeat_epsilon min max r
repeat_class-Same p min max r ne f = repeat_other-Same p min max r f

none_only :
    (min max : ℤ) → IsRange min max → (◌==ℤ◌ min (pos 0) && ◌==ℤ◌ max (pos 0)) ≡ false → max ≢ pos 0
none_only (pos a) (pos b) r e = λ m. ground arith
none_only (pos a) (negsuc b) r e = λ m. cc
none_only (negsuc a) m r e = absurd r

-- For the ranges that `Repetition` admits, the result of `Expr::repeat` matches the same words as the
-- repetition, if of a repetition that is repeated the range is also admitted and of more than no
-- copies, and, where the new range is a fixed number, bounded, with an upper end whose product with
-- that number is an `int`.
pub Matches-repeat :
    (p : Expr) (min max : ℤ)
    → IsRange min max
    → IsFoldable p min max
    → (w : Word) → Matches (repeat p min max) w ↔ Matches (repetition p min max) w
unfolding repeat
Matches-repeat p min max r f = elim (Bool-cases (◌==ℤ◌ min (pos 0) && ◌==ℤ◌ max (pos 0))) [
  | inl e ↦ let (u, v) = both min (pos 0) max (pos 0) e in rw (e, u, v) (repeat_none p)
  | inr e ↦ rw e elim (Bool-cases (◌==ℤ◌ min (pos 1) && ◌==ℤ◌ max (pos 1))) [
    | inl g ↦ let (u, v) = both min (pos 1) max (pos 1) g in rw (g, u, v) (repeat_once p)
    | inr g ↦ rw g (repeat_class-Same p min max r (none_only min max r e) f)
  ]
]

-- A fixed number `n` of copies, at least two, of a repetition with no upper end: `Expr::repeat`
-- multiplies the mark `unlimited` by `n`, and where `n` and the product of the lower ends are `int`s,
-- the range of the result is one that the constructor of `Repetition` asserts not to occur.
pub repeat-unlimited_invalid :
    (p : Expr) (a n : ℕ)
    → 2 ≤ n
    → n < 2 ^ 31
    → n * a < 2 ^ 31
    → (max : ℤ) × (repeat (repetition p (pos a) unlimited) (pos n) (pos n)
        ≡ repetition p (pos (n * a)) max)
      × (¬ IsRange (pos (n * a)) max)
unfolding repeat ◌*ℤ◌
repeat-unlimited_invalid p a zero h k m = absurd (omega arith)
repeat-unlimited_invalid p a (suc zero) h k m = absurd (omega arith)
repeat-unlimited_invalid p a (suc (suc n)) h k m = (
  negsuc (suc n),
  ground (arith, int32-pos (suc (suc n) * a) m, int32-negsuc (suc n) (omega (arith, k))),
  λ r. r,
)
