-- ===== src/Expr/Folds.antt =====
-- src/expr.cpp: each fold of `Expr::repeat` keeps the language of the repetition.
mod Powers
use motion_planning_gadget_s.Common.{
  ℕ, zero, suc, ◌+◌, ◌-◌, ◌*◌, ◌≤◌, ◌<◌, ◌≡◌, ◌≢◌, ◌↔◌, ◌⊎◌, inl, inr, refl, sym, subst, ◌∙◌, ap,
  max, List, [], ◌∷◌, ◌++◌, append-nil, arith, Bool, true, false, ◌&&◌, Bool-cases, length,
}
use motion_planning_gadget_s.Common.Int.{ℤ, pos, negsuc, ◌==ℤ◌, ◌*ℤ◌, pos_part, neg_part}
use motion_planning_gadget_s.Expr.{
  Expr, Exprs, empty_language, all_strings_language, epsilon_string, any_character, literal,
  concatenation, alternation, intersection, repetition, complement, unlimited, is_star,
  repeat_fixed, repeat_star, repeat_class, repeat,
}
use motion_planning_gadget_s.Expr.Language.{
  Word, Language, Splits, Power, Repeated, InRange, Matches,
}
use Powers.{recount, Power-bounded, Power-shared, Power-flat, Power-each, Power-nil, nil-Power}

-- What the constructor of `Repetition` asserts.
abbrev pub IsRange : ℤ → ℤ → Type 0
IsRange (pos a) (pos b) = a ≤ b
IsRange (pos a) (negsuc zero) = Unit
IsRange (pos a) (negsuc (suc b)) = ⊥
IsRange (negsuc a) max = ⊥

-- Both match the same words.
abbrev pub Same : Expr → Expr → Type 0
Same p q = (w : Word) → Matches p w ↔ Matches q w

pub repeat_none : (p : Expr) → Same epsilon_string (repetition p (pos 0) (pos 0))
unfolding Matches
repeat_none p w = (
  λ e. record { copies = 0; allowed = omega arith; made = e },
  λ r. recount (λ u. Matches p u) r.copies 0 w (omega (arith, r.allowed)) r.made,
)

one_copy : (L : Language) (w : Word) → L w → Power L 1 w
one_copy L w m = record {
  front = w;
  back = [];
  joined = sym (append-nil w);
  in_front = m;
  in_back = refl;
}

copy_one : (L : Language) (w : Word) → Power L 1 w → L w
copy_one L w s =
    subst L (sym (s.joined ∙ ap (λ b. s.front ++ b) s.in_back ∙ append-nil s.front)) s.in_front

pub repeat_once : (p : Expr) → Same p (repetition p (pos 1) (pos 1))
unfolding Matches
repeat_once p w = (
  λ m. record { copies = 1; allowed = omega arith; made = one_copy (λ u. Matches p u) w m },
  λ r.
      copy_one (λ u. Matches p u) w
        (recount (λ u. Matches p u) r.copies 1 w (omega (arith, r.allowed)) r.made),
)

-- A number of copies that a range allows, at least one if it allows one.
some_copies : (min max : ℤ) → IsRange min max → (n : ℕ) × InRange min max n
some_copies (pos a) (pos b) h = (b, (h, omega arith))
some_copies (pos a) (negsuc zero) h = (a, omega arith)
some_copies (pos a) (negsuc (suc b)) h = absurd h
some_copies (negsuc a) qmax h = absurd h

more_copies : (min max : ℤ) → IsRange min max → max ≢ pos 0 → (n : ℕ) × InRange min max (suc n)
more_copies (pos a) (pos zero) h ne = absurd (ne refl)
more_copies (pos a) (pos (suc b)) h ne = (b, (h, omega arith))
more_copies (pos a) (negsuc zero) h ne = (a, omega arith)
more_copies (pos a) (negsuc (suc b)) h ne = absurd h
more_copies (negsuc a) qmax h ne = absurd h

pub repeat_epsilon :
    (min max : ℤ) → IsRange min max → Same epsilon_string (repetition epsilon_string min max)
unfolding Matches
repeat_epsilon min max h w =
    let (n, a) = some_copies min max h in
    (
      λ e. record { copies = n; allowed = a; made = nil-Power n w e },
      λ r. Power-nil r.copies w r.made,
    )

pub repeat_all :
    (min max : ℤ)
    → IsRange min max
    → max ≢ pos 0
    → Same all_strings_language (repetition all_strings_language min max)
unfolding Matches
repeat_all min max h ne w =
    let (n, a) = more_copies min max h ne in
    (
      λ m. record {
        copies = suc n;
        allowed = a;
        made = record {
          front = w;
          back = [];
          joined = sym (append-nil w);
          in_front = tt;
          in_back = anything n;
        };
      },
      λ r. tt,
    )
  where
    anything : (n : ℕ) → Power (λ u. Unit {0}) n []
    anything zero = refl
    anything (suc n) = record {
      front = [];
      back = [];
      joined = refl;
      in_front = tt;
      in_back = anything n;
    }

pub repeat_any : Same all_strings_language (repetition any_character (pos 0) unlimited)
unfolding Matches
repeat_any w = (λ m. record { copies = length w; allowed = omega arith; made = letters w }, λ r. tt)
  where
    letters : (u : Word) → Power (λ v. (a : ℕ) × (v ≡ a ∷ [])) (length u) u
    letters [] = refl
    letters (a ∷ u) = record {
      front = a ∷ [];
      back = u;
      joined = refl;
      in_front = (a, refl);
      in_back = letters u;
    }

-- A star of a repetition from 0 up is the star of its child.
pub star_of_star :
    (p : Expr) (qmax : ℤ)
    → IsRange (pos 0) qmax
    → qmax ≢ pos 0
    → Same
        (repetition p (pos 0) unlimited)
        (repetition (repetition p (pos 0) qmax) (pos 0) unlimited)
unfolding Matches
star_of_star p qmax h ne w = (
  λ r. record {
    copies = r.copies;
    allowed = omega arith;
    made = Power-each (λ u. Matches p u) qmax r.copies w (one qmax h ne) r.made;
  },
  λ r. Power-flat (λ u. Matches p u) qmax r.copies w r.made,
)
  where
    one : (m : ℤ) → IsRange (pos 0) m → m ≢ pos 0 → InRange (pos 0) m 1
    one (pos zero) h ne = absurd (ne refl)
    one (pos (suc b)) h ne = omega arith
    one (negsuc zero) h ne = omega arith
    one (negsuc (suc b)) h ne = absurd h

-- A fixed number of copies of a bounded repetition.
pub fixed_of_bounded :
    (p : Expr) (a b n : ℕ)
    → a ≤ b
    → Same
        (repetition p (pos (n * a)) (pos (n * b)))
        (repetition (repetition p (pos a) (pos b)) (pos n) (pos n))
unfolding Matches
fixed_of_bounded p a b n h w = (
  λ r. record {
    copies = n;
    allowed = omega arith;
    made = Power-shared (λ u. Matches p u) a b n r.copies w h r.allowed.0 r.allowed.1 r.made;
  },
  λ r.
      Power-bounded (λ u. Matches p u) a b n w
        (recount (Repeated (λ u. Matches p u) (pos a) (pos b)) r.copies n w
          (omega (arith, r.allowed)) r.made),
)
