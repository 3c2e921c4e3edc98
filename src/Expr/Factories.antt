-- ===== src/Expr/Factories.antt =====
-- src/expr.cpp: `Expr::cat`, `Expr::alt`, `Expr::conj` and `Expr::comp` keep the language.
use motion_planning_gadget_s.Common.{
  ◌++◌, ◌≡◌, ◌⊎◌, ◌↔◌, inl, inr, refl, sym, subst, ◌∙◌, ap, [], append-nil, append_assoc,
}
use motion_planning_gadget_s.Expr.{
  Expr, Exprs, empty_language, all_strings_language, epsilon_string, any_character, literal,
  concatenation, alternation, intersection, repetition, complement, nil, cons, append_exprs,
  cat_folder, alt_folder, cat_of, alt_of, cat, alt, conj, comp,
}
use motion_planning_gadget_s.Expr.Language.{
  Word, Language, Splits, Matches, MatchesInTurn, MatchesSome,
}

pub Splits-map :
    {L M L' M' : Language} {w : Word}
    → ((u : Word) → L u → L' u)
    → ((u : Word) → M u → M' u)
    → Splits L M w
    → Splits L' M' w
Splits-map f g s = record {
  front = s.front;
  back = s.back;
  joined = s.joined;
  in_front = f s.front s.in_front;
  in_back = g s.back s.in_back;
}

-- A word of `L` with the empty word behind or in front of it.
pub Splits-back_nil : (L : Language) {w : Word} → Splits L (λ u. u ≡ []) w → L w
Splits-back_nil L s =
    subst L (sym (s.joined ∙ ap (λ b. s.front ++ b) s.in_back ∙ append-nil s.front)) s.in_front

pub Splits-nil_back : (L : Language) (w : Word) → L w → Splits L (λ u. u ≡ []) w
Splits-nil_back L w m = record {
  front = w;
  back = [];
  joined = sym (append-nil w);
  in_front = m;
  in_back = refl;
}

in_turn-append :
    (ps qs : Exprs) (u v : Word)
    → MatchesInTurn ps u
    → MatchesInTurn qs v
    → MatchesInTurn (append_exprs ps qs) (u ++ v)
unfolding Matches append_exprs
in_turn-append nil qs u v m n = subst (λ w. MatchesInTurn qs (w ++ v)) (sym m) n
in_turn-append (cons p ps) qs u v m n = record {
  front = m.front;
  back = m.back ++ v;
  joined = ap (λ w. w ++ v) m.joined ∙ append_assoc m.front m.back v;
  in_front = m.in_front;
  in_back = in_turn-append ps qs m.back v m.in_back n;
}

append-in_turn :
    (ps qs : Exprs) (w : Word)
    → MatchesInTurn (append_exprs ps qs) w
    → Splits (λ u. MatchesInTurn ps u) (λ u. MatchesInTurn qs u) w
unfolding Matches append_exprs
append-in_turn nil qs w m = record {
  front = [];
  back = w;
  joined = refl;
  in_front = refl;
  in_back = m;
}
append-in_turn (cons p ps) qs w m =
    let s = append-in_turn ps qs m.back m.in_back in
    record {
      front = m.front ++ s.front;
      back = s.back;
      joined =
          m.joined ∙ ap (λ b. m.front ++ b) s.joined ∙ sym (append_assoc m.front s.front s.back);
      in_front = record {
        front = m.front;
        back = s.front;
        joined = refl;
        in_front = m.in_front;
        in_back = s.in_front;
      };
      in_back = s.in_back;
    }

-- What one round of the loop of `Expr::cat` does with an expression that it keeps as it is.
keep_head :
    (p : Expr) (ps qs : Exprs) (w : Word)
    → ((u : Word) → MatchesInTurn qs u ↔ MatchesInTurn ps u)
    → MatchesInTurn (cons p qs) w ↔ MatchesInTurn (cons p ps) w
unfolding Matches
keep_head p ps qs w e = (Splits-map (λ u m. m) (λ u. (e u).0), Splits-map (λ u m. m) (λ u. (e u).1))

-- With an `Epsilon` that it drops, and with a `Concatenation` whose children it takes.
drop_head :
    (ps qs : Exprs) (w : Word)
    → ((u : Word) → MatchesInTurn qs u ↔ MatchesInTurn ps u)
    → MatchesInTurn qs w ↔ MatchesInTurn (cons epsilon_string ps) w
unfolding Matches
drop_head ps qs w e = (
  λ m. record { front = []; back = w; joined = refl; in_front = refl; in_back = (e w).0 m },
  λ s. (e w).1 (
      subst (λ u. MatchesInTurn ps u) (sym (s.joined ∙ ap (λ f. f ++ s.back) s.in_front))
        s.in_back),
)

splice_head :
    (rs ps qs : Exprs) (w : Word)
    → ((u : Word) → MatchesInTurn qs u ↔ MatchesInTurn ps u)
    → MatchesInTurn (append_exprs rs qs) w ↔ MatchesInTurn (cons (concatenation rs) ps) w
unfolding Matches
splice_head rs ps qs w e = (
  λ m. Splits-map (λ u m. m) (λ u. (e u).0) (append-in_turn rs qs w m),
  λ s.
      subst (λ u. MatchesInTurn (append_exprs rs qs) u) (sym s.joined)
        (in_turn-append rs qs s.front s.back s.in_front ((e s.back).1 s.in_back)),
)

in_turn-cat_folder : (ps : Exprs) (w : Word) → MatchesInTurn (cat_folder ps) w ↔ MatchesInTurn ps w
unfolding cat_folder
in_turn-cat_folder nil w = (λ m. m, λ m. m)
in_turn-cat_folder (cons epsilon_string ps) w = drop_head ps _ w (in_turn-cat_folder ps)
in_turn-cat_folder (cons (concatenation qs) ps) w = splice_head qs ps _ w (in_turn-cat_folder ps)
in_turn-cat_folder (cons empty_language ps) w = keep_head _ ps _ w (in_turn-cat_folder ps)
in_turn-cat_folder (cons all_strings_language ps) w = keep_head _ ps _ w (in_turn-cat_folder ps)
in_turn-cat_folder (cons any_character ps) w = keep_head _ ps _ w (in_turn-cat_folder ps)
in_turn-cat_folder (cons (literal a) ps) w = keep_head _ ps _ w (in_turn-cat_folder ps)
in_turn-cat_folder (cons (alternation qs) ps) w = keep_head _ ps _ w (in_turn-cat_folder ps)
in_turn-cat_folder (cons (intersection qs) ps) w = keep_head _ ps _ w (in_turn-cat_folder ps)
in_turn-cat_folder (cons (repetition p a b) ps) w = keep_head _ ps _ w (in_turn-cat_folder ps)
in_turn-cat_folder (cons (complement p) ps) w = keep_head _ ps _ w (in_turn-cat_folder ps)

in_turn-cat_of : (ps : Exprs) (w : Word) → Matches (cat_of ps) w ↔ MatchesInTurn ps w
unfolding Matches
in_turn-cat_of nil w = (λ m. m, λ m. m)
in_turn-cat_of (cons p nil) w =
    (Splits-nil_back (λ u. Matches p u) w, Splits-back_nil (λ u. Matches p u))
in_turn-cat_of (cons p (cons q ps)) w = (λ m. m, λ m. m)

-- The result of `Expr::cat` matches the words that the expressions match one behind the other.
pub Matches-cat : (ps : Exprs) (w : Word) → Matches (cat ps) w ↔ Matches (concatenation ps) w
unfolding Matches cat
Matches-cat ps w =
    let (f, g) = in_turn-cat_of (cat_folder ps) w in
    let (h, k) = in_turn-cat_folder ps w in (λ m. h (f m), λ m. g (k m))

some-append :
    (ps qs : Exprs) (w : Word)
    → MatchesSome (append_exprs ps qs) w ↔ (MatchesSome ps w ⊎ MatchesSome qs w)
unfolding Matches append_exprs
some-append nil qs w = (λ m. inr m, elim [ inl m ↦ absurd m | inr m ↦ m ])
some-append (cons p ps) qs w =
    let (f, g) = some-append ps qs w in
    (
      elim [ inl m ↦ inl (inl m) | inr m ↦ elim (f m) [ inl n ↦ inl (inr n) | inr n ↦ inr n ] ],
      elim [ inl m ↦ elim m [ inl n ↦ inl n | inr n ↦ inr (g (inl n)) ] | inr m ↦ inr (g (inr m)) ],
    )

keep_choice :
    (p : Expr) (ps qs : Exprs) (w : Word)
    → MatchesSome qs w ↔ MatchesSome ps w
    → MatchesSome (cons p qs) w ↔ MatchesSome (cons p ps) w
unfolding Matches
keep_choice p ps qs w e =
    (elim [ inl m ↦ inl m | inr m ↦ inr (e.0 m) ], elim [ inl m ↦ inl m | inr m ↦ inr (e.1 m) ])

drop_choice :
    (ps qs : Exprs) (w : Word)
    → MatchesSome qs w ↔ MatchesSome ps w
    → MatchesSome qs w ↔ MatchesSome (cons empty_language ps) w
unfolding Matches
drop_choice ps qs w e = (λ m. inr (e.0 m), elim [ inl m ↦ absurd m | inr m ↦ e.1 m ])

splice_choice :
    (rs ps qs : Exprs) (w : Word)
    → MatchesSome qs w ↔ MatchesSome ps w
    → MatchesSome (append_exprs rs qs) w ↔ MatchesSome (cons (alternation rs) ps) w
unfolding Matches
splice_choice rs ps qs w e =
    let (f, g) = some-append rs qs w in
    (
      λ m. elim (f m) [ inl n ↦ inl n | inr n ↦ inr (e.0 n) ],
      elim [ inl m ↦ g (inl m) | inr m ↦ g (inr (e.1 m)) ],
    )

some-alt_folder : (ps : Exprs) (w : Word) → MatchesSome (alt_folder ps) w ↔ MatchesSome ps w
unfolding alt_folder
some-alt_folder nil w = (λ m. m, λ m. m)
some-alt_folder (cons empty_language ps) w = drop_choice ps _ w (some-alt_folder ps w)
some-alt_folder (cons (alternation qs) ps) w = splice_choice qs ps _ w (some-alt_folder ps w)
some-alt_folder (cons all_strings_language ps) w = keep_choice _ ps _ w (some-alt_folder ps w)
some-alt_folder (cons epsilon_string ps) w = keep_choice _ ps _ w (some-alt_folder ps w)
some-alt_folder (cons any_character ps) w = keep_choice _ ps _ w (some-alt_folder ps w)
some-alt_folder (cons (literal a) ps) w = keep_choice _ ps _ w (some-alt_folder ps w)
some-alt_folder (cons (concatenation qs) ps) w = keep_choice _ ps _ w (some-alt_folder ps w)
some-alt_folder (cons (intersection qs) ps) w = keep_choice _ ps _ w (some-alt_folder ps w)
some-alt_folder (cons (repetition p a b) ps) w = keep_choice _ ps _ w (some-alt_folder ps w)
some-alt_folder (cons (complement p) ps) w = keep_choice _ ps _ w (some-alt_folder ps w)

-- `Expr::alt` drops empty languages, splices alternations in and builds none of fewer than two
-- expressions: the result matches the words that some expression matches.
pub Matches-alt : (ps : Exprs) (w : Word) → Matches (alt ps) w ↔ Matches (alternation ps) w
unfolding Matches alt
Matches-alt ps w =
    let (f, g) = some-alt_of (alt_folder ps) in
    let (h, k) = some-alt_folder ps w in (λ m. h (f m), λ m. g (k m))
  where
    some-alt_of : (qs : Exprs) → Matches (alt_of qs) w ↔ MatchesSome qs w
    some-alt_of nil = (λ m. m, λ m. m)
    some-alt_of (cons p nil) = (λ m. inl m, elim [ inl m ↦ m | inr m ↦ absurd m ])
    some-alt_of (cons p (cons q qs)) = (λ m. m, λ m. m)

-- `Expr::conj` of no, one or more expressions matches the words that each of them matches.
pub Matches-conj : (ps : Exprs) (w : Word) → Matches (conj ps) w ↔ Matches (intersection ps) w
unfolding Matches conj
Matches-conj nil w = (λ m. m, λ m. m)
Matches-conj (cons p nil) w = (λ m. (m, tt), λ m. m.0)
Matches-conj (cons p (cons q ps)) w = (λ m. m, λ m. m)

stable : {P : Type 0} → (¬ P) ↔ (¬ (¬ (¬ P)))
stable = (λ n k. k n, λ n p. n (λ k. k p))

-- `Expr::comp` rejects the same words as the complement that it stands for, also where it undoes a
-- complement instead of building one.
pub Matches-comp : (p : Expr) (w : Word) → (¬ Matches (comp p) w) ↔ (¬ Matches (complement p) w)
unfolding Matches comp
Matches-comp (complement p) w = stable
Matches-comp p w = (λ m. m, λ m. m)
