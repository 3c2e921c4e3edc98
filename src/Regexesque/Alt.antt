-- ===== src/Regexesque/Alt.antt =====
-- src/automaton-regexesque.hpp: the language of `alt_once`, of `alt` on a range, and of `alt` on
-- single automata.
use motion_planning_gadget_s.Common.{
  ℕ, zero, suc, ◌+◌, ◌-◌, ◌<◌, ◌≡◌, refl, sym, ◌∙◌, ◌↔◌, ◌⊎◌, inl, inr, true, false, ◌&&◌, ◌||◌,
  List, [], ◌∷◌, arith, leb, ltb, Bool-cases, ◌==◌, length, word32,
}
use motion_planning_gadget_s.Expr.Language.{Word, Language}
use motion_planning_gadget_s.Automaton.{bit, Automaton, new, add_state, step}
use motion_planning_gadget_s.Automaton.Bits.{mem}
use motion_planning_gadget_s.Automaton.Build.{
  step-add_epsilon, length-add_epsilon, length-add_epsilon_accept,
}
use motion_planning_gadget_s.Regexesque.{append, alt_once, alt, alt_from, alt_variadic, empty}
use motion_planning_gadget_s.Regexesque.Nfa.{Accepts}
use motion_planning_gadget_s.Regexesque.Steps.{
  nfa, IsValid, step-lt, append-next, append-final, append-IsValid, length-append_transitions,
}
use motion_planning_gadget_s.Regexesque.Alternation.{
  IsAlternation, NoReturn, IsAlternation-Accepts, second←,
}
use motion_planning_gadget_s.Regexesque.Cat.{new-IsValid, size, AllValid, total_states}

false-ne-true : false ≡ true → ⊥
false-ne-true h = cc

module _ (n : ℕ) (a b : Automaton) (va : IsValid a) (vb : IsValid b) (states : 0 < size a + size b)
    (small : size a + size b < word32) where
  next_once :
      (s c y : ℕ)
      → mem y (step (alt_once n a b) s c)
        ≡ (mem y (step (append a b).1 s c) || ((s == 0) && mem y (step (append a b).1 (size a) c)))
  unfolding alt_once append
  next_once s c y =
      let v = append-IsValid a b va vb small in
      let z = length-append_transitions a b in
      (step-add_epsilon n (append a b).1 0 (size a) (omega (arith, z))
          (omega (arith, z, v.sized))).0
        s c y

  final_once :
      (s : ℕ)
      → bit (alt_once n a b).accept s
        ≡ (bit (append a b).1.accept s || ((s == 0) && bit (append a b).1.accept (size a)))
  unfolding alt_once append
  final_once s =
      let v = append-IsValid a b va vb small in
      let z = length-append_transitions a b in
      (step-add_epsilon n (append a b).1 0 (size a) (omega (arith, z))
          (omega (arith, z, v.sized))).1
        s

  size-alt_once_app : size (alt_once n a b) ≡ size (append a b).1
  unfolding alt_once append
  size-alt_once_app = length-add_epsilon n (append a b).1 0 (size a)

  bits-alt_once : length (alt_once n a b).accept ≡ length (append a b).1.accept
  unfolding alt_once append
  bits-alt_once = length-add_epsilon_accept n (append a b).1 0 (size a)

  size-alt_once : size (alt_once n a b) ≡ size a + size b
  size-alt_once = size-alt_once_app ∙ length-append_transitions a b

  alt_once-IsValid : IsValid (alt_once n a b)
  alt_once-IsValid =
      let v = append-IsValid a b va vb small in
      record {
        sized = bits-alt_once ∙ v.sized ∙ sym size-alt_once_app;
        closed = λ s c y l t.
            let e = sym (next_once s c y) ∙ t in
            let inside : y < length (append a b).1.transitions =
              elim (Bool-cases (mem y (step (append a b).1 s c))) [
                | inl g ↦ step-lt (append a b).1 s c y v g
                | inr g ↦ step-lt (append a b).1 (size a) c y v (ground arith)
              ] in
            omega (arith, inside, size-alt_once, length-append_transitions a b);
      }

module _ (n : ℕ) (a b : Automaton) (va : IsValid a) (vb : IsValid b) (states : 0 < size a)
    (small : size a + size b < word32) where
  alt_once-IsAlternation : IsAlternation (size a) (nfa a) (nfa b) (nfa (alt_once n a b))
  alt_once-IsAlternation =
      let none : size a - size a ≡ 0 = omega arith in
      let at_base : ltb (size a) (size a) ≡ false = ground arith in
      let zero_before : ltb 0 (size a) ≡ true = ground arith in
      record {
        first_next = λ c y.
            next_once n a b va vb (omega arith) small 0 c y
            ∙ rw
                (
                  append-next a b 0 c y va vb small,
                  append-next a b (size a) c y va vb small,
                  zero_before,
                  at_base,
                  none,
                )
                refl;
        first_final =
            final_once n a b va vb (omega arith) small 0
            ∙ rw (append-final a b 0 va, append-final a b (size a) va, zero_before, at_base, none)
                refl;
        front_next = λ s c y p l.
            let before : ltb s (size a) ≡ true = ground arith in
            let other : (s == 0) ≡ false = ground arith in
            next_once n a b va vb (omega arith) small s c y
            ∙ rw (append-next a b s c y va vb small, before, other) (ground arith);
        front_final = λ s p l.
            let before : ltb s (size a) ≡ true = ground arith in
            let other : (s == 0) ≡ false = ground arith in
            final_once n a b va vb (omega arith) small s
            ∙ rw (append-final a b s va, before, other) (ground arith);
        back = record {
          back_next = λ s c y.
              let after : ltb (size a + s) (size a) ≡ false = ground arith in
              let other : (size a + s == 0) ≡ false = ground arith in
              let left : size a + s - size a ≡ s = omega arith in
              next_once n a b va vb (omega arith) small (size a + s) c y
              ∙ rw (append-next a b (size a + s) c y va vb small, after, other, left)
                  (ground arith);
          back_final = λ s.
              let after : ltb (size a + s) (size a) ≡ false = ground arith in
              let other : (size a + s == 0) ≡ false = ground arith in
              let left : size a + s - size a ≡ s = omega arith in
              final_once n a b va vb (omega arith) small (size a + s)
              ∙ rw (append-final a b (size a + s) va, after, other, left) (ground arith);
        };
      }

  appended_free : NoReturn (size a) (nfa a) → (s c : ℕ) → mem 0 (step (append a b).1 s c) ≡ false
  appended_free free s c = elim (Bool-cases (ltb s (size a))) [
    | inl e ↦ append-next a b s c 0 va vb small ∙ rw e (free s c (ground arith))
    | inr e ↦
        let first : leb (size a) 0 ≡ false = ground arith in
        append-next a b s c 0 va vb small ∙ rw (e, first) refl
  ]

  -- No step leads back to the first state, if none did.
  alt_once-NoReturn :
      NoReturn (size a) (nfa a) → NoReturn (size (alt_once n a b)) (nfa (alt_once n a b))
  alt_once-NoReturn free s c l =
      next_once n a b va vb (omega arith) small s c 0
      ∙ rw (appended_free free s c, appended_free free (size a) c) (ground arith)

  alt_once-Accepts :
      NoReturn (size a) (nfa a)
      → (w : Word)
      → Accepts (nfa (alt_once n a b)) 0 w ↔ (Accepts (nfa a) 0 w ⊎ Accepts (nfa b) 0 w)
  alt_once-Accepts free w =
      IsAlternation-Accepts (size a) (nfa a) (nfa b) (nfa (alt_once n a b)) alt_once-IsAlternation
        va.closed free w states

-- A word of one of the automata.
abbrev pub InSome : List Automaton → Language
InSome [] w = ⊥
InSome (b ∷ bs) w = Accepts (nfa b) 0 w ⊎ InSome bs w

regroup→ : {A B C : Type 0} → (A ⊎ B) ⊎ C → A ⊎ (B ⊎ C)
regroup→ (inl (inl x)) = inl x
regroup→ (inl (inr x)) = inr (inl x)
regroup→ (inr x) = inr (inr x)

regroup← : {A B C : Type 0} → A ⊎ (B ⊎ C) → (A ⊎ B) ⊎ C
regroup← (inl x) = inl (inl x)
regroup← (inr (inl x)) = inl (inr x)
regroup← (inr (inr x)) = inr x

alt_from-InSome :
    (n : ℕ) (a : Automaton) (bs : List Automaton)
    → IsValid a
    → 0 < size a
    → NoReturn (size a) (nfa a)
    → AllValid bs
    → size a + total_states bs < word32
    → (w : Word) → Accepts (nfa (alt_from n a bs)) 0 w ↔ (Accepts (nfa a) 0 w ⊎ InSome bs w)
alt_from-InSome n a [] va l free vs h w = (inl, λ m. elim m [ inl x ↦ x | inr x ↦ absurd x ])
alt_from-InSome n a (b ∷ bs) va l free vs h w =
    let vb = vs.0.0 in
    let small : size a + size b < word32 = omega arith in
    let z = size-alt_once n a b va vb (omega arith) small in
    let once = alt_once-Accepts n a b va vb l small free w in
    let rest =
      alt_from-InSome n (alt_once n a b) bs (alt_once-IsValid n a b va vb (omega arith) small)
        (omega (arith, z)) (alt_once-NoReturn n a b va vb l small free) vs.1 (omega (arith, z)) w in
    (
      λ m. regroup→ (elim (rest.0 m) [ inl x ↦ inl (once.0 x) | inr x ↦ inr x ]),
      λ m. rest.1 (elim (regroup← m) [ inl x ↦ inl (once.1 x) | inr x ↦ inr x ]),
    )

-- The automaton of one state and no steps, which `alt` starts from.
lone-step : (s c y : ℕ) → mem y (step (add_state new).1 s c) ≡ false
unfolding add_state step
lone-step zero c y = refl
lone-step (suc s) c y = refl

lone-size : size (add_state new).1 ≡ 1
unfolding add_state
lone-size = refl

lone-IsValid : IsValid (add_state new).1
unfolding add_state
lone-IsValid = record {
  sized = refl;
  closed = λ s c y l t. absurd (false-ne-true (sym (lone-step s c y) ∙ t));
}

lone-Accepts : (w : Word) → Accepts (nfa (add_state new).1) 0 w → ⊥
unfolding add_state
lone-Accepts [] h = false-ne-true h
lone-Accepts (c ∷ w) (y, t, h) = false-ne-true (sym (lone-step 0 c y) ∙ t)

empty-Accepts : (w : Word) → Accepts (nfa empty) 0 w → ⊥
unfolding empty step
empty-Accepts [] h = false-ne-true h
empty-Accepts (c ∷ w) (y, t, h) = false-ne-true t

-- For automata of at least one state each, and less than 2 ^ 32 together with the initial state,
-- alt of a range accepts the words that one of the automata accepts.
pub alt-InSome :
    (n : ℕ) (bs : List Automaton)
    → AllValid bs
    → 1 + total_states bs < word32
    → (w : Word) → Accepts (nfa (alt n bs)) 0 w ↔ InSome bs w
unfolding alt
alt-InSome n [] vs h w = (empty-Accepts w, λ m. absurd m)
alt-InSome n (b ∷ bs) vs h w =
    let one : size (add_state new).1 ≡ 1 = lone-size in
    let r =
      alt_from-InSome n (add_state new).1 (b ∷ bs) lone-IsValid (omega (arith, one))
        (λ s c l. lone-step s c 0) vs (omega (arith, one)) w in
    (λ m. elim (r.0 m) [ inl x ↦ absurd (lone-Accepts w x) | inr x ↦ x ], λ m. r.1 (inr m))

-- alt of single automata has no initial state of its own: where the first automaton has a step from
-- its initial state back to it, a word of the second one is accepted behind that step.
pub alt_variadic-return :
    (n : ℕ) (a b : Automaton) (c : ℕ) (w : Word)
    → IsValid a
    → IsValid b
    → 0 < size a
    → size a + size b < word32
    → mem 0 (step a 0 c) ≡ true
    → Accepts (nfa b) 0 w
    → Accepts (nfa (alt_variadic n (a ∷ b ∷ []))) 0 (c ∷ w)
unfolding alt_variadic
alt_variadic-return n a b c w va vb l h t m =
    let first = alt_once n new a in
    let filled : 0 < size new + size a = omega arith in
    let fits : size new + size a < word32 = omega arith in
    let v = alt_once-IsValid n new a new-IsValid va filled fits in
    let z = size-alt_once n new a new-IsValid va filled fits in
    let states : 0 < size first = omega (arith, z) in
    let small : size first + size b < word32 = omega (arith, z) in
    let alternates = alt_once-IsAlternation n first b v vb states small in
    let returns : mem 0 (step first 0 c) ≡ true =
      next_once n new a new-IsValid va filled fits 0 c 0
      ∙ rw (append-next new a 0 c 0 new-IsValid va fits, t) refl in
    (
      0,
      alternates.first_next c 0 ∙ rw returns refl,
      second← (size first) (nfa first) (nfa b) (nfa (alt_once n first b)) alternates w m,
    )
