-- ===== src/Regexesque/Cat.antt =====
-- src/automaton-regexesque.hpp: the language of `cat_once` and of `cat`.
use motion_planning_gadget_s.Common.{
  ℕ, ◌+◌, ◌-◌, ◌<◌, ◌≡◌, refl, ap, sym, ◌∙◌, ◌↔◌, inl, inr, true, false, List, [], ◌∷◌, ◌++◌,
  append_assoc, arith, ltb, Bool-cases, length, word32, All,
}
use motion_planning_gadget_s.Expr.Language.{Word, Language, Splits}
use motion_planning_gadget_s.Expr.Factories.{Splits-map, Splits-back_nil, Splits-nil_back}
use motion_planning_gadget_s.Automaton.{Automaton, new, step}
use motion_planning_gadget_s.Automaton.Bits.{mem}
use motion_planning_gadget_s.Regexesque.{append, cat_once, cat, cat_from, epsilon}
use motion_planning_gadget_s.Regexesque.Nfa.{
  Accepts, IsCatenation, IsCatenation-Splits, back→, back←,
}
use motion_planning_gadget_s.Regexesque.Steps.{
  nfa, IsValid, step-lt, append-next, append-final, append-IsValid, length-append_transitions,
}
use motion_planning_gadget_s.Regexesque.Catenation.{between, Wires, for_accepting-Wires}

abbrev pub size : Automaton → ℕ
size a = length a.transitions

false-ne-true : false ≡ true → ⊥
false-ne-true h = cc

module _ (n : ℕ) (a b : Automaton) (va : IsValid a) (vb : IsValid b) (nonempty : 0 < size b)
    (small : size a + size b < word32) where
  -- The loop of `cat_once` on the appended automata.
  wired : Wires (size a) 0 (size a) (append a b).1 (cat_once n a b)
  unfolding cat_once append
  wired =
      let v = append-IsValid a b va vb small in
      for_accepting-Wires n (size a) 0 (size a) (append a b).1 (omega arith)
        (omega (arith, length-append_transitions a b)) v.sized

  pub cat_once-IsCatenation : IsCatenation (size a) (nfa a) (nfa b) (nfa (cat_once n a b))
  cat_once-IsCatenation =
      let w = wired in
      let none : size a - size a ≡ 0 = omega arith in
      let at_base : (ltb (size a) (size a)) ≡ false = ground arith in
      record {
        front_next = λ s c y l.
            let before : ltb s (size a) ≡ true = ground arith in
            let here : between 0 (size a) s ≡ true = ground arith in
            w.next s c y
            ∙ rw
                (
                  append-next a b s c y va vb small,
                  append-final a b s va,
                  append-next a b (size a) c y va vb small,
                  before,
                  here,
                  at_base,
                  none,
                )
                refl;
        front_final = λ s l.
            let before : ltb s (size a) ≡ true = ground arith in
            let here : between 0 (size a) s ≡ true = ground arith in
            w.final s
            ∙ rw (append-final a b s va, append-final a b (size a) va, before, here, at_base, none)
                refl;
        back = record {
          back_next = λ s c y.
              let out : between 0 (size a) (size a + s) ≡ false = ground arith in
              let after : ltb (size a + s) (size a) ≡ false = ground arith in
              let left : size a + s - size a ≡ s = omega arith in
              w.next (size a + s) c y
              ∙ rw (append-next a b (size a + s) c y va vb small, out, after, left) (ground arith);
          back_final = λ s.
              let out : between 0 (size a) (size a + s) ≡ false = ground arith in
              let after : ltb (size a + s) (size a) ≡ false = ground arith in
              let left : size a + s - size a ≡ s = omega arith in
              w.final (size a + s) ∙ rw (out, append-final a b (size a + s) va, after, left) refl;
        };
      }

  -- For an automaton that has states, cat_once accepts a word of it and then a word of the other.
  pub cat_once-Splits :
      (w : Word)
      → 0 < size a
      → Accepts (nfa (cat_once n a b)) 0 w ↔ Splits (Accepts (nfa a) 0) (Accepts (nfa b) 0) w
  cat_once-Splits w h =
      IsCatenation-Splits (size a) (nfa a) (nfa b) (nfa (cat_once n a b)) cat_once-IsCatenation
        va.closed 0 w h

  pub size-cat_once : size (cat_once n a b) ≡ size a + size b
  size-cat_once = wired.size.states ∙ length-append_transitions a b

  pub cat_once-IsValid : IsValid (cat_once n a b)
  cat_once-IsValid =
      let v = append-IsValid a b va vb small in
      let app = (append a b).1 in
      record {
        sized = omega (arith, wired.size.states, wired.size.bits, v.sized);
        closed = λ s c y l t.
            let e = sym (wired.next s c y) ∙ t in
            let inside : y < length app.transitions = elim (Bool-cases (mem y (step app s c))) [
              | inl g ↦ step-lt app s c y v g
              | inr g ↦ step-lt app (size a) c y v (ground arith)
            ] in
            omega (arith, inside, wired.size.states);
      }

-- A word of each automaton in turn.
abbrev pub InTurn : List Automaton → Language
InTurn [] w = w ≡ []
InTurn (b ∷ bs) w = Splits (Accepts (nfa b) 0) (InTurn bs) w

-- Every automaton is valid and has a state.
abbrev pub AllValid : List Automaton → Type 0
AllValid bs = All (λ b. IsValid b × (0 < size b)) bs

abbrev pub total_states : List Automaton → ℕ
total_states [] = 0
total_states (b ∷ bs) = size b + total_states bs

Splits-assoc→ : (L M N : Language) (w : Word) → Splits (Splits L M) N w → Splits L (Splits M N) w
Splits-assoc→ L M N w s =
    let f = s.in_front in
    record {
      front = f.front;
      back = f.back ++ s.back;
      joined = s.joined ∙ ap (λ u. u ++ s.back) f.joined ∙ append_assoc f.front f.back s.back;
      in_front = f.in_front;
      in_back = record {
        front = f.back;
        back = s.back;
        joined = refl;
        in_front = f.in_back;
        in_back = s.in_back;
      };
    }

Splits-assoc← : (L M N : Language) (w : Word) → Splits L (Splits M N) w → Splits (Splits L M) N w
Splits-assoc← L M N w s =
    let g = s.in_back in
    record {
      front = s.front ++ g.front;
      back = g.back;
      joined =
          s.joined ∙ ap (λ u. s.front ++ u) g.joined ∙ sym (append_assoc s.front g.front g.back);
      in_front = record {
        front = s.front;
        back = g.front;
        joined = refl;
        in_front = s.in_front;
        in_back = g.in_front;
      };
      in_back = g.in_back;
    }

cat_from-InTurn :
    (n : ℕ) (a : Automaton) (bs : List Automaton)
    → IsValid a
    → 0 < size a
    → AllValid bs
    → size a + total_states bs < word32
    → (w : Word) → Accepts (nfa (cat_from n a bs)) 0 w ↔ Splits (Accepts (nfa a) 0) (InTurn bs) w
cat_from-InTurn n a [] va l vs h w =
    (λ m. Splits-nil_back (Accepts (nfa a) 0) w m, λ m. Splits-back_nil (Accepts (nfa a) 0) m)
cat_from-InTurn n a (b ∷ bs) va l vs h w =
    let vb = vs.0.0 in
    let small : size a + size b < word32 = omega arith in
    let z = size-cat_once n a b va vb vs.0.1 small in
    let once = cat_once-Splits n a b va vb vs.0.1 small in
    let rest =
      cat_from-InTurn n (cat_once n a b) bs (cat_once-IsValid n a b va vb vs.0.1 small)
        (omega (arith, z)) vs.1 (omega (arith, z)) w in
    let L = Accepts (nfa a) 0 in
    let M = Accepts (nfa b) 0 in
    (
      λ m. Splits-assoc→ L M (InTurn bs) w (Splits-map (λ u. (once u l).0) (λ u k. k) (rest.0 m)),
      λ m. rest.1 (Splits-map (λ u. (once u l).1) (λ u k. k) (Splits-assoc← L M (InTurn bs) w m)),
    )

pub new-IsValid : IsValid new
unfolding step
new-IsValid = record { sized = refl; closed = λ s c y l t. absurd (omega arith) }

epsilon-Accepts : (w : Word) → Accepts (nfa epsilon) 0 w ↔ (w ≡ [])
unfolding epsilon step
epsilon-Accepts [] = ((λ h. refl), (λ h. refl))
epsilon-Accepts (c ∷ w) = ((λ h. absurd (false-ne-true h.1)), (λ h. cc))

-- Appended to no states, the automaton is as it was.
cat_once-new :
    (n : ℕ) (b : Automaton)
    → IsValid b
    → 0 < size b
    → size b < word32
    → (w : Word) → Accepts (nfa (cat_once n new b)) 0 w ↔ Accepts (nfa b) 0 w
cat_once-new n b vb l h w =
    let at = (cat_once-IsCatenation n new b new-IsValid vb l (omega arith)).back in
    (
      back→ 0 (nfa b) (nfa (cat_once n new b)) at 0 w,
      back← 0 (nfa b) (nfa (cat_once n new b)) at 0 w,
    )

-- For automata of at least one state each, and less than 2 ^ 32 together, cat accepts the words
-- made of a word of each automaton in turn; for no automaton, the empty word.
pub cat-InTurn :
    (n : ℕ) (bs : List Automaton)
    → AllValid bs
    → total_states bs < word32
    → (w : Word) → Accepts (nfa (cat n bs)) 0 w ↔ InTurn bs w
unfolding cat
cat-InTurn n [] vs h w = epsilon-Accepts w
cat-InTurn n (b ∷ bs) vs h w =
    let vb = vs.0.0 in
    let small : size new + size b < word32 = omega arith in
    let z = size-cat_once n new b new-IsValid vb vs.0.1 small in
    let once = cat_once-new n b vb vs.0.1 (omega arith) in
    let rest =
      cat_from-InTurn n (cat_once n new b) bs (cat_once-IsValid n new b new-IsValid vb vs.0.1 small)
        (omega (arith, z, vs.0.1)) vs.1 (omega (arith, z)) w in
    (
      λ m. Splits-map (λ u. (once u).0) (λ u k. k) (rest.0 m),
      λ m. rest.1 (Splits-map (λ u. (once u).1) (λ u k. k) m),
    )
