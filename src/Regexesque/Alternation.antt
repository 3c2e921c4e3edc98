-- ===== src/Regexesque/Alternation.antt =====
-- src/automaton-regexesque.hpp: `alt` accepts what one of its automata accepts.
use motion_planning_gadget_s.Common.{
  ℕ, zero, suc, ◌+◌, ◌<◌, ◌≡◌, sym, subst, ◌∙◌, ◌↔◌, ◌⊎◌, inl, inr, true, false, ◌||◌, [], ◌∷◌,
  arith, Bool-cases,
}
use motion_planning_gadget_s.Expr.Language.{Word}
use motion_planning_gadget_s.Regexesque.Nfa.{
  Nfa, Accepts, ClosedBelow, behind, behind-shift, behind-split, IsBehind, back→, back←,
}

-- `q` is `m` on `k` states and `p` behind them, and the first state of `m` can also go on as that
-- of `p`.
pub record IsAlternation (k : ℕ) (m p q : Nfa) : Type 0 where
  pub first_next : (c y : ℕ) → q.next 0 c y ≡ (m.next 0 c y || behind k p 0 c y)
  pub first_final : q.final 0 ≡ (m.final 0 || p.final 0)
  pub front_next : (s c y : ℕ) → 0 < s → s < k → q.next s c y ≡ m.next s c y
  pub front_final : (s : ℕ) → 0 < s → s < k → q.final s ≡ m.final s
  pub back : IsBehind k p q

-- No step of the states below `k` leads to the first state.
abbrev pub NoReturn : ℕ → Nfa → Type 0
NoReturn k m = (s c : ℕ) → s < k → m.next s c 0 ≡ false

true-ne-false : true ≡ false → ⊥
true-ne-false h = cc

-- A word of the second automaton is accepted from the first state on.
pub second← :
    (k : ℕ) (m p q : Nfa) → IsAlternation k m p q → (w : Word) → Accepts p 0 w → Accepts q 0 w
second← k m p q alt [] h = alt.first_final ∙ ground arith
second← k m p q alt (c ∷ w) (y, t, h) =
    let e = behind-shift k 0 c y p t in
    (k + y, alt.first_next c (k + y) ∙ ground arith, back← k p q alt.back y w h)

module _ (k : ℕ) (m p q : Nfa) (alt : IsAlternation k m p q) (closed : ClosedBelow k m)
    (free : NoReturn k m) where
  inside : (s c y : ℕ) → s < k → m.next s c y ≡ true → 0 < y
  inside s c zero l t = absurd (true-ne-false (sym t ∙ free s c l))
  inside s c (suc y) l t = omega arith

  front→ : (s : ℕ) (w : Word) → 0 < s → s < k → Accepts q s w → Accepts m s w
  front→ s [] b l h = sym (alt.front_final s b l) ∙ h
  front→ s (c ∷ w) b l (y, t, h) =
      let g = sym (alt.front_next s c y b l) ∙ t in
      (y, g, front→ y w (inside s c y l g) (closed s c y l g) h)

  front← : (s : ℕ) (w : Word) → 0 < s → s < k → Accepts m s w → Accepts q s w
  front← s [] b l h = alt.front_final s b l ∙ h
  front← s (c ∷ w) b l (y, t, h) =
      (y, alt.front_next s c y b l ∙ t, front← y w (inside s c y l t) (closed s c y l t) h)

  first→ : (w : Word) → 0 < k → Accepts q 0 w → Accepts m 0 w ⊎ Accepts p 0 w
  first→ [] l h = elim (Bool-cases (m.final 0)) [
    | inl g ↦ inl g
    | inr g ↦ inr (let e = sym alt.first_final ∙ h in ground arith)
  ]
  first→ (c ∷ w) l (y, t, h) = elim (Bool-cases (m.next 0 c y)) [
    | inl g ↦ inl (y, g, front→ y w (inside 0 c y l g) (closed 0 c y l g) h)
    | inr g ↦
        let e = sym (alt.first_next c y) ∙ t in
        let z = behind-split k 0 c y p (ground arith) in
        inr (z.0, z.2, back→ k p q alt.back z.0 w (subst (λ v. Accepts q v w) z.1 h))
  ]

  first← : (w : Word) → 0 < k → Accepts m 0 w ⊎ Accepts p 0 w → Accepts q 0 w
  first← [] l (inl h) = alt.first_final ∙ ground arith
  first← [] l (inr h) = second← k m p q alt [] h
  first← (c ∷ w) l (inl (y, t, h)) =
      (y, alt.first_next c y ∙ ground arith, front← y w (inside 0 c y l t) (closed 0 c y l t) h)
  first← (c ∷ w) l (inr h) = second← k m p q alt (c ∷ w) h

  -- The alternation accepts the words of either automaton.
  pub IsAlternation-Accepts : (w : Word) → 0 < k → Accepts q 0 w ↔ (Accepts m 0 w ⊎ Accepts p 0 w)
  IsAlternation-Accepts w l = (first→ w l, first← w l)
