-- ===== src/Regexesque/Run.antt =====
-- src/automatonbase.cpp: `run`, a breadth-first search, answers whether some path accepts.
use motion_planning_gadget_s.Common.{
  ℕ, ◌≡◌, refl, sym, subst, ◌∙◌, ◌↔◌, inl, inr, Bool, true, false, ◌||◌, List, [], ◌∷◌, arith,
  Bool-cases, ◌==◌, ==_iff,
}
use motion_planning_gadget_s.Expr.Language.{Word}
use motion_planning_gadget_s.Automaton.{bit, Automaton, step}
use motion_planning_gadget_s.Automaton.Bits.{mem}
use motion_planning_gadget_s.Regexesque.{
  HopscotchSet, insert_all, next_states, any_accepts, run_from, run,
}
use motion_planning_gadget_s.Regexesque.Nfa.{Accepts}
use motion_planning_gadget_s.Regexesque.Steps.{nfa}

false-ne-true : false ≡ true → ⊥
false-ne-true h = cc

module _ (h : HopscotchSet) where
  -- Some state of the set accepts the rest of the word.
  record Found (a : Automaton) (current : h.Carrier) (w : Word) : Type 0 where
    state : ℕ
    member : mem state (h.elements current) ≡ true
    accepts : Accepts (nfa a) state w

  mem-insert_all :
      (x : ℕ) (next : h.Carrier) (ys : List ℕ)
      → mem x (h.elements (insert_all h next ys)) ≡ (mem x (h.elements next) || mem x ys)
  mem-insert_all x next [] = ground arith
  mem-insert_all x next (y ∷ ys) =
      mem-insert_all x (h.insert next y) ys ∙ rw (h.elements-insert next y x) (ground arith)

  -- Some state of `current` has a step to `x`.
  abbrev steps_to : Automaton → List ℕ → ℕ → ℕ → Bool
  steps_to a [] symbol x = false
  steps_to a (c ∷ current) symbol x = mem x (step a c symbol) || steps_to a current symbol x

  mem-next_states :
      (a : Automaton) (next : h.Carrier) (current : List ℕ) (symbol x : ℕ)
      → mem x (h.elements (next_states h a next current symbol))
        ≡ (mem x (h.elements next) || steps_to a current symbol x)
  mem-next_states a next [] symbol x = ground arith
  mem-next_states a next (c ∷ current) symbol x =
      mem-next_states a (insert_all h next (step a c symbol)) current symbol x
      ∙ rw (mem-insert_all x next (step a c symbol)) (ground arith)

  steps_to→ :
      (a : Automaton) (current : List ℕ) (symbol x : ℕ)
      → steps_to a current symbol x ≡ true
      → (c : ℕ) × (mem c current ≡ true) × (mem x (step a c symbol) ≡ true)
  steps_to→ a [] symbol x h = absurd (false-ne-true h)
  steps_to→ a (c ∷ current) symbol x h = elim (Bool-cases (mem x (step a c symbol))) [
    | inl e ↦ (c, ground arith, e)
    | inr e ↦ let r = steps_to→ a current symbol x (ground arith) in (r.0, ground arith, r.2)
  ]

  steps_to← :
      (a : Automaton) (current : List ℕ) (symbol x c : ℕ)
      → mem c current ≡ true
      → mem x (step a c symbol) ≡ true
      → steps_to a current symbol x ≡ true
  steps_to← a [] symbol x c m t = absurd (false-ne-true m)
  steps_to← a (d ∷ current) symbol x c m t = elim (Bool-cases (c == d)) [
    | inl e ↦ rw (sym ((==_iff c d).0 e), t) refl
    | inr e ↦ rw (steps_to← a current symbol x c (ground arith) t) (ground arith)
  ]

  any_accepts→ :
      (a : Automaton) (current : List ℕ)
      → any_accepts h a current ≡ true
      → (s : ℕ) × (mem s current ≡ true) × (bit a.accept s ≡ true)
  any_accepts→ a [] h = absurd (false-ne-true h)
  any_accepts→ a (s ∷ current) h = elim (Bool-cases (bit a.accept s)) [
    | inl e ↦ (s, ground arith, e)
    | inr e ↦ let r = any_accepts→ a current (ground arith) in (r.0, ground arith, r.2)
  ]

  any_accepts← :
      (a : Automaton) (current : List ℕ) (s : ℕ)
      → mem s current ≡ true
      → bit a.accept s ≡ true
      → any_accepts h a current ≡ true
  any_accepts← a [] s m t = absurd (false-ne-true m)
  any_accepts← a (d ∷ current) s m t = elim (Bool-cases (s == d)) [
    | inl e ↦ rw (sym ((==_iff s d).0 e), t) refl
    | inr e ↦ rw (any_accepts← a current s (ground arith) t) (ground arith)
  ]

  run_from→ :
      (a : Automaton) (current : h.Carrier) (w : Word)
      → run_from h a current w ≡ true
      → Found a current w
  unfolding run_from
  run_from→ a current [] t =
      let r = any_accepts→ a (h.elements current) t in
      record { state = r.0; member = r.1; accepts = r.2 }
  run_from→ a current (c ∷ w) t =
      let f = run_from→ a (next_states h a h.cleared (h.elements current) c) w t in
      let m = mem-next_states a h.cleared (h.elements current) c f.state in
      let r =
        steps_to→ a (h.elements current) c f.state
          (sym (m ∙ rw (h.elements-cleared f.state) refl) ∙ f.member) in
      record { state = r.0; member = r.1; accepts = (f.state, r.2, f.accepts) }

  run_from← :
      (a : Automaton) (current : h.Carrier) (w : Word)
      → Found a current w
      → run_from h a current w ≡ true
  unfolding run_from
  run_from← a current [] f = any_accepts← a (h.elements current) f.state f.member f.accepts
  run_from← a current (c ∷ w) f =
      let (y, t, k) = f.accepts in
      let m = mem-next_states a h.cleared (h.elements current) c y in
      run_from← a (next_states h a h.cleared (h.elements current) c) w (record {
        state = y;
        member =
            m ∙ rw (h.elements-cleared y) (steps_to← a (h.elements current) c y f.state f.member t);
        accepts = k;
      })

  only : (s : ℕ) → mem s (h.elements (h.insert h.cleared 0)) ≡ true → s ≡ 0
  only s m =
      let e = sym (h.elements-insert h.cleared 0 s ∙ rw (h.elements-cleared s) refl) ∙ m in
      (==_iff s 0).0 e

  -- With sets that insert and iterate as they should, the breadth-first search of run answers true
  -- exactly for the words that lead from state 0 to an accepting state.
  pub run-Accepts : (a : Automaton) (w : Word) → (run h a w ≡ true) ↔ Accepts (nfa a) 0 w
  unfolding run
  run-Accepts a w = (
    λ t.
        let f = run_from→ a (h.insert h.cleared 0) w t in
        subst (λ s. Accepts (nfa a) s w) (only f.state f.member) f.accepts,
    λ m. run_from← a (h.insert h.cleared 0) w (record {
      state = 0;
      member = h.elements-insert h.cleared 0 0 ∙ rw (h.elements-cleared 0) refl;
      accepts = m;
    }),
  )
