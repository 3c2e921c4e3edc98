-- ===== src/Regexesque/Atoms.antt =====
-- src/automaton-regexesque-basic.hpp and src/automaton-regexesque.hpp: the languages of `all` and
-- `any`.
use motion_planning_gadget_s.Common.{
  ℕ, zero, suc, ◌+◌, ◌<◌, ◌≤◌, ◌≡◌, refl, ap, sym, subst, ◌∙◌, ◌↔◌, Bool, true, false, ◌&&◌, ◌||◌,
  [], ◌∷◌, arith, leb, ltb, ◌==◌, length, All,
}
use motion_planning_gadget_s.Expr.Language.{Word}
use motion_planning_gadget_s.Automaton.{
  bit, Automaton, row, step, set_accept, add_symbol, add_state,
}
use motion_planning_gadget_s.Automaton.Bits.{mem}
use motion_planning_gadget_s.Automaton.Symbols.{
  Masks, step-add_symbol, length-add_symbol, accept-add_symbol, add_symbol-Masks,
}
use motion_planning_gadget_s.Regexesque.{add_all_symbols, all, any_symbol}
use motion_planning_gadget_s.Regexesque.Nfa.{Accepts}
use motion_planning_gadget_s.Regexesque.Steps.{nfa}

false-ne-true : false ≡ true → ⊥
false-ne-true h = cc

join :
    (q from y to c s left : ℕ) (old : Bool)
    → ((old || ((q == from) && ((y == to) && (c == s))))
        || ((q == from) && ((y == to) && (leb (s + 1) c && ltb c (s + 1 + left)))))
      ≡ (old || ((q == from) && ((y == to) && (leb s c && ltb c (s + suc left)))))
join q from y to c s left old = ground arith

-- What the loop over the symbols from `s` on makes of `a`.
record Adds (a : Automaton) (from to s left : ℕ) (r : Automaton) : Type 0 where
  next :
      (q c y : ℕ)
      → mem y (step r q c)
        ≡ (mem y (step a q c) || ((q == from) && ((y == to) && (leb s c && ltb c (s + left)))))
  final : r.accept ≡ a.accept

add_all_symbols-Adds :
    (n : ℕ) (a : Automaton) (from to s left : ℕ)
    → from < length a.transitions
    → s + left ≤ n
    → Masks n (row a from)
    → Adds a from to s left (add_all_symbols n a from to s left)
unfolding add_all_symbols
add_all_symbols-Adds n a from to s zero h b m = record {
  next = λ q c y. ground arith;
  final = refl;
}
add_all_symbols-Adds n a from to s (suc left) h b m =
    let a' = (add_symbol n a from s to).1 in
    let r =
      add_all_symbols-Adds n a' from to (s + 1) left
        (omega (arith, length-add_symbol n a from s to)) (omega arith)
        (add_symbol-Masks n a from s to h m) in
    record {
      next = λ q c y.
          r.next q c y
          ∙ rw (step-add_symbol n a from s to h (omega arith) m q c y)
              (join q from y to c s left (mem y (step a q c)));
      final = r.final ∙ accept-add_symbol n a from s to;
    }

abbrev one_state : Automaton
one_state = record {
  transitions = [] ∷ [];
  accept = true ∷ [];
  deterministic = true;
  minimal = false;
  canonical = false;
}

abbrev two_states : Automaton
two_states = record {
  transitions = [] ∷ [] ∷ [];
  accept = false ∷ true ∷ [];
  deterministic = true;
  minimal = false;
  canonical = false;
}

one-step : (q c y : ℕ) → mem y (step one_state q c) ≡ false
unfolding step
one-step zero c y = refl
one-step (suc q) c y = refl

two-step : (q c y : ℕ) → mem y (step two_states q c) ≡ false
unfolding step
two-step zero c y = refl
two-step (suc zero) c y = refl
two-step (suc (suc q)) c y = refl

all-next : (n q c y : ℕ) → mem y (step (all n) q c) ≡ ((q == 0) && ((y == 0) && ltb c n))
unfolding all step add_state set_accept
all-next n q c y =
    let r = add_all_symbols-Adds n one_state 0 0 0 n (omega arith) (omega arith) tt in
    r.next q c y ∙ rw (one-step q c y) (ground arith)

all-final : (n : ℕ) → (all n).accept ≡ true ∷ []
unfolding all add_state set_accept
all-final n = (add_all_symbols-Adds n one_state 0 0 0 n (omega arith) (omega arith) tt).final

any-next : (n q c y : ℕ) → mem y (step (any_symbol n) q c) ≡ ((q == 0) && ((y == 1) && ltb c n))
unfolding any_symbol step add_state set_accept
any-next n q c y =
    let r = add_all_symbols-Adds n two_states 0 1 0 n (omega arith) (omega arith) tt in
    r.next q c y ∙ rw (two-step q c y) (ground arith)

any-final : (n : ℕ) → (any_symbol n).accept ≡ false ∷ true ∷ []
unfolding any_symbol add_state set_accept
any-final n = (add_all_symbols-Adds n two_states 0 1 0 n (omega arith) (omega arith) tt).final

-- all accepts exactly the words over the alphabet.
pub all-Accepts : (n : ℕ) (w : Word) → Accepts (nfa (all n)) 0 w ↔ All (λ c. c < n) w
all-Accepts n [] = ((λ h. tt), (λ h. ap (λ l. bit l 0) (all-final n)))
all-Accepts n (c ∷ w) = (
  λ h.
      let t = sym (all-next n 0 c h.0) ∙ h.1 in
      let e : h.0 ≡ 0 = ground arith in
      (ground arith, (all-Accepts n w).0 (subst (λ s. Accepts (nfa (all n)) s w) e h.2)),
  λ m. (0, all-next n 0 c 0 ∙ ground arith, (all-Accepts n w).1 m.1),
)

-- any accepts exactly the words of one symbol of the alphabet.
pub any_symbol-Accepts :
    (n : ℕ) (w : Word) → Accepts (nfa (any_symbol n)) 0 w ↔ ((c : ℕ) × (c < n) × (w ≡ c ∷ []))
any_symbol-Accepts n [] =
    ((λ h. absurd (false-ne-true (sym (ap (λ l. bit l 0) (any-final n)) ∙ h))), (λ m. cc (m.2)))
any_symbol-Accepts n (c ∷ []) = (
  (λ h. let t = sym (any-next n 0 c h.0) ∙ h.1 in (c, ground arith, refl)),
  (λ m.
      let e : c ≡ m.0 = cc (m.2) in
      let l = m.1 in (1, any-next n 0 c 1 ∙ ground arith, ap (λ l. bit l 1) (any-final n))),
)
any_symbol-Accepts n (c ∷ d ∷ w) = (
  (λ h.
      let t = sym (any-next n 0 c h.0) ∙ h.1 in
      let u = sym (any-next n h.0 d h.2.0) ∙ h.2.1 in absurd (ground arith)),
  (λ m. cc (m.2)),
)
