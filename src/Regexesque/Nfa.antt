-- ===== src/Regexesque/Nfa.antt =====
-- Nondeterministic automata as a step test and an acceptance test, and what their catenation,
-- alternation and star accept: the meaning of the constructions of src/automaton-regexesque.hpp.
use motion_planning_gadget_s.Common.{
  ℕ, ◌+◌, ◌-◌, ◌<◌, ◌≡◌, refl, ap, sym, subst, ◌∙◌, ◌↔◌, inl, inr, Bool, true, ◌&&◌, ◌||◌, [], ◌∷◌,
  ◌++◌, arith, leb, Bool-cases,
}
use motion_planning_gadget_s.Expr.Language.{Word, Language, Splits}

pub record Nfa : Type 0 where
  pub next : ℕ → ℕ → ℕ → Bool
  pub final : ℕ → Bool

-- The words that lead from `s` to a final state.
abbrev pub Accepts : Nfa → ℕ → Language
Accepts m s [] = m.final s ≡ true
Accepts m s (c ∷ w) = (y : ℕ) × (m.next s c y ≡ true) × Accepts m y w

-- No step leads out of the states below `k`.
abbrev pub ClosedBelow : ℕ → Nfa → Type 0
ClosedBelow k m = (s c y : ℕ) → s < k → m.next s c y ≡ true → y < k

-- `p` behind the first `k` states
abbrev pub behind : ℕ → Nfa → ℕ → ℕ → ℕ → Bool
behind k p s c y = leb k y && p.next s c (y - k)

-- Behind the first `k` states `q` is `p`.
pub record IsBehind (k : ℕ) (p q : Nfa) : Type 0 where
  pub back_next : (s c y : ℕ) → q.next (k + s) c y ≡ behind k p s c y
  pub back_final : (s : ℕ) → q.final (k + s) ≡ p.final s

-- `q` is `m` on `k` states, `p` behind them, and a step from a final state of `m` also leads on as
-- one from the first state of `p`.
pub record IsCatenation (k : ℕ) (m p q : Nfa) : Type 0 where
  pub front_next :
      (s c y : ℕ) → s < k → q.next s c y ≡ (m.next s c y || (m.final s && behind k p 0 c y))
  pub front_final : (s : ℕ) → s < k → q.final s ≡ (m.final s && p.final 0)
  pub back : IsBehind k p q

pub behind-shift : (k s c y : ℕ) (p : Nfa) → p.next s c y ≡ true → behind k p s c (k + y) ≡ true
behind-shift k s c y p h = let e : k + y - k ≡ y = omega arith in rw (e, h) (ground arith)

pub behind-split :
    (k s c y : ℕ) (p : Nfa)
    → behind k p s c y ≡ true
    → (z : ℕ) × (y ≡ k + z) × (p.next s c z ≡ true)
behind-split k s c y p h = (y - k, ground arith, ground arith)

module _ (k : ℕ) (p q : Nfa) (at : IsBehind k p q) where
  pub back→ : (s : ℕ) (w : Word) → Accepts q (k + s) w → Accepts p s w
  back→ s [] h = sym (at.back_final s) ∙ h
  back→ s (c ∷ w) (y, t, h) =
      let z = behind-split k s c y p (sym (at.back_next s c y) ∙ t) in
      (z.0, z.2, back→ z.0 w (subst (λ v. Accepts q v w) z.1 h))

  pub back← : (s : ℕ) (w : Word) → Accepts p s w → Accepts q (k + s) w
  back← s [] h = at.back_final s ∙ h
  back← s (c ∷ w) (y, t, h) =
      (k + y, at.back_next s c (k + y) ∙ behind-shift k s c y p t, back← y w h)

module _ (k : ℕ) (m p q : Nfa) (cat : IsCatenation k m p q) where
  front→ :
      ClosedBelow k m
      → (s : ℕ) (w : Word) → s < k
      → Accepts q s w
      → Splits (Accepts m s) (Accepts p 0) w
  front→ closed s [] b h =
      let e = sym (cat.front_final s b) ∙ h in
      record {
        front = [];
        back = [];
        joined = refl;
        in_front = ground arith;
        in_back = ground arith;
      }
  front→ closed s (c ∷ w) b (y, t, h) = elim (Bool-cases (m.next s c y)) [
    | inl g ↦
        let r = front→ closed y w (closed s c y b g) h in
        record {
          front = c ∷ r.front;
          back = r.back;
          joined = ap (λ v. c ∷ v) r.joined;
          in_front = (y, g, r.in_front);
          in_back = r.in_back;
        }
    | inr g ↦
        let e = sym (cat.front_next s c y b) ∙ t in
        let u : (m.final s ≡ true) × (behind k p 0 c y ≡ true) = ground arith in
        let z = behind-split k 0 c y p u.1 in
        record {
          front = [];
          back = c ∷ w;
          joined = refl;
          in_front = u.0;
          in_back = (z.0, z.2, back→ k p q cat.back z.0 w (subst (λ v. Accepts q v w) z.1 h));
        }
  ]

  front← :
      ClosedBelow k m
      → (s : ℕ) (u v : Word) → s < k
      → Accepts m s u
      → Accepts p 0 v
      → Accepts q s (u ++ v)
  front← closed s [] [] b h g = cat.front_final s b ∙ ground arith
  front← closed s [] (c ∷ v) b h (y, t, g) =
      let e = behind-shift k 0 c y p t in
      (k + y, cat.front_next s c (k + y) b ∙ ground arith, back← k p q cat.back y v g)
  front← closed s (c ∷ u) v b (y, t, h) g =
      (y, cat.front_next s c y b ∙ ground arith, front← closed y u v (closed s c y b t) h g)

  -- The catenation accepts the words of the first automaton and then of the second.
  pub IsCatenation-Splits :
      ClosedBelow k m
      → (s : ℕ) (w : Word) → s < k
      → Accepts q s w ↔ Splits (Accepts m s) (Accepts p 0) w
  IsCatenation-Splits closed s w b = (
    front→ closed s w b,
    λ r.
        subst (λ v. Accepts q s v) (sym r.joined)
          (front← closed s r.front r.back b r.in_front r.in_back),
  )
