-- ===== src/Regexesque/Star.antt =====
-- src/automaton-regexesque.hpp: `star` accepts any number of words of its automaton.
use motion_planning_gadget_s.Common.{
  ℕ, zero, suc, ◌+◌, ◌≡◌, refl, ap, sym, subst, ◌∙◌, ◌↔◌, inl, inr, true, ◌&&◌, ◌||◌, [], ◌∷◌, ◌++◌,
  arith, Bool-cases,
}
use motion_planning_gadget_s.Expr.Language.{Word, Language, Splits, Power}
use motion_planning_gadget_s.Regexesque.Nfa.{Nfa, Accepts, behind, behind-shift, behind-split}

-- `q` is a first state that accepts and goes on as that of `p`, and `p` behind it, whose final
-- states go on in that way too.
pub record IsStar (p q : Nfa) : Type 0 where
  pub first_next : (c y : ℕ) → q.next 0 c y ≡ behind 1 p 0 c y
  pub first_final : q.final 0 ≡ true
  pub back_next :
      (s c y : ℕ) → q.next (suc s) c y ≡ (behind 1 p s c y || (p.final s && behind 1 p 0 c y))
  pub back_final : (s : ℕ) → q.final (suc s) ≡ p.final s

-- Some number of words of `L`.
abbrev pub Any : Language → Language
Any L w = (copies : ℕ) × Power L copies w

after-suc :
    (s c y : ℕ) (p : Nfa) → behind 1 p s c y ≡ true → (z : ℕ) × (y ≡ suc z) × (p.next s c z ≡ true)
after-suc s c y p h = let z = behind-split 1 s c y p h in (z.0, omega (arith, z.1), z.2)

suc-after : (s c y : ℕ) (p : Nfa) → p.next s c y ≡ true → behind 1 p s c (suc y) ≡ true
suc-after s c y p h =
    let e : 1 + y ≡ suc y = omega arith in
    subst (λ v. behind 1 p s c v ≡ true) e (behind-shift 1 s c y p h)

-- One more word in front.
one_more :
    (p : Nfa) (c z : ℕ) (w : Word)
    → p.next 0 c z ≡ true
    → Splits (Accepts p z) (Any (Accepts p 0)) w
    → Any (Accepts p 0) (c ∷ w)
one_more p c z w t r = (
  suc r.in_back.0,
  record {
    front = c ∷ r.front;
    back = r.back;
    joined = ap (λ v. c ∷ v) r.joined;
    in_front = (z, t, r.in_front);
    in_back = r.in_back.1;
  },
)

module _ (p q : Nfa) (star : IsStar p q) where
  back→ : (s : ℕ) (w : Word) → Accepts q (suc s) w → Splits (Accepts p s) (Any (Accepts p 0)) w
  back→ s [] h = record {
    front = [];
    back = [];
    joined = refl;
    in_front = sym (star.back_final s) ∙ h;
    in_back = (0, refl);
  }
  back→ s (c ∷ w) (y, t, h) = elim (Bool-cases (behind 1 p s c y)) [
    | inl g ↦
        let z = after-suc s c y p g in
        let r = back→ z.0 w (subst (λ v. Accepts q v w) z.1 h) in
        record {
          front = c ∷ r.front;
          back = r.back;
          joined = ap (λ v. c ∷ v) r.joined;
          in_front = (z.0, z.2, r.in_front);
          in_back = r.in_back;
        }
    | inr g ↦
        let e = sym (star.back_next s c y) ∙ t in
        let u : (p.final s ≡ true) × (behind 1 p 0 c y ≡ true) = ground arith in
        let z = after-suc 0 c y p u.1 in
        record {
          front = [];
          back = c ∷ w;
          joined = refl;
          in_front = u.0;
          in_back = one_more p c z.0 w z.2 (back→ z.0 w (subst (λ v. Accepts q v w) z.1 h));
        }
  ]

  first→ : (w : Word) → Accepts q 0 w → Any (Accepts p 0) w
  first→ [] h = (0, refl)
  first→ (c ∷ w) (y, t, h) =
      let z = after-suc 0 c y p (sym (star.first_next c y) ∙ t) in
      one_more p c z.0 w z.2 (back→ z.0 w (subst (λ v. Accepts q v w) z.1 h))

  back← : (s : ℕ) (u v : Word) → Accepts p s u → Accepts q 0 v → Accepts q (suc s) (u ++ v)
  back← s [] [] h g = star.back_final s ∙ h
  back← s [] (c ∷ v) h (y, t, g) =
      let e = sym (star.first_next c y) ∙ t in (y, star.back_next s c y ∙ ground arith, g)
  back← s (c ∷ u) v (y, t, h) g =
      let e = suc-after s c y p t in
      (suc y, star.back_next s c (suc y) ∙ ground arith, back← y u v h g)

  first← : (u v : Word) → Accepts p 0 u → Accepts q 0 v → Accepts q 0 (u ++ v)
  first← [] v h g = g
  first← (c ∷ u) v (y, t, h) g =
      (suc y, star.first_next c (suc y) ∙ suc-after 0 c y p t, back← y u v h g)

  copies← : (n : ℕ) (w : Word) → Power (Accepts p 0) n w → Accepts q 0 w
  copies← zero w e = subst (λ v. Accepts q 0 v) (sym e) star.first_final
  copies← (suc n) w r =
      subst (λ v. Accepts q 0 v) (sym r.joined)
        (first← r.front r.back r.in_front (copies← n r.back r.in_back))

  -- The star accepts some number of words of the automaton.
  pub IsStar-Accepts : (w : Word) → Accepts q 0 w ↔ Any (Accepts p 0) w
  IsStar-Accepts w = (first→ w, λ r. copies← r.0 w r.1)
