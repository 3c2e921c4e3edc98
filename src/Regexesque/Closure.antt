-- ===== src/Regexesque/Closure.antt =====
-- src/automaton-regexesque.hpp: the language of `star`.
use motion_planning_gadget_s.Common.{
  ℕ, zero, suc, ◌+◌, ◌-◌, ◌<◌, ◌≤◌, ◌≡◌, refl, sym, ◌∙◌, ◌↔◌, inl, inr, Bool, true, false, ◌&&◌,
  ◌||◌, [], ◌∷◌, arith, ltb, Bool-cases, if◌then◌else◌, ◌==◌, ==_iff, length, word32,
}
use motion_planning_gadget_s.Expr.Language.{Word}
use motion_planning_gadget_s.Automaton.{bit, Automaton, add_state, step, set_accept, add_epsilon}
use motion_planning_gadget_s.Automaton.Bits.{mem}
use motion_planning_gadget_s.Automaton.Build.{
  step-add_epsilon, length-add_epsilon, length-add_epsilon_accept,
}
use motion_planning_gadget_s.Regexesque.{append, for_accepting, loop_back, star}
use motion_planning_gadget_s.Regexesque.Nfa.{Accepts, behind, behind-split}
use motion_planning_gadget_s.Regexesque.Steps.{
  nfa, IsValid, step-lt, append-next, append-final, append-IsValid, length-append_transitions,
  get_or-beyond,
}
use motion_planning_gadget_s.Regexesque.Catenation.{SameSize, between}
use motion_planning_gadget_s.Regexesque.Star.{IsStar, Any, IsStar-Accepts}
use motion_planning_gadget_s.Regexesque.Cat.{size}

-- The loop of `star` from `p` on: what it makes of `a`.
record Loops (p left : ℕ) (a r : Automaton) : Type 0 where
  kept : SameSize a r
  next :
      (s c y : ℕ)
      → mem y (step r s c)
        ≡ (mem y (step a s c) || (between p left s && (bit a.accept s && mem y (step a 0 c))))
  final : (s : ℕ) → bit r.accept s ≡ bit a.accept s

abbrev round : ℕ → Automaton → ℕ → Automaton
round n a p = if bit a.accept p then loop_back n a p else a

round-SameSize : (n : ℕ) (a : Automaton) (p : ℕ) → SameSize a (round n a p)
round-SameSize n a p = elim (Bool-cases (bit a.accept p)) [
  | inl e ↦
      rw e
        (record { states = length-add_epsilon n a p 0; bits = length-add_epsilon_accept n a p 0 })
  | inr e ↦ rw e (record { states = refl; bits = refl })
]

round-next :
    (n : ℕ) (a : Automaton) (p s c y : ℕ)
    → p < length a.transitions
    → p < length a.accept
    → mem y (step (round n a p) s c)
      ≡ (mem y (step a s c) || ((s == p) && (bit a.accept s && mem y (step a 0 c))))
round-next n a p s c y h k = elim (Bool-cases (bit a.accept p)) [
  | inl e ↦
      let at = (step-add_epsilon n a p 0 h k).0 s c y in
      elim (Bool-cases (s == p)) [
        | inr g ↦ rw e (at ∙ rw g refl)
        | inl g ↦ let same : s ≡ p = (==_iff s p).0 g in rw e (at ∙ rw (g, same, e) refl)
      ]
  | inr e ↦ elim (Bool-cases (s == p)) [
    | inr g ↦ rw (e, g) (ground arith)
    | inl g ↦ let same : s ≡ p = (==_iff s p).0 g in rw (e, g, same, e) (ground arith)
  ]
]

round-final :
    (n : ℕ) (a : Automaton) (p s : ℕ)
    → p < length a.transitions
    → p < length a.accept
    → bit (round n a p).accept s ≡ bit a.accept s
round-final n a p s h k = elim (Bool-cases (bit a.accept p)) [
  | inl e ↦
      let at = (step-add_epsilon n a p 0 h k).1 s in
      elim (Bool-cases (s == p)) [
        | inr g ↦ rw e (at ∙ rw g (ground arith))
        | inl g ↦ let same : s ≡ p = (==_iff s p).0 g in rw e (at ∙ rw (g, same, e) refl)
      ]
  | inr e ↦ rw e refl
]

join_next :
    (p left s : ℕ) (old here at_first at_first' : Bool)
    → at_first' ≡ at_first
    → ((old || ((s == p) && (here && at_first))) || (between (suc p) left s && (here && at_first')))
      ≡ (old || (between p (suc left) s && (here && at_first)))
join_next p left s old here at_first at_first' e = rw e (ground arith)

for_accepting-Loops :
    (n p left : ℕ) (a : Automaton)
    → 0 < p
    → p + left ≤ length a.transitions
    → length a.accept ≡ length a.transitions
    → Loops p left a (for_accepting (loop_back n) a p left)
for_accepting-Loops n p zero a o h v = record {
  kept = record { states = refl; bits = refl };
  next = λ s c y. ground arith;
  final = λ s. refl;
}
for_accepting-Loops n p (suc left) a o h v =
    let a' = round n a p in
    let z = round-SameSize n a p in
    let w =
      for_accepting-Loops n (suc p) left a' (omega arith) (omega (arith, z.states))
        (omega (arith, z.states, z.bits)) in
    let l : p < length a.transitions = omega arith in
    let k : p < length a.accept = omega arith in
    let off : (0 == p) ≡ false = ground arith in
    record {
      kept = record { states = w.kept.states ∙ z.states; bits = w.kept.bits ∙ z.bits };
      next = λ s c y.
          w.next s c y
          ∙ rw (round-next n a p s c y l k, round-final n a p s l k)
              (join_next p left s (mem y (step a s c)) (bit a.accept s) (mem y (step a 0 c))
                (mem y (step a' 0 c)) (round-next n a p 0 c y l k ∙ rw off (ground arith)));
      final = λ s. w.final s ∙ round-final n a p s l k;
    }

-- The accepting state that `star` starts from.
abbrev start : Automaton
start = record {
  transitions = [] ∷ [];
  accept = true ∷ [];
  deterministic = true;
  minimal = false;
  canonical = false;
}

start-step : (s c y : ℕ) → mem y (step start s c) ≡ false
unfolding step
start-step zero c y = refl
start-step (suc s) c y = refl

false-ne-true : false ≡ true → ⊥
false-ne-true h = cc

start-IsValid : IsValid start
start-IsValid = record {
  sized = refl;
  closed = λ s c y l t. absurd (false-ne-true (sym (start-step s c y) ∙ t));
}

module _ (n : ℕ) (b : Automaton) (vb : IsValid b) (states : 0 < size b)
    (small : 1 + size b < word32) where
  abbrev app : Automaton
  app = (append start b).1

  abbrev entered : Automaton
  entered = (add_epsilon n app 0 1).1

  looped : Loops 1 (size b) entered (star n b)
  unfolding star add_state set_accept append
  looped =
      let v = append-IsValid start b start-IsValid vb small in
      for_accepting-Loops n 1 (size b) entered (omega arith)
        (omega (arith, length-add_epsilon n app 0 1, length-append_transitions start b))
        (omega (arith, length-add_epsilon n app 0 1, length-add_epsilon_accept n app 0 1, v.sized))

  entered-next :
      (s c y : ℕ)
      → mem y (step entered s c)
        ≡ (if s == 0 then behind 1 (nfa b) 0 c y else behind 1 (nfa b) (s - 1) c y)
  entered-next s c y =
      let v = append-IsValid start b start-IsValid vb small in
      let z = length-append_transitions start b in
      let at =
        (step-add_epsilon n app 0 1 (omega (arith, z)) (omega (arith, z, v.sized))).0 s c y in
      let one = append-next start b 1 c y start-IsValid vb small in
      elim (Bool-cases (s == 0)) [
        | inl e ↦
            let same : s ≡ 0 = (==_iff s 0).0 e in
            at
            ∙ rw (e, same, append-next start b 0 c y start-IsValid vb small, start-step 0 c y, one)
                refl
        | inr e ↦
            let after : ltb s 1 ≡ false = ground arith in
            at ∙ rw (e, append-next start b s c y start-IsValid vb small, after) (ground arith)
      ]

  behind_lt : (s c y : ℕ) → behind 1 (nfa b) s c y ≡ true → y < 1 + size b
  behind_lt s c y h =
      let z = behind-split 1 s c y (nfa b) h in omega (arith, z.1, step-lt b s c z.0 vb z.2)

  entered-final : (s : ℕ) → bit entered.accept s ≡ (if s == 0 then true else bit b.accept (s - 1))
  entered-final s =
      let v = append-IsValid start b start-IsValid vb small in
      let z = length-append_transitions start b in
      let at = (step-add_epsilon n app 0 1 (omega (arith, z)) (omega (arith, z, v.sized))).1 s in
      elim (Bool-cases (s == 0)) [
        | inl e ↦
            let same : s ≡ 0 = (==_iff s 0).0 e in
            at ∙ rw (e, same, append-final start b 0 start-IsValid) refl
        | inr e ↦
            let after : ltb s 1 ≡ false = ground arith in
            at ∙ rw (e, append-final start b s start-IsValid, after) (ground arith)
      ]

  entered-lt : (s c y : ℕ) → mem y (step entered s c) ≡ true → y < 1 + size b
  entered-lt s c y t = elim (Bool-cases (s == 0)) [
    | inl e ↦ behind_lt 0 c y (sym (entered-next s c y ∙ rw e refl) ∙ t)
    | inr e ↦ behind_lt (s - 1) c y (sym (entered-next s c y ∙ rw e refl) ∙ t)
  ]

  star-IsStar : IsStar (nfa b) (nfa (star n b))
  star-IsStar = record {
    first_next = λ c y. looped.next 0 c y ∙ rw (entered-next 0 c y) (ground arith);
    first_final = looped.final 0 ∙ entered-final 0;
    back_next = λ s c y.
        let later : (suc s == 0) ≡ false = ground arith in
        let before : suc s - 1 ≡ s = omega arith in
        looped.next (suc s) c y
        ∙ rw (entered-next (suc s) c y, entered-final (suc s), entered-next 0 c y, later, before)
            (elim (Bool-cases (ltb s (size b))) [
              | inl e ↦
                  let inside : between 1 (size b) (suc s) ≡ true = ground arith in rw inside refl
              | inr e ↦
                  let off : bit b.accept s ≡ false =
                    get_or-beyond b.accept s false (ground (arith, vb.sized)) in
                  rw off (ground arith)
            ]);
    back_final = λ s.
        let later : (suc s == 0) ≡ false = ground arith in
        let before : suc s - 1 ≡ s = omega arith in
        looped.final (suc s) ∙ entered-final (suc s) ∙ rw (later, before) refl;
  }

  -- For an automaton of at least one state, and less than 2 ^ 32 with the new initial state, star
  -- accepts the words made of any number of words of the automaton.
  pub star-Accepts : (w : Word) → Accepts (nfa (star n b)) 0 w ↔ Any (Accepts (nfa b) 0) w
  star-Accepts w = IsStar-Accepts (nfa b) (nfa (star n b)) star-IsStar w

  pub size-star : size (star n b) ≡ 1 + size b
  size-star =
      omega
        (arith, looped.kept.states, length-add_epsilon n app 0 1, length-append_transitions start b)

  -- Every step of `star` leads to a state, and it has as many acceptance bits as states.
  pub star-IsValid : IsValid (star n b)
  star-IsValid =
      let v = append-IsValid start b start-IsValid vb small in
      record {
        sized = omega (
          arith,
          looped.kept.states,
          looped.kept.bits,
          length-add_epsilon n app 0 1,
          length-add_epsilon_accept n app 0 1,
          v.sized,
        );
        closed = λ s c y l t.
            let e = sym (looped.next s c y) ∙ t in
            elim (Bool-cases (mem y (step entered s c))) [
              | inl g ↦ omega (arith, entered-lt s c y g, size-star)
              | inr g ↦ omega (arith, entered-lt 0 c y (ground arith), size-star)
            ];
      }
