-- ===== src/Regexesque/Catenation.antt =====
-- src/automaton-regexesque.hpp: `cat_once` and `cat` accept a word of each automaton in turn.
use motion_planning_gadget_s.Common.{
  ℕ, zero, suc, ◌+◌, ◌<◌, ◌≤◌, ◌≡◌, refl, ap, ◌∙◌, inl, inr, Bool, true, false, ◌&&◌, ◌||◌, arith,
  leb, ltb, Bool-cases, if◌then◌else◌, ◌==◌, ==_iff, length, get_or-set_self, get_or-set_ne,
  length-set,
}
use motion_planning_gadget_s.Automaton.{bit, Automaton, step, set_accept}
use motion_planning_gadget_s.Automaton.Bits.{mem}
use motion_planning_gadget_s.Automaton.Build.{
  step-add_epsilon, length-add_epsilon, length-add_epsilon_accept,
}
use motion_planning_gadget_s.Regexesque.{for_accepting, wire}

-- Two automata of as many states, and as many acceptance bits.
pub record SameSize (a b : Automaton) : Type 0 where
  pub states : length b.transitions ≡ length a.transitions
  pub bits : length b.accept ≡ length a.accept

wire-SameSize : (n base : ℕ) (a : Automaton) (p : ℕ) → SameSize a (wire n base a p)
unfolding wire set_accept
wire-SameSize n base a p =
    let a1 = (set_accept a p false).1 in
    record {
      states = length-add_epsilon n a1 p base;
      bits = length-add_epsilon_accept n a1 p base ∙ length-set a.accept p false;
    }

wire-next :
    (n base : ℕ) (a : Automaton) (p s c y : ℕ)
    → p < length a.transitions
    → p < length a.accept
    → mem y (step (wire n base a p) s c)
      ≡ (mem y (step a s c) || ((s == p) && mem y (step a base c)))
unfolding wire set_accept step
wire-next n base a p s c y h k =
    let a1 = (set_accept a p false).1 in
    let l : p < length a1.accept = omega (arith, length-set a.accept p false) in
    (step-add_epsilon n a1 p base h l).0 s c y

wire-final :
    (n base : ℕ) (a : Automaton) (p s : ℕ)
    → p < length a.transitions
    → p < length a.accept
    → p < base
    → bit (wire n base a p).accept s ≡ (if s == p then bit a.accept base else bit a.accept s)
unfolding wire set_accept
wire-final n base a p s h k b =
    let a1 = (set_accept a p false).1 in
    let l : p < length a1.accept = omega (arith, length-set a.accept p false) in
    let e = (step-add_epsilon n a1 p base h l).1 s in
    let at_base : bit a1.accept base ≡ bit a.accept base =
      get_or-set_ne a.accept {i = p} {j = base} false false (omega arith) in
    elim (Bool-cases (s == p)) [
      | inl g ↦
          let same : s ≡ p = (==_iff s p).0 g in
          let cleared : bit a1.accept s ≡ false =
            rw same (get_or-set_self a.accept p false false k) in
          rw g (e ∙ rw (cleared, g, at_base) refl)
      | inr g ↦
          let other : bit a1.accept s ≡ bit a.accept s =
            get_or-set_ne a.accept {i = p} {j = s} false false (ground arith) in
          rw g (e ∙ rw (other, g) (ground arith))
    ]

abbrev pub between : ℕ → ℕ → ℕ → Bool
between p left s = leb p s && ltb s (p + left)

-- The loop of `cat_once` from `p` on: what it makes of `a`.
pub record Wires (base p left : ℕ) (a r : Automaton) : Type 0 where
  pub size : SameSize a r
  pub next :
      (s c y : ℕ)
      → mem y (step r s c)
        ≡ (mem y (step a s c) || (between p left s && (bit a.accept s && mem y (step a base c))))
  pub final :
      (s : ℕ)
      → bit r.accept s
        ≡ (if between p left s then bit a.accept s && bit a.accept base else bit a.accept s)

-- One round of the loop.
abbrev round : ℕ → ℕ → Automaton → ℕ → Automaton
round n base a p = if bit a.accept p then wire n base a p else a

round-SameSize : (n base : ℕ) (a : Automaton) (p : ℕ) → SameSize a (round n base a p)
round-SameSize n base a p = elim (Bool-cases (bit a.accept p)) [
  | inl e ↦ rw e (wire-SameSize n base a p)
  | inr e ↦ rw e (record { states = refl; bits = refl })
]

at_accepting :
    (s p : ℕ) (x y : Bool) (f : ℕ → Bool)
    → f p ≡ true
    → (x || ((s == p) && y)) ≡ (x || ((s == p) && (f s && y)))
at_accepting s p x y f h = elim (Bool-cases (s == p)) [
  | inr e ↦ rw e refl
  | inl e ↦ let same : s ≡ p = (==_iff s p).0 e in rw (e, same, h) refl
]

round-next :
    (n base : ℕ) (a : Automaton) (p s c y : ℕ)
    → p < length a.transitions
    → p < length a.accept
    → mem y (step (round n base a p) s c)
      ≡ (mem y (step a s c) || ((s == p) && (bit a.accept s && mem y (step a base c))))
round-next n base a p s c y h k = elim (Bool-cases (bit a.accept p)) [
  | inl e ↦ rw e (
      wire-next n base a p s c y h k
      ∙ at_accepting s p (mem y (step a s c)) (mem y (step a base c)) (λ v. bit a.accept v) e)
  | inr e ↦ elim (Bool-cases (s == p)) [
    | inr g ↦ rw (e, g) (ground arith)
    | inl g ↦ let same : s ≡ p = (==_iff s p).0 g in rw (e, g, same, e) (ground arith)
  ]
]

round-final :
    (n base : ℕ) (a : Automaton) (p s : ℕ)
    → p < length a.transitions
    → p < length a.accept
    → p < base
    → bit (round n base a p).accept s
      ≡ (if s == p then bit a.accept s && bit a.accept base else bit a.accept s)
round-final n base a p s h k b = elim (Bool-cases (bit a.accept p)) [
  | inl e ↦ elim (Bool-cases (s == p)) [
    | inr g ↦ rw e (wire-final n base a p s h k b ∙ rw g refl)
    | inl g ↦
        let same : s ≡ p = (==_iff s p).0 g in
        rw (e, g) (wire-final n base a p s h k b ∙ rw (g, same, e) refl)
  ]
  | inr e ↦ elim (Bool-cases (s == p)) [
    | inr g ↦ rw (e, g) refl
    | inl g ↦ let same : s ≡ p = (==_iff s p).0 g in rw (e, g, same, e) refl
  ]
]

join_next :
    (p left s : ℕ) (old here here' at_base at_base' a : Bool)
    → at_base' ≡ at_base
    → here' ≡ (if s == p then here && a else here)
    → ((old || ((s == p) && (here && at_base))) || (between (suc p) left s && (here' && at_base')))
      ≡ (old || (between p (suc left) s && (here && at_base)))
join_next p left s old here here' at_base at_base' a e f = rw (e, f) (ground arith)

join_final :
    (p left s : ℕ) (here here' at_base at_base' : Bool)
    → at_base' ≡ at_base
    → here' ≡ (if s == p then here && at_base else here)
    → (if between (suc p) left s then here' && at_base' else here')
      ≡ (if between p (suc left) s then here && at_base else here)
join_final p left s here here' at_base at_base' e f = rw (e, f) (ground arith)

pub for_accepting-Wires :
    (n base p left : ℕ) (a : Automaton)
    → p + left ≤ base
    → base < length a.transitions
    → length a.accept ≡ length a.transitions
    → Wires base p left a (for_accepting (wire n base) a p left)
for_accepting-Wires n base p zero a h b v = record {
  size = record { states = refl; bits = refl };
  next = λ s c y. ground arith;
  final = λ s. ground arith;
}
for_accepting-Wires n base p (suc left) a h b v =
    let a' = round n base a p in
    let z = round-SameSize n base a p in
    let w =
      for_accepting-Wires n base (suc p) left a' (omega arith) (omega (arith, z.states))
        (omega (arith, z.states, z.bits)) in
    let l : p < length a.transitions = omega arith in
    let k : p < length a.accept = omega arith in
    let off : (base == p) ≡ false = ground arith in
    record {
      size = record { states = w.size.states ∙ z.states; bits = w.size.bits ∙ z.bits };
      next = λ s c y.
          w.next s c y
          ∙ ap (λ t. t || (between (suc p) left s && (bit a'.accept s && mem y (step a' base c))))
              (round-next n base a p s c y l k)
          ∙ join_next p left s (mem y (step a s c)) (bit a.accept s) (bit a'.accept s)
              (mem y (step a base c)) (mem y (step a' base c)) (bit a.accept base)
              (round-next n base a p base c y l k ∙ rw off (ground arith))
              (round-final n base a p s l k (omega arith));
      final = λ s.
          w.final s
          ∙ join_final p left s (bit a.accept s) (bit a'.accept s) (bit a.accept base)
              (bit a'.accept base) (round-final n base a p base l k (omega arith) ∙ rw off refl)
              (round-final n base a p s l k (omega arith));
    }
