-- ===== src/Regexesque/Steps.antt =====
-- src/automaton.tcc: the steps and the accepting states after `append`, `setAccept` and
-- `addEpsilon`, for automata as nondeterministic automata.
use motion_planning_gadget_s.Common.{
  ℕ, zero, suc, ◌+◌, ◌-◌, ◌<◌, ◌≤◌, ◌≡◌, refl, ap, sym, ◌∙◌, inl, inr, true, false, ◌&&◌, List, [],
  ◌∷◌, map, arith, leb, ltb, Bool-cases, if◌then◌else◌, length, add32, word32, get_or,
  length-append, get_or-append_left, get_or-append_right,
}
use motion_planning_gadget_s.Automaton.{bit, Transition, Automaton, row, step_row, step}
use motion_planning_gadget_s.Automaton.Bits.{mem}
use motion_planning_gadget_s.Regexesque.{shift_row, append}
use motion_planning_gadget_s.Regexesque.Nfa.{Nfa, ClosedBelow, behind, behind-split}

-- The automaton's steps and accepting states.
abbrev pub nfa : Automaton → Nfa
nfa a = record { next = λ s c y. mem y (step a s c); final = λ s. bit a.accept s }

false-ne-true : false ≡ true → ⊥
false-ne-true h = cc

-- As many acceptance bits as states, and every step leads to a state.
pub record IsValid (a : Automaton) : Type 0 where
  pub sized : length a.accept ≡ length a.transitions
  pub closed : ClosedBelow (length a.transitions) (nfa a)

pub get_or-beyond : {A : Type 0} (l : List A) (i : ℕ) (d : A) → length l ≤ i → get_or l i d ≡ d
get_or-beyond [] i d h = refl
get_or-beyond (x ∷ l) zero d h = absurd (omega arith)
get_or-beyond (x ∷ l) (suc i) d h = get_or-beyond l i d (omega arith)

-- There are no steps from beyond the states.
pub step-lt :
    (a : Automaton) (s c y : ℕ) → IsValid a → mem y (step a s c) ≡ true → y < length a.transitions
unfolding step
step-lt a s c y v h = elim (Bool-cases (ltb s (length a.transitions))) [
  | inl e ↦ v.closed s c y (ground arith) h
  | inr e ↦
      let none : row a s ≡ [] = get_or-beyond a.transitions s [] (ground arith) in
      absurd (false-ne-true (ap (λ l. mem y (step_row l c)) (sym none) ∙ h))
]

shift_row-step :
    (base k : ℕ) (ts : List Transition) (c y : ℕ)
    → base + k < word32
    → ((z : ℕ) → mem z (step_row ts c) ≡ true → z < k)
    → mem y (step_row (shift_row base ts) c) ≡ (leb base y && mem (y - base) (step_row ts c))
shift_row-step base k [] c y h closed = ground arith
shift_row-step base k (t ∷ ts) c y h closed = elim (Bool-cases (bit t.symbols c)) [
  | inr e ↦ rw e (shift_row-step base k ts c y h (λ z m. closed z (rw e m)))
  | inl e ↦
      let b : t.next < k = closed t.next (rw e (ground arith)) in
      let n : add32 t.next base ≡ base + t.next = omega arith in
      let ih = shift_row-step base k ts c y h (λ z m. closed z (rw e (ground arith))) in
      rw (e, n, ih) (ground arith)
]

length-map : {A B : Type 0} (f : A → B) (l : List A) → length (map f l) ≡ length l
length-map f [] = refl
length-map f (x ∷ l) = ap suc (length-map f l)

get_or-map :
    {A B : Type 0} (f : A → B) (l : List A) (i : ℕ) (d : A)
    → get_or (map f l) i (f d) ≡ f (get_or l i d)
get_or-map f [] i d = refl
get_or-map f (x ∷ l) zero d = refl
get_or-map f (x ∷ l) (suc i) d = get_or-map f l i d

-- The steps and accepting states of `append`.
pub append-next :
    (a b : Automaton) (s c y : ℕ)
    → IsValid a
    → IsValid b
    → length a.transitions + length b.transitions < word32
    → mem y (step (append a b).1 s c) ≡ (
        if ltb s (length a.transitions)
        then mem y (step a s c)
        else behind (length a.transitions) (nfa b) (s - length a.transitions) c y)
unfolding append step
append-next a b s c y va vb h = elim (Bool-cases (ltb s (length a.transitions))) [
  | inl e ↦
      rw
        (
          e,
          get_or-append_left a.transitions (map (shift_row (length a.transitions)) b.transitions) s
              [] (ground arith),
        )
        refl
  | inr e ↦
      let k = length a.transitions in
      let right =
        get_or-append_right a.transitions (map (shift_row k) b.transitions) s (s - k) []
          (ground arith) in
      let row_b = get_or-map (shift_row k) b.transitions (s - k) [] in
      rw (e, right, row_b)
        (shift_row-step k (length b.transitions) (row b (s - k)) c y h
          (λ z m. step-lt b (s - k) c z vb m))
]

pub append-final :
    (a b : Automaton) (s : ℕ)
    → IsValid a
    → bit (append a b).1.accept s ≡ (
        if ltb s (length a.transitions)
        then bit a.accept s
        else bit b.accept (s - length a.transitions))
unfolding append
append-final a b s v = elim (Bool-cases (ltb s (length a.transitions))) [
  | inl e ↦ rw (e, get_or-append_left a.accept b.accept s false (ground (arith, v.sized))) refl
  | inr e ↦
      rw
        (
          e,
          get_or-append_right a.accept b.accept s (s - length a.transitions) false
              (ground (arith, v.sized)),
        )
        refl
]

pub length-append_transitions :
    (a b : Automaton)
    → length (append a b).1.transitions ≡ length a.transitions + length b.transitions
unfolding append
length-append_transitions a b =
    let m = length-map (shift_row (length a.transitions)) b.transitions in
    length-append a.transitions (map (shift_row (length a.transitions)) b.transitions)
    ∙ omega (arith, m)

pub length-append_accept :
    (a b : Automaton) → length (append a b).1.accept ≡ length a.accept + length b.accept
unfolding append
length-append_accept a b = length-append a.accept b.accept

pub append-IsValid :
    (a b : Automaton)
    → IsValid a
    → IsValid b
    → length a.transitions + length b.transitions < word32
    → IsValid (append a b).1
append-IsValid a b va vb h = record {
  sized =
      omega (arith, length-append_accept a b, length-append_transitions a b, va.sized, vb.sized);
  closed = λ s c y l t.
      let n = length-append_transitions a b in
      let e = sym (append-next a b s c y va vb h) ∙ t in
      let inside : y < length a.transitions + length b.transitions =
        elim (Bool-cases (ltb s (length a.transitions))) [
          | inl g ↦ omega (arith, step-lt a s c y va (rw g at e))
          | inr g ↦
              let z =
                behind-split (length a.transitions) (s - length a.transitions) c y (nfa b)
                  (rw g at e) in
              omega (arith, z.1, step-lt b (s - length a.transitions) c z.0 vb z.2)
        ] in
      omega (arith, inside, n);
}
