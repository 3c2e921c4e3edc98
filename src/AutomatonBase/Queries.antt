-- ===== src/AutomatonBase/Queries.antt =====
-- src/automatonbase.cpp: what the queries of `AutomatonBase` return, on the branches for deterministic
-- automata and on the others.
use motion_planning_gadget_s.Common.{
  ℕ, ◌≤◌, ◌≡◌, refl, ap, ◌∙◌, inl, inr, Bool, true, false, not, ◌||◌, ◌&&◌, List, [], ◌∷◌, ◌==◌,
  ==_iff, ltb, length, arith, Bool-cases,
}
use motion_planning_gadget_s.LinearSet.{insert, is_in, Distinct}
use motion_planning_gadget_s.AutomatonBase.{
  AutomatonBase, IsAutomaton, xrange, is_empty, first_of, step_deterministic, has_value, has,
  insert_absent_if, insert_per, outgoing_loop, outgoing, insert_next, insert_each, next_loop,
  nexts_loop, destinations, leads_to, labels, some_step, active_alphabet,
}
use motion_planning_gadget_s.AutomatonBase.Collect.{
  IsSetOf, is_in-xrange, xrange-Distinct, insert-IsSetOf, insert_absent_if-IsSetOf,
}

-- `p` holds of one of the elements.
abbrev pub exists_in : (ℕ → Bool) → List ℕ → Bool
exists_in p [] = false
exists_in p (x ∷ l) = p x || exists_in p l

-- A set of what another test says, where the tests agree.
same-IsSetOf : {p q : ℕ → Bool} (l : List ℕ) → IsSetOf p l → ((x : ℕ) → p x ≡ q x) → IsSetOf q l
same-IsSetOf l s h = (s.0, (λ x. s.1 x ∙ h x))

symbols-IsSetOf :
    (test : ℕ → Bool) (n : ℕ)
    → IsSetOf (λ x. ltb x n && test x) (insert_absent_if test [] (xrange n))
symbols-IsSetOf test n =
    same-IsSetOf (insert_absent_if test [] (xrange n))
      (insert_absent_if-IsSetOf test (xrange n) [] tt (xrange-Distinct n) (λ x h. refl))
      (λ x. rw (is_in-xrange n x) refl)

has_lem : (to : ℕ) (nexts : List ℕ) → length nexts ≤ 1 → has (first_of nexts) to ≡ is_in to nexts
has_lem to [] h = refl
has_lem to (y ∷ []) h = ground arith
has_lem to (y ∷ z ∷ nexts) h = absurd (omega arith)

leads_to_lem : (to : ℕ) (nexts : List ℕ) → leads_to to nexts ≡ is_in to nexts
leads_to_lem to [] = refl
leads_to_lem to (y ∷ nexts) = rw (leads_to_lem to nexts) (ground arith)

-- labels returns the set of the symbols of the alphabet on which step goes from one state to the
-- other, whether or not the automaton says that it is deterministic.
pub labels_lem :
    (b : AutomatonBase) (from to : ℕ)
    → IsAutomaton b
    → IsSetOf (λ a. ltb a b.alphabet_size && is_in to (b.step from a)) (labels b from to)
unfolding labels
labels_lem b from to i = elim (Bool-cases b.deterministic) [
  | inl e ↦
      let test : ℕ → Bool = λ a. has (step_deterministic b from a) to in
      rw e (
        same-IsSetOf (insert_absent_if test [] (xrange b.alphabet_size))
          (symbols-IsSetOf test b.alphabet_size)
          (λ a.
            ap (λ y. ltb a b.alphabet_size && y) (has_lem to (b.step from a) (i.single e from a))))
  | inr e ↦
      let test : ℕ → Bool = λ a. leads_to to (b.step from a) in
      rw e (
        same-IsSetOf (insert_absent_if test [] (xrange b.alphabet_size))
          (symbols-IsSetOf test b.alphabet_size)
          (λ a. ap (λ y. ltb a b.alphabet_size && y) (leads_to_lem to (b.step from a))))
]

some_step_lem :
    (b : AutomatonBase) (a : ℕ) (states : List ℕ)
    → some_step b a states ≡ exists_in (λ s. not (is_empty (b.step s a))) states
some_step_lem b a [] = refl
some_step_lem b a (s ∷ states) = rw (some_step_lem b a states) (ground arith)

-- activeAlphabet returns the set of the symbols of the alphabet on which a state of the automaton
-- has a step.
pub active_alphabet_lem :
    (b : AutomatonBase)
    → IsSetOf
        (λ a.
          ltb a b.alphabet_size
          && exists_in (λ s. not (is_empty (b.step s a))) (xrange b.state_size))
        (active_alphabet b)
unfolding active_alphabet
active_alphabet_lem b =
    let test : ℕ → Bool = λ a. some_step b a (xrange b.state_size) in
    same-IsSetOf (insert_absent_if test [] (xrange b.alphabet_size))
      (symbols-IsSetOf test b.alphabet_size)
      (λ a. ap (λ y. ltb a b.alphabet_size && y) (some_step_lem b a (xrange b.state_size)))

insert_next-IsSetOf :
    (ret nexts : List ℕ)
    → Distinct ret
    → length nexts ≤ 1
    → IsSetOf (λ y. is_in y ret || is_in y nexts) (insert_next ret (first_of nexts))
insert_next-IsSetOf ret [] d h = (d, (λ y. ground arith))
insert_next-IsSetOf ret (z ∷ []) d h =
    same-IsSetOf ((insert ret z).1) (insert-IsSetOf ret z d) (λ y. ground arith)
insert_next-IsSetOf ret (z ∷ y ∷ nexts) d h = absurd (omega arith)

insert_each-IsSetOf :
    (nexts ret : List ℕ)
    → Distinct ret
    → IsSetOf (λ y. is_in y ret || is_in y nexts) (insert_each ret nexts)
insert_each-IsSetOf [] ret d = (d, (λ y. ground arith))
insert_each-IsSetOf (z ∷ nexts) ret d =
    let i = insert-IsSetOf ret z d in
    same-IsSetOf (insert_each ((insert ret z).1) nexts)
      (insert_each-IsSetOf nexts ((insert ret z).1) i.0) (λ y. rw (i.1 y) (ground arith))

next_loop-IsSetOf :
    (b : AutomatonBase) (state : ℕ) (symbols ret : List ℕ)
    → IsAutomaton b
    → b.deterministic ≡ true
    → Distinct ret
    → IsSetOf
        (λ y. is_in y ret || exists_in (λ a. is_in y (b.step state a)) symbols)
        (next_loop b state ret symbols)
next_loop-IsSetOf b state [] ret i e d = (d, (λ y. ground arith))
next_loop-IsSetOf b state (a ∷ symbols) ret i e d =
    let one = insert_next-IsSetOf ret (b.step state a) d (i.single e state a) in
    let next = insert_next ret (step_deterministic b state a) in
    same-IsSetOf (next_loop b state next symbols) (next_loop-IsSetOf b state symbols next i e one.0)
      (λ y. rw (one.1 y) (ground arith))

nexts_loop-IsSetOf :
    (b : AutomatonBase) (state : ℕ) (symbols ret : List ℕ)
    → Distinct ret
    → IsSetOf
        (λ y. is_in y ret || exists_in (λ a. is_in y (b.step state a)) symbols)
        (nexts_loop b state ret symbols)
nexts_loop-IsSetOf b state [] ret d = (d, (λ y. ground arith))
nexts_loop-IsSetOf b state (a ∷ symbols) ret d =
    let one = insert_each-IsSetOf (b.step state a) ret d in
    let next = insert_each ret (b.step state a) in
    same-IsSetOf (nexts_loop b state next symbols) (nexts_loop-IsSetOf b state symbols next one.0)
      (λ y. rw (one.1 y) (ground arith))

-- destinations returns the set of the states that step gives on some symbol of the alphabet, whether
-- or not the automaton says that it is deterministic.
pub destinations_lem :
    (b : AutomatonBase) (state : ℕ)
    → IsAutomaton b
    → IsSetOf
        (λ y. exists_in (λ a. is_in y (b.step state a)) (xrange b.alphabet_size))
        (destinations b state)
unfolding destinations
destinations_lem b state i = elim (Bool-cases b.deterministic) [
  | inl e ↦ rw e (
      same-IsSetOf (next_loop b state [] (xrange b.alphabet_size))
        (next_loop-IsSetOf b state (xrange b.alphabet_size) [] i e tt) (λ y. refl))
  | inr e ↦ rw e (
      same-IsSetOf (nexts_loop b state [] (xrange b.alphabet_size))
        (nexts_loop-IsSetOf b state (xrange b.alphabet_size) [] tt) (λ y. refl))
]

insert_per-IsSetOf :
    (nexts ret : List ℕ) (a : ℕ)
    → Distinct ret
    → IsSetOf (λ x. is_in x ret || ((a == x) && not (is_empty nexts))) (insert_per ret a nexts)
insert_per-IsSetOf [] ret a d = (d, (λ x. ground arith))
insert_per-IsSetOf (y ∷ nexts) ret a d =
    let i = insert-IsSetOf ret a d in
    same-IsSetOf (insert_per ((insert ret a).1) a nexts)
      (insert_per-IsSetOf nexts ((insert ret a).1) a i.0) (λ x. rw (i.1 x) (ground arith))

outgoing_join :
    (p : ℕ → Bool) (a x : ℕ) (r s : Bool)
    → ((r || ((a == x) && p a)) || (s && p x)) ≡ (r || (((a == x) || s) && p x))
outgoing_join p a x r s = elim (Bool-cases (a == x)) [
  | inl e ↦ let f : p a ≡ p x = ap p ((==_iff a x).0 e) in rw (e, f) (ground arith)
  | inr e ↦ rw e (ground arith)
]

outgoing_loop-IsSetOf :
    (b : AutomatonBase) (state : ℕ) (symbols ret : List ℕ)
    → Distinct ret
    → IsSetOf
        (λ x. is_in x ret || (is_in x symbols && not (is_empty (b.step state x))))
        (outgoing_loop b state ret symbols)
outgoing_loop-IsSetOf b state [] ret d = (d, (λ x. ground arith))
outgoing_loop-IsSetOf b state (a ∷ symbols) ret d =
    let one = insert_per-IsSetOf (b.step state a) ret a d in
    let next = insert_per ret a (b.step state a) in
    same-IsSetOf (outgoing_loop b state next symbols)
      (outgoing_loop-IsSetOf b state symbols next one.0)
      (λ x.
        rw (one.1 x) (
          outgoing_join (λ c. not (is_empty (b.step state c))) a x (is_in x ret) (is_in x symbols)))

has_value_lem : (nexts : List ℕ) → has_value (first_of nexts) ≡ not (is_empty nexts)
has_value_lem [] = refl
has_value_lem (y ∷ nexts) = refl

-- outgoing returns the set of the symbols of the alphabet on which the state has a step, whether or
-- not the automaton says that it is deterministic.
pub outgoing_lem :
    (b : AutomatonBase) (state : ℕ)
    → IsSetOf (λ a. ltb a b.alphabet_size && not (is_empty (b.step state a))) (outgoing b state)
unfolding outgoing
outgoing_lem b state = elim (Bool-cases b.deterministic) [
  | inl e ↦
      let test : ℕ → Bool = λ a. has_value (step_deterministic b state a) in
      rw e (
        same-IsSetOf (insert_absent_if test [] (xrange b.alphabet_size))
          (symbols-IsSetOf test b.alphabet_size)
          (λ a. ap (λ y. ltb a b.alphabet_size && y) (has_value_lem (b.step state a))))
  | inr e ↦ rw e (
      same-IsSetOf (outgoing_loop b state [] (xrange b.alphabet_size))
        (outgoing_loop-IsSetOf b state (xrange b.alphabet_size) [] tt)
        (λ x. rw (is_in-xrange b.alphabet_size x) refl))
]
