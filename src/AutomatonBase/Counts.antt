-- ===== src/AutomatonBase/Counts.antt =====
-- src/automatonbase.cpp: the calls of `for_each_transition` and `for_each_accept`, and the sizes.
use motion_planning_gadget_s.Common.{
  ℕ, suc, ◌+◌, ◌%◌, ◌<◌, ◌≤◌, ◌≡◌, refl, sym, ap, ◌∙◌, inl, inr, Bool, true, false, ◌&&◌, List, [],
  ◌∷◌, ◌++◌, ◌==◌, ==_iff, ltb, if◌then◌else◌, length, arith, Bool-cases, add32, add64, word,
  word32, length-append,
}
use motion_planning_gadget_s.LinearSet.{is_in, Distinct}
use motion_planning_gadget_s.AutomatonBase.Collect.{is_in-xrange, xrange-Distinct}
use motion_planning_gadget_s.AutomatonBase.{
  AutomatonBase, IsAutomaton, xrange, first_of, count_accepting, accept_size, accepting,
  for_each_accept, symbol_count, transition_count, transition_size, call_next, call_each,
  calls_deterministic, calls, for_each_transition,
}

-- The calls of `for_each_transition` of several states
abbrev pub all_calls : AutomatonBase → List ℕ → List (ℕ × ℕ)
all_calls b [] = []
all_calls b (s ∷ states) = for_each_transition b s ++ all_calls b states

-- How often an action is called with a symbol and a state
abbrev pub times : ℕ → ℕ → List (ℕ × ℕ) → ℕ
times a y [] = 0
times a y (c ∷ calls) = (if (c.0 == a) && (c.1 == y) then 1 else 0) + times a y calls

calls-eq :
    (b : AutomatonBase) (state : ℕ) (symbols : List ℕ)
    → IsAutomaton b
    → b.deterministic ≡ true
    → calls_deterministic b state symbols ≡ calls b state symbols
calls-eq b state [] i e = refl
calls-eq b state (a ∷ symbols) i e =
    rw (calls-eq b state symbols i e)
      (ap (λ l. l ++ calls b state symbols) (one (b.step state a) (i.single e state a)))
  where
    one : (nexts : List ℕ) → length nexts ≤ 1 → call_next a (first_of nexts) ≡ call_each a nexts
    one [] h = refl
    one (y ∷ []) h = refl
    one (y ∷ z ∷ nexts) h = absurd (omega arith)

for_each_transition-eq :
    (b : AutomatonBase) (state : ℕ)
    → IsAutomaton b
    → for_each_transition b state ≡ calls b state (xrange b.alphabet_size)
unfolding for_each_transition
for_each_transition-eq b state i = elim (Bool-cases b.deterministic) [
  | inl e ↦ rw e (calls-eq b state (xrange b.alphabet_size) i e)
  | inr e ↦ rw e refl
]

length-call_each : (a : ℕ) (nexts : List ℕ) → length (call_each a nexts) ≡ length nexts
length-call_each a [] = refl
length-call_each a (y ∷ nexts) = ap suc (length-call_each a nexts)

symbol_count_lem :
    (b : AutomatonBase) (s : ℕ) (symbols : List ℕ) (count : ℕ)
    → count < word
    → symbol_count b s symbols count ≡ (count + length (calls b s symbols)) % word
symbol_count_lem b s [] count h = omega arith
symbol_count_lem b s (a ∷ symbols) count h =
    let r = symbol_count_lem b s symbols (add64 count (length (b.step s a))) (omega arith) in
    let l = length-append (call_each a (b.step s a)) (calls b s symbols) in
    let k = length-call_each a (b.step s a) in rw (r, l, k) (omega arith)

transition_count_lem :
    (b : AutomatonBase) (states : List ℕ) (count : ℕ)
    → IsAutomaton b
    → count < word
    → transition_count b states count ≡ (count + length (all_calls b states)) % word
transition_count_lem b [] count i h = omega arith
transition_count_lem b (s ∷ states) count i h =
    let c = symbol_count_lem b s (xrange b.alphabet_size) count h in
    let r =
      transition_count_lem b states (symbol_count b s (xrange b.alphabet_size) count) i
        (rw c (omega arith)) in
    let l = length-append (for_each_transition b s) (all_calls b states) in
    rw (r, c, l, for_each_transition-eq b s i) (omega arith)

-- transition_size is the number of calls that for_each_transition makes for the states of the
-- automaton, modulo 2 ^ 64.
pub transition_size-for_each_transition :
    (b : AutomatonBase)
    → IsAutomaton b
    → transition_size b ≡ length (all_calls b (xrange b.state_size)) % word
unfolding transition_size
transition_size-for_each_transition b i =
    transition_count_lem b (xrange b.state_size) 0 i (omega arith) ∙ omega arith

accept_size_loop :
    (b : AutomatonBase) (states : List ℕ) (count : ℕ)
    → count < word32
    → count_accepting b states count ≡ (count + length (accepting b states)) % word32
accept_size_loop b [] count h = omega arith
accept_size_loop b (s ∷ states) count h = elim (Bool-cases (b.accept s)) [
  | inl e ↦ rw (e, accept_size_loop b states (add32 count 1) (omega arith)) (omega arith)
  | inr e ↦ rw e (accept_size_loop b states count h)
]

-- accept_size is the number of calls of for_each_accept, modulo 2 ^ 32.
pub accept_size-for_each_accept :
    (b : AutomatonBase) → accept_size b ≡ length (for_each_accept b) % word32
unfolding accept_size for_each_accept
accept_size-for_each_accept b =
    accept_size_loop b (xrange b.state_size) 0 (omega arith) ∙ omega arith

times-append : (a y : ℕ) (xs ys : List (ℕ × ℕ)) → times a y (xs ++ ys) ≡ times a y xs + times a y ys
times-append a y [] ys = omega arith
times-append a y (x ∷ xs) ys = rw (times-append a y xs ys) (omega arith)

-- 1 where the test holds.
abbrev pub once_if : Bool → ℕ
once_if b = if b then 1 else 0

times-call_each :
    (a y c : ℕ) (nexts : List ℕ)
    → Distinct nexts
    → times a y (call_each c nexts) ≡ once_if ((c == a) && is_in y nexts)
times-call_each a y c [] d = ground arith
times-call_each a y c (z ∷ nexts) d =
    let r = times-call_each a y c nexts d.1 in
    elim (Bool-cases (z == y)) [
      | inl e ↦
          let f : is_in y nexts ≡ false = ap (λ k. is_in k nexts) (sym ((==_iff z y).0 e)) ∙ d.0 in
          rw (r, e, f) (ground arith)
      | inr e ↦ rw (r, e) (ground arith)
    ]

times-calls :
    (b : AutomatonBase) (s a y : ℕ) (symbols : List ℕ)
    → IsAutomaton b
    → Distinct symbols
    → times a y (calls b s symbols) ≡ once_if (is_in a symbols && is_in y (b.step s a))
times-calls b s a y [] i d = refl
times-calls b s a y (c ∷ symbols) i d =
    let r = times-calls b s a y symbols i d.1 in
    let o = times-call_each a y c (b.step s c) (i.sets s c) in
    let l = times-append a y (call_each c (b.step s c)) (calls b s symbols) in
    elim (Bool-cases (c == a)) [
      | inl e ↦
          let f : is_in a symbols ≡ false =
            ap (λ k. is_in k symbols) (sym ((==_iff c a).0 e)) ∙ d.0 in
          let g : is_in y (b.step s c) ≡ is_in y (b.step s a) =
            ap (λ k. is_in y (b.step s k)) ((==_iff c a).0 e) in
          rw (l, r, o, e, f, g) (ground arith)
      | inr e ↦ rw (l, r, o, e) (omega arith)
    ]

-- for_each_transition calls the action once for each symbol of the alphabet and state that step
-- gives on it, and not at all for other pairs, whether or not the automaton says that it is
-- deterministic.
pub for_each_transition_lem :
    (b : AutomatonBase) (s a y : ℕ)
    → IsAutomaton b
    → times a y (for_each_transition b s) ≡ once_if (ltb a b.alphabet_size && is_in y (b.step s a))
for_each_transition_lem b s a y i =
    ap (times a y) (for_each_transition-eq b s i)
    ∙ times-calls b s a y (xrange b.alphabet_size) i (xrange-Distinct b.alphabet_size)
    ∙ ap (λ k. once_if (k && is_in y (b.step s a))) (is_in-xrange b.alphabet_size a)
