-- ===== src/AutomatonBase.antt =====
-- src/automatonbase.hpp and src/automatonbase.cpp: the queries that `AutomatonBase` gives in terms of
-- its pure virtual functions. A callback's calls are the list of their arguments.
pub mod Collect
pub mod Counts
pub mod Queries
use motion_planning_gadget_s.Common.{
  ℕ, zero, suc, ◌+◌, ◌<◌, ◌≤◌, ◌≡◌, Bool, true, false, not, ◌||◌, ◌&&◌, Option, none, some, List,
  [], ◌∷◌, ◌++◌, ◌==◌, if◌then◌else◌, length, add32, add64,
}
use motion_planning_gadget_s.LinearSet.{insert, insert_absent, is_in, Distinct}

-- The pure virtual functions of the queries; a `StateSet` is the list of its elements.
pub record AutomatonBase : Type 0 where
  pub state_size : ℕ
  pub alphabet_size : ℕ
  pub deterministic : Bool
  pub accept : ℕ → Bool
  pub step : ℕ → ℕ → List ℕ

-- What the class asks of them: `step` returns a set, and of at most one state in an automaton that
-- says it is deterministic.
pub record IsAutomaton (b : AutomatonBase) : Type 0 where
  pub sets : (s a : ℕ) → Distinct (b.step s a)
  pub single : b.deterministic ≡ true → (s a : ℕ) → length (b.step s a) ≤ 1

abbrev pub range_from : ℕ → ℕ → List ℕ
range_from k zero = []
range_from k (suc left) = k ∷ range_from (suc k) left

-- `xrange(n)`
abbrev pub xrange : ℕ → List ℕ
xrange n = range_from 0 n

abbrev pub is_empty : List ℕ → Bool
is_empty [] = true
is_empty (x ∷ l) = false

abbrev pub count_accepting : AutomatonBase → List ℕ → ℕ → ℕ
count_accepting b [] count = count
count_accepting b (s ∷ states) count =
    count_accepting b states (if b.accept s then add32 count 1 else count)

pub accept_size : AutomatonBase → ℕ
accept_size b = count_accepting b (xrange b.state_size) 0

abbrev pub accepting : AutomatonBase → List ℕ → List ℕ
accepting b [] = []
accepting b (s ∷ states) = if b.accept s then s ∷ accepting b states else accepting b states

pub for_each_accept : AutomatonBase → List ℕ
for_each_accept b = accepting b (xrange b.state_size)

-- `stepDeterministic`
abbrev pub first_of : List ℕ → Option ℕ
first_of [] = none
first_of (y ∷ nexts) = some y

abbrev pub step_deterministic : AutomatonBase → ℕ → ℕ → Option ℕ
step_deterministic b state symbol = first_of (b.step state symbol)

abbrev pub has_value : Option ℕ → Bool
has_value none = false
has_value (some y) = true

abbrev pub has : Option ℕ → ℕ → Bool
has none to = false
has (some y) to = y == to

-- `for (symbol_type a : symbols) if (test(a)) ret.insert_absent(a);`
abbrev pub insert_absent_if : (ℕ → Bool) → List ℕ → List ℕ → List ℕ
insert_absent_if test ret [] = ret
insert_absent_if test ret (a ∷ symbols) =
    insert_absent_if test (if test a then (insert_absent ret a).1 else ret) symbols

-- `for (next : nexts) ret.insert(a);`
abbrev pub insert_per : List ℕ → ℕ → List ℕ → List ℕ
insert_per ret a [] = ret
insert_per ret a (y ∷ nexts) = insert_per ((insert ret a).1) a nexts

abbrev pub outgoing_loop : AutomatonBase → ℕ → List ℕ → List ℕ → List ℕ
outgoing_loop b state ret [] = ret
outgoing_loop b state ret (a ∷ symbols) =
    outgoing_loop b state (insert_per ret a (b.step state a)) symbols

pub outgoing : AutomatonBase → ℕ → List ℕ
outgoing b state =
    if b.deterministic
    then insert_absent_if (λ a. has_value (step_deterministic b state a)) []
        (xrange b.alphabet_size)
    else outgoing_loop b state [] (xrange b.alphabet_size)

abbrev pub insert_next : List ℕ → Option ℕ → List ℕ
insert_next ret none = ret
insert_next ret (some y) = (insert ret y).1

abbrev pub insert_each : List ℕ → List ℕ → List ℕ
insert_each ret [] = ret
insert_each ret (y ∷ nexts) = insert_each ((insert ret y).1) nexts

abbrev pub next_loop : AutomatonBase → ℕ → List ℕ → List ℕ → List ℕ
next_loop b state ret [] = ret
next_loop b state ret (a ∷ symbols) =
    next_loop b state (insert_next ret (step_deterministic b state a)) symbols

abbrev pub nexts_loop : AutomatonBase → ℕ → List ℕ → List ℕ → List ℕ
nexts_loop b state ret [] = ret
nexts_loop b state ret (a ∷ symbols) = nexts_loop b state (insert_each ret (b.step state a)) symbols

pub destinations : AutomatonBase → ℕ → List ℕ
destinations b state =
    if b.deterministic
    then next_loop b state [] (xrange b.alphabet_size)
    else nexts_loop b state [] (xrange b.alphabet_size)

-- `for (next : nexts) if (next == to) { …; break; }`
abbrev pub leads_to : ℕ → List ℕ → Bool
leads_to to [] = false
leads_to to (y ∷ nexts) = if y == to then true else leads_to to nexts

pub labels : AutomatonBase → ℕ → ℕ → List ℕ
labels b from to =
    if b.deterministic
    then insert_absent_if (λ a. has (step_deterministic b from a) to) [] (xrange b.alphabet_size)
    else insert_absent_if (λ a. leads_to to (b.step from a)) [] (xrange b.alphabet_size)

-- The sums of `edge_size` and `transition_size`, at 64 bits
abbrev pub edge_count : AutomatonBase → List ℕ → ℕ → ℕ
edge_count b [] count = count
edge_count b (s ∷ states) count = edge_count b states (add64 count (length (destinations b s)))

pub edge_size : AutomatonBase → ℕ
edge_size b = edge_count b (xrange b.state_size) 0

abbrev pub symbol_count : AutomatonBase → ℕ → List ℕ → ℕ → ℕ
symbol_count b s [] count = count
symbol_count b s (a ∷ symbols) count = symbol_count b s symbols (add64 count (length (b.step s a)))

abbrev pub transition_count : AutomatonBase → List ℕ → ℕ → ℕ
transition_count b [] count = count
transition_count b (s ∷ states) count =
    transition_count b states (symbol_count b s (xrange b.alphabet_size) count)

pub transition_size : AutomatonBase → ℕ
transition_size b = transition_count b (xrange b.state_size) 0

-- `for_each_transition`: the calls of one state
abbrev pub call_next : ℕ → Option ℕ → List (ℕ × ℕ)
call_next a none = []
call_next a (some y) = (a, y) ∷ []

abbrev pub call_each : ℕ → List ℕ → List (ℕ × ℕ)
call_each a [] = []
call_each a (y ∷ nexts) = (a, y) ∷ call_each a nexts

abbrev pub calls_deterministic : AutomatonBase → ℕ → List ℕ → List (ℕ × ℕ)
calls_deterministic b state [] = []
calls_deterministic b state (a ∷ symbols) =
    call_next a (step_deterministic b state a) ++ calls_deterministic b state symbols

abbrev pub calls : AutomatonBase → ℕ → List ℕ → List (ℕ × ℕ)
calls b state [] = []
calls b state (a ∷ symbols) = call_each a (b.step state a) ++ calls b state symbols

unfoldable pub for_each_transition : AutomatonBase → ℕ → List (ℕ × ℕ)
for_each_transition b state =
    if b.deterministic
    then calls_deterministic b state (xrange b.alphabet_size)
    else calls b state (xrange b.alphabet_size)

-- `for (s : states) if (!step(s, a).empty()) { …; break; }`
abbrev pub some_step : AutomatonBase → ℕ → List ℕ → Bool
some_step b a [] = false
some_step b a (s ∷ states) = if not (is_empty (b.step s a)) then true else some_step b a states

unfoldable pub active_alphabet : AutomatonBase → List ℕ
active_alphabet b =
    insert_absent_if (λ a. some_step b a (xrange b.state_size)) [] (xrange b.alphabet_size)
