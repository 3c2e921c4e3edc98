-- ===== src/Regexesque.antt =====
-- src/automaton-regexesque-basic.hpp, src/automaton-regexesque.hpp, `Automaton::append` of
-- src/automaton.tcc, `do_lit` of src/automaton.cpp and `run` of src/automatonbase.cpp: automata made
-- of automata. `n` is `AlphabetSize`. A state number has 32 bits.
pub mod Nfa
pub mod Steps
pub mod Run
pub mod Catenation
pub mod Cat
pub mod Alternation
pub mod Alt
pub mod Star
pub mod Atoms
pub mod Closure
use motion_planning_gadget_s.Common.{
  ℕ, zero, suc, ◌+◌, ◌≡◌, Bool, true, false, not, ◌&&◌, ◌||◌, List, [], ◌∷◌, ◌++◌, map,
  if◌then◌else◌, length, add32, replicate, ◌==◌,
}
use motion_planning_gadget_s.Automaton.Bits.{mem}
use motion_planning_gadget_s.Automaton.{
  bit, Transition, Automaton, new, row, step, add_state, add_symbol, add_epsilon, set_accept,
}

-- `Automaton::append(const Automaton&)`: the new automaton, and the first state appended.
abbrev pub shift_row : ℕ → List Transition → List Transition
shift_row base [] = []
shift_row base (t ∷ ts) =
    record { next = add32 t.next base; symbols = t.symbols } ∷ shift_row base ts

unfoldable pub append : Automaton → Automaton → ℕ × Automaton
append a b =
    let base = length a.transitions in
    (
      base,
      record {
        transitions = a.transitions ++ map (shift_row base) b.transitions;
        accept = a.accept ++ b.accept;
        deterministic = a.deterministic && b.deterministic;
        minimal = false;
        canonical = false;
      },
    )

-- `for (s = 0; s < N; ++s) a.addTrans(from, s, to);`, from the symbol `s` on
pub add_all_symbols : ℕ → Automaton → ℕ → ℕ → ℕ → ℕ → Automaton
add_all_symbols n a from to s zero = a
add_all_symbols n a from to s (suc left) =
    add_all_symbols n ((add_symbol n a from s to).1) from to (s + 1) left

abbrev pub known_minimal : Automaton → Automaton
known_minimal a = record a { minimal = true; canonical = true }

unfoldable pub empty : Automaton
unfolding add_state
empty = known_minimal ((add_state new).1)

unfoldable pub epsilon : Automaton
unfolding add_state set_accept
epsilon = known_minimal ((set_accept ((add_state new).1) 0 true).1)

unfoldable pub all : ℕ → Automaton
unfolding add_state set_accept add_all_symbols
all n = known_minimal (add_all_symbols n ((set_accept ((add_state new).1) 0 true).1) 0 0 0 n)

unfoldable pub any_symbol : ℕ → Automaton
unfolding add_state set_accept add_all_symbols
any_symbol n =
    known_minimal
      (add_all_symbols n ((set_accept ((add_state ((add_state new).1)).1) 1 true).1) 0 1 0 n)

-- The loop of `do_lit`, and the loop's last state
pub lit_loop : ℕ → Automaton → ℕ → List ℕ → ℕ × Automaton
unfolding add_state
lit_loop n a last [] = (last, a)
lit_loop n a last (symbol ∷ symbols) =
    let next = add_state a in lit_loop n ((add_symbol n next.1 last symbol next.0).1) next.0 symbols

pub do_lit : ℕ → List ℕ → Automaton
unfolding lit_loop set_accept
do_lit n symbols =
    let first = add_state new in
    let r = lit_loop n first.1 first.0 symbols in (set_accept r.1 r.0 true).1

-- `for (p = first; p < first + left; ++p) if (a.accept(p)) body(a, p);`
abbrev pub for_accepting : (Automaton → ℕ → Automaton) → Automaton → ℕ → ℕ → Automaton
for_accepting body a p zero = a
for_accepting body a p (suc left) =
    for_accepting body (if bit a.accept p then body a p else a) (suc p) left

-- The body of the loop of `cat_once`
pub wire : ℕ → ℕ → Automaton → ℕ → Automaton
unfolding set_accept
wire n base a p = (add_epsilon n ((set_accept a p false).1) p base).1

pub cat_once : ℕ → Automaton → Automaton → Automaton
unfolding wire append
cat_once n target source =
    let appended = append target source in for_accepting (wire n appended.0) appended.1 0 appended.0

pub alt_once : ℕ → Automaton → Automaton → Automaton
unfolding append
alt_once n target source =
    let appended = append target source in (add_epsilon n appended.1 0 appended.0).1

abbrev pub cat_from : ℕ → Automaton → List Automaton → Automaton
cat_from n a [] = a
cat_from n a (b ∷ rest) = cat_from n (cat_once n a b) rest

-- `cat(begin, end)`
pub cat : ℕ → List Automaton → Automaton
unfolding cat_once
cat n [] = epsilon
cat n (b ∷ rest) = cat_from n new (b ∷ rest)

abbrev pub alt_from : ℕ → Automaton → List Automaton → Automaton
alt_from n a [] = a
alt_from n a (b ∷ rest) = alt_from n (alt_once n a b) rest

-- `alt(begin, end)`
pub alt : ℕ → List Automaton → Automaton
unfolding alt_once add_state
alt n [] = empty
alt n (b ∷ rest) = alt_from n ((add_state new).1) (b ∷ rest)

-- `alt(Automata&&...)`, which has no initial state of its own
unfoldable pub alt_variadic : ℕ → List Automaton → Automaton
unfolding alt_once
alt_variadic n rest = alt_from n new rest

abbrev pub loop_back : ℕ → Automaton → ℕ → Automaton
loop_back n a p = (add_epsilon n a p 0).1

pub star : ℕ → Automaton → Automaton
unfolding append add_state set_accept
star n b =
    let appended = append ((set_accept ((add_state new).1) 0 true).1) b in
    for_accepting (loop_back n) ((add_epsilon n appended.1 0 1).1) appended.0 (length b.transitions)

-- `nCopies`, `nOrMore`, `plus`
pub n_copies : ℕ → Automaton → ℕ → Automaton
unfolding cat
n_copies n a count = cat n (replicate count a)

pub n_or_more : ℕ → Automaton → ℕ → Automaton
unfolding n_copies star
n_or_more n a zero = star n a
n_or_more n a (suc min) = cat n (n_copies n a (suc min) ∷ star n a ∷ [])

pub plus : ℕ → Automaton → Automaton
unfolding n_or_more
plus n a = n_or_more n a 1

-- What `run` uses of `tsl::hopscotch_set<state_type>`: an insertion adds the element and nothing
-- else, and iteration meets the elements in some order.
pub record HopscotchSet : Type 1 where
  pub Carrier : Type 0
  pub cleared : Carrier
  pub insert : Carrier → ℕ → Carrier
  pub elements : Carrier → List ℕ
  pub elements-cleared : (x : ℕ) → mem x (elements cleared) ≡ false
  pub elements-insert :
      (s : Carrier) (y x : ℕ) → mem x (elements (insert s y)) ≡ (mem x (elements s) || (x == y))

module _ (h : HopscotchSet) where
  -- `next.insert(n)` for the steps of one state, and of all
  abbrev pub insert_all : h.Carrier → List ℕ → h.Carrier
  insert_all next [] = next
  insert_all next (y ∷ ys) = insert_all (h.insert next y) ys

  abbrev pub next_states : Automaton → h.Carrier → List ℕ → ℕ → h.Carrier
  next_states a next [] symbol = next
  next_states a next (c ∷ current) symbol =
      next_states a (insert_all next (step a c symbol)) current symbol

  -- `std::any_of`
  abbrev pub any_accepts : Automaton → List ℕ → Bool
  any_accepts a [] = false
  any_accepts a (s ∷ current) = bit a.accept s || any_accepts a current

  pub run_from : Automaton → h.Carrier → List ℕ → Bool
  run_from a current [] = any_accepts a (h.elements current)
  run_from a current (symbol ∷ string) =
      run_from a (next_states a h.cleared (h.elements current) symbol) string

  -- `AutomatonBase::run`
  pub run : Automaton → List ℕ → Bool
  unfolding run_from
  run a string = run_from a (h.insert h.cleared 0) string
