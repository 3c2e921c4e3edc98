-- ===== src/Automaton.antt =====
-- src/automaton.hpp and src/automaton.tcc: `Automaton<N>`, with the methods that read and build
-- the transitions. A `bitset<N>` is the list of its bits.
pub mod Bits
pub mod Rows
pub mod Build
pub mod Deterministic
pub mod Flags
pub mod Symbols
use motion_planning_gadget_s.Common.{
  ℕ, zero, suc, ◌+◌, ◌-◌, ◌*◌, ◌/◌, ◌%◌, ◌≤◌, ◌<◌, min, max, ◌≡◌, refl, sym, ap, subst, ◌∙◌, ◌≢◌,
  ◌↔◌, inl, inr, Bool, true, false, not, ◌&&◌, ◌||◌, Option, none, some, List, [], ◌∷◌, ◌++◌, map,
  append-nil, append_assoc, arith, ltb, leb, ◌==◌, ==_iff, if◌then◌else◌, Bool-cases, length,
  get_or, set, take, drop, replicate, All, length-set, get_or-set_self, get_or-set_ne, word, add64,
  sub64, word32, add32,
}

-- `bitset::operator[]`, `operator|=`, `operator==`, `any` and `count`
abbrev pub bit : List Bool → ℕ → Bool
bit bits i = get_or bits i false

abbrev pub union_bits : List Bool → List Bool → List Bool
union_bits [] m = m
union_bits (x ∷ l) [] = x ∷ l
union_bits (x ∷ l) (y ∷ m) = (x || y) ∷ union_bits l m

abbrev pub same_bit : Bool → Bool → Bool
same_bit true y = y
same_bit false y = not y

abbrev pub same_bits : List Bool → List Bool → Bool
same_bits [] [] = true
same_bits [] (y ∷ m) = false
same_bits (x ∷ l) [] = false
same_bits (x ∷ l) (y ∷ m) = same_bit x y && same_bits l m

abbrev pub any : List Bool → Bool
any [] = false
any (x ∷ l) = x || any l

abbrev pub count : List Bool → ℕ
count [] = 0
count (x ∷ l) = (if x then 1 else 0) + count l

pub record Transition : Type 0 where
  pub next : ℕ
  pub symbols : List Bool

pub record Automaton : Type 0 where
  pub transitions : List (List Transition)
  pub accept : List Bool
  pub deterministic : Bool
  pub minimal : Bool
  pub canonical : Bool

-- The constructor without arguments.
abbrev pub new : Automaton
new = record {
  transitions = [];
  accept = [];
  deterministic = true;
  minimal = false;
  canonical = false;
}

-- `transitions_[state]`, for a state of the automaton
abbrev pub row : Automaton → ℕ → List Transition
row a state = get_or a.transitions state []

abbrev pub step_row : List Transition → ℕ → List ℕ
step_row [] symbol = []
step_row (t ∷ ts) symbol =
    if bit t.symbols symbol then t.next ∷ step_row ts symbol else step_row ts symbol

-- The `StateSet` is the list of what is inserted, in order.
unfoldable pub step : Automaton → ℕ → ℕ → List ℕ
step a current symbol = step_row (row a current) symbol

abbrev pub first_row : List Transition → ℕ → Option ℕ
first_row [] symbol = none
first_row (t ∷ ts) symbol = if bit t.symbols symbol then some t.next else first_row ts symbol

pub step_deterministic : Automaton → ℕ → ℕ → Option ℕ
step_deterministic a current symbol = first_row (row a current) symbol

-- `overall` and `sum` of `isStateDeterministic`; the first is also `mask` of `outgoing_mask`.
abbrev pub overall : List Bool → List Transition → List Bool
overall mask [] = mask
overall mask (t ∷ ts) = overall (union_bits mask t.symbols) ts

abbrev pub sum_counts : ℕ → List Transition → ℕ
sum_counts sum [] = sum
sum_counts sum (t ∷ ts) = sum_counts (add32 sum (count t.symbols)) ts

pub outgoing_mask : ℕ → List Transition → List Bool
outgoing_mask n ts = overall (replicate n false) ts

pub is_state_deterministic : ℕ → List Transition → Bool
is_state_deterministic n ts = count (overall (replicate n false) ts) == sum_counts 0 ts

unfoldable pub add_state : Automaton → ℕ × Automaton
add_state a = (
  length a.transitions,
  record a {
    transitions = a.transitions ++ ([] ∷ []);
    accept = a.accept ++ (false ∷ []);
    minimal = false;
    canonical = false;
  },
)

-- What the loop of `addTrans` over `transitions_[from]` finds: an edge to `to` that has all the
-- symbols, one that had to take more of them, or none.
pub data EdgeSearch : Type 0 where
  present absent : EdgeSearch
  widened : List Transition → EdgeSearch

abbrev pub behind : Transition → EdgeSearch → EdgeSearch
behind t present = present
behind t absent = absent
behind t (widened ts) = widened (t ∷ ts)

abbrev pub widen : List Bool → ℕ → List Transition → EdgeSearch
widen symbols to [] = absent
widen symbols to (t ∷ ts) =
    let both = union_bits t.symbols symbols in
    let rest = behind t (widen symbols to ts) in
    if t.next == to
    then if same_bits both t.symbols
      then present
      else widened (record { next = t.next; symbols = both } ∷ ts)
    else rest

-- `if (deterministic_ && !isStateDeterministic(from)) deterministic_ = false;` on the new row
pub put_row : ℕ → Automaton → ℕ → List Transition → Automaton
unfolding is_state_deterministic
put_row n a from ts = record a {
  transitions = set a.transitions from ts;
  deterministic = a.deterministic && is_state_deterministic n ts;
}

abbrev pub after_search : ℕ → Automaton → ℕ → List Bool → ℕ → EdgeSearch → Bool × Automaton
after_search n a from symbols to present = (false, a)
after_search n a from symbols to (widened ts) = (true, put_row n a from ts)
after_search n a from symbols to absent = (
  true,
  record (put_row n a from (row a from ++ (record { next = to; symbols = symbols } ∷ []))) {
    minimal = false;
    canonical = false;
  },
)

-- `addTrans` with a mask; `n` is `AlphabetSize`.
unfoldable pub add_trans : ℕ → Automaton → ℕ → List Bool → ℕ → Bool × Automaton
unfolding put_row
add_trans n a from symbols to =
    if not (any symbols)
    then (false, a)
    else after_search n a from symbols to (widen symbols to (row a from))

-- The mask of a new edge for one symbol.
abbrev pub one_bit : ℕ → ℕ → List Bool
one_bit n symbol = set (replicate n false) symbol true

abbrev pub widen_symbol : ℕ → ℕ → List Transition → EdgeSearch
widen_symbol symbol to [] = absent
widen_symbol symbol to (t ∷ ts) =
    let rest = behind t (widen_symbol symbol to ts) in
    if t.next == to
    then if bit t.symbols symbol
      then present
      else widened (record { next = t.next; symbols = set t.symbols symbol true } ∷ ts)
    else rest

-- `addTrans` with one symbol
unfoldable pub add_symbol : ℕ → Automaton → ℕ → ℕ → ℕ → Bool × Automaton
unfolding put_row
add_symbol n a from symbol to =
    after_search n a from (one_bit n symbol) to (widen_symbol symbol to (row a from))

-- The loop of `addEpsilon`; `changed` is its result so far. For `from == to` no edge changes.
pub copy_trans : ℕ → Bool → Automaton → ℕ → List Transition → Bool × Automaton
unfolding add_trans
copy_trans n changed a from [] = (changed, a)
copy_trans n changed a from (t ∷ ts) =
    let r = add_trans n a from t.symbols t.next in copy_trans n (changed || r.0) r.1 from ts

abbrev pub accept_epsilon : Automaton → ℕ → ℕ → Bool × Automaton
accept_epsilon a from to =
    if bit a.accept to
    then (not (bit a.accept from), record a { accept = set a.accept from true })
    else (false, a)

unfoldable pub add_epsilon : ℕ → Automaton → ℕ → ℕ → Bool × Automaton
unfolding copy_trans
add_epsilon n a from to =
    let s = accept_epsilon a from to in
    let r = copy_trans n s.0 s.1 from (row s.1 to) in
    (r.0, record r.1 { minimal = false; canonical = false })

unfoldable pub set_accept : Automaton → ℕ → Bool → Bool × Automaton
set_accept a state accepts = (
  same_bit accepts (bit a.accept state),
  record a { accept = set a.accept state accepts; minimal = false; canonical = false },
)
