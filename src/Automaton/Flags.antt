-- ===== src/Automaton/Flags.antt =====
-- src/automaton.tcc: the flag `deterministic_` through the methods that build an automaton.
use motion_planning_gadget_s.Common.{
  ℕ, ◌≤◌, ◌<◌, ◌≡◌, subst, ◌≢◌, inl, inr, Bool, true, List, [], ◌∷◌, ◌++◌, arith, ◌==◌, ==_iff,
  Bool-cases, length, word32,
}
use motion_planning_gadget_s.Automaton.{
  any, Transition, Automaton, row, step, EdgeSearch, present, absent, widened, widen, put_row,
  after_search, add_trans, is_state_deterministic,
}
use motion_planning_gadget_s.Automaton.Deterministic.{total_count, is_state_deterministic_lem}
use motion_planning_gadget_s.Automaton.Build.{row-put_row_self, row-put_row_ne}

-- Where the flag is set, no state has two steps on one symbol.
abbrev pub FlagHolds : Automaton → Type 0
FlagHolds a = a.deterministic ≡ true → (s symbol : ℕ) → length (step a s symbol) ≤ 1

put_row-FlagHolds :
    (n : ℕ) (a : Automaton) (from : ℕ) (ts : List Transition)
    → from < length a.transitions
    → total_count (row (put_row n a from ts) from) < word32
    → FlagHolds a
    → FlagHolds (put_row n a from ts)
unfolding put_row step
put_row-FlagHolds n a from ts h w f flag s symbol =
    let self = row-put_row_self n a from ts h in
    let both : (a.deterministic ≡ true) × (is_state_deterministic n ts ≡ true) = ground arith in
    elim (Bool-cases (s == from)) [
      | inl e ↦
          let small : total_count ts < word32 = subst (λ l. total_count l < word32) self w in
          rw ((==_iff s from).0 e, self) ((is_state_deterministic_lem n ts small).0 both.1 symbol)
      | inr e ↦
          let other : from ≢ s = ground arith in
          rw (row-put_row_ne n a from s ts other) (f both.0 s symbol)
    ]

after_search-FlagHolds :
    (n : ℕ) (a : Automaton) (from : ℕ) (symbols : List Bool) (to : ℕ) (s : EdgeSearch)
    → from < length a.transitions
    → total_count (row ((after_search n a from symbols to s).1) from) < word32
    → FlagHolds a
    → FlagHolds ((after_search n a from symbols to s).1)
unfolding put_row step
after_search-FlagHolds n a from symbols to present h w f = f
after_search-FlagHolds n a from symbols to (widened ts) h w f = put_row-FlagHolds n a from ts h w f
after_search-FlagHolds n a from symbols to absent h w f =
    put_row-FlagHolds n a from (row a from ++ (record { next = to; symbols = symbols } ∷ [])) h w f

-- If no state has two steps on one symbol where the flag deterministic_ is set, then this is so
-- after addTrans as well, as long as the count of the state's transitions does not wrap.
pub add_trans-FlagHolds :
    (n : ℕ) (a : Automaton) (from : ℕ) (symbols : List Bool) (to : ℕ)
    → from < length a.transitions
    → total_count (row ((add_trans n a from symbols to).1) from) < word32
    → FlagHolds a
    → FlagHolds ((add_trans n a from symbols to).1)
unfolding add_trans
add_trans-FlagHolds n a from symbols to h = elim (Bool-cases (any symbols)) [
  | inl e ↦ rw e (after_search-FlagHolds n a from symbols to (widen symbols to (row a from)) h)
  | inr e ↦ rw e (λ w f. f)
]
