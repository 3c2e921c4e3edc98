-- ===== src/Automaton/Build.antt =====
-- src/automaton.tcc: what `addTrans`, `addEpsilon` and `setAccept` change.
use motion_planning_gadget_s.Common.{
  ℕ, ◌<◌, ◌≡◌, refl, ap, ◌∙◌, ◌≢◌, inl, inr, Bool, true, false, ◌&&◌, ◌||◌, List, [], ◌∷◌, ◌++◌,
  arith, ◌==◌, ==_iff, Bool-cases, length, get_or, length-set, get_or-set_self, get_or-set_ne,
}
use motion_planning_gadget_s.Automaton.{
  bit, any, Transition, Automaton, row, step_row, step, EdgeSearch, present, absent, widened, widen,
  put_row, after_search, add_trans, copy_trans, accept_epsilon, add_epsilon,
}
use motion_planning_gadget_s.Automaton.Bits.{mem, any-bit}
use motion_planning_gadget_s.Automaton.Rows.{Found, mem-step_row, mem-step_row_append, widen-Found}

-- The steps of `a` from `from` to `to` on `symbols`, and the others, are those of `b`.
abbrev pub Adds : Automaton → ℕ → List Bool → ℕ → Automaton → Type 0
Adds a from symbols to b =
    (s symbol y : ℕ)
    → mem y (step b s symbol)
      ≡ (mem y (step a s symbol) || ((s == from) && ((y == to) && bit symbols symbol)))

pub row-put_row_self :
    (n : ℕ) (a : Automaton) (from : ℕ) (ts : List Transition)
    → from < length a.transitions
    → row (put_row n a from ts) from ≡ ts
unfolding put_row
row-put_row_self n a from ts h = get_or-set_self a.transitions from ts [] h

pub row-put_row_ne :
    (n : ℕ) (a : Automaton) (from s : ℕ) (ts : List Transition)
    → from ≢ s
    → row (put_row n a from ts) s ≡ row a s
unfolding put_row
row-put_row_ne n a from s ts h = get_or-set_ne a.transitions ts [] h

put_row-Adds :
    (n : ℕ) (a : Automaton) (from : ℕ) (symbols : List Bool) (to : ℕ) (ts : List Transition)
    → from < length a.transitions
    → ((b y : ℕ)
        → mem y (step_row ts b) ≡ (mem y (step_row (row a from) b) || ((y == to) && bit symbols b)))
    → Adds a from symbols to (put_row n a from ts)
unfolding step
put_row-Adds n a from symbols to ts h f s symbol y = elim (Bool-cases (s == from)) [
  | inl e ↦
      let same : s ≡ from = (==_iff s from).0 e in
      rw (e, same, row-put_row_self n a from ts h) (f symbol y)
  | inr e ↦
      let other : from ≢ s = ground arith in
      rw (e, row-put_row_ne n a from s ts other) (ground arith)
]

unchanged-Adds :
    (a : Automaton) (from : ℕ) (symbols : List Bool) (to : ℕ)
    → ((b : ℕ) → bit symbols b ≡ true → mem to (step_row (row a from) b) ≡ true)
    → Adds a from symbols to a
unfolding step
unchanged-Adds a from symbols to f s symbol y = elim (Bool-cases (bit symbols symbol)) [
  | inr e ↦ rw e (ground arith)
  | inl e ↦ elim (Bool-cases (s == from)) [
    | inr g ↦ rw (e, g) (ground arith)
    | inl g ↦ elim (Bool-cases (y == to)) [
      | inr k ↦ rw (e, g, k) (ground arith)
      | inl k ↦
          let p : s ≡ from = (==_iff s from).0 g in
          let q : y ≡ to = (==_iff y to).0 k in rw (e, g, k, p, q, f symbol e) refl
    ]
  ]
]

pub after_search-Adds :
    (n : ℕ) (a : Automaton) (from : ℕ) (symbols : List Bool) (to : ℕ) (s : EdgeSearch)
    → from < length a.transitions
    → Found symbols to (row a from) s
    → Adds a from symbols to ((after_search n a from symbols to s).1)
unfolding put_row step
after_search-Adds n a from symbols to present h f = unchanged-Adds a from symbols to f
after_search-Adds n a from symbols to (widened ts) h f = put_row-Adds n a from symbols to ts h f
after_search-Adds n a from symbols to absent h f =
    put_row-Adds n a from symbols to (row a from ++ (record { next = to; symbols = symbols } ∷ []))
      h (λ b y. mem-step_row_append y b (row a from) (record { next = to; symbols = symbols }))

-- For a state of the automaton, addTrans with a mask adds exactly the steps from it to the other
-- state on the symbols of the mask.
pub step-add_trans :
    (n : ℕ) (a : Automaton) (from : ℕ) (symbols : List Bool) (to : ℕ)
    → from < length a.transitions
    → Adds a from symbols to ((add_trans n a from symbols to).1)
unfolding add_trans
step-add_trans n a from symbols to h = elim (Bool-cases (any symbols)) [
  | inl e ↦ rw e (
      after_search-Adds n a from symbols to (widen symbols to (row a from)) h
        (widen-Found symbols to (row a from)))
  | inr e ↦
      rw e (unchanged-Adds a from symbols to (λ b k. absurd (ground (arith, any-bit symbols b e))))
]

pub length-after_search :
    (n : ℕ) (a : Automaton) (from : ℕ) (symbols : List Bool) (to : ℕ) (s : EdgeSearch)
    → length ((after_search n a from symbols to s).1.transitions) ≡ length a.transitions
unfolding put_row
length-after_search n a from symbols to present = refl
length-after_search n a from symbols to (widened ts) = length-set a.transitions from ts
length-after_search n a from symbols to absent =
    length-set a.transitions from (row a from ++ (record { next = to; symbols = symbols } ∷ []))

pub accept-after_search :
    (n : ℕ) (a : Automaton) (from : ℕ) (symbols : List Bool) (to : ℕ) (s : EdgeSearch)
    → (after_search n a from symbols to s).1.accept ≡ a.accept
unfolding put_row
accept-after_search n a from symbols to present = refl
accept-after_search n a from symbols to (widened ts) = refl
accept-after_search n a from symbols to absent = refl

length-add_trans :
    (n : ℕ) (a : Automaton) (from : ℕ) (symbols : List Bool) (to : ℕ)
    → length ((add_trans n a from symbols to).1.transitions) ≡ length a.transitions
unfolding add_trans
length-add_trans n a from symbols to = elim (Bool-cases (any symbols)) [
  | inr e ↦ rw e refl
  | inl e ↦ rw e (length-after_search n a from symbols to (widen symbols to (row a from)))
]

accept-add_trans :
    (n : ℕ) (a : Automaton) (from : ℕ) (symbols : List Bool) (to : ℕ)
    → (add_trans n a from symbols to).1.accept ≡ a.accept
unfolding add_trans
accept-add_trans n a from symbols to = elim (Bool-cases (any symbols)) [
  | inr e ↦ rw e refl
  | inl e ↦ rw e (accept-after_search n a from symbols to (widen symbols to (row a from)))
]

copy_trans-steps :
    (n : ℕ) (changed : Bool) (a : Automaton) (from : ℕ) (ts : List Transition)
    → from < length a.transitions
    → (s symbol y : ℕ)
    → mem y (step ((copy_trans n changed a from ts).1) s symbol)
      ≡ (mem y (step a s symbol) || ((s == from) && mem y (step_row ts symbol)))
unfolding copy_trans
copy_trans-steps n changed a from [] h s symbol y = ground arith
copy_trans-steps n changed a from (t ∷ ts) h s symbol y =
    let r = add_trans n a from t.symbols t.next in
    let len = length-add_trans n a from t.symbols t.next in
    rw
      (
        copy_trans-steps n (changed || r.0) r.1 from ts (omega (arith, len)) s symbol y,
        step-add_trans n a from t.symbols t.next h s symbol y,
        mem-step_row y symbol t ts,
      )
      (ground arith)

accept-copy_trans :
    (n : ℕ) (changed : Bool) (a : Automaton) (from : ℕ) (ts : List Transition)
    → (copy_trans n changed a from ts).1.accept ≡ a.accept
unfolding copy_trans
accept-copy_trans n changed a from [] = refl
accept-copy_trans n changed a from (t ∷ ts) =
    let r = add_trans n a from t.symbols t.next in
    accept-copy_trans n (changed || r.0) r.1 from ts ∙ accept-add_trans n a from t.symbols t.next

accept_epsilon-transitions :
    (a : Automaton) (from to : ℕ) → (accept_epsilon a from to).1.transitions ≡ a.transitions
accept_epsilon-transitions a from to = elim (Bool-cases (bit a.accept to)) [
  | inl e ↦ rw e refl
  | inr e ↦ rw e refl
]

accept_epsilon-accept :
    (a : Automaton) (from to s : ℕ)
    → from < length a.accept
    → bit ((accept_epsilon a from to).1.accept) s
      ≡ (bit a.accept s || ((s == from) && bit a.accept to))
accept_epsilon-accept a from to s h = elim (Bool-cases (bit a.accept to)) [
  | inr e ↦ rw e (ground arith)
  | inl e ↦ elim (Bool-cases (s == from)) [
    | inl g ↦
        let p : s ≡ from = (==_iff s from).0 g in
        rw (e, g, p, get_or-set_self a.accept from true false h) (ground arith)
    | inr g ↦
        let other : from ≢ s = ground arith in
        rw (e, g, get_or-set_ne a.accept true false other) (ground arith)
  ]
]

-- For two states of the automaton, addEpsilon gives the first one the steps and the acceptance of
-- the second beside its own, and leaves the other states as they are.
pub step-add_epsilon :
    (n : ℕ) (a : Automaton) (from to : ℕ)
    → from < length a.transitions
    → from < length a.accept
    → ((s symbol y : ℕ)
        → mem y (step ((add_epsilon n a from to).1) s symbol)
          ≡ (mem y (step a s symbol) || ((s == from) && mem y (step a to symbol))))
      × ((s : ℕ)
          → bit ((add_epsilon n a from to).1.accept) s
            ≡ (bit a.accept s || ((s == from) && bit a.accept to)))
unfolding add_epsilon step
step-add_epsilon n a from to h k =
    let e = accept_epsilon a from to in
    let same = accept_epsilon-transitions a from to in
    let len : from < length (e.1.transitions) = omega (arith, ap length same) in
    (
      λ s symbol y.
          copy_trans-steps n e.0 e.1 from (row e.1 to) len s symbol y
          ∙ ap
              (λ ts.
                mem y (step_row (get_or ts s []) symbol)
                || ((s == from) && mem y (step_row (get_or ts to []) symbol)))
              same,
      λ s.
          ap (λ l. bit l s) (accept-copy_trans n e.0 e.1 from (row e.1 to))
          ∙ accept_epsilon-accept a from to s k,
    )

length-copy_trans :
    (n : ℕ) (changed : Bool) (a : Automaton) (from : ℕ) (ts : List Transition)
    → length (copy_trans n changed a from ts).1.transitions ≡ length a.transitions
unfolding copy_trans
length-copy_trans n changed a from [] = refl
length-copy_trans n changed a from (t ∷ ts) =
    let r = add_trans n a from t.symbols t.next in
    length-copy_trans n (changed || r.0) r.1 from ts ∙ length-add_trans n a from t.symbols t.next

pub length-add_epsilon :
    (n : ℕ) (a : Automaton) (from to : ℕ)
    → length (add_epsilon n a from to).1.transitions ≡ length a.transitions
unfolding add_epsilon
length-add_epsilon n a from to =
    let e = accept_epsilon a from to in
    length-copy_trans n e.0 e.1 from (row e.1 to) ∙ ap length (accept_epsilon-transitions a from to)

pub length-add_epsilon_accept :
    (n : ℕ) (a : Automaton) (from to : ℕ)
    → length (add_epsilon n a from to).1.accept ≡ length a.accept
unfolding add_epsilon
length-add_epsilon_accept n a from to =
    let e = accept_epsilon a from to in
    ap length (accept-copy_trans n e.0 e.1 from (row e.1 to))
    ∙ elim (Bool-cases (bit a.accept to)) [
      | inl g ↦ rw g (length-set a.accept from true)
      | inr g ↦ rw g refl
    ]
