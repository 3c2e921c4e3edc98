-- ===== src/Automaton/Rows.antt =====
-- src/automaton.tcc: the edges of one state before and after `addTrans`.
use motion_planning_gadget_s.Common.{
  ℕ, ◌≡◌, ◌∙◌, inl, inr, Bool, true, ◌&&◌, ◌||◌, List, [], ◌∷◌, ◌++◌, arith, ◌==◌, ==_iff,
  Bool-cases,
}
use motion_planning_gadget_s.Automaton.{
  bit, union_bits, same_bits, Transition, step_row, EdgeSearch, present, absent, widened, behind,
  widen,
}
use motion_planning_gadget_s.Automaton.Bits.{mem, bit-union_bits, same_bits-eq}

-- What the search for an edge found, by the steps from the state.
abbrev pub Found : List Bool → ℕ → List Transition → EdgeSearch → Type 0
Found symbols to ts absent = Unit
Found symbols to ts present = (b : ℕ) → bit symbols b ≡ true → mem to (step_row ts b) ≡ true
Found symbols to ts (widened us) =
    (b y : ℕ) → mem y (step_row us b) ≡ (mem y (step_row ts b) || ((y == to) && bit symbols b))

pub mem-step_row :
    (y b : ℕ) (t : Transition) (ts : List Transition)
    → mem y (step_row (t ∷ ts) b) ≡ (((y == t.next) && bit t.symbols b) || mem y (step_row ts b))
mem-step_row y b t ts = elim (Bool-cases (bit t.symbols b)) [
  | inl e ↦ rw e (ground arith)
  | inr e ↦ rw e (ground arith)
]

pub mem-step_row_append :
    (y b : ℕ) (ts : List Transition) (t : Transition)
    → mem y (step_row (ts ++ (t ∷ [])) b)
      ≡ (mem y (step_row ts b) || ((y == t.next) && bit t.symbols b))
mem-step_row_append y b [] t = mem-step_row y b t [] ∙ ground arith
mem-step_row_append y b (u ∷ ts) t =
    rw (mem-step_row y b u (ts ++ (t ∷ [])), mem-step_row y b u ts, mem-step_row_append y b ts t)
      (ground arith)

pub behind-Found :
    (symbols : List Bool) (to : ℕ) (t : Transition) (ts : List Transition) (s : EdgeSearch)
    → Found symbols to ts s
    → Found symbols to (t ∷ ts) (behind t s)
behind-Found symbols to t ts absent f = tt
behind-Found symbols to t ts present f = λ b h. rw (mem-step_row to b t ts, f b h) (ground arith)
behind-Found symbols to t ts (widened us) f =
    λ b y. rw (mem-step_row y b t us, mem-step_row y b t ts, f b y) (ground arith)

kept :
    (to next : ℕ) (both old more rest : Bool)
    → next ≡ to
    → both ≡ old
    → both ≡ (old || more)
    → more ≡ true
    → (((to == next) && old) || rest) ≡ true
kept to next both old more rest e p q h = ground arith

grown :
    (to next y : ℕ) (old more rest : Bool)
    → next ≡ to
    → (((y == next) && (old || more)) || rest)
      ≡ ((((y == next) && old) || rest) || ((y == to) && more))
grown to next y old more rest e = ground arith

pub widen-Found :
    (symbols : List Bool) (to : ℕ) (ts : List Transition)
    → Found symbols to ts (widen symbols to ts)
widen-Found symbols to [] = tt
widen-Found symbols to (t ∷ ts) =
    let both = union_bits t.symbols symbols in
    elim (Bool-cases (t.next == to)) [
      | inr e ↦
          rw e (behind-Found symbols to t ts (widen symbols to ts) (widen-Found symbols to ts))
      | inl e ↦ elim (Bool-cases (same_bits both t.symbols)) [
        | inl g ↦
            rw (e, g)
              (λ b h.
                let p = same_bits-eq both t.symbols b g in
                let q = bit-union_bits t.symbols symbols b in
                mem-step_row to b t ts
                ∙ kept to t.next (bit both b) (bit t.symbols b) (bit symbols b)
                    (mem to (step_row ts b)) ((==_iff t.next to).0 e) p q h)
        | inr g ↦
            rw (e, g)
              (λ b y.
                let q = bit-union_bits t.symbols symbols b in
                rw
                  (
                    mem-step_row y b (record { next = t.next; symbols = both }) ts,
                    mem-step_row y b t ts,
                    q,
                  )
                  (grown to t.next y (bit t.symbols b) (bit symbols b) (mem y (step_row ts b))
                    ((==_iff t.next to).0 e)))
      ]
    ]
