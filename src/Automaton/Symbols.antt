-- ===== src/Automaton/Symbols.antt =====
-- src/automaton.tcc: `addTrans` with one symbol.
use motion_planning_gadget_s.Common.{
  ℕ, zero, suc, ◌<◌, ◌≡◌, refl, sym, ◌∙◌, inl, inr, Bool, true, false, ◌&&◌, ◌||◌, List, [], ◌∷◌,
  ◌++◌, arith, ◌==◌, ==_iff, Bool-cases, length, All, set, replicate, length-set, length-replicate,
  get_or-set_self, get_or-set_ne,
}
use motion_planning_gadget_s.Automaton.{
  bit, Transition, Automaton, row, step, EdgeSearch, present, absent, widened, behind, one_bit,
  widen_symbol, put_row, after_search, add_symbol,
}
use motion_planning_gadget_s.Automaton.Bits.{mem}
use motion_planning_gadget_s.Automaton.Rows.{Found, mem-step_row, behind-Found}
use motion_planning_gadget_s.Automaton.Build.{
  after_search-Adds, length-after_search, accept-after_search, row-put_row_self,
}

-- Every mask of the edges has `n` bits.
abbrev pub Masks : ℕ → List Transition → Type 0
Masks n ts = All (λ t. length t.symbols ≡ n) ts

bit-set :
    (bits : List Bool) (i j : ℕ)
    → i < length bits
    → bit (set bits i true) j ≡ (bit bits j || (j == i))
bit-set bits i j h = elim (Bool-cases (j == i)) [
  | inl e ↦
      let same : j ≡ i = (==_iff j i).0 e in
      rw (e, same, get_or-set_self bits i true false h) (ground arith)
  | inr e ↦ rw (e, get_or-set_ne bits {i = i} {j = j} true false (ground arith)) (ground arith)
]

bit-zeros : (n j : ℕ) → bit (replicate n false) j ≡ false
bit-zeros zero j = refl
bit-zeros (suc n) zero = refl
bit-zeros (suc n) (suc j) = bit-zeros n j

pub bit-one_bit : (n i j : ℕ) → i < n → bit (one_bit n i) j ≡ (j == i)
bit-one_bit n i j h =
    let l = length-replicate n false in
    bit-set (replicate n false) i j (omega (arith, l)) ∙ rw (bit-zeros n j) refl

widen_symbol-Found :
    (n symbol to : ℕ) (ts : List Transition)
    → symbol < n
    → Masks n ts
    → Found (one_bit n symbol) to ts (widen_symbol symbol to ts)
widen_symbol-Found n symbol to [] h m = tt
widen_symbol-Found n symbol to (t ∷ ts) h m = elim (Bool-cases (t.next == to)) [
  | inr e ↦ rw e (
      behind-Found (one_bit n symbol) to t ts (widen_symbol symbol to ts)
        (widen_symbol-Found n symbol to ts h m.1))
  | inl e ↦ elim (Bool-cases (bit t.symbols symbol)) [
    | inl g ↦
        rw (e, g)
          (λ b k.
            let same : b ≡ symbol = (==_iff b symbol).0 (sym (bit-one_bit n symbol b h) ∙ k) in
            let to_next : t.next ≡ to = (==_iff t.next to).0 e in
            mem-step_row to b t ts ∙ rw (same, g) (ground arith))
    | inr g ↦
        rw (e, g)
          (λ b y.
            let to_next : t.next ≡ to = (==_iff t.next to).0 e in
            let wider : Transition = record {
              next = t.next;
              symbols = set t.symbols symbol true;
            } in
            mem-step_row y b wider ts
            ∙ rw
                (
                  bit-set t.symbols symbol b (omega (arith, m.0)),
                  bit-one_bit n symbol b h,
                  mem-step_row y b t ts,
                )
                (ground arith))
  ]
]

-- For a state of the automaton and a symbol of the alphabet, addTrans adds exactly the step from
-- the state on the symbol to the other state, if the masks of the state's edges have their size.
pub step-add_symbol :
    (n : ℕ) (a : Automaton) (from symbol to : ℕ)
    → from < length a.transitions
    → symbol < n
    → Masks n (row a from)
    → (s c y : ℕ)
    → mem y (step (add_symbol n a from symbol to).1 s c)
      ≡ (mem y (step a s c) || ((s == from) && ((y == to) && (c == symbol))))
unfolding add_symbol
step-add_symbol n a from symbol to h l m s c y =
    after_search-Adds n a from (one_bit n symbol) to (widen_symbol symbol to (row a from)) h
      (widen_symbol-Found n symbol to (row a from) l m) s c y
    ∙ rw (bit-one_bit n symbol c l) refl

pub length-add_symbol :
    (n : ℕ) (a : Automaton) (from symbol to : ℕ)
    → length (add_symbol n a from symbol to).1.transitions ≡ length a.transitions
unfolding add_symbol
length-add_symbol n a from symbol to =
    length-after_search n a from (one_bit n symbol) to (widen_symbol symbol to (row a from))

pub accept-add_symbol :
    (n : ℕ) (a : Automaton) (from symbol to : ℕ)
    → (add_symbol n a from symbol to).1.accept ≡ a.accept
unfolding add_symbol
accept-add_symbol n a from symbol to =
    accept-after_search n a from (one_bit n symbol) to (widen_symbol symbol to (row a from))

abbrev FoundMasks : ℕ → EdgeSearch → Type 0
FoundMasks n present = Unit
FoundMasks n absent = Unit
FoundMasks n (widened us) = Masks n us

behind-FoundMasks :
    (n : ℕ) (t : Transition) (s : EdgeSearch)
    → length t.symbols ≡ n
    → FoundMasks n s
    → FoundMasks n (behind t s)
behind-FoundMasks n t present l f = tt
behind-FoundMasks n t absent l f = tt
behind-FoundMasks n t (widened us) l f = (l, f)

widen_symbol-FoundMasks :
    (n symbol to : ℕ) (ts : List Transition) → Masks n ts → FoundMasks n (widen_symbol symbol to ts)
widen_symbol-FoundMasks n symbol to [] m = tt
widen_symbol-FoundMasks n symbol to (t ∷ ts) m = elim (Bool-cases (t.next == to)) [
  | inr e ↦ rw e (
      behind-FoundMasks n t (widen_symbol symbol to ts) m.0
        (widen_symbol-FoundMasks n symbol to ts m.1))
  | inl e ↦ elim (Bool-cases (bit t.symbols symbol)) [
    | inl g ↦ rw (e, g) tt
    | inr g ↦ rw (e, g) (length-set t.symbols symbol true ∙ m.0, m.1)
  ]
]

Masks-append : (n : ℕ) (ts us : List Transition) → Masks n ts → Masks n us → Masks n (ts ++ us)
Masks-append n [] us m k = k
Masks-append n (t ∷ ts) us m k = (m.0, Masks-append n ts us m.1 k)

after_search-Masks :
    (n : ℕ) (a : Automaton) (from symbol to : ℕ) (s : EdgeSearch)
    → from < length a.transitions
    → Masks n (row a from)
    → FoundMasks n s
    → Masks n (row (after_search n a from (one_bit n symbol) to s).1 from)
unfolding put_row
after_search-Masks n a from symbol to present h m f = m
after_search-Masks n a from symbol to (widened us) h m f = rw (row-put_row_self n a from us h) f
after_search-Masks n a from symbol to absent h m f =
    let t : Transition = record { next = to; symbols = one_bit n symbol } in
    let l = length-set (replicate n false) symbol true ∙ length-replicate n false in
    rw (row-put_row_self n a from (row a from ++ (t ∷ [])) h)
      (Masks-append n (row a from) (t ∷ []) m (l, tt))

pub add_symbol-Masks :
    (n : ℕ) (a : Automaton) (from symbol to : ℕ)
    → from < length a.transitions
    → Masks n (row a from)
    → Masks n (row (add_symbol n a from symbol to).1 from)
unfolding add_symbol
add_symbol-Masks n a from symbol to h m =
    after_search-Masks n a from symbol to (widen_symbol symbol to (row a from)) h m
      (widen_symbol-FoundMasks n symbol to (row a from) m)
