-- ===== src/Automaton/Deterministic.antt =====
-- src/automaton.tcc: `isStateDeterministic`, which compares a count of symbols with a sum of
-- counts, and `stepDeterministic`.
use motion_planning_gadget_s.Common.{
  ℕ, zero, suc, ◌+◌, ◌≤◌, ◌<◌, ◌≡◌, refl, sym, ◌∙◌, ◌↔◌, inl, inr, Bool, true, false, ◌&&◌, ◌||◌,
  Option, none, some, List, [], ◌∷◌, arith, ==_iff, if◌then◌else◌, Bool-cases, length, replicate,
  word32, add32,
}
use motion_planning_gadget_s.Automaton.{
  bit, union_bits, count, Transition, Automaton, row, step_row, step, first_row, step_deterministic,
  overall, sum_counts, is_state_deterministic,
}
use motion_planning_gadget_s.Automaton.Bits.{bit-union_bits}

abbrev common_bits : List Bool → List Bool → List Bool
common_bits [] m = []
common_bits (x ∷ l) [] = []
common_bits (x ∷ l) (y ∷ m) = (x && y) ∷ common_bits l m

count-union_bits :
    (l m : List Bool) → count (union_bits l m) + count (common_bits l m) ≡ count l + count m
count-union_bits [] m = omega arith
count-union_bits (x ∷ l) [] = omega arith
count-union_bits (true ∷ l) (true ∷ m) = omega (arith, count-union_bits l m)
count-union_bits (true ∷ l) (false ∷ m) = omega (arith, count-union_bits l m)
count-union_bits (false ∷ l) (true ∷ m) = omega (arith, count-union_bits l m)
count-union_bits (false ∷ l) (false ∷ m) = omega (arith, count-union_bits l m)

common_bits-apart :
    (l m : List Bool) → count (common_bits l m) ≡ 0 → (b : ℕ) → (bit l b && bit m b) ≡ false
common_bits-apart [] m h b = refl
common_bits-apart (x ∷ l) [] h b = ground arith
common_bits-apart (true ∷ l) (true ∷ m) h b = absurd (omega arith)
common_bits-apart (true ∷ l) (false ∷ m) h zero = refl
common_bits-apart (false ∷ l) (y ∷ m) h zero = refl
common_bits-apart (true ∷ l) (false ∷ m) h (suc b) = common_bits-apart l m (omega arith) b
common_bits-apart (false ∷ l) (y ∷ m) h (suc b) = common_bits-apart l m (omega arith) b

apart-common_bits :
    (l m : List Bool) → ((b : ℕ) → (bit l b && bit m b) ≡ false) → count (common_bits l m) ≡ 0
apart-common_bits [] m h = refl
apart-common_bits (x ∷ l) [] h = refl
apart-common_bits (true ∷ l) (true ∷ m) h = absurd (ground (arith, h 0))
apart-common_bits (true ∷ l) (false ∷ m) h = omega (arith, apart-common_bits l m (λ b. h (suc b)))
apart-common_bits (false ∷ l) (y ∷ m) h = omega (arith, apart-common_bits l m (λ b. h (suc b)))

-- The number of transitions of a state.
abbrev pub total_count : List Transition → ℕ
total_count [] = 0
total_count (t ∷ ts) = count t.symbols + total_count ts

sum_counts_lem :
    (sum : ℕ) (ts : List Transition)
    → sum + total_count ts < word32
    → sum_counts sum ts ≡ sum + total_count ts
sum_counts_lem sum [] h = omega arith
sum_counts_lem sum (t ∷ ts) h =
    let e : add32 sum (count t.symbols) ≡ sum + count t.symbols = omega arith in
    rw (e, sum_counts_lem (sum + count t.symbols) ts (omega arith)) (omega arith)

overall-le :
    (mask : List Bool) (ts : List Transition)
    → count (overall mask ts) ≤ count mask + total_count ts
overall-le mask [] = omega arith
overall-le mask (t ∷ ts) =
    omega (arith, overall-le (union_bits mask t.symbols) ts, count-union_bits mask t.symbols)

-- At most one of the mask and the edges has the symbol.
abbrev Once : List Bool → List Transition → ℕ → Type 0
Once mask ts b = (if bit mask b then 1 else 0) + length (step_row ts b) ≤ 1

Once-bits :
    (x y : Bool) (next : ℕ) (l : List ℕ)
    → ((if x then 1 else 0) + length (if y then next ∷ l else l) ≤ 1)
      ↔ (((x && y) ≡ false) × ((if x || y then 1 else 0) + length l ≤ 1))
Once-bits true true next l = ((λ h. absurd (omega arith)), (λ h. absurd (ground arith)))
Once-bits true false next l = ((λ h. (refl, h)), (λ h. h.1))
Once-bits false true next l = ((λ h. (refl, omega arith)), (λ h. omega (arith, h.1)))
Once-bits false false next l = ((λ h. (refl, h)), (λ h. h.1))

Once-cons :
    (mask : List Bool) (t : Transition) (ts : List Transition) (b : ℕ)
    → Once mask (t ∷ ts) b
      ↔ (((bit mask b && bit t.symbols b) ≡ false) × Once (union_bits mask t.symbols) ts b)
Once-cons mask t ts b =
    rw (bit-union_bits mask t.symbols b)
      (Once-bits (bit mask b) (bit t.symbols b) t.next (step_row ts b))

overall-Once :
    (mask : List Bool) (ts : List Transition)
    → count (overall mask ts) ≡ count mask + total_count ts
    → (b : ℕ) → Once mask ts b
overall-Once mask [] h b = ground arith
overall-Once mask (t ∷ ts) h b =
    let u = union_bits mask t.symbols in
    let c = count-union_bits mask t.symbols in
    let l = overall-le u ts in
    (Once-cons mask t ts b).1 (
      common_bits-apart mask t.symbols (omega (arith, c, l, h)) b,
      overall-Once u ts (omega (arith, c, l, h)) b,
    )

Once-overall :
    (mask : List Bool) (ts : List Transition)
    → ((b : ℕ) → Once mask ts b)
    → count (overall mask ts) ≡ count mask + total_count ts
Once-overall mask [] h = omega arith
Once-overall mask (t ∷ ts) h =
    let c = count-union_bits mask t.symbols in
    let z = apart-common_bits mask t.symbols (λ b. ((Once-cons mask t ts b).0 (h b)).0) in
    let i =
      Once-overall (union_bits mask t.symbols) ts (λ b. ((Once-cons mask t ts b).0 (h b)).1) in
    omega (arith, c, z, i)

count-zeros : (n : ℕ) → count (replicate n false) ≡ 0
count-zeros zero = refl
count-zeros (suc n) = omega (arith, count-zeros n)

bit-zeros : (n b : ℕ) → bit (replicate n false) b ≡ false
bit-zeros zero b = refl
bit-zeros (suc n) zero = refl
bit-zeros (suc n) (suc b) = bit-zeros n b

-- As long as the sum of the counts does not wrap, isStateDeterministic is true exactly when every
-- symbol has at most one step from the state.
pub is_state_deterministic_lem :
    (n : ℕ) (ts : List Transition)
    → total_count ts < word32
    → (is_state_deterministic n ts ≡ true) ↔ ((b : ℕ) → length (step_row ts b) ≤ 1)
unfolding is_state_deterministic
is_state_deterministic_lem n ts h =
    let s = sum_counts_lem 0 ts (omega arith) in
    let z = count-zeros n in
    let iff = ==_iff (count (overall (replicate n false) ts)) (sum_counts 0 ts) in
    (
      (λ e b.
          let o = overall-Once (replicate n false) ts (iff.0 e ∙ s ∙ omega (arith, z)) b in
          ground (arith, o, bit-zeros n b)),
      (λ f. iff.1 (
          Once-overall (replicate n false) ts (λ b. rw (bit-zeros n b) (omega (arith, f b)))
          ∙ omega (arith, z)
          ∙ sym s)),
    )

abbrev pub head : List ℕ → Option ℕ
head [] = none
head (x ∷ l) = some x

first_row_lem : (ts : List Transition) (b : ℕ) → first_row ts b ≡ head (step_row ts b)
first_row_lem [] b = refl
first_row_lem (t ∷ ts) b = elim (Bool-cases (bit t.symbols b)) [
  | inl e ↦ rw e refl
  | inr e ↦ rw e (first_row_lem ts b)
]

-- stepDeterministic returns the first of the states that step returns, and nothing if there is none.
pub step_deterministic_lem :
    (a : Automaton) (current symbol : ℕ)
    → step_deterministic a current symbol ≡ head (step a current symbol)
unfolding step_deterministic step
step_deterministic_lem a current symbol = first_row_lem (row a current) symbol
