-- ===== src/Automaton/Bits.antt =====
-- src/bitset.hpp: the bits of unions, as the automata use them.
use motion_planning_gadget_s.Common.{
  ℕ, zero, suc, ◌≡◌, refl, Bool, true, false, ◌||◌, List, [], ◌∷◌, arith, ◌==◌,
}
use motion_planning_gadget_s.Automaton.{bit, union_bits, same_bits, any}

-- `x` is in the set `l`.
abbrev pub mem : ℕ → List ℕ → Bool
mem x [] = false
mem x (y ∷ l) = (x == y) || mem x l

pub bit-union_bits : (l m : List Bool) (i : ℕ) → bit (union_bits l m) i ≡ (bit l i || bit m i)
bit-union_bits [] m i = refl
bit-union_bits (true ∷ l) [] zero = refl
bit-union_bits (false ∷ l) [] zero = refl
bit-union_bits (x ∷ l) [] (suc i) = ground arith
bit-union_bits (x ∷ l) (y ∷ m) zero = refl
bit-union_bits (x ∷ l) (y ∷ m) (suc i) = bit-union_bits l m i

pub same_bits-eq : (l m : List Bool) (i : ℕ) → same_bits l m ≡ true → bit l i ≡ bit m i
same_bits-eq [] [] i h = refl
same_bits-eq [] (y ∷ m) i h = ground arith
same_bits-eq (x ∷ l) [] i h = ground arith
same_bits-eq (x ∷ l) (y ∷ m) zero h = ground arith
same_bits-eq (x ∷ l) (y ∷ m) (suc i) h = same_bits-eq l m i (ground arith)

pub any-bit : (l : List Bool) (i : ℕ) → any l ≡ false → bit l i ≡ false
any-bit [] i h = refl
any-bit (x ∷ l) zero h = ground arith
any-bit (x ∷ l) (suc i) h = any-bit l i (ground arith)
