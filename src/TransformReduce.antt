-- ===== src/TransformReduce.antt =====
-- src/transform_reduce.hpp: `transform_reduce` of two tasks or more, as the steps of its threads.
pub mod Tree
pub mod Phases
pub mod Publish
pub mod Merge
pub mod Dispense
pub mod Result
pub mod Ends
pub mod Any
use motion_planning_gadget_s.Common.{
  ℕ, zero, suc, ◌+◌, ◌-◌, ◌*◌, ◌/◌, ◌%◌, Option, none, some, List, [], ◌∷◌, ◌==◌, ltb,
  if◌then◌else◌,
}

-- A write to an array, which is a function of the index
abbrev pub put_at {ℓ} : {A : Type ℓ} → (ℕ → A) → ℕ → A → ℕ → A
put_at a i x j = if j == i then x else a j

-- `pubs` has pointers into `results`, as indices. A thread is outside the do loop, or in it with the
-- index of its result and its tree_node.
pub record ThreadState (R : Type 0) : Type 0 where
  pub results : ℕ → R
  pub pubs : ℕ → Option ℕ
  pub threads : ℕ → Option (ℕ × ℕ)
  pub dispenser : ℕ

abbrev pub parent : ℕ → ℕ
parent tree_node = (tree_node - 1) / 2

abbrev pub sibling : ℕ → ℕ
sibling tree_node = if tree_node % 2 == 1 then tree_node + 1 else tree_node - 1

-- `transformer` of the task of each index, `reducer`, and `size`, which is `pubs.size()`
module _ {R : Type 0} (transformer : ℕ → R) (reducer : R → R → R) (size : ℕ) where
  abbrev pub reduced : ThreadState R → ℕ → ℕ → ℕ → R
  reduced s index tree_node old =
      if ltb tree_node (sibling tree_node)
      then reducer (s.results index) (s.results old)
      else reducer (s.results old) (s.results index)

  -- A round of the do loop, from what the compare_exchange finds. It is one step: no other thread
  -- changes what it reads between its compare_exchange and its store.
  unfoldable pub climb : ThreadState R → ℕ → ℕ → ℕ → Option ℕ → ThreadState R
  climb s i index tree_node none = record s {
    pubs = put_at s.pubs (parent tree_node) (some index);
    threads = put_at s.threads i none;
  }
  climb s i index tree_node (some old) = record s {
    results = put_at s.results index (reduced s index tree_node old);
    pubs = put_at s.pubs (parent tree_node) (some index);
    threads =
        put_at s.threads i (if parent tree_node == 0 then none else some (index, parent tree_node));
  }

  -- The head of the for loop: there is one task more than `size`.
  unfoldable pub dispense : ThreadState R → ℕ → ThreadState R
  dispense s i =
      if ltb s.dispenser (suc size)
      then record {
        results = put_at s.results s.dispenser (transformer s.dispenser);
        pubs = s.pubs;
        threads = put_at s.threads i (some (s.dispenser, s.dispenser + size));
        dispenser = suc s.dispenser;
      }
      else record s { dispenser = suc s.dispenser }

  unfoldable pub turn_from : ThreadState R → ℕ → Option (ℕ × ℕ) → ThreadState R
  unfolding dispense climb
  turn_from s i none = dispense s i
  turn_from s i (some c) = climb s i c.0 c.1 (s.pubs (parent c.1))

  abbrev pub take_turn : ThreadState R → ℕ → ThreadState R
  take_turn s i = turn_from s i (s.threads i)

  -- Any interleaving is a list of the threads that take a step.
  unfoldable pub take_turns : ThreadState R → List ℕ → ThreadState R
  unfolding turn_from
  take_turns s [] = s
  take_turns s (i ∷ schedule) = take_turns (take_turn s i) schedule

  abbrev pub initial_state : R → ThreadState R
  initial_state empty = record {
    results = λ index. empty;
    pubs = λ node. none;
    threads = λ i. none;
    dispenser = 0;
  }

-- What the caller reads at the end
abbrev pub result_at {ℓ} : {R : Type ℓ} → (ℕ → R) → Option ℕ → Option R
result_at results none = none
result_at results (some index) = some (results index)
