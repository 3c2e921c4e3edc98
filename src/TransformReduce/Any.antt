-- ===== src/TransformReduce/Any.antt =====
-- src/transform_reduce.hpp: the implicit tree of `||` asks every task.
use motion_planning_gadget_s.Common.{
  ℕ, zero, suc, ◌+◌, ◌-◌, ◌*◌, ◌≤◌, ◌<◌, ◌≡◌, ◌∙◌, inl, inr, Bool, true, ◌||◌, ltb, Bool-cases,
  arith, if◌then◌else◌,
}
use motion_planning_gadget_s.TransformReduce.{parent, sibling}
use motion_planning_gadget_s.TransformReduce.Tree.{tree, tree_on, tree-leaf, tree-parent}

abbrev pub either : Bool → Bool → Bool
either a b = a || b

module _ (told : ℕ → Bool) (size : ℕ) where
  -- A task that answers makes every node above it answer.
  answers_above :
      (fuel v : ℕ)
      → v ≤ fuel
      → v ≤ 2 * size
      → tree told either size v ≡ true
      → tree told either size 0 ≡ true
  answers_above fuel zero h k e = e
  answers_above zero (suc v) h k e = absurd (omega (arith, h))
  answers_above (suc fuel) (suc v) h k e =
      let p = tree-parent told either size (suc v) (omega arith) (omega (arith, k)) in
      let up : tree told either size (parent (suc v)) ≡ true =
        p
        ∙ rw e (
            either_way (ltb (suc v) (sibling (suc v))) (tree told either size (sibling (suc v)))) in
      answers_above fuel (parent (suc v)) (omega (arith, h)) (omega (arith, k)) up
    where
      either_way : (first b : Bool) → (if first then true || b else b || true) ≡ true
      either_way first b = ground arith

  answer_below :
      (fuel v : ℕ)
      → v ≤ 2 * size
      → size ≤ fuel + v
      → tree_on told either size fuel v ≡ true
      → (index : ℕ) × (index ≤ size) × (told index ≡ true)
  unfolding tree_on
  answer_below zero v h k e = (v - size, omega (arith, h), e)
  answer_below (suc fuel) v h k e = elim (Bool-cases (ltb v size)) [
    | inl l ↦
        let lt : v < size = ground (arith, l) in
        let b = rw l at e in
        elim (Bool-cases (tree_on told either size fuel (2 * v + 1))) [
          | inl x ↦ answer_below fuel (2 * v + 1) (omega (arith, lt)) (omega (arith, k)) x
          | inr x ↦ answer_below fuel (2 * v + 2) (omega (arith, lt)) (omega (arith, k)) (rw x at b)
        ]
    | inr l ↦ (v - size, omega (arith, h), rw l at e)
  ]

  -- The tree answers if and only if a task does.
  pub tree-any :
      ((index : ℕ) → index ≤ size → told index ≡ true → tree told either size 0 ≡ true)
      × (tree told either size 0 ≡ true → (index : ℕ) × (index ≤ size) × (told index ≡ true))
  unfolding tree
  tree-any = (
    λ index h e.
        answers_above (index + size) (index + size) (omega arith) (omega (arith, h))
          (tree-leaf told either size index ∙ e),
    λ e. answer_below size 0 (omega arith) (omega arith) e,
  )
