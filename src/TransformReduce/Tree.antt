-- ===== src/TransformReduce/Tree.antt =====
-- src/transform_reduce.hpp: the value that the implicit tree gives each node, and the tree's indices.
use motion_planning_gadget_s.Common.{
  ℕ, zero, suc, ◌+◌, ◌-◌, ◌*◌, ◌%◌, ◌≤◌, ◌<◌, ◌≡◌, ◌≢◌, ◌⊎◌, refl, ap, ◌∙◌, inl, inr, true, false,
  ◌==◌, ltb, if◌then◌else◌, Bool-cases, arith,
}
use motion_planning_gadget_s.TransformReduce.{parent, sibling}

module _ {R : Type 0} (transformer : ℕ → R) (reducer : R → R → R) (size : ℕ) where
  -- A leaf has its task's result, and an inner node the reduction of its left and its right child.
  unfoldable pub tree_on : ℕ → ℕ → R
  tree_on zero node = transformer (node - size)
  tree_on (suc fuel) node =
      let both = reducer (tree_on fuel (2 * node + 1)) (tree_on fuel (2 * node + 2)) in
      if ltb node size then both else transformer (node - size)

  tree_on-enough :
      (fuel more node : ℕ)
      → size ≤ fuel + node
      → size ≤ more + node
      → tree_on fuel node ≡ tree_on more node
  unfolding tree_on
  tree_on-enough zero zero node h k = refl
  tree_on-enough zero (suc more) node h k =
      let leaf : ltb node size ≡ false = ground (arith, h) in rw leaf refl
  tree_on-enough (suc fuel) zero node h k =
      let leaf : ltb node size ≡ false = ground (arith, k) in rw leaf refl
  tree_on-enough (suc fuel) (suc more) node h k = elim (Bool-cases (ltb node size)) [
    | inl e ↦
        let left = tree_on-enough fuel more (2 * node + 1) (omega (arith, h)) (omega (arith, k)) in
        let right = tree_on-enough fuel more (2 * node + 2) (omega (arith, h)) (omega (arith, k)) in
        rw (e, left, right) refl
    | inr e ↦ rw e refl
  ]

  unfoldable pub tree : ℕ → R
  unfolding tree_on
  tree node = tree_on size node

  pub tree-leaf : (index : ℕ) → tree (index + size) ≡ transformer index
  unfolding tree
  tree-leaf index =
      tree_on-enough size zero (index + size) (omega arith) (omega arith)
      ∙ ap transformer (omega arith)

  pub tree-inner :
      (node : ℕ) → node < size → tree node ≡ reducer (tree (2 * node + 1)) (tree (2 * node + 2))
  unfolding tree
  tree-inner node h =
      let inner : ltb node size ≡ true = ground (arith, h) in
      tree_on-enough size (suc size) node (omega arith) (omega arith) ∙ rw inner refl

  -- Either child's round reduces to the parent's value.
  pub tree-parent :
      (node : ℕ)
      → 0 < node
      → parent node < size
      → tree (parent node) ≡ (
          if ltb node (sibling node)
          then reducer (tree node) (tree (sibling node))
          else reducer (tree (sibling node)) (tree node))
  tree-parent node h k = elim (Bool-cases (node % 2 == 1)) [
    | inl e ↦
        let l : 2 * parent node + 1 ≡ node = ground (arith, h, e) in
        let r : 2 * parent node + 2 ≡ node + 1 = ground (arith, h, e) in
        let first : ltb node (node + 1) ≡ true = ground arith in
        tree-inner (parent node) k
        ∙ rw (e, first)
            (ap (λ x. reducer (tree x) (tree (2 * parent node + 2))) l
              ∙ ap (λ x. reducer (tree node) (tree x)) r)
    | inr e ↦
        let l : 2 * parent node + 1 ≡ node - 1 = ground (arith, h, e) in
        let r : 2 * parent node + 2 ≡ node = ground (arith, h, e) in
        let second : ltb node (node - 1) ≡ false = ground arith in
        tree-inner (parent node) k
        ∙ rw (e, second)
            (ap (λ x. reducer (tree x) (tree (2 * parent node + 2))) l
              ∙ ap (λ x. reducer (tree (node - 1)) (tree x)) r)
  ]

pub sibling-sibling : (v : ℕ) → 0 < v → sibling (sibling v) ≡ v
sibling-sibling v h = ground (arith, h)

pub parent-sibling : (v : ℕ) → 0 < v → parent (sibling v) ≡ parent v
parent-sibling v h = ground (arith, h)

pub sibling-ne : (v : ℕ) → 0 < v → sibling v ≢ v
sibling-ne v h = λ e. ground (arith, h, e)

pub sibling-positive : (v : ℕ) → 0 < v → 0 < sibling v
sibling-positive v h = ground (arith, h)

pub sibling-le : (v n : ℕ) → 0 < v → v ≤ 2 * n → sibling v ≤ 2 * n
sibling-le v n h k = ground (arith, h, k)

-- Two nodes of one parent are equal or siblings.
pub parent-siblings : (v w : ℕ) → 0 < v → 0 < w → parent w ≡ parent v → (w ≡ v) ⊎ (w ≡ sibling v)
parent-siblings v w h k e = elim (Bool-cases (w == v)) [
  | inl f ↦ inl (ground (arith, f))
  | inr f ↦ inr (ground (arith, h, k, e, f))
]
