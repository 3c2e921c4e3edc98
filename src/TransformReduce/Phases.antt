-- ===== src/TransformReduce/Phases.antt =====
-- src/transform_reduce.hpp: the invariant of the threads.
use motion_planning_gadget_s.Common.{
  ℕ, ◌+◌, ◌*◌, ◌≤◌, ◌<◌, ◌≡◌, ◌≢◌, ◌⊎◌, refl, ap, subst, ◌∙◌, inl, inr, true, false, Option, none,
  some, ◌==◌, ==_iff, Bool-cases, arith,
}
use motion_planning_gadget_s.TransformReduce.{put_at, ThreadState, parent, sibling}
use motion_planning_gadget_s.TransformReduce.Tree.{tree}

abbrev IsNone {ℓ} : {A : Type ℓ} → Option A → Type 0
IsNone none = Unit
IsNone (some a) = ⊥

pub none-ne_some {ℓ} : {A : Type ℓ} (a : A) → none ≡ some a → ⊥
none-ne_some a e = subst IsNone e tt

abbrev or_else {ℓ} : {A : Type ℓ} → A → Option A → A
or_else a none = a
or_else a (some b) = b

pub some-eq {ℓ} : {A : Type ℓ} {a b : A} → some a ≡ some b → a ≡ b
some-eq {a = a} e = ap (or_else a) e

pub put_at-same {ℓ} : {A : Type ℓ} (a : ℕ → A) (i : ℕ) (x : A) → put_at a i x i ≡ x
put_at-same a i x = let k : (i == i) ≡ true = ground arith in rw k refl

pub put_at-other {ℓ} : {A : Type ℓ} (a : ℕ → A) (i j : ℕ) (x : A) → j ≢ i → put_at a i x j ≡ a j
put_at-other a i j x n = let k : (j == i) ≡ false = ground (arith, n) in rw k refl

-- A thread after one of them changed
pub put_at-cases {ℓ} :
    {A : Type ℓ} (a : ℕ → A) (i j : ℕ) (x y : A)
    → put_at a i x j ≡ y
    → ((j ≡ i) × (x ≡ y)) ⊎ ((j ≢ i) × (a j ≡ y))
put_at-cases a i j x y e = elim (Bool-cases (j == i)) [
  | inl k ↦ inl ((==_iff j i).0 k, rw k at e)
  | inr k ↦ inr (λ s. ground (arith, k, s), rw k at e)
]

module _ {R : Type 0} (transformer : ℕ → R) (reducer : R → R → R) (size : ℕ) where
  -- A thread that stands at a node with the result of an index
  pub record Standing (s : ThreadState R) (phase : ℕ → ℕ) (index node : ℕ) : Type 0 where
    pub positive : 0 < node
    pub inside : node ≤ 2 * size
    pub here : phase node ≡ 1
    pub value : s.results index ≡ tree transformer reducer size node
    pub dispensed : index < s.dispenser

  -- A pointer to a result that no thread changes any more
  pub record Published (s : ThreadState R) (node : ℕ) (x : R) : Type 0 where
    pub index : ℕ
    pub pointer : s.pubs node ≡ some index
    pub value : s.results index ≡ x
    pub dispensed : index < s.dispenser
    pub released : (i w : ℕ) → s.threads i ≡ some (index, w) → ⊥

  -- `phase` is 0 for a node that no thread has come to, 1 for a node with a thread at it, and 2 for a
  -- node that its thread has left upwards.
  pub record Inv (s : ThreadState R) : Type 0 where
    pub phase : ℕ → ℕ
    pub small : (v : ℕ) → phase v ≤ 2
    pub started : (v : ℕ) → size ≤ v → v < s.dispenser + size → v ≤ 2 * size → phase v ≢ 0
    pub waiting : (v : ℕ) → s.dispenser + size ≤ v → phase v ≡ 0
    pub standing : (i index v : ℕ) → s.threads i ≡ some (index, v) → Standing s phase index v
    pub apart :
        (i j index other v w : ℕ)
        → s.threads i ≡ some (index, v)
        → s.threads j ≡ some (other, w)
        → (index ≡ other) ⊎ (v ≡ w)
        → i ≡ j
    pub held :
        (v : ℕ) → 0 < v → phase v ≡ 1 → (i : ℕ) × (index : ℕ) × (s.threads i ≡ some (index, v))
    pub half :
        (v : ℕ)
        → 0 < v
        → v ≤ 2 * size
        → phase v ≡ 2
        → phase (sibling v) ≢ 2
        → Published s (parent v) (tree transformer reducer size v)
    pub empty :
        (v : ℕ)
        → 0 < v
        → v ≤ 2 * size
        → phase v ≢ 2
        → phase (sibling v) ≢ 2
        → s.pubs (parent v) ≡ none
    pub above : (v : ℕ) → 0 < v → v ≤ 2 * size → phase v ≢ 2 → phase (parent v) ≡ 0
    pub both :
        (v : ℕ) → 0 < v → v ≤ 2 * size → phase v ≡ 2 → phase (sibling v) ≡ 2 → phase (parent v) ≢ 0
    pub root : phase 1 ≡ 2 → phase 2 ≡ 2 → Published s 0 (tree transformer reducer size 0)

  -- A published result stays so in a state that leaves it alone.
  pub Published-frame :
      (s t : ThreadState R) (node : ℕ) (x : R)
      → (p : Published s node x) → t.pubs node ≡ s.pubs node
      → t.results p.index ≡ s.results p.index
      → s.dispenser ≤ t.dispenser
      → ((i w : ℕ) → t.threads i ≡ some (p.index, w) → ⊥)
      → Published t node x
  Published-frame s t node x p e f h r = record {
    index = p.index;
    pointer = e ∙ p.pointer;
    value = f ∙ p.value;
    dispensed = omega (arith, p.dispensed, h);
    released = r;
  }
