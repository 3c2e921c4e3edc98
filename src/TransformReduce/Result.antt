-- ===== src/TransformReduce/Result.antt =====
-- src/transform_reduce.hpp: the result does not depend on the interleaving of the threads.
use motion_planning_gadget_s.Common.{
  ℕ, zero, suc, ◌+◌, ◌*◌, ◌≤◌, ◌<◌, ◌≡◌, ◌≢◌, refl, sym, ap, subst, ◌∙◌, inl, inr, none, some, List,
  [], ◌∷◌, ltb, Bool-cases, Option-cases, arith, ℕ_discrete,
}
use motion_planning_gadget_s.TransformReduce.{
  ThreadState, parent, sibling, climb, dispense, turn_from, take_turn, take_turns, initial_state,
  result_at,
}
use motion_planning_gadget_s.TransformReduce.Tree.{tree}
use motion_planning_gadget_s.TransformReduce.Phases.{none-ne_some, Inv}
use motion_planning_gadget_s.TransformReduce.Publish.{Inv-publish}
use motion_planning_gadget_s.TransformReduce.Merge.{Inv-merge}
use motion_planning_gadget_s.TransformReduce.Dispense.{Inv-taken, Inv-refused}

module _ {R : Type 0} (transformer : ℕ → R) (reducer : R → R → R) (size : ℕ) where
  Inv-climb :
      (s : ThreadState R) (i index node : ℕ)
      → Inv transformer reducer size s
      → s.threads i ≡ some (index, node)
      → Inv transformer reducer size
          (climb transformer reducer size s i index node (s.pubs (parent node)))
  Inv-climb s i index node h e = elim (Option-cases (s.pubs (parent node))) [
    | inl f ↦
        subst (λ o. Inv transformer reducer size (climb transformer reducer size s i index node o))
          (sym f) (Inv-publish transformer reducer size s h i index node e f)
    | inr (old, f) ↦
        subst (λ o. Inv transformer reducer size (climb transformer reducer size s i index node o))
          (sym f) (Inv-merge transformer reducer size s h i index node old e f)
  ]

  Inv-dispense :
      (s : ThreadState R) (i : ℕ)
      → 0 < size
      → Inv transformer reducer size s
      → s.threads i ≡ none
      → Inv transformer reducer size (dispense transformer reducer size s i)
  unfolding dispense
  Inv-dispense s i p h e = elim (Bool-cases (ltb s.dispenser (suc size))) [
    | inl k ↦ rw k (Inv-taken transformer reducer size s h i e (ground (arith, k)) p)
    | inr k ↦ rw k (Inv-refused transformer reducer size s h (ground (arith, k)))
  ]

  pub Inv-take_turn :
      (s : ThreadState R) (i : ℕ)
      → 0 < size
      → Inv transformer reducer size s
      → Inv transformer reducer size (take_turn transformer reducer size s i)
  unfolding turn_from
  Inv-take_turn s i p h = elim (Option-cases (s.threads i)) [
    | inl e ↦
        subst (λ o. Inv transformer reducer size (turn_from transformer reducer size s i o)) (sym e)
          (Inv-dispense s i p h e)
    | inr (c, e) ↦
        subst (λ o. Inv transformer reducer size (turn_from transformer reducer size s i o)) (sym e)
          (Inv-climb s i c.0 c.1 h e)
  ]

  pub Inv-take_turns :
      (s : ThreadState R) (schedule : List ℕ)
      → 0 < size
      → Inv transformer reducer size s
      → Inv transformer reducer size (take_turns transformer reducer size s schedule)
  unfolding take_turns
  Inv-take_turns s [] p h = h
  Inv-take_turns s (i ∷ schedule) p h =
      Inv-take_turns (take_turn transformer reducer size s i) schedule p (Inv-take_turn s i p h)

  pub Inv-initial_state :
      (empty : R) → Inv transformer reducer size (initial_state transformer reducer size empty)
  Inv-initial_state empty = record {
    phase = λ v. 0;
    small = λ v. omega arith;
    started = λ v a b c. omega (arith, a, b);
    waiting = λ v a. refl;
    standing = λ i x v k. absurd (none-ne_some (x, v) k);
    apart = λ i j x y v w a b c. absurd (none-ne_some (x, v) a);
    held = λ v p a. absurd (omega (arith, a));
    half = λ v p q a b. absurd (omega (arith, a));
    empty = λ v p q a b. refl;
    above = λ v p q a. refl;
    both = λ v p q a b. absurd (omega (arith, a));
    root = λ a b. absurd (omega (arith, a));
  }

  module _ (s : ThreadState R) (h : Inv transformer reducer size s)
      (idle : (i : ℕ) → s.threads i ≡ none) (over : size < s.dispenser) where
    -- A node that a thread came to was left, since no thread stands at it.
    passed : (v : ℕ) → 0 < v → h.phase v ≢ 0 → h.phase v ≡ 2
    passed v p n = elim (ℕ_discrete (h.phase v) 1) [
      | yes k ↦ let (i, x, e) = h.held v p k in absurd (none-ne_some (x, v) (sym (idle i) ∙ e))
      | no m ↦ let k = h.small v in omega (arith, n, m, k)
    ]

    leaf_passed : (v : ℕ) → 0 < v → v ≤ 2 * size → size ≤ v → h.phase v ≡ 2
    leaf_passed v p q k = passed v p (h.started v k (omega (arith, q, over)) q)

    all_passed : (depth v : ℕ) → 0 < v → v ≤ 2 * size → 2 * size ≤ v + depth → h.phase v ≡ 2
    all_passed zero v p q r = leaf_passed v p q (omega (arith, r))
    all_passed (suc depth) v p q r = elim (Bool-cases (ltb v size)) [
      | inl lt ↦
          let k : v < size = ground (arith, lt) in
          let left =
            all_passed depth (2 * v + 1) (omega arith) (omega (arith, k)) (omega (arith, r)) in
          let right =
            all_passed depth (2 * v + 2) (omega arith) (omega (arith, k)) (omega (arith, r)) in
          let s1 : 2 * v + 2 ≡ sibling (2 * v + 1) = ground arith in
          let p1 : parent (2 * v + 1) ≡ v = omega arith in
          passed v p (λ z.
            h.both (2 * v + 1) (omega arith) (omega (arith, k)) left (ap h.phase (sym s1) ∙ right)
              (ap h.phase p1 ∙ z))
      | inr ge ↦ leaf_passed v p q (ground (arith, ge))
    ]

    pub result : 0 < size → result_at s.results (s.pubs 0) ≡ some (tree transformer reducer size 0)
    result pos =
        let p =
          h.root (all_passed (2 * size) 1 (omega arith) (omega (arith, pos)) (omega arith))
            (all_passed (2 * size) 2 (omega arith) (omega (arith, pos)) (omega arith)) in
        ap (result_at s.results) p.pointer ∙ ap some p.value

  -- For two tasks or more, under every interleaving of the threads: once no thread is in the do loop and
  -- every task was taken, the root of pubs points to the value of the implicit tree, in which each
  -- leaf is one task's result and each inner node reduces its left with its right child.
  pub transform_reduce_lem :
      (empty : R) (schedule : List ℕ)
      → 0 < size
      → ((i : ℕ)
          → (take_turns transformer reducer size
                (initial_state transformer reducer size empty)
                schedule).threads
              i
            ≡ none)
      → size
        < (take_turns transformer reducer size
            (initial_state transformer reducer size empty)
            schedule).dispenser
      → result_at
          (take_turns transformer reducer size
            (initial_state transformer reducer size empty)
            schedule).results
          ((take_turns transformer reducer size
              (initial_state transformer reducer size empty)
              schedule).pubs
            0)
        ≡ some (tree transformer reducer size 0)
  transform_reduce_lem empty schedule pos idle over =
      result
        (take_turns transformer reducer size (initial_state transformer reducer size empty)
          schedule)
        (Inv-take_turns (initial_state transformer reducer size empty) schedule pos
          (Inv-initial_state empty))
        idle over pos
