-- ===== src/TransformReduce/Publish.antt =====
-- src/transform_reduce.hpp: a thread that stores its result for the other child keeps the invariant.
use motion_planning_gadget_s.Common.{
  ℕ, ◌*◌, ◌≤◌, ◌<◌, ◌≡◌, ◌≢◌, refl, sym, ap, subst, ◌∙◌, inl, inr, none, some, arith, ℕ_discrete,
}
use motion_planning_gadget_s.TransformReduce.{put_at, ThreadState, parent, sibling, climb}
use motion_planning_gadget_s.TransformReduce.Tree.{
  tree, sibling-sibling, parent-sibling, sibling-ne, sibling-positive, sibling-le, parent-siblings,
}
use motion_planning_gadget_s.TransformReduce.Phases.{
  none-ne_some, some-eq, put_at-same, put_at-other, put_at-cases, Inv, Standing, Published,
  Published-frame,
}

module _ {R : Type 0} (transformer : ℕ → R) (reducer : R → R → R) (size : ℕ) where
  module _ (s : ThreadState R) (h : Inv transformer reducer size s) (i index v : ℕ)
      (e : s.threads i ≡ some (index, v)) (free : s.pubs (parent v) ≡ none) where
    abbrev after : ThreadState R
    after = climb transformer reducer size s i index v none

    abbrev phases : ℕ → ℕ
    phases = put_at h.phase v 2

    before : Standing transformer reducer size s h.phase index v
    before = h.standing i index v e

    sibling_waits : h.phase (sibling v) ≢ 2
    sibling_waits k =
        let p =
          h.half (sibling v) (sibling-positive v before.positive)
            (sibling-le v size before.positive before.inside) k
            (λ c.
              let o : h.phase v ≡ 2 = ap h.phase (sym (sibling-sibling v before.positive)) ∙ c in
              omega (arith, o, before.here)) in
        none-ne_some p.index
          (sym free ∙ ap s.pubs (sym (parent-sibling v before.positive)) ∙ p.pointer)

    -- The other threads
    others :
        (j other w : ℕ)
        → after.threads j ≡ some (other, w)
        → (j ≢ i) × (s.threads j ≡ some (other, w))
    unfolding climb
    others j other w k = elim (put_at-cases s.threads i j none (some (other, w)) k) [
      | inl (a, b) ↦ absurd (none-ne_some (other, w) b)
      | inr r ↦ r
    ]

    unheld : (j w : ℕ) → after.threads j ≡ some (index, w) → ⊥
    unheld j w k = let (n, o) = others j index w k in n (h.apart j i index index w v o e (inl refl))

    published :
        Published transformer reducer size after (parent v) (tree transformer reducer size v)
    unfolding climb
    published = record {
      index = index;
      pointer = put_at-same s.pubs (parent v) (some index);
      value = before.value;
      dispensed = before.dispensed;
      released = unheld;
    }

    -- The pointers that other nodes have stay.
    keeps :
        (node : ℕ) (x : R)
        → node ≢ parent v
        → Published transformer reducer size s node x
        → Published transformer reducer size after node x
    unfolding climb
    keeps node x n p =
        Published-frame transformer reducer size s after node x p
          (put_at-other s.pubs (parent v) node (some index) n) refl (omega arith)
          (λ j w k. p.released j w (others j p.index w k).1)

    apart_of : (w : ℕ) → 0 < w → w ≢ v → sibling w ≢ v → parent w ≢ parent v
    apart_of w p n m c = elim (parent-siblings v w before.positive p c) [
      | inl a ↦ n a
      | inr a ↦ m (ap sibling a ∙ sibling-sibling v before.positive)
    ]

    old_phase : (w : ℕ) → phases w ≢ 2 → (w ≢ v) × (h.phase w ≢ 2)
    old_phase w k = (λ a. ground (arith, k, a), λ a. ground (arith, k, a))

    half_after :
        (w : ℕ)
        → 0 < w
        → w ≤ 2 * size
        → phases w ≡ 2
        → phases (sibling w) ≢ 2
        → Published transformer reducer size after (parent w) (tree transformer reducer size w)
    half_after w p q a b = elim (ℕ_discrete w v) [
      | yes c ↦
          subst
            (λ x.
              Published transformer reducer size after (parent x) (tree transformer reducer size x))
            (sym c) published
      | no n ↦
          let (m, o) = old_phase (sibling w) b in
          let a1 : h.phase w ≡ 2 = sym (put_at-other h.phase v w 2 n) ∙ a in
          keeps (parent w) _ (apart_of w p n m) (h.half w p q a1 o)
    ]

    both_after :
        (w : ℕ)
        → 0 < w
        → w ≤ 2 * size
        → phases w ≡ 2
        → phases (sibling w) ≡ 2
        → phases (parent w) ≢ 0
    both_after w p q a b = elim (ℕ_discrete w v) [
      | yes c ↦
          let n : sibling w ≢ v = λ x. sibling-ne w p (x ∙ sym c) in
          absurd (
            sibling_waits (
              ap (λ x. h.phase (sibling x)) (sym c)
              ∙ sym (put_at-other h.phase v (sibling w) 2 n)
              ∙ b))
      | no n ↦ elim (ℕ_discrete (sibling w) v) [
        | yes c ↦
            let x : w ≡ sibling v = sym (sibling-sibling w p) ∙ ap sibling c in
            absurd (sibling_waits (ap h.phase (sym x) ∙ sym (put_at-other h.phase v w 2 n) ∙ a))
        | no m ↦
            let o =
              h.both w p q (sym (put_at-other h.phase v w 2 n) ∙ a)
                (sym (put_at-other h.phase v (sibling w) 2 m) ∙ b) in
            λ z. ground (arith, o, z)
      ]
    ]

    root_after :
        phases 1 ≡ 2
        → phases 2 ≡ 2
        → Published transformer reducer size after 0 (tree transformer reducer size 0)
    root_after a b = elim (ℕ_discrete 1 v) [
      | yes c ↦
          let x : h.phase (sibling v) ≡ 2 =
            ap (λ y. h.phase (sibling y)) (sym c)
            ∙ sym (put_at-other h.phase v 2 2 (λ y. omega (arith, y, c)))
            ∙ b in
          absurd (sibling_waits x)
      | no n ↦ elim (ℕ_discrete 2 v) [
        | yes c ↦
            let x : h.phase (sibling v) ≡ 2 =
              ap (λ y. h.phase (sibling y)) (sym c) ∙ sym (put_at-other h.phase v 1 2 n) ∙ a in
            absurd (sibling_waits x)
        | no m ↦
            let away : 0 ≢ parent v = λ c. let k = before.positive in omega (arith, c, n, m, k) in
            keeps 0 _ away (
              h.root (sym (put_at-other h.phase v 1 2 n) ∙ a)
                (sym (put_at-other h.phase v 2 2 m) ∙ b))
      ]
    ]

    pub Inv-publish : Inv transformer reducer size after
    unfolding climb
    Inv-publish = record {
      phase = phases;
      small = λ w. let k = h.small w in ground (arith, k);
      started = λ w a b c. let o = h.started w a b c in ground (arith, o);
      waiting = λ w a. let o = h.waiting w a in let k = before.here in ground (arith, o, k);
      standing = λ j other w k.
          let (n, o) = others j other w k in
          let t = h.standing j other w o in
          let m : w ≢ v = λ c. n (h.apart j i other index w v o e (inr c)) in
          record {
            positive = t.positive;
            inside = t.inside;
            here = put_at-other h.phase v w 2 m ∙ t.here;
            value = t.value;
            dispensed = t.dispensed;
          };
      apart = λ j k x y w z a b c. h.apart j k x y w z (others j x w a).1 (others k y z b).1 c;
      held = λ w p a.
          let m : w ≢ v = λ c. ground (arith, a, c) in
          let (j, other, o) = h.held w p (sym (put_at-other h.phase v w 2 m) ∙ a) in
          let n : j ≢ i = λ c. m (ap (λ x. x.1) (some-eq (sym o ∙ ap s.threads c ∙ e))) in
          (j, other, put_at-other s.threads i j none n ∙ o);
      half = half_after;
      empty = λ w p q a b.
          let (n, a1) = old_phase w a in
          let (m, b1) = old_phase (sibling w) b in
          put_at-other s.pubs (parent v) (parent w) (some index) (apart_of w p n m)
          ∙ h.empty w p q a1 b1;
      above = λ w p q a.
          let (n, a1) = old_phase w a in
          let o = h.above w p q a1 in
          let k = before.here in
          let m : parent w ≢ v =
            λ c. let x : h.phase v ≡ 0 = ap h.phase (sym c) ∙ o in omega (arith, x, k) in
          put_at-other h.phase v (parent w) 2 m ∙ o;
      both = λ w p q a b. both_after w p q a b;
      root = λ a b. root_after a b;
    }
