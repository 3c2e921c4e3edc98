-- ===== src/TransformReduce/Dispense.antt =====
-- src/transform_reduce.hpp: a thread that takes the next task keeps the invariant.
use motion_planning_gadget_s.Common.{
  ℕ, suc, ◌+◌, ◌<◌, ◌≡◌, ◌≢◌, ◌⊎◌, refl, sym, ap, ◌∙◌, inl, inr, none, some, arith, ℕ_discrete,
}
use motion_planning_gadget_s.TransformReduce.{put_at, ThreadState, parent, sibling}
use motion_planning_gadget_s.TransformReduce.Tree.{tree, tree-leaf}
use motion_planning_gadget_s.TransformReduce.Phases.{
  none-ne_some, some-eq, put_at-same, put_at-other, put_at-cases, Inv, Standing, Published,
  Published-frame,
}

module _ {R : Type 0} (transformer : ℕ → R) (reducer : R → R → R) (size : ℕ) where
  module _ (s : ThreadState R) (h : Inv transformer reducer size s) (i : ℕ)
      (free : s.threads i ≡ none) (more : s.dispenser < suc size) where
    abbrev leaf : ℕ
    leaf = s.dispenser + size

    abbrev taken : ThreadState R
    taken = record {
      results = put_at s.results s.dispenser (transformer s.dispenser);
      pubs = s.pubs;
      threads = put_at s.threads i (some (s.dispenser, leaf));
      dispenser = suc s.dispenser;
    }

    abbrev phases : ℕ → ℕ
    phases = put_at h.phase leaf 1

    leaf_waits : h.phase leaf ≡ 0
    leaf_waits = h.waiting leaf (omega arith)

    threads_after :
        (j x w : ℕ)
        → taken.threads j ≡ some (x, w)
        → ((j ≡ i) × (s.dispenser ≡ x) × (leaf ≡ w)) ⊎ ((j ≢ i) × (s.threads j ≡ some (x, w)))
    threads_after j x w k = elim (put_at-cases s.threads i j _ (some (x, w)) k) [
      | inl (a, b) ↦ let c = some-eq b in inl (a, ap (λ y. y.0) c, ap (λ y. y.1) c)
      | inr r ↦ inr r
    ]

    keeps :
        (node : ℕ) (x : R)
        → Published transformer reducer size s node x
        → Published transformer reducer size taken node x
    keeps node x p =
        let older = p.dispensed in
        Published-frame transformer reducer size s taken node x p refl
          (put_at-other s.results s.dispenser p.index _ (λ c. omega (arith, c, older)))
          (omega arith)
          (λ j w k. elim (threads_after j p.index w k) [
            | inl a ↦ let b = a.1 in omega (arith, b, older)
            | inr (n, o) ↦ p.released j w o
          ])

    -- Nothing changes about what is left.
    left_before : (w : ℕ) → phases w ≡ 2 → h.phase w ≡ 2
    left_before w k = ground (arith, k)

    not_before : (w : ℕ) → phases w ≢ 2 → h.phase w ≢ 2
    not_before w k c =
        let z = leaf_waits in
        let n : w ≢ leaf =
          λ d. let y : h.phase leaf ≡ 2 = ap h.phase (sym d) ∙ c in omega (arith, y, z) in
        k (put_at-other h.phase leaf w 1 n ∙ c)

    alone : (j x w : ℕ) → s.threads j ≡ some (x, w) → (s.dispenser ≡ x) ⊎ (leaf ≡ w) → ⊥
    alone j x w o c =
        let t = h.standing j x w o in
        let d = t.dispensed in
        elim c [
          | inl a ↦ omega (arith, a, d)
          | inr a ↦
              let z : h.phase w ≡ 0 = ap h.phase (sym a) ∙ leaf_waits in
              let y = t.here in omega (arith, y, z)
        ]

    apart_after :
        (j k x y w u : ℕ)
        → taken.threads j ≡ some (x, w)
        → taken.threads k ≡ some (y, u)
        → (x ≡ y) ⊎ (w ≡ u)
        → j ≡ k
    apart_after j k x y w u a b c = elim (threads_after j x w a) [
      | inl (p, r, t) ↦ elim (threads_after k y u b) [
        | inl l ↦ p ∙ sym l.0
        | inr (n, o) ↦ absurd (alone k y u o (elim c [ inl d ↦ inl (r ∙ d) | inr d ↦ inr (t ∙ d) ]))
      ]
      | inr (n, o) ↦ elim (threads_after k y u b) [
        | inl (p, r, t) ↦
            absurd (alone j x w o (elim c [ inl d ↦ inl (r ∙ sym d) | inr d ↦ inr (t ∙ sym d) ]))
        | inr (l, m) ↦ h.apart j k x y w u o m c
      ]
    ]

    standing_after :
        (j x w : ℕ)
        → taken.threads j ≡ some (x, w)
        → 0 < size
        → Standing transformer reducer size taken phases x w
    standing_after j x w k pos = elim (threads_after j x w k) [
      | inl (a, b, c) ↦ record {
        positive = omega (arith, c, pos);
        inside = omega (arith, c, more);
        here = ap phases (sym c) ∙ put_at-same h.phase leaf 1;
        value =
            ap taken.results (sym b)
            ∙ put_at-same s.results s.dispenser _
            ∙ sym (tree-leaf transformer reducer size s.dispenser)
            ∙ ap (tree transformer reducer size) c;
        dispensed = omega (arith, b);
      }
      | inr (n, o) ↦
          let t = h.standing j x w o in
          let d = t.dispensed in
          record {
            positive = t.positive;
            inside = t.inside;
            here = put_at-other h.phase leaf w 1 (λ c. alone j x w o (inr (sym c))) ∙ t.here;
            value =
                put_at-other s.results s.dispenser x _ (λ c. alone j x w o (inl (sym c))) ∙ t.value;
            dispensed = omega (arith, d);
          }
    ]

    pub Inv-taken : 0 < size → Inv transformer reducer size taken
    Inv-taken pos = record {
      phase = phases;
      small = λ w. let k = h.small w in ground (arith, k);
      started = λ w a b c. elim (ℕ_discrete w leaf) [
        | yes d ↦ λ z.
            let y = put_at-same h.phase leaf 1 in
            let x : phases leaf ≡ 0 = ap phases (sym d) ∙ z in omega (arith, x, y)
        | no n ↦
            λ z. h.started w a (omega (arith, b, n)) c (sym (put_at-other h.phase leaf w 1 n) ∙ z)
      ];
      waiting = λ w a.
          put_at-other h.phase leaf w 1 (λ c. omega (arith, a, c)) ∙ h.waiting w (omega (arith, a));
      standing = λ j x w k. standing_after j x w k pos;
      apart = apart_after;
      held = λ w p a. elim (ℕ_discrete w leaf) [
        | yes c ↦
            (i, s.dispenser, put_at-same s.threads i _ ∙ ap (λ y. some (s.dispenser, y)) (sym c))
        | no n ↦
            let (j, x, o) = h.held w p (sym (put_at-other h.phase leaf w 1 n) ∙ a) in
            let l : j ≢ i = λ c. none-ne_some (x, w) (sym free ∙ ap s.threads (sym c) ∙ o) in
            (j, x, put_at-other s.threads i j _ l ∙ o)
      ];
      half = λ w p q a b.
          keeps (parent w) _ (h.half w p q (left_before w a) (not_before (sibling w) b));
      empty = λ w p q a b. h.empty w p q (not_before w a) (not_before (sibling w) b);
      above = λ w p q a.
          put_at-other h.phase leaf (parent w) 1 (λ c. omega (arith, c, p, q, pos))
          ∙ h.above w p q (not_before w a);
      both = λ w p q a b z.
          h.both w p q (left_before w a) (left_before (sibling w) b)
            (sym (put_at-other h.phase leaf (parent w) 1 (λ c. omega (arith, c, p, q, pos))) ∙ z);
      root = λ a b. keeps 0 _ (h.root (left_before 1 a) (left_before 2 b));
    }

  -- A thread that finds no task left
  pub Inv-refused :
      (s : ThreadState R)
      → Inv transformer reducer size s
      → size < s.dispenser
      → Inv transformer reducer size (record s { dispenser = suc s.dispenser })
  Inv-refused s h over = record {
    phase = h.phase;
    small = h.small;
    started = λ w a b c. h.started w a (omega (arith, c, over)) c;
    waiting = λ w a. h.waiting w (omega (arith, a));
    standing = λ j x w k.
        let t = h.standing j x w k in
        let d = t.dispensed in
        record {
          positive = t.positive;
          inside = t.inside;
          here = t.here;
          value = t.value;
          dispensed = omega (arith, d);
        };
    apart = h.apart;
    held = h.held;
    half = λ w p q a b.
        let k = h.half w p q a b in
        Published-frame transformer reducer size s _ (parent w) _ k refl refl (omega arith)
          k.released;
    empty = h.empty;
    above = h.above;
    both = h.both;
    root = λ a b.
        let k = h.root a b in
        Published-frame transformer reducer size s _ 0 _ k refl refl (omega arith) k.released;
  }
