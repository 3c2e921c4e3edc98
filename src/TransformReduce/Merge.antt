-- ===== src/TransformReduce/Merge.antt =====
-- src/transform_reduce.hpp: a thread that reduces its result with the other child's and goes up keeps
-- the invariant.
use motion_planning_gadget_s.Common.{
  ℕ, ◌*◌, ◌≤◌, ◌<◌, ◌≡◌, ◌≢◌, ◌⊎◌, refl, sym, ap, subst, ◌∙◌, inl, inr, false, some, ◌==◌,
  if◌then◌else◌, Bool-cases, arith, ℕ_discrete,
}
use motion_planning_gadget_s.TransformReduce.{put_at, ThreadState, parent, sibling, reduced, climb}
use motion_planning_gadget_s.TransformReduce.Tree.{
  tree, tree-parent, sibling-sibling, parent-sibling, sibling-positive, sibling-le, parent-siblings,
}
use motion_planning_gadget_s.TransformReduce.Phases.{
  none-ne_some, some-eq, put_at-same, put_at-other, put_at-cases, Inv, Standing, Published,
  Published-frame,
}

module _ {R : Type 0} (transformer : ℕ → R) (reducer : R → R → R) (size : ℕ) where
  module _ (s : ThreadState R) (h : Inv transformer reducer size s) (i index v old : ℕ)
      (e : s.threads i ≡ some (index, v)) (found : s.pubs (parent v) ≡ some old) where
    abbrev after : ThreadState R
    after = climb transformer reducer size s i index v (some old)

    abbrev up : ℕ
    up = if parent v == 0 then 2 else 1

    abbrev left_phases : ℕ → ℕ
    left_phases = put_at h.phase v 2

    abbrev phases : ℕ → ℕ
    phases = put_at left_phases (parent v) up

    before : Standing transformer reducer size s h.phase index v
    before = h.standing i index v e

    not_left : h.phase v ≢ 2
    not_left k = let o = before.here in omega (arith, k, o)

    sibling_left : h.phase (sibling v) ≡ 2
    sibling_left = elim (ℕ_discrete (h.phase (sibling v)) 2) [
      | yes k ↦ k
      | no n ↦
          absurd
            (none-ne_some old (sym (h.empty v before.positive before.inside not_left n) ∙ found))
    ]

    other :
        Published transformer reducer size s (parent v) (tree transformer reducer size (sibling v))
    other =
        let p =
          h.half (sibling v) (sibling-positive v before.positive)
            (sibling-le v size before.positive before.inside) sibling_left
            (λ c. not_left (ap h.phase (sym (sibling-sibling v before.positive)) ∙ c)) in
        subst
          (λ node.
            Published transformer reducer size s node (tree transformer reducer size (sibling v)))
          (parent-sibling v before.positive) p

    old_value : s.results old ≡ tree transformer reducer size (sibling v)
    old_value = ap s.results (some-eq (sym found ∙ other.pointer)) ∙ other.value

    inner : parent v < size
    inner = let p = before.positive in let q = before.inside in omega (arith, p, q)

    up_waits : h.phase (parent v) ≡ 0
    up_waits = h.above v before.positive before.inside not_left

    up-ne : parent v ≢ v
    up-ne c =
        let o = before.here in
        let k : h.phase v ≡ 0 = ap h.phase (sym c) ∙ up_waits in omega (arith, o, k)

    reduced_value :
        reduced transformer reducer size s index v old ≡ tree transformer reducer size (parent v)
    reduced_value =
        rw (before.value, old_value)
          (sym (tree-parent transformer reducer size v before.positive inner))

    -- The threads afterwards: this one, which goes on unless it is at the root, and the others
    threads_after :
        (j x w : ℕ)
        → after.threads j ≡ some (x, w)
        → ((j ≡ i) × (0 < parent v) × (index ≡ x) × (parent v ≡ w))
          ⊎ ((j ≢ i) × (s.threads j ≡ some (x, w)))
    unfolding climb
    threads_after j x w k = elim (put_at-cases s.threads i j _ (some (x, w)) k) [
      | inl (a, b) ↦ elim (Bool-cases (parent v == 0)) [
        | inl r ↦ absurd (none-ne_some (x, w) (rw r at b))
        | inr r ↦
            let c = some-eq (rw r at b) in
            inl (a, ground (arith, r), ap (λ y. y.0) c, ap (λ y. y.1) c)
      ]
      | inr r ↦ inr r
    ]

    phase_at : (w : ℕ) → w ≢ v → w ≢ parent v → phases w ≡ h.phase w
    phase_at w n m = put_at-other left_phases (parent v) w up m ∙ put_at-other h.phase v w 2 n

    phase_here : phases v ≡ 2
    phase_here =
        put_at-other left_phases (parent v) v up (λ c. up-ne (sym c)) ∙ put_at-same h.phase v 2

    phase_up : phases (parent v) ≡ up
    phase_up = put_at-same left_phases (parent v) up

    -- A node below the root that is left now was left before, or is this one.
    was_left : (w : ℕ) → 0 < w → phases w ≡ 2 → (w ≡ v) ⊎ (h.phase w ≡ 2)
    was_left w p k = elim (ℕ_discrete w v) [
      | yes c ↦ inl c
      | no n ↦ elim (ℕ_discrete w (parent v)) [
        | yes c ↦ absurd (ground (arith, p, c, k, n))
        | no m ↦ inr (sym (phase_at w n m) ∙ k)
      ]
    ]

    -- A node that is not left now was not left before, and is not this one.
    was_here : (w : ℕ) → phases w ≢ 2 → (w ≢ v) × (h.phase w ≢ 2)
    was_here w k = (
      λ c. k (ap phases c ∙ phase_here),
      λ a.
          let n : w ≢ v = λ c. not_left (ap h.phase (sym c) ∙ a) in
          let m : w ≢ parent v =
            λ c. let z : h.phase w ≡ 0 = ap h.phase c ∙ up_waits in omega (arith, z, a) in
          k (phase_at w n m ∙ a),
    )

    unheld : (j w : ℕ) → after.threads j ≡ some (index, w) → j ≡ i
    unheld j w k = elim (threads_after j index w k) [
      | inl a ↦ a.0
      | inr (n, o) ↦ h.apart j i index index w v o e (inl refl)
    ]

    other_result : (x : ℕ) → x ≢ index → after.results x ≡ s.results x
    unfolding climb
    other_result x n = put_at-other s.results index x _ n

    keeps :
        (node : ℕ) (x : R)
        → node ≢ parent v
        → Published transformer reducer size s node x
        → Published transformer reducer size after node x
    unfolding climb
    keeps node x n p =
        let apart : p.index ≢ index = λ c. p.released i v (e ∙ ap (λ y. some (y, v)) (sym c)) in
        Published-frame transformer reducer size s after node x p
          (put_at-other s.pubs (parent v) node (some index) n) (other_result p.index apart)
          (omega arith)
          (λ j w k. elim (threads_after j p.index w k) [
            | inl a ↦ apart (sym a.2)
            | inr (m, o) ↦ p.released j w o
          ])

    apart_of : (w : ℕ) → 0 < w → w ≢ v → sibling w ≢ v → parent w ≢ parent v
    apart_of w p n m c = elim (parent-siblings v w before.positive p c) [
      | inl a ↦ n a
      | inr a ↦ m (ap sibling a ∙ sibling-sibling v before.positive)
    ]

    half_after :
        (w : ℕ)
        → 0 < w
        → w ≤ 2 * size
        → phases w ≡ 2
        → phases (sibling w) ≢ 2
        → Published transformer reducer size after (parent w) (tree transformer reducer size w)
    half_after w p q a b =
        let (m, o) = was_here (sibling w) b in
        let n : w ≢ v = λ c. o (ap (λ x. h.phase (sibling x)) c ∙ sibling_left) in
        elim (was_left w p a) [
          | inl c ↦ absurd (n c)
          | inr c ↦ keeps (parent w) _ (apart_of w p n m) (h.half w p q c o)
        ]

    above_after : (w : ℕ) → 0 < w → w ≤ 2 * size → phases w ≢ 2 → phases (parent w) ≡ 0
    above_after w p q a =
        let (n, o) = was_here w a in
        let m : sibling w ≢ v =
          λ c. o (ap h.phase (sym (sibling-sibling w p) ∙ ap sibling c) ∙ sibling_left) in
        let z = h.above w p q o in
        let k : parent w ≢ v = λ c.
          let y : h.phase v ≡ 0 = ap h.phase (sym c) ∙ z in
          let o1 = before.here in omega (arith, y, o1) in
        phase_at (parent w) k (apart_of w p n m) ∙ z

    both_after :
        (w : ℕ)
        → 0 < w
        → w ≤ 2 * size
        → phases w ≡ 2
        → phases (sibling w) ≡ 2
        → phases (parent w) ≢ 0
    both_after w p q a b z = elim (ℕ_discrete (parent w) (parent v)) [
      | yes c ↦ let k : up ≡ 0 = sym phase_up ∙ ap phases (sym c) ∙ z in absurd (ground (arith, k))
      | no n ↦
          let k : parent w ≢ v = λ c.
            let x : phases v ≡ 0 = ap phases (sym c) ∙ z in
            let y = phase_here in omega (arith, x, y) in
          let d : h.phase (parent w) ≡ 0 = sym (phase_at (parent w) k n) ∙ z in
          elim (was_left w p a) [
            | inl c ↦ n (ap parent c)
            | inr c ↦ elim (was_left (sibling w) (sibling-positive w p) b) [
              | inl x ↦ n (sym (parent-sibling w p) ∙ ap parent x)
              | inr x ↦ h.both w p q c x d
            ]
          ]
    ]

    at_root :
        parent v ≡ 0 → Published transformer reducer size after 0 (tree transformer reducer size 0)
    unfolding climb
    at_root c =
        subst (λ x. Published transformer reducer size after x (tree transformer reducer size x)) c
          (record {
            index = index;
            pointer = put_at-same s.pubs (parent v) (some index);
            value = put_at-same s.results index _ ∙ reduced_value;
            dispensed = before.dispensed;
            released = λ j w k. elim (threads_after j index w k) [
              | inl a ↦ omega (arith, c, a.1)
              | inr (n, o) ↦ n (h.apart j i index index w v o e (inl refl))
            ];
          })

    root_after :
        phases 1 ≡ 2
        → phases 2 ≡ 2
        → Published transformer reducer size after 0 (tree transformer reducer size 0)
    root_after a b = elim (ℕ_discrete (parent v) 0) [
      | yes c ↦ at_root c
      | no n ↦ elim (was_left 1 (omega arith) a) [
        | inl c ↦ absurd (omega (arith, c, n))
        | inr x ↦ elim (was_left 2 (omega arith) b) [
          | inl c ↦ absurd (omega (arith, c, n))
          | inr y ↦ keeps 0 _ (λ c. n (sym c)) (h.root x y)
        ]
      ]
    ]

    standing_after :
        (j x w : ℕ)
        → after.threads j ≡ some (x, w)
        → Standing transformer reducer size after phases x w
    unfolding climb
    standing_after j x w k = elim (threads_after j x w k) [
      | inl (a, b, c, d) ↦
          let one : up ≡ 1 = ground (arith, b) in
          let le = before.inside in
          record {
            positive = omega (arith, b, d);
            inside = omega (arith, d, inner);
            here = ap phases (sym d) ∙ phase_up ∙ one;
            value =
                ap after.results (sym c)
                ∙ put_at-same s.results index _
                ∙ reduced_value
                ∙ ap (tree transformer reducer size) d;
            dispensed = let o = before.dispensed in omega (arith, o, c);
          }
      | inr (n, o) ↦
          let t = h.standing j x w o in
          let m : w ≢ v = λ c. n (h.apart j i x index w v o e (inr c)) in
          let l : w ≢ parent v = λ c.
            let y : h.phase w ≡ 0 = ap h.phase c ∙ up_waits in
            let z = t.here in omega (arith, y, z) in
          record {
            positive = t.positive;
            inside = t.inside;
            here = phase_at w m l ∙ t.here;
            value = other_result x (λ c. n (h.apart j i x index w v o e (inl c))) ∙ t.value;
            dispensed = t.dispensed;
          }
    ]

    -- No other thread has this one's index, or stands at the parent.
    alone : (j x w : ℕ) → j ≢ i → s.threads j ≡ some (x, w) → (index ≡ x) ⊎ (parent v ≡ w) → ⊥
    alone j x w n o (inl c) = n (h.apart j i x index w v o e (inl (sym c)))
    alone j x w n o (inr c) =
        let t = h.standing j x w o in
        let y : h.phase w ≡ 0 = ap h.phase (sym c) ∙ up_waits in
        let z = t.here in omega (arith, y, z)

    apart_after :
        (j k x y w u : ℕ)
        → after.threads j ≡ some (x, w)
        → after.threads k ≡ some (y, u)
        → (x ≡ y) ⊎ (w ≡ u)
        → j ≡ k
    apart_after j k x y w u a b c = elim (threads_after j x w a) [
      | inl (p, q, r, t) ↦ elim (threads_after k y u b) [
        | inl l ↦ p ∙ sym l.0
        | inr (n, o) ↦
            absurd (alone k y u n o (elim c [ inl d ↦ inl (r ∙ d) | inr d ↦ inr (t ∙ d) ]))
      ]
      | inr (n, o) ↦ elim (threads_after k y u b) [
        | inl (p, q, r, t) ↦
            absurd (alone j x w n o (elim c [ inl d ↦ inl (r ∙ sym d) | inr d ↦ inr (t ∙ sym d) ]))
        | inr (l, m) ↦ h.apart j k x y w u o m c
      ]
    ]

    held_after :
        (w : ℕ) → 0 < w → phases w ≡ 1 → (j : ℕ) × (x : ℕ) × (after.threads j ≡ some (x, w))
    unfolding climb
    held_after w p a = elim (ℕ_discrete w (parent v)) [
      | yes c ↦
          let r : (parent v == 0) ≡ false = ground (arith, p, c) in
          (i, index, put_at-same s.threads i _ ∙ rw r (ap (λ y. some (index, y)) (sym c)))
      | no m ↦
          let n : w ≢ v = λ c.
            let y = phase_here in
            let z : phases v ≡ 1 = ap phases (sym c) ∙ a in omega (arith, y, z) in
          let (j, x, o) = h.held w p (sym (phase_at w n m) ∙ a) in
          let l : j ≢ i = λ c. n (ap (λ y. y.1) (some-eq (sym o ∙ ap s.threads c ∙ e))) in
          (j, x, put_at-other s.threads i j _ l ∙ o)
    ]

    pub Inv-merge : Inv transformer reducer size after
    unfolding climb
    Inv-merge = record {
      phase = phases;
      small = λ w. let k = h.small w in ground (arith, k);
      started = λ w a b c. let o = h.started w a b c in let k = inner in ground (arith, o, k, a);
      waiting = λ w a.
          let o = h.waiting w a in
          let k = inner in
          let n : w ≢ v = λ c.
            let y = before.here in
            let z : h.phase v ≡ 0 = ap h.phase (sym c) ∙ o in omega (arith, y, z) in
          phase_at w n (λ c. omega (arith, c, k, a)) ∙ o;
      standing = standing_after;
      apart = apart_after;
      held = held_after;
      half = half_after;
      empty = λ w p q a b.
          let (n, a1) = was_here w a in
          let (m, b1) = was_here (sibling w) b in
          put_at-other s.pubs (parent v) (parent w) (some index) (apart_of w p n m)
          ∙ h.empty w p q a1 b1;
      above = above_after;
      both = both_after;
      root = root_after;
    }
