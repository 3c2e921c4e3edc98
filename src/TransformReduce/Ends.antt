-- ===== src/TransformReduce/Ends.antt =====
-- src/transform_reduce.hpp: the threads get to the end.
use motion_planning_gadget_s.Common.{
  ℕ, zero, suc, ◌+◌, ◌-◌, ◌*◌, ◌≤◌, ◌<◌, ◌≡◌, ◌⊎◌, refl, sym, ap, subst, ◌∙◌, inl, inr, true,
  Option, none, some, List, [], ◌∷◌, ◌==◌, ltb, Bool-cases, Option-cases, arith, ℕ_discrete, All,
  if◌then◌else◌,
}
use motion_planning_gadget_s.TransformReduce.{
  ThreadState, put_at, parent, climb, dispense, turn_from, take_turn, take_turns, initial_state,
  result_at,
}
use motion_planning_gadget_s.TransformReduce.Phases.{put_at-same, put_at-other, Inv}
use motion_planning_gadget_s.TransformReduce.Result.{
  Inv-take_turn, Inv-take_turns, Inv-initial_state, result,
}
use motion_planning_gadget_s.TransformReduce.Tree.{tree}

-- A thread at a node is that far from the root.
abbrev weight : Option (ℕ × ℕ) → ℕ
weight none = 0
weight (some c) = suc c.1

abbrev weights : (ℕ → Option (ℕ × ℕ)) → ℕ → ℕ
weights threads zero = 0
weights threads (suc count) = weight (threads count) + weights threads count

weights-beyond :
    (threads : ℕ → Option (ℕ × ℕ)) (i count : ℕ) (x : Option (ℕ × ℕ))
    → count ≤ i
    → weights (put_at threads i x) count ≡ weights threads count
weights-beyond threads i zero x h = refl
weights-beyond threads i (suc count) x h =
    let here = ap weight (put_at-other threads i count x (λ e. omega (arith, e, h))) in
    let rest = weights-beyond threads i count x (omega (arith, h)) in omega (arith, here, rest)

weights-put_at :
    (threads : ℕ → Option (ℕ × ℕ)) (i count : ℕ) (x : Option (ℕ × ℕ))
    → i < count
    → weights (put_at threads i x) count + weight (threads i) ≡ weights threads count + weight x
weights-put_at threads i zero x h = absurd (omega (arith, h))
weights-put_at threads i (suc count) x h = elim (ℕ_discrete count i) [
  | yes e ↦
      let rest = weights-beyond threads i count x (omega (arith, e)) in
      let new : weight (put_at threads i x count) ≡ weight x =
        ap (λ j. weight (put_at threads i x j)) e ∙ ap weight (put_at-same threads i x) in
      let old : weight (threads count) ≡ weight (threads i) = ap (λ j. weight (threads j)) e in
      omega (arith, rest, new, old)
  | no n ↦
      let rest = weights-put_at threads i count x (omega (arith, h, n)) in
      let here = ap weight (put_at-other threads i count x n) in omega (arith, rest, here)
]

module _ {R : Type 0} (transformer : ℕ → R) (reducer : R → R → R) (size count : ℕ) where
  -- What is left to do for `count` threads: each task can be as far down as the last leaf.
  pub remaining : ThreadState R → ℕ
  remaining s = weights s.threads count + (suc size - s.dispenser) * (2 * size + 2)

  one_task : (a b w : ℕ) → b ≤ a → 0 < a - b → (a - b) * w ≡ (a - suc b) * w + w
  one_task a b w h k =
      let e : a - b ≡ suc (a - suc b) = omega (arith, h, k) in ap (λ x. x * w) e ∙ grind arith

  remaining-dispense :
      (s : ThreadState R) (i : ℕ)
      → i < count
      → s.threads i ≡ none
      → s.dispenser ≤ size
      → remaining (dispense transformer reducer size s i) < remaining s
  unfolding remaining dispense
  remaining-dispense s i h e k =
      let more : ltb s.dispenser (suc size) ≡ true = ground (arith, k) in
      let moved = weights-put_at s.threads i count (some (s.dispenser, s.dispenser + size)) h in
      let idle : weight (s.threads i) ≡ 0 = ap weight e in
      let task =
        one_task (suc size) s.dispenser (2 * size + 2) (omega (arith, k)) (omega (arith, k)) in
      rw more (omega (arith, moved, idle, task, k))

  remaining-climb :
      (s : ThreadState R) (i index node : ℕ)
      → i < count
      → s.threads i ≡ some (index, node)
      → 0 < node
      → remaining (climb transformer reducer size s i index node (s.pubs (parent node)))
        < remaining s
  unfolding remaining climb
  remaining-climb s i index node h e p =
      let there : weight (s.threads i) ≡ suc node = ap weight e in
      elim (Option-cases (s.pubs (parent node))) [
        | inl f ↦
            let moved = weights-put_at s.threads i count none h in
            rw f (omega (arith, moved, there))
        | inr (old, f) ↦
            let next : Option (ℕ × ℕ) =
              if parent node == 0 then none else some (index, parent node) in
            let moved = weights-put_at s.threads i count next h in
            let less : weight next < suc node = below index (parent node) node (omega (arith, p)) in
            rw f (omega (arith, moved, there, less))
      ]
    where
      below :
          (index up node : ℕ)
          → up < node
          → weight (if up == 0 then none else some (index, up)) < suc node
      below index up node h = elim (Bool-cases (up == 0)) [
        | inl k ↦ rw k (omega arith)
        | inr k ↦ rw k (omega (arith, h))
      ]

  -- A thread that is in the do loop, or can take a task, has something to do.
  pub Active : ThreadState R → ℕ → Type 0
  Active s i =
      ((c : ℕ × ℕ) × (s.threads i ≡ some c)) ⊎ ((s.threads i ≡ none) × (s.dispenser ≤ size))

  remaining-take_turn :
      (s : ThreadState R) (i : ℕ)
      → Inv transformer reducer size s
      → i < count
      → Active s i
      → remaining (take_turn transformer reducer size s i) < remaining s
  unfolding turn_from Active
  remaining-take_turn s i h k a = elim a [
    | inl (c, e) ↦
        subst (λ o. remaining (turn_from transformer reducer size s i o) < remaining s) (sym e)
          (remaining-climb s i c.0 c.1 k e ((h.standing i c.0 c.1 e).positive))
    | inr (e, o) ↦
        subst (λ o. remaining (turn_from transformer reducer size s i o) < remaining s) (sym e)
          (remaining-dispense s i k e o)
  ]

  -- The threads from `count` on do not exist.
  Beyond : ThreadState R → Type 0
  Beyond s = (i : ℕ) → count ≤ i → s.threads i ≡ none

  pub Finished : ThreadState R → Type 0
  Finished s = ((i : ℕ) → s.threads i ≡ none) × (size < s.dispenser)

  Beyond-take_turn :
      (s : ThreadState R) (i : ℕ)
      → i < count
      → Beyond s
      → Beyond (take_turn transformer reducer size s i)
  unfolding Beyond turn_from climb dispense
  Beyond-take_turn s i h b j k = elim (Option-cases (s.threads i)) [
    | inl e ↦
        subst (λ o. (turn_from transformer reducer size s i o).threads j ≡ none) (sym e)
          (elim (Bool-cases (ltb s.dispenser (suc size))) [
            | inl m ↦ rw m (put_at-other s.threads i j _ (λ x. omega (arith, x, h, k)) ∙ b j k)
            | inr m ↦ rw m (b j k)
          ])
    | inr (c, e) ↦
        subst (λ o. (turn_from transformer reducer size s i o).threads j ≡ none) (sym e)
          (elim (Option-cases (s.pubs (parent c.1))) [
            | inl f ↦ rw f (put_at-other s.threads i j _ (λ x. omega (arith, x, h, k)) ∙ b j k)
            | inr (old, f) ↦
                rw f (put_at-other s.threads i j _ (λ x. omega (arith, x, h, k)) ∙ b j k)
          ])
  ]

  search :
      (s : ThreadState R) (k : ℕ)
      → ((i : ℕ) → i < k → s.threads i ≡ none)
        ⊎ ((i : ℕ) × (i < k) × (c : ℕ × ℕ) × (s.threads i ≡ some c))
  search s zero = inl (λ i h. absurd (omega (arith, h)))
  search s (suc k) = elim (Option-cases (s.threads k)) [
    | inr (c, e) ↦ inr (k, omega arith, c, e)
    | inl e ↦ elim (search s k) [
      | inr (i, h, c, f) ↦ inr (i, omega (arith, h), c, f)
      | inl all ↦ inl (λ i h. elim (ℕ_discrete i k) [
        | yes d ↦ ap s.threads d ∙ e
        | no n ↦ all i (omega (arith, h, n))
      ])
    ]
  ]

  search-Active :
      (s : ThreadState R) → 0 < count → Beyond s → Finished s ⊎ ((i : ℕ) × (i < count) × Active s i)
  unfolding Beyond Finished Active
  search-Active s p b = elim (search s count) [
    | inr (i, h, c, e) ↦ inr (i, h, inl (c, e))
    | inl all ↦
        let idle : (i : ℕ) → s.threads i ≡ none = λ i. elim (Bool-cases (ltb i count)) [
          | inl h ↦ all i (ground (arith, h))
          | inr h ↦ b i (ground (arith, h))
        ] in
        elim (Bool-cases (ltb size s.dispenser)) [
          | inl h ↦ inl (idle, ground (arith, h))
          | inr h ↦ inr (0, p, inr (idle 0, ground (arith, h)))
        ]
  ]

  Continuation : ThreadState R → Type 0
  Continuation s =
      (more : List ℕ) × All (λ i. i < count) more
      × Finished (take_turns transformer reducer size s more)

  continuation :
      (fuel : ℕ) (s : ThreadState R)
      → 0 < size
      → 0 < count
      → Inv transformer reducer size s
      → Beyond s
      → remaining s < fuel
      → Continuation s
  unfolding take_turns Continuation
  continuation zero s z p h b f = absurd (omega (arith, f))
  continuation (suc fuel) s z p h b f = elim (search-Active s p b) [
    | inl done ↦ ([], tt, done)
    | inr (i, k, a) ↦
        let less = remaining-take_turn s i h k a in
        let (more, all, done) =
          continuation fuel (take_turn transformer reducer size s i) z p
            (Inv-take_turn transformer reducer size s i z h) (Beyond-take_turn s i k b)
            (omega (arith, less, f)) in
        (i ∷ more, (k, all), done)
  ]

  Beyond-take_turns :
      (s : ThreadState R) (schedule : List ℕ)
      → All (λ i. i < count) schedule
      → Beyond s
      → Beyond (take_turns transformer reducer size s schedule)
  unfolding take_turns
  Beyond-take_turns s [] a b = b
  Beyond-take_turns s (i ∷ schedule) a b =
      Beyond-take_turns (take_turn transformer reducer size s i) schedule a.1
        (Beyond-take_turn s i a.0 b)

  -- For two tasks or more and at least one thread, whatever steps the threads took so far, they can go
  -- on to a state in which no thread is in the do loop and every task was taken, and the root of pubs
  -- then points to the value of the implicit tree.
  pub transform_reduce-ends :
      (empty : R) (schedule : List ℕ)
      → 0 < size
      → 0 < count
      → All (λ i. i < count) schedule
      → (more : List ℕ) × All (λ i. i < count) more
        × Finished (
            take_turns transformer reducer size
              (take_turns transformer reducer size
                (initial_state transformer reducer size empty)
                schedule)
              more)
        × (result_at
              (take_turns transformer reducer size
                (take_turns transformer reducer size
                  (initial_state transformer reducer size empty)
                  schedule)
                more).results
              ((take_turns transformer reducer size
                  (take_turns transformer reducer size
                    (initial_state transformer reducer size empty)
                    schedule)
                  more).pubs
                0)
            ≡ some (tree transformer reducer size 0))
  unfolding Finished Continuation Beyond
  transform_reduce-ends empty schedule z p a =
      let s0 = initial_state transformer reducer size empty in
      let s = take_turns transformer reducer size s0 schedule in
      let h =
        Inv-take_turns transformer reducer size s0 schedule z
          (Inv-initial_state transformer reducer size empty) in
      let b = Beyond-take_turns s0 schedule a (λ i k. refl) in
      let (more, all, done) = continuation (suc (remaining s)) s z p h b (omega arith) in
      (
        more,
        all,
        done,
        result transformer reducer size (take_turns transformer reducer size s more)
            (Inv-take_turns transformer reducer size s more z h) done.0 done.1 z,
      )
