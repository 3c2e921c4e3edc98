-- ===== src/Predicates/Demanded.antt =====
-- src/toggles/predicates.cpp: the entries that a demand's result gives to the commit.
use motion_planning_gadget_s.Common.{
  ℕ, zero, suc, ◌≤◌, ◌<◌, ◌≡◌, ◌≢◌, ◌⊎◌, sym, ap, ◌∙◌, inl, inr, Bool, true, List, [], ◌∷◌, ◌++◌,
  ◌==◌, ==_iff, word, arith, Bool-cases,
}
use motion_planning_gadget_s.Intervals.Sets.{Interval, covers, MaximalFrom}
use motion_planning_gadget_s.Intervals.Points.Inflate.{Below}
use motion_planning_gadget_s.Intervals.Points.RoundTrip.{elem}
use motion_planning_gadget_s.Predicates.{
  PredicateKind, locations, states, uedges, dedges, total_edges, components,
}
use motion_planning_gadget_s.Predicates.Update.{Lists, PredicateUpdateResult, lists}
use motion_planning_gadget_s.Predicates.Correct.{AreListsOf}
use motion_planning_gadget_s.Predicates.Database.{keyed}
use motion_planning_gadget_s.Predicates.Stuff.{Mem, Entries}
use motion_planning_gadget_s.Predicates.Result.{entries, within}

covers_last :
    (i : Interval) (l : List Interval) (z : ℕ) → i.0 ≤ z → z < i.1 → covers z (i ∷ l) ≡ true
covers_last i l z h k = ground (arith, h, k)

Below-of_covers :
    (lo n m : ℕ) (l : List Interval)
    → MaximalFrom lo l
    → n < m
    → ((z : ℕ) → covers z l ≡ true → z < n)
    → Below m l
Below-of_covers lo n m [] x h f = tt
Below-of_covers lo n m ((a, suc b) ∷ l) x h f =
    let last = f b (covers_last (a, suc b) l b (omega (arith, x.1)) (omega arith)) in
    (
      omega (arith, last, h),
      Below-of_covers (suc (suc b)) n m l x.2 h (λ z e. f z (ground (arith, e))),
    )
Below-of_covers lo n m ((a, zero) ∷ l) x h f = absurd (omega (arith, x.1))

module _ {Key : Type 0} (valid_before : Key) (has : Key → ℕ → Bool) (first last : ℕ)
    (small : last < word) where
  pub keyed-Entries :
      (key : ℕ → Key) (told : ℕ → ℕ → Bool) (bs : List ℕ) (ps : Lists)
      → ((b : ℕ) → key b ≢ valid_before)
      → ((b z : ℕ) → told b z ≡ within has first last (key b) z)
      → AreListsOf told bs ps
      → Entries valid_before (within has first last) (keyed key ps)
  keyed-Entries key told [] [] n e a = tt
  keyed-Entries key told [] (p ∷ ps) n e a = absurd a
  keyed-Entries key told (b ∷ bs) [] n e a = absurd a
  keyed-Entries key told (b ∷ bs) (p ∷ ps) n e a =
      let members : (z : ℕ) → covers z p.1 ≡ within has first last (key p.0) z =
        λ z. a.1.1 z ∙ e b z ∙ ap (λ c. within has first last (key c) z) (sym a.0) in
      (
        n p.0,
        record {
          maximal = a.1.0;
          below = Below-of_covers 0 last word p.1 a.1.0 small (λ z c. ground (arith, members z, c));
          members = members;
        },
        keyed-Entries key told bs ps n e a.2,
      )

module _ {Key : Type 0} where
  pub Entries-append :
      (valid_before : Key) (part : Key → ℕ → Bool) (xs ys : List (Key × List Interval))
      → Entries valid_before part xs
      → Entries valid_before part ys
      → Entries valid_before part (xs ++ ys)
  Entries-append v part [] ys x y = y
  Entries-append v part (p ∷ xs) ys x y = (x.0, x.1, Entries-append v part xs ys x.2 y)

  pub Mem-append :
      (k : Key) (xs ys : List (Key × List Interval)) → Mem k (xs ++ ys) → Mem k xs ⊎ Mem k ys
  Mem-append k [] ys m = inr m
  Mem-append k (p ∷ xs) ys (inl e) = inl (inl e)
  Mem-append k (p ∷ xs) ys (inr m) = elim (Mem-append k xs ys m) [
    | inl l ↦ inl (inr l)
    | inr r ↦ inr r
  ]

  pub Mem-left : (k : Key) (xs ys : List (Key × List Interval)) → Mem k xs → Mem k (xs ++ ys)
  Mem-left k [] ys m = absurd m
  Mem-left k (p ∷ xs) ys (inl e) = inl e
  Mem-left k (p ∷ xs) ys (inr m) = inr (Mem-left k xs ys m)

  pub Mem-right : (k : Key) (xs ys : List (Key × List Interval)) → Mem k ys → Mem k (xs ++ ys)
  Mem-right k [] ys m = m
  Mem-right k (p ∷ xs) ys m = inr (Mem-right k xs ys m)

  -- The keys of the entries are those of the demanded bounds.
  pub Mem-keyed :
      (key : ℕ → Key) (told : ℕ → ℕ → Bool) (b : ℕ) (bs : List ℕ) (ps : Lists)
      → AreListsOf told bs ps
      → elem b bs ≡ true
      → Mem (key b) (keyed key ps)
  Mem-keyed key told b [] ps a h = absurd (ground (arith, h))
  Mem-keyed key told b (c ∷ bs) [] a h = absurd a
  Mem-keyed key told b (c ∷ bs) (p ∷ ps) a h = elim (Bool-cases (b == c)) [
    | inl e ↦ inl (ap key ((==_iff b c).0 e ∙ sym a.0))
    | inr e ↦ inr (Mem-keyed key told b bs ps a.2 (ground (arith, h, e)))
  ]

  pub keyed-Mem :
      (key : ℕ → Key) (told : ℕ → ℕ → Bool) (k : Key) (bs : List ℕ) (ps : Lists)
      → AreListsOf told bs ps
      → Mem k (keyed key ps)
      → (b : ℕ) × (k ≡ key b) × (elem b bs ≡ true)
  keyed-Mem key told k bs [] a m = absurd m
  keyed-Mem key told k [] (p ∷ ps) a m = absurd a
  keyed-Mem key told k (b ∷ bs) (p ∷ ps) a (inl e) = (b, e ∙ ap key a.0, ground arith)
  keyed-Mem key told k (b ∷ bs) (p ∷ ps) a (inr m) =
      let (c, e, h) = keyed-Mem key told k bs ps a.2 m in (c, e, ground (arith, h))

module _ {Key : Type 0} (key : PredicateKind → ℕ → Key) (r : PredicateUpdateResult) where
  abbrev of_kind : PredicateKind → List (Key × List Interval)
  of_kind kind = keyed (key kind) (lists kind r)

  abbrev from_total : List (Key × List Interval)
  from_total = of_kind total_edges ++ of_kind components

  abbrev from_dedges : List (Key × List Interval)
  from_dedges = of_kind dedges ++ from_total

  abbrev from_uedges : List (Key × List Interval)
  from_uedges = of_kind uedges ++ from_dedges

  abbrev from_states : List (Key × List Interval)
  from_states = of_kind states ++ from_uedges

  Mem-from_dedges : (k : Key) → Mem k from_dedges → Mem k (entries key r)
  Mem-from_dedges k m =
      Mem-right k (of_kind locations) from_states
        (Mem-right k (of_kind states) from_uedges (Mem-right k (of_kind uedges) from_dedges m))

  Mem-from_total : (k : Key) → Mem k from_total → Mem k (entries key r)
  Mem-from_total k m = Mem-from_dedges k (Mem-right k (of_kind dedges) from_total m)

  -- The entries of a result are those of its kinds.
  pub Mem-of_kind : (k : Key) (kind : PredicateKind) → Mem k (of_kind kind) → Mem k (entries key r)
  Mem-of_kind k locations m = Mem-left k (of_kind locations) from_states m
  Mem-of_kind k states m =
      Mem-right k (of_kind locations) from_states (Mem-left k (of_kind states) from_uedges m)
  Mem-of_kind k uedges m =
      Mem-right k (of_kind locations) from_states
        (Mem-right k (of_kind states) from_uedges (Mem-left k (of_kind uedges) from_dedges m))
  Mem-of_kind k dedges m = Mem-from_dedges k (Mem-left k (of_kind dedges) from_total m)
  Mem-of_kind k total_edges m =
      Mem-from_total k (Mem-left k (of_kind total_edges) (of_kind components) m)
  Mem-of_kind k components m =
      Mem-from_total k (Mem-right k (of_kind total_edges) (of_kind components) m)

  pub kind-of_Mem :
      (k : Key)
      → Mem k (entries key r)
      → (kind : PredicateKind) × Mem k (keyed (key kind) (lists kind r))
  kind-of_Mem k m = elim (Mem-append k (keyed (key locations) r.locations) _ m) [
    | inl a ↦ (locations, a)
    | inr m1 ↦ elim (Mem-append k (keyed (key states) r.states) _ m1) [
      | inl a ↦ (states, a)
      | inr m2 ↦ elim (Mem-append k (keyed (key uedges) r.uedges) _ m2) [
        | inl a ↦ (uedges, a)
        | inr m3 ↦ elim (Mem-append k (keyed (key dedges) r.dedges) _ m3) [
          | inl a ↦ (dedges, a)
          | inr m4 ↦ elim (Mem-append k (keyed (key total_edges) r.tedges) _ m4) [
            | inl a ↦ (total_edges, a)
            | inr a ↦ (components, a)
          ]
        ]
      ]
    ]
  ]

  pub Entries-of_kinds :
      (valid_before : Key) (part : Key → ℕ → Bool)
      → ((kind : PredicateKind) → Entries valid_before part (keyed (key kind) (lists kind r)))
      → Entries valid_before part (entries key r)
  Entries-of_kinds v part e = Entries-append v part (of_kind locations) from_states (e locations) (
      Entries-append v part (of_kind states) from_uedges (e states) (
        Entries-append v part (of_kind uedges) from_dedges (e uedges) (
          Entries-append v part (of_kind dedges) from_total (e dedges) (
            Entries-append v part (of_kind total_edges) (of_kind components) (e total_edges)
              (e components)))))
