-- ===== src/Predicates/Queries.antt =====
-- src/toggles/predicates.cpp: the queries, of a valid database.
use motion_planning_gadget_s.Common.{
  ℕ, ◌-◌, ◌≤◌, ◌<◌, ◌≡◌, ◌≢◌, ◌⊎◌, refl, sym, ap, subst, ◌∙◌, inl, inr, Bool, true, false, not,
  ◌&&◌, some, List, leb, ◌==◌, word32, sub32, arith, ◌>>=◌, Bool-cases,
}
use motion_planning_gadget_s.Intervals.Sets.{
  Interval, covers, IsDisjoint, IsMaximal, DisjointFrom-of_maximal,
}
use motion_planning_gadget_s.Intervals.Sweep.{interval_difference, interval_intersection}
use motion_planning_gadget_s.Intervals.Sweep.Difference.{interval_difference_lem}
use motion_planning_gadget_s.Intervals.Sweep.Intersection.{interval_intersection_lem}
use motion_planning_gadget_s.Intervals.Stored.{Database, to_bytes, view_value, view_interval_list}
use motion_planning_gadget_s.Intervals.Stored.Bytes.{view_value-to_bytes}
use motion_planning_gadget_s.Predicates.{
  PredicateKind, locations, states, uedges, dedges, total_edges, components,
}
use motion_planning_gadget_s.Predicates.Database.{
  required, intersected, is_locations, get_predicate, get_predicate_range_query,
  get_equal_predicate, subtract_predicate, intersect_predicate,
}
use motion_planning_gadget_s.Predicates.Commit.{Lists64, Stores}

module _ {Key State : Type 0} (db : Database Key State) (key : PredicateKind → ℕ → Key) where
  required-list :
      (s : State) (k : Key) (l : List Interval) (has : ℕ → Bool)
      → db.get s k ≡ some (to_bytes l)
      → Lists64 has l
      → required (view_interval_list db s k) ≡ some l
  required-list s k l has e h =
      ap (λ v. required (view_value v)) e
      ∙ ap required (view_value-to_bytes l (DisjointFrom-of_maximal 0 l h.maximal) h.below)

  -- Where a predicate's list is stored, get_predicate returns the maximal list of its ids.
  pub get_predicate_lem :
      (s : State) (kind : PredicateKind) (bound : ℕ) (has : ℕ → Bool)
      → Stores db s (key kind bound) has
      → (ret : List Interval) × (get_predicate db key s kind bound ≡ some ret)
        × IsMaximal ret
        × ((z : ℕ) → covers z ret ≡ has z)
  unfolding get_predicate Stores
  get_predicate_lem s kind bound has (l, e, h) =
      (l, required-list s (key kind bound) l has e h, h.maximal, h.members)

  get_predicate_range_query_lem :
      (s : State) (kind : PredicateKind) (low high : ℕ) (has told : ℕ → Bool)
      → Stores db s (key kind low) has
      → Stores db s (key kind high) told
      → (ret : List Interval) × (get_predicate_range_query db key s kind low high ≡ some ret)
        × IsDisjoint ret
        × ((z : ℕ) → covers z ret ≡ (told z && not (has z)))
  unfolding get_predicate_range_query Stores
  get_predicate_range_query_lem s kind low high has told (l, e, h) (k, f, t) =
      let (ret, d, i, c) =
        interval_difference_lem k l (DisjointFrom-of_maximal 0 k t.maximal)
          (DisjointFrom-of_maximal 0 l h.maximal) in
      (
        ret,
        ap
              (λ o. o >>= λ upper. required (view_interval_list db s (key kind low)) >>= λ lower.
                interval_difference upper lower)
              (required-list s (key kind high) k told f t)
            ∙ ap (λ o. o >>= λ lower. interval_difference k lower)
                (required-list s (key kind low) l has e h)
            ∙ d,
        i,
        λ z.
            c z
            ∙ ap (λ b. b && not (covers z l)) (t.members z)
            ∙ ap (λ b. told z && not b) (h.members z),
      )

  -- Where a predicate's list is stored, subtract_predicate leaves of disjoint intervals the numbers
  -- that are not its ids.
  pub subtract_predicate_lem :
      (s : State) (kind : PredicateKind) (bound : ℕ) (has : ℕ → Bool) (intervals : List Interval)
      → Stores db s (key kind bound) has
      → IsDisjoint intervals
      → (ret : List Interval) × (subtract_predicate db key s kind bound intervals ≡ some ret)
        × IsDisjoint ret
        × ((z : ℕ) → covers z ret ≡ (covers z intervals && not (has z)))
  unfolding subtract_predicate Stores
  subtract_predicate_lem s kind bound has intervals (l, e, h) j =
      let (ret, d, i, c) =
        interval_difference_lem intervals l j (DisjointFrom-of_maximal 0 l h.maximal) in
      (
        ret,
        ap (λ o. o >>= λ x. interval_difference intervals x)
              (required-list s (key kind bound) l has e h)
            ∙ d,
        i,
        λ z. c z ∙ ap (λ b. covers z intervals && not b) (h.members z),
      )

  -- Where a predicate's list is stored, intersect_predicate keeps of a maximal list its ids.
  pub intersect_predicate_lem :
      (s : State) (kind : PredicateKind) (bound : ℕ) (has : ℕ → Bool) (intervals : List Interval)
      → Stores db s (key kind bound) has
      → IsMaximal intervals
      → (ret : List Interval) × (intersect_predicate db key s kind bound intervals ≡ some ret)
        × IsMaximal ret
        × ((z : ℕ) → covers z ret ≡ (covers z intervals && has z))
  unfolding intersect_predicate Stores
  intersect_predicate_lem s kind bound has intervals (l, e, h) j =
      let (m, c) = interval_intersection_lem intervals l j h.maximal in
      (
        interval_intersection intervals l,
        ap (λ o. o >>= intersected intervals) (required-list s (key kind bound) l has e h),
        m,
        λ z. c z ∙ ap (λ b. covers z intervals && b) (h.members z),
      )

  only_locations : (kind : PredicateKind) → is_locations kind ≡ true → kind ≡ locations
  only_locations locations h = refl
  only_locations states h = absurd (ground (arith, h))
  only_locations uedges h = absurd (ground (arith, h))
  only_locations dedges h = absurd (ground (arith, h))
  only_locations total_edges h = absurd (ground (arith, h))
  only_locations components h = absurd (ground (arith, h))

  -- For 0 < n < 2 ^ 32, where the lists of the bounds n and n - 1 have the ids of `exists` whose datum
  -- is at most the bound, and no gadget has less than two locations, get_equal_predicate of n returns
  -- disjoint intervals of exactly the ids of `exists` whose datum is n, also for two locations, where it
  -- does not ask for the list of the bound 1.
  pub get_equal_predicate_lem :
      (s : State) (kind : PredicateKind) (n : ℕ) (exists : ℕ → Bool)
      (data_of : PredicateKind → ℕ → ℕ)
      → 0 < n
      → n < word32
      → ((z : ℕ) → exists z ≡ true → 2 ≤ data_of locations z)
      → Stores db s (key kind n) (λ z. exists z && leb (data_of kind z) n)
      → (kind ≢ locations ⊎ n ≢ 2
          → Stores db s (key kind (n - 1)) (λ z. exists z && leb (data_of kind z) (n - 1)))
      → (ret : List Interval) × (get_equal_predicate db key s kind n ≡ some ret)
        × IsDisjoint ret
        × ((z : ℕ) → covers z ret ≡ (exists z && data_of kind z == n))
  unfolding get_equal_predicate
  get_equal_predicate_lem s kind n exists data_of h w two st below =
      elim (Bool-cases (is_locations kind && n == 2)) [
        | inl e ↦
            let l : kind ≡ locations = only_locations kind (ground (arith, e)) in
            let m : n ≡ 2 = ground (arith, e) in
            let (ret, g, d, c) =
              get_predicate_lem s kind n (λ z. exists z && leb (data_of kind z) n) st in
            (
              ret,
              rw e g,
              DisjointFrom-of_maximal 0 ret d,
              λ z.
                  c z
                  ∙ two_locations z n kind m (λ x. subst (λ k. 2 ≤ data_of k z) (sym l) (two z x)),
            )
        | inr e ↦
            let other : kind ≢ locations ⊎ n ≢ 2 = differs kind n e in
            let p : sub32 n 1 ≡ n - 1 = omega (arith, h, w) in
            let (ret, g, d, c) =
              get_predicate_range_query_lem s kind (n - 1) n _ _ (below other) st in
            (ret, rw (e, p) g, d, λ z. c z ∙ ground (arith, h))
      ]
    where
      two_locations :
          (z n : ℕ) (kind : PredicateKind)
          → n ≡ 2
          → (exists z ≡ true → 2 ≤ data_of kind z)
          → (exists z && leb (data_of kind z) n) ≡ (exists z && data_of kind z == n)
      two_locations z n kind m f = elim (Bool-cases (exists z)) [
        | inl e ↦ ground (arith, f e, m, e)
        | inr e ↦ ground (arith, e)
      ]

      differs :
          (kind : PredicateKind) (n : ℕ)
          → (is_locations kind && n == 2) ≡ false
          → kind ≢ locations ⊎ n ≢ 2
      differs kind n e = elim (Bool-cases (n == 2)) [
        | inl f ↦
            inl
              (λ k. let t : is_locations kind ≡ true = ap is_locations k in ground (arith, e, f, t))
        | inr f ↦ inr (λ k. ground (arith, f, k))
      ]
