-- ===== src/Predicates/Validity.antt =====
-- src/toggles/predicates.cpp: `update_SL_predicates_commit` keeps the predicates' database valid.
use motion_planning_gadget_s.Common.{
  ℕ, ◌≤◌, ◌<◌, ◌≡◌, ◌≢◌, ◌⊎◌, refl, ap, subst, ◌∙◌, inl, inr, Bool, true, false, ◌||◌, none, some,
  List, ltb, ◌==◌, word, arith, ◌>>=◌, Bool-cases,
}
use motion_planning_gadget_s.Varint.{store}
use motion_planning_gadget_s.Intervals.Sets.{Interval}
use motion_planning_gadget_s.Intervals.Stored.{Database, DatabaseLaws}
use motion_planning_gadget_s.Predicates.{PredicateKind}
use motion_planning_gadget_s.Predicates.Update.{PredicateUpdateResult}
use motion_planning_gadget_s.Predicates.Database.{
  raise, commit_from, commit_result, from_sv, update_sl_predicates_commit,
}
use motion_planning_gadget_s.Predicates.Commit.{Stores, Exists}
use motion_planning_gadget_s.Predicates.Stuff.{Mem, Entries, Ready, commit_stuff-Committed}
use motion_planning_gadget_s.Predicates.Result.{
  from_sv-store, entries, commit_result-entries, within, IsValid,
}

module _ {Key State : Type 0} (db : Database Key State) (key : PredicateKind → ℕ → Key)
    (valid_before : Key) (has : Key → ℕ → Bool) where
  -- The new number is put, or was there.
  Raised : State → ℕ → ℕ → Type 0
  Raised s speculative actual =
      (t : State) × (raise db key valid_before s speculative actual ≡ some t)
      × (db.get t valid_before ≡ some (store 8 speculative))
      × ((k : Key) → k ≢ valid_before → db.get t k ≡ db.get s k)

  raise-Raised :
      (s : State) (speculative actual : ℕ)
      → DatabaseLaws db
      → ((s : State) (k : Key) (v : List ℕ) → (t : State) × (db.put s k v ≡ some t))
      → db.get s valid_before ≡ some (store 8 actual)
      → actual ≤ speculative
      → Raised s speculative actual
  unfolding Raised
  raise-Raised s speculative actual laws puts e h = elim (Bool-cases (ltb actual speculative)) [
    | inl k ↦
        let (t, p) = puts s valid_before (store 8 speculative) in
        (
          t,
          rw k p,
          laws.same s t valid_before (store 8 speculative) p,
          λ j n. laws.other s t valid_before j (store 8 speculative) p n,
        )
    | inr k ↦
        let same : actual ≡ speculative = ground (arith, h, k) in
        (s, rw k refl, e ∙ ap (λ v. some (store 8 v)) same, λ j n. refl)
  ]

  within-split :
      (first actual speculative : ℕ) (k : Key) (z : ℕ)
      → 1 ≤ first
      → first ≤ actual
      → actual ≤ speculative
      → within has 1 speculative k z ≡ (within has first speculative k z || within has 1 actual k z)
  within-split first actual speculative k z h i j = ground arith

  valid-Ready :
      (first actual speculative : ℕ) (s t : State) (stuff : List (Key × List Interval)) (k : Key)
      → 1 ≤ first
      → actual ≤ speculative
      → db.get t k ≡ db.get s k
      → ((db.get s k ≡ none) ⊎ Stores db s k (within has 1 actual k))
      → (db.get s k ≡ none → Mem k stuff → first ≤ 1)
      → (actual < speculative → Exists db s k → Mem k stuff)
      → Ready db valid_before
          (within has first speculative)
          (within has 1 actual)
          (within has 1 speculative)
          t
          stuff
          k
  unfolding Stores
  valid-Ready first actual speculative s t stuff k h i frame v new stored = elim v [
    | inl e ↦ inl (
      frame ∙ e,
      λ m z.
          let one : 1 ≡ first = omega (arith, h, new e m) in
          ap (λ n. within has n speculative k z) one,
    )
    | inr (l, e, o) ↦ elim (Bool-cases (ltb actual speculative)) [
      | inl c ↦ inr (inr (stored (ground (arith, c)) (_, e), (l, frame ∙ e, o)))
      | inr c ↦
          let same : actual ≡ speculative = ground (arith, c, i) in
          inr (inl (subst (λ n. Stores db t k (within has 1 n k)) same (l, frame ∙ e, o)))
    ]
  ]

  -- In a database that is valid up to `actual`, committing a result for the ids from `first` up to
  -- `speculative`, with first ≤ actual ≤ speculative, ends without an exception and leaves the
  -- database valid up to `speculative`, with a key for every entry, if an entry without a key is
  -- only there when `first` is 1, and no key is without an entry unless `actual` is `speculative`.
  pub update_sl_predicates_commit_lem :
      (s : State) (result : PredicateUpdateResult) (first actual speculative : ℕ)
      → Discrete Key
      → DatabaseLaws db
      → ((s : State) (k : Key) (v : List ℕ) → (t : State) × (db.put s k v ≡ some t))
      → IsValid db valid_before has s actual
      → 1 ≤ first
      → first ≤ actual
      → actual ≤ speculative
      → speculative < word
      → Entries valid_before (within has first speculative) (entries key result)
      → ((k : Key) → db.get s k ≡ none → Mem k (entries key result) → first ≤ 1)
      → (actual < speculative
          → (k : Key) → k ≢ valid_before
          → Exists db s k
          → Mem k (entries key result))
      → (t : State × Bool) × (update_sl_predicates_commit db key valid_before s speculative result
          ≡ some t)
        × IsValid db valid_before has t.0 speculative
        × ((k : Key) → Mem k (entries key result) → Exists db t.0 k)
  unfolding update_sl_predicates_commit Raised
  update_sl_predicates_commit_lem s result first actual speculative discrete laws puts v h i j w e
        new stored =
      let same = speculative == actual in
      let (t, r, n, frame) = raise-Raised s speculative actual laws puts v.number j in
      let (u, c, d) =
        commit_stuff-Committed db valid_before (within has first speculative) (within has 1 actual)
          (within has 1 speculative) discrete laws puts same
          (λ k z. within-split first actual speculative k z h i j)
          (λ g k z.
            let eq : speculative ≡ actual = ground (arith, g) in ap (λ m. within has 1 m k z) eq)
          t false (entries key result) e
          (λ k x.
            valid-Ready first actual speculative s t (entries key result) k h j (frame k x)
              (v.lists k x) (new k) (λ lt. stored lt k x)) in
      let up_to_date : ltb speculative actual ≡ false = ground (arith, j) in
      (
        u,
        ap
              (λ o. o >>= λ value.
                from_sv value >>= commit_from db key valid_before s speculative result)
              v.number
            ∙ ap (λ o. o >>= commit_from db key valid_before s speculative result)
                (from_sv-store actual (omega (arith, j, w)))
            ∙ rw up_to_date (
                ap (λ o. o >>= λ x. commit_result db key valid_before same x result) r
                ∙ commit_result-entries db key valid_before same t result
                ∙ c),
        record { number = d.bound ∙ n; lists = d.lists },
        λ k m. d.present k (inr m),
      )

  -- A result for fewer ids than the database is already valid for changes nothing.
  pub update_sl_predicates_commit-behind :
      (s : State) (result : PredicateUpdateResult) (actual speculative : ℕ)
      → IsValid db valid_before has s actual
      → speculative < actual
      → actual < word
      → update_sl_predicates_commit db key valid_before s speculative result ≡ some (s, false)
  unfolding update_sl_predicates_commit
  update_sl_predicates_commit-behind s result actual speculative v h w =
      let behind : ltb speculative actual ≡ true = ground (arith, h) in
      ap
        (λ o. o >>= λ value. from_sv value >>= commit_from db key valid_before s speculative result)
        v.number
      ∙ ap (λ o. o >>= commit_from db key valid_before s speculative result)
          (from_sv-store actual w)
      ∙ rw behind refl
