-- ===== src/Predicates/Commit.antt =====
-- src/toggles/predicates.cpp: `commit_stuff` leaves every predicate's list valid.
use motion_planning_gadget_s.Common.{
  ℕ, ◌≡◌, ◌≢◌, refl, sym, ap, ◌∙◌, Bool, true, false, ◌||◌, none, some, List, [], ◌∷◌, word,
}
use motion_planning_gadget_s.Intervals.Sets.{Interval, covers, IsMaximal, DisjointFrom-of_maximal}
use motion_planning_gadget_s.Intervals.Merge.{interval_union}
use motion_planning_gadget_s.Intervals.Merge.Union.{interval_union_lem}
use motion_planning_gadget_s.Intervals.Merge.Limits.{interval_union-Below}
use motion_planning_gadget_s.Intervals.Points.Inflate.{Below}
use motion_planning_gadget_s.Intervals.Stored.{Database, DatabaseLaws, to_bytes}
use motion_planning_gadget_s.Intervals.Stored.Bytes.{view_value-to_bytes}
use motion_planning_gadget_s.Predicates.Database.{
  keep, replace, change_view, change_of, marked, apply_change,
}

-- The maximal interval list, of 64-bit numbers, of those that `has` tells
pub record Lists64 (has : ℕ → Bool) (l : List Interval) : Type 0 where
  pub maximal : IsMaximal l
  pub below : Below word l
  pub members : (z : ℕ) → covers z l ≡ has z

union-Lists64 :
    (has told full : ℕ → Bool) (k l : List Interval)
    → Lists64 has k
    → Lists64 told l
    → ((z : ℕ) → full z ≡ (has z || told z))
    → Lists64 full (interval_union k l)
union-Lists64 has told full k l h t e =
    let (m, c) = interval_union_lem k l h.maximal t.maximal in
    record {
      maximal = m;
      below = interval_union-Below word k l h.below t.below;
      members = λ z.
          c z
          ∙ ap (λ b. b || covers z l) (h.members z)
          ∙ ap (λ b. has z || b) (t.members z)
          ∙ sym (e z);
    }

pub Lists64-change :
    (has told : ℕ → Bool) (l : List Interval)
    → ((z : ℕ) → told z ≡ has z)
    → Lists64 has l
    → Lists64 told l
Lists64-change has told l e h = record {
  maximal = h.maximal;
  below = h.below;
  members = λ z. h.members z ∙ sym (e z);
}

module _ {Key State : Type 0} (db : Database Key State) where
  -- The key's value has the numbers that `has` tells.
  unfoldable pub Stores : State → Key → (ℕ → Bool) → Type 0
  Stores s k has = (l : List Interval) × (db.get s k ≡ some (to_bytes l)) × Lists64 has l

  abbrev pub Exists : State → Key → Type 0
  Exists s k = (v : List ℕ) × (db.get s k ≡ some v)

  pub Stores-Exists : (s : State) (k : Key) (has : ℕ → Bool) → Stores s k has → Exists s k
  unfolding Stores
  Stores-Exists s k has (l, e, h) = (to_bytes l, e)

  -- An entry is done: its key has its full list, and the other keys have what they had.
  unfoldable pub Done : Bool → State → Bool → Key × List Interval → (ℕ → Bool) → Type 0
  Done same s u p full =
      (t : State × Bool) × (apply_change db s u p.0 (change_of same p.1 (db.get s p.0)) ≡ some t)
      × Stores t.0 p.0 full
      × ((j : Key) → j ≢ p.0 → db.get t.0 j ≡ db.get s j)

  module _ (laws : DatabaseLaws db)
      (puts : (s : State) (k : Key) (v : List ℕ) → (t : State) × (db.put s k v ≡ some t)) where
    Done-replace :
        (same : Bool) (s : State) (u : Bool) (p : Key × List Interval) (full : ℕ → Bool)
        (l : List Interval)
        → change_of same p.1 (db.get s p.0) ≡ replace l
        → Lists64 full l
        → Done same s u p full
    unfolding Done Stores
    Done-replace same s u p full l e h =
        let (t, k) = puts s p.0 (to_bytes l) in
        (
          (t, true),
          ap (apply_change db s u p.0) e ∙ ap marked k,
          (l, laws.same s t p.0 (to_bytes l) k, h),
          λ j n. laws.other s t p.0 j (to_bytes l) k n,
        )

    Done-keep :
        (same : Bool) (s : State) (u : Bool) (p : Key × List Interval) (full : ℕ → Bool)
        → change_of same p.1 (db.get s p.0) ≡ keep
        → Stores s p.0 full
        → Done same s u p full
    unfolding Done
    Done-keep same s u p full e h = ((s, u), ap (apply_change db s u p.0) e, h, λ j n. refl)

    pub Done-missing :
        (same : Bool) (s : State) (u : Bool) (p : Key × List Interval) (full : ℕ → Bool)
        → db.get s p.0 ≡ none
        → Lists64 full p.1
        → Done same s u p full
    unfolding change_of
    Done-missing same s u p full e h =
        Done-replace same s u p full p.1 (ap (change_of same p.1) e) h

    Done-differing :
        (s : State) (u : Bool) (k : Key) (l : List Interval) (part mid full : ℕ → Bool)
        → Lists64 part l
        → Stores s k mid
        → ((z : ℕ) → full z ≡ (part z || mid z))
        → Done false s u (k, l) full
    unfolding change_of Stores
    Done-differing s u k [] part mid full h (old, e, o) f =
        Done-keep false s u (k, []) full (ap (change_of false []) e)
          (
            old,
            e,
            Lists64-change mid full old (λ z. f z ∙ ap (λ b. b || mid z) (sym (h.members z))) o,
          )
    Done-differing s u k (i ∷ l) part mid full h (old, e, o) f =
        Done-replace false s u (k, i ∷ l) full (interval_union (i ∷ l) old)
          (ap (change_of false (i ∷ l)) e
            ∙ ap (change_view (i ∷ l))
                (view_value-to_bytes old (DisjointFrom-of_maximal 0 old o.maximal) o.below))
          (union-Lists64 part mid full (i ∷ l) old h o f)

    pub Done-stored :
        (same : Bool) (s : State) (u : Bool) (p : Key × List Interval) (part mid full : ℕ → Bool)
        → Lists64 part p.1
        → Stores s p.0 mid
        → ((z : ℕ) → full z ≡ (part z || mid z))
        → (same ≡ true → (z : ℕ) → full z ≡ mid z)
        → Done same s u p full
    unfolding change_of Stores
    Done-stored true s u p part mid full h (old, e, o) f g =
        Done-keep true s u p full (ap (change_of true p.1) e)
          (old, e, Lists64-change mid full old (g refl) o)
    Done-stored false s u p part mid full h st f g = Done-differing s u p.0 p.1 part mid full h st f
