-- ===== src/Intervals/Stored/Views.antt =====
-- src/toggles/lmdb-interval-list.cpp: the operations on a key's interval list.
use motion_planning_gadget_s.Common.{
  ℕ, ◌≡◌, ◌≢◌, ◌⊎◌, refl, sym, ap, ◌∙◌, inl, inr, not, ◌&&◌, ◌||◌, none, some, List, [], ◌∷◌, word,
}
use motion_planning_gadget_s.Intervals.Sets.{
  Interval, covers, IsDisjoint, IsMaximal, DisjointFrom-of_maximal,
}
use motion_planning_gadget_s.Intervals.Merge.{interval_union}
use motion_planning_gadget_s.Intervals.Merge.Union.{interval_union_lem}
use motion_planning_gadget_s.Intervals.Merge.Limits.{interval_union-Below}
use motion_planning_gadget_s.Intervals.Points.Inflate.{Below}
use motion_planning_gadget_s.Intervals.Sweep.{interval_difference, interval_intersection}
use motion_planning_gadget_s.Intervals.Sweep.Difference.{interval_difference_lem}
use motion_planning_gadget_s.Intervals.Sweep.Intersection.{interval_intersection_lem}
use motion_planning_gadget_s.Intervals.Stored.{
  Database, DatabaseLaws, to_bytes, View, viewed, missing, view_value, view_interval_list,
  subtract_view, intersect_view, union_view, subtract_interval_list, intersect_interval_list,
  returning, put_result, write_interval_list_union,
}
use motion_planning_gadget_s.Intervals.Stored.Bytes.{view_value-to_bytes}

module _ {Key State : Type 0} (db : Database Key State) where
  -- The value of the key is a maximal interval list of 64-bit numbers; a missing key stands for the
  -- empty list.
  pub record HasList (s : State) (key : Key) (l : List Interval) : Type 0 where
    pub value : (db.get s key ≡ some (to_bytes l)) ⊎ ((db.get s key ≡ none) × (l ≡ []))
    pub maximal : IsMaximal l
    pub below : Below word l

  IsViewOf : (v : View) (l : List Interval) → Type 0
  IsViewOf v l = (v ≡ viewed l) ⊎ ((v ≡ missing) × (l ≡ []))

  HasList-view :
      (s : State) (key : Key) (l : List Interval)
      → HasList s key l
      → IsViewOf (view_interval_list db s key) l
  unfolding IsViewOf view_value
  HasList-view s key l h = elim h.value [
    | inl e ↦
        inl
          (ap view_value e ∙ view_value-to_bytes l (DisjointFrom-of_maximal 0 l h.maximal) h.below)
    | inr (e, n) ↦ inr (ap view_value e, n)
  ]

  difference-nil : (l : List Interval) → interval_difference l [] ≡ some l
  unfolding interval_difference
  difference-nil [] = refl
  difference-nil (i ∷ l) = refl

  subtract_view-list :
      (v : View) (old intervals : List Interval)
      → IsViewOf v old
      → subtract_view v intervals ≡ interval_difference intervals old
  unfolding IsViewOf
  subtract_view-list v old intervals h = elim h [
    | inl e ↦ rw e refl
    | inr (e, n) ↦ rw (e, n) (sym (difference-nil intervals))
  ]

  intersection-nil : (l : List Interval) → interval_intersection l [] ≡ []
  unfolding interval_intersection
  intersection-nil [] = refl
  intersection-nil (i ∷ l) = refl

  intersect_view-list :
      (v : View) (old intervals : List Interval)
      → IsViewOf v old
      → intersect_view v intervals ≡ some (interval_intersection intervals old)
  unfolding IsViewOf
  intersect_view-list v old intervals h = elim h [
    | inl e ↦ rw e refl
    | inr (e, n) ↦ rw (e, n) (ap some (sym (intersection-nil intervals)))
  ]

  union-nil : (l : List Interval) → interval_union [] l ≡ l
  unfolding interval_union
  union-nil [] = refl
  union-nil (i ∷ l) = refl

  union_view-list :
      (v : View) (old intervals : List Interval)
      → IsViewOf v old
      → union_view v intervals ≡ some (interval_union old intervals)
  unfolding IsViewOf
  union_view-list v old intervals h = elim h [
    | inl e ↦ rw e refl
    | inr (e, n) ↦ rw (e, n) (ap some (sym (union-nil intervals)))
  ]

  -- Where a key has a maximal interval list, subtracting it from disjoint intervals does not throw,
  -- and leaves disjoint intervals of the numbers that are not in the key's list.
  pub subtract_interval_list_lem :
      (s : State) (key : Key) (old intervals : List Interval)
      → HasList s key old
      → IsDisjoint intervals
      → (ret : List Interval) × (subtract_interval_list db s key intervals ≡ some ret)
        × IsDisjoint ret
        × ((x : ℕ) → covers x ret ≡ (covers x intervals && not (covers x old)))
  unfolding subtract_interval_list
  subtract_interval_list_lem s key old intervals h d =
      let (ret, e, k, c) =
        interval_difference_lem intervals old d (DisjointFrom-of_maximal 0 old h.maximal) in
      (
        ret,
        subtract_view-list (view_interval_list db s key) old intervals (HasList-view s key old h)
            ∙ e,
        k,
        c,
      )

  -- Where a key has a maximal interval list, intersecting a maximal list with it does not throw, and
  -- gives the maximal list of the common numbers.
  pub intersect_interval_list_lem :
      (s : State) (key : Key) (old intervals : List Interval)
      → HasList s key old
      → IsMaximal intervals
      → (ret : List Interval) × (intersect_interval_list db s key intervals ≡ some ret)
        × IsMaximal ret
        × ((x : ℕ) → covers x ret ≡ (covers x intervals && covers x old))
  unfolding intersect_interval_list
  intersect_interval_list_lem s key old intervals h d =
      let (m, c) = interval_intersection_lem intervals old d h.maximal in
      (
        interval_intersection intervals old,
        intersect_view-list (view_interval_list db s key) old intervals (HasList-view s key old h),
        m,
        c,
      )

  -- Where puts succeed and keep their laws, and a key has a maximal interval list of 64-bit numbers
  -- or is missing, writing the union with another such list leaves the key with the maximal list of
  -- the numbers of both, returns that list, and leaves every other key's value alone.
  pub write_interval_list_union_lem :
      (s : State) (key : Key) (old intervals : List Interval)
      → DatabaseLaws db
      → ((v : List ℕ) → (t : State) × (db.put s key v ≡ some t))
      → HasList s key old
      → IsMaximal intervals
      → Below word intervals
      → (t : State) × (ret : List Interval) × (write_interval_list_union db s key intervals
          ≡ some (ret, t))
        × HasList t key ret
        × ((x : ℕ) → covers x ret ≡ (covers x old || covers x intervals))
        × ((j : Key) → j ≢ key → db.get t j ≡ db.get s j)
  unfolding write_interval_list_union
  write_interval_list_union_lem s key old intervals laws puts h m b =
      let ret = interval_union old intervals in
      let (t, p) = puts (to_bytes ret) in
      let (n, c) = interval_union_lem old intervals h.maximal m in
      (
        t,
        ret,
        ap (put_result db s key) (
              union_view-list (view_interval_list db s key) old intervals
                (HasList-view s key old h))
            ∙ ap (returning ret) p,
        record {
          value = inl (laws.same s t key (to_bytes ret) p);
          maximal = n;
          below = interval_union-Below word old intervals h.below b;
        },
        c,
        λ j k. laws.other s t key j (to_bytes ret) p k,
      )
