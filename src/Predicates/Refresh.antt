-- ===== src/Predicates/Refresh.antt =====
-- src/toggles/predicates.cpp: the update of a valid database, from the scan to the commit.
use motion_planning_gadget_s.Common.{
  ℕ, ◌≤◌, ◌<◌, ◌≡◌, ◌≢◌, sym, ap, subst, ◌∙◌, Bool, true, ◌&&◌, leb, ltb, Option, none, some, List,
  word, arith,
}
use motion_planning_gadget_s.Gadget.{Stats}
use motion_planning_gadget_s.Intervals.Points.RoundTrip.{elem}
use motion_planning_gadget_s.Intervals.Stored.{Database, DatabaseLaws}
use motion_planning_gadget_s.Predicates.{PredicateKind, PredicateDemand, bounds, datum}
use motion_planning_gadget_s.Predicates.Update.{PredicateUpdateResult, update_basecase, lists}
use motion_planning_gadget_s.Predicates.Correct.{AscendingFrom}
use motion_planning_gadget_s.Predicates.Batches.{update_basecase_lem}
use motion_planning_gadget_s.SelectById.Rows.{Indexed}
use motion_planning_gadget_s.Predicates.Database.{update_sl_predicates_commit}
use motion_planning_gadget_s.Predicates.Commit.{Exists}
use motion_planning_gadget_s.Predicates.Stuff.{Mem}
use motion_planning_gadget_s.Predicates.Result.{entries, within, IsValid}
use motion_planning_gadget_s.Predicates.Validity.{update_sl_predicates_commit_lem}
use motion_planning_gadget_s.Predicates.Demanded.{
  keyed-Entries, Mem-keyed, keyed-Mem, Mem-of_kind, kind-of_Mem, Entries-of_kinds,
}

module _ {Key State : Type 0} (db : Database Key State) (key : PredicateKind → ℕ → Key)
    (valid_before : Key) (has : Key → ℕ → Bool) (seek : ℕ → Option (ℕ × List ℕ))
    (get : ℕ → Option (List ℕ)) (hash_of : ℕ → ℕ) (stats_of : ℕ → Stats) where
  -- The keys are about the statistics of the gadgets.
  abbrev pub Agrees : Type 0
  Agrees = (kind : PredicateKind) (b z : ℕ) → has (key kind b) z ≡ leb (datum kind (stats_of z)) b

  -- For a database that is valid up to `actual`, in which each put succeeds and the keys are not
  -- valid_before and about the statistics of the gadgets, a demand from 1 ≤ begin_inclusive ≤ actual up
  -- to actual ≤ end_exclusive < 2 ^ 64 with ascending bounds, and the demanded gadgets in the index and
  -- in the hash table, the scan ends without an exception and its commit leaves the database valid up to
  -- end_exclusive, with a key for every demanded bound, if a bound without a key is only demanded from
  -- id 1 on, and no existing key is left out unless the database is already valid up to end_exclusive.
  pub update_sl_predicates_lem :
      (s : State) (d : PredicateDemand) (actual : ℕ)
      → Discrete Key
      → DatabaseLaws db
      → ((s : State) (k : Key) (v : List ℕ) → (t : State) × (db.put s k v ≡ some t))
      → ((kind : PredicateKind) (b : ℕ) → key kind b ≢ valid_before)
      → Indexed seek get hash_of stats_of d.begin_inclusive d.end_exclusive
      → Agrees
      → ((kind : PredicateKind) → AscendingFrom 0 (bounds kind d))
      → IsValid db valid_before has s actual
      → 1 ≤ d.begin_inclusive
      → d.begin_inclusive ≤ actual
      → actual ≤ d.end_exclusive
      → d.end_exclusive < word
      → ((kind : PredicateKind) (b : ℕ)
          → elem b (bounds kind d) ≡ true
          → db.get s (key kind b) ≡ none
          → d.begin_inclusive ≤ 1)
      → (actual < d.end_exclusive
          → (k : Key) → k ≢ valid_before
          → Exists db s k
          → (kind : PredicateKind) × (b : ℕ) × (k ≡ key kind b) × (elem b (bounds kind d) ≡ true))
      → (result : PredicateUpdateResult) × (t : State × Bool) × (update_basecase seek get d
          ≡ some result)
        × (update_sl_predicates_commit db key valid_before s d.end_exclusive result ≡ some t)
        × IsValid db valid_before has t.0 d.end_exclusive
        × ((kind : PredicateKind) (b : ℕ)
            → elem b (bounds kind d) ≡ true
            → Exists db t.0 (key kind b))
  update_sl_predicates_lem s d actual discrete laws puts names indexed agrees ascend v h i j w new
        stored =
      let (result, e, a) =
        update_basecase_lem seek get hash_of stats_of d indexed h (omega (arith, i, j)) w ascend in
      let mem : (kind : PredicateKind) (b : ℕ)
          → elem b (bounds kind d) ≡ true
          → Mem (key kind b) (entries key result) =
        λ kind b m.
          Mem-of_kind key result (key kind b) kind
            (Mem-keyed (key kind) _ b (bounds kind d) (lists kind result) (a kind) m) in
      let (t, c, valid, present) =
        update_sl_predicates_commit_lem db key valid_before has s result d.begin_inclusive actual
          d.end_exclusive discrete laws puts v h i j w
          (Entries-of_kinds key result valid_before (within has d.begin_inclusive d.end_exclusive)
            (λ kind.
              keyed-Entries valid_before has d.begin_inclusive d.end_exclusive w (key kind) _
                (bounds kind d) (lists kind result) (names kind)
                (λ b z.
                  ap (λ o. leb d.begin_inclusive z && (ltb z d.end_exclusive && o))
                    (sym (agrees kind b z)))
                (a kind)))
          (λ k n m.
            let (kind, l) = kind-of_Mem key result k m in
            let (b, q, x) =
              keyed-Mem (key kind) _ k (bounds kind d) (lists kind result) (a kind) l in
            new kind b x (ap (db.get s) (sym q) ∙ n))
          (λ lt k n x.
            let (kind, b, q, y) = stored lt k n x in
            subst (λ o. Mem o (entries key result)) (sym q) (mem kind b y)) in
      (result, t, e, c, valid, λ kind b m. present (key kind b) (mem kind b m))
