-- ===== src/Predicates/Result.antt =====
-- src/toggles/predicates.cpp: the six calls of `commit_stuff` as one, and the valid databases.
use motion_planning_gadget_s.Common.{
  ℕ, ◌<◌, ◌≡◌, ◌≢◌, ◌⊎◌, refl, sym, ap, ◌∙◌, Bool, false, ◌&&◌, Option, none, some, List, [], ◌∷◌,
  ◌++◌, ltb, leb, append-nil, word, arith, ◌>>=◌,
}
use motion_planning_gadget_s.Varint.{store, load}
use motion_planning_gadget_s.Varint.Bytes.{load-store}
use motion_planning_gadget_s.Intervals.Sets.{Interval}
use motion_planning_gadget_s.Intervals.Stored.{Database}
use motion_planning_gadget_s.Predicates.{
  PredicateKind, locations, states, uedges, dedges, total_edges, components,
}
use motion_planning_gadget_s.Predicates.Update.{PredicateUpdateResult}
use motion_planning_gadget_s.Predicates.Database.{
  change_of, apply_change, commit_stuff, keyed, from_sv, from_loaded, commit_result,
}
use motion_planning_gadget_s.Predicates.Commit.{Stores}

pub from_sv-store : (v : ℕ) → v < word → from_sv (store 8 v) ≡ some v
from_sv-store v h =
    ap (λ bytes. from_loaded (load 8 bytes)) (sym (append-nil (store 8 v)))
    ∙ ap from_loaded (load-store 8 v [] (omega (arith, h)))

bind_assoc :
    {A B C : Type 0} (o : Option A) (f : A → Option B) (g : B → Option C)
    → ((o >>= f) >>= g) ≡ (o >>= λ a. f a >>= g)
bind_assoc none f g = refl
bind_assoc (some a) f g = refl

pub bind-ext :
    {A B : Type 0} (o : Option A) (f g : A → Option B)
    → ((a : A) → f a ≡ g a)
    → (o >>= f) ≡ (o >>= g)
bind-ext none f g e = refl
bind-ext (some a) f g e = e a

-- All entries of a result, in the order of their commit
abbrev pub entries :
    {Key : Type 0} → (PredicateKind → ℕ → Key) → PredicateUpdateResult → List (Key × List Interval)
entries key r =
    keyed (key locations) r.locations
    ++ (keyed (key states) r.states
        ++ (keyed (key uedges) r.uedges
            ++ (keyed (key dedges) r.dedges
                ++ (keyed (key total_edges) r.tedges ++ keyed (key components) r.components))))

module _ {Key State : Type 0} (db : Database Key State) where
  commit_stuff-append :
      (same : Bool) (s : State × Bool) (stuff more : List (Key × List Interval))
      → commit_stuff db same s (stuff ++ more)
        ≡ (commit_stuff db same s stuff >>= λ t. commit_stuff db same t more)
  unfolding commit_stuff
  commit_stuff-append same s [] more = refl
  commit_stuff-append same s (p ∷ stuff) more =
      let first = apply_change db s.0 s.1 p.0 (change_of same p.1 (db.get s.0 p.0)) in
      bind-ext first _ _ (λ t. commit_stuff-append same t stuff more)
      ∙ sym
          (bind_assoc first (λ t. commit_stuff db same t stuff) (λ t. commit_stuff db same t more))

module _ {Key State : Type 0} (db : Database Key State) (key : PredicateKind → ℕ → Key)
    (valid_before : Key) where
  pub commit_result-entries :
      (same : Bool) (s : State) (r : PredicateUpdateResult)
      → commit_result db key valid_before same s r ≡ commit_stuff db same (s, false) (entries key r)
  commit_result-entries same s r =
      bind-ext (commit_stuff db same (s, false) (keyed (key locations) r.locations)) _ _ (λ s1.
        bind-ext (commit_stuff db same s1 (keyed (key states) r.states)) _ _ (λ s2.
          bind-ext (commit_stuff db same s2 (keyed (key uedges) r.uedges)) _ _ (λ s3.
            bind-ext (commit_stuff db same s3 (keyed (key dedges) r.dedges)) _ _ (λ s4. sym (
              commit_stuff-append db same s4 (keyed (key total_edges) r.tedges)
                (keyed (key components) r.components)))
            ∙ sym (commit_stuff-append db same s3 (keyed (key dedges) r.dedges) _))
          ∙ sym (commit_stuff-append db same s2 (keyed (key uedges) r.uedges) _))
        ∙ sym (commit_stuff-append db same s1 (keyed (key states) r.states) _))
      ∙ sym (commit_stuff-append db same (s, false) (keyed (key locations) r.locations) _)

-- The ids from `low` up to `high` of the gadgets that satisfy the predicate of a key
abbrev pub within : {Key : Type 0} → (Key → ℕ → Bool) → ℕ → ℕ → Key → ℕ → Bool
within has low high k z = leb low z && (ltb z high && has k z)

-- The database is valid up to `v`: each key that exists, but `valid_before`, has exactly the ids
-- below `v` of the gadgets that satisfy its predicate.
module _ {Key State : Type 0} (db : Database Key State) (valid_before : Key) where
  pub record IsValid (has : Key → ℕ → Bool) (s : State) (v : ℕ) : Type 0 where
    pub number : db.get s valid_before ≡ some (store 8 v)
    pub lists :
        (k : Key) → k ≢ valid_before → (db.get s k ≡ none) ⊎ Stores db s k (within has 1 v k)
