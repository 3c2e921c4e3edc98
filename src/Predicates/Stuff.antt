-- ===== src/Predicates/Stuff.antt =====
-- src/toggles/predicates.cpp: `commit_stuff` on a whole result.
use motion_planning_gadget_s.Common.{
  ℕ, ◌≡◌, ◌≢◌, ◌⊎◌, refl, sym, ap, subst, ◌∙◌, inl, inr, Bool, true, ◌||◌, none, some, List, [],
  ◌∷◌, arith, ◌>>=◌,
}
use motion_planning_gadget_s.Intervals.Sets.{Interval}
use motion_planning_gadget_s.Intervals.Stored.{Database, DatabaseLaws}
use motion_planning_gadget_s.Predicates.Database.{commit_stuff}
use motion_planning_gadget_s.Predicates.Commit.{
  Lists64, Lists64-change, Stores, Stores-Exists, Exists, Done, Done-missing, Done-stored,
}

abbrev pub Mem : {Key : Type 0} → Key → List (Key × List Interval) → Type 0
Mem k [] = ⊥
Mem k (p ∷ stuff) = (k ≡ p.0) ⊎ Mem k stuff

-- The entries are predicates, and their lists have the numbers that `part` tells.
abbrev pub Entries : {Key : Type 0} → Key → (Key → ℕ → Bool) → List (Key × List Interval) → Type 0
Entries valid_before part [] = Unit
Entries valid_before part (p ∷ stuff) =
    (p.0 ≢ valid_before) × Lists64 (part p.0) p.1 × Entries valid_before part stuff

module _ {Key State : Type 0} (db : Database Key State) (valid_before : Key)
    (part old full : Key → ℕ → Bool) where
  -- A missing key, whose entry is complete if it has one; a key that has its full list; or a key that
  -- has its old list, and an entry
  abbrev pub Ready : State → List (Key × List Interval) → Key → Type 0
  Ready s stuff k =
      ((db.get s k ≡ none) × (Mem k stuff → (z : ℕ) → full k z ≡ part k z))
      ⊎ (Stores db s k (full k) ⊎ (Mem k stuff × Stores db s k (old k)))

  -- What a commit leaves of a state: each predicate's key is missing or has its full list, and the
  -- keys that were there, and those of the entries, are there.
  pub record Committed (s t : State) (stuff : List (Key × List Interval)) : Type 0 where
    pub lists : (k : Key) → k ≢ valid_before → (db.get t k ≡ none) ⊎ Stores db t k (full k)
    pub present : (k : Key) → Exists db s k ⊎ Mem k stuff → Exists db t k
    pub bound : db.get t valid_before ≡ db.get s valid_before

  Committed-nil : (s : State) → ((k : Key) → k ≢ valid_before → Ready s [] k) → Committed s s []
  Committed-nil s r = record {
    lists = λ k n. elim (r k n) [
      | inl (e, f) ↦ inl e
      | inr (inl h) ↦ inr h
      | inr (inr (m, h)) ↦ absurd m
    ];
    present = λ k m. elim m [ inl e ↦ e | inr n ↦ absurd n ];
    bound = refl;
  }

  module _ (discrete : Discrete Key) (laws : DatabaseLaws db)
      (puts : (s : State) (k : Key) (v : List ℕ) → (t : State) × (db.put s k v ≡ some t))
      (same : Bool) (split : (k : Key) (z : ℕ) → full k z ≡ (part k z || old k z))
      (agree : same ≡ true → (k : Key) (z : ℕ) → full k z ≡ old k z) where
    absorbs : (k : Key) (z : ℕ) → full k z ≡ (part k z || full k z)
    absorbs k z = ground (arith, split k z)

    Ready-Done :
        (s : State) (u : Bool) (p : Key × List Interval) (stuff : List (Key × List Interval))
        → Ready s (p ∷ stuff) p.0
        → Lists64 (part p.0) p.1
        → Done db same s u p (full p.0)
    Ready-Done s u p stuff r h = elim r [
      | inl (e, f) ↦
          Done-missing db laws puts same s u p (full p.0) e
            (Lists64-change (part p.0) (full p.0) p.1 (f (inl refl)) h)
      | inr (inl st) ↦
          Done-stored db laws puts same s u p (part p.0) (full p.0) (full p.0) h st (absorbs p.0)
            (λ e z. refl)
      | inr (inr (m, st)) ↦
          Done-stored db laws puts same s u p (part p.0) (old p.0) (full p.0) h st (split p.0)
            (λ e z. agree e p.0 z)
    ]

    pub Stores-frame :
        (s t : State) (k : Key) (has : ℕ → Bool)
        → db.get t k ≡ db.get s k
        → Stores db s k has
        → Stores db t k has
    unfolding Stores
    Stores-frame s t k has e (l, g, h) = (l, e ∙ g, h)

    Ready-frame :
        (s t : State) (p : Key × List Interval) (stuff : List (Key × List Interval)) (k : Key)
        → k ≢ p.0
        → db.get t k ≡ db.get s k
        → Ready s (p ∷ stuff) k
        → Ready t stuff k
    Ready-frame s t p stuff k n e r = elim r [
      | inl (g, f) ↦ inl (e ∙ g, λ m. f (inr m))
      | inr (inl h) ↦ inr (inl (Stores-frame s t k (full k) e h))
      | inr (inr (inl same_key, h)) ↦ absurd (n same_key)
      | inr (inr (inr m, h)) ↦ inr (inr (m, Stores-frame s t k (old k) e h))
    ]

    Ready-next :
        (s t : State) (p : Key × List Interval) (stuff : List (Key × List Interval)) (k : Key)
        → Stores db t p.0 (full p.0)
        → ((j : Key) → j ≢ p.0 → db.get t j ≡ db.get s j)
        → Ready s (p ∷ stuff) k
        → Ready t stuff k
    Ready-next s t p stuff k h frame r = elim (discrete k p.0) [
      | yes e ↦ inr (inl (subst (λ j. Stores db t j (full j)) (sym e) h))
      | no n ↦ Ready-frame s t p stuff k n (frame k n) r
    ]

    Exists-next :
        (s t : State) (p : Key × List Interval) (stuff : List (Key × List Interval)) (k : Key)
        → Stores db t p.0 (full p.0)
        → ((j : Key) → j ≢ p.0 → db.get t j ≡ db.get s j)
        → Exists db s k ⊎ Mem k (p ∷ stuff)
        → Exists db t k ⊎ Mem k stuff
    Exists-next s t p stuff k h frame m = elim (discrete k p.0) [
      | yes e ↦ inl (subst (λ j. Exists db t j) (sym e) (Stores-Exists db t p.0 (full p.0) h))
      | no n ↦ elim m [
        | inl (v, g) ↦ inl (v, frame k n ∙ g)
        | inr (inl e) ↦ absurd (n e)
        | inr (inr l) ↦ inr l
      ]
    ]

    -- Committing entries to a state in which every predicate's key is ready for them ends without an
    -- exception in a state in which every key has its full list or is missing.
    pub commit_stuff-Committed :
        (s : State) (u : Bool) (stuff : List (Key × List Interval))
        → Entries valid_before part stuff
        → ((k : Key) → k ≢ valid_before → Ready s stuff k)
        → (t : State × Bool) × (commit_stuff db same (s, u) stuff ≡ some t) × Committed s t.0 stuff
    unfolding commit_stuff Done
    commit_stuff-Committed s u [] e r = ((s, u), refl, Committed-nil s r)
    commit_stuff-Committed s u (p ∷ stuff) e r =
        let (t, a, h, frame) = Ready-Done s u p stuff (r p.0 e.0) e.1 in
        let (v, b, c) =
          commit_stuff-Committed t.0 t.1 stuff e.2
            (λ k n. Ready-next s t.0 p stuff k h frame (r k n)) in
        (
          v,
          ap (λ o. o >>= λ w. commit_stuff db same w stuff) a ∙ b,
          record {
            lists = c.lists;
            present = λ k m. c.present k (Exists-next s t.0 p stuff k h frame m);
            bound = c.bound ∙ frame valid_before (λ x. e.0 (sym x));
          },
        )
