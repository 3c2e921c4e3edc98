-- ===== src/Intervals/Sets.antt =====
-- The representation: a list of pairs (first, second), first inclusive and second exclusive.
use motion_planning_gadget_s.Common.{ℕ, suc, ◌≤◌, ◌<◌, ◌≡◌, refl, List, [], ◌∷◌}
use motion_planning_gadget_s.Common.{◌++◌, Bool, false, ◌&&◌, ◌||◌, leb, ltb, arith}

-- `std::pair<T, T>`
abbrev pub Interval : Type 0
Interval = ℕ × ℕ

abbrev pub in_interval : ℕ → Interval → Bool
in_interval x (a, b) = leb a x && ltb x b

-- The set that a list stands for, as its Boolean membership test.
abbrev pub covers : ℕ → List Interval → Bool
covers x [] = false
covers x (i ∷ l) = in_interval x i || covers x l

-- Non-empty intervals, in order and disjoint, from `lo` on.
abbrev pub DisjointFrom : ℕ → List Interval → Type 0
DisjointFrom lo [] = Unit
DisjointFrom lo (i ∷ l) = (lo ≤ i.0) × (i.0 < i.1) × DisjointFrom i.1 l

abbrev pub IsDisjoint : List Interval → Type 0
IsDisjoint l = DisjointFrom 0 l

-- Non-empty intervals with a gap between any two, from `lo` on: the one such list for its set.
abbrev pub MaximalFrom : ℕ → List Interval → Type 0
MaximalFrom lo [] = Unit
MaximalFrom lo (i ∷ l) = (lo ≤ i.0) × (i.0 < i.1) × MaximalFrom (suc i.1) l

abbrev pub IsMaximal : List Interval → Type 0
IsMaximal l = MaximalFrom 0 l

-- Non-empty intervals sorted by their first end, as `std::sort` leaves them; they may overlap.
abbrev pub SortedFrom : ℕ → List Interval → Type 0
SortedFrom lo [] = Unit
SortedFrom lo (i ∷ l) = (lo ≤ i.0) × (i.0 < i.1) × SortedFrom i.0 l

pub covers-append : (x : ℕ) (l m : List Interval) → covers x (l ++ m) ≡ (covers x l || covers x m)
covers-append x [] m = refl
covers-append x (i ∷ l) m = ground (arith, covers-append x l m)

pub covers-below : (x lo : ℕ) (l : List Interval) → DisjointFrom lo l → x < lo → covers x l ≡ false
covers-below x lo [] d h = refl
covers-below x lo ((a, b) ∷ l) d h = ground (arith, covers-below x b l)

pub SortedFrom-lower : (lo k : ℕ) (l : List Interval) → k ≤ lo → SortedFrom lo l → SortedFrom k l
SortedFrom-lower lo k [] h s = tt
SortedFrom-lower lo k (i ∷ l) h s = ground arith

pub SortedFrom-of_disjoint : (lo : ℕ) (l : List Interval) → DisjointFrom lo l → SortedFrom lo l
SortedFrom-of_disjoint lo [] d = tt
SortedFrom-of_disjoint lo ((a, b) ∷ l) (h, k, d) =
    (h, k, SortedFrom-lower b a l (omega arith) (SortedFrom-of_disjoint b l d))

pub DisjointFrom-lower :
    (lo k : ℕ) (l : List Interval) → k ≤ lo → DisjointFrom lo l → DisjointFrom k l
DisjointFrom-lower lo k [] h d = tt
DisjointFrom-lower lo k (i ∷ l) h d = ground arith

pub DisjointFrom-of_maximal : (lo : ℕ) (l : List Interval) → MaximalFrom lo l → DisjointFrom lo l
DisjointFrom-of_maximal lo [] m = tt
DisjointFrom-of_maximal lo ((a, b) ∷ l) (h, k, m) =
    (h, k, DisjointFrom-lower (suc b) b l (omega arith) (DisjointFrom-of_maximal (suc b) l m))
