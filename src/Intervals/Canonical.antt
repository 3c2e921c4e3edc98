-- ===== src/Intervals/Canonical.antt =====
-- src/intervals.hpp: a set of numbers has one maximal interval list, so that equal sets are equal
-- lists.
use motion_planning_gadget_s.Common.{ℕ, suc, ◌≡◌, refl, List, [], ◌∷◌, ◌<◌, arith, false, ap}
use motion_planning_gadget_s.Intervals.Sets.{
  Interval, covers, MaximalFrom, DisjointFrom-of_maximal, covers-below, IsMaximal,
}

covers-below_maximal :
    (x lo : ℕ) (l : List Interval) → MaximalFrom lo l → x < lo → covers x l ≡ false
covers-below_maximal x lo l m h = covers-below x lo l (DisjointFrom-of_maximal lo l m) h

abbrev pub SameSet : List Interval → List Interval → Type 0
SameSet l m = (x : ℕ) → covers x l ≡ covers x m

first_unique :
    (lo k a b c e : ℕ) (l m : List Interval)
    → MaximalFrom lo ((a, b) ∷ l)
    → MaximalFrom k ((c, e) ∷ m)
    → SameSet ((a, b) ∷ l) ((c, e) ∷ m)
    → (a ≡ c) × (b ≡ e)
first_unique lo k a b c e l m p q s = ground (
  arith,
  s a,
  s c,
  s b,
  s e,
  covers-below_maximal a (suc e) m,
  covers-below_maximal c (suc b) l,
  covers-below_maximal b (suc b) l,
  covers-below_maximal e (suc e) m,
)

tail_same :
    (a b c e : ℕ) (l m : List Interval)
    → MaximalFrom (suc b) l
    → MaximalFrom (suc e) m
    → a ≡ c
    → b ≡ e
    → SameSet ((a, b) ∷ l) ((c, e) ∷ m)
    → SameSet l m
tail_same a b c e l m p q ha hb s x =
    ground (arith, s x, covers-below_maximal x (suc b) l, covers-below_maximal x (suc e) m)

MaximalFrom-unique :
    (lo k : ℕ) (l m : List Interval)
    → lo ≡ k
    → MaximalFrom lo l
    → MaximalFrom k m
    → SameSet l m
    → l ≡ m
MaximalFrom-unique lo k [] [] h p q s = refl
MaximalFrom-unique lo k [] ((c, e) ∷ m) h p q s = absurd (ground (arith, s c))
MaximalFrom-unique lo k ((a, b) ∷ l) [] h p q s = absurd (ground (arith, s a))
MaximalFrom-unique lo k ((a, b) ∷ l) ((c, e) ∷ m) h p q s =
    let (ha, hb) = first_unique lo k a b c e l m p q s in
    let rest =
      MaximalFrom-unique (suc b) (suc e) l m (ap suc hb) p.2 q.2
        (tail_same a b c e l m p.2 q.2 ha hb s) in
    cc

-- Two maximal interval lists with the same members are equal.
pub IsMaximal-unique : (l m : List Interval) → IsMaximal l → IsMaximal m → SameSet l m → l ≡ m
IsMaximal-unique l m p q s = MaximalFrom-unique 0 0 l m refl p q s
