-- ===== src/NCopies/Traversal.antt =====
-- src/n_copies_iterator.hpp: walking over a range of copies.
use motion_planning_gadget_s.Common.{
  ℕ, zero, suc, ◌+◌, ◌-◌, ◌<◌, ◌≡◌, refl, ap, Bool, true, false, not, Option, none, some, List, [],
  ◌∷◌, ltb, leb, ◌==◌, arith, add32, sub32, word32, replicate,
}
use motion_planning_gadget_s.NCopies.{
  Iterator, Range, begin, end, dereference, increment, decrement, not_equal, sub_size,
}

abbrev pub put_first : ℕ → Option (List ℕ) → Option (List ℕ)
put_first a none = none
put_first a (some l) = some (a ∷ l)

abbrev pub from_next : (Iterator → Option (List ℕ)) → Option ℕ → Option Iterator → Option (List ℕ)
from_next go none next = none
from_next go (some a) none = none
from_next go (some a) (some i) = put_first a (go i)

abbrev pub if_more : Option Bool → Option (List ℕ) → Option (List ℕ)
if_more none l = none
if_more (some true) l = l
if_more (some false) l = some []

-- `for (; i != last; ++i)` with the references that `*i` gives; `none` is a failed assertion, or the
-- end of the fuel.
pub walk : ℕ → Iterator → Iterator → Option (List ℕ)
unfolding increment
walk zero i last = none
walk (suc fuel) i last =
    if_more (not_equal i last) (from_next (λ j. walk fuel j last) (dereference i) (increment i))

abbrev pub at_position : Range → ℕ → Iterator
at_position r k = record { thing = some r.thing; position = k; bound = r.copies }

same_self : (r : Range) → (r.thing == r.thing) ≡ true
same_self r = ground arith

increment-at :
    (r : Range) (k : ℕ)
    → k < r.copies
    → r.copies < word32
    → increment (at_position r k) ≡ some (at_position r (k + 1))
unfolding increment
increment-at r k h b =
    let n : (k + 1) - 0 ≡ k + 1 = omega arith in
    let e : leb 0 (k + 1) ≡ true = ground arith in
    let f : leb (k + 1) r.copies ≡ true = ground arith in
    let w : add32 k 1 ≡ k + 1 = omega arith in rw (e, n, f, w) refl

not_equal-end :
    (r : Range) (k : ℕ) → not_equal (at_position r k) (end r) ≡ some (not (k == r.copies))
unfolding not_equal
not_equal-end r k = let f : (r.copies == r.copies) ≡ true = ground arith in rw (same_self r, f) refl

dereference-at : (r : Range) (k : ℕ) → k < r.copies → dereference (at_position r k) ≡ some r.thing
unfolding dereference
dereference-at r k h = let e : ltb k r.copies ≡ true = ground arith in rw e refl

walk-at :
    (r : Range) (left k : ℕ)
    → k + left ≡ r.copies
    → r.copies < word32
    → walk (suc left) (at_position r k) (end r) ≡ some (replicate left r.thing)
unfolding walk
walk-at r zero k h b =
    let e : (k == r.copies) ≡ true = ground arith in rw (not_equal-end r k, e) refl
walk-at r (suc left) k h b =
    let e : (k == r.copies) ≡ false = ground arith in
    let l : k < r.copies = omega arith in
    rw (not_equal-end r k, e, dereference-at r k l, increment-at r k l b)
      (ap (put_first r.thing) (walk-at r left (k + 1) (omega arith) b))

-- For fewer than 2 ^ 32 copies, the walk with ++ from begin up to the iterator at end fails no
-- assertion and ends; it meets the thing as often as there are copies.
pub walk_lem :
    (r : Range)
    → r.copies < word32
    → walk (r.copies + 1) (begin r) (end r) ≡ some (replicate r.copies r.thing)
walk_lem r b =
    let e : r.copies + 1 ≡ suc r.copies = omega arith in rw e (walk-at r r.copies 0 (omega arith) b)

-- An iterator at the end cannot be moved back by `-=`: its assertion tests the sum.
pub sub_size-end : (r : Range) (dist : ℕ) → 0 < dist → sub_size (end r) dist ≡ none
unfolding sub_size
sub_size-end r dist h =
    let n : (r.copies + dist) - 0 ≡ r.copies + dist = omega arith in
    let e : leb 0 (r.copies + dist) ≡ true = ground arith in
    let f : leb (r.copies + dist) r.copies ≡ false = ground arith in rw (e, n, f) refl

-- Away from the end, `--` undoes `++`.
pub decrement-increment :
    (r : Range) (k : ℕ)
    → k < r.copies
    → r.copies < word32
    → increment (at_position r k) ≡ some (at_position r (k + 1))
      × (decrement (at_position r (k + 1)) ≡ some (at_position r k))
unfolding decrement
decrement-increment r k h b =
    let n : ((k + 1) + 0) - 1 ≡ k = omega arith in
    let e : leb 1 ((k + 1) + 0) ≡ true = ground arith in
    let f : leb k r.copies ≡ true = ground arith in
    let w : sub32 (k + 1) 1 ≡ k = omega arith in (increment-at r k h b, rw (e, n, f, w) refl)
