-- ===== src/NCopies.antt =====
-- src/n_copies_iterator.hpp, in a debug build: a range that holds one thing several times. A pointer
-- is the address of the thing, and a reference that address; `none` is a failed assertion.
pub mod Traversal
use motion_planning_gadget_s.Common.{
  ℕ, zero, suc, ◌+◌, ◌-◌, Bool, true, false, not, ◌&&◌, Option, none, some, List, [], ◌∷◌, ltb, leb,
  ◌==◌, if◌then◌else◌, add32, sub32, word32, ◌%◌,
}
use motion_planning_gadget_s.Common.Int.{ℤ, pos, negsuc, pos_part, neg_part, sub_ℕ}

-- `thing_` is null in a singular iterator.
pub record Iterator : Type 0 where
  pub thing : Option ℕ
  pub position : ℕ
  pub bound : ℕ

abbrev pub singular : Iterator
singular = record { thing = none; position = 0; bound = 0 }

abbrev pub is_set : Option ℕ → Bool
is_set none = false
is_set (some address) = true

abbrev pub same_thing : Option ℕ → Option ℕ → Bool
same_thing none none = true
same_thing (some a) (some b) = a == b
same_thing _ _ = false

-- `check_nonsingular` and `check_comparable`
abbrev pub is_nonsingular : Iterator → Bool
is_nonsingular i = is_set i.thing

abbrev pub is_comparable : Iterator → Iterator → Bool
is_comparable left right = same_thing left.thing right.thing && left.bound == right.bound

-- `pos_ + offset`, at 64 bits
abbrev pub actual : Iterator → ℤ → ℤ
actual i offset = sub_ℕ (i.position + pos_part offset) (neg_part offset)

abbrev pub is_below : ℕ → ℤ → Bool
is_below bound (pos n) = ltb n bound
is_below bound (negsuc n) = false

abbrev pub is_up_to : ℕ → ℤ → Bool
is_up_to bound (pos n) = leb n bound
is_up_to bound (negsuc n) = false

-- `check_offset_dereferenceable` and `check_offset_inbounds`
abbrev pub is_offset_dereferenceable : Iterator → ℤ → Bool
is_offset_dereferenceable i offset = is_below i.bound (actual i offset)

abbrev pub is_offset_inbounds : Iterator → ℤ → Bool
is_offset_inbounds i offset = is_up_to i.bound (actual i offset)

-- `operator*`, and `operator->`
pub dereference : Iterator → Option ℕ
dereference i = if ltb i.position i.bound then i.thing else none

-- `operator[]`
pub at_offset : Iterator → ℤ → Option ℕ
at_offset i idx = if is_offset_dereferenceable i idx then i.thing else none

abbrev pub moved : Iterator → ℤ → ℕ → Option Iterator
moved i offset position =
    if is_nonsingular i && is_offset_inbounds i offset
    then some (record i { position = position })
    else none

-- `operator++` and `operator--`
unfoldable pub increment : Iterator → Option Iterator
increment i = moved i (pos 1) (add32 i.position 1)

pub decrement : Iterator → Option Iterator
decrement i = moved i (negsuc 0) (sub32 i.position 1)

-- What `operator++(int)` and `operator--(int)` return, with the iterator behind them
abbrev pub with_copy : Iterator → Option Iterator → Option (Iterator × Iterator)
with_copy copy none = none
with_copy copy (some i) = some (copy, i)

pub post_increment : Iterator → Option (Iterator × Iterator)
unfolding increment
post_increment i = with_copy i (increment i)

pub post_decrement : Iterator → Option (Iterator × Iterator)
unfolding decrement
post_decrement i = with_copy i (decrement i)

-- `operator+=` and `operator-=` of a `size_type`
pub add_size : Iterator → ℕ → Option Iterator
add_size i dist = moved i (pos dist) (add32 i.position dist)

pub sub_size : Iterator → ℕ → Option Iterator
sub_size i dist = moved i (pos dist) (sub32 i.position dist)

-- A signed sum as an unsigned number of 32 bits
abbrev pub wrapped : ℕ → ℕ → ℕ
wrapped plus minus = (plus + word32 - minus) % word32

-- `operator+=` and `operator-=` of a `difference_type`
pub add_difference : Iterator → ℤ → Option Iterator
add_difference i dist = moved i dist (wrapped (i.position + pos_part dist) (neg_part dist))

pub sub_difference : Iterator → ℤ → Option Iterator
sub_difference i dist = moved i dist (wrapped (i.position + neg_part dist) (pos_part dist))

abbrev pub compared : Iterator → Iterator → Bool → Option Bool
compared left right answer = if is_comparable left right then some answer else none

-- `operator==`, `!=`, `<`, `>`, `<=` and `>=`
unfoldable pub equal : Iterator → Iterator → Option Bool
equal left right = compared left right (left.position == right.position)

pub not_equal : Iterator → Iterator → Option Bool
not_equal left right = compared left right (not (left.position == right.position))

pub less : Iterator → Iterator → Option Bool
less left right = compared left right (ltb left.position right.position)

pub greater : Iterator → Iterator → Option Bool
greater left right = compared left right (ltb right.position left.position)

pub less_equal : Iterator → Iterator → Option Bool
less_equal left right = compared left right (leb left.position right.position)

pub greater_equal : Iterator → Iterator → Option Bool
greater_equal left right = compared left right (leb right.position left.position)

-- `n_copies_range`
pub record Range : Type 0 where
  pub thing : ℕ
  pub copies : ℕ

abbrev pub begin : Range → Iterator
begin r = record { thing = some r.thing; position = 0; bound = r.copies }

abbrev pub end : Range → Iterator
end r = record { thing = some r.thing; position = r.copies; bound = r.copies }
