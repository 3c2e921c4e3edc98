-- ===== src/Pack/Codec.antt =====
-- src/pack.cpp: an automaton as bytes. The packed bytes start at offset 0, `first`. A mask has up to
-- 32 bits, and a bit of it is one of its binary digits.
pub mod Header
pub mod Failures
use motion_planning_gadget_s.Common.{
  ℕ, zero, suc, ◌+◌, ◌-◌, ◌*◌, ◌/◌, ◌%◌, ◌^◌, Bool, true, false, not, ◌&&◌, ◌||◌, Option, none,
  some, List, [], ◌∷◌, ltb, leb, ◌==◌, if◌then◌else◌, length, get_or, set, replicate, take, word32,
}
use motion_planning_gadget_s.Intervals.Accumulator.{sort_numbers}
use motion_planning_gadget_s.AutomatonBase.{
  AutomatonBase, active_alphabet, for_each_transition, xrange, range_from,
}
use motion_planning_gadget_s.Automaton.{Automaton, add_state, set_accept, add_symbol}
use motion_planning_gadget_s.Pack.{
  PackWriter, PackReader, write_number, write_bytes, write_varint, seek, read_number, read_bytes,
  read_varint, eof,
}

-- `mask & (1 << q)` and `mask |= (1 << q)`
abbrev pub has_bit : ℕ → ℕ → Bool
has_bit mask q = (mask / 2 ^ q) % 2 == 1

abbrev pub with_bit : ℕ → ℕ → ℕ
with_bit mask q = if has_bit mask q then mask else mask + 2 ^ q

-- How the masks are laid out
pub record Layout : Type 0 where
  pub use_active_alpha : Bool
  pub outgoing_mask_bytes : ℕ
  pub bits_in_outgoing_mask : ℕ

abbrev pub full_layout : ℕ → Layout
full_layout alphabet_size = record {
  use_active_alpha = false;
  outgoing_mask_bytes = (alphabet_size + 7) / 8;
  bits_in_outgoing_mask = alphabet_size;
}

abbrev pub active_layout : ℕ → Layout
active_layout active_size = record {
  use_active_alpha = true;
  outgoing_mask_bytes = (active_size + 7) / 8;
  bits_in_outgoing_mask = active_size;
}

-- With as many mask bytes either way, the second test keeps the number of bytes.
unfoldable pub layout_of : ℕ → ℕ → Layout
layout_of alphabet_size active_size =
    if ltb ((active_size + 7) / 8) ((alphabet_size + 7) / 8)
    then active_layout active_size
    else if (alphabet_size % 8 == 0) && not (active_size % 8 == 0)
    then record (active_layout active_size) { outgoing_mask_bytes = (alphabet_size + 7) / 8 }
    else full_layout alphabet_size

abbrev pub accept_in_outgoing_mask : Layout → Bool
accept_in_outgoing_mask l = not (l.bits_in_outgoing_mask % 8 == 0)

abbrev pub mask_of : ℕ → List ℕ → ℕ
mask_of mask [] = mask
mask_of mask (q ∷ symbols) = mask_of (with_bit mask q) symbols

-- `acceptmask` of the states from `s` on, below `s + 8` and `state_size`
abbrev pub accept_mask : AutomatonBase → ℕ → ℕ → List ℕ → ℕ
accept_mask b s mask [] = mask
accept_mask b s mask (t ∷ states) =
    accept_mask b s (if ltb t b.state_size && b.accept t then with_bit mask (t - s) else mask)
      states

-- FENCE, the largest `state_type`
abbrev pub fence : ℕ
fence = word32 - 1

abbrev pub set_dests : List ℕ → List (ℕ × ℕ) → List ℕ
set_dests dests [] = dests
set_dests dests (call ∷ calls) = set_dests (set dests call.0 call.1) calls

-- The loop over the symbols: the mask, and the writer behind the destinations
unfoldable pub write_dests : List ℕ → List ℕ → ℕ → PackWriter → ℕ × PackWriter
write_dests dests [] mask w = (mask, w)
write_dests dests (q ∷ symbols) mask w =
    let to = get_or dests q fence in
    let next : ℕ × PackWriter =
      (if to == fence then (mask, w) else (with_bit mask q, write_varint w to)) in
    write_dests dests symbols next.0 next.1

abbrev pub seek_to : ℕ → Option PackWriter → Option PackWriter
seek_to position none = none
seek_to position (some w) = some (seek w position)

-- A state's mask and destinations; `none` is the end of `writeBytes` that is not reachable.
unfoldable pub write_outgoing : AutomatonBase → Layout → List ℕ → ℕ → PackWriter → Option PackWriter
write_outgoing b l symbols s w =
    let dests = set_dests (replicate b.alphabet_size fence) (for_each_transition b s) in
    let list_begin = w.cur in
    let listed = write_dests dests symbols 0 (seek w (list_begin + l.outgoing_mask_bytes)) in
    let mask =
      (if accept_in_outgoing_mask l && b.accept s
        then with_bit listed.0 l.bits_in_outgoing_mask
        else listed.0) in
    seek_to listed.1.cur (write_bytes (seek listed.1 list_begin) mask l.outgoing_mask_bytes)

abbrev pub write_accepts : AutomatonBase → Layout → ℕ → PackWriter → PackWriter
write_accepts b l s w =
    if not (accept_in_outgoing_mask l) && (s % 8 == 0)
    then write_number 1 w (accept_mask b s 0 (range_from s 8))
    else w

unfoldable pub write_states :
    AutomatonBase → Layout → List ℕ → List ℕ → Option PackWriter → Option PackWriter
write_states b l symbols [] w = w
write_states b l symbols (s ∷ states) none = none
write_states b l symbols (s ∷ states) (some w) =
    write_states b l symbols states (write_outgoing b l symbols s (write_accepts b l s w))

abbrev pub write_active : ℕ → Layout → List ℕ → PackWriter → Option PackWriter
write_active alphabet_size l active w =
    if l.use_active_alpha
    then write_bytes w (mask_of 0 active) ((alphabet_size + 7) / 8)
    else some w

-- What `pack` comes to: a call that is not reachable, a null pointer, or the end and the memory
pub data Packed : Type 0 where
  not_reachable no_room : Packed
  packed : ℕ → List ℕ → Packed

-- The constants coding_active_alpha and coding_accept_in_outgoing are bits 23 and 22.
abbrev pub coded_size : Layout → ℕ → ℕ
coded_size l size =
    let size1 = (if l.use_active_alpha then with_bit size 23 else size) in
    if accept_in_outgoing_mask l then with_bit size1 22 else size1

abbrev pub write_size : Layout → Option PackWriter → Packed
write_size l none = not_reachable
write_size l (some w) =
    if w.overflow
    then no_room
    else packed w.cur (write_number 3 (seek w 0) (coded_size l w.cur)).memory

unfoldable pub pack : AutomatonBase → List ℕ → Packed
unfolding layout_of write_states
pack b memory =
    let active = sort_numbers (active_alphabet b) in
    let l = layout_of b.alphabet_size (length active) in
    let w = seek (record { memory = memory; cur = 0; overflow = false }) 3 in
    let symbols = (if l.use_active_alpha then active else xrange b.alphabet_size) in
    write_size l
      (write_states b l symbols (xrange b.state_size) (write_active b.alphabet_size l active w))

-- `x & ~coding_all`
abbrev pub without_bit : ℕ → ℕ → ℕ
without_bit mask q = if has_bit mask q then mask - 2 ^ q else mask

abbrev pub size_of : ℕ → ℕ
size_of coded = without_bit (without_bit coded 23) 22

-- A pack is at least four bytes long.
unfoldable pub packed_size : List ℕ → ℕ
packed_size memory =
    size_of ((read_number 3 (record { memory = take 4 memory; cur = 0; overflow = false })).0)
