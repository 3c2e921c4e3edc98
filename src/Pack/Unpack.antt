-- ===== src/Pack/Unpack.antt =====
-- src/pack.cpp: reading a packed automaton back.
pub mod CutOff
use motion_planning_gadget_s.Common.{
  ℕ, zero, suc, ◌+◌, ◌-◌, ◌*◌, ◌/◌, ◌%◌, ◌^◌, Bool, true, false, not, ◌&&◌, ◌||◌, Option, none,
  some, List, [], ◌∷◌, ltb, leb, ◌==◌, if◌then◌else◌, length, get_or, set, replicate, take, word32,
}
use motion_planning_gadget_s.Intervals.Accumulator.{sort_numbers}
use motion_planning_gadget_s.AutomatonBase.{
  AutomatonBase, active_alphabet, for_each_transition, xrange, range_from,
}
use motion_planning_gadget_s.Automaton.{Automaton, add_state, set_accept, add_symbol}
use motion_planning_gadget_s.Pack.{
  PackWriter, PackReader, write_number, write_bytes, write_varint, seek, read_number, read_bytes,
  read_varint, eof,
}
use motion_planning_gadget_s.Pack.Codec.{
  has_bit, Layout, full_layout, active_layout, accept_in_outgoing_mask,
}

-- `unpack`, where the automaton's operations are those of `Automaton`
abbrev pub add_states : ℕ → Automaton → Automaton
add_states zero a = a
add_states (suc left) a = add_states left ((add_state a).1)

-- `ensure_enough_states`, which adds states while there are at most `s`
abbrev pub ensure_enough_states : Automaton → ℕ → Automaton
ensure_enough_states a s = add_states (s + 1 - length a.transitions) a

abbrev pub bits_of : ℕ → List ℕ → List ℕ
bits_of mask [] = []
bits_of mask (q ∷ symbols) =
    let rest = bits_of mask symbols in if has_bit mask q then q ∷ rest else rest

abbrev pub set_accepts : ℕ → ℕ → Automaton → List ℕ → Automaton
set_accepts mask s a [] = a
set_accepts mask s a (t ∷ group) =
    set_accepts mask s
      (if has_bit mask t then (set_accept (ensure_enough_states a (s + t)) (s + t) true).1 else a)
      group

abbrev pub read_dest : ℕ → ℕ → ℕ → Automaton → ℕ × PackReader → Automaton × PackReader
read_dest n s q a to = ((add_symbol n (ensure_enough_states a to.0) s q to.0).1, to.1)

pub read_dests : ℕ → ℕ → ℕ → List ℕ → Automaton → PackReader → Automaton × PackReader
read_dests n s mask [] a r = (a, r)
read_dests n s mask (q ∷ symbols) a r =
    let next = (if has_bit mask q then read_dest n s q a (read_varint r) else (a, r)) in
    read_dests n s mask symbols next.0 next.1

abbrev pub read_accepts : Bool → ℕ → Automaton → PackReader → Automaton × PackReader
read_accepts in_mask s a r =
    if not in_mask && (s % 8 == 0)
    then (let mask = read_number 1 r in (set_accepts mask.0 s a (xrange 8), mask.1))
    else (a, r)

abbrev pub read_outgoing :
    Bool
    → ℕ
    → Layout
    → List ℕ
    → ℕ
    → Automaton
    → Option (ℕ × PackReader)
    → Option (Automaton × PackReader)
read_outgoing in_mask n l symbols s a none = none
read_outgoing in_mask n l symbols s a (some (mask, r)) =
    let listed = read_dests n s mask symbols a r in
    some (
      if in_mask && has_bit mask l.bits_in_outgoing_mask
          then (set_accept listed.0 s true).1
          else listed.0,
      listed.1,
    )

-- The body of the loop of `unpack`, with `accept_in_outgoing_mask`; `none` is the end of `readBytes` that is not reachable.
pub read_state :
    Bool → ℕ → Layout → List ℕ → ℕ → Automaton → PackReader → Option (Automaton × PackReader)
read_state in_mask n l symbols s a r =
    let accepts = read_accepts in_mask s a r in
    read_outgoing in_mask n l symbols s (ensure_enough_states accepts.0 s)
      (read_bytes accepts.1 l.outgoing_mask_bytes)

-- The loop, for `fuel` states at most
pub data Unpacked : Type 0 where
  out_of_fuel unreachable_count : Unpacked
  unpacked : Automaton → PackReader → Unpacked

abbrev pub read_more :
    (Automaton → PackReader → Unpacked) → Option (Automaton × PackReader) → Unpacked
read_more go none = unreachable_count
read_more go (some (a, r)) = go a r

pub read_states : ℕ → Bool → ℕ → Layout → List ℕ → ℕ → Automaton → PackReader → Unpacked
read_states zero in_mask n l symbols s a r = out_of_fuel
read_states (suc fuel) in_mask n l symbols s a r =
    if eof r
    then unpacked a r
    else read_more (λ b q. read_states fuel in_mask n l symbols (suc s) b q)
        (read_state in_mask n l symbols s a r)

-- `setFlagsHack(true, true, true)`; the reader tells whether a null pointer is returned.
abbrev pub finished : Unpacked → Unpacked
finished out_of_fuel = out_of_fuel
finished unreachable_count = unreachable_count
finished (unpacked a r) =
    unpacked (record a { deterministic = true; minimal = true; canonical = true }) r

abbrev pub unpack_active : ℕ → Bool → ℕ → Automaton → Option (ℕ × PackReader) → Unpacked
unfolding read_states
unpack_active fuel in_mask n a none = unreachable_count
unpack_active fuel in_mask n a (some (alphamask, r)) =
    let active = bits_of alphamask (xrange n) in
    finished (read_states fuel in_mask n (active_layout (length active)) active 0 a r)

-- `unpack` into an automaton without states, of the bytes from `first` to `last`
pub unpack : ℕ → ℕ → Automaton → List ℕ → Unpacked
unfolding unpack_active
unpack fuel n a memory =
    let size = read_number 3 (record { memory = memory; cur = 0; overflow = false }) in
    if has_bit size.0 23
    then unpack_active fuel (has_bit size.0 22) n a (read_bytes size.1 ((n + 7) / 8))
    else finished (read_states fuel (has_bit size.0 22) n (full_layout n) (xrange n) 0 a size.1)
