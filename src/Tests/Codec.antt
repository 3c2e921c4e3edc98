-- ===== src/Tests/Codec.antt =====
-- src/pack.cpp at small automata.
use motion_planning_gadget_s.Common.{
  ℕ, zero, suc, ◌≡◌, refl, true, false, List, [], ◌∷◌, ◌==◌, arith,
}
use motion_planning_gadget_s.AutomatonBase.{AutomatonBase, active_alphabet, for_each_transition}
use motion_planning_gadget_s.Automaton.{new}
use motion_planning_gadget_s.Pack.{PackReader, write_number, write_bytes, write_varint, seek}
use motion_planning_gadget_s.LinearSet.{insert_absent}
use motion_planning_gadget_s.Intervals.Accumulator.{sort_numbers, insert_number}
use motion_planning_gadget_s.Pack.Codec.{
  layout_of, write_states, write_outgoing, write_dests, packed, not_reachable, full_layout, pack,
  packed_size,
}
use motion_planning_gadget_s.Pack.Codec.Header.{packed_size-pack}
use motion_planning_gadget_s.Pack.Codec.Failures.{pack-no_active}
use motion_planning_gadget_s.Pack.Unpack.{read_states, out_of_fuel}
use motion_planning_gadget_s.Pack.Unpack.CutOff.{read_states-IsCutOff}

abbrev step_once : ℕ → ℕ → List ℕ
step_once zero zero = 1 ∷ []
step_once zero (suc a) = []
step_once (suc s) a = []

-- The word of symbol 0 alone, of two symbols
abbrev once : AutomatonBase
once = record {
  state_size = 2;
  alphabet_size = 2;
  deterministic = true;
  accept = λ s. s == 1;
  step = step_once;
}

-- The empty word alone
abbrev empty_word : AutomatonBase
empty_word = record {
  state_size = 1;
  alphabet_size = 2;
  deterministic = true;
  accept = λ s. true;
  step = λ s a. [];
}

abbrev room : List ℕ
room = 0 ∷ 0 ∷ 0 ∷ 0 ∷ 0 ∷ 0 ∷ 0 ∷ []

once-packed : pack once room ≡ packed 6 (6 ∷ 0 ∷ 64 ∷ 1 ∷ 1 ∷ 4 ∷ 0 ∷ [])
unfolding pack layout_of write_states write_outgoing write_dests write_number write_bytes
    write_varint seek active_alphabet for_each_transition sort_numbers insert_number insert_absent
once-packed = refl

packed_size-pack_example : packed_size (6 ∷ 0 ∷ 64 ∷ 1 ∷ 1 ∷ 4 ∷ 0 ∷ []) ≡ 6
packed_size-pack_example =
    packed_size-pack once room 6 (6 ∷ 0 ∷ 64 ∷ 1 ∷ 1 ∷ 4 ∷ 0 ∷ []) once-packed (omega arith)
      (omega arith)

pack-no_active_example : pack empty_word room ≡ not_reachable
unfolding active_alphabet
pack-no_active_example = pack-no_active empty_word room refl (omega arith) (omega arith)

-- One byte is left of a mask of two.
abbrev cut : PackReader
cut = record { memory = 3 ∷ 0 ∷ 0 ∷ 7 ∷ []; cur = 3; overflow = false }

read_states-IsCutOff_example :
    read_states 100 true 12 (full_layout 12) (0 ∷ 1 ∷ []) 0 new cut ≡ out_of_fuel
read_states-IsCutOff_example =
    read_states-IsCutOff 100 12 (full_layout 12) (0 ∷ 1 ∷ []) 0 new cut (omega arith)
      (omega arith, omega arith)
