-- ===== src/Pack/Codec/Failures.antt =====
-- src/pack.cpp: the packs that cannot be made.
use motion_planning_gadget_s.Common.{
  ℕ, zero, suc, ◌+◌, ◌/◌, ◌<◌, ◌≡◌, refl, ap, true, false, Option, none, some, List, [], ◌∷◌, arith,
  ltb, length,
}
use motion_planning_gadget_s.AutomatonBase.{AutomatonBase, active_alphabet, xrange, range_from}
use motion_planning_gadget_s.Intervals.Accumulator.{sort_numbers}
use motion_planning_gadget_s.Pack.{PackWriter, write_bytes, seek}
use motion_planning_gadget_s.Pack.Codec.{
  Layout, not_reachable, layout_of, active_layout, write_outgoing, write_accepts, write_states,
  write_active, write_size, pack,
}

write_states-none :
    (b : AutomatonBase) (l : Layout) (symbols states : List ℕ)
    → write_states b l symbols states none ≡ none
unfolding write_states
write_states-none b l symbols [] = refl
write_states-none b l symbols (s ∷ states) = refl

no_mask-write_outgoing :
    (b : AutomatonBase) (l : Layout) (symbols : List ℕ) (s : ℕ) (w : PackWriter)
    → l.outgoing_mask_bytes ≡ 0
    → write_outgoing b l symbols s w ≡ none
unfolding write_outgoing write_bytes
no_mask-write_outgoing b l symbols s w h = rw h refl

no_mask-write_states :
    (b : AutomatonBase) (l : Layout) (symbols states : List ℕ) (w : Option PackWriter)
    → 0 < length states
    → l.outgoing_mask_bytes ≡ 0
    → write_states b l symbols states w ≡ none
unfolding write_states
no_mask-write_states b l symbols [] w p h = absurd (omega arith)
no_mask-write_states b l symbols (s ∷ states) none p h = refl
no_mask-write_states b l symbols (s ∷ states) (some w) p h =
    rw (no_mask-write_outgoing b l symbols s (write_accepts b l s w) h)
      (write_states-none b l symbols states)

length-range_from : (k n : ℕ) → length (range_from k n) ≡ n
length-range_from k zero = refl
length-range_from k (suc n) = ap suc (length-range_from (suc k) n)

no_active-layout_of : (n : ℕ) → 0 < n → layout_of n 0 ≡ active_layout 0
unfolding layout_of
no_active-layout_of n h = let e : ltb ((0 + 7) / 8) ((n + 7) / 8) ≡ true = ground arith in rw e refl

-- An automaton that has states and symbols but whose active alphabet is empty is not packed: the
-- masks of its states are to have no bytes, which writeBytes takes to be unreachable.
pub pack-no_active :
    (b : AutomatonBase) (memory : List ℕ)
    → active_alphabet b ≡ []
    → 0 < b.alphabet_size
    → 0 < b.state_size
    → pack b memory ≡ not_reachable
unfolding pack sort_numbers
pack-no_active b memory h p q =
    let l = no_active-layout_of b.alphabet_size p in
    let w = seek (record { memory = memory; cur = 0; overflow = false }) 3 in
    rw (h, l)
      (ap (write_size (active_layout 0)) (
        no_mask-write_states b (active_layout 0) [] (xrange b.state_size)
          (write_active b.alphabet_size (active_layout 0) [] w)
          (omega (arith, length-range_from 0 b.state_size)) refl))
