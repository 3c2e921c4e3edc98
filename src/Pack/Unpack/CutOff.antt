-- ===== src/Pack/Unpack/CutOff.antt =====
-- src/pack.cpp: unpacking bytes that end too early.
use motion_planning_gadget_s.Common.{
  ℕ, zero, suc, ◌+◌, ◌^◌, ◌≤◌, ◌<◌, ◌≡◌, refl, ap, inl, inr, true, false, some, List, [], ◌∷◌, ◌==◌,
  arith, ltb, leb, Bool-cases, length,
}
use native.Mathlib.Nat.{zero-div}
use motion_planning_gadget_s.Automaton.{Automaton}
use motion_planning_gadget_s.Pack.{PackReader, read_number, read_bytes, eof}
use motion_planning_gadget_s.Pack.Codec.{Layout, has_bit}
use motion_planning_gadget_s.Pack.Unpack.{
  ensure_enough_states, read_dests, read_state, read_states, out_of_fuel,
}

has_bit-zero : (q : ℕ) → has_bit 0 q ≡ false
has_bit-zero q = rw (zero-div (2 ^ q)) refl

read_dests-zero :
    (n s : ℕ) (symbols : List ℕ) (a : Automaton) (r : PackReader)
    → read_dests n s 0 symbols a r ≡ (a, r)
unfolding read_dests
read_dests-zero n s [] a r = refl
read_dests-zero n s (q ∷ symbols) a r = rw (has_bit-zero q) (read_dests-zero n s symbols a r)

abbrev pub IsCutOff : ℕ → PackReader → Type 0
IsCutOff bytes r = (r.cur < length r.memory) × (length r.memory < r.cur + bytes)

read_number-IsCutOff :
    (k : ℕ) (r : PackReader) → IsCutOff k r → read_number k r ≡ (0, record r { overflow = true })
read_number-IsCutOff k r h = elim (Bool-cases (k == 3)) [
  | inl e ↦
      let f : leb (r.cur + 4) (length r.memory) ≡ false = ground arith in
      let g : ltb (length r.memory) (r.cur + k) ≡ true = ground arith in rw (e, f, g) refl
  | inr e ↦ let g : ltb (length r.memory) (r.cur + k) ≡ true = ground arith in rw (e, g) refl
]

read_bytes-IsCutOff :
    (k : ℕ) (r : PackReader)
    → k ≤ 4
    → IsCutOff k r
    → read_bytes r k ≡ some (0, record r { overflow = true })
unfolding read_bytes
read_bytes-IsCutOff zero r b h = absurd (omega (arith, h.0, h.1))
read_bytes-IsCutOff (suc zero) r b h = absurd (omega (arith, h.0, h.1))
read_bytes-IsCutOff (suc (suc zero)) r b h = ap some (read_number-IsCutOff 2 r h)
read_bytes-IsCutOff (suc (suc (suc zero))) r b h = ap some (read_number-IsCutOff 3 r h)
read_bytes-IsCutOff (suc (suc (suc (suc zero)))) r b h = ap some (read_number-IsCutOff 4 r h)
read_bytes-IsCutOff (suc (suc (suc (suc (suc k))))) r b h = absurd (omega arith)

-- Where the bytes end inside a state's mask, and the accept bits are in the masks, the loop of
-- unpack does not end, whatever the fuel: the reader stays before the end.
pub read_states-IsCutOff :
    (fuel n : ℕ) (l : Layout) (symbols : List ℕ) (s : ℕ) (a : Automaton) (r : PackReader)
    → l.outgoing_mask_bytes ≤ 4
    → IsCutOff l.outgoing_mask_bytes r
    → read_states fuel true n l symbols s a r ≡ out_of_fuel
unfolding read_states read_state
read_states-IsCutOff zero n l symbols s a r b h = refl
read_states-IsCutOff (suc fuel) n l symbols s a r b h =
    let e : eof r ≡ false = ground arith in
    let z = has_bit-zero l.bits_in_outgoing_mask in
    let after = record r { overflow = true } in
    rw
      (
        e,
        read_bytes-IsCutOff l.outgoing_mask_bytes r b h,
        read_dests-zero n s symbols (ensure_enough_states a s) after,
        z,
      )
      (read_states-IsCutOff fuel n l symbols (suc s) (ensure_enough_states a s) after b h)
