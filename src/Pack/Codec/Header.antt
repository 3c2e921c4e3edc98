-- ===== src/Pack/Codec/Header.antt =====
-- src/pack.cpp: the size in front of a pack.
use motion_planning_gadget_s.Common.{
  ℕ, ◌^◌, ◌≤◌, ◌<◌, ◌≡◌, refl, sym, ap, ◌∙◌, inl, inr, Bool, true, false, Option, none, some, List,
  [], ◌∷◌, ◌++◌, arith, ltb, Bool-cases, if◌then◌else◌, length, drop, take, length-drop,
}
use motion_planning_gadget_s.Varint.{store}
use motion_planning_gadget_s.AutomatonBase.{AutomatonBase, active_alphabet}
use motion_planning_gadget_s.Intervals.Accumulator.{sort_numbers}
use motion_planning_gadget_s.Pack.{PackWriter, PackReader, write_number, seek}
use motion_planning_gadget_s.Pack.Memory.{IsInside, write-written, length-overwrite, drop-overwrite}
use motion_planning_gadget_s.Pack.RoundTrip.{read_three_bytes}
use motion_planning_gadget_s.Pack.Codec.{
  Layout, Packed, no_room, packed, with_bit, size_of, coded_size, accept_in_outgoing_mask,
  write_size, pack, packed_size, layout_of,
}

end_of : ℕ → Packed → ℕ
end_of d (packed end bytes) = end
end_of d _ = d

bytes_of : List ℕ → Packed → List ℕ
bytes_of d (packed end bytes) = bytes
bytes_of d _ = d

-- The flags come off the size again.
coded : Bool → Bool → ℕ → ℕ
coded active accept size =
    let size1 = (if active then with_bit size 23 else size) in
    if accept then with_bit size1 22 else size1

size_of-coded :
    (active accept : Bool) (size : ℕ)
    → size < 2 ^ 22
    → (size_of (coded active accept size) ≡ size) × (coded active accept size < 2 ^ 24)
unfolding coded
size_of-coded true true size h = (ground arith, ground arith)
size_of-coded true false size h = (ground arith, ground arith)
size_of-coded false true size h = (ground arith, ground arith)
size_of-coded false false size h = (ground arith, ground arith)

seek-IsInside : (w : PackWriter) (position : ℕ) → IsInside (seek w position)
unfolding seek
seek-IsInside w position = elim (Bool-cases (ltb position (length w.memory))) [
  | inl e ↦ rw e (ground arith)
  | inr e ↦ rw e (omega arith)
]

seek-memory : (w : PackWriter) (position : ℕ) → (seek w position).memory ≡ w.memory
unfolding seek
seek-memory w position = elim (Bool-cases (ltb position (length w.memory))) [
  | inl e ↦ rw e refl
  | inr e ↦ rw e refl
]

sized-memory :
    (w : PackWriter) (c : ℕ) → length (write_number 3 (seek w 0) c).memory ≡ length w.memory
unfolding write_number
sized-memory w c =
    ap (λ v. length v.memory) (write-written (seek w 0) (store 3 c) (seek-IsInside w 0))
    ∙ length-overwrite ((seek w 0).memory) ((seek w 0).cur) (store 3 c)
    ∙ ap length (seek-memory w 0)

start-memory :
    (w : PackWriter) (c : ℕ)
    → 4 ≤ length w.memory
    → (write_number 3 (seek w 0) c).memory ≡ store 3 c ++ drop 3 w.memory
unfolding write_number seek
start-memory w c h =
    let e : ltb 0 (length w.memory) ≡ true = ground arith in
    rw e (
      ap (λ v. v.memory) (write-written (record w { cur = 0 }) (store 3 c) (omega arith))
      ∙ drop-overwrite w.memory 0 (store 3 c) (omega arith))

four_bytes :
    (c : ℕ) (rest : List ℕ)
    → 0 < length rest
    → (x : ℕ) × (take 4 (store 3 c ++ rest) ≡ store 3 c ++ (x ∷ []))
four_bytes c [] h = absurd (omega arith)
four_bytes c (x ∷ rest) h = (x, refl)

packed_size-start :
    (c : ℕ) (memory rest : List ℕ)
    → memory ≡ store 3 c ++ rest
    → c < 2 ^ 24
    → 0 < length rest
    → packed_size memory ≡ size_of c
unfolding packed_size
packed_size-start c memory rest h b p =
    let four = four_bytes c rest p in
    let r : PackReader = record { memory = take 4 memory; cur = 0; overflow = false } in
    ap (λ x. size_of x.0) (read_three_bytes c r (four.0 ∷ []) b (ap (take 4) h ∙ four.1))

is_packed : Packed → Bool
is_packed (packed end bytes) = true
is_packed _ = false

sized : Layout → PackWriter → List ℕ
sized l w = (write_number 3 (seek w 0) (coded_size l w.cur)).memory

write_size-sized :
    (l : Layout) (w : PackWriter)
    → w.overflow ≡ false
    → write_size l (some w) ≡ packed w.cur (sized l w)
unfolding sized
write_size-sized l w e = rw e refl

packed_size-sized :
    (l : Layout) (w : PackWriter)
    → 4 ≤ length (sized l w)
    → w.cur < 2 ^ 22
    → packed_size (sized l w) ≡ w.cur
unfolding sized coded
packed_size-sized l w b p =
    let c = coded_size l w.cur in
    let m = sized-memory w c in
    let s = size_of-coded l.use_active_alpha (accept_in_outgoing_mask l) w.cur p in
    packed_size-start c (sized l w) (drop 3 w.memory) (start-memory w c (omega (arith, b, m))) s.1
      (omega (arith, b, m, length-drop 3 w.memory))
    ∙ s.0

packed_size-write_size :
    (l : Layout) (w : Option PackWriter) (end : ℕ) (bytes : List ℕ)
    → write_size l w ≡ packed end bytes
    → 4 ≤ length bytes
    → end < 2 ^ 22
    → packed_size bytes ≡ end
unfolding end_of bytes_of is_packed
packed_size-write_size l none end bytes h b p =
    let c : false ≡ true = ap is_packed h in absurd (ground arith)
packed_size-write_size l (some w) end bytes h b p = elim (Bool-cases w.overflow) [
  | inl e ↦
      let none_left : write_size l (some w) ≡ no_room = rw e refl in
      let c : false ≡ true = ap is_packed (sym none_left ∙ h) in absurd (ground arith)
  | inr e ↦
      let same = sym (write_size-sized l w e) ∙ h in
      let m : sized l w ≡ bytes = ap (bytes_of []) same in
      let n : w.cur ≡ end = ap (end_of 0) same in
      ap packed_size (sym m)
      ∙ packed_size-sized l w (omega (arith, b, ap length m)) (omega (arith, n))
      ∙ n
]

-- What pack returns says its own size: packed_size of the bytes is the end that pack returned, if
-- there are at least four bytes of memory and the size has at most 22 bits.
pub packed_size-pack :
    (b : AutomatonBase) (memory : List ℕ) (end : ℕ) (bytes : List ℕ)
    → pack b memory ≡ packed end bytes
    → 4 ≤ length bytes
    → end < 2 ^ 22
    → packed_size bytes ≡ end
unfolding pack
packed_size-pack b memory end bytes h l p =
    packed_size-write_size (layout_of b.alphabet_size (length (sort_numbers (active_alphabet b)))) _
      end bytes h l p
