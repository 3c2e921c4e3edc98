-- ===== src/Gadget/Compressed.antt =====
-- src/toggles/runner/gadget-encoding.cpp: the edges that `write_compressed` wrote, read back.
use motion_planning_gadget_s.Common.{
  ℕ, zero, suc, ◌+◌, ◌-◌, ◌%◌, ◌≤◌, ◌<◌, min, ◌≡◌, refl, sym, ap, ◌∙◌, ◌||◌, List, [], ◌∷◌, ◌++◌,
  ltb, arith, length, drop, word32, word, add64, length-append, append_assoc, All,
}
use motion_planning_gadget_s.Pack.{PackWriter, PackReader, overwrite, varint_size, read_varint}
use motion_planning_gadget_s.Pack.Memory.{written, IsInside, written-IsInside, written-append}
use motion_planning_gadget_s.Pack.Bytes.{varint_bytes, length-varint_bytes, write_varint-written}
use motion_planning_gadget_s.Pack.RoundTrip.{drop-drop, drop-length, read_varint-bytes}
use motion_planning_gadget_s.Gadget.{GadgetEdge}
use motion_planning_gadget_s.Gadget.Encoding.{
  EdgeCoder, encode_edge, difference, size_from, write_from,
}
use motion_planning_gadget_s.Gadget.Decoding.{decode_edge, read_from}
use motion_planning_gadget_s.Gadget.Codes.{IsInRange, Fits, decode_edge-encode_edge, encode_edge-lt}

-- The bytes of the edges, behind the code `previous`
abbrev pub bytes_from : EdgeCoder → ℕ → List GadgetEdge → List ℕ
bytes_from c previous [] = []
bytes_from c previous (e ∷ edges) =
    varint_bytes (difference (encode_edge c e) previous) ++ bytes_from c (encode_edge c e) edges

pub size_from_lem :
    (c : EdgeCoder) (previous : ℕ) (edges : List GadgetEdge) (size : ℕ)
    → size < word
    → size_from c previous edges size ≡ (size + length (bytes_from c previous edges)) % word
unfolding size_from
size_from_lem c previous [] size h = omega arith
size_from_lem c previous (e ∷ edges) size h =
    let d = difference (encode_edge c e) previous in
    let r = size_from_lem c (encode_edge c e) edges (add64 size (varint_size d)) (omega arith) in
    let l = length-append (varint_bytes d) (bytes_from c (encode_edge c e) edges) in
    rw (r, l, length-varint_bytes d) (omega arith)

written-nil : (w : PackWriter) → IsInside w → written w [] ≡ w
written-nil w h =
    let m : overwrite w.memory w.cur [] ≡ w.memory = nothing w.memory w.cur in
    let c : min (w.cur + 0) (length w.memory) ≡ w.cur = omega arith in
    let o : (w.overflow || ltb (length w.memory) (w.cur + 0)) ≡ w.overflow = ground arith in
    cc (m, c, o)
  where
    nothing : (memory : List ℕ) (cur : ℕ) → overwrite memory cur [] ≡ memory
    nothing [] cur = refl
    nothing (x ∷ memory) (suc cur) = ap (λ l. x ∷ l) (nothing memory cur)
    nothing (x ∷ memory) zero = refl

pub write_from-written :
    (c : EdgeCoder) (previous : ℕ) (edges : List GadgetEdge) (w : PackWriter)
    → IsInside w
    → write_from c previous edges w ≡ written w (bytes_from c previous edges)
unfolding write_from
write_from-written c previous [] w h = sym (written-nil w h)
write_from-written c previous (e ∷ edges) w h =
    let cur = encode_edge c e in
    let bytes = varint_bytes (difference cur previous) in
    ap (write_from c cur edges) (write_varint-written w (difference cur previous) h)
    ∙ write_from-written c cur edges (written w bytes) (written-IsInside w bytes)
    ∙ written-append w bytes (bytes_from c cur edges)

-- No code is below the one before it, from `previous` on.
abbrev pub Ascending : EdgeCoder → ℕ → List GadgetEdge → Type 0
Ascending c previous [] = Unit
Ascending c previous (e ∷ edges) =
    (previous ≤ encode_edge c e) × Ascending c (encode_edge c e) edges

difference-le :
    (cur previous : ℕ) → previous ≤ cur → cur < word32 → difference cur previous ≡ cur - previous
difference-le cur previous h l = omega arith

drop-varint :
    (r : PackReader) (v : ℕ) (rest : List ℕ)
    → drop r.cur r.memory ≡ varint_bytes v ++ rest
    → drop (r.cur + varint_size v) r.memory ≡ rest
drop-varint r v rest h =
    drop-drop r.cur (varint_size v) r.memory
    ∙ ap (drop (varint_size v)) h
    ∙ ap (λ k. drop k (varint_bytes v ++ rest)) (sym (length-varint_bytes v))
    ∙ drop-length (varint_bytes v) rest

read_from-suc :
    (c : EdgeCoder) (previous count : ℕ) (r : PackReader) (d cur : ℕ) (next : PackReader)
    → read_varint r ≡ (d, next)
    → add64 d previous ≡ cur
    → read_from c previous (suc count) r
      ≡ (decode_edge c cur ∷ (read_from c cur count next).0, (read_from c cur count next).1)
unfolding read_from
read_from-suc c previous count r d cur next h k = rw (h, k) refl

-- Reading as many edges as were written gives them back, and ends behind their bytes.
pub read_from-bytes :
    (c : EdgeCoder) (previous : ℕ) (edges : List GadgetEdge) (rest : List ℕ) (r : PackReader)
    → Fits c
    → All (IsInRange c) edges
    → Ascending c previous edges
    → drop r.cur r.memory ≡ bytes_from c previous edges ++ rest
    → ((read_from c previous (length edges) r).0 ≡ edges)
      × (drop
            ((read_from c previous (length edges) r).1.cur)
            ((read_from c previous (length edges) r).1.memory)
          ≡ rest)
unfolding read_from
read_from-bytes c previous [] rest r f i a h = (refl, h)
read_from-bytes c previous (e ∷ edges) rest r f i a h =
    let cur = encode_edge c e in
    let l = encode_edge-lt c e i.0 f in
    let d = difference cur previous in
    let m : d ≡ cur - previous = difference-le cur previous a.0 l in
    let more = bytes_from c cur edges ++ rest in
    let g = h ∙ append_assoc (varint_bytes d) (bytes_from c cur edges) rest in
    let read = read_varint-bytes d r more (omega (arith, m, l)) g in
    let back : add64 d previous ≡ cur = omega (arith, m, l, a.0) in
    let next : PackReader = record r { cur = r.cur + varint_size d } in
    let ih = read_from-bytes c cur edges rest next f i.1 a.1 (drop-varint r d more g) in
    let step = read_from-suc c previous (length edges) r d cur next read back in
    (
      ap (λ p. p.0) step ∙ rw (decode_edge-encode_edge c e i.0 f, ih.0) refl,
      ap (λ p. drop p.1.cur p.1.memory) step ∙ ih.1,
    )
