-- ===== src/Gadget/RoundTrip.antt =====
-- src/toggles/runner/gadget-encoding.cpp: `decode_to_slls` after `encode`.
use motion_planning_gadget_s.Common.{
  ℕ, zero, suc, ◌+◌, ◌*◌, ◌≤◌, ◌<◌, ◌≡◌, refl, sym, ap, ◌∙◌, inl, inr, false, some, List, [], ◌∷◌,
  ◌++◌, Bool-cases, arith, length, drop, replicate, word32, length-append, length-replicate,
  append-nil, All,
}
use motion_planning_gadget_s.Pack.{PackWriter, PackReader, overwrite, varint_size}
use motion_planning_gadget_s.Pack.Memory.{written, written-IsInside, written-append, drop-overwrite}
use motion_planning_gadget_s.Pack.Bytes.{varint_bytes, length-varint_bytes}
use motion_planning_gadget_s.Gadget.{GadgetEdge, Stats}
use motion_planning_gadget_s.Gadget.Encoding.{
  EdgeCoder, encode_edge, edge_ordering, insert_edge, sort_edges, compressed_size, write_compressed,
  with_edges, stats_of, is_rejected, build_header, header_of, encode_edges, difference,
}
use motion_planning_gadget_s.Gadget.Decoding.{decode_to_slls, read_slls, read_compressed}
use motion_planning_gadget_s.Gadget.Header.{stats-header_of}
use motion_planning_gadget_s.Gadget.Codes.{IsInRange, Fits, encode_edge-edge_ordering}
use motion_planning_gadget_s.Gadget.Compressed.{
  bytes_from, size_from_lem, write_from-written, Ascending, read_from-bytes,
}

length-insert_edge :
    (e : GadgetEdge) (edges : List GadgetEdge) → length (insert_edge e edges) ≡ length edges + 1
length-insert_edge e [] = refl
length-insert_edge e (f ∷ edges) = elim (Bool-cases (edge_ordering f e)) [
  | inl h ↦ rw h (omega (arith, length-insert_edge e edges))
  | inr h ↦ rw h (omega arith)
]

length-sort_edges : (edges : List GadgetEdge) → length (sort_edges edges) ≡ length edges
unfolding sort_edges
length-sort_edges [] = refl
length-sort_edges (e ∷ edges) =
    omega (arith, length-insert_edge e (sort_edges edges), length-sort_edges edges)

All-insert_edge :
    (P : GadgetEdge → Type 0) (e : GadgetEdge) (edges : List GadgetEdge)
    → P e
    → All P edges
    → All P (insert_edge e edges)
All-insert_edge P e [] p a = (p, tt)
All-insert_edge P e (f ∷ edges) p a = elim (Bool-cases (edge_ordering f e)) [
  | inl h ↦ rw h (a.0, All-insert_edge P e edges p a.1)
  | inr h ↦ rw h (p, a)
]

All-sort_edges :
    (P : GadgetEdge → Type 0) (edges : List GadgetEdge) → All P edges → All P (sort_edges edges)
unfolding sort_edges
All-sort_edges P [] a = tt
All-sort_edges P (e ∷ edges) a =
    All-insert_edge P e (sort_edges edges) a.0 (All-sort_edges P edges a.1)

Ascending-insert_edge :
    (c : EdgeCoder) (previous : ℕ) (e : GadgetEdge) (edges : List GadgetEdge)
    → Fits c
    → IsInRange c e
    → All (IsInRange c) edges
    → previous ≤ encode_edge c e
    → Ascending c previous edges
    → Ascending c previous (insert_edge e edges)
Ascending-insert_edge c p e [] f i a h s = (h, tt)
Ascending-insert_edge c p e (g ∷ edges) f i a h s =
    let o = encode_edge-edge_ordering c g e a.0 i f in
    elim (Bool-cases (edge_ordering g e)) [
      | inl k ↦ rw k (
        s.0,
        Ascending-insert_edge c (encode_edge c g) e edges f i a.1 (ground (arith, o, k)) s.1,
      )
      | inr k ↦ rw k (h, (ground (arith, o, k), s.1))
    ]

Ascending-sort_edges :
    (c : EdgeCoder) (edges : List GadgetEdge)
    → Fits c
    → All (IsInRange c) edges
    → Ascending c 0 (sort_edges edges)
unfolding sort_edges
Ascending-sort_edges c [] f a = tt
Ascending-sort_edges c (e ∷ edges) f a =
    Ascending-insert_edge c 0 e (sort_edges edges) f a.0 (All-sort_edges (IsInRange c) edges a.1)
      (omega arith) (Ascending-sort_edges c edges f a.1)

varint_size-le : (v : ℕ) → varint_size v ≤ 5
unfolding varint_size
varint_size-le v = ground arith

length-bytes_from :
    (c : EdgeCoder) (p : ℕ) (edges : List GadgetEdge)
    → length (bytes_from c p edges) ≤ 5 * length edges
length-bytes_from c p [] = omega arith
length-bytes_from c p (e ∷ edges) =
    let d = difference (encode_edge c e) p in
    omega (
      arith,
      length-append (varint_bytes d) (bytes_from c (encode_edge c e) edges),
      length-varint_bytes d,
      varint_size-le d,
      length-bytes_from c (encode_edge c e) edges,
    )

drop-all : (n : ℕ) (xs : List ℕ) → length xs ≤ n → drop n xs ≡ []
drop-all zero [] h = refl
drop-all zero (x ∷ xs) h = absurd (omega arith)
drop-all (suc n) [] h = refl
drop-all (suc n) (x ∷ xs) h = drop-all n xs (omega arith)

overwrite-all :
    (memory bytes : List ℕ) → length bytes ≡ length memory → overwrite memory 0 bytes ≡ bytes
overwrite-all memory bytes h =
    drop-overwrite memory 0 bytes (omega (arith, h))
    ∙ ap (λ t. bytes ++ t) (drop-all (0 + length bytes) memory (omega (arith, h)))
    ∙ append-nil bytes

compressed_size_lem :
    (c : EdgeCoder) (edges : List GadgetEdge)
    → length edges < word32
    → compressed_size c edges ≡ length (bytes_from c 0 edges)
compressed_size_lem c edges h =
    let l = length-bytes_from c 0 edges in
    size_from_lem c 0 edges 0 (omega arith) ∙ omega (arith, l)

-- The bytes behind the header
with_edges-bytes :
    (c : EdgeCoder) (us ds : List GadgetEdge)
    → length us < word32
    → length ds < word32
    → with_edges c us ds ≡ bytes_from c 0 us ++ bytes_from c 0 ds
with_edges-bytes c us ds hu hd =
    let bu = bytes_from c 0 us in
    let bd = bytes_from c 0 ds in
    let size = compressed_size c us + compressed_size c ds in
    let w : PackWriter = record { memory = replicate size 0; cur = 0; overflow = false } in
    let n : length (bu ++ bd) ≡ length (replicate size 0) = omega (
      arith,
      length-append bu bd,
      length-replicate {A = ℕ} size 0,
      compressed_size_lem c us hu,
      compressed_size_lem c ds hd,
    ) in
    ap (λ v. (write_compressed c ds v).memory) (write_from-written c 0 us w (omega arith))
    ∙ ap (λ v. v.memory)
        (write_from-written c 0 ds (written w bu) (written-IsInside w bu) ∙ written-append w bu bd)
    ∙ overwrite-all (replicate size 0) (bu ++ bd) n

read_slls-bytes :
    (s : Stats) (us ds : List GadgetEdge) (c : EdgeCoder)
    → c ≡ record { locations = s.locations; states = s.states }
    → s.undirected_edges ≡ length us
    → s.directed_edges ≡ length ds
    → Fits c
    → All (IsInRange c) us
    → All (IsInRange c) ds
    → Ascending c 0 us
    → Ascending c 0 ds
    → read_slls (s, bytes_from c 0 us ++ bytes_from c 0 ds) ≡ (us, ds)
read_slls-bytes s us ds c e nu nd f iu id au ad =
    let bu = bytes_from c 0 us in
    let bd = bytes_from c 0 ds in
    let r : PackReader = record { memory = bu ++ bd; cur = 0; overflow = false } in
    let u = read_from-bytes c 0 us bd r f iu au refl in
    let next = (read_compressed c (length us) r).1 in
    let v = read_from-bytes c 0 ds [] next f id ad (u.1 ∙ sym (append-nil bd)) in
    rw (sym e, nu, nd, u.0, v.0) refl

-- For locations, states and components that a header can hold, and edges between them whose codes
-- fit 32 bits, encode returns bytes, and decode_to_slls gives back its edges, sorted.
pub decode_to_slls-encode_edges :
    (locations states components : ℕ) (us ds : List GadgetEdge)
    → is_rejected (stats_of locations states components us ds) ≡ false
    → length us < word32
    → length ds < word32
    → Fits (record { locations = locations; states = states })
    → All (IsInRange (record { locations = locations; states = states })) us
    → All (IsInRange (record { locations = locations; states = states })) ds
    → (bytes : List ℕ) × (encode_edges locations states components us ds ≡ some bytes)
      × (decode_to_slls bytes ≡ some (sort_edges us, sort_edges ds))
unfolding encode_edges decode_to_slls build_header
decode_to_slls-encode_edges locations states components us ds h hu hd f iu id =
    let c : EdgeCoder = record { locations = locations; states = states } in
    let s = stats_of locations states components us ds in
    let su = sort_edges us in
    let sd = sort_edges ds in
    let lu = length-sort_edges us in
    let ld = length-sort_edges ds in
    let bytes = bytes_from c 0 su ++ bytes_from c 0 sd in
    let made = with_edges-bytes c su sd (omega (arith, lu, hu)) (omega (arith, ld, hd)) in
    let read =
      read_slls-bytes s su sd c refl (omega (arith, lu, hu)) (omega (arith, ld, hd)) f
        (All-sort_edges (IsInRange c) us iu) (All-sort_edges (IsInRange c) ds id)
        (Ascending-sort_edges c us f iu) (Ascending-sort_edges c ds f id) in
    (header_of s ++ bytes, rw (h, made) refl, rw (stats-header_of s bytes h, read) refl)
