-- ===== src/Gadget/Decoding.antt =====
-- src/toggles/gadget-encoding-stats.cpp and src/toggles/runner/gadget-encoding.cpp: the header and the
-- edges read back; a read behind the memory gives `none`.
use motion_planning_gadget_s.Common.{
  ℕ, zero, suc, ◌+◌, ◌*◌, ◌/◌, ◌%◌, false, Option, none, some, List, [], ◌∷◌, ◌==◌, ◌>>=◌,
  if◌then◌else◌, word32, add64,
}
use motion_planning_gadget_s.Varint.{load}
use motion_planning_gadget_s.Pack.{PackReader, read_varint}
use motion_planning_gadget_s.Gadget.{GadgetEdge, Stats}
use motion_planning_gadget_s.Gadget.Encoding.{EdgeCoder}

-- `locations`, of the first byte
abbrev pub locations : ℕ → ℕ
locations first = first % 16 + 1

-- The byte of the number of components overwrites the low byte of 1.
abbrev pub components_of : ℕ → ℕ → ℕ
components_of comp_length loaded = if comp_length == 0 then 1 else loaded

-- `stats`, with the rest of the memory
abbrev pub read_stats : ℕ → ℕ → List ℕ → Option (Stats × List ℕ)
read_stats first second rest = do
  (states, rest1) ← load (1 + (second / 32) % 2) rest
  (uedges, rest2) ← load ((second / 8) % 4) rest1
  (dedges, rest3) ← load ((second / 2) % 4) rest2
  (components, rest4) ← load (second % 2) rest3
  some (
    record {
      locations = locations first;
      states = states;
      undirected_edges = uedges;
      directed_edges = dedges;
      components = components_of (second % 2) components;
    },
    rest4,
  )

unfoldable pub stats : List ℕ → Option (Stats × List ℕ)
stats [] = none
stats (first ∷ []) = none
stats (first ∷ second ∷ rest) = read_stats first second rest

-- `LLSSEdgeCoder::decode`
unfoldable pub decode_edge : EdgeCoder → ℕ → GadgetEdge
decode_edge c i =
    let per_from = (c.locations * c.states * c.states) % word32 in
    let per_to = (c.states * c.states) % word32 in
    let i1 = i % per_from in
    let i2 = i1 % per_to in
    record {
      from = (i / per_from) % word32;
      to = (i1 / per_to) % word32;
      start = (i2 / c.states) % word32;
      end = (i2 % c.states) % word32;
    }

-- The loop of `read_compressed`, behind the code `previous`
unfoldable pub read_from : EdgeCoder → ℕ → ℕ → PackReader → List GadgetEdge × PackReader
read_from c previous zero reader = ([], reader)
read_from c previous (suc count) reader =
    let read = read_varint reader in
    let cur = add64 read.0 previous in
    let rest = read_from c cur count read.1 in (decode_edge c cur ∷ rest.0, rest.1)

abbrev pub read_compressed : EdgeCoder → ℕ → PackReader → List GadgetEdge × PackReader
read_compressed c count reader = read_from c 0 count reader

abbrev pub read_slls : Stats × List ℕ → List GadgetEdge × List GadgetEdge
read_slls r =
    let coder : EdgeCoder = record { locations = r.0.locations; states = r.0.states } in
    let reader : PackReader = record { memory = r.1; cur = 0; overflow = false } in
    let us = read_compressed coder r.0.undirected_edges reader in
    (us.0, (read_compressed coder r.0.directed_edges us.1).0)

unfoldable pub decode_to_slls : List ℕ → Option (List GadgetEdge × List GadgetEdge)
unfolding stats
decode_to_slls encoded = do r ← stats encoded; some (read_slls r)
