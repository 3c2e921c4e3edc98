-- ===== src/Tests/Gadget.antt =====
-- src/toggles/runner/gadget-encoding.cpp at a gadget of two locations and two states.
use motion_planning_gadget_s.Common.{ℕ, ◌≡◌, refl, false, some, List, [], ◌∷◌, ◌++◌, ltb, arith}
use motion_planning_gadget_s.Pack.{write_varint, varint_size}
use motion_planning_gadget_s.Gadget.{GadgetEdge}
use motion_planning_gadget_s.Gadget.Encoding.{
  EdgeCoder, encode_edge, edge_ordering, encode_edges, sort_edges, stats_of, is_rejected, header_of,
  write_from, size_from,
}
use motion_planning_gadget_s.Gadget.Decoding.{decode_edge, decode_to_slls, stats}
use motion_planning_gadget_s.Gadget.Header.{stats-header_of}
use motion_planning_gadget_s.Gadget.Codes.{decode_edge-encode_edge, encode_edge-edge_ordering}
use motion_planning_gadget_s.Gadget.RoundTrip.{decode_to_slls-encode_edges}

-- Locations 0 and 1 are joined in state 0, and going from 1 to 0 in state 1 leads to state 0.
abbrev joined : GadgetEdge
joined = record { start = 0; from = 0; to = 1; end = 0 }

abbrev one_way : GadgetEdge
one_way = record { start = 1; from = 1; to = 0; end = 0 }

abbrev opening : GadgetEdge
opening = record { start = 0; from = 0; to = 1; end = 1 }

abbrev coder : EdgeCoder
coder = record { locations = 2; states = 2 }

in_bytes :
    encode_edges 2 2 1 (joined ∷ []) (one_way ∷ opening ∷ [])
    ≡ some (1 ∷ 10 ∷ 2 ∷ 1 ∷ 2 ∷ 4 ∷ 5 ∷ 5 ∷ [])
unfolding encode_edges is_rejected encode_edge sort_edges write_from write_varint size_from
    varint_size
in_bytes = refl

stats-header_of_example :
    stats (header_of (stats_of 2 2 1 (joined ∷ []) (one_way ∷ [])) ++ (4 ∷ []))
    ≡ some (stats_of 2 2 1 (joined ∷ []) (one_way ∷ []), 4 ∷ [])
unfolding is_rejected
stats-header_of_example =
    stats-header_of (stats_of 2 2 1 (joined ∷ []) (one_way ∷ [])) (4 ∷ []) refl

decode_edge-encode_edge_example : decode_edge coder (encode_edge coder one_way) ≡ one_way
decode_edge-encode_edge_example =
    decode_edge-encode_edge coder one_way
      (record { from = omega arith; to = omega arith; start = omega arith; end = omega arith })
      (omega arith)

encode_edge-edge_ordering_example :
    ltb (encode_edge coder joined) (encode_edge coder one_way) ≡ edge_ordering joined one_way
encode_edge-edge_ordering_example =
    encode_edge-edge_ordering coder joined one_way
      (record { from = omega arith; to = omega arith; start = omega arith; end = omega arith })
      (record { from = omega arith; to = omega arith; start = omega arith; end = omega arith })
      (omega arith)

decode_to_slls-encode_edges_example :
    (bytes : List ℕ) × (encode_edges 2 2 1 (joined ∷ []) (one_way ∷ opening ∷ []) ≡ some bytes)
    × (decode_to_slls bytes ≡ some (sort_edges (joined ∷ []), sort_edges (one_way ∷ opening ∷ [])))
unfolding is_rejected
decode_to_slls-encode_edges_example =
    decode_to_slls-encode_edges 2 2 1 (joined ∷ []) (one_way ∷ opening ∷ []) refl (omega arith)
      (omega arith) (omega arith)
      (record { from = omega arith; to = omega arith; start = omega arith; end = omega arith }, tt)
      (
        record { from = omega arith; to = omega arith; start = omega arith; end = omega arith },
        (
          record { from = omega arith; to = omega arith; start = omega arith; end = omega arith },
          tt,
        ),
      )

-- 16 locations and 32768 states pass the header's checks, yet the codes of these two edges agree.
abbrev to_first : GadgetEdge
to_first = record { start = 0; from = 0; to = 0; end = 1 }

abbrev to_fifth : GadgetEdge
to_fifth = record { start = 0; from = 0; to = 4; end = 1 }

abbrev large_coder : EdgeCoder
large_coder = record { locations = 16; states = 32768 }

colliding : encode_edge large_coder to_first ≡ encode_edge large_coder to_fifth
unfolding encode_edge
colliding = refl

not_rejected : is_rejected (stats_of 16 32768 1 (to_first ∷ []) (to_fifth ∷ [])) ≡ false
unfolding is_rejected
not_rejected = refl
