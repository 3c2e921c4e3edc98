-- ===== src/Gadget/Encoding.antt =====
-- src/toggles/runner/gadget-encoding.cpp: the bytes of a gadget's edges. Assertions are not
-- evaluated, and `numeric_cast` to an unsigned int takes the low 32 bits.
use motion_planning_gadget_s.Common.{
  ℕ, ◌+◌, ◌-◌, ◌*◌, ◌%◌, ◌^◌, Bool, false, ◌&&◌, ◌||◌, Option, none, some, List, [], ◌∷◌, ◌++◌, ltb,
  leb, ◌==◌, if◌then◌else◌, length, replicate, word32, word, add64, sub64,
}
use motion_planning_gadget_s.Varint.{store}
use motion_planning_gadget_s.Pack.{PackWriter, write_varint, varint_size}
use motion_planning_gadget_s.Gadget.{GadgetEdge, Stats, lex}

-- `minimum_size` of an unsigned int
abbrev pub minimum_size : ℕ → ℕ
minimum_size x = if leb x 255 then 1 else if leb x 65535 then 2 else if ltb x (2 ^ 24) then 3 else 4

-- The lengths that `build_header` finds
abbrev pub state_length : Stats → ℕ
state_length s = if s.states == 0 then 0 else minimum_size s.states

abbrev pub uedge_length : Stats → ℕ
uedge_length s = if s.undirected_edges == 0 then 0 else minimum_size s.undirected_edges

abbrev pub dedge_length : Stats → ℕ
dedge_length s = if s.directed_edges == 0 then 0 else minimum_size s.directed_edges

abbrev pub comp_length : Stats → ℕ
comp_length s = if s.components == 1 then 0 else minimum_size s.components

-- One of the conditions on which `build_header` throws
unfoldable pub is_rejected : Stats → Bool
is_rejected s =
    ltb 2 (state_length s)
    || (ltb 3 (uedge_length s)
        || (ltb 3 (dedge_length s)
            || (ltb 1 (comp_length s)
                || (s.locations == 0
                    || (ltb 16 s.locations
                        || (state_length s == 0
                            || (uedge_length s == 0 && dedge_length s == 0)))))))

-- The fields of the second byte are in different bits, so that `|` is `+`.
abbrev pub second_byte : Stats → ℕ
second_byte s = (state_length s - 1) * 32 + uedge_length s * 8 + dedge_length s * 2 + comp_length s

abbrev pub header_of : Stats → List ℕ
header_of s =
    (s.locations - 1)
    ∷ second_byte s
    ∷ (store (state_length s) s.states
        ++ (store (uedge_length s) s.undirected_edges
            ++ (store (dedge_length s) s.directed_edges ++ store (comp_length s) s.components)))

-- `build_header`; `none` is an exception.
unfoldable pub build_header : Stats → Option (List ℕ)
unfolding is_rejected
build_header s = if is_rejected s then none else some (header_of s)

-- `LLSSEdgeCoder`, with the wrap-around of a product written once, around it
pub record EdgeCoder : Type 0 where
  pub locations : ℕ
  pub states : ℕ

unfoldable pub encode_edge : EdgeCoder → GadgetEdge → ℕ
encode_edge c e =
    ((e.from * c.locations * c.states * c.states) % word
      + (e.to * c.states * c.states) % word32
      + (e.start * c.states) % word32
      + e.end)
    % word

abbrev pub max_value : EdgeCoder → ℕ
max_value c = (c.locations * c.locations * c.states * c.states) % word32

abbrev pub edge_ordering : GadgetEdge → GadgetEdge → Bool
edge_ordering a b = lex a.from b.from (lex a.to b.to (lex a.start b.start (ltb a.end b.end)))

-- `std::sort` by `edge_ordering`
abbrev pub insert_edge : GadgetEdge → List GadgetEdge → List GadgetEdge
insert_edge e [] = e ∷ []
insert_edge e (f ∷ edges) = if edge_ordering f e then f ∷ insert_edge e edges else e ∷ f ∷ edges

unfoldable pub sort_edges : List GadgetEdge → List GadgetEdge
sort_edges [] = []
sort_edges (e ∷ edges) = insert_edge e (sort_edges edges)

-- `numeric_cast<unsigned int>(cur - previous)`
abbrev pub difference : ℕ → ℕ → ℕ
difference cur previous = sub64 cur previous % word32

-- The loops of `compressed_size` and `write_compressed`, behind the code `previous`
unfoldable pub size_from : EdgeCoder → ℕ → List GadgetEdge → ℕ → ℕ
size_from c previous [] size = size
size_from c previous (e ∷ edges) size =
    let cur = encode_edge c e in
    size_from c cur edges (add64 size (varint_size (difference cur previous)))

abbrev pub compressed_size : EdgeCoder → List GadgetEdge → ℕ
compressed_size c edges = size_from c 0 edges 0

unfoldable pub write_from : EdgeCoder → ℕ → List GadgetEdge → PackWriter → PackWriter
write_from c previous [] w = w
write_from c previous (e ∷ edges) w =
    let cur = encode_edge c e in write_from c cur edges (write_varint w (difference cur previous))

abbrev pub write_compressed : EdgeCoder → List GadgetEdge → PackWriter → PackWriter
write_compressed c edges w = write_from c 0 edges w

-- The statistics that `encode` collects; the numbers of locations, states and components are counted
-- on the automaton.
abbrev pub stats_of : ℕ → ℕ → ℕ → List GadgetEdge → List GadgetEdge → Stats
stats_of locations states components uedges dedges = record {
  locations = locations;
  states = states;
  undirected_edges = length uedges % word32;
  directed_edges = length dedges % word32;
  components = components;
}

-- The writer starts behind the header, in a vector of zeros of the computed size.
abbrev pub with_edges : EdgeCoder → List GadgetEdge → List GadgetEdge → List ℕ
with_edges coder us ds =
    let size = compressed_size coder us + compressed_size coder ds in
    let w : PackWriter = record { memory = replicate size 0; cur = 0; overflow = false } in
    (write_compressed coder ds (write_compressed coder us w)).memory

abbrev pub behind_header : Option (List ℕ) → List ℕ → Option (List ℕ)
behind_header none bytes = none
behind_header (some header) bytes = some (header ++ bytes)

-- `encode` from the edges that `deflate_slls` found on
unfoldable pub encode_edges : ℕ → ℕ → ℕ → List GadgetEdge → List GadgetEdge → Option (List ℕ)
unfolding build_header
encode_edges locations states components uedges dedges =
    let coder : EdgeCoder = record { locations = locations; states = states } in
    behind_header (build_header (stats_of locations states components uedges dedges))
      (with_edges coder (sort_edges uedges) (sort_edges dedges))
