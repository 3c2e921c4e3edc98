-- ===== src/Gadget.antt =====
-- src/toggles: gadgets, as edges between their states, and the bytes that the database has of them.
pub mod Encoding
pub mod Decoding
pub mod Header
pub mod Codes
pub mod Compressed
pub mod RoundTrip
use motion_planning_gadget_s.Common.{ℕ, Bool, ◌&&◌, ◌||◌, ltb, ◌==◌}

-- `GadgetEdge`: from a state at one location to a state at another location
pub record GadgetEdge : Type 0 where
  pub start : ℕ
  pub from : ℕ
  pub to : ℕ
  pub end : ℕ

abbrev pub reverse : GadgetEdge → GadgetEdge
reverse e = record { start = e.end; from = e.to; to = e.from; end = e.start }

abbrev pub same_edge : GadgetEdge → GadgetEdge → Bool
same_edge l r = (l.start == r.start) && ((l.from == r.from) && ((l.to == r.to) && (l.end == r.end)))

-- `operator<` of tuples
abbrev pub lex : ℕ → ℕ → Bool → Bool
lex a b rest = ltb a b || (a == b && rest)

abbrev pub edge_less : GadgetEdge → GadgetEdge → Bool
edge_less l r = lex l.start r.start (lex l.from r.from (lex l.to r.to (ltb l.end r.end)))

-- `encoding::Stats`
pub record Stats : Type 0 where
  pub locations : ℕ
  pub states : ℕ
  pub undirected_edges : ℕ
  pub directed_edges : ℕ
  pub components : ℕ
