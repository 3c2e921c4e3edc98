-- ===== src/Gadget/Codes.antt =====
-- src/toggles/runner/gadget-encoding.cpp: the codes of the edges, `LLSSEdgeCoder`.
use native.Mathlib.Nat.{
  mul_comm, mul-le-mul_right, div-eq_of_lt, mod-eq_of_lt, add-mul-div_right, add-mul-mod_self_right,
}
use motion_planning_gadget_s.Common.{
  ℕ, suc, ◌+◌, ◌*◌, ◌/◌, ◌%◌, ◌≤◌, ◌<◌, ◌≡◌, refl, ap, ◌∙◌, inl, inr, ltb, ◌==◌, ==_iff, arith,
  Bool-cases, word32, word,
}
use motion_planning_gadget_s.Gadget.{GadgetEdge, lex}
use motion_planning_gadget_s.Gadget.Encoding.{EdgeCoder, encode_edge, edge_ordering}
use motion_planning_gadget_s.Gadget.Decoding.{decode_edge}

row_end : (n a c : ℕ) → a < c → a * n + n ≤ c * n
row_end n a c h =
    let e : suc a * n ≤ c * n = mul-le-mul_right n h in
    let s : suc a * n ≡ a * n + n = grind arith in omega (arith, e, s)

below_product : (m n a b : ℕ) → a < m → b < n → a * n + b < m * n
below_product m n a b h k = omega (arith, row_end n a m h, k)

high_digit : (n a b : ℕ) → b < n → (a * n + b) / n ≡ a
high_digit n a b h =
    let e : a * n + b ≡ b + a * n = omega arith in
    let d = add-mul-div_right b a {z = n} (omega arith) in
    let z = div-eq_of_lt h in rw (e, d, z) (omega arith)

low_digit : (n a b : ℕ) → b < n → (a * n + b) % n ≡ b
low_digit n a b h =
    let e : a * n + b ≡ b + a * n = omega arith in
    rw (e, add-mul-mod_self_right b a n) (mod-eq_of_lt h)

lex-digits : (n a b c d : ℕ) → b < n → d < n → ltb (a * n + b) (c * n + d) ≡ lex a c (ltb b d)
lex-digits n a b c d h k = elim (Bool-cases (ltb a c)) [
  | inl e ↦ let m = row_end n a c (ground arith) in ground arith
  | inr e ↦ elim (Bool-cases (a == c)) [
    | inl f ↦ let m : a * n ≡ c * n = ap (λ x. x * n) ((==_iff a c).0 f) in ground arith
    | inr f ↦ let m = row_end n c a (ground arith) in ground arith
  ]
]

-- The edge is one of the coder's.
pub record IsInRange (c : EdgeCoder) (e : GadgetEdge) : Type 0 where
  pub from : e.from < c.locations
  pub to : e.to < c.locations
  pub start : e.start < c.states
  pub end : e.end < c.states

-- The codes fit an unsigned int.
abbrev pub Fits : EdgeCoder → Type 0
Fits c = c.locations * c.locations * c.states * c.states < word32

-- A code without the wrap-around: the digits of the edge
abbrev per_to : EdgeCoder → ℕ
per_to c = c.states * c.states

abbrev per_from : EdgeCoder → ℕ
per_from c = c.locations * per_to c

abbrev low_code : EdgeCoder → GadgetEdge → ℕ
low_code c e = e.start * c.states + e.end

abbrev middle_code : EdgeCoder → GadgetEdge → ℕ
middle_code c e = e.to * per_to c + low_code c e

code : EdgeCoder → GadgetEdge → ℕ
code c e = e.from * per_from c + middle_code c e

low_code-lt : (c : EdgeCoder) (e : GadgetEdge) → IsInRange c e → low_code c e < per_to c
low_code-lt c e i = below_product c.states c.states e.start e.end i.start i.end

middle_code-lt : (c : EdgeCoder) (e : GadgetEdge) → IsInRange c e → middle_code c e < per_from c
middle_code-lt c e i =
    below_product c.locations (per_to c) e.to (low_code c e) i.to (low_code-lt c e i)

code-lt : (c : EdgeCoder) (e : GadgetEdge) → IsInRange c e → Fits c → code c e < word32
unfolding code
code-lt c e i f =
    let b =
      below_product c.locations (per_from c) e.from (middle_code c e) i.from
        (middle_code-lt c e i) in
    let p : c.locations * per_from c ≡ c.locations * c.locations * c.states * c.states =
      grind arith in
    omega (arith, b, p, f)

sum_wraps :
    (x y z e : ℕ)
    → x + (y + (z + e)) < word32
    → (x % word + y % word32 + z % word32 + e) % word ≡ x + (y + (z + e))
sum_wraps x y z e h = omega arith

encode_edge-code :
    (c : EdgeCoder) (e : GadgetEdge) → IsInRange c e → Fits c → encode_edge c e ≡ code c e
unfolding encode_edge code
encode_edge-code c e i f =
    let p : e.from * c.locations * c.states * c.states ≡ e.from * per_from c = grind arith in
    let q : e.to * c.states * c.states ≡ e.to * per_to c = grind arith in
    rw (p, q)
      (sum_wraps (e.from * per_from c) (e.to * per_to c) (e.start * c.states) e.end
        (code-lt c e i f))

-- The codes of edges are ordered as `edge_ordering` orders them.
pub encode_edge-edge_ordering :
    (c : EdgeCoder) (a b : GadgetEdge)
    → IsInRange c a
    → IsInRange c b
    → Fits c
    → ltb (encode_edge c a) (encode_edge c b) ≡ edge_ordering a b
unfolding code
encode_edge-edge_ordering c a b i j f =
    rw (encode_edge-code c a i f, encode_edge-code c b j f)
      (lex-digits (per_from c) a.from (middle_code c a) b.from (middle_code c b)
          (middle_code-lt c a i) (middle_code-lt c b j)
        ∙ ap (lex a.from b.from) (
            lex-digits (per_to c) a.to (low_code c a) b.to (low_code c b) (low_code-lt c a i)
              (low_code-lt c b j)
            ∙ ap (lex a.to b.to) (lex-digits c.states a.start a.end b.start b.end i.end j.end)))

le_mul : (a b : ℕ) → 0 < b → a ≤ b * a
le_mul a b h = let m : 1 * a ≤ b * a = mul-le-mul_right a h in omega (arith, m)

record Small (c : EdgeCoder) : Type 0 where
  locations : c.locations < word32
  states : c.states < word32
  to : per_to c < word32
  from : per_from c < word32

Fits-Small : (c : EdgeCoder) (e : GadgetEdge) → IsInRange c e → Fits c → Small c
Fits-Small c e i f =
    let l : 0 < c.locations = omega (arith, i.from) in
    let n : 0 < c.states = omega (arith, i.start) in
    let p : c.locations * per_from c ≡ c.locations * c.locations * c.states * c.states =
      grind arith in
    let q : per_from c * c.locations ≡ c.locations * per_from c =
      mul_comm (per_from c) c.locations in
    let m1 = le_mul (per_from c) c.locations l in
    let m2 = le_mul (per_to c) c.locations l in
    let m3 = le_mul c.states c.states n in
    let m4 = le_mul c.locations (per_from c) (omega (arith, m2, m3, n)) in
    record {
      locations = omega (arith, p, q, m4, f);
      states = omega (arith, p, m1, m2, m3, f);
      to = omega (arith, p, m1, m2, f);
      from = omega (arith, p, m1, f);
    }

-- While the number of codes, locations * locations * states * states, is below 2 ^ 32, decoding the
-- code of one of the coder's edges gives the edge back.
pub decode_edge-encode_edge :
    (c : EdgeCoder) (e : GadgetEdge) → IsInRange c e → Fits c → decode_edge c (encode_edge c e) ≡ e
unfolding decode_edge code
decode_edge-encode_edge c e i f =
    let s = Fits-Small c e i f in
    let p : c.locations * c.states * c.states ≡ per_from c = grind arith in
    let w1 : per_from c % word32 ≡ per_from c = mod-eq_of_lt s.from in
    let w2 : per_to c % word32 ≡ per_to c = mod-eq_of_lt s.to in
    let m = middle_code-lt c e i in
    let l = low_code-lt c e i in
    let from : e.from % word32 ≡ e.from = omega (arith, i.from, s.locations) in
    let to : e.to % word32 ≡ e.to = omega (arith, i.to, s.locations) in
    let start : e.start % word32 ≡ e.start = omega (arith, i.start, s.states) in
    let end : e.end % word32 ≡ e.end = omega (arith, i.end, s.states) in
    rw
      (
        encode_edge-code c e i f,
        p,
        w1,
        w2,
        high_digit (per_from c) e.from (middle_code c e) m,
        low_digit (per_from c) e.from (middle_code c e) m,
        high_digit (per_to c) e.to (low_code c e) l,
        low_digit (per_to c) e.to (low_code c e) l,
        high_digit c.states e.start e.end i.end,
        low_digit c.states e.start e.end i.end,
        from,
        to,
        start,
        end,
      )
      refl

pub encode_edge-lt :
    (c : EdgeCoder) (e : GadgetEdge) → IsInRange c e → Fits c → encode_edge c e < word32
encode_edge-lt c e i f = omega (arith, encode_edge-code c e i f, code-lt c e i f)
