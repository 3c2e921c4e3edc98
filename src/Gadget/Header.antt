-- ===== src/Gadget/Header.antt =====
-- src/toggles/gadget-encoding-stats.cpp: reading the header that `build_header` made.
use motion_planning_gadget_s.Common.{
  ℕ, ◌+◌, ◌-◌, ◌*◌, ◌/◌, ◌%◌, ◌≤◌, ◌<◌, ◌≡◌, refl, ap, ◌∙◌, inl, inr, false, ◌&&◌, ◌||◌, some, List,
  ◌∷◌, ◌++◌, ltb, ◌==◌, if◌then◌else◌, arith, Bool-cases, append_assoc,
}
use motion_planning_gadget_s.Varint.{store, load}
use motion_planning_gadget_s.Varint.Bytes.{load-store, byte_range}
use motion_planning_gadget_s.Gadget.{Stats}
use motion_planning_gadget_s.Gadget.Encoding.{
  minimum_size, state_length, uedge_length, dedge_length, comp_length, is_rejected, second_byte,
  header_of,
}
use motion_planning_gadget_s.Gadget.Decoding.{locations, components_of, read_stats, stats}

-- What `build_header` asks for, in numbers
accepted :
    (sl ul dl cl l : ℕ)
    → (ltb 2 sl
        || (ltb 3 ul
            || (ltb 3 dl
                || (ltb 1 cl || (l == 0 || (ltb 16 l || (sl == 0 || (ul == 0 && dl == 0))))))))
      ≡ false
    → ((1 ≤ sl) × (sl ≤ 2)) × ((ul ≤ 3) × (dl ≤ 3)) × ((cl ≤ 1) × (1 ≤ l) × (l ≤ 16))
accepted sl ul dl cl l h = ground arith

-- The fields of the second byte
fields :
    (sl ul dl cl b : ℕ)
    → 1 ≤ sl
    → sl ≤ 2
    → ul ≤ 3
    → dl ≤ 3
    → cl ≤ 1
    → b ≡ (sl - 1) * 32 + ul * 8 + dl * 2 + cl
    → ((1 + (b / 32) % 2 ≡ sl) × ((b / 8) % 4 ≡ ul)) × (((b / 2) % 4 ≡ dl) × (b % 2 ≡ cl))
fields sl ul dl cl b h1 h2 h3 h4 h5 e = ((omega arith, omega arith), (omega arith, omega arith))

fits : (x : ℕ) → minimum_size x ≤ 3 → x < byte_range (minimum_size x)
fits x h = ground arith

fits_or_zero :
    (x : ℕ)
    → (if x == 0 then 0 else minimum_size x) ≤ 3
    → x < byte_range (if x == 0 then 0 else minimum_size x)
fits_or_zero x h = ground arith

-- The number of components, which has no bytes if it is 1
read_components :
    (x : ℕ) (rest : List ℕ)
    → (if x == 1 then 0 else minimum_size x) ≤ 1
    → (y : ℕ) × (load
          (if x == 1 then 0 else minimum_size x)
          (store (if x == 1 then 0 else minimum_size x) x ++ rest)
        ≡ some (y, rest))
      × (components_of (if x == 1 then 0 else minimum_size x) y ≡ x)
read_components x rest h = elim (Bool-cases (x == 1)) [
  | inl e ↦ rw e (0, refl, ground arith)
  | inr e ↦
      let k : minimum_size x ≤ 1 = rw e at h in
      let z : (minimum_size x == 0) ≡ false = ground arith in
      rw (e, z) (x, load-store (minimum_size x) x rest (fits x (omega arith)), refl)
]

read_stats-lengths :
    (s : Stats) (rest : List ℕ) (b : ℕ)
    → (1 + (b / 32) % 2 ≡ state_length s) × ((b / 8) % 4 ≡ uedge_length s)
    → ((b / 2) % 4 ≡ dedge_length s) × (b % 2 ≡ comp_length s)
    → state_length s ≤ 3
    → uedge_length s ≤ 3
    → dedge_length s ≤ 3
    → comp_length s ≤ 1
    → locations (s.locations - 1) ≡ s.locations
    → read_stats (s.locations - 1) b (
        store (state_length s) s.states
        ++ (store (uedge_length s) s.undirected_edges
            ++ (store (dedge_length s) s.directed_edges
                ++ (store (comp_length s) s.components ++ rest))))
      ≡ some (s, rest)
read_stats-lengths s rest b (e1, e2) (e3, e4) h1 h2 h3 h4 l =
    let c = read_components s.components rest h4 in
    let r3 = store (comp_length s) s.components ++ rest in
    let r2 = store (dedge_length s) s.directed_edges ++ r3 in
    let r1 = store (uedge_length s) s.undirected_edges ++ r2 in
    let i1 = load-store (state_length s) s.states r1 (fits_or_zero s.states h1) in
    let i2 =
      load-store (uedge_length s) s.undirected_edges r2 (fits_or_zero s.undirected_edges h2) in
    let i3 = load-store (dedge_length s) s.directed_edges r3 (fits_or_zero s.directed_edges h3) in
    rw (e1, i1, e2, i2, e3, i3, e4, c.1, l, c.2) refl

header_of-append :
    (s : Stats) (rest : List ℕ)
    → header_of s ++ rest
      ≡ (s.locations - 1)
        ∷ second_byte s
        ∷ (store (state_length s) s.states
            ++ (store (uedge_length s) s.undirected_edges
                ++ (store (dedge_length s) s.directed_edges
                    ++ (store (comp_length s) s.components ++ rest))))
header_of-append s rest =
    let a = store (state_length s) s.states in
    let b = store (uedge_length s) s.undirected_edges in
    let c = store (dedge_length s) s.directed_edges in
    let d = store (comp_length s) s.components in
    ap (λ t. (s.locations - 1) ∷ second_byte s ∷ t)
      (append_assoc a (b ++ (c ++ d)) rest
        ∙ ap (λ t. a ++ t)
            (append_assoc b (c ++ d) rest ∙ ap (λ t. b ++ t) (append_assoc c d rest)))

-- The statistics that build_header does not reject are read back from its bytes, and the bytes
-- behind them are left.
pub stats-header_of :
    (s : Stats) (rest : List ℕ)
    → is_rejected s ≡ false
    → stats (header_of s ++ rest) ≡ some (s, rest)
unfolding stats is_rejected
stats-header_of s rest h =
    let a =
      accepted (state_length s) (uedge_length s) (dedge_length s) (comp_length s) s.locations h in
    let l : (s.locations - 1) % 16 + 1 ≡ s.locations = omega (arith, a.2.1, a.2.2) in
    let f =
      fields (state_length s) (uedge_length s) (dedge_length s) (comp_length s) (second_byte s)
        a.0.0 a.0.1 a.1.0 a.1.1 a.2.0 refl in
    ap stats (header_of-append s rest)
    ∙ read_stats-lengths s rest (second_byte s) f.0 f.1 (omega (arith, a.0.1)) a.1.0 a.1.1 a.2.0 l
