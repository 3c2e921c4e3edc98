-- ===== src/Intervals/Stored/Bytes.antt =====
-- src/toggles/lmdb-interval-list.cpp: the bytes of an interval list, and what a view makes of a value.
use motion_planning_gadget_s.Common.{
  ℕ, zero, suc, ◌+◌, ◌*◌, ◌/◌, ◌%◌, ◌≤◌, ◌≡◌, ◌≢◌, refl, ap, ◌∙◌, true, false, Option, some, List,
  [], ◌∷◌, ◌++◌, ◌==◌, ◌<◌, ◌⊎◌, inl, inr, ℕ_discrete, All, length, length-append, word, arith,
}
use motion_planning_gadget_s.Varint.{store, load}
use motion_planning_gadget_s.Varint.Bytes.{load-store, length-store}
use motion_planning_gadget_s.Intervals.Sets.{Interval, DisjointFrom, IsDisjoint}
use motion_planning_gadget_s.Intervals.Points.Inflate.{Below}
use motion_planning_gadget_s.Intervals.Stored.{
  to_bytes, in_front, read_pairs, behind_first, behind_second, viewed, thrown, view_value,
}

length-to_bytes : (l : List Interval) → length (to_bytes l) ≡ 16 * length l
unfolding to_bytes
length-to_bytes [] = refl
length-to_bytes (i ∷ l) = omega (
  arith,
  length-append (store 8 i.0) (store 8 i.1 ++ to_bytes l),
  length-append (store 8 i.1) (to_bytes l),
  length-store 8 i.0,
  length-store 8 i.1,
  length-to_bytes l,
)

read_pairs-to_bytes :
    (lo : ℕ) (l : List Interval)
    → DisjointFrom lo l
    → Below word l
    → read_pairs (length l) (to_bytes l) ≡ some l
unfolding read_pairs to_bytes
read_pairs-to_bytes lo [] d b = refl
read_pairs-to_bytes lo ((first, second) ∷ l) d b =
    let f : List ℕ → Option (List Interval) = λ rest. read_pairs (length l) rest in
    let second_read = load-store 8 second (to_bytes l) (omega (arith, b.0)) in
    let first_read = load-store 8 first (store 8 second ++ to_bytes l) (omega (arith, d.1, b.0)) in
    ap (λ r. behind_first r f) first_read
    ∙ ap (λ r. behind_second first r f) second_read
    ∙ ap (in_front (first, second)) (read_pairs-to_bytes second l d.2 b.1)

-- A view of the bytes of disjoint intervals of 64-bit numbers gives the intervals back.
pub view_value-to_bytes :
    (l : List Interval) → IsDisjoint l → Below word l → view_value (some (to_bytes l)) ≡ viewed l
unfolding view_value
view_value-to_bytes l d b =
    let n = length-to_bytes l in
    let whole : (length (to_bytes l) % 16 == 0) ≡ true = ground (arith, n) in
    let count : length (to_bytes l) / 16 ≡ length l = omega (arith, n) in
    rw (whole, count, read_pairs-to_bytes 0 l d b) refl

-- The bytes of the number that a read gives, and the ones behind it, are the ones that are read of.
load-store_back :
    (n : ℕ) (bytes : List ℕ)
    → n ≤ length bytes
    → All (λ b. b < 256) bytes
    → (r : ℕ × List ℕ) × (load n bytes ≡ some r)
      × (store n r.0 ++ r.1 ≡ bytes)
      × (length r.1 + n ≡ length bytes)
      × All (λ b. b < 256) r.1
load-store_back zero bytes h a = ((0, bytes), refl, refl, omega arith, a)
load-store_back (suc n) [] h a = absurd (omega arith)
load-store_back (suc n) (b ∷ bytes) h a =
    let (r, e, s, l, m) = load-store_back n bytes (omega arith) a.1 in
    let low : (b + 256 * r.0) % 256 ≡ b = omega (arith, a.0) in
    let high : (b + 256 * r.0) / 256 ≡ r.0 = omega (arith, a.0) in
    (
      (b + 256 * r.0, r.1),
      rw e refl,
      ap (λ k. k ∷ (store n ((b + 256 * r.0) / 256) ++ r.1)) low
          ∙ ap (λ k. b ∷ (store n k ++ r.1)) high
          ∙ ap (λ k. b ∷ k) s,
      omega (arith, l),
      m,
    )

read_pairs-to_bytes_back :
    (count : ℕ) (bytes : List ℕ)
    → 16 * count ≡ length bytes
    → All (λ b. b < 256) bytes
    → (l : List Interval) × (read_pairs count bytes ≡ some l) × (to_bytes l ≡ bytes)
unfolding read_pairs to_bytes
read_pairs-to_bytes_back zero [] h a = ([], refl, refl)
read_pairs-to_bytes_back zero (b ∷ bytes) h a = absurd (omega arith)
read_pairs-to_bytes_back (suc count) bytes h a =
    let (first, e, s, k, m) = load-store_back 8 bytes (omega (arith, h)) a in
    let (second, f, t, n, o) = load-store_back 8 first.1 (omega (arith, h, k)) m in
    let (l, g, u) = read_pairs-to_bytes_back count second.1 (omega (arith, h, k, n)) o in
    (
      (first.0, second.0) ∷ l,
      rw (e, f, g) refl,
      ap (λ x. store 8 first.0 ++ (store 8 second.0 ++ x)) u ∙ ap (λ x. store 8 first.0 ++ x) t ∙ s,
    )

-- A view of bytes either has a length that is a multiple of the 16 bytes of a pair, and gives
-- intervals whose bytes they are, or has another length, and throws.
pub view_value_lem :
    (value : List ℕ)
    → All (λ b. b < 256) value
    → ((length value % 16 ≡ 0)
        × (l : List Interval) × (view_value (some value) ≡ viewed l)
        × (to_bytes l ≡ value))
      ⊎ ((length value % 16 ≢ 0) × (view_value (some value) ≡ thrown))
unfolding view_value
view_value_lem value a = elim (ℕ_discrete (length value % 16) 0) [
  | yes h ↦
      let (l, e, b) = read_pairs-to_bytes_back (length value / 16) value (omega (arith, h)) a in
      inl (h, l, rw (h, e) refl, b)
  | no n ↦ let k : (length value % 16 == 0) ≡ false = ground (arith, n) in inr (n, rw k refl)
]
