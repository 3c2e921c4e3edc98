-- ===== src/Varint/RoundTrip.antt =====
-- src/varint.hpp: reading what `varint64::write` wrote, and how long it is.
use motion_planning_gadget_s.Common.{
  ℕ, ◌+◌, ◌-◌, ◌%◌, ◌≤◌, ◌<◌, ◌≡◌, ap, inl, inr, some, List, ◌++◌, arith, leb, Bool-cases, length,
  All, word,
}
use motion_planning_gadget_s.Varint.{store, load, amount_of, write, read, read_first}
use motion_planning_gadget_s.Varint.Bytes.{
  load-store, length-store, store-All, amount_of-fits, amount_of-bounds,
}

read_first-load :
    (first : ℕ) (src : List ℕ) → 249 < first → read_first first src ≡ load (first - 247) src
read_first-load first src h = ground arith

read-write_long :
    (v : ℕ) (rest : List ℕ)
    → 67823 < v
    → v < word
    → read (store 1 (248 - 1 + amount_of v) ++ (store (amount_of v) v ++ rest)) ≡ some (v, rest)
unfolding read
read-write_long v rest h k =
    let n = amount_of v in
    let b = amount_of-bounds v (omega arith) in
    let first : (248 - 1 + n) % 256 ≡ 247 + n = omega (arith, b) in
    let amount : 247 + n - 247 ≡ n = omega arith in
    rw (first, read_first-load (247 + n) (store n v ++ rest) (omega (arith, b)), amount)
      (load-store n v rest (amount_of-fits v k))

-- Reading what varint64::write stored for a 64-bit value gives the value back, and leaves the bytes
-- behind it.
pub read-write : (v : ℕ) (rest : List ℕ) → v < word → read (write v ++ rest) ≡ some (v, rest)
unfolding read write
read-write v rest k = elim (Bool-cases (leb v 240)) [
  | inl e ↦ rw e (ground arith)
  | inr e ↦ elim (Bool-cases (leb v 2287)) [
    | inl f ↦ rw (e, f) (ground arith)
    | inr f ↦ elim (Bool-cases (leb v 67823)) [
      | inl g ↦ rw (e, f, g) (ap (λ x. some (x, rest)) (ground arith))
      | inr g ↦ rw (e, f, g) (read-write_long v rest (ground arith) k)
    ]
  ]
]

-- varint64::write stores from 1 to 9 bytes, each of them below 256.
pub write-bounds :
    (v : ℕ)
    → v < word
    → (1 ≤ length (write v)) × (length (write v) ≤ 9) × All (λ b. b < 256) (write v)
unfolding write
write-bounds v k = elim (Bool-cases (leb v 240)) [
  | inl e ↦ rw e (omega arith)
  | inr e ↦ elim (Bool-cases (leb v 2287)) [
    | inl f ↦ rw (e, f) (omega arith)
    | inr f ↦ elim (Bool-cases (leb v 67823)) [
      | inl g ↦ rw (e, f, g) (omega arith)
      | inr g ↦
          let b = amount_of-bounds v (ground arith) in
          let l = length-store (amount_of v) v in
          rw (e, f, g) (omega arith, omega (arith, b, l), (omega arith, store-All (amount_of v) v))
    ]
  ]
]
