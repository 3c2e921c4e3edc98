-- ===== src/Pack/Bytes.antt =====
-- src/pack-detail.hpp: the bytes that `writeVarint` writes.
use motion_planning_gadget_s.Common.{
  ℕ, ◌+◌, ◌-◌, ◌/◌, ◌%◌, ◌≤◌, min, ◌≡◌, refl, ap, ◌∙◌, inl, inr, ◌||◌, List, ◌++◌, arith, ltb, leb,
  Bool-cases, length, if◌then◌else◌,
}
use motion_planning_gadget_s.Varint.{store}
use motion_planning_gadget_s.Pack.{PackWriter, write, write_number, write_varint, varint_size}
use motion_planning_gadget_s.Pack.Memory.{
  written, IsInside, written-IsInside, write-written, write-append, written-append,
  length-overwrite,
}

-- The bytes of a number.
unfoldable pub varint_bytes : ℕ → List ℕ
varint_bytes v =
    if leb v 244
    then store 1 v
    else if leb v 2291
    then store 1 ((v - 244) / 256 + 244 + 1) ++ store 1 ((v - 244) % 256)
    else if leb v 67827
    then (store 1 253 ++ store 1 ((v - 2292) / 256)) ++ store 1 ((v - 2292) % 256)
    else if leb v 16777215
    then store 1 254 ++ store 3 v
    else store 1 255 ++ store 4 v

pub length-varint_bytes : (v : ℕ) → length (varint_bytes v) ≡ varint_size v
unfolding varint_bytes varint_size
length-varint_bytes v = ground arith

write-three :
    (w : PackWriter) (xs ys zs : List ℕ)
    → IsInside w
    → write (write (write w xs) ys) zs ≡ written w ((xs ++ ys) ++ zs)
write-three w xs ys zs h =
    ap (λ v. write v zs) (write-append w xs ys h)
    ∙ write-written (written w (xs ++ ys)) zs (written-IsInside w (xs ++ ys))
    ∙ written-append w (xs ++ ys) zs

pub write_varint-written :
    (w : PackWriter) (v : ℕ) → IsInside w → write_varint w v ≡ written w (varint_bytes v)
unfolding write_varint write_number varint_bytes
write_varint-written w v h = elim (Bool-cases (leb v 244)) [
  | inl e ↦ rw e (write-written w (store 1 v) h)
  | inr e ↦ elim (Bool-cases (leb v 2291)) [
    | inl f ↦
        rw (e, f)
          (write-append w (store 1 ((v - 244) / 256 + 244 + 1)) (store 1 ((v - 244) % 256)) h)
    | inr f ↦ elim (Bool-cases (leb v 67827)) [
      | inl g ↦
          rw (e, f, g)
            (write-three w (store 1 253) (store 1 ((v - 2292) / 256)) (store 1 ((v - 2292) % 256))
              h)
      | inr g ↦ elim (Bool-cases (leb v 16777215)) [
        | inl k ↦ rw (e, f, g, k) (write-append w (store 1 254) (store 3 v) h)
        | inr k ↦ rw (e, f, g, k) (write-append w (store 1 255) (store 4 v) h)
      ]
    ]
  ]
]

-- writeVarint stays inside the memory, whose size it keeps; it moves on by varint_size of the value
-- or up to the end, and overflow is set from then on exactly when the bytes had no room.
pub write_varint-bounds :
    (w : PackWriter) (v : ℕ)
    → w.cur ≤ length w.memory
    → (length (write_varint w v).memory ≡ length w.memory)
      × (((write_varint w v).cur ≡ min (w.cur + varint_size v) (length w.memory))
          × ((write_varint w v).overflow
              ≡ (w.overflow || ltb (length w.memory) (w.cur + varint_size v))))
write_varint-bounds w v h =
    let l = length-varint_bytes v in
    rw (write_varint-written w v h, l)
      (length-overwrite w.memory w.cur (varint_bytes v), (refl, refl))
