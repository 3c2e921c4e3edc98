-- ===== src/Pack/RoundTrip.antt =====
-- src/pack-detail.hpp: reading what `writeVarint` wrote.
use motion_planning_gadget_s.Common.{
  ℕ, zero, suc, ◌+◌, ◌-◌, ◌*◌, ◌/◌, ◌%◌, ◌^◌, ◌≤◌, ◌<◌, min, ◌≡◌, refl, sym, ap, ◌∙◌, inl, inr,
  true, false, List, [], ◌∷◌, ◌++◌, arith, ltb, leb, Bool-cases, length, drop, length-drop,
  length-append, word32,
}
use motion_planning_gadget_s.Varint.{store}
use motion_planning_gadget_s.Varint.Bytes.{length-store, byte_range}
use motion_planning_gadget_s.Pack.{
  PackWriter, PackReader, write_varint, varint_size, load, read_plain, read_number, read_first,
  read_varint, overwrite,
}
use motion_planning_gadget_s.Pack.Memory.{drop-overwrite}
use motion_planning_gadget_s.Pack.Bytes.{varint_bytes, length-varint_bytes, write_varint-written}

load-store : (n v : ℕ) (rest : List ℕ) → v < byte_range n → load n (store n v ++ rest) ≡ v
load-store zero v rest h = omega arith
load-store (suc n) v rest h = rw (load-store n (v / 256) rest (omega arith)) (omega arith)

load-four : (v x : ℕ) (rest : List ℕ) → v < 2 ^ 24 → load 4 (store 3 v ++ (x ∷ rest)) % 2 ^ 24 ≡ v
load-four v x rest h = omega arith

-- The reader behind some more bytes.
abbrev pub advance : ℕ → PackReader → PackReader
advance n r = record r { cur = r.cur + n }

pub drop-drop : (n k : ℕ) (memory : List ℕ) → drop (n + k) memory ≡ drop k (drop n memory)
drop-drop zero k memory = ap (λ i. drop i memory) (omega arith)
drop-drop (suc n) zero [] = let e : suc n + 0 ≡ suc n = omega arith in rw e refl
drop-drop (suc n) (suc k) [] = let e : suc n + suc k ≡ suc (n + suc k) = omega arith in rw e refl
drop-drop (suc n) k (x ∷ memory) =
    let e : suc n + k ≡ suc (n + k) = omega arith in rw e (drop-drop n k memory)

pub drop-length : (xs rest : List ℕ) → drop (length xs) (xs ++ rest) ≡ rest
drop-length [] rest = refl
drop-length (x ∷ xs) rest = drop-length xs rest

drop-store :
    (r : PackReader) (n v : ℕ) (rest : List ℕ)
    → drop r.cur r.memory ≡ store n v ++ rest
    → drop (r.cur + n) r.memory ≡ rest
drop-store r n v rest h =
    drop-drop r.cur n r.memory
    ∙ ap (drop n) h
    ∙ ap (λ k. drop k (store n v ++ rest)) (sym (length-store n v))
    ∙ drop-length (store n v) rest

read_plain-store :
    (n v : ℕ) (r : PackReader) (rest : List ℕ)
    → 0 < n
    → v < byte_range n
    → drop r.cur r.memory ≡ store n v ++ rest
    → read_plain n r ≡ (v, advance n r)
read_plain-store n v r rest p b h =
    let l : length r.memory - r.cur ≡ n + length rest =
      sym (length-drop r.cur r.memory)
      ∙ ap length h
      ∙ length-append (store n v) rest
      ∙ ap (λ k. k + length rest) (length-store n v) in
    let e : ltb (length r.memory) (r.cur + n) ≡ false = ground (arith, l) in
    rw (e, h, load-store n v rest b) refl

pub read_three_bytes :
    (v : ℕ) (r : PackReader) (rest : List ℕ)
    → v < 2 ^ 24
    → drop r.cur r.memory ≡ store 3 v ++ rest
    → read_number 3 r ≡ (v, advance 3 r)
read_three_bytes v r [] b h =
    let l : length r.memory - r.cur ≡ 3 = sym (length-drop r.cur r.memory) ∙ ap length h in
    let e : leb (r.cur + 4) (length r.memory) ≡ false = ground (arith, l) in
    rw e (read_plain-store 3 v r [] (omega arith) b h)
read_three_bytes v r (x ∷ rest) b h =
    let l : length r.memory - r.cur ≡ suc (suc (suc (suc (length rest)))) =
      sym (length-drop r.cur r.memory) ∙ ap length h in
    let e : leb (r.cur + 4) (length r.memory) ≡ true = ground (arith, l) in
    rw (e, h, load-four v x rest b) refl

read_one :
    (first : ℕ) (r : PackReader) (rest : List ℕ)
    → drop r.cur r.memory ≡ first ∷ rest
    → read_number 1 r ≡ (first, advance 1 r)
read_one first r rest h =
    let l : length r.memory - r.cur ≡ suc (length rest) =
      sym (length-drop r.cur r.memory) ∙ ap length h in
    let e : ltb (length r.memory) (r.cur + 1) ≡ false = ground (arith, l) in
    let f : first + 0 ≡ first = omega arith in rw (e, h, f) refl

drop-one :
    (first : ℕ) (r : PackReader) (rest : List ℕ)
    → drop r.cur r.memory ≡ first ∷ rest
    → drop (r.cur + 1) r.memory ≡ rest
drop-one first r rest h = drop-drop r.cur 1 r.memory ∙ ap (drop 1) h

read_varint-first :
    (first : ℕ) (r : PackReader) (rest : List ℕ)
    → drop r.cur r.memory ≡ first ∷ rest
    → read_varint r ≡ read_first first (advance 1 r)
unfolding read_varint
read_varint-first first r rest h = rw (read_one first r rest h) refl

advance-advance : (m n : ℕ) (r : PackReader) → advance n (advance m r) ≡ advance (m + n) r
advance-advance m n r = let e : r.cur + m + n ≡ r.cur + (m + n) = omega arith in cc e

read_first-two :
    (first second : ℕ) (r : PackReader) (rest : List ℕ)
    → 244 < first
    → first ≤ 252
    → drop r.cur r.memory ≡ second ∷ rest
    → read_first first r ≡ (244 + 256 * (first - 244 - 1) + second, advance 1 r)
read_first-two first second r rest p q h =
    let e : leb first 244 ≡ false = ground arith in
    let f : leb first 252 ≡ true = ground arith in rw (e, f, read_one second r rest h) refl

read_first-three :
    (second third : ℕ) (r : PackReader) (rest : List ℕ)
    → drop r.cur r.memory ≡ second ∷ third ∷ rest
    → read_first 253 r ≡ (2292 + 256 * second + third, advance 2 r)
read_first-three second third r rest h =
    let d = drop-one second r (third ∷ rest) h in
    rw (read_one second r (third ∷ rest) h, read_one third (advance 1 r) rest d)
      (ap (λ x. (2292 + 256 * second + third, x)) (advance-advance 1 1 r))

-- `readVarint` behind the bytes of a number
pub read_varint-bytes :
    (v : ℕ) (r : PackReader) (rest : List ℕ)
    → v < word32
    → drop r.cur r.memory ≡ varint_bytes v ++ rest
    → read_varint r ≡ (v, advance (varint_size v) r)
unfolding varint_bytes varint_size
read_varint-bytes v r rest b = elim (Bool-cases (leb v 244)) [
  | inl e ↦ rw e (λ h.
      let m : v % 256 ≡ v = ground arith in rw (read_varint-first (v % 256) r rest h, m, e) refl)
  | inr e ↦ elim (Bool-cases (leb v 2291)) [
    | inl f ↦
        rw (e, f)
          (λ h.
            let first = ((v - 244) / 256 + 244 + 1) % 256 in
            let second = (v - 244) % 256 % 256 in
            let value : 244 + 256 * (first - 244 - 1) + second ≡ v = ground arith in
            rw
              (
                read_varint-first first r (second ∷ rest) h,
                read_first-two first second (advance 1 r) rest (ground arith) (ground arith)
                    (drop-one first r (second ∷ rest) h),
                value,
              )
              (ap (λ x. (v, x)) (advance-advance 1 1 r)))
    | inr f ↦ elim (Bool-cases (leb v 67827)) [
      | inl g ↦
          rw (e, f, g)
            (λ h.
              let second = (v - 2292) / 256 % 256 in
              let third = (v - 2292) % 256 % 256 in
              let value : 2292 + 256 * second + third ≡ v = ground arith in
              rw
                (
                  read_varint-first 253 r (second ∷ third ∷ rest) h,
                  read_first-three second third (advance 1 r) rest
                      (drop-one 253 r (second ∷ third ∷ rest) h),
                  value,
                )
                (ap (λ x. (v, x)) (advance-advance 1 2 r)))
      | inr g ↦ elim (Bool-cases (leb v 16777215)) [
        | inl k ↦
            rw (e, f, g, k)
              (λ h.
                rw
                  (
                    read_varint-first 254 r (store 3 v ++ rest) h,
                    read_three_bytes v (advance 1 r) rest (ground arith)
                        (drop-one 254 r (store 3 v ++ rest) h),
                  )
                  (ap (λ x. (v, x)) (advance-advance 1 3 r)))
        | inr k ↦
            rw (e, f, g, k)
              (λ h.
                rw
                  (
                    read_varint-first 255 r (store 4 v ++ rest) h,
                    read_plain-store 4 v (advance 1 r) rest (omega arith) b
                        (drop-one 255 r (store 4 v ++ rest) h),
                  )
                  (ap (λ x. (v, x)) (advance-advance 1 4 r)))
      ]
    ]
  ]
]

-- Where writeVarint has room for a 32-bit value, readVarint at the place that was written gives the
-- value back, ends where the writer ended, and does not overflow.
pub read_varint-write_varint :
    (w : PackWriter) (v : ℕ)
    → v < word32
    → w.cur + varint_size v ≤ length w.memory
    → read_varint (record { memory = (write_varint w v).memory; cur = w.cur; overflow = false }) ≡ (
      v,
      record { memory = (write_varint w v).memory; cur = (write_varint w v).cur; overflow = false },
    )
read_varint-write_varint w v b room =
    let l = length-varint_bytes v in
    let c : min (w.cur + varint_size v) (length w.memory) ≡ w.cur + varint_size v = omega arith in
    let d = drop-overwrite w.memory w.cur (varint_bytes v) (omega (arith, l, room)) in
    rw (write_varint-written w v (omega arith), l, c)
      (read_varint-bytes v
        (record {
          memory = overwrite w.memory w.cur (varint_bytes v);
          cur = w.cur;
          overflow = false;
        })
        (drop (w.cur + length (varint_bytes v)) w.memory) b d)
