-- ===== src/Pack/Memory.antt =====
-- src/pack-detail.hpp: what the calls of `write` leave in the memory.
use motion_planning_gadget_s.Common.{
  ℕ, zero, suc, ◌+◌, ◌-◌, ◌≤◌, min, ◌≡◌, refl, sym, ap, ◌∙◌, inl, inr, ◌||◌, Bool, true, List, [],
  ◌∷◌, ◌++◌, arith, ltb, Bool-cases, length, take, drop, length-append,
}
use motion_planning_gadget_s.Pack.{PackWriter, overwrite, write}

pub length-overwrite :
    (memory : List ℕ) (cur : ℕ) (bytes : List ℕ)
    → length (overwrite memory cur bytes) ≡ length memory
length-overwrite [] cur bytes = refl
length-overwrite (x ∷ memory) (suc cur) bytes = ap suc (length-overwrite memory cur bytes)
length-overwrite (x ∷ memory) zero [] = refl
length-overwrite (x ∷ memory) zero (b ∷ bytes) = ap suc (length-overwrite memory zero bytes)

overwrite-take :
    (memory : List ℕ) (cur : ℕ) (bytes : List ℕ)
    → overwrite memory cur (take (length memory - cur) bytes) ≡ overwrite memory cur bytes
overwrite-take [] cur bytes = refl
overwrite-take (x ∷ memory) (suc cur) bytes =
    let e : suc (length memory) - suc cur ≡ length memory - cur = omega arith in
    rw e (ap (λ l. x ∷ l) (overwrite-take memory cur bytes))
overwrite-take (x ∷ memory) zero [] =
    let e : suc (length memory) - 0 ≡ suc (length memory) = omega arith in rw e refl
overwrite-take (x ∷ memory) zero (b ∷ bytes) =
    let e : suc (length memory) - 0 ≡ suc (length memory) = omega arith in
    let f : length memory ≡ length memory - 0 = omega arith in
    rw e (
      ap (λ l. b ∷ l)
        (ap (λ k. overwrite memory zero (take k bytes)) f ∙ overwrite-take memory zero bytes))

overwrite-append :
    (memory : List ℕ) (cur : ℕ) (xs ys : List ℕ)
    → overwrite (overwrite memory cur xs) (cur + length xs) ys ≡ overwrite memory cur (xs ++ ys)
overwrite-append [] cur xs ys = refl
overwrite-append (m ∷ memory) (suc cur) xs ys =
    let e : suc cur + length xs ≡ suc (cur + length xs) = omega arith in
    rw e (ap (λ l. m ∷ l) (overwrite-append memory cur xs ys))
overwrite-append (m ∷ memory) zero [] ys = refl
overwrite-append (m ∷ memory) zero (x ∷ xs) ys =
    let e : 0 + suc (length xs) ≡ suc (0 + length xs) = omega arith in
    rw e (ap (λ l. x ∷ l) (overwrite-append memory zero xs ys))

pub overwrite-beyond :
    (memory : List ℕ) (cur : ℕ) (bytes : List ℕ)
    → length memory ≤ cur
    → overwrite memory cur bytes ≡ memory
overwrite-beyond [] cur bytes h = refl
overwrite-beyond (x ∷ memory) (suc cur) bytes h =
    ap (λ l. x ∷ l) (overwrite-beyond memory cur bytes (omega arith))
overwrite-beyond (x ∷ memory) zero bytes h = absurd (omega arith)

pub drop-overwrite :
    (memory : List ℕ) (cur : ℕ) (bytes : List ℕ)
    → cur + length bytes ≤ length memory
    → drop cur (overwrite memory cur bytes) ≡ bytes ++ drop (cur + length bytes) memory
drop-overwrite [] zero [] h = refl
drop-overwrite [] zero (b ∷ bytes) h = absurd (omega arith)
drop-overwrite [] (suc cur) bytes h = absurd (omega arith)
drop-overwrite (x ∷ memory) (suc cur) bytes h =
    let e : suc cur + length bytes ≡ suc (cur + length bytes) = omega arith in
    rw e (drop-overwrite memory cur bytes (omega arith))
drop-overwrite (x ∷ memory) zero [] h = refl
drop-overwrite (x ∷ memory) zero (b ∷ bytes) h =
    let e : 0 + suc (length bytes) ≡ suc (0 + length bytes) = omega arith in
    rw e (ap (λ l. b ∷ l) (drop-overwrite memory zero bytes (omega arith)))

-- The writer once some bytes are written, or cut off at the end of the memory.
abbrev pub written : PackWriter → List ℕ → PackWriter
written w bytes = record {
  memory = overwrite w.memory w.cur bytes;
  cur = min (w.cur + length bytes) (length w.memory);
  overflow = w.overflow || ltb (length w.memory) (w.cur + length bytes);
}

abbrev pub IsInside : PackWriter → Type 0
IsInside w = w.cur ≤ length w.memory

pub write-written : (w : PackWriter) (bytes : List ℕ) → IsInside w → write w bytes ≡ written w bytes
write-written w bytes h = elim (Bool-cases (ltb (length w.memory - w.cur) (length bytes))) [
  | inl e ↦
      let c : w.cur + (length w.memory - w.cur) ≡ min (w.cur + length bytes) (length w.memory) =
        ground arith in
      let o : true ≡ (w.overflow || ltb (length w.memory) (w.cur + length bytes)) = ground arith in
      let m = overwrite-take w.memory w.cur bytes in rw e (cc (m, c, o))
  | inr e ↦
      let c : w.cur + length bytes ≡ min (w.cur + length bytes) (length w.memory) = ground arith in
      let o : w.overflow ≡ (w.overflow || ltb (length w.memory) (w.cur + length bytes)) =
        ground arith in
      rw e (cc (c, o))
]

pub written-IsInside : (w : PackWriter) (bytes : List ℕ) → IsInside (written w bytes)
written-IsInside w bytes = omega (arith, length-overwrite w.memory w.cur bytes)

overwrite-min :
    (memory : List ℕ) (cur : ℕ) (xs ys : List ℕ)
    → overwrite (overwrite memory cur xs) (min (cur + length xs) (length memory)) ys
      ≡ overwrite memory cur (xs ++ ys)
overwrite-min memory cur xs ys =
    let l = length-overwrite memory cur xs in
    elim (Bool-cases (ltb (length memory) (cur + length xs))) [
      | inl e ↦
          overwrite-beyond (overwrite memory cur xs) (min (cur + length xs) (length memory)) ys
            (ground (arith, l))
          ∙ sym
              (overwrite-beyond (overwrite memory cur xs) (cur + length xs) ys (ground (arith, l)))
          ∙ overwrite-append memory cur xs ys
      | inr e ↦
          ap (λ k. overwrite (overwrite memory cur xs) k ys) (ground arith)
          ∙ overwrite-append memory cur xs ys
    ]

overflow_join :
    (o : Bool) (c x y m : ℕ)
    → ((o || ltb m (c + x)) || ltb m (min (c + x) m + y)) ≡ (o || ltb m (c + (x + y)))
overflow_join o c x y m = ground arith

pub written-append :
    (w : PackWriter) (xs ys : List ℕ) → written (written w xs) ys ≡ written w (xs ++ ys)
written-append w xs ys =
    let m = overwrite-min w.memory w.cur xs ys in
    let l = length-overwrite w.memory w.cur xs in
    let c : min (min (w.cur + length xs) (length w.memory) + length ys) (length w.memory)
        ≡ min (w.cur + (length xs + length ys)) (length w.memory) =
      omega arith in
    let o = overflow_join w.overflow w.cur (length xs) (length ys) (length w.memory) in
    rw (l, length-append xs ys) (cc (m, c, o))

-- Bytes that are written one after the other are written as one range.
pub write-append :
    (w : PackWriter) (xs ys : List ℕ) → IsInside w → write (write w xs) ys ≡ written w (xs ++ ys)
write-append w xs ys h =
    ap (λ v. write v ys) (write-written w xs h)
    ∙ write-written (written w xs) ys (written-IsInside w xs)
    ∙ written-append w xs ys
