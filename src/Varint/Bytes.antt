-- ===== src/Varint/Bytes.antt =====
-- src/varint.hpp: the bytes of a number, and how many `varint64::write` stores.
use motion_planning_gadget_s.Common.{
  ℕ, zero, suc, ◌+◌, ◌-◌, ◌*◌, ◌/◌, ◌≤◌, ◌<◌, ◌≡◌, refl, ap, subst, inl, inr, some, List, ◌++◌,
  arith, ltb, Bool-cases, length, All,
}
use motion_planning_gadget_s.Varint.{shifted_one, countl_zero, store, load, amount_of}

-- The numbers of `n` bytes are those below this.
abbrev pub byte_range : ℕ → ℕ
byte_range zero = 1
byte_range (suc n) = 256 * byte_range n

pub load-store :
    (n v : ℕ) (rest : List ℕ) → v < byte_range n → load n (store n v ++ rest) ≡ some (v, rest)
load-store zero v rest h = ap (λ x. some (x, rest)) (omega arith)
load-store (suc n) v rest h =
    rw (load-store n (v / 256) rest (omega arith)) (ap (λ x. some (x, rest)) (omega arith))

pub length-store : (n v : ℕ) → length (store n v) ≡ n
length-store zero v = refl
length-store (suc n) v = ap suc (length-store n (v / 256))

pub store-All : (n v : ℕ) → All (λ b. b < 256) (store n v)
store-All zero v = tt
store-All (suc n) v = (omega arith, store-All n (v / 256))

shifted_one_mono : (a b : ℕ) → a ≤ b → shifted_one a ≤ shifted_one b
shifted_one_mono zero zero h = omega arith
shifted_one_mono zero (suc b) h = omega (arith, shifted_one_mono zero b (omega arith))
shifted_one_mono (suc a) zero h = absurd (omega arith)
shifted_one_mono (suc a) (suc b) h = omega (arith, shifted_one_mono a b (omega arith))

shifted_one-lt : (a b : ℕ) → shifted_one a < shifted_one b → a < b
shifted_one-lt a b h = elim (Bool-cases (ltb a b)) [
  | inl e ↦ ground arith
  | inr e ↦ absurd (ground (arith, shifted_one_mono b a (ground arith)))
]

-- `8 * n`
abbrev bits : ℕ → ℕ
bits zero = 0
bits (suc n) = suc (suc (suc (suc (suc (suc (suc (suc (bits n))))))))

bits_lem : (n : ℕ) → bits n ≡ 8 * n
bits_lem zero = omega arith
bits_lem (suc n) = omega (arith, bits_lem n)

shifted_one-bits : (n : ℕ) → shifted_one (bits n) ≡ byte_range n
shifted_one-bits zero = refl
shifted_one-bits (suc n) = omega (arith, shifted_one-bits n)

-- The number has no more bits than those behind the leading zeros.
countl_zero-lt : (w v : ℕ) → v < shifted_one w → v < shifted_one (w - countl_zero w v)
countl_zero-lt zero v h = h
countl_zero-lt (suc w) v h = elim (Bool-cases (ltb v (shifted_one w))) [
  | inl e ↦
      let same : w - countl_zero w v ≡ suc w - suc (countl_zero w v) = omega arith in
      rw e (subst (λ k. v < shifted_one k) same (countl_zero-lt w v (ground arith)))
  | inr e ↦
      let same : suc w ≡ suc w - 0 = omega arith in rw e (subst (λ k. v < shifted_one k) same h)
]

countl_zero-le : (w k v : ℕ) → shifted_one k ≤ v → k < w → countl_zero w v + k < w
countl_zero-le zero k v h g = absurd (omega arith)
countl_zero-le (suc w) k v h g = elim (Bool-cases (ltb v (shifted_one w))) [
  | inl e ↦ rw e (omega (arith, countl_zero-le w k v h (shifted_one-lt k w (ground arith))))
  | inr e ↦ rw e (omega arith)
]

pub amount_of-fits : (v : ℕ) → v < shifted_one 64 → v < byte_range (amount_of v)
unfolding amount_of
amount_of-fits v h =
    let n = 8 - countl_zero 64 v / 8 in
    let a = countl_zero-lt 64 v h in
    let b = shifted_one_mono (64 - countl_zero 64 v) (bits n) (omega (arith, bits_lem n)) in
    let c = shifted_one-bits n in omega (arith, a, b, c)

-- A number of more than 16 bits has from 3 to 8 bytes.
pub amount_of-bounds : (v : ℕ) → shifted_one 16 ≤ v → (3 ≤ amount_of v) × (amount_of v ≤ 8)
unfolding amount_of
amount_of-bounds v h = let a = countl_zero-le 64 16 v h (omega arith) in (omega arith, omega arith)
