-- ===== src/Algorithms.antt =====
-- src/algoutils.hpp: `merge_unique`, at numbers.
use motion_planning_gadget_s.Common.{
  ℕ, suc, ◌≡◌, ◌≤◌, List, [], ◌∷◌, Bool, false, ◌||◌, ltb, ◌==◌, if◌then◌else◌, Bool-cases, inl,
  inr, refl, arith,
}

-- What `merge_unique` writes to `output`, in order.
pub merge_unique : List ℕ → List ℕ → List ℕ
merge_unique [] right = right
merge_unique (x ∷ left) [] = x ∷ left
merge_unique (x ∷ left) (y ∷ right) =
    let from_left = merge_unique left (y ∷ right) in
    let from_right = merge_unique (x ∷ left) right in
    let from_both = merge_unique left right in
    if ltb x y then x ∷ from_left else if ltb y x then y ∷ from_right else x ∷ from_both

abbrev pub is_in : ℕ → List ℕ → Bool
is_in x [] = false
is_in x (y ∷ l) = (x == y) || is_in x l

-- Strictly increasing, from `lo` on.
abbrev pub IncreasingFrom : ℕ → List ℕ → Type 0
IncreasingFrom lo [] = Unit
IncreasingFrom lo (x ∷ l) = (lo ≤ x) × IncreasingFrom (suc x) l

IncreasingFrom-lower : (lo k : ℕ) (l : List ℕ) → k ≤ lo → IncreasingFrom lo l → IncreasingFrom k l
IncreasingFrom-lower lo k [] h i = tt
IncreasingFrom-lower lo k (x ∷ l) h i = ground arith

merge_unique-IncreasingFrom :
    (lo : ℕ) (left right : List ℕ)
    → IncreasingFrom lo left
    → IncreasingFrom lo right
    → IncreasingFrom lo (merge_unique left right)
unfolding merge_unique
merge_unique-IncreasingFrom lo [] right h k = k
merge_unique-IncreasingFrom lo (x ∷ left) [] h k = h
merge_unique-IncreasingFrom lo (x ∷ left) (y ∷ right) h k = elim (Bool-cases (ltb x y)) [
  | inl e ↦ rw e (h.0, merge_unique-IncreasingFrom (suc x) left (y ∷ right) h.1 (ground arith))
  | inr e ↦ elim (Bool-cases (ltb y x)) [
    | inl f ↦
        rw (e, f) (k.0, merge_unique-IncreasingFrom (suc y) (x ∷ left) right (ground arith) k.1)
    | inr f ↦
        let same : suc x ≤ suc y = ground arith in
        rw (e, f)
          (
            h.0,
            merge_unique-IncreasingFrom (suc x) left right h.1
                (IncreasingFrom-lower (suc y) (suc x) right same k.1),
          )
  ]
]

is_in-merge_unique :
    (z : ℕ) (left right : List ℕ)
    → is_in z (merge_unique left right) ≡ (is_in z left || is_in z right)
unfolding merge_unique
is_in-merge_unique z [] right = refl
is_in-merge_unique z (x ∷ left) [] = ground arith
is_in-merge_unique z (x ∷ left) (y ∷ right) = elim (Bool-cases (ltb x y)) [
  | inl e ↦ rw (e, is_in-merge_unique z left (y ∷ right)) (ground arith)
  | inr e ↦ elim (Bool-cases (ltb y x)) [
    | inl f ↦ rw (e, f, is_in-merge_unique z (x ∷ left) right) (ground arith)
    | inr f ↦ rw (e, f, is_in-merge_unique z left right) (ground arith)
  ]
]

-- On strictly increasing ranges merge_unique writes a strictly increasing range of exactly the
-- numbers that are in one of them or in both.
pub merge_unique_lem :
    (left right : List ℕ)
    → IncreasingFrom 0 left
    → IncreasingFrom 0 right
    → IncreasingFrom 0 (merge_unique left right)
      × ((z : ℕ) → is_in z (merge_unique left right) ≡ (is_in z left || is_in z right))
merge_unique_lem left right h k =
    (merge_unique-IncreasingFrom 0 left right h k, λ z. is_in-merge_unique z left right)
