-- ===== src/LinearSet.antt =====
-- src/linear_set.hpp: a set on a vector, at numbers. An iterator is an index into `data_`, and
-- `end()` is the size.
use motion_planning_gadget_s.Common.{
  ℕ, zero, suc, ◌≡◌, ◌-◌, List, [], ◌∷◌, ◌++◌, Bool, true, false, not, ◌||◌, ◌∙◌, ◌==◌, ==_iff, sym,
  if◌then◌else◌, Bool-cases, inl, inr, refl, arith, length, Option, some, none, length-append,
  get_or,
}

-- `std::find(data_.begin(), data_.end(), key)`
pub find : List ℕ → ℕ → ℕ
find [] key = 0
find (x ∷ elements) key = if x == key then 0 else suc (find elements key)

pub count : List ℕ → ℕ → Bool
unfolding find
count elements key = not (find elements key == length elements)

unfoldable pub insert_absent : List ℕ → ℕ → (ℕ × Bool) × List ℕ
insert_absent elements value =
    let after = elements ++ (value ∷ []) in ((length after - 1, true), after)

pub insert : List ℕ → ℕ → (ℕ × Bool) × List ℕ
unfolding find insert_absent
insert elements value =
    let i = find elements value in
    if not (i == length elements) then ((i, false), elements) else insert_absent elements value

-- `return true` behind the inner call
abbrev pub erased : Option (Bool × List ℕ) → Option (Bool × List ℕ)
erased none = none
erased (some r) = some (true, r.1)

-- `erase(const key_type&)`, which calls itself on a key that is there; `none` is the end of the fuel.
pub erase_key : ℕ → List ℕ → ℕ → Option (Bool × List ℕ)
unfolding find
erase_key zero elements key = none
erase_key (suc fuel) elements key =
    let again = erase_key fuel elements key in
    if not (find elements key == length elements) then erased again else some (false, elements)

-- `x` is in the vector.
abbrev pub is_in : ℕ → List ℕ → Bool
is_in x [] = false
is_in x (y ∷ l) = (y == x) || is_in x l

-- The invariant of the class: no element is there twice.
abbrev pub Distinct : List ℕ → Type 0
Distinct [] = Unit
Distinct (x ∷ l) = (is_in x l ≡ false) × Distinct l

eq-suc : (a b : ℕ) → (suc a == suc b) ≡ (a == b)
eq-suc a b = ground arith

find_lem :
    (elements : List ℕ) (key : ℕ)
    → (find elements key == length elements) ≡ not (is_in key elements)
unfolding find
find_lem [] key = refl
find_lem (x ∷ elements) key = elim (Bool-cases (x == key)) [
  | inl e ↦ rw e (ground arith)
  | inr e ↦ rw e (eq-suc (find elements key) (length elements) ∙ find_lem elements key)
]

pub is_in-snoc : (x v : ℕ) (l : List ℕ) → is_in x (l ++ (v ∷ [])) ≡ (is_in x l || (v == x))
is_in-snoc x v [] = ground arith
is_in-snoc x v (y ∷ l) = rw (is_in-snoc x v l) (ground arith)

pub Distinct-snoc : (v : ℕ) (l : List ℕ) → Distinct l → is_in v l ≡ false → Distinct (l ++ (v ∷ []))
Distinct-snoc v [] d h = (refl, tt)
Distinct-snoc v (y ∷ l) d h =
    (rw (is_in-snoc y v l) (ground arith), Distinct-snoc v l d.1 (ground arith))

get_or-find : (l : List ℕ) (v : ℕ) → is_in v l ≡ true → get_or l (find l v) 0 ≡ v
unfolding find
get_or-find [] v h = ground arith
get_or-find (x ∷ l) v h = elim (Bool-cases (x == v)) [
  | inl e ↦ rw e (ground arith)
  | inr e ↦ rw e (get_or-find l v (ground arith))
]

get_or-length : (l : List ℕ) (v : ℕ) → get_or (l ++ (v ∷ [])) (length l) 0 ≡ v
get_or-length [] v = refl
get_or-length (x ∷ l) v = get_or-length l v

get_or-snoc : (l : List ℕ) (v : ℕ) → get_or (l ++ (v ∷ [])) (length (l ++ (v ∷ [])) - 1) 0 ≡ v
get_or-snoc l v =
    let last : length (l ++ (v ∷ [])) - 1 ≡ length l = omega (arith, length-append l (v ∷ [])) in
    rw last (get_or-length l v)

is_in-present : (x v : ℕ) (l : List ℕ) → is_in v l ≡ true → is_in x l ≡ (is_in x l || (v == x))
is_in-present x v l h = elim (Bool-cases (v == x)) [
  | inl e ↦ rw (sym ((==_iff v x).0 e), h) refl
  | inr e ↦ rw e (ground arith)
]

-- insert keeps the elements distinct and adds the value and nothing else; it returns whether the
-- value was absent, and an iterator at the value.
pub insert_lem :
    (elements : List ℕ) (value : ℕ)
    → Distinct elements
    → Distinct ((insert elements value).1)
      × ((x : ℕ) → is_in x ((insert elements value).1) ≡ (is_in x elements || (value == x)))
      × ((insert elements value).0.1 ≡ not (is_in value elements))
      × (get_or ((insert elements value).1) ((insert elements value).0.0) 0 ≡ value)
unfolding insert insert_absent
insert_lem elements value d = elim (Bool-cases (is_in value elements)) [
  | inl e ↦
      rw (find_lem elements value, e)
        (d, (λ x. is_in-present x value elements e), refl, get_or-find elements value e)
  | inr e ↦
      rw (find_lem elements value, e)
        (
          Distinct-snoc value elements d e,
          (λ x. is_in-snoc x value elements),
          refl,
          get_or-snoc elements value,
        )
]

erase_key-present :
    (fuel : ℕ) (elements : List ℕ) (key : ℕ)
    → is_in key elements ≡ true
    → erase_key fuel elements key ≡ none
unfolding erase_key
erase_key-present zero elements key e = refl
erase_key-present (suc fuel) elements key e =
    rw (find_lem elements key, e, erase_key-present fuel elements key e) refl

-- erase of a key that is there does not return, whatever the fuel; of a key that is not there, it
-- returns false and leaves the set as it is.
pub erase_key_lem :
    (fuel : ℕ) (elements : List ℕ) (key : ℕ)
    → erase_key (suc fuel) elements key
      ≡ (if is_in key elements then none else some (false, elements))
unfolding erase_key
erase_key_lem fuel elements key = elim (Bool-cases (is_in key elements)) [
  | inl e ↦ rw (find_lem elements key, e, erase_key-present fuel elements key e) refl
  | inr e ↦ rw (find_lem elements key, e) refl
]
