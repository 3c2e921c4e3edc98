-- ===== src/AutomatonBase/Collect.antt =====
-- src/automatonbase.cpp: the sets that the loops of the queries collect.
use motion_planning_gadget_s.Common.{
  ℕ, zero, suc, ◌+◌, ◌≡◌, refl, sym, ap, ◌∙◌, inl, inr, Bool, true, false, not, ◌||◌, ◌&&◌, List,
  [], ◌∷◌, ◌==◌, ==_iff, ltb, arith, Bool-cases,
}
use motion_planning_gadget_s.LinearSet.{
  insert, insert_absent, is_in, Distinct, insert_lem, Distinct-snoc, is_in-snoc,
}
use motion_planning_gadget_s.AutomatonBase.{range_from, xrange, insert_absent_if}

is_in-range_from :
    (k left x : ℕ) → is_in x (range_from k left) ≡ (not (ltb x k) && ltb x (k + left))
is_in-range_from k zero x = ground arith
is_in-range_from k (suc left) x = rw (is_in-range_from (suc k) left x) (ground arith)

pub is_in-xrange : (n x : ℕ) → is_in x (xrange n) ≡ ltb x n
is_in-xrange n x = is_in-range_from 0 n x ∙ ground arith

range_from-Distinct : (k left : ℕ) → Distinct (range_from k left)
range_from-Distinct k zero = tt
range_from-Distinct k (suc left) =
    (is_in-range_from (suc k) left k ∙ ground arith, range_from-Distinct (suc k) left)

pub xrange-Distinct : (n : ℕ) → Distinct (xrange n)
xrange-Distinct n = range_from-Distinct 0 n

-- A set `l` has the elements that `p` says.
abbrev pub IsSetOf : (ℕ → Bool) → List ℕ → Type 0
IsSetOf p l = Distinct l × ((x : ℕ) → is_in x l ≡ p x)

pub insert-IsSetOf :
    (l : List ℕ) (v : ℕ) → Distinct l → IsSetOf (λ x. is_in x l || (v == x)) ((insert l v).1)
insert-IsSetOf l v d = let r = insert_lem l v d in (r.0, r.1)

insert_absent-IsSetOf :
    (l : List ℕ) (v : ℕ)
    → Distinct l
    → is_in v l ≡ false
    → IsSetOf (λ x. is_in x l || (v == x)) ((insert_absent l v).1)
unfolding insert_absent
insert_absent-IsSetOf l v d h = (Distinct-snoc v l d h, (λ x. is_in-snoc x v l))

either_join :
    (p : ℕ → Bool) (a x : ℕ) (r s : Bool)
    → p a ≡ true
    → ((r || (a == x)) || (s && p x)) ≡ (r || (((a == x) || s) && p x))
either_join p a x r s h = elim (Bool-cases (a == x)) [
  | inl e ↦ let f : p x ≡ true = ap p (sym ((==_iff a x).0 e)) ∙ h in rw (e, f) (ground arith)
  | inr e ↦ rw e (ground arith)
]

neither_join :
    (p : ℕ → Bool) (a x : ℕ) (r s : Bool)
    → p a ≡ false
    → (r || (s && p x)) ≡ (r || (((a == x) || s) && p x))
neither_join p a x r s h = elim (Bool-cases (a == x)) [
  | inl e ↦ let f : p x ≡ false = ap p (sym ((==_iff a x).0 e)) ∙ h in rw (e, f) (ground arith)
  | inr e ↦ rw e (ground arith)
]

apart_elements : (a x : ℕ) (l : List ℕ) → is_in x l ≡ true → is_in a l ≡ false → (a == x) ≡ false
apart_elements a x l h k = elim (Bool-cases (a == x)) [
  | inl e ↦
      let c : true ≡ false = sym h ∙ ap (λ y. is_in y l) (sym ((==_iff a x).0 e)) ∙ k in
      absurd (ground arith)
  | inr e ↦ e
]

-- The loop that inserts the symbols of a test, where none is in the set yet
pub insert_absent_if-IsSetOf :
    (test : ℕ → Bool) (symbols ret : List ℕ)
    → Distinct ret
    → Distinct symbols
    → ((x : ℕ) → is_in x symbols ≡ true → is_in x ret ≡ false)
    → IsSetOf (λ x. is_in x ret || (is_in x symbols && test x)) (insert_absent_if test ret symbols)
insert_absent_if-IsSetOf test [] ret d ds apart = (d, (λ x. ground arith))
insert_absent_if-IsSetOf test (a ∷ symbols) ret d ds apart = elim (Bool-cases (test a)) [
  | inl e ↦
      let fresh : is_in a ret ≡ false = apart a (ground arith) in
      let i = insert_absent-IsSetOf ret a d fresh in
      let r =
        insert_absent_if-IsSetOf test symbols ((insert_absent ret a).1) i.0 ds.1
          (λ x h. i.1 x ∙ rw (apart x (ground arith), apart_elements a x symbols h ds.0) refl) in
      rw e (r.0, (λ x. r.1 x ∙ rw (i.1 x) (either_join test a x (is_in x ret) (is_in x symbols) e)))
  | inr e ↦
      let r = insert_absent_if-IsSetOf test symbols ret d ds.1 (λ x h. apart x (ground arith)) in
      rw e (r.0, (λ x. r.1 x ∙ neither_join test a x (is_in x ret) (is_in x symbols) e))
]
