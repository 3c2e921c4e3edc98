-- ===== src/Expr/Folds/Powers.antt =====
-- Powers of a language, for src/expr.cpp's folds of nested repetitions.
use motion_planning_gadget_s.Common.{
  ◌*◌, ℕ, zero, suc, ◌+◌, ◌-◌, ◌≤◌, ◌≡◌, max, refl, sym, subst, ◌∙◌, ap, [], ◌++◌, append-nil,
  append_assoc, arith,
}
use motion_planning_gadget_s.Common.Int.{ℤ, pos}
use motion_planning_gadget_s.Expr.{unlimited}
use motion_planning_gadget_s.Expr.Language.{Word, Language, Splits, Power, Repeated, InRange}

pub recount : (L : Language) (m n : ℕ) (w : Word) → m ≡ n → Power L m w → Power L n w
recount L m n w e p = subst (λ k. Power L k w) e p

pub Power-append :
    (L : Language) (m n : ℕ) (u v : Word) → Power L m u → Power L n v → Power L (m + n) (u ++ v)
Power-append L zero n u v p q =
    recount L n (0 + n) (u ++ v) (omega arith) (subst (λ w. Power L n (w ++ v)) (sym p) q)
Power-append L (suc m) n u v p q =
    recount L (suc (m + n)) (suc m + n) (u ++ v) (omega arith) (record {
      front = p.front;
      back = p.back ++ v;
      joined = ap (λ w. w ++ v) p.joined ∙ append_assoc p.front p.back v;
      in_front = p.in_front;
      in_back = Power-append L m n p.back v p.in_back q;
    })

pub Power-split :
    (L : Language) (m n k : ℕ) (w : Word)
    → k ≡ m + n
    → Power L k w
    → Splits (Power L m) (Power L n) w
Power-split L zero n k w e p = record {
  front = [];
  back = w;
  joined = refl;
  in_front = refl;
  in_back = recount L k n w (omega arith) p;
}
Power-split L (suc m) n zero w e p = absurd (omega arith)
Power-split L (suc m) n (suc k) w e p =
    let s = Power-split L m n k p.back (omega arith) p.in_back in
    record {
      front = p.front ++ s.front;
      back = s.back;
      joined =
          p.joined ∙ ap (λ b. p.front ++ b) s.joined ∙ sym (append_assoc p.front s.front s.back);
      in_front = record {
        front = p.front;
        back = s.front;
        joined = refl;
        in_front = p.in_front;
        in_back = s.in_front;
      };
      in_back = s.in_back;
    }

-- `n` copies of `p{a,b}` are between `n * a` and `n * b` copies of `p`.
pub Power-bounded :
    (L : Language) (a b n : ℕ) (w : Word)
    → Power (Repeated L (pos a) (pos b)) n w
    → Repeated L (pos (n * a)) (pos (n * b)) w
Power-bounded L a b zero w p = record { copies = 0; allowed = (omega arith, omega arith); made = p }
Power-bounded L a b (suc n) w p =
    let r = Power-bounded L a b n p.back p.in_back in
    record {
      copies = p.in_front.copies + r.copies;
      allowed = (
        omega (arith, p.in_front.allowed, r.allowed),
        omega (arith, p.in_front.allowed, r.allowed),
      );
      made =
          subst (λ u. Power L (p.in_front.copies + r.copies) u) (sym p.joined)
            (Power-append L p.in_front.copies r.copies p.front p.back p.in_front.made r.made);
    }

-- Between `n * a` and `n * b` copies can be shared out to `n` repetitions.
pub Power-shared :
    (L : Language) (a b n k : ℕ) (w : Word)
    → a ≤ b
    → n * a ≤ k
    → k ≤ n * b
    → Power L k w
    → Power (Repeated L (pos a) (pos b)) n w
Power-shared L a b zero k w h low high p = recount L k 0 w (omega arith) p
Power-shared L a b (suc n) k w h low high p =
    let first = max a (k - n * b) in
    let mono : n * a ≤ n * b = grind arith in
    let s = Power-split L first (k - first) k w (omega arith) p in
    record {
      front = s.front;
      back = s.back;
      joined = s.joined;
      in_front = record { copies = first; allowed = (omega arith, omega arith); made = s.in_front };
      in_back = Power-shared L a b n (k - first) s.back h (omega arith) (omega arith) s.in_back;
    }

-- Copies of a repetition of `p` from 0 up are copies of `p`, however many.
pub Power-flat :
    (L : Language) (qmax : ℤ) (n : ℕ) (w : Word)
    → Power (Repeated L (pos 0) qmax) n w
    → Repeated L (pos 0) unlimited w
Power-flat L qmax zero w p = record { copies = 0; allowed = omega arith; made = p }
Power-flat L qmax (suc n) w p =
    let r = Power-flat L qmax n p.back p.in_back in
    record {
      copies = p.in_front.copies + r.copies;
      allowed = omega arith;
      made =
          subst (λ u. Power L (p.in_front.copies + r.copies) u) (sym p.joined)
            (Power-append L p.in_front.copies r.copies p.front p.back p.in_front.made r.made);
    }

-- One copy of `p` is one of a repetition that allows one copy.
pub Power-each :
    (L : Language) (qmax : ℤ) (n : ℕ) (w : Word)
    → InRange (pos 0) qmax 1
    → Power L n w
    → Power (Repeated L (pos 0) qmax) n w
Power-each L qmax zero w one p = p
Power-each L qmax (suc n) w one p = record {
  front = p.front;
  back = p.back;
  joined = p.joined;
  in_front = record {
    copies = 1;
    allowed = one;
    made = record {
      front = p.front;
      back = [];
      joined = sym (append-nil p.front);
      in_front = p.in_front;
      in_back = refl;
    };
  };
  in_back = Power-each L qmax n p.back one p.in_back;
}

-- Copies of the empty word.
pub Power-nil : (n : ℕ) (w : Word) → Power (λ u. u ≡ []) n w → w ≡ []
Power-nil zero w p = p
Power-nil (suc n) w p = p.joined ∙ ap (λ f. f ++ p.back) p.in_front ∙ Power-nil n p.back p.in_back

pub nil-Power : (n : ℕ) (w : Word) → w ≡ [] → Power (λ u. u ≡ []) n w
nil-Power zero w e = e
nil-Power (suc n) w e = record {
  front = [];
  back = w;
  joined = refl;
  in_front = refl;
  in_back = nil-Power n w e;
}
