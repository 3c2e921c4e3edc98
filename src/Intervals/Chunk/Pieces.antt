-- ===== src/Intervals/Chunk/Pieces.antt =====
-- src/intervals.hpp: the pieces into which `interval_chunk` cuts one interval.
use motion_planning_gadget_s.Common.{
  ℕ, zero, suc, ◌+◌, ◌-◌, ◌≤◌, ◌<◌, ◌≡◌, refl, sym, ap, ◌∙◌, inl, inr, ◌||◌, Option, some, List, [],
  ◌∷◌, ◌++◌, append-nil, append_assoc, arith, ◌==◌, ==_iff, Bool-cases, All, word, add64, sub64,
}
use motion_planning_gadget_s.Intervals.Sets.{
  Interval, covers, covers-append, in_interval, DisjointFrom, IsDisjoint,
}
use motion_planning_gadget_s.Intervals.Points.Inflate.{total}
use motion_planning_gadget_s.Intervals.Chunk.{Chunker, endpoint, push_piece, piece_loop}

abbrev pub concat : List (List Interval) → List Interval
concat [] = []
concat (w ∷ ws) = w ++ concat ws

abbrev pub Full : ℕ → List (List Interval) → Type 0
Full n ws = All (λ w. total w ≡ n) ws

-- No interval ends behind `hi`.
abbrev pub EndsBy : ℕ → List Interval → Type 0
EndsBy hi [] = Unit
EndsBy hi (i ∷ l) = (i.1 ≤ hi) × EndsBy hi l

pub concat-snoc :
    (ws : List (List Interval)) (w : List Interval) → concat (ws ++ (w ∷ [])) ≡ concat ws ++ w
concat-snoc [] w = append-nil w
concat-snoc (v ∷ ws) w = ap (λ l. v ++ l) (concat-snoc ws w) ∙ sym (append_assoc v (concat ws) w)

total-snoc : (l : List Interval) (i : Interval) → total (l ++ (i ∷ [])) ≡ total l + (i.1 - i.0)
total-snoc [] i = omega arith
total-snoc (j ∷ l) i = omega (arith, total-snoc l i)

Full-snoc :
    (n : ℕ) (ws : List (List Interval)) (w : List Interval)
    → Full n ws
    → total w ≡ n
    → Full n (ws ++ (w ∷ []))
Full-snoc n [] w f h = (h, tt)
Full-snoc n (v ∷ ws) w f h = (f.0, Full-snoc n ws w f.1 h)

DisjointFrom-snoc :
    (lo a b : ℕ) (l : List Interval)
    → DisjointFrom lo l
    → EndsBy a l
    → lo ≤ a
    → a < b
    → DisjointFrom lo (l ++ ((a, b) ∷ []))
DisjointFrom-snoc lo a b [] d e h k = (h, k, tt)
DisjointFrom-snoc lo a b (i ∷ l) d e h k = (d.0, d.1, DisjointFrom-snoc i.1 a b l d.2 e.1 e.0 k)

EndsBy-snoc : (a b : ℕ) (l : List Interval) → EndsBy a l → a ≤ b → EndsBy b (l ++ ((a, b) ∷ []))
EndsBy-snoc a b [] e h = (omega arith, tt)
EndsBy-snoc a b (i ∷ l) e h = (omega arith, EndsBy-snoc a b l e.1 h)

EndsBy-raise : (a b : ℕ) (l : List Interval) → EndsBy a l → a ≤ b → EndsBy b l
EndsBy-raise a b [] e h = tt
EndsBy-raise a b (i ∷ l) e h = (omega arith, EndsBy-raise a b l e.1 h)

-- The pieces pushed so far, in order.
abbrev pub pieces : Chunker → List Interval
pieces c = concat c.ret ++ c.working

-- Between two rounds, when the numbers before `pos` are done.
pub record Inv (n pos : ℕ) (c : Chunker) : Type 0 where
  pub full : Full n c.ret
  pub counted : total c.working ≡ c.size
  pub room : c.size < n
  pub disjoint : IsDisjoint (pieces c)
  pub ends : EndsBy pos (pieces c)

pieces-push_piece :
    (n : ℕ) (c : Chunker) (a b : ℕ) → pieces (push_piece n c a b) ≡ pieces c ++ ((a, b) ∷ [])
unfolding push_piece
pieces-push_piece n c a b = elim (Bool-cases (add64 c.size (sub64 b a) == n)) [
  | inl e ↦
      rw
        (
          e,
          append-nil (concat (c.ret ++ ((c.working ++ ((a, b) ∷ [])) ∷ []))),
          concat-snoc c.ret (c.working ++ ((a, b) ∷ [])),
        )
        (sym (append_assoc (concat c.ret) c.working ((a, b) ∷ [])))
  | inr e ↦ rw e (sym (append_assoc (concat c.ret) c.working ((a, b) ∷ [])))
]

-- A piece that is nonempty and fits keeps the invariant.
push_piece-Inv :
    (n pos : ℕ) (c : Chunker) (a b : ℕ)
    → Inv n pos c
    → n < word
    → pos ≤ a
    → a < b
    → b < word
    → b - a + c.size ≤ n
    → Inv n b (push_piece n c a b)
unfolding push_piece
push_piece-Inv n pos c a b i w h k g fits =
    let count : total (c.working ++ ((a, b) ∷ [])) ≡ add64 c.size (sub64 b a) =
      omega (arith, total-snoc c.working (a, b), i.counted, i.room) in
    let seen = pieces-push_piece n c a b in
    let d : IsDisjoint (pieces (push_piece n c a b)) = rw seen (
      DisjointFrom-snoc 0 a b (pieces c) i.disjoint (EndsBy-raise pos a (pieces c) i.ends h)
        (omega arith) k) in
    let e : EndsBy b (pieces (push_piece n c a b)) =
      rw seen (EndsBy-snoc a b (pieces c) (EndsBy-raise pos a (pieces c) i.ends h) (omega arith)) in
    record {
      full = elim (Bool-cases (add64 c.size (sub64 b a) == n)) [
        | inl t ↦ rw t (
            Full-snoc n c.ret (c.working ++ ((a, b) ∷ [])) i.full
              (count ∙ (==_iff (add64 c.size (sub64 b a)) n).0 t))
        | inr t ↦ rw t i.full
      ];
      counted = elim (Bool-cases (add64 c.size (sub64 b a) == n)) [
        | inl t ↦ rw t refl
        | inr t ↦ rw t count
      ];
      room = elim (Bool-cases (add64 c.size (sub64 b a) == n)) [
        | inl t ↦ rw t (omega (arith, i.room))
        | inr t ↦ rw t (ground (arith, i.room))
      ];
      disjoint = d;
      ends = e;
    }

-- The interval from `a` to `b` is done: its pieces are there, and nothing else is new.
pub record Split (n a b : ℕ) (c : Chunker) (out : Option Chunker) : Type 0 where
  pub result : Chunker
  pub returned : out ≡ some result
  pub inv : Inv n b result
  pub same : (x : ℕ) → covers x (pieces result) ≡ (covers x (pieces c) || in_interval x (a, b))

endpoint_lem :
    (n size a b : ℕ)
    → size < n
    → n < word
    → a < b
    → b < word
    → (a < endpoint a b (sub64 n size))
      × (endpoint a b (sub64 n size) ≤ b)
      × (endpoint a b (sub64 n size) - a + size ≤ n)
endpoint_lem n size a b h w k g = ground arith

join :
    (n x a e b : ℕ) (c : Chunker)
    → (a < e) × (e ≤ b)
    → (covers x (pieces (push_piece n c a e)) || in_interval x (e, b))
      ≡ (covers x (pieces c) || in_interval x (a, b))
join n x a e b c h =
    rw (pieces-push_piece n c a e, covers-append x (pieces c) ((a, e) ∷ [])) (ground arith)

pub piece_loop-Split :
    (fuel n pos : ℕ) (c : Chunker) (a b : ℕ)
    → Inv n pos c
    → n < word
    → pos ≤ a
    → a ≤ b
    → b < word
    → b - a < fuel
    → Split n a b c (piece_loop fuel n c a b)
unfolding piece_loop
piece_loop-Split zero n pos c a b i w h k g f = absurd (omega arith)
piece_loop-Split (suc fuel) n pos c a b i w h k g f = elim (Bool-cases (a == b)) [
  | inl t ↦ rw t (record {
    result = c;
    returned = refl;
    inv = record {
      full = i.full;
      counted = i.counted;
      room = i.room;
      disjoint = i.disjoint;
      ends = EndsBy-raise pos b (pieces c) i.ends (omega arith);
    };
    same = λ x. ground arith;
  })
  | inr t ↦
      let e = endpoint a b (sub64 n c.size) in
      let facts : (a < e) × (e ≤ b) × (e - a + c.size ≤ n) =
        endpoint_lem n c.size a b i.room w (ground arith) g in
      let s =
        piece_loop-Split fuel n e (push_piece n c a e) e b
          (push_piece-Inv n pos c a e i w h facts.0 (omega (arith, facts)) facts.2) w (omega arith)
          facts.1 g (omega (arith, facts)) in
      rw t (record {
        result = s.result;
        returned = s.returned;
        inv = s.inv;
        same = λ x. s.same x ∙ join n x a e b c (facts.0, facts.1);
      })
]
