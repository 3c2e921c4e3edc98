-- ===== src/Intervals/Chunk/Correct.antt =====
-- src/intervals.hpp: the chunks of `interval_chunk` are full, in order, and of the same set.
use motion_planning_gadget_s.Common.{
  ℕ, suc, ◌-◌, ◌≤◌, ◌<◌, ◌≡◌, refl, sym, ap, subst, ◌∙◌, false, ◌||◌, Option, some, List, [], ◌∷◌,
  ◌++◌, append-nil, arith, ◌==◌, word,
}
use motion_planning_gadget_s.Intervals.Sets.{Interval, covers, DisjointFrom, IsDisjoint}
use motion_planning_gadget_s.Intervals.Points.Inflate.{total, Below}
use motion_planning_gadget_s.Intervals.Chunk.{Chunker, chunk_loop, straggling, interval_chunk}
use motion_planning_gadget_s.Intervals.Chunk.Pieces.{
  concat, Full, concat-snoc, pieces, Inv, piece_loop-Split,
}

-- Every chunk has `n` numbers, but the last one may have fewer, and at least one.
abbrev pub Chunks : ℕ → List (List Interval) → Type 0
Chunks n [] = Unit
Chunks n (w ∷ []) = (0 < total w) × (total w ≤ n)
Chunks n (w ∷ v ∷ ws) = (total w ≡ n) × Chunks n (v ∷ ws)

-- The intervals of `l` behind `pos` are done as well.
record Done (n : ℕ) (c : Chunker) (l : List Interval) (out : Option Chunker) : Type 0 where
  result : Chunker
  last : ℕ
  returned : out ≡ some result
  inv : Inv n last result
  same : (x : ℕ) → covers x (pieces result) ≡ (covers x (pieces c) || covers x l)

chunk_loop-Done :
    (n pos : ℕ) (c : Chunker) (l : List Interval)
    → Inv n pos c
    → n < word
    → DisjointFrom pos l
    → Below word l
    → Done n c l (chunk_loop n c l)
unfolding chunk_loop
chunk_loop-Done n pos c [] i w d k = record {
  result = c;
  last = pos;
  returned = refl;
  inv = i;
  same = λ x. ground arith;
}
chunk_loop-Done n pos c (cur ∷ l) i w d k =
    let s =
      piece_loop-Split (suc (suc (cur.1 - cur.0))) n pos c cur.0 cur.1 i w d.0 (omega (arith, d.1))
        k.0 (omega arith) in
    let r = chunk_loop-Done n cur.1 s.result l s.inv w d.2 k.1 in
    rw (chunk_loop, s.returned)
      (record {
        result = r.result;
        last = r.last;
        returned = r.returned;
        inv = r.inv;
        same = λ x. r.same x ∙ ap (λ b. b || covers x l) (s.same x) ∙ ground arith;
      })

concat-straggling :
    (ws : List (List Interval)) (w : List Interval) → concat (straggling ws w) ≡ concat ws ++ w
concat-straggling ws [] = sym (append-nil (concat ws))
concat-straggling ws (i ∷ w) = concat-snoc ws (i ∷ w)

Chunks-full : (n : ℕ) (ws : List (List Interval)) → 0 < n → Full n ws → Chunks n ws
Chunks-full n [] h f = tt
Chunks-full n (w ∷ []) h f = (omega (arith, f.0), omega (arith, f.0))
Chunks-full n (w ∷ v ∷ ws) h f = (f.0, Chunks-full n (v ∷ ws) h f.1)

Chunks-snoc :
    (n : ℕ) (ws : List (List Interval)) (w : List Interval)
    → Full n ws
    → 0 < total w
    → total w ≤ n
    → Chunks n (ws ++ (w ∷ []))
Chunks-snoc n [] w f h k = (h, k)
Chunks-snoc n (v ∷ []) w f h k = (f.0, (h, k))
Chunks-snoc n (v ∷ u ∷ ws) w f h k = (f.0, Chunks-snoc n (u ∷ ws) w f.1 h k)

head_nonempty :
    (lo : ℕ) (l : List Interval) (i : Interval) (w : List Interval)
    → DisjointFrom lo (l ++ (i ∷ w))
    → i.0 < i.1
head_nonempty lo [] i w d = d.1
head_nonempty lo (j ∷ l) i w d = head_nonempty j.1 l i w d.2

Chunks-straggling :
    (n pos : ℕ) (c : Chunker) (w : List Interval)
    → c.working ≡ w
    → Inv n pos c
    → Chunks n (straggling c.ret w)
Chunks-straggling n pos c [] e i = Chunks-full n c.ret (omega (arith, i.room)) i.full
Chunks-straggling n pos c (j ∷ w) e i =
    let h =
      head_nonempty 0 (concat c.ret) j w
        (subst (λ v. IsDisjoint (concat c.ret ++ v)) e i.disjoint) in
    let k : total (j ∷ w) ≡ c.size = ap total (sym e) ∙ i.counted in
    Chunks-snoc n c.ret (j ∷ w) i.full (omega (arith, h)) (omega (arith, k, i.room))

-- For a chunk size that is not 0 and disjoint intervals that end below 2 ^ 64, the rounds end and
-- interval_chunk returns chunks of that size, of which only the last may be smaller and none is
-- empty; one after the other they are disjoint intervals, in order, of the same numbers.
pub interval_chunk_lem :
    (l : List Interval) (n : ℕ)
    → 0 < n
    → n < word
    → IsDisjoint l
    → Below word l
    → (chunks : List (List Interval)) × (interval_chunk l n ≡ some chunks)
      × Chunks n chunks
      × IsDisjoint (concat chunks)
      × ((x : ℕ) → covers x (concat chunks) ≡ covers x l)
unfolding interval_chunk
interval_chunk_lem l n h w d k =
    let start : Chunker = record { ret = []; working = []; size = 0 } in
    let r =
      chunk_loop-Done n 0 start l
        (record { full = tt; counted = refl; room = h; disjoint = tt; ends = tt }) w d k in
    let c = r.result in
    let e = concat-straggling c.ret c.working in
    let nonzero : (n == 0) ≡ false = ground arith in
    (
      straggling c.ret c.working,
      rw (nonzero, r.returned) refl,
      Chunks-straggling n r.last c c.working refl r.inv,
      rw e r.inv.disjoint,
      λ x. rw e (r.same x),
    )
