-- ===== src/BoundedQueue/Promises.antt =====
-- src/bounded_queue.hpp: what the queue promises to its threads.
use motion_planning_gadget_s.Common.{
  ℕ, ◌+◌, ◌<◌, ◌≤◌, ◌≡◌, sym, ap, List, [], ◌∷◌, ◌++◌, length, arith, length-append, append-nil,
}
use motion_planning_gadget_s.BoundedQueue.{
  CircularBuffer, Queue, start, size, Step, Reachable, on_put, on_offer, on_take, on_poll,
  on_put_again, on_take_again, put_spurious, take_spurious, at_start, after,
}
use motion_planning_gadget_s.BoundedQueue.Invariant.{Inv, put-Inv, offer-Inv, take-Inv, poll-Inv}

module _ {T : Type 0} (boost : CircularBuffer T) where
  start-Inv : (c : ℕ) → Inv boost c 0 0 [] [] (start boost c)
  start-Inv c =
      let e = boost.elements-create c in
      let l : size boost (start boost c) ≡ 0 = ap length e in
      record {
        capacity = boost.capacity-create c;
        bound = omega (arith, l);
        order = sym e;
        takers = λ h. absurd (omega (arith, h));
        putters = λ h. absurd (omega (arith, h));
      }

  weaker :
      (c d e : ℕ) (ps ts : List T) (q : Queue boost)
      → Inv boost c 0 0 ps ts q
      → Inv boost c d e ps ts q
  weaker c d e ps ts q i = record {
    capacity = i.capacity;
    bound = i.bound;
    order = i.order;
    takers = λ h. omega (arith, i.takers h);
    putters = λ h. omega (arith, i.putters h);
  }

  length-middle :
      (xs : List T) (x : T) (ys : List T) → length (xs ++ (x ∷ ys)) ≡ length (xs ++ ys) + 1
  length-middle xs x ys = omega (arith, length-append xs (x ∷ ys), length-append xs ys)

  Step-Inv :
      {c : ℕ} {ps ts : List T} {q : Queue boost} {p t : List T} {r : Queue boost}
      → Step boost q p t r
      → Inv boost c 0 0 ps ts q
      → Inv boost c 0 0 (ps ++ p) (ts ++ t) r
  Step-Inv {c} {ps} {ts} (on_put q x) i =
      rw (append-nil ts) (put-Inv boost c ps ts q x (weaker c 0 1 ps ts q i))
  Step-Inv {c} {ps} {ts} (on_offer q x) i =
      rw (append-nil ts) (offer-Inv boost c ps ts q x (weaker c 0 1 ps ts q i) i)
  Step-Inv {c} {ps} {ts} (on_take q k) i =
      rw (append-nil ps) (take-Inv boost c k ps ts q (weaker c 1 0 ps ts q i))
  Step-Inv {c} {ps} {ts} (on_poll q k) i =
      rw (append-nil ps) (poll-Inv boost c k ps ts q (weaker c 1 0 ps ts q i) i)
  Step-Inv {c} {ps} {ts} (on_put_again q xs x ys h) i =
      let l = length-middle xs x ys in
      let m : length q.put_woken ≡ length (xs ++ (x ∷ ys)) = ap length h in
      rw (append-nil ts) (
        put-Inv boost c ps ts (record q { put_woken = xs ++ ys }) x
          (record {
            capacity = i.capacity;
            bound = i.bound;
            order = i.order;
            takers = λ w. omega (arith, i.takers w);
            putters = λ w. omega (arith, l, m, i.putters w);
          }))
  Step-Inv {c} {ps} {ts} (on_take_again q k n h) i = rw (append-nil ps) (
      take-Inv boost c k ps ts (record q { take_woken = n })
        (record {
          capacity = i.capacity;
          bound = i.bound;
          order = i.order;
          takers = λ w. omega (arith, h, i.takers w);
          putters = λ w. omega (arith, i.putters w);
        }))
  Step-Inv {c} {ps} {ts} (put_spurious q xs x ys h) i =
      let l = length-append q.put_woken (x ∷ []) in
      let n = length-middle xs x ys in
      let m : length q.put_waiting ≡ length (xs ++ (x ∷ ys)) = ap length h in
      rw (append-nil ps, append-nil ts)
        (record {
          capacity = i.capacity;
          bound = i.bound;
          order = i.order;
          takers = i.takers;
          putters = λ w. omega (arith, l, i.putters (omega (arith, m, n, w)));
        })
  Step-Inv {c} {ps} {ts} (take_spurious q n h) i =
      rw (append-nil ps, append-nil ts)
        (record {
          capacity = i.capacity;
          bound = i.bound;
          order = i.order;
          takers = λ w. omega (arith, h, i.takers (omega (arith, h)));
          putters = i.putters;
        })

  Reachable-Inv :
      {c : ℕ} {ps ts : List T} {q : Queue boost}
      → Reachable boost c ps ts q
      → Inv boost c 0 0 ps ts q
  Reachable-Inv {c} at_start = start-Inv c
  Reachable-Inv (after r s) = Step-Inv s (Reachable-Inv r)

  -- Whatever the threads did since the queue was made, it holds at most as many items as it was made
  -- for, and the items that put and offer added are, in their order, those that take and poll
  -- returned and then those that it holds.
  pub Reachable-order :
      (c : ℕ) (ps ts : List T) (q : Queue boost)
      → Reachable boost c ps ts q
      → (size boost q ≤ c) × (ps ≡ ts ++ boost.elements q.buffer)
  Reachable-order c ps ts q r = let i = Reachable-Inv r in (i.bound, i.order)

  -- No wakeup is lost: whatever the threads did, while a thread waits in take, there are at least as
  -- many woken takers as items, and while a thread waits in put, there are at least as many woken
  -- putters as free places.
  pub Reachable-woken :
      (c : ℕ) (ps ts : List T) (q : Queue boost)
      → Reachable boost c ps ts q
      → (0 < q.take_waiting → size boost q ≤ q.take_woken)
        × (0 < length q.put_waiting → c ≤ size boost q + length q.put_woken)
  Reachable-woken c ps ts q r =
      let i = Reachable-Inv r in
      ((λ w. omega (arith, i.takers w)), (λ w. omega (arith, i.putters w)))
