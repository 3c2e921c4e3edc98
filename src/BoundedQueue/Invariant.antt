-- ===== src/BoundedQueue/Invariant.antt =====
-- src/bounded_queue.hpp: what holds between the steps of the threads.
use motion_planning_gadget_s.Common.{
  ℕ, zero, suc, ◌+◌, ◌<◌, ◌≤◌, ◌≡◌, refl, sym, ap, ◌∙◌, inl, inr, true, false, List, [], ◌∷◌, ◌++◌,
  length, arith, Bool-cases, length-append, append_assoc, append-nil,
}
use motion_planning_gadget_s.BoundedQueue.{
  CircularBuffer, Queue, size, capacity, full, take_notified, pick, put_notified, push, put, offer,
  pop, take_of, take, poll_of, poll, logged, returned,
}

module _ {T : Type 0} (boost : CircularBuffer T) where
  -- The number of elements stays within the capacity, and what was put is what was taken and what is
  -- there, in this order. While threads wait in `take`, at least as many are woken as there are
  -- elements for them, but for `d` of them, and while threads wait in `put`, as many as there are
  -- free places, but for `e` of them.
  pub record Inv (c d e : ℕ) (ps ts : List T) (q : Queue boost) : Type 0 where
    pub capacity : capacity boost q ≡ c
    pub bound : size boost q ≤ c
    pub order : ps ≡ ts ++ boost.elements q.buffer
    pub takers : 0 < q.take_waiting → size boost q ≤ q.take_woken + d
    pub putters : 0 < length q.put_waiting → c ≤ size boost q + length q.put_woken + e

  full-size : (q : Queue boost) → full boost q ≡ true → size boost q ≡ capacity boost q
  full-size q h = ground arith

  length-snoc : (xs : List T) (x : T) → length (xs ++ (x ∷ [])) ≡ length xs + 1
  length-snoc xs x = length-append xs (x ∷ [])

  length-pick : (k : ℕ) (x : T) (xs : List T) → length ((pick boost k x xs).1) ≡ length xs
  length-pick k x [] = refl
  length-pick zero x (y ∷ xs) = refl
  length-pick (suc k) x (y ∷ xs) = ap suc (length-pick k y xs)

  -- A pushed element, with the buffer of the new state given by its elements
  take_notified-Inv :
      (c size_before n : ℕ) (ps ts : List T) (q : Queue boost)
      → q.take_waiting ≡ n
      → capacity boost q ≡ c
      → size boost q ≡ size_before + 1
      → size_before < c
      → ps ≡ ts ++ boost.elements q.buffer
      → (0 < n → size_before ≤ q.take_woken)
      → (0 < length q.put_waiting → c ≤ size_before + length q.put_woken + 1)
      → Inv c 0 0 ps ts (take_notified boost n q)
  take_notified-Inv c s zero ps ts q w k l b o t p = record {
    capacity = k;
    bound = omega (arith, l);
    order = o;
    takers = λ h. absurd (omega (arith, w, h));
    putters = λ h. omega (arith, l, p h);
  }
  take_notified-Inv c s (suc n) ps ts q w k l b o t p = record {
    capacity = k;
    bound = omega (arith, l);
    order = o;
    takers = λ h. omega (arith, l, t (omega arith));
    putters = λ h. omega (arith, l, p h);
  }

  push-Inv :
      (c : ℕ) (ps ts : List T) (q : Queue boost) (x : T)
      → full boost q ≡ false
      → Inv c 0 1 ps ts q
      → Inv c 0 0 (ps ++ (x ∷ [])) ts (push boost q x)
  push-Inv c ps ts q x f i =
      let room : size boost q < capacity boost q = ground (arith, i.capacity, i.bound) in
      let e = boost.elements-push_back q.buffer x room in
      take_notified-Inv c (size boost q) q.take_waiting (ps ++ (x ∷ [])) ts
        (record q { buffer = boost.push_back q.buffer x }) refl
        (boost.capacity-push_back q.buffer x ∙ i.capacity)
        (ap length e ∙ length-snoc (boost.elements q.buffer) x) (omega (arith, room, i.capacity))
        (ap (λ l. l ++ (x ∷ [])) i.order
          ∙ append_assoc ts (boost.elements q.buffer) (x ∷ [])
          ∙ ap (λ l. ts ++ l) (sym e))
        (λ h. omega (arith, i.takers h)) i.putters

  -- A thread that was woken, or that calls `put`
  pub put-Inv :
      (c : ℕ) (ps ts : List T) (q : Queue boost) (x : T)
      → Inv c 0 1 ps ts q
      → Inv c 0 0 (ps ++ logged boost ((put boost q x).0) x) ts ((put boost q x).1)
  put-Inv c ps ts q x i = elim (Bool-cases (full boost q)) [
    | inl f ↦
        let s = full-size q f in
        rw (f, append-nil ps)
          (record {
            capacity = i.capacity;
            bound = i.bound;
            order = i.order;
            takers = i.takers;
            putters = λ h. omega (arith, s, i.capacity);
          })
    | inr f ↦ rw f (push-Inv c ps ts q x f i)
  ]

  pub offer-Inv :
      (c : ℕ) (ps ts : List T) (q : Queue boost) (x : T)
      → Inv c 0 1 ps ts q
      → Inv c 0 0 ps ts q
      → Inv c 0 0 (ps ++ logged boost ((offer boost q x).0) x) ts ((offer boost q x).1)
  offer-Inv c ps ts q x i j = elim (Bool-cases (full boost q)) [
    | inl f ↦ rw (f, append-nil ps) j
    | inr f ↦ rw f (push-Inv c ps ts q x f i)
  ]

  -- A removed element, with the buffer of the new state given by its elements
  put_notified-Inv :
      (c k size_after : ℕ) (ps ts waiting : List T) (q : Queue boost)
      → q.put_waiting ≡ waiting
      → capacity boost q ≡ c
      → size boost q ≡ size_after
      → size_after + 1 ≤ c
      → ps ≡ ts ++ boost.elements q.buffer
      → (0 < q.take_waiting → size_after ≤ q.take_woken)
      → (0 < length waiting → c ≤ size_after + 1 + length q.put_woken)
      → Inv c 0 0 ps ts (put_notified boost k waiting q)
  put_notified-Inv c k s ps ts [] q w e l b o t p = record {
    capacity = e;
    bound = omega (arith, l);
    order = o;
    takers = λ h. omega (arith, l, t h);
    putters = λ h. absurd (omega (arith, h, ap length w));
  }
  put_notified-Inv c k s ps ts (x ∷ xs) q w e l b o t p =
      let n = length-snoc q.put_woken ((pick boost k x xs).0) in
      record {
        capacity = e;
        bound = omega (arith, l);
        order = o;
        takers = λ h. omega (arith, l, t h);
        putters = λ h. omega (arith, l, n, p (omega arith));
      }

  pop-Inv :
      (c k : ℕ) (ps ts : List T) (q : Queue boost) (x : T) (xs : List T)
      → boost.elements q.buffer ≡ x ∷ xs
      → Inv c 1 0 ps ts q
      → Inv c 0 0 ps (ts ++ (x ∷ [])) (pop boost k q)
  pop-Inv c k ps ts q x xs e i =
      let f = boost.elements-pop_front q.buffer x xs e in
      let l : size boost q ≡ suc (length xs) = ap length e in
      put_notified-Inv c k (length xs) ps (ts ++ (x ∷ [])) q.put_waiting
        (record q { buffer = boost.pop_front q.buffer }) refl
        (boost.capacity-pop_front q.buffer ∙ i.capacity) (ap length f) (omega (arith, l, i.bound))
        (i.order
          ∙ ap (λ m. ts ++ m) e
          ∙ sym (append_assoc ts (x ∷ []) xs)
          ∙ ap (λ m. (ts ++ (x ∷ [])) ++ m) (sym f))
        (λ h. omega (arith, l, i.takers h)) (λ h. omega (arith, l, i.putters h))

  take_of-Inv :
      (c k : ℕ) (ps ts elements : List T) (q : Queue boost)
      → boost.elements q.buffer ≡ elements
      → Inv c 1 0 ps ts q
      → Inv c 0 0 ps
          (ts ++ returned boost ((take_of boost k q elements).0))
          ((take_of boost k q elements).1)
  take_of-Inv c k ps ts [] q e i = rw (append-nil ts) (record {
    capacity = i.capacity;
    bound = i.bound;
    order = i.order;
    takers = λ h. omega (arith, ap length e);
    putters = i.putters;
  })
  take_of-Inv c k ps ts (x ∷ xs) q e i = pop-Inv c k ps ts q x xs e i

  -- A thread that was woken, or that calls `take`
  pub take-Inv :
      (c k : ℕ) (ps ts : List T) (q : Queue boost)
      → Inv c 1 0 ps ts q
      → Inv c 0 0 ps (ts ++ returned boost ((take boost k q).0)) ((take boost k q).1)
  take-Inv c k ps ts q i = take_of-Inv c k ps ts (boost.elements q.buffer) q refl i

  poll_of-Inv :
      (c k : ℕ) (ps ts elements : List T) (q : Queue boost)
      → boost.elements q.buffer ≡ elements
      → Inv c 1 0 ps ts q
      → Inv c 0 0 ps ts q
      → Inv c 0 0 ps
          (ts ++ returned boost ((poll_of boost k q elements).0))
          ((poll_of boost k q elements).1)
  poll_of-Inv c k ps ts [] q e i j = rw (append-nil ts) j
  poll_of-Inv c k ps ts (x ∷ xs) q e i j = pop-Inv c k ps ts q x xs e i

  pub poll-Inv :
      (c k : ℕ) (ps ts : List T) (q : Queue boost)
      → Inv c 1 0 ps ts q
      → Inv c 0 0 ps ts q
      → Inv c 0 0 ps (ts ++ returned boost ((poll boost k q).0)) ((poll boost k q).1)
  poll-Inv c k ps ts q i j = poll_of-Inv c k ps ts (boost.elements q.buffer) q refl i j
