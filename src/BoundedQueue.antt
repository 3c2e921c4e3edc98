-- ===== src/BoundedQueue.antt =====
-- src/bounded_queue.hpp: the queue that threads share. The mutex makes each section of a call that
-- holds it one step: up to its end, or up to `wait`, which blocks the thread. A thread that is woken
-- runs on later, and tests its condition again. A thread that waits in `put` has its item.
pub mod Invariant
pub mod Promises
use motion_planning_gadget_s.Common.{
  ℕ, zero, suc, ◌+◌, ◌<◌, ◌≡◌, Bool, true, false, Option, none, some, List, [], ◌∷◌, ◌++◌, ◌==◌,
  if◌then◌else◌, length,
}

-- `boost::circular_buffer`: a sequence of at most `capacity` elements. What its documentation says
-- of it when it is made, of push_back with room, and of pop_front with an element.
pub record CircularBuffer (T : Type 0) : Type 1 where
  pub Carrier : Type 0
  pub create : ℕ → Carrier
  pub capacity : Carrier → ℕ
  pub elements : Carrier → List T
  pub push_back : Carrier → T → Carrier
  pub pop_front : Carrier → Carrier
  pub elements-create : (n : ℕ) → elements (create n) ≡ []
  pub capacity-create : (n : ℕ) → capacity (create n) ≡ n
  pub elements-push_back :
      (c : Carrier) (x : T)
      → length (elements c) < capacity c
      → elements (push_back c x) ≡ elements c ++ (x ∷ [])
  pub capacity-push_back : (c : Carrier) (x : T) → capacity (push_back c x) ≡ capacity c
  pub elements-pop_front :
      (c : Carrier) (x : T) (xs : List T) → elements c ≡ x ∷ xs → elements (pop_front c) ≡ xs
  pub capacity-pop_front : (c : Carrier) → capacity (pop_front c) ≡ capacity c

module _ {T : Type 0} (boost : CircularBuffer T) where
  -- The threads blocked in `nonfull_.wait` and `nonempty_.wait`, and those woken that have not run on
  pub record Queue : Type 0 where
    pub buffer : boost.Carrier
    pub put_waiting : List T
    pub put_woken : List T
    pub take_waiting : ℕ
    pub take_woken : ℕ

  -- `bounded_queue(size)`
  abbrev pub start : ℕ → Queue
  start size = record {
    buffer = boost.create size;
    put_waiting = [];
    put_woken = [];
    take_waiting = 0;
    take_woken = 0;
  }

  abbrev pub size : Queue → ℕ
  size q = length (boost.elements q.buffer)

  abbrev pub capacity : Queue → ℕ
  capacity q = boost.capacity q.buffer

  abbrev pub full : Queue → Bool
  full q = size q == capacity q

  -- `nonempty_.notify_one()`
  abbrev pub take_notified : ℕ → Queue → Queue
  take_notified zero q = q
  take_notified (suc n) q = record q { take_waiting = n; take_woken = q.take_woken + 1 }

  -- The element that is chosen by a number, or the last one, and the others
  abbrev pub pick : ℕ → T → List T → T × List T
  pick k x [] = (x, [])
  pick zero x (y ∷ xs) = (x, y ∷ xs)
  pick (suc k) x (y ∷ xs) = let r = pick k y xs in (r.0, x ∷ r.1)

  -- `nonfull_.notify_one()`, which wakes any one of the threads that wait
  abbrev pub put_notified : ℕ → List T → Queue → Queue
  put_notified k [] q = q
  put_notified k (x ∷ xs) q =
      let r = pick k x xs in record q { put_waiting = r.1; put_woken = q.put_woken ++ (r.0 ∷ []) }

  abbrev pub push : Queue → T → Queue
  push q item = take_notified q.take_waiting (record q { buffer = boost.push_back q.buffer item })

  -- `put` up to its end or its wait, and whether it has put the item
  abbrev pub put : Queue → T → Bool × Queue
  put q item =
      if full q
      then (false, record q { put_waiting = q.put_waiting ++ (item ∷ []) })
      else (true, push q item)

  abbrev pub offer : Queue → T → Bool × Queue
  offer q item = if full q then (false, q) else (true, push q item)

  abbrev pub pop : ℕ → Queue → Queue
  pop k q = put_notified k q.put_waiting (record q { buffer = boost.pop_front q.buffer })

  -- `take` up to its end or its wait, where `elements` is what the buffer has
  abbrev pub take_of : ℕ → Queue → List T → Option T × Queue
  take_of k q [] = (none, record q { take_waiting = q.take_waiting + 1 })
  take_of k q (item ∷ items) = (some item, pop k q)

  abbrev pub take : ℕ → Queue → Option T × Queue
  take k q = take_of k q (boost.elements q.buffer)

  abbrev pub poll_of : ℕ → Queue → List T → Option T × Queue
  poll_of k q [] = (none, q)
  poll_of k q (item ∷ items) = (some item, pop k q)

  abbrev pub poll : ℕ → Queue → Option T × Queue
  poll k q = poll_of k q (boost.elements q.buffer)

  -- The items that a step has put, and those that it has taken
  abbrev pub logged : Bool → T → List T
  logged false item = []
  logged true item = item ∷ []

  abbrev pub returned : Option T → List T
  returned none = []
  returned (some item) = item ∷ []

  -- The threads' steps; a thread may also be woken without a notification.
  pub data Step : Queue → List T → List T → Queue → Type 0 where
    on_put : (q : Queue) (x : T) → Step q (logged ((put q x).0) x) [] ((put q x).1)
    on_offer : (q : Queue) (x : T) → Step q (logged ((offer q x).0) x) [] ((offer q x).1)
    on_take : (q : Queue) (k : ℕ) → Step q [] (returned ((take k q).0)) ((take k q).1)
    on_poll : (q : Queue) (k : ℕ) → Step q [] (returned ((poll k q).0)) ((poll k q).1)
    on_put_again :
        (q : Queue) (xs : List T) (x : T) (ys : List T)
        → q.put_woken ≡ xs ++ (x ∷ ys)
        → Step q
            (logged ((put (record q { put_woken = xs ++ ys }) x).0) x)
            []
            ((put (record q { put_woken = xs ++ ys }) x).1)
    on_take_again :
        (q : Queue) (k n : ℕ)
        → q.take_woken ≡ suc n
        → Step q []
            (returned ((take k (record q { take_woken = n })).0))
            ((take k (record q { take_woken = n })).1)
    put_spurious :
        (q : Queue) (xs : List T) (x : T) (ys : List T)
        → q.put_waiting ≡ xs ++ (x ∷ ys)
        → Step q [] [] (record q { put_waiting = xs ++ ys; put_woken = q.put_woken ++ (x ∷ []) })
    take_spurious :
        (q : Queue) (n : ℕ)
        → q.take_waiting ≡ suc n
        → Step q [] [] (record q { take_waiting = n; take_woken = q.take_woken + 1 })

  -- What is reached from a new queue, with all that was put and taken so far.
  pub data Reachable (size : ℕ) : List T → List T → Queue → Type 0 where
    at_start : Reachable size [] [] (start size)
    after :
        {ps ts p t : List T} {q r : Queue}
        → Reachable size ps ts q
        → Step q p t r
        → Reachable size (ps ++ p) (ts ++ t) r
