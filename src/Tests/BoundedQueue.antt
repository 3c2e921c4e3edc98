-- ===== src/Tests/BoundedQueue.antt =====
-- src/bounded_queue.hpp with a list as the circular buffer.
use motion_planning_gadget_s.Common.{ℕ, ◌+◌, ◌<◌, ◌≤◌, ◌≡◌, refl, List, [], ◌∷◌, ◌++◌, length, ap}
use motion_planning_gadget_s.BoundedQueue.{
  CircularBuffer, Queue, Reachable, start, size, put, take, on_take, on_put, on_take_again,
  at_start, after,
}
use motion_planning_gadget_s.BoundedQueue.Promises.{Reachable-order, Reachable-woken}

abbrev tail : List ℕ → List ℕ
tail [] = []
tail (x ∷ xs) = xs

abbrev list_buffer : CircularBuffer ℕ
list_buffer = record {
  Carrier = ℕ × List ℕ;
  create = λ n. (n, []);
  capacity = λ c. c.0;
  elements = λ c. c.1;
  push_back = λ c x. (c.0, c.1 ++ (x ∷ []));
  pop_front = λ c. (c.0, tail c.1);
  elements-create = λ n. refl;
  capacity-create = λ n. refl;
  elements-push_back = λ c x h. refl;
  capacity-push_back = λ c x. refl;
  elements-pop_front = λ c x xs h. ap tail h;
  capacity-pop_front = λ c. refl;
}

-- A thread waits for an item, another puts 5, and 6 has to wait for room.
abbrev before : Queue list_buffer
before = record {
  buffer = (1, 5 ∷ []);
  put_waiting = 6 ∷ [];
  put_woken = [];
  take_waiting = 0;
  take_woken = 1;
}

before-Reachable : Reachable list_buffer 1 (5 ∷ []) [] before
before-Reachable =
    after
      (after (after at_start (on_take (start list_buffer 1) 0))
        (on_put ((take list_buffer 0 (start list_buffer 1)).1) 5))
      (on_put ((put list_buffer ((take list_buffer 0 (start list_buffer 1)).1) 5).1) 6)

-- The first thread takes 5, and wakes the one that puts 6.
abbrev after_take : Queue list_buffer
after_take = record {
  buffer = (1, []);
  put_waiting = [];
  put_woken = 6 ∷ [];
  take_waiting = 0;
  take_woken = 0;
}

after_take-Reachable : Reachable list_buffer 1 (5 ∷ []) (5 ∷ []) after_take
after_take-Reachable = after before-Reachable (on_take_again before 0 0 refl)

Reachable-order_example :
    (size list_buffer after_take ≤ 1)
    × ((5 ∷ []) ≡ (5 ∷ []) ++ list_buffer.elements after_take.buffer)
Reachable-order_example =
    Reachable-order list_buffer 1 (5 ∷ []) (5 ∷ []) after_take after_take-Reachable

Reachable-woken_example :
    (0 < before.take_waiting → size list_buffer before ≤ before.take_woken)
    × (0 < length before.put_waiting → 1 ≤ size list_buffer before + length before.put_woken)
Reachable-woken_example = Reachable-woken list_buffer 1 (5 ∷ []) [] before before-Reachable
