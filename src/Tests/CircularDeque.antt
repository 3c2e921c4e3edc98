-- ===== src/Tests/CircularDeque.antt =====
-- src/circular_deque.tcc at concrete inputs.
use motion_planning_gadget_s.Common.{
  ℕ, zero, suc, ◌*◌, ◌<◌, ◌≡◌, refl, [], ◌∷◌, none, some, arith, get_or, get_elem?, true,
}
use motion_planning_gadget_s.CircularDeque.{Deque, Allocator, push_back, push_front, append}
use motion_planning_gadget_s.CircularDeque.Inv.{Represents, slot_of}
use motion_planning_gadget_s.CircularDeque.Grow.{
  IsHonest, push_back-Represents, push_front-Represents,
}
use motion_planning_gadget_s.CircularDeque.Append.{append-Represents}

-- Elements of four bytes, in blocks of whole words of eight.
abbrev words : Allocator
words = record { size_of = 4; nallocx = λ n. n * 2 }

words-IsHonest : IsHonest words
words-IsHonest = record { sized = omega arith; large_enough = λ n. omega arith }

-- 1 and 2 at the end of the buffer, and 3 at its start.
abbrev wrapped : Deque ℕ
wrapped = record {
  slots = some 3 ∷ none ∷ some 1 ∷ some 2 ∷ [];
  capacity = 4;
  head = 2;
  size = 3;
  small = true;
}

wrapped_elements :
    (k : ℕ) → k < 3 → get_or wrapped.slots (slot_of 4 2 k) none ≡ get_elem? (1 ∷ 2 ∷ 3 ∷ []) k
wrapped_elements zero h = refl
wrapped_elements (suc zero) h = refl
wrapped_elements (suc (suc zero)) h = refl
wrapped_elements (suc (suc (suc k))) h = absurd (omega arith)

wrapped-Represents : Represents wrapped (1 ∷ 2 ∷ 3 ∷ [])
wrapped-Represents = record {
  valid = record {
    storage = refl;
    small_enough = omega arith;
    head_in = omega arith;
    size_in = omega arith;
  };
  counted = refl;
  elements = wrapped_elements;
}

push_back-Represents_example :
    (d : Deque ℕ) × (push_back words wrapped 4 ≡ some d) × Represents d (1 ∷ 2 ∷ 3 ∷ 4 ∷ [])
push_back-Represents_example =
    push_back-Represents words wrapped (1 ∷ 2 ∷ 3 ∷ []) 4 words-IsHonest (omega arith)
      wrapped-Represents

push_front-Represents_example :
    (d : Deque ℕ) × (push_front words wrapped 0 ≡ some d) × Represents d (0 ∷ 1 ∷ 2 ∷ 3 ∷ [])
push_front-Represents_example =
    push_front-Represents words wrapped (1 ∷ 2 ∷ 3 ∷ []) 0 words-IsHonest (omega arith)
      wrapped-Represents

append-Represents_example :
    (d : Deque ℕ) × (append words wrapped (4 ∷ 5 ∷ []) ≡ some d)
    × Represents d (1 ∷ 2 ∷ 3 ∷ 4 ∷ 5 ∷ [])
append-Represents_example =
    append-Represents words wrapped (1 ∷ 2 ∷ 3 ∷ []) (4 ∷ 5 ∷ []) words-IsHonest (omega arith)
      (omega arith) wrapped-Represents
