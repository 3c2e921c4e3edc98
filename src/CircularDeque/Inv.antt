-- ===== src/CircularDeque/Inv.antt =====
-- src/circular_deque.tcc: what a deque represents, and the arithmetic of its indices.
use motion_planning_gadget_s.Common.{
  ℕ, suc, ◌+◌, ◌-◌, ◌≤◌, ◌<◌, ◌≡◌, ◌≢◌, refl, List, [], leb, if◌then◌else◌, none, length, get_or,
  get_elem?, arith, length-replicate,
}
use motion_planning_gadget_s.CircularDeque.{Deque, create, mask, inc, dec}

-- Where element `k` of a deque stands.
abbrev pub slot_of : ℕ → ℕ → ℕ → ℕ
slot_of capacity head k = if leb capacity (head + k) then head + k - capacity else head + k

pub slot_of-lt :
    (capacity head k : ℕ) → head < capacity → k < capacity → slot_of capacity head k < capacity
slot_of-lt capacity head k h m = ground arith

pub slot_of-ne :
    (capacity head j k : ℕ)
    → head < capacity
    → j < capacity
    → k < capacity
    → j ≢ k
    → slot_of capacity head j ≢ slot_of capacity head k
slot_of-ne capacity head j k h m n ne = ground arith

-- Element `k` behind the slot after the head is element `k + 1`.
pub slot_of-next :
    (capacity head k : ℕ)
    → head < capacity
    → suc k < capacity
    → slot_of capacity (slot_of capacity head 1) k ≡ slot_of capacity head (suc k)
slot_of-next capacity head k h m = ground arith

-- The slot before the head is that of the last element of a full buffer.
pub slot_of-previous :
    (capacity head k : ℕ)
    → head < capacity
    → suc k < capacity
    → slot_of capacity (slot_of capacity head (capacity - 1)) (suc k) ≡ slot_of capacity head k
slot_of-previous capacity head k h m = ground arith

-- The sizes that keep all index arithmetic below 2 ^ 32.
abbrev pub max_capacity : ℕ
max_capacity = 0x8000_0000

module _ {ℓ} {A : Type ℓ} where
  pub record IsValid (d : Deque A) : Type 0 where
    pub storage : length d.slots ≡ d.capacity
    pub small_enough : d.capacity < max_capacity
    pub head_in : d.head < d.capacity
    pub size_in : d.size ≤ d.capacity

  -- A valid deque that holds `xs`, front first.
  pub record Represents (d : Deque A) (xs : List A) : Type ℓ where
    pub valid : IsValid d
    pub counted : d.size ≡ length xs
    pub elements :
        (k : ℕ) → k < d.size → get_or d.slots (slot_of d.capacity d.head k) none ≡ get_elem? xs k

  pub mask_lem :
      (d : Deque A) (k : ℕ)
      → IsValid d
      → k ≤ d.size
      → mask d (d.head + k) ≡ slot_of d.capacity d.head k
  unfolding mask
  mask_lem d k v h = ground arith

  pub inc_lem : (d : Deque A) → IsValid d → inc d d.head ≡ slot_of d.capacity d.head 1
  unfolding inc
  inc_lem d v = ground arith

  pub dec_lem :
      (d : Deque A) → IsValid d → dec d d.head ≡ slot_of d.capacity d.head (d.capacity - 1)
  unfolding dec
  dec_lem d v = ground arith

  pub create-Represents : (n : ℕ) → 0 < n → n < max_capacity → Represents (create n) []
  unfolding create
  create-Represents n h k = record {
    valid = record {
      storage = length-replicate n none;
      small_enough = k;
      head_in = h;
      size_in = omega arith;
    };
    counted = refl;
    elements = λ k h. absurd (omega arith);
  }
