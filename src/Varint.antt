-- ===== src/Varint.antt =====
-- src/varint.hpp, namespace varint64: integers of 1 to 9 bytes. Memory is a list of bytes, each a
-- number below 256; `write` gives the bytes that it puts at `dest`, and `read` takes them off `src`.
pub mod Bytes
pub mod RoundTrip
use motion_planning_gadget_s.Common.{ℕ, zero, suc, ◌+◌, ◌-◌, ◌*◌, ◌/◌, ◌%◌, List, [], ◌∷◌, ◌++◌}
use motion_planning_gadget_s.Common.{leb, ltb, ◌==◌, if◌then◌else◌, Option, none, some}

-- `1 << n`
abbrev pub shifted_one : ℕ → ℕ
shifted_one zero = 1
shifted_one (suc n) = 2 * shifted_one n

-- `std::countl_zero` of a number of `w` bits
abbrev pub countl_zero : ℕ → ℕ → ℕ
countl_zero zero value = 0
countl_zero (suc w) value = if ltb value (shifted_one w) then suc (countl_zero w value) else 0

-- `std::memcpy(dest, &value, amount)`, from a little-endian number
abbrev pub store : ℕ → ℕ → List ℕ
store zero value = []
store (suc amount) value = (value % 256) ∷ store amount (value / 256)

-- `std::memcpy(&ret, src, amount)` into a number that was 0; `none` is a read behind the memory.
abbrev pub load : ℕ → List ℕ → Option (ℕ × List ℕ)
load zero src = some (0, src)
load (suc amount) [] = none
load (suc amount) (b ∷ src) = elim (load amount src) [
  | none ↦ none
  | some (high, rest) ↦ some (b + 256 * high, rest)
]

-- `sizeof(std::uint64_t) - (std::countl_zero(value) / 8)`
pub amount_of : ℕ → ℕ
amount_of value = 8 - countl_zero 64 value / 8

-- The constants VARINT_ONE, VARINT_TWO and VARINT_THREE are 240, 248 and 249.
unfoldable pub write : ℕ → List ℕ
write value =
    if leb value 240
    then store 1 value
    else if leb value ((248 - 240) * 256 + 240 - 1)
    then store 1 ((value - 240) / 256 + 240 + 1) ++ store 1 ((value - 240) % 256)
    else if leb value ((248 - 240) * 256 + 240 - 1 + 65536)
    then store 1 249
      ++ (store 1 ((value - ((248 - 240) * 256 + 240)) / 256)
          ++ store 1 ((value - ((248 - 240) * 256 + 240)) % 256))
    else store 1 (248 - 1 + amount_of value) ++ store (amount_of value) value

-- The branches of `read` behind the first byte, with the bytes that each reads.
abbrev pub read_two : ℕ → Option (ℕ × List ℕ) → Option (ℕ × List ℕ)
read_two first none = none
read_two first (some (second, src)) = some (240 + 256 * (first - 240 - 1) + second, src)

abbrev pub read_third : ℕ → Option (ℕ × List ℕ) → Option (ℕ × List ℕ)
read_third second none = none
read_third second (some (third, src)) = some ((248 - 240) * 256 + 240 + 256 * second + third, src)

abbrev pub read_three : Option (ℕ × List ℕ) → Option (ℕ × List ℕ)
read_three none = none
read_three (some (second, src)) = read_third second (load 1 src)

abbrev pub read_first : ℕ → List ℕ → Option (ℕ × List ℕ)
read_first first src =
    if leb first 240
    then some (first, src)
    else if leb first 248
    then read_two first (load 1 src)
    else if first == 249
    then read_three (load 1 src)
    else load (first - (248 - 1)) src

pub read : List ℕ → Option (ℕ × List ℕ)
read [] = none
read (first ∷ src) = read_first first src
