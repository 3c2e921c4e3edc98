-- ===== src/Pack.antt =====
-- src/pack-detail.hpp: the writer and reader of packed automata. The memory from `first_` to `last_`
-- is a list of bytes, a position an offset from `first_`. Assertions are not evaluated.
pub mod Memory
pub mod Bytes
pub mod RoundTrip
pub mod Codec
pub mod Unpack
use motion_planning_gadget_s.Common.{
  ℕ, zero, suc, ◌+◌, ◌-◌, ◌*◌, ◌/◌, ◌%◌, ◌^◌, Bool, true, false, Option, none, some, List, [], ◌∷◌,
  ltb, leb, ◌==◌, if◌then◌else◌, length, take, drop,
}
use motion_planning_gadget_s.Varint.{store}

pub record PackWriter : Type 0 where
  pub memory : List ℕ
  pub cur : ℕ
  pub overflow : Bool

-- `std::copy_n` to a position of the memory
abbrev pub overwrite : List ℕ → ℕ → List ℕ → List ℕ
overwrite [] cur bytes = []
overwrite (x ∷ memory) (suc cur) bytes = x ∷ overwrite memory cur bytes
overwrite (x ∷ memory) zero [] = x ∷ memory
overwrite (x ∷ memory) zero (b ∷ bytes) = b ∷ overwrite memory zero bytes

-- `PackWriter::write`
abbrev pub write : PackWriter → List ℕ → PackWriter
write w bytes =
    let room = length w.memory - w.cur in
    if ltb room (length bytes)
    then record {
      memory = overwrite w.memory w.cur (take room bytes);
      cur = w.cur + room;
      overflow = true;
    }
    else record w { memory = overwrite w.memory w.cur bytes; cur = w.cur + length bytes }

-- `write8` to `write32`: the low bytes of the value
unfoldable pub write_number : ℕ → PackWriter → ℕ → PackWriter
write_number amount w value = write w (store amount value)

-- `writeBytes`; `none` is the count that is not reachable.
unfoldable pub write_bytes : PackWriter → ℕ → ℕ → Option PackWriter
unfolding write_number
write_bytes w value count =
    if count == 1
    then some (write_number 1 w value)
    else if count == 2
    then some (write_number 2 w value)
    else if count == 3
    then some (write_number 3 w value)
    else if count == 4
    then some (write_number 4 w value)
    else none

unfoldable pub write_varint : PackWriter → ℕ → PackWriter
unfolding write_number
write_varint w value =
    if leb value 244
    then write_number 1 w value
    else if leb value ((252 - 244) * 256 + 244 - 1)
    then write_number 1 (write_number 1 w ((value - 244) / 256 + 244 + 1)) ((value - 244) % 256)
    else if leb value ((252 - 244) * 256 + 244 - 1 + 65536)
    then write_number 1
        (write_number 1 (write_number 1 w 253) ((value - ((252 - 244) * 256 + 244)) / 256))
        ((value - ((252 - 244) * 256 + 244)) % 256)
    else if leb value 16777215
    then write_number 3 (write_number 1 w 254) value
    else write_number 4 (write_number 1 w 255) value

unfoldable pub varint_size : ℕ → ℕ
varint_size value =
    if leb value 244
    then 1
    else if leb value ((252 - 244) * 256 + 244 - 1)
    then 2
    else if leb value ((252 - 244) * 256 + 244 - 1 + 65536)
    then 3
    else if leb value 16777215
    then 4
    else 5

-- `PackWriter::seek`
unfoldable pub seek : PackWriter → ℕ → PackWriter
seek w position =
    if ltb position (length w.memory)
    then record w { cur = position }
    else record w { cur = length w.memory; overflow = true }

pub record PackReader : Type 0 where
  pub memory : List ℕ
  pub cur : ℕ
  pub overflow : Bool

-- `std::memcpy` into a number that was 0; the callers see that the bytes are there.
abbrev pub load : ℕ → List ℕ → ℕ
load zero memory = 0
load (suc amount) [] = 0
load (suc amount) (b ∷ memory) = b + 256 * load amount memory

-- The end of `PackReader::readBytes<N>`
abbrev pub read_plain : ℕ → PackReader → ℕ × PackReader
read_plain amount r =
    if ltb (length r.memory) (r.cur + amount)
    then (0, record r { overflow = true })
    else (load amount (drop r.cur r.memory), record r { cur = r.cur + amount })

-- `read8` to `read32`
abbrev pub read_number : ℕ → PackReader → ℕ × PackReader
read_number amount r =
    if amount == 3
    then if leb (r.cur + 4) (length r.memory)
      then (load 4 (drop r.cur r.memory) % 2 ^ 24, record r { cur = r.cur + amount })
      else read_plain amount r
    else read_plain amount r

-- `PackReader::readBytes`
unfoldable pub read_bytes : PackReader → ℕ → Option (ℕ × PackReader)
read_bytes r count =
    if count == 1
    then some (read_number 1 r)
    else if count == 2
    then some (read_number 2 r)
    else if count == 3
    then some (read_number 3 r)
    else if count == 4
    then some (read_number 4 r)
    else none

abbrev pub read_two : ℕ → ℕ × PackReader → ℕ × PackReader
read_two first second = (244 + 256 * (first - 244 - 1) + second.0, second.1)

abbrev pub read_three : ℕ × PackReader → ℕ × PackReader
read_three second =
    let third = read_number 1 second.1 in
    ((252 - 244) * 256 + 244 + 256 * second.0 + third.0, third.1)

-- `readVarint` behind the first byte; past 254 there is only 255.
abbrev pub read_first : ℕ → PackReader → ℕ × PackReader
read_first first r =
    if leb first 244
    then (first, r)
    else if leb first 252
    then read_two first (read_number 1 r)
    else if first == 253
    then read_three (read_number 1 r)
    else if first == 254
    then read_number 3 r
    else read_number 4 r

pub read_varint : PackReader → ℕ × PackReader
read_varint r = let first = read_number 1 r in read_first first.0 first.1

-- `PackReader::eof`
abbrev pub eof : PackReader → Bool
eof r = r.cur == length r.memory
