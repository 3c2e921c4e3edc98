-- ===== src/Tests/Pack.antt =====
-- src/pack-detail.hpp at a concrete memory.
use motion_planning_gadget_s.Common.{◌≡◌, false, [], ◌∷◌, arith}
use motion_planning_gadget_s.Pack.{PackWriter, write_varint, varint_size, read_varint}
use motion_planning_gadget_s.Pack.RoundTrip.{read_varint-write_varint}

-- A byte is written, and four are left.
abbrev some_room : PackWriter
some_room = record { memory = 9 ∷ 0 ∷ 0 ∷ 0 ∷ 0 ∷ []; cur = 1; overflow = false }

read_varint-write_varint_example :
    read_varint
      (record { memory = (write_varint some_room 100000).memory; cur = 1; overflow = false })
    ≡ (
      100000,
      record {
        memory = (write_varint some_room 100000).memory;
        cur = (write_varint some_room 100000).cur;
        overflow = false;
      },
    )
unfolding varint_size
read_varint-write_varint_example =
    read_varint-write_varint some_room 100000 (omega arith) (omega arith)
