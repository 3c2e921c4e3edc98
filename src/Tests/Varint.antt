-- ===== src/Tests/Varint.antt =====
-- src/varint.hpp at concrete inputs.
use motion_planning_gadget_s.Common.{◌≡◌, refl, some, [], ◌∷◌, ◌++◌, arith}
use motion_planning_gadget_s.Varint.{write, read}
use motion_planning_gadget_s.Varint.RoundTrip.{read-write}

write_two : write 241 ≡ 241 ∷ 1 ∷ []
unfolding write
write_two = refl

read-write_example : read (write 70000 ++ (7 ∷ [])) ≡ some (70000, 7 ∷ [])
read-write_example = read-write 70000 (7 ∷ []) (omega arith)
