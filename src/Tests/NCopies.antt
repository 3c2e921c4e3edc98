-- ===== src/Tests/NCopies.antt =====
-- src/n_copies_iterator.hpp at three copies.
use motion_planning_gadget_s.Common.{◌≡◌, some, ◌∷◌, [], arith}
use motion_planning_gadget_s.NCopies.{Range, begin, end}
use motion_planning_gadget_s.NCopies.Traversal.{walk, walk_lem}

abbrev three : Range
three = record { thing = 7; copies = 3 }

walk_lem_example : walk 4 (begin three) (end three) ≡ some (7 ∷ 7 ∷ 7 ∷ [])
walk_lem_example = walk_lem three (omega arith)
