-- ===== src/Tests/Algorithms.antt =====
-- src/algoutils.hpp at concrete inputs.
use motion_planning_gadget_s.Common.{ℕ, List, [], ◌∷◌}

abbrev small : List ℕ
small = 1 ∷ 4 ∷ []

abbrev large : List ℕ
large = 4 ∷ 9 ∷ []
