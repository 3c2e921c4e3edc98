-- ===== src/Tests/LinearSet.antt =====
-- src/linear_set.hpp at concrete inputs.
use motion_planning_gadget_s.Common.{ℕ, ◌≡◌, List, [], ◌∷◌, none, some, false, if◌then◌else◌}
use motion_planning_gadget_s.LinearSet.{erase_key, is_in, erase_key_lem}

abbrev elements : List ℕ
elements = 5 ∷ 2 ∷ []

erase_key_lem_example :
    erase_key 3 elements 2 ≡ (if is_in 2 elements then none else some (false, elements))
erase_key_lem_example = erase_key_lem 2 elements 2
