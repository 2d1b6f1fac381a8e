-- ===== src/Loader/Examples.antt =====
-- The opcode of "free", and a string that is none of the names.
use os_assignment.Base.{◌≡◌, ◌↔◌, refl, [], ◌∷◌, none, some}
use os_assignment.Process.{free}
use os_assignment.Loader.{same_string, opt_name, get_opcode, get_opcode_lem}

unknown_name : get_opcode (102 ∷ 114 ∷ []) ≡ none
unfolding get_opcode same_string
unknown_name = refl

get_opcode_example :
    (get_opcode (102 ∷ 114 ∷ 101 ∷ 101 ∷ []) ≡ some free)
    ↔ (102 ∷ 114 ∷ 101 ∷ 101 ∷ [] ≡ opt_name free)
get_opcode_example = get_opcode_lem (102 ∷ 114 ∷ 101 ∷ 101 ∷ []) free
