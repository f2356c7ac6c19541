-- ===== src/ViewInheritance/Tests.antt =====
-- A dictionary of attributes, and the theorem applied to it.
use oca_server_tools.Common.{ℕ, ◌≡◌, refl, some, List, [], ◌∷◌}
use oca_server_tools.ViewInheritance.{Key, constant, node, ast_dict_update}
use oca_server_tools.ViewInheritance.Updated.{value_of, value_of-ast_dict_update}

abbrev source : List (Key × ℕ)
source = (constant "invisible", 1) ∷ (node 0, 2) ∷ (constant "readonly", 3) ∷ []

abbrev update : List (Key × ℕ)
update = (constant "readonly", 4) ∷ (constant "required", 5) ∷ []

updated :
    ast_dict_update source update
    ≡ (constant "invisible", 1)
      ∷ (node 0, 2)
      ∷ (constant "readonly", 4)
      ∷ (constant "required", 5)
      ∷ []
unfolding ast_dict_update
updated = refl

value_of-ast_dict_update_example : value_of "readonly" (ast_dict_update source update) ≡ some 4
value_of-ast_dict_update_example =
    value_of-ast_dict_update "readonly" source update (refl, (refl, tt))
