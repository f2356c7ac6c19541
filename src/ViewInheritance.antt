-- ===== src/ViewInheritance.antt =====
-- base_view_inheritance_extension: the update of a dictionary that is kept as syntax
-- (models/ir_ui_view.py, `ast_dict_update`).
pub mod Updated
mod Tests
use oca_server_tools.Common.{
  ℕ, String, Bool, true, false, Option, none, some, List, [], ◌∷◌, ◌++◌, str_eq, if◌then◌else◌,
  or_else,
}

-- A key of `ast.Dict`: a constant text, or a node that is no constant. Constants of another type
-- are left out.
pub data Key : Type 0 where
  constant : String → Key
  node : ℕ → Key

-- `ast_key_eq`, which answers `None` for two nodes of another kind.
unfoldable pub ast_key_eq : Key → Key → Bool
ast_key_eq (constant a) (constant b) = str_eq a b
ast_key_eq (constant a) (node n) = false
ast_key_eq (node n) k = false

-- An `ast.Dict` is the list of its keys with their values.
module _ {V : Type 0} where
  -- The inner loop: whether a key of the source equals the key.
  unfoldable pub found : Key → List (Key × V) → Bool
  unfolding ast_key_eq
  found ukey [] = false
  found ukey ((skey, w) ∷ more) = if ast_key_eq ukey skey then true else found ukey more

  -- `source.values[sidx] = update.values[uidx]` at the first equal key
  unfoldable pub replace_value : Key → V → List (Key × V) → List (Key × V)
  unfolding ast_key_eq
  replace_value ukey v [] = []
  replace_value ukey v ((skey, w) ∷ more) =
      let rest = replace_value ukey v more in
      if ast_key_eq ukey skey then (skey, v) ∷ more else (skey, w) ∷ rest

  -- The outer loop, with the items of `toadd_uidx`, and the loop that appends them.
  unfoldable pub update_all : List (Key × V) → List (Key × V) → List (Key × V) → List (Key × V)
  unfolding found replace_value
  update_all [] source toadd = source ++ toadd
  update_all ((ukey, v) ∷ more) source toadd =
      let in_source = update_all more (replace_value ukey v source) toadd in
      let to_add = update_all more source (toadd ++ (ukey, v) ∷ []) in
      if found ukey source then in_source else to_add

  -- `ast_dict_update`
  unfoldable pub ast_dict_update : List (Key × V) → List (Key × V) → List (Key × V)
  unfolding update_all
  ast_dict_update source update = update_all update source []
