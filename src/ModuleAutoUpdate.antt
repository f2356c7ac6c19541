-- ===== src/ModuleAutoUpdate.antt =====
-- module_auto_update: the upgrade of the modules whose checksum has changed (models/module.py).
pub mod Saved
mod Tests
use oca_server_tools.Common.{
  String, Bool, true, false, not, ◌&&◌, ◌||◌, Option, none, some, List, [], ◌∷◌, map, keep, any,
  str_eq, if◌then◌else◌,
}
use oca_server_tools.Common.Dict.{Dict, lookup, insert, has}
use oca_server_tools.Common.Action.{Result, ok, err, Action, ◌>>=◌, ◌>>◌, modify, raise_if, gets}

-- The rows of `ir_module_module`, a name and a state each, and the parameter of the installed
-- checksums, in which `none` stands for `False`.
pub record Db : Type 0 where
  pub modules : List (String × String)
  pub saved_checksums : Dict (Option String)

-- The transaction, and what is committed of it.
pub record World : Type 0 where
  pub db : Db
  pub committed : Db

-- `FailedUpgradeError` and `IncompleteUpgradeError` with the names of the modules, and an exception
-- of Odoo.
pub data Error : Type 0 where
  failed_upgrade : (state : String) → List String → Error
  incomplete_upgrade : List String → Error
  raised : String → Error

-- The message that the method returns.
pub data Notification : Type 0 where
  nothing_to_do upgrade_complete : Notification

abbrev pub is_empty : List String → Bool
is_empty [] = true
is_empty (_ ∷ _) = false

-- `search([("state", "in", states)])`
abbrev pub names_in : List String → Db → List String
names_in states db = map (λ row. row.0) (keep (λ row. has row.1 states) db.modules)

-- `search([("state", "=", "installed")])`
abbrev pub installed : Db → List String
installed db = names_in ("installed" ∷ []) db

-- `_get_modules_partially_installed`
unfoldable pub get_modules_partially_installed : Db → List String
get_modules_partially_installed db = names_in ("to install" ∷ "to remove" ∷ "to upgrade" ∷ []) db

-- The names of the modules that are not in the state.
abbrev pub not_in_state : List String → String → Db → List String
not_in_state modules state db =
    map (λ row. row.0) (keep (λ row. has row.0 modules && not (str_eq row.1 state)) db.modules)

abbrev pub raise_names : String → List String → Action Error World Unit
raise_names state [] w = (ok tt, w)
raise_names state (name ∷ names) w = (err (failed_upgrade state (name ∷ names)), w)

-- `ensure_module_state`
unfoldable pub ensure_module_state : List String → String → Action Error World Unit
ensure_module_state [] state w = (ok tt, w)
ensure_module_state (m ∷ ms) state w = raise_names state (not_in_state (m ∷ ms) state w.db) w

-- An exception of Odoo is not caught.
abbrev pub wrap : Result String Unit → Result Error Unit
wrap (ok u) = ok u
wrap (err text) = err (raised text)

abbrev pub commit : Action Error World Unit
commit = modify (λ w. record { db = w.db; committed = w.db })

-- The checksum of a module's directory, `none` for `False`: `_get_checksum_dir`.
module _ (get_checksum_dir : String → Option String) where
  -- The loop of `_save_installed_checksums`
  unfoldable pub collect_checksums : List String → Dict (Option String) → Dict (Option String)
  collect_checksums [] checksums = checksums
  collect_checksums (name ∷ more) checksums =
      collect_checksums more (insert name (get_checksum_dir name) checksums)

  -- `_save_installed_checksums`, `_save_checksums`
  unfoldable pub save_installed_checksums : Db → Db
  unfolding collect_checksums
  save_installed_checksums db = record db { saved_checksums = collect_checksums (installed db) [] }

  abbrev pub same_checksum : Option String → Option (Option String) → Bool
  same_checksum dir none = false
  same_checksum none (some none) = true
  same_checksum none (some (some b)) = false
  same_checksum (some a) (some none) = false
  same_checksum (some a) (some (some b)) = str_eq a b

  abbrev pub is_changed : Db → String → Bool
  is_changed db name = not (same_checksum (get_checksum_dir name) (lookup name db.saved_checksums))

  -- `_get_modules_with_changed_checksum`
  unfoldable pub get_modules_with_changed_checksum : Db → List String
  get_modules_with_changed_checksum db = keep (is_changed db) (installed db)

  -- Odoo's `update_list`, `button_upgrade` and `upgrade_module`, with the text of an exception.
  module _ (update_list : Db → Db) (button_upgrade : List String → Action String Db Unit)
      (upgrade_module : Action String Db Unit) where
    abbrev pub in_world : Action String Db Unit → Action Error World Unit
    in_world f w = let (r, db) = f w.db in (wrap r, record w { db = db })

    abbrev pub finish : List String → Action Error World Notification
    finish [] w = (ok upgrade_complete, w)
    finish (name ∷ names) w = (err (incomplete_upgrade (name ∷ names)), w)

    -- `upgrade_changed_checksum` from the saving of the checksums on
    unfoldable pub save_and_finish : Action Error World Notification
    unfolding save_installed_checksums get_modules_partially_installed
    save_and_finish w =
        let db = save_installed_checksums w.db in
        finish (get_modules_partially_installed db) (record { db = db; committed = db })

    -- `upgrade_changed_checksum` once there is something to do
    unfoldable pub upgrade : List String → Action Error World Notification
    unfolding ensure_module_state save_and_finish
    upgrade changed =
        in_world (button_upgrade changed)
        >> (commit
            >> (ensure_module_state changed "to upgrade"
                >> (in_world upgrade_module >> (commit >> save_and_finish))))

    -- `upgrade_changed_checksum`
    unfoldable pub upgrade_changed_checksum : Action Error World Notification
    unfolding upgrade get_modules_with_changed_checksum get_modules_partially_installed
    upgrade_changed_checksum w =
        let db = update_list w.db in
        let changed = get_modules_with_changed_checksum db in
        if is_empty changed && is_empty (get_modules_partially_installed db)
        then (ok nothing_to_do, record w { db = db })
        else upgrade changed (record w { db = db })
