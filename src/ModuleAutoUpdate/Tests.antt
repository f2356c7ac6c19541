-- ===== src/ModuleAutoUpdate/Tests.antt =====
-- A database with one changed module, an upgrade that leaves another module behind, and the theorem
-- applied to it.
use oca_server_tools.Common.{◌≡◌, refl, String, Option, some, List, [], ◌∷◌, map, if◌then◌else◌}
use oca_server_tools.Common.Dict.{has, insert, lookup}
use oca_server_tools.Common.Action.{Action, ok, err}
use oca_server_tools.ModuleAutoUpdate.{Db, World, incomplete_upgrade, upgrade_changed_checksum}
use oca_server_tools.ModuleAutoUpdate.Saved.{UpgradeEnds, upgrade_changed_checksum-UpgradeEnds}

-- The checksum of a module's directory: `new` for each.
abbrev dir : String → Option String
dir name = some "new"

abbrev update_list : Db → Db
update_list db = db

abbrev set_states : List String → String → Db → Db
set_states names state db = record db {
  modules = map (λ row. if has row.0 names then (row.0, state) else row) db.modules;
}

abbrev button_upgrade : List String → Action String Db Unit
button_upgrade names db = (ok tt, set_states names "to upgrade" db)

abbrev upgrade_module : Action String Db Unit
upgrade_module db = (ok tt, set_states ("sale" ∷ []) "installed" db)

abbrev before : Db
before = record {
  modules = ("sale", "installed") ∷ ("stock", "to install") ∷ [];
  saved_checksums = ("sale", some "old") ∷ [];
}

abbrev after : Db
after = record before { saved_checksums = ("sale", some "new") ∷ [] }

abbrev start : World
start = record { db = before; committed = before }

incomplete :
    upgrade_changed_checksum dir update_list button_upgrade upgrade_module start
    ≡ (err (incomplete_upgrade ("stock" ∷ [])), record { db = after; committed = after })
unfolding upgrade_changed_checksum insert lookup
incomplete = refl

upgrade_changed_checksum-UpgradeEnds_example :
    UpgradeEnds dir
      (("sale", some "old") ∷ [])
      (upgrade_changed_checksum dir update_list button_upgrade upgrade_module start)
upgrade_changed_checksum-UpgradeEnds_example =
    upgrade_changed_checksum-UpgradeEnds dir update_list button_upgrade upgrade_module (λ db. refl)
      (λ names db. refl) (λ db. refl) start refl
