-- ===== src/ModuleAutoUpdate/Saved.antt =====
-- Which checksums are committed when `upgrade_changed_checksum` is over.
use oca_server_tools.Common.{◌≡◌, refl, ◌∙◌, String, ◌&&◌, Option, List, [], ◌∷◌, if◌then◌else◌}
use oca_server_tools.Common.Dict.{Dict}
use oca_server_tools.Common.Action.{Result, ok, err, Action, continue}
use oca_server_tools.ModuleAutoUpdate.{
  Db, World, Error, failed_upgrade, incomplete_upgrade, raised, Notification, nothing_to_do,
  upgrade_complete, installed, get_modules_partially_installed, not_in_state, ensure_module_state,
  collect_checksums, save_installed_checksums, get_modules_with_changed_checksum, save_and_finish,
  upgrade, upgrade_changed_checksum, wrap, is_empty, raise_names, finish,
}

-- The checksums are those of the modules that are installed.
abbrev pub UpToDate : (String → Option String) → Db → Type 0
UpToDate dir db = db.saved_checksums ≡ collect_checksums dir (installed db) []

-- How the method may end, from the checksums that were saved before.
abbrev pub UpgradeEnds :
    (String → Option String) → Dict (Option String) → Result Error Notification × World → Type 0
UpgradeEnds dir before (ok nothing_to_do, w) =
    (w.committed.saved_checksums ≡ before)
    × (get_modules_with_changed_checksum dir w.db ≡ [])
    × (get_modules_partially_installed w.db ≡ [])
UpgradeEnds dir before (ok upgrade_complete, w) =
    UpToDate dir w.committed × (get_modules_partially_installed w.committed ≡ [])
UpgradeEnds dir before (err (incomplete_upgrade names), w) =
    UpToDate dir w.committed × (get_modules_partially_installed w.committed ≡ names)
UpgradeEnds dir before (err (failed_upgrade state names), w) = w.committed.saved_checksums ≡ before
UpgradeEnds dir before (err (raised text), w) = w.committed.saved_checksums ≡ before

module _ (dir : String → Option String) (update_list : Db → Db)
    (button_upgrade : List String → Action String Db Unit) (upgrade_module : Action String Db Unit)
    (update_list-keeps : (db : Db) → (update_list db).saved_checksums ≡ db.saved_checksums)
    (button_upgrade-keeps : (names : List String) (db : Db)
      → (button_upgrade names db).1.saved_checksums ≡ db.saved_checksums)
    (upgrade_module-keeps : (db : Db)
      → (upgrade_module db).1.saved_checksums ≡ db.saved_checksums) where
  -- The saved checksums are those of before, in the transaction and committed.
  abbrev Before : Dict (Option String) → World → Type 0
  Before b w = (w.db.saved_checksums ≡ b) × (w.committed.saved_checksums ≡ b)

  abbrev Stepped : Dict (Option String) → Result Error Unit × World → Type 0
  Stepped b (ok u, w) = Before b w
  Stepped b (err (incomplete_upgrade names), w) = ⊥
  Stepped b (err (failed_upgrade state names), w) = Before b w
  Stepped b (err (raised text), w) = Before b w

  then-UpgradeEnds :
      (b : Dict (Option String)) (r : Result Error Unit × World)
      (k : Action Error World Notification)
      → Stepped b r
      → ((v : World) → Before b v → UpgradeEnds dir b (k v))
      → UpgradeEnds dir b (continue r.0 r.1 (λ _. k))
  then-UpgradeEnds b (ok u, w) k s f = f w s
  then-UpgradeEnds b (err (incomplete_upgrade names), w) k s f = elim s [ ]
  then-UpgradeEnds b (err (failed_upgrade state names), w) k s f = s.1
  then-UpgradeEnds b (err (raised text), w) k s f = s.1

  in_world-Stepped :
      (b : Dict (Option String)) (r : Result String Unit) (w : World)
      → Before b w
      → Stepped b (wrap r, w)
  in_world-Stepped b (ok u) w i = i
  in_world-Stepped b (err text) w i = i

  ensure-Stepped :
      (b : Dict (Option String)) (names : List String) (state : String) (w : World)
      → Before b w
      → Stepped b (ensure_module_state names state w)
  unfolding ensure_module_state
  ensure-Stepped b [] state w i = i
  ensure-Stepped b (m ∷ ms) state w i = raise_step b state (not_in_state (m ∷ ms) state w.db) w i
    where
      raise_step :
          (c : Dict (Option String)) (s : String) (names : List String) (v : World)
          → Before c v
          → Stepped c (raise_names s names v)
      raise_step c s [] v j = j
      raise_step c s (n ∷ ns) v j = j

  finish-UpgradeEnds :
      (b : Dict (Option String)) (names : List String) (w : World)
      → UpToDate dir w.committed
      → get_modules_partially_installed w.committed ≡ names
      → UpgradeEnds dir b (finish dir update_list button_upgrade upgrade_module names w)
  finish-UpgradeEnds b [] w u e = (u, e)
  finish-UpgradeEnds b (n ∷ ns) w u e = (u, e)

  save_and_finish-UpgradeEnds :
      (b : Dict (Option String)) (w : World)
      → UpgradeEnds dir b (save_and_finish dir update_list button_upgrade upgrade_module w)
  unfolding save_and_finish save_installed_checksums
  save_and_finish-UpgradeEnds b w =
      let db = save_installed_checksums dir w.db in
      finish-UpgradeEnds b (get_modules_partially_installed db) (record { db = db; committed = db })
        refl refl

  upgrade-UpgradeEnds :
      (b : Dict (Option String)) (changed : List String) (w : World)
      → Before b w
      → UpgradeEnds dir b (upgrade dir update_list button_upgrade upgrade_module changed w)
  unfolding upgrade
  upgrade-UpgradeEnds b changed w i =
      then-UpgradeEnds b
        (wrap (button_upgrade changed w.db).0, record w { db = (button_upgrade changed w.db).1 }) _
        (in_world-Stepped b (button_upgrade changed w.db).0
          (record w { db = (button_upgrade changed w.db).1 })
          (button_upgrade-keeps changed w.db ∙ i.0, i.1))
        (λ v j.
          then-UpgradeEnds b
            (ensure_module_state changed "to upgrade" (record v { committed = v.db })) _
            (ensure-Stepped b changed "to upgrade" (record v { committed = v.db }) (j.0, j.0))
            (λ u k.
              then-UpgradeEnds b
                (wrap (upgrade_module u.db).0, record u { db = (upgrade_module u.db).1 }) _
                (in_world-Stepped b (upgrade_module u.db).0
                  (record u { db = (upgrade_module u.db).1 })
                  (upgrade_module-keeps u.db ∙ k.0, k.1))
                (λ t l. save_and_finish-UpgradeEnds b (record t { committed = t.db }))))

  -- Odoo's own methods, which leave the parameter of the checksums alone, are the hypotheses.
  -- However `upgrade_changed_checksum` ends, the checksums that are committed are those of before,
  -- unless Odoo's upgrade returned: then they are those of the modules that are installed. It ends
  -- with an error of an incomplete upgrade exactly for the modules that are then between two
  -- states, and does nothing only if no checksum has changed and no module is between two states.
  pub upgrade_changed_checksum-UpgradeEnds :
      (w : World)
      → w.committed.saved_checksums ≡ w.db.saved_checksums
      → UpgradeEnds dir w.db.saved_checksums
          (upgrade_changed_checksum dir update_list button_upgrade upgrade_module w)
  unfolding upgrade_changed_checksum
  upgrade_changed_checksum-UpgradeEnds w same =
      start (get_modules_with_changed_checksum dir (update_list w.db))
        (get_modules_partially_installed (update_list w.db)) refl refl
    where
      start :
          (changed partial : List String)
          → get_modules_with_changed_checksum dir (update_list w.db) ≡ changed
          → get_modules_partially_installed (update_list w.db) ≡ partial
          → UpgradeEnds dir w.db.saved_checksums (
              if is_empty changed && is_empty partial
              then (ok nothing_to_do, record w { db = update_list w.db })
              else upgrade dir update_list button_upgrade upgrade_module changed
                  (record w { db = update_list w.db }))
      start [] [] a b = (same, a, b)
      start [] (n ∷ ns) a b =
          upgrade-UpgradeEnds w.db.saved_checksums [] (record w { db = update_list w.db })
            (update_list-keeps w.db, same)
      start (n ∷ ns) partial a b =
          upgrade-UpgradeEnds w.db.saved_checksums (n ∷ ns) (record w { db = update_list w.db })
            (update_list-keeps w.db, same)
