-- ===== src/Changeset/Base.antt =====
-- base_changeset/models/base.py: `create` and `write` of every model, with the changesets.
pub mod Protected
use oca_server_tools.Common.{
  String, Bool, true, false, not, ◌&&◌, Option, none, some, List, [], ◌∷◌, ◌++◌, if◌then◌else◌,
}
use oca_server_tools.Common.Dict.{Dict, lookup, has}
use oca_server_tools.Common.Action.{ok, err, Result, ◌>>=◌, ◌>>◌, modify, pure}
use oca_server_tools.Changeset.Orm.{Orm, Ref}
use oca_server_tools.Changeset.Rules.{Rule, Search}
use oca_server_tools.Changeset.State.{Db, Env, Error, raised, M}
use oca_server_tools.Changeset.Add.{add_changeset}

abbrev rule_models : List Rule → List String
rule_models [] = []
rule_models (rule ∷ rules) = rule.field.model ∷ rule_models rules

-- `models_to_track_changeset`
unfoldable pub models_to_track : Env → List Rule → List String
models_to_track env rules =
    if env.test_enable && env.test_record_changeset && not (has "res.partner" (rule_models rules))
    then rule_models rules ++ "res.partner" ∷ []
    else rule_models rules

-- `_changeset_disabled`
unfoldable pub changeset_disabled : Env → List Rule → String → Bool
unfolding models_to_track
changeset_disabled env rules model =
    if env.no_changeset
    then true
    else if env.test_enable && not env.test_record_changeset
    then true
    else not (has model (models_to_track env rules))

module _ (o : Orm) where
  abbrev pub in_tables : {A : Type 0} → Db o → Result String A × o.Store → Result Error A × Db o
  in_tables db (ok a, store) = (ok a, record db { store = store })
  in_tables db (err e, store) = (err (raised e), record db { store = store })

  abbrev pub super_write : Ref → Dict o.Value → M o Unit
  super_write ref values db = in_tables db (o.super_write ref values db.store)

  abbrev super_create : String → List (Dict o.Value) → M o (List Ref)
  super_create model vals_list db = in_tables db (o.super_create model vals_list db.store)

  -- `super().write(values)` on several records
  unfoldable pub super_write_all : List Ref → Dict o.Value → M o Unit
  super_write_all [] values = pure tt
  super_write_all (ref ∷ refs) values = super_write ref values >> super_write_all refs values

  -- The body of the loop of `write`.
  unfoldable pub write_record : Search → Env → Dict o.Value → Ref → M o Unit
  unfolding add_changeset
  write_record search env values ref = do
    local_values ← add_changeset o search env ref values false
    super_write ref local_values

  unfoldable pub write_records : Search → Env → Dict o.Value → List Ref → M o Unit
  unfolding write_record
  write_records search env values [] = pure tt
  write_records search env values (ref ∷ refs) =
      write_record search env values ref >> write_records search env values refs

  -- `write` on records of one model
  unfoldable pub write : Search → Env → String → List Ref → Dict o.Value → M o Bool
  unfolding changeset_disabled super_write_all write_records
  write search env model refs values db =
      if changeset_disabled env db.rules model
      then (super_write_all refs values >> pure true) db
      else (write_records search env values refs >> pure true) db

  abbrev differs : Option o.Value → o.Value → Bool
  differs none v = true
  differs (some w) v = not (o.same w v)

  -- `{key: value for key, value in local_vals.items() if vals[key] != value}`
  unfoldable pub changed_items : Dict o.Value → Dict o.Value → Dict o.Value
  unfolding lookup
  changed_items vals [] = []
  changed_items vals ((key, value) ∷ local) =
      let rest = changed_items vals local in
      if differs (lookup key vals) value then (key, value) ∷ rest else rest

  abbrev write_back : Search → Env → String → Ref → Dict o.Value → M o Unit
  write_back search env model ref [] = pure tt
  write_back search env model ref (v ∷ vs) =
      write search (record env { no_changeset = true }) model (ref ∷ []) (v ∷ vs) >> pure tt

  -- `for this, vals in zip(result, vals_list):`
  unfoldable pub create_changesets :
      Search → Env → String → List Ref → List (Dict o.Value) → M o Unit
  unfolding add_changeset changed_items write
  create_changesets search env model (ref ∷ refs) (vals ∷ vals_list) = do
    local_vals ← add_changeset o search env ref vals true
    write_back search env model ref (changed_items vals local_vals)
    create_changesets search env model refs vals_list
  create_changesets search env model _ _ = pure tt

  -- `create`
  unfoldable pub create : Search → Env → String → List (Dict o.Value) → M o (List Ref)
  unfolding changeset_disabled create_changesets
  create search env model vals_list = super_create model vals_list >>= λ result db.
      if changeset_disabled env db.rules model
      then (ok result, db)
      else (create_changesets search env model result vals_list >> pure result) db
