-- ===== src/Auditlog/Methods.antt =====
-- `create_logs`, and the methods that a rule puts in place of those of a model (`_make_*`).
use oca_server_tools.Common.{
  ℕ, suc, String, Bool, true, false, not, ◌&&◌, ◌||◌, Option, none, some, List, [], ◌∷◌, ◌++◌,
  str_eq, elem, keep, map, if◌then◌else◌,
}
use oca_server_tools.Common.Dict.{Dict, keys}
use oca_server_tools.Common.Action.{ok, Action, pure, raise, ◌>>=◌, ◌>>◌}
use oca_server_tools.Auditlog.{
  LogType, full, fast, Method, create, read, write, unlink, export_data, Rule, FieldFlags, Values,
  Log, RecordValues, get_record, Orm, Error, key_error,
}
use oca_server_tools.Auditlog.Diff.{added, changed}
use oca_server_tools.Auditlog.Lines.{
  M, create_log_lines, prepare_on_read, prepare_on_write, prepare_on_create,
}

-- The user, `_auditlog_model_cache`, the search of the rule of a model, and which ids are `NewId`.
pub record Env : Type 0 where
  pub uid : ℕ
  pub auditlog_disabled : Bool
  pub model_cache : String → Option ℕ
  pub rule_with : ℕ → Option Rule
  pub new_id : ℕ → Bool

-- What the closures of `_make_*` keep of their rule.
pub record Patch : Type 0 where
  pub log_type : LogType
  pub users_to_exclude : List ℕ

abbrev pub excluded_fields : Option Rule → List String
excluded_fields none = []
excluded_fields (some rule) = rule.fields_to_exclude_ids

abbrev pub captures : Option Rule → Bool
captures none = false
captures (some rule) = rule.capture_record

-- `get_auditlog_fields`
unfoldable pub get_auditlog_fields : List FieldFlags → List String
get_auditlog_fields flags =
    map (λ f. f.name)
      (keep (λ f. not f.compute && not f.related || (f.store || f.company_dependent)) flags)

module _ {v : Values} (o : Orm v) where
  abbrev first_name : Option (List (ℕ × String)) → String
  first_name none = "exception in name_get()"
  first_name (some []) = ""
  first_name (some ((id, name) ∷ more)) = name

  -- The name of the record of a log.
  abbrev pub res_name : o.Db → String → ℕ → String
  res_name db model res_id =
      if o.exists db model res_id
      then first_name (o.name_get db model (res_id ∷ []))
      else "record no longer exists"

  -- `log_model.create(log_vals)`, which gives the new id.
  abbrev pub create_log : (ℕ → Log) → M o ℕ
  create_log log w =
      (ok w.next_log, record w { logs = w.logs ++ log w.next_log ∷ []; next_log = suc w.next_log })

  -- The lines of the log of a record, by the method.
  abbrev pub method_lines :
      Option Rule → String → LogType → RecordValues v → RecordValues v → Method → ℕ → ℕ → M o Unit
  method_lines rule model log_type old new create res_id id w =
      create_log_lines o model (excluded_fields rule)
        (λ db. prepare_on_create o db id res_id log_type new)
        (added v.same (get_record res_id new) (get_record res_id old)) w
  method_lines rule model log_type old new read res_id id w =
      create_log_lines o model (excluded_fields rule) (λ db. prepare_on_read o db id res_id old)
        (keys (get_record res_id old)) w
  method_lines rule model log_type old new write res_id id w =
      create_log_lines o model (excluded_fields rule)
        (λ db. prepare_on_write o db id res_id log_type old new)
        (changed v.same (get_record res_id new) (get_record res_id old)) w
  method_lines rule model log_type old new unlink res_id id w =
      if captures rule
      then create_log_lines o model (excluded_fields rule)
          (λ db. prepare_on_read o db id res_id old) (keys (get_record res_id old)) w
      else (ok tt, w)
  method_lines rule model log_type old new export_data res_id id w = (ok tt, w)

  -- The body of the loop of `create_logs`
  unfoldable pub log_record :
      Option Rule → ℕ → String → LogType → RecordValues v → RecordValues v → Method → ℕ → M o Unit
  unfolding create_log_lines prepare_on_read prepare_on_write prepare_on_create added changed
  log_record rule uid model log_type old new method res_id w =
      (create_log (λ id. record {
        id = id;
        model = model;
        name = res_name w.db model res_id;
        res_id = some res_id;
        res_ids = [];
        user_id = uid;
        method = method;
        log_type = log_type;
      })
          >>= method_lines rule model log_type old new method res_id)
        w

  unfoldable pub log_records :
      Option Rule
      → ℕ
      → String
      → LogType
      → RecordValues v
      → RecordValues v
      → Method
      → List ℕ
      → M o Unit
  unfolding log_record
  log_records rule uid model log_type old new method [] = pure tt
  log_records rule uid model log_type old new method (res_id ∷ more) =
      log_record rule uid model log_type old new method res_id
      >> log_records rule uid model log_type old new method more

  abbrev is_export : Method → Bool
  is_export export_data = true
  is_export _ = false

  -- One log for an export, and else one for each record.
  abbrev pub log_all :
      Env
      → String
      → List ℕ
      → LogType
      → RecordValues v
      → RecordValues v
      → Method
      → Option Rule
      → M o Unit
  log_all env model res_ids log_type old new method rule =
      if is_export method
      then (create_log (λ id. record {
        id = id;
        model = model;
        name = model;
        res_id = none;
        res_ids = res_ids;
        user_id = env.uid;
        method = method;
        log_type = log_type;
      })
          >> pure tt)
      else log_records rule env.uid model log_type old new method res_ids

  -- `_auditlog_model_cache[res_model]`, and the search of the rule
  abbrev pub log_model :
      Env
      → String
      → List ℕ
      → LogType
      → RecordValues v
      → RecordValues v
      → Method
      → Option ℕ
      → M o Unit
  log_model env model res_ids log_type old new method none = raise key_error
  log_model env model res_ids log_type old new method (some model_id) =
      log_all env model res_ids log_type old new method (env.rule_with model_id)

  -- `create_logs`, the missing dictionaries being empty.
  unfoldable pub create_logs :
      Env → String → List ℕ → Method → RecordValues v → RecordValues v → LogType → M o Unit
  unfolding log_records
  create_logs env model res_ids method old new log_type =
      log_model env model res_ids log_type old new method (env.model_cache model)

  -- The method of the model, `origin`, works on the database.
  abbrev pub origin_call : {R : Type 0} → Action Error o.Db R → M o R
  origin_call f w = let (r, db) = f w.db in (r, record w { db = db })

  -- `if self.env.user in users_to_exclude: return result`
  abbrev pub log_unless : {R : Type 0} → Bool → R → M o Unit → M o R
  log_unless true result logging = pure result
  log_unless false result logging = logging >> pure result

  abbrev pub unless_excluded : {R : Type 0} → Env → Patch → R → M o Unit → M o R
  unless_excluded env patch result logging =
      log_unless (elem env.uid patch.users_to_exclude) result logging

  abbrev pub fields_of : String → List String
  fields_of model = get_auditlog_fields (o.fields model)

  -- `unlink_full` reads the values first.
  abbrev pub values_before : String → List ℕ → LogType → o.Db → RecordValues v
  values_before model ids full db = o.read db model (fields_of model) ids
  values_before model ids fast db = []

  module _ (env : Env) (patch : Patch) (model : String) {R : Type 0} where
    -- `write_full`, after the old values were read
    unfoldable pub write_logged : List ℕ → Action Error o.Db R → RecordValues v → M o R
    unfolding create_logs
    write_logged ids origin old_values = origin_call origin >>= λ result.
        unless_excluded env patch result (λ w.
          create_logs env model ids write old_values (o.read w.db model (fields_of model) ids)
            patch.log_type w)

    -- `write_full` on the records that are no `NewId`; `clean` is `_remove_reified_groups`.
    abbrev pub write_real :
        (List ℕ → Dict v.Value → Action Error o.Db R)
        → (Dict v.Value → Dict v.Value)
        → List ℕ
        → Dict v.Value
        → List ℕ
        → M o R
    write_real origin clean ids vals [] w = origin_call (origin ids vals) w
    write_real origin clean ids vals (id ∷ more) w =
        write_logged (id ∷ more)
          (origin ids (if str_eq model "res.users" then clean vals else vals))
          (o.read w.db model (fields_of model) (id ∷ more)) w

    -- `write_full`
    unfoldable pub write_full :
        (List ℕ → Dict v.Value → Action Error o.Db R)
        → (Dict v.Value → Dict v.Value)
        → List ℕ
        → Dict v.Value
        → M o R
    unfolding write_logged get_auditlog_fields
    write_full origin clean ids vals =
        write_real origin clean ids vals (keep (λ id. not (env.new_id id)) ids)

    -- `write_fast`
    unfoldable pub write_fast :
        (List ℕ → Dict v.Value → Action Error o.Db R) → List ℕ → Dict v.Value → M o R
    unfolding create_logs
    write_fast origin ids vals = origin_call (origin ids vals) >>= λ result.
        unless_excluded env patch result (
          create_logs env model ids write
            (map (λ id. (id, map (λ item. (item.0, v.sentinel)) vals)) ids)
            (map (λ id. (id, vals)) ids) patch.log_type)

    abbrev pub write_as :
        (List ℕ → Dict v.Value → Action Error o.Db R)
        → (Dict v.Value → Dict v.Value)
        → List ℕ
        → Dict v.Value
        → LogType
        → M o R
    write_as origin clean ids vals full = write_full origin clean ids vals
    write_as origin clean ids vals fast = write_fast origin ids vals

    -- `_make_write`
    unfoldable pub make_write :
        (List ℕ → Dict v.Value → Action Error o.Db R)
        → (Dict v.Value → Dict v.Value)
        → List ℕ
        → Dict v.Value
        → M o R
    unfolding write_full write_fast
    make_write origin clean ids vals = write_as origin clean ids vals patch.log_type

    abbrev pub unlink_unless : (List ℕ → Action Error o.Db R) → List ℕ → Bool → M o R
    unlink_unless origin ids true w = origin_call (origin ids) w
    unlink_unless origin ids false w =
        (create_logs env model ids unlink (values_before model ids patch.log_type w.db) []
              patch.log_type
            >> origin_call (origin ids))
          w

    -- `_make_unlink`
    unfoldable pub make_unlink : (List ℕ → Action Error o.Db R) → List ℕ → M o R
    unfolding create_logs get_auditlog_fields
    make_unlink origin ids = unlink_unless origin ids (elem env.uid patch.users_to_exclude)

    -- `_make_export_data`
    unfoldable pub make_export_data : (List ℕ → Action Error o.Db R) → List ℕ → M o R
    unfolding create_logs
    make_export_data origin ids = origin_call (origin ids) >>= λ result.
        unless_excluded env patch result
          (create_logs env model ids export_data [] [] patch.log_type)

    -- `_make_read`: `values_of` gives the dictionaries of the result by their ids.
    unfoldable pub make_read :
        (List ℕ → Action Error o.Db R) → (R → RecordValues v) → List ℕ → M o R
    unfolding create_logs
    make_read origin values_of ids = origin_call (origin ids) >>= λ result w.
        log_unless (env.auditlog_disabled || elem env.uid patch.users_to_exclude) result
          (create_logs env model ids read (values_of result) [] patch.log_type) w

  -- `_update_vals_list` on one dictionary: an empty recordset becomes `False`.
  abbrev pub update_vals : (v.Value → Bool) → Dict v.Value → Dict v.Value
  update_vals is_empty_recordset vals =
      map (λ item. (item.0, if is_empty_recordset item.1 then v.false_value else item.1)) vals

  abbrev pub zip : List ℕ → List (Dict v.Value) → RecordValues v
  zip [] vals = []
  zip (id ∷ ids) [] = []
  zip (id ∷ ids) (d ∷ ds) = (id, d) ∷ zip ids ds

  module _ (env : Env) (patch : Patch) (model : String) where
    -- `create_full` and `create_fast`: the new records are their ids.
    abbrev pub create_with :
        (List ℕ → o.Db → RecordValues v) → Action Error o.Db (List ℕ) → M o (List ℕ)
    create_with values origin = origin_call origin >>= λ ids.
        unless_excluded env patch ids
          (λ w. create_logs env model ids create [] (values ids w.db) patch.log_type w)

    abbrev pub create_as :
        (List (Dict v.Value) → Action Error o.Db (List ℕ))
        → List (Dict v.Value)
        → List (Dict v.Value)
        → LogType
        → M o (List ℕ)
    create_as origin vals_list updated full =
        create_with (λ ids db. o.read db model (fields_of model) ids) (origin vals_list)
    create_as origin vals_list updated fast =
        create_with (λ ids db. zip ids updated) (origin updated)

    -- `_make_create`
    unfoldable pub make_create :
        (List (Dict v.Value) → Action Error o.Db (List ℕ))
        → (v.Value → Bool)
        → List (Dict v.Value)
        → M o (List ℕ)
    unfolding create_logs get_auditlog_fields
    make_create origin is_empty_recordset vals_list =
        create_as origin vals_list (map (update_vals is_empty_recordset) vals_list) patch.log_type
