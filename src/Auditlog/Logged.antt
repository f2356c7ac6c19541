-- ===== src/Auditlog/Logged.antt =====
-- The logs that a patched `write` makes of the records, with their lines.
use oca_server_tools.Common.{
  ℕ, suc, ◌≡◌, refl, sym, ap, ap₂, ◌∙◌, String, Bool, true, false, not, ◌&&◌, Option, none, some,
  List, [], ◌∷◌, ◌++◌, all, arith, append_assoc, append-nil, if◌then◌else◌, elem, keep, str_eq,
}
use oca_server_tools.Common.Dict.{Dict, lookup, has}
use oca_server_tools.Common.Action.{ok, Action}
use oca_server_tools.Auditlog.{
  LogType, full, Method, write, Rule, FieldData, Values, Text, plain, names, Line, Log,
  RecordValues, get_record, Orm, Error, World,
}
use oca_server_tools.Auditlog.Diff.{differ, changed, has-changed}
use oca_server_tools.Auditlog.Lines.{
  text_if, old_text_if, names_text, with_deleted, names_of_existing, existing, deleted,
  prepare_on_write, is_full,
}
use oca_server_tools.Auditlog.Methods.{
  Env, excluded_fields, res_name, log_record, log_records, create_logs, Patch, make_write,
  write_full, write_logged, fields_of,
}
use oca_server_tools.Auditlog.Written.{
  IsCoherent, FindsByName, LinesFor, Prepares, create_log_lines-Logs, is_logged,
}

module _ {v : Values} (o : Orm v) where
  -- `name_get` gives the names of records that exist; of others it may raise.
  abbrev pub NamesExisting : Type 0
  NamesExisting =
      (db : o.Db) (relation : String) (ids : List ℕ)
      → all (o.exists db relation) ids ≡ true
      → (l : List (ℕ × String)) × (o.name_get db relation ids ≡ some l)

  -- The records that a field to many records has in these values exist.
  abbrev pub HasExisting : o.Db → String → RecordValues v → Type 0
  HasExisting db model values =
      (res_id : ℕ) (f : String) (field : FieldData) (value : v.Value)
      → o.search_field db model f ≡ some field
      → field.is_2many ≡ true
      → lookup f (get_record res_id values) ≡ some value
      → all (o.exists db field.relation) (v.ids_of value) ≡ true

  -- The values of a field before and after, `False` where there is none.
  abbrev pub value_or_false : Option v.Value → v.Value
  value_or_false none = v.false_value
  value_or_false (some a) = a

  abbrev pub both_values : RecordValues v → RecordValues v → ℕ → String → v.Value × v.Value
  both_values old new id f =
      (value_or_false (lookup f (get_record id old)), value_or_false (lookup f (get_record id new)))

  -- The fields that differ, and their lines: what a log of a write has.
  abbrev pub WriteLines :
      o.Db → String → Option Rule → ℕ → RecordValues v → RecordValues v → ℕ → List (Line v) → Type 0
  WriteLines db model rule id old new res_id lines =
      LinesFor o db model (excluded_fields rule) id (both_values old new res_id)
        (λ f. differ v.same (lookup f (get_record res_id old)) (lookup f (get_record res_id new)))
        lines

  abbrev log_of : o.Db → String → ℕ → Method → LogType → ℕ → ℕ → Log
  log_of db model uid method log_type res_id id = record {
    id = id;
    model = model;
    name = res_name o db model res_id;
    res_id = some res_id;
    res_ids = [];
    user_id = uid;
    method = method;
    log_type = log_type;
  }

  abbrev pub with_log :
      List Log
      → List (Line v)
      → (String → String → Option (Option FieldData))
      → ℕ
      → World o
      → World o
  with_log logs lines cache next w = record w {
    logs = w.logs ++ logs;
    lines = w.lines ++ lines;
    next_log = next;
    field_cache = cache;
  }

  -- One log with its lines for each record, in order.
  abbrev pub WriteLogs :
      o.Db
      → String
      → Option Rule
      → ℕ
      → LogType
      → RecordValues v
      → RecordValues v
      → List ℕ
      → ℕ
      → List Log
      → List (Line v)
      → Type 0
  WriteLogs db model rule uid log_type old new [] next logs lines = (logs ≡ []) × (lines ≡ [])
  WriteLogs db model rule uid log_type old new (res_id ∷ more) next logs lines =
      (logs' : List Log) × (here : List (Line v)) × (behind : List (Line v)) × (logs
        ≡ log_of db model uid write log_type res_id next ∷ logs')
      × (lines ≡ here ++ behind)
      × WriteLines db model rule next old new res_id here
      × WriteLogs db model rule uid log_type old new more (suc next) logs' behind

  module _ (finds : FindsByName o) (all_named : NamesExisting) where
    text_if_total :
        (b : Bool) (db : o.Db) (field : FieldData) (value : v.Value)
        → (b ≡ true → all (o.exists db field.relation) (v.ids_of value) ≡ true)
        → (text : Text v) × (text_if o b db field value ≡ ok text)
    text_if_total false db field value h = (plain value, refl)
    text_if_total true db field value h =
        let (l, e) = all_named db field.relation (v.ids_of value) (h refl) in
        (names l, ap (names_text o) e)

    all-keep : (p : ℕ → Bool) (ids : List ℕ) → all p (keep p ids) ≡ true
    all-keep p [] = refl
    all-keep p (id ∷ ids) = ground (arith, all-keep p ids)

    existing_named :
        (db : o.Db) (relation : String) (ids : List ℕ)
        → all (o.exists db relation) ids ≡ true
        → (l : List (ℕ × String)) × (names_of_existing o db relation ids ≡ some l)
    existing_named db relation [] h = ([], refl)
    existing_named db relation (id ∷ ids) h = all_named db relation (id ∷ ids) h

    old_text_if_total :
        (b : Bool) (db : o.Db) (field : FieldData) (value : v.Value)
        → (text : Text v) × (old_text_if o b db field value ≡ ok text)
    old_text_if_total false db field value = (plain value, refl)
    old_text_if_total true db field value =
        let (l, e) =
          existing_named db field.relation (existing o db field.relation (v.ids_of value))
            (all-keep (o.exists db field.relation) (v.ids_of value)) in
        (
          names (l ++ deleted o db field.relation (v.ids_of value)),
          ap (with_deleted o (deleted o db field.relation (v.ids_of value))) e,
        )

    differ-cases :
        (a b : Option v.Value)
        → differ v.same a b ≡ true
        → (x : v.Value) × (y : v.Value) × (a ≡ some x) × (b ≡ some y)
    differ-cases none b e = cc
    differ-cases (some x) none e = cc
    differ-cases (some x) (some y) e = (x, y, refl, refl)

    write-Prepares :
        (db : o.Db) (model : String) (id res_id : ℕ) (log_type : LogType) (old new : RecordValues v)
        (f : String)
        → HasExisting db model new
        → has f (changed v.same (get_record res_id new) (get_record res_id old)) ≡ true
        → Prepares o db model
            (prepare_on_write o db id res_id log_type old new)
            id
            (both_values old new res_id)
            f
    unfolding prepare_on_write
    write-Prepares db model id res_id log_type old new f there h field found =
        let (x, y, ex, ey) =
          differ-cases (lookup f (get_record res_id old)) (lookup f (get_record res_id new))
            (sym (has-changed v.same (get_record res_id new) (get_record res_id old) f) ∙ h) in
        let named = finds db model f field found in
        let ex' : lookup field.name (get_record res_id old) ≡ some x =
          ap (λ n. lookup n (get_record res_id old)) named ∙ ex in
        let ey' : lookup field.name (get_record res_id new) ≡ some y =
          ap (λ n. lookup n (get_record res_id new)) named ∙ ey in
        let (old_text, e1) = old_text_if_total (is_full log_type && field.is_2many) db field x in
        let (new_text, e2) =
          text_if_total (is_full log_type && field.is_2many) db field y
            (λ b. there res_id f field y found (ground (arith, b)) ey) in
        (
          record {
            log_id = id;
            field = field;
            old_value = x;
            new_value = y;
            old_value_text = old_text;
            new_value_text = new_text;
          },
          rw (ex', ey', e1, e2) refl,
          refl,
          refl,
          ap value_or_false (sym ex),
          ap value_or_false (sym ey),
        )

    log_record-Logs :
        (rule : Option Rule) (uid : ℕ) (model : String) (log_type : LogType)
        (old new : RecordValues v) (res_id : ℕ) (w : World o)
        → HasExisting w.db model new
        → IsCoherent o w
        → (lines : List (Line v)) × (cache : String → String → Option (Option FieldData))
          × (log_record o rule uid model log_type old new write res_id w ≡ (
            ok tt,
            with_log
                (log_of w.db model uid write log_type res_id w.next_log ∷ [])
                lines
                cache
                (suc w.next_log)
                w,
          ))
          × IsCoherent o (record w { field_cache = cache })
          × WriteLines w.db model rule w.next_log old new res_id lines
    unfolding log_record
    log_record-Logs rule uid model log_type old new res_id w there c =
        let id = w.next_log in
        let (lines, cache, run, c', (of_log, fields)) =
          create_log_lines-Logs o finds model (excluded_fields rule)
            (λ db. prepare_on_write o db id res_id log_type old new) id (both_values old new res_id)
            (changed v.same (get_record res_id new) (get_record res_id old))
            (record w {
              logs = w.logs ++ log_of w.db model uid write log_type res_id id ∷ [];
              next_log = suc id;
            })
            c (λ f h. write-Prepares w.db model id res_id log_type old new f there h) in
        (
          lines,
          cache,
          run,
          c',
          (
            of_log,
            λ f.
                fields f
                ∙ ap
                    (λ b.
                      if b && is_logged o w.db model (excluded_fields rule) f
                      then some (both_values old new res_id f)
                      else none)
                    (has-changed v.same (get_record res_id new) (get_record res_id old) f),
          ),
        )

    -- The loop of `create_logs`
    pub log_records-WriteLogs :
        (rule : Option Rule) (uid : ℕ) (model : String) (log_type : LogType)
        (old new : RecordValues v) (ids : List ℕ) (w : World o)
        → HasExisting w.db model new
        → IsCoherent o w
        → (logs : List Log) × (lines : List (Line v)) × (cache : String
            → String
            → Option (Option FieldData))
          × (next : ℕ) × (log_records o rule uid model log_type old new write ids w
              ≡ (ok tt, with_log logs lines cache next w))
          × IsCoherent o (record w { field_cache = cache })
          × WriteLogs w.db model rule uid log_type old new ids w.next_log logs lines
    unfolding log_records
    log_records-WriteLogs rule uid model log_type old new [] w there c = (
      [],
      [],
      w.field_cache,
      w.next_log,
      ap₂ (λ l m. (ok tt, record w { logs = l; lines = m })) (sym (append-nil w.logs))
          (sym (append-nil w.lines)),
      c,
      (refl, refl),
    )
    log_records-WriteLogs rule uid model log_type old new (res_id ∷ ids) w there c =
        let (here, cache, run, c', made) =
          log_record-Logs rule uid model log_type old new res_id w there c in
        let log = log_of w.db model uid write log_type res_id w.next_log in
        let (logs, lines, cache', next, run', c'', rest) =
          log_records-WriteLogs rule uid model log_type old new ids
            (with_log (log ∷ []) here cache (suc w.next_log) w) there c' in
        (
          log ∷ logs,
          here ++ lines,
          cache',
          next,
          rw run (
              run'
              ∙ ap₂
                  (λ l m. (
                    ok tt,
                    record w { logs = l; lines = m; next_log = next; field_cache = cache' },
                  ))
                  (append_assoc w.logs (log ∷ []) logs) (append_assoc w.lines here lines)),
          c'',
          (logs, here, lines, refl, refl, made, rest),
        )

    -- The patched `write` of a full log, by a user who is not excluded, with a model that is in the cache of
    -- models. A search for a field finds the field of that name; `name_get` gives the names of records that exist,
    -- and may raise for others; the cache of fields agrees with the table of fields; the original method
    -- returns and leaves the table of fields alone; and the records in the fields to many records, as read after
    -- the write, exist (those read before it may be gone). Then the patched method returns what the original
    -- returned, on the database that the original left, and has made one log for each record that is no `NewId`,
    -- in order. The lines of a log are, field by field, those of the fields that have another value after
    -- the write, are not left out and are in the table of fields, with the values before and after.
    pub make_write-WriteLogs :
        {R : Type 0} (env : Env) (patch : Patch) (model : String) (model_id : ℕ)
        (origin : List ℕ → Dict v.Value → Action Error o.Db R) (clean : Dict v.Value → Dict v.Value)
        (ids : List ℕ) (vals : Dict v.Value) (id : ℕ) (more : List ℕ) (w : World o) (r : R)
        (db : o.Db)
        → patch.log_type ≡ full
        → elem env.uid patch.users_to_exclude ≡ false
        → env.model_cache model ≡ some model_id
        → keep (λ i. not (env.new_id i)) ids ≡ id ∷ more
        → origin ids (if str_eq model "res.users" then clean vals else vals) w.db ≡ (ok r, db)
        → o.search_field db ≡ o.search_field w.db
        → HasExisting db model (o.read db model (fields_of o model) (id ∷ more))
        → IsCoherent o w
        → (logs : List Log) × (lines : List (Line v)) × (cache : String
            → String
            → Option (Option FieldData))
          × (next : ℕ) × (make_write o env patch model origin clean ids vals w
              ≡ (ok r, with_log logs lines cache next (record w { db = db })))
          × WriteLogs db model
              (env.rule_with model_id)
              env.uid
              full
              (o.read w.db model (fields_of o model) (id ∷ more))
              (o.read db model (fields_of o model) (id ∷ more))
              (id ∷ more)
              w.next_log
              logs
              lines
    unfolding make_write write_full write_logged create_logs
    make_write-WriteLogs env patch model model_id origin clean ids vals id more w r db of_type user
          cached real run same there c =
        let old = o.read w.db model (fields_of o model) (id ∷ more) in
        let new = o.read db model (fields_of o model) (id ∷ more) in
        let (logs, lines, cache, next, logged, c', all) =
          log_records-WriteLogs (env.rule_with model_id) env.uid model full old new (id ∷ more)
            (record w { db = db }) there (λ m n f h. c m n f h ∙ ap (λ s. s m n) (sym same)) in
        (logs, lines, cache, next, rw (of_type, real, run, user, cached, logged) refl, all)
