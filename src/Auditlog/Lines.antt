-- ===== src/Auditlog/Lines.antt =====
-- The lines of a log: `_get_field` with its cache, and the three `_create_log_line_on_*` with what they
-- prepare.
use oca_server_tools.Common.{
  ℕ, String, Bool, true, false, not, ◌&&◌, Option, none, some, List, [], ◌∷◌, ◌++◌, str_eq, elem,
  keep, map, if◌then◌else◌,
}
use oca_server_tools.Common.Dict.{lookup, has}
use oca_server_tools.Common.Action.{
  Result, ok, err, Action, and_then, pure, lift, modify, ◌>>=◌, ◌>>◌,
}
use oca_server_tools.Auditlog.{
  LogType, full, fast, FieldData, Values, Text, plain, names, Line, RecordValues, get_record, Orm,
  Error, key_error, raised, World,
}

-- `FIELDS_BLACKLIST`
abbrev pub fields_blacklist : List String
fields_blacklist =
    "id" ∷ "create_uid" ∷ "create_date" ∷ "write_uid" ∷ "write_date" ∷ "display_name"
    ∷ "__last_update" ∷ []

abbrev pub is_full : LogType → Bool
is_full full = true
is_full fast = false

module _ {v : Values} (o : Orm v) where
  abbrev pub M : Type 0 → Type 0
  M A = Action Error (World o) A

  -- A field that is not in the cache is searched and put there.
  abbrev pub set_cached : String → String → Option FieldData → World o → World o
  set_cached model name field w = record w {
    field_cache = λ m n. if str_eq model m && str_eq name n then some field else w.field_cache m n;
  }

  abbrev pub cached : String → String → Option (Option FieldData) → M (Option FieldData)
  cached model name (some field) w = (ok field, w)
  cached model name none w =
      let field = o.search_field w.db model name in (ok field, set_cached model name field w)

  -- `_get_field`
  unfoldable pub get_field : String → String → M (Option FieldData)
  get_field model name w = cached model name (w.field_cache model name) w

  -- `values[log.res_id][field["name"]]`
  abbrev pub from_option : Option v.Value → Result Error v.Value
  from_option none = err key_error
  from_option (some a) = ok a

  abbrev pub value_at : RecordValues v → ℕ → String → Result Error v.Value
  value_at values id name = from_option (lookup name (get_record id values))

  abbrev pub names_text : Option (List (ℕ × String)) → Result Error (Text v)
  names_text none = err (raised "name_get")
  names_text (some l) = ok (names l)

  -- The names of the records of a field to many records, and else the value.
  abbrev pub text_if : Bool → o.Db → FieldData → v.Value → Result Error (Text v)
  text_if false db field value = ok (plain value)
  text_if true db field value = names_text (o.name_get db field.relation (v.ids_of value))

  -- The ids of the records that exist, and of those that do not.
  abbrev pub existing : o.Db → String → List ℕ → List ℕ
  existing db relation ids = keep (o.exists db relation) ids

  abbrev pub deleted : o.Db → String → List ℕ → List (ℕ × String)
  deleted db relation ids =
      map (λ id. (id, "DELETED")) (keep (λ id. not (elem id (existing db relation ids))) ids)

  abbrev pub with_deleted : List (ℕ × String) → Option (List (ℕ × String)) → Result Error (Text v)
  with_deleted gone none = err (raised "name_get")
  with_deleted gone (some l) = ok (names (l ++ gone))

  -- `if existing_ids:`
  abbrev pub names_of_existing : o.Db → String → List ℕ → Option (List (ℕ × String))
  names_of_existing db relation [] = some []
  names_of_existing db relation (id ∷ ids) = o.name_get db relation (id ∷ ids)

  -- The old text of a field to many records in a write: its records may be gone.
  abbrev pub old_text_if : Bool → o.Db → FieldData → v.Value → Result Error (Text v)
  old_text_if false db field value = ok (plain value)
  old_text_if true db field value =
      with_deleted (deleted db field.relation (v.ids_of value))
        (names_of_existing db field.relation (existing db field.relation (v.ids_of value)))

  -- `_prepare_log_line_vals_on_read`
  unfoldable pub prepare_on_read : o.Db → ℕ → ℕ → RecordValues v → FieldData → Result Error (Line v)
  prepare_on_read db log_id res_id read_values field =
      and_then (value_at read_values res_id field.name) λ old.
        and_then (text_if field.is_2many db field old) λ text. ok (record {
          log_id = log_id;
          field = field;
          old_value = old;
          new_value = v.false_value;
          old_value_text = text;
          new_value_text = plain v.false_value;
        })

  -- `_prepare_log_line_vals_on_write`
  unfoldable pub prepare_on_write :
      o.Db → ℕ → ℕ → LogType → RecordValues v → RecordValues v → FieldData → Result Error (Line v)
  prepare_on_write db log_id res_id log_type old_values new_values field =
      and_then (value_at old_values res_id field.name) λ old.
        and_then (value_at new_values res_id field.name) λ new.
          and_then (old_text_if (is_full log_type && field.is_2many) db field old) λ old_text.
            and_then (text_if (is_full log_type && field.is_2many) db field new) λ new_text.
              ok (record {
                log_id = log_id;
                field = field;
                old_value = old;
                new_value = new;
                old_value_text = old_text;
                new_value_text = new_text;
              })

  -- `_prepare_log_line_vals_on_create`
  unfoldable pub prepare_on_create :
      o.Db → ℕ → ℕ → LogType → RecordValues v → FieldData → Result Error (Line v)
  prepare_on_create db log_id res_id log_type new_values field =
      and_then (value_at new_values res_id field.name) λ new.
        and_then (text_if (is_full log_type && field.is_2many) db field new) λ text. ok (record {
          log_id = log_id;
          field = field;
          old_value = v.false_value;
          new_value = new;
          old_value_text = plain v.false_value;
          new_value_text = text;
        })

  abbrev pub add_line : Line v → World o → World o
  add_line line w = record w { lines = w.lines ++ line ∷ [] }

  -- `if field:` a line is prepared and created.
  abbrev pub log_found : (o.Db → FieldData → Result Error (Line v)) → Option FieldData → M Unit
  log_found prepare none w = (ok tt, w)
  log_found prepare (some field) w =
      (lift (prepare w.db field) >>= λ line. modify (add_line line)) w

  -- The body of the loops of the three `_create_log_line_on_*`
  unfoldable pub log_field :
      String → List String → (o.Db → FieldData → Result Error (Line v)) → String → M Unit
  unfolding get_field
  log_field model fields_to_exclude prepare name w =
      if has name (fields_to_exclude ++ fields_blacklist)
      then (ok tt, w)
      else (get_field model name >>= log_found prepare) w

  -- The loops: `prepare` is the one of the method.
  unfoldable pub create_log_lines :
      String → List String → (o.Db → FieldData → Result Error (Line v)) → List String → M Unit
  unfolding log_field
  create_log_lines model fields_to_exclude prepare [] = pure tt
  create_log_lines model fields_to_exclude prepare (name ∷ more) =
      log_field model fields_to_exclude prepare name
      >> create_log_lines model fields_to_exclude prepare more
