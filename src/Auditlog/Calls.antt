-- ===== src/Auditlog/Calls.antt =====
-- The methods that a rule puts in place: they do what the method of the model does, and they log it.
use oca_server_tools.Common.{
  ℕ, ◌≡◌, refl, sym, ap, ◌∙◌, String, Bool, true, false, not, ◌||◌, Option, none, some, List, [],
  ◌∷◌, ◌++◌, str_eq, elem, keep, map, if◌then◌else◌, Bool-cases, Option-cases, inl, inr,
}
use oca_server_tools.Common.Dict.{Dict, has}
use oca_server_tools.Common.Action.{
  Result, ok, err, Action, pure, modify, pure-eq-ok, >>=-eq-ok, ◌>>=◌, continue,
}
use oca_server_tools.Auditlog.{
  full, fast, LogType, Method, create, read, write, unlink, export_data, Rule, FieldData, Values,
  RecordValues, Line, Orm, Error, World,
}
use oca_server_tools.Auditlog.Lines.{
  M, get_field, log_found, add_line, fields_blacklist, log_field, create_log_lines,
}
use oca_server_tools.Auditlog.Methods.{
  Env, Patch, method_lines, captures, log_record, log_records, create_logs, log_all, log_model,
  log_unless, origin_call, fields_of, write_logged, write_full, write_fast, write_real, write_as,
  unlink_unless, values_before, create_as, make_write, make_unlink, make_export_data, make_read,
  make_create, update_vals, create_with,
}

module _ {v : Values} (o : Orm v) where
  -- The database is as it was.
  abbrev Keeps : {A : Type 0} → M o A → Type 0
  Keeps m = (w : World o) → (m w).1.db ≡ w.db

  continue-Keeps :
      {A B : Type 0} (r : Result Error A) (w : World o) (f : A → M o B)
      → ((a : A) → Keeps (f a))
      → (continue r w f).1.db ≡ w.db
  continue-Keeps (ok a) w f k = k a w
  continue-Keeps (err e) w f k = refl

  >>=-Keeps :
      {A B : Type 0} (m : M o A) (f : A → M o B)
      → Keeps m
      → ((a : A) → Keeps (f a))
      → Keeps (m >>= f)
  >>=-Keeps m f k l w = continue-Keeps (m w).0 (m w).1 f l ∙ k w

  log_found-Keeps :
      (prepare : o.Db → FieldData → Result Error (Line v)) (field : Option FieldData)
      → Keeps (log_found o prepare field)
  log_found-Keeps prepare none w = refl
  log_found-Keeps prepare (some field) w = line_Keeps (prepare w.db field)
    where
      line_Keeps :
          (r : Result Error (Line v))
          → (continue r w (λ line. modify (add_line o line))).1.db ≡ w.db
      line_Keeps (ok line) = refl
      line_Keeps (err e) = refl

  get_field-Keeps : (model name : String) → Keeps (get_field o model name)
  unfolding get_field
  get_field-Keeps model name w = elim (Option-cases (w.field_cache model name)) [
    | inl e ↦ rw e refl
    | inr (field, e) ↦ rw e refl
  ]

  log_field-Keeps :
      (model : String) (excluded : List String) (prepare : o.Db → FieldData → Result Error (Line v))
      (f : String)
      → Keeps (log_field o model excluded prepare f)
  unfolding log_field
  log_field-Keeps model excluded prepare f w =
      elim (Bool-cases (has f (excluded ++ fields_blacklist))) [
        | inl e ↦ rw e refl
        | inr e ↦ rw e (
            >>=-Keeps (get_field o model f) (log_found o prepare) (get_field-Keeps model f)
              (log_found-Keeps prepare) w)
      ]

  create_log_lines-Keeps :
      (model : String) (excluded : List String) (prepare : o.Db → FieldData → Result Error (Line v))
      (names : List String)
      → Keeps (create_log_lines o model excluded prepare names)
  unfolding create_log_lines log_field
  create_log_lines-Keeps model excluded prepare [] w = refl
  create_log_lines-Keeps model excluded prepare (f ∷ names) w =
      >>=-Keeps (log_field o model excluded prepare f)
        (λ _. create_log_lines o model excluded prepare names)
        (log_field-Keeps model excluded prepare f)
        (λ _. create_log_lines-Keeps model excluded prepare names) w

  method_lines-Keeps :
      (rule : Option Rule) (model : String) (log_type : LogType) (old new : RecordValues v)
      (method : Method) (res_id id : ℕ)
      → Keeps (method_lines o rule model log_type old new method res_id id)
  method_lines-Keeps rule model log_type old new create res_id id w =
      create_log_lines-Keeps model _ _ _ w
  method_lines-Keeps rule model log_type old new read res_id id w =
      create_log_lines-Keeps model _ _ _ w
  method_lines-Keeps rule model log_type old new write res_id id w =
      create_log_lines-Keeps model _ _ _ w
  method_lines-Keeps rule model log_type old new unlink res_id id w =
      elim (Bool-cases (captures rule)) [
        | inl e ↦ rw e (create_log_lines-Keeps model _ _ _ w)
        | inr e ↦ rw e refl
      ]
  method_lines-Keeps rule model log_type old new export_data res_id id w = refl

  log_records-Keeps :
      (rule : Option Rule) (uid : ℕ) (model : String) (log_type : LogType)
      (old new : RecordValues v) (method : Method) (ids : List ℕ)
      → Keeps (log_records o rule uid model log_type old new method ids)
  unfolding log_records log_record
  log_records-Keeps rule uid model log_type old new method [] w = refl
  log_records-Keeps rule uid model log_type old new method (id ∷ ids) w =
      >>=-Keeps (log_record o rule uid model log_type old new method id)
        (λ _. log_records o rule uid model log_type old new method ids)
        (λ w. method_lines-Keeps rule model log_type old new method id w.next_log _)
        (λ _. log_records-Keeps rule uid model log_type old new method ids) w

  create_logs-Keeps :
      (env : Env) (model : String) (ids : List ℕ) (method : Method) (old new : RecordValues v)
      (log_type : LogType)
      → Keeps (create_logs o env model ids method old new log_type)
  unfolding create_logs
  create_logs-Keeps env model ids method old new log_type w = model_Keeps (env.model_cache model)
    where
      all_Keeps :
          (m : Method) (rule : Option Rule)
          → (log_all o env model ids log_type old new m rule w).1.db ≡ w.db
      all_Keeps export_data rule = refl
      all_Keeps create rule = log_records-Keeps rule env.uid model log_type old new create ids w
      all_Keeps read rule = log_records-Keeps rule env.uid model log_type old new read ids w
      all_Keeps write rule = log_records-Keeps rule env.uid model log_type old new write ids w
      all_Keeps unlink rule = log_records-Keeps rule env.uid model log_type old new unlink ids w

      model_Keeps :
          (id : Option ℕ) → (log_model o env model ids log_type old new method id w).1.db ≡ w.db
      model_Keeps none = refl
      model_Keeps (some id) = all_Keeps method (env.rule_with id)

  -- Where the call returns, the original method has returned the same and left the same database.
  abbrev pub Wraps : {R : Type 0} → M o R → (o.Db → Result Error R × o.Db) → World o → Type 0
  Wraps {R} m f w = (r : R) (w' : World o) → m w ≡ (ok r, w') → f w.db ≡ (ok r, w'.db)

  log_unless-ok :
      {R : Type 0} (b : Bool) (result r : R) (logging : M o Unit) (w w' : World o)
      → Keeps logging
      → log_unless o b result logging w ≡ (ok r, w')
      → (result ≡ r) × (w'.db ≡ w.db)
  log_unless-ok true result r logging w w' k e =
      let (same, at) = pure-eq-ok e in (same, ap (λ x. x.db) (sym at))
  log_unless-ok false result r logging w w' k e =
      let (u, mid, run, rest) = >>=-eq-ok logging (λ _. pure result) w e in
      let (same, at) = pure-eq-ok rest in
      (same, ap (λ x. x.db) (sym at) ∙ sym (ap (λ x. x.1.db) run) ∙ k w)

  origin_call-Wraps :
      {R : Type 0} (f : Action Error o.Db R) (r : R) (w w' : World o)
      → origin_call o f w ≡ (ok r, w')
      → f w.db ≡ (ok r, w'.db)
  origin_call-Wraps f r w w' e = λ i. ((e i).0, (e i).1.db)

  -- A call of the original method, and then the logging.
  logged-Wraps :
      {R : Type 0} (f : Action Error o.Db R) (b : R → Bool) (logging : R → M o Unit) (w : World o)
      → ((r : R) → Keeps (logging r))
      → Wraps (origin_call o f >>= λ result. log_unless o (b result) result (logging result)) f w
  logged-Wraps f b logging w k r w' e =
      let (result, mid, run, rest) =
        >>=-eq-ok (origin_call o f) (λ result. log_unless o (b result) result (logging result)) w
          e in
      let (same, at) = log_unless-ok (b result) result r (logging result) mid w' (k result) rest in
      origin_call-Wraps f result w mid run ∙ (λ i. (ok (same i), sym at i))

  module _ (env : Env) (patch : Patch) (model : String) where
    -- The values with which a patched `write` calls the original one.
    abbrev pub written_vals :
        (Dict v.Value → Dict v.Value) → List ℕ → Dict v.Value → LogType → Dict v.Value
    written_vals clean [] vals full = vals
    written_vals clean (id ∷ more) vals full = if str_eq model "res.users" then clean vals else vals
    written_vals clean ids vals fast = vals

    write_real-Wraps :
        {R : Type 0} (origin : List ℕ → Dict v.Value → Action Error o.Db R)
        (clean : Dict v.Value → Dict v.Value) (ids : List ℕ) (vals : Dict v.Value) (real : List ℕ)
        (w : World o)
        → Wraps
            (write_real o env patch model origin clean ids vals real)
            (origin ids (written_vals clean real vals full))
            w
    unfolding write_logged
    write_real-Wraps origin clean ids vals [] w r w' e =
        origin_call-Wraps (origin ids vals) r w w' e
    write_real-Wraps origin clean ids vals (id ∷ more) w r w' e =
        logged-Wraps (origin ids (written_vals clean (id ∷ more) vals full))
          (λ _. elem env.uid patch.users_to_exclude)
          (λ _ u.
            create_logs o env model (id ∷ more) write
              (o.read w.db model (fields_of o model) (id ∷ more))
              (o.read u.db model (fields_of o model) (id ∷ more)) patch.log_type u)
          w
          (λ _ u.
            create_logs-Keeps env model (id ∷ more) write
              (o.read w.db model (fields_of o model) (id ∷ more))
              (o.read u.db model (fields_of o model) (id ∷ more)) patch.log_type u)
          r w' e

    make_write-Wraps :
        {R : Type 0} (origin : List ℕ → Dict v.Value → Action Error o.Db R)
        (clean : Dict v.Value → Dict v.Value) (ids : List ℕ) (vals : Dict v.Value) (w : World o)
        → Wraps
            (make_write o env patch model origin clean ids vals)
            (origin ids
              (written_vals clean (keep (λ id. not (env.new_id id)) ids) vals patch.log_type))
            w
    unfolding make_write write_full write_fast
    make_write-Wraps origin clean ids vals w = by_type patch.log_type
      where
        by_type :
            (t : LogType)
            → Wraps
                (write_as o env patch model origin clean ids vals t)
                (origin ids (written_vals clean (keep (λ id. not (env.new_id id)) ids) vals t))
                w
        by_type full =
            write_real-Wraps origin clean ids vals (keep (λ id. not (env.new_id id)) ids) w
        by_type fast =
            logged-Wraps (origin ids vals) (λ _. elem env.uid patch.users_to_exclude) _ w
              (λ _. create_logs-Keeps env model ids write _ _ patch.log_type)

    make_unlink-Wraps :
        {R : Type 0} (origin : List ℕ → Action Error o.Db R) (ids : List ℕ) (w : World o)
        → Wraps (make_unlink o env patch model origin ids) (origin ids) w
    unfolding make_unlink
    make_unlink-Wraps origin ids w = unless (elem env.uid patch.users_to_exclude)
      where
        unless : (b : Bool) → Wraps (unlink_unless o env patch model origin ids b) (origin ids) w
        unless true r w' e = origin_call-Wraps (origin ids) r w w' e
        unless false r w' e =
            let logging =
              create_logs o env model ids unlink (values_before o model ids patch.log_type w.db) []
                patch.log_type in
            let (u, mid, run, rest) = >>=-eq-ok logging (λ _. origin_call o (origin ids)) w e in
            ap (origin ids) (
              sym (create_logs-Keeps env model ids unlink _ [] patch.log_type w)
              ∙ ap (λ x. x.1.db) run)
            ∙ origin_call-Wraps (origin ids) r mid w' rest

    make_export_data-Wraps :
        {R : Type 0} (origin : List ℕ → Action Error o.Db R) (ids : List ℕ) (w : World o)
        → Wraps (make_export_data o env patch model origin ids) (origin ids) w
    unfolding make_export_data
    make_export_data-Wraps origin ids w =
        logged-Wraps (origin ids) (λ _. elem env.uid patch.users_to_exclude) _ w
          (λ _. create_logs-Keeps env model ids export_data [] [] patch.log_type)

    make_read-Wraps :
        {R : Type 0} (origin : List ℕ → Action Error o.Db R) (values_of : R → RecordValues v)
        (ids : List ℕ) (w : World o)
        → Wraps (make_read o env patch model origin values_of ids) (origin ids) w
    unfolding make_read
    make_read-Wraps origin values_of ids w =
        logged-Wraps (origin ids)
          (λ _. env.auditlog_disabled || elem env.uid patch.users_to_exclude) _ w
          (λ result. create_logs-Keeps env model ids read (values_of result) [] patch.log_type)

    -- What the original `create` gets: in a fast log, the values with no empty recordset.
    abbrev pub created_vals : (v.Value → Bool) → List (Dict v.Value) → LogType → List (Dict v.Value)
    created_vals is_empty_recordset vals_list full = vals_list
    created_vals is_empty_recordset vals_list fast =
        map (update_vals o is_empty_recordset) vals_list

    make_create-Wraps :
        (origin : List (Dict v.Value) → Action Error o.Db (List ℕ))
        (is_empty_recordset : v.Value → Bool) (vals_list : List (Dict v.Value)) (w : World o)
        → Wraps
            (make_create o env patch model origin is_empty_recordset vals_list)
            (origin (created_vals is_empty_recordset vals_list patch.log_type))
            w
    unfolding make_create
    make_create-Wraps origin is_empty_recordset vals_list w = by_type patch.log_type
      where
        with_values :
            (values : List ℕ → o.Db → RecordValues v) (given : List (Dict v.Value))
            → Wraps (create_with o env patch model values (origin given)) (origin given) w
        with_values values given =
            logged-Wraps (origin given) (λ _. elem env.uid patch.users_to_exclude)
              (λ ids u. create_logs o env model ids create [] (values ids u.db) patch.log_type u) w
              (λ ids u.
                create_logs-Keeps env model ids create [] (values ids u.db) patch.log_type u)

        by_type :
            (t : LogType)
            → Wraps
                (create_as o env patch model origin vals_list
                  (map (update_vals o is_empty_recordset) vals_list)
                  t)
                (origin (created_vals is_empty_recordset vals_list t))
                w
        by_type full = with_values _ vals_list
        by_type fast = with_values _ (map (update_vals o is_empty_recordset) vals_list)

    -- Each of the five methods that a rule puts in place, where it returns, has returned what the
    -- original method returns on the same database, and has left the database as that one leaves it.
    -- The original method gets the values as given, but for the groups taken out of a write of users
    -- and the empty recordsets of a create in a fast log.
    pub patched-Wraps :
        {R : Type 0} (origin : List ℕ → Action Error o.Db R)
        (origin_write : List ℕ → Dict v.Value → Action Error o.Db R)
        (origin_create : List (Dict v.Value) → Action Error o.Db (List ℕ))
        (clean : Dict v.Value → Dict v.Value) (is_empty_recordset : v.Value → Bool)
        (values_of : R → RecordValues v) (ids : List ℕ) (vals : Dict v.Value)
        (vals_list : List (Dict v.Value)) (w : World o)
        → Wraps
            (make_write o env patch model origin_write clean ids vals)
            (origin_write ids
              (written_vals clean (keep (λ id. not (env.new_id id)) ids) vals patch.log_type))
            w
          × Wraps
              (make_create o env patch model origin_create is_empty_recordset vals_list)
              (origin_create (created_vals is_empty_recordset vals_list patch.log_type))
              w
          × Wraps (make_unlink o env patch model origin ids) (origin ids) w
          × Wraps (make_read o env patch model origin values_of ids) (origin ids) w
          × Wraps (make_export_data o env patch model origin ids) (origin ids) w
    patched-Wraps origin origin_write origin_create clean is_empty_recordset values_of ids vals
          vals_list w =
        (
          make_write-Wraps origin_write clean ids vals w,
          make_create-Wraps origin_create is_empty_recordset vals_list w,
          make_unlink-Wraps origin ids w,
          make_read-Wraps origin values_of ids w,
          make_export_data-Wraps origin ids w,
        )
