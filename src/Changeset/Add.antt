-- ===== src/Changeset/Add.antt =====
-- `RecordChangeset.add_changeset`: which fields of a write become changes of a new changeset, and
-- which values are left to write.
pub mod WriteValues
pub mod Recorded
use oca_server_tools.Common.{
  ℕ, suc, ◌+◌, String, Bool, true, false, not, ◌&&◌, ◌||◌, Option, none, some, List, [], ◌∷◌, ◌++◌,
  ◌==◌, str_eq, if◌then◌else◌, length,
}
use mathlib.Core.Bool.{decide}
use oca_server_tools.Common.Dict.{Dict, lookup, insert, remove, keys}
use oca_server_tools.Common.Action.{Result, ok, err, and_then}
use oca_server_tools.Changeset.Orm.{Orm, Ref, Ttype, Suffix}
use oca_server_tools.Changeset.Rules.{Rule, Search, browse, compute_rules, evaluate_expression}
use oca_server_tools.Changeset.Values.{ChangeVals, has_field_changed, prepare_changeset_change}
use oca_server_tools.Changeset.State.{
  Change, ChangesetRow, Db, Env, Error, missing_record, not_implemented, M,
}

-- `if not source_model: source_model = "res.users"`
unfoldable pub source_model_of : Env → String
source_model_of env = elim env.rules_source_model [
  | none ↦ "res.users"
  | some name ↦ if str_eq name "" then "res.users" else name
]

unfoldable pub source_id_of : Env → ℕ
source_id_of env = elim env.rules_source_id [
  | none ↦ env.uid
  | some id ↦ if id == 0 then env.uid else id
]

-- the text `source`, as the pair of its two parts
unfoldable pub source_of : Env → Option (String × ℕ)
unfolding source_model_of source_id_of
source_of env =
    if not (str_eq (source_model_of env) "") && not (source_id_of env == 0)
    then some (source_model_of env, source_id_of env)
    else none

abbrev pub is_text : Ttype → Bool
is_text Ttype.char = true
is_text Ttype.text = true
is_text _ = false

Suffix-discrete : Discrete Suffix
Suffix-discrete = hlevel

unfoldable pub suffix_eq : Suffix → Suffix → Bool
unfolding decide Suffix-discrete
suffix_eq a b = decide (Suffix-discrete a b)

module _ (o : Orm) where
  -- The tests that let `add_changeset` go on with a field, `values[field]` being `value`.
  unfoldable pub applies : o.Store → Ref → Bool → Rule → String → o.Value → Bool
  unfolding evaluate_expression has_field_changed
  applies store ref create rule field value =
      not (not (evaluate_expression o store ref rule) || create && not (o.truthy value))
      && (create || has_field_changed o store ref field value)

  -- The value that a new record gets in place of one that waits for approval.
  unfoldable pub default_value : Ref → String → o.Value
  default_value ref field =
      let field_def = o.field_def ref.model field in
      if field_def.required && is_text field_def.ttype then o.slash else o.null ref.model field

  -- `write_values.pop(field)`, and the default value in a create
  unfoldable pub take_out : Ref → Bool → String → Dict o.Value → Dict o.Value
  unfolding default_value
  take_out ref create field write_values =
      let rest = remove field write_values in
      if create then insert field (default_value ref field) rest else rest

  -- What the loop carries: `write_values` and `changes`.
  pub record Pending : Type 0 where
    pub write_values : Dict o.Value
    pub changes : List (ChangeVals o)

  -- What the body of the loop does with a prepared change.
  unfoldable pub record_change : Ref → Bool → String → Pending → ChangeVals o × Bool → Pending
  unfolding take_out
  record_change ref create field acc (change, pop_value) = record {
    write_values =
        if pop_value then take_out ref create field acc.write_values else acc.write_values;
    changes = acc.changes ++ change ∷ [];
  }

  -- One round of the loop, for a field with its value and the rule that `rules.get` gives.
  unfoldable pub add_field :
      o.Store → Ref → Bool → String → o.Value → Option Rule → Pending → Result Error Pending
  unfolding applies record_change
  add_field store ref create field value none acc = ok acc
  add_field store ref create field value (some rule) acc =
      if applies store ref create rule field value
      then and_then (prepare_changeset_change o store ref rule field value create)
          (λ prepared. ok (record_change ref create field acc prepared))
      else ok acc

  -- `for field in values:`
  unfoldable pub add_fields :
      o.Store → Ref → Bool → (String → Option Rule) → Dict o.Value → Pending → Result Error Pending
  unfolding add_field
  add_fields store ref create rule_for [] acc = ok acc
  add_fields store ref create rule_for ((field, value) ∷ values) acc =
      and_then (add_field store ref create field value (rule_for field) acc)
        (add_fields store ref create rule_for values)

  -- `rules.get(field)`, with the row of the rule
  unfoldable pub rule_getter : Search → List Rule → String → String → String → Option Rule
  unfolding compute_rules browse lookup
  rule_getter search rows source_model model field =
      elim (lookup field (compute_rules search rows source_model model)) [
        | none ↦ none
        | some id ↦ browse rows id
      ]

  -- the rules that decide about the fields of a record
  abbrev pub rules_for : Search → Env → Db o → Ref → String → Option Rule
  rules_for search env db ref = rule_getter search db.rules (source_model_of env) ref.model

  -- A new change: `(0, 0, vals)` of `change_ids`. A column that is not given is `False`.
  unfoldable pub new_change : ℕ → ChangeVals o → Change o
  unfolding suffix_eq
  new_change changeset vals = record {
    changeset = changeset;
    field = vals.field;
    rule = some vals.rule.id;
    state = vals.state;
    old_value = λ s. elim vals.old_value [
      | none ↦ o.false_value
      | some v ↦ if suffix_eq s vals.suffix then v else o.false_value
    ];
    new_value = λ s. if suffix_eq s vals.suffix then vals.new_value else o.false_value;
    verified_by = none;
    verified_on = none;
  }

  unfoldable pub new_changes : ℕ → ℕ → List (ChangeVals o) → (ℕ → Change o) → (ℕ → Change o)
  unfolding new_change
  new_changes changeset next [] change = change
  new_changes changeset next (vals ∷ more) change =
      new_changes changeset (next + 1) more
        (λ i. if i == next then new_change changeset vals else change i)

  unfoldable pub ids_from : ℕ → List (ChangeVals o) → List ℕ
  ids_from next [] = []
  ids_from next (_ ∷ more) = next ∷ ids_from (next + 1) more

  -- `_prepare_changeset_vals` and `create`.
  unfoldable pub create_changeset : Env → Ref → List (ChangeVals o) → Db o → Db o
  unfolding new_changes ids_from source_of
  create_changeset env ref changes db =
      let id = db.next_changeset in
      let ids = ids_from db.next_change changes in
      record db {
        change = new_changes id db.next_change changes db.change;
        changeset = λ c.
            if c == id
            then record {
              target = ref;
              change_ids = ids;
              date = env.now;
              modified_by = env.uid;
              source = source_of env;
              company = elim (o.record_company db.store ref) [ none ↦ env.company | some c' ↦ c' ];
            }
            else db.changeset c;
        changeset_ids = db.changeset_ids ++ id ∷ [];
        next_change = db.next_change + length changes;
        next_changeset = db.next_changeset + 1;
      }

  -- `if changes:`
  unfoldable pub save_changes : Env → Ref → List (ChangeVals o) → Db o → Db o
  unfolding create_changeset
  save_changes env ref [] db = db
  save_changes env ref (c ∷ cs) db = create_changeset env ref (c ∷ cs) db

  abbrev finish_add : Env → Ref → Result Error Pending → M o (Dict o.Value)
  finish_add env ref (err e) db = (err e, db)
  finish_add env ref (ok acc) db = (ok acc.write_values, save_changes env ref acc.changes db)

  -- `add_changeset`
  unfoldable pub add_changeset : Search → Env → Ref → Dict o.Value → Bool → M o (Dict o.Value)
  unfolding add_fields rule_getter source_model_of save_changes
  add_changeset search env ref values create db =
      finish_add env ref
        (add_fields db.store ref create (rules_for search env db ref) values
          (record { write_values = values; changes = [] }))
        db
