-- ===== src/Changeset/Values.antt =====
-- record_changeset_change.py: how a value of a tracked field is compared and stored in a change.
use oca_server_tools.Common.{
  String, Bool, true, false, not, ◌||◌, Option, none, some, if◌then◌else◌,
}
use oca_server_tools.Common.Action.{Result, ok, err, and_then}
use oca_server_tools.Changeset.Orm.{Field, Orm, Ref, Suffix, Ttype, type_to_suffix}
use oca_server_tools.Changeset.Rules.{Rule, RuleAction, auto, validate, never}
use oca_server_tools.Changeset.State.{ChangeState, draft, done, cancel, Error, not_implemented}

-- `get_field_for_type`: the suffix of the column, or `NotImplementedError`.
unfoldable pub get_field_for_type : Field → Result Error Suffix
unfolding type_to_suffix
get_field_for_type field = elim (type_to_suffix field.ttype) [
  | none ↦ err not_implemented
  | some suffix ↦ ok suffix
]

abbrev pub is_many2one : Ttype → Bool
is_many2one Ttype.many2one = true
is_many2one _ = false

module _ (o : Orm) where
  -- `_has_field_changed`
  unfoldable pub has_field_changed : o.Store → Ref → String → o.Value → Bool
  has_field_changed store ref field value =
      let current = o.convert_to_write ref.model field (o.read store ref field) in
      if not (o.truthy current || o.truthy value) then false else not (o.same current value)

  -- `_value_for_changeset`; with no value given it is read from the record.
  unfoldable pub value_for_changeset : o.Store → Ref → String → Option o.Value → o.Value
  value_for_changeset store ref field given =
      let value : o.Value = elim given [
        | none ↦ o.convert_to_write ref.model field (o.read store ref field)
        | some v ↦ v
      ] in
      let field_def = o.field_def ref.model field in
      if is_many2one field_def.ttype
      then (if o.truthy value then o.reference_text field_def.comodel_name value else o.false_value)
      else value

  -- `_convert_value_for_write`
  unfoldable pub convert_value_for_write : Field → o.Value → o.Value
  convert_value_for_write field value =
      if not (o.truthy value) then value else o.convert_to_write field.model field.name value

  -- The dict of values that `_prepare_changeset_change` returns.
  pub record ChangeVals : Type 0 where
    pub suffix : Suffix
    pub new_value : o.Value
    pub field : Field
    pub rule : Rule
    pub state : ChangeState
    pub old_value : Option o.Value

abbrev pub state_for : RuleAction → ChangeState
state_for auto = done
state_for validate = draft
state_for never = cancel

abbrev pub pops : RuleAction → Bool
pops auto = false
pops _ = true

abbrev pub is_final : ChangeState → Bool
is_final draft = false
is_final _ = true

module _ (o : Orm) where
  -- `_prepare_changeset_change`: the values of the change, and whether the field is taken out of the
  -- values to write.
  unfoldable pub prepare_changeset_change :
      o.Store → Ref → Rule → String → o.Value → Bool → Result Error (ChangeVals o × Bool)
  unfolding get_field_for_type value_for_changeset
  prepare_changeset_change store ref rule field_name value create =
      and_then (get_field_for_type rule.field) λ suffix.
        let state = state_for rule.action in
        let origin_value =
          value_for_changeset o store ref field_name
            (if create then some o.false_value else none) in
        ok (
          record {
            suffix = suffix;
            new_value = value_for_changeset o store ref field_name (some value);
            field = rule.field;
            rule = rule;
            state = state;
            old_value = if create || is_final state then some origin_value else none;
          },
          pops rule.action,
        )
