-- ===== src/Changeset/Orm.antt =====
-- What base_changeset takes from Odoo: field metadata, values, and the records of the tracked
-- models. These are parameters: nothing here is code of the repository but the tables of field
-- types of record_changeset_change.py.
use oca_server_tools.Common.{ℕ, String, Bool, ◌&&◌, Option, none, some, List, ◌==◌, str_eq}
use oca_server_tools.Common.Dict.{Dict}
use oca_server_tools.Common.Action.{Action}

-- `ir.model.fields.ttype`
pub data Ttype : Type 0 where
  char selection date datetime float monetary integer text html boolean many2one : Ttype
  binary many2one_reference one2many many2many reference serialized : Ttype

-- The keys of `_suffix_to_types`: one column of each prefix stands for each.
pub data Suffix : Type 0 where
  char date datetime float monetary integer text boolean reference : Suffix

-- `_type_to_suffix`
unfoldable pub type_to_suffix : Ttype → Option Suffix
type_to_suffix Ttype.char = some Suffix.char
type_to_suffix Ttype.selection = some Suffix.char
type_to_suffix Ttype.date = some Suffix.date
type_to_suffix Ttype.datetime = some Suffix.datetime
type_to_suffix Ttype.float = some Suffix.float
type_to_suffix Ttype.monetary = some Suffix.monetary
type_to_suffix Ttype.integer = some Suffix.integer
type_to_suffix Ttype.text = some Suffix.text
type_to_suffix Ttype.html = some Suffix.text
type_to_suffix Ttype.boolean = some Suffix.boolean
type_to_suffix Ttype.many2one = some Suffix.reference
type_to_suffix _ = none

-- A record of `ir.model.fields`
pub record Field : Type 0 where
  pub model : String
  pub name : String
  pub ttype : Ttype

-- A record of a tracked model
pub record Ref : Type 0 where
  pub model : String
  pub id : ℕ

unfoldable pub ref_eq : Ref → Ref → Bool
ref_eq a b = str_eq a.model b.model && a.id == b.id

-- An entry of `record._fields`
pub record FieldDef : Type 0 where
  pub ttype : Ttype
  pub comodel_name : String
  pub required : Bool

pub record Orm : Type 1 where
  pub Value : Type 0
  -- Python's truth value, `False`, `==` and the text "/"
  pub truthy : Value → Bool
  pub false_value : Value
  pub same : Value → Value → Bool
  pub slash : Value
  -- `"{},{}".format(comodel, value)`
  pub reference_text : String → Value → Value
  -- `record._fields[field]`, `field.null(record)` and `field.convert_to_write(value, record)`
  pub field_def : String → String → FieldDef
  pub null : String → String → Value
  pub convert_to_write : String → String → Value → Value
  -- reading a column of `record.changeset.change` back: a reference column gives a record
  pub column : Suffix → Value → Value
  -- the database of the tracked models: `record.exists()`, and `record[field]` of a record that exists and
  -- that the user may read
  pub Store : Type 0
  pub exists : Store → Ref → Bool
  pub read : Store → Ref → String → Value
  -- the overridden `write` and `create`, which may raise; `create` makes one record for each dict of values
  pub super_write : Ref → Dict Value → Action String Store Unit
  pub super_create : String → List (Dict Value) → Action String Store (List Ref)
  -- the record's company, where its model has the field `company_id` and it is set
  pub record_company : Store → Ref → Option ℕ
  -- `safe_eval(expression, {"object": record, ...})` as a truth value
  pub safe_eval : String → Store → Ref → Bool
