-- ===== src/Auditlog.antt =====
-- auditlog: the logs of the calls of a model's methods (models/rule.py and models/log.py), and the
-- rules that patch these methods.
pub mod Diff
pub mod Lines
pub mod Methods
pub mod Written
pub mod Logged
pub mod Calls
pub mod Registry
pub mod Patched
pub mod Subscribed
pub mod Operations
pub mod Unsubscribed
pub mod Reached
pub mod Reach
mod Tests
use oca_server_tools.Common.{
  ℕ, String, Bool, true, false, Option, none, some, List, [], ◌∷◌, ◌==◌, if◌then◌else◌,
}
use oca_server_tools.Common.Dict.{Dict}

-- The methods that a rule may log.
pub data Method : Type 0 where
  create read write unlink export_data : Method

-- The selection of `log_type`
pub data LogType : Type 0 where
  full fast : LogType

-- A record of `auditlog.rule`. `logs` has the five flags `log_create`, `log_read`, ...
pub record Rule : Type 0 where
  pub model_id : Option String
  pub model_model : String
  pub logs : Method → Bool
  pub log_type : LogType
  pub subscribed : Bool
  pub action_id : Option ℕ
  pub capture_record : Bool
  pub users_to_exclude_ids : List ℕ
  pub fields_to_exclude_ids : List String

-- What `_get_field` keeps of a record of `ir.model.fields`: `is_2many` is
-- `field["relation"] and "2many" in field["ttype"]`.
pub record FieldData : Type 0 where
  pub id : ℕ
  pub name : String
  pub relation : String
  pub is_2many : Bool

-- The values of records, which are those of Odoo: `==`, `False`, the placeholder `_SENTINEL`, and the
-- ids of a field to many records.
pub record Values : Type 1 where
  pub Value : Type 0
  pub same : Value → Value → Bool
  pub false_value : Value
  pub sentinel : Value
  pub ids_of : Value → List ℕ

-- The text of a value: the value itself, or the names of records.
pub data Text (v : Values) : Type 0 where
  plain : v.Value → Text v
  names : List (ℕ × String) → Text v

-- A record of `auditlog.log.line`
pub record Line (v : Values) : Type 0 where
  pub log_id : ℕ
  pub field : FieldData
  pub old_value : v.Value
  pub new_value : v.Value
  pub old_value_text : Text v
  pub new_value_text : Text v

-- A record of `auditlog.log`
pub record Log : Type 0 where
  pub id : ℕ
  pub model : String
  pub name : String
  pub res_id : Option ℕ
  pub res_ids : List ℕ
  pub user_id : ℕ
  pub method : Method
  pub log_type : LogType

-- A dictionary of values for each record id.
abbrev pub RecordValues : Values → Type 0
RecordValues v = List (ℕ × Dict v.Value)

-- `values.get(res_id, EMPTY_DICT)`
abbrev pub get_record : {V : Type 0} → ℕ → List (ℕ × Dict V) → Dict V
get_record id [] = []
get_record id ((k, d) ∷ more) = if k == id then d else get_record id more

-- The flags of a field that `get_auditlog_fields` reads.
pub record FieldFlags : Type 0 where
  pub name : String
  pub compute : Bool
  pub related : Bool
  pub store : Bool
  pub company_dependent : Bool

-- What the ORM answers of a database: `none` where it raises.
pub record Orm (v : Values) : Type 1 where
  pub Db : Type 0
  pub fields : String → List FieldFlags
  pub search_field : Db → String → String → Option FieldData
  pub exists : Db → String → ℕ → Bool
  pub name_get : Db → String → List ℕ → Option (List (ℕ × String))
  pub read : Db → String → List String → List ℕ → RecordValues v

-- What a call may raise.
pub data Error : Type 0 where
  key_error : Error
  raised : String → Error

-- The database, the tables of logs and of lines, and `_auditlog_field_cache`, where `none` stands for a
-- field that was not asked for and `some none` for one that is not there.
pub record World {v : Values} (o : Orm v) : Type 0 where
  pub db : o.Db
  pub logs : List Log
  pub lines : List (Line v)
  pub next_log : ℕ
  pub field_cache : String → String → Option (Option FieldData)
