-- ===== src/Exceptions.antt =====
-- base_exception: which exception rules apply to which records (base_exception_method.py), and what
-- is kept of them on the records (base_exception.py, exception_rule.py).
pub mod Links
pub mod Detected
mod Tests
use oca_server_tools.Common.{
  ℕ, String, Bool, true, false, not, ◌&&◌, ◌||◌, Option, none, some, List, [], ◌∷◌, ◌++◌, any, elem,
  keep, ◌==◌, str_eq, if◌then◌else◌,
}
use oca_server_tools.Common.Action.{Result, ok, err, and_then, Action, raise, pure}

-- `exception_type`
pub data ExceptionType : Type 0 where
  by_domain by_py_code by_method : ExceptionType

-- An entry of the cache: `_to_cache_entry`
pub record RuleInfo : Type 0 where
  pub id : ℕ
  pub name : String
  pub exception_type : ExceptionType
  pub is_blocking : Bool

-- A rule before it is checked.
pub record RuleVals : Type 0 where
  pub exception_type : ExceptionType
  pub domain : String
  pub code : String
  pub method : String

pub data Error : Type 0 where
  eval_error : String → Error
  config_error ignore_error : Error
  validation_error : List String → Error

abbrev pub is_unset : ExceptionType → RuleVals → Bool
is_unset by_py_code rule = str_eq rule.code ""
is_unset by_domain rule = str_eq rule.domain ""
is_unset by_method rule = str_eq rule.method ""

-- `check_exception_type_consistency` on one rule
unfoldable pub check_consistency : RuleVals → Result Error Unit
check_consistency rule = if is_unset rule.exception_type rule then err config_error else ok tt

-- What the rules say, which is not code of the repository: the value of `failed` after a rule's
-- Python code or `none` where it raises, the test of its domain, and its method of the model.
pub record Rules : Type 0 where
  pub failed : RuleInfo → ℕ → Option Bool
  pub in_domain : RuleInfo → ℕ → Bool
  pub method : RuleInfo → List ℕ → List ℕ

-- The records: `exception_ids` and `ignore_exception` of each.
pub record Db : Type 0 where
  pub exception_ids : ℕ → List ℕ
  pub ignore_exception : ℕ → Bool

-- `records - others`, and `filtered`
abbrev pub minus : List ℕ → List ℕ → List ℕ
minus xs ys = keep (λ x. not (elem x ys)) xs

-- `filtered_domain(_get_base_domain())`
abbrev pub checked : Db → List ℕ → List ℕ
checked db ids = keep (λ r. not (db.ignore_exception r)) ids

-- `all_exception_ids`, `rules_to_remove` and `rules_to_add`
pub record Found : Type 0 where
  pub all_exception_ids : List ℕ
  pub rules_to_remove : List (ℕ × List ℕ)
  pub rules_to_add : List (ℕ × List ℕ)

abbrev pub with_rule : Db → List ℕ → RuleInfo → List ℕ
with_rule db ids rule = keep (λ r. elem rule.id (db.exception_ids r)) ids

abbrev pub push_if : List ℕ → ℕ → List (ℕ × List ℕ) → List (ℕ × List ℕ)
push_if [] id l = l
push_if (r ∷ rs) id l = l ++ (id, r ∷ rs) ∷ []

abbrev pub id_if : List ℕ → ℕ → List ℕ → List ℕ
id_if [] id l = l
id_if (r ∷ rs) id l = l ++ id ∷ []

-- The body of the loop of `_get_exceptions`.
unfoldable pub add_found : Db → List ℕ → RuleInfo → List ℕ → Found → Found
add_found db ids rule found acc = record {
  all_exception_ids = id_if found rule.id acc.all_exception_ids;
  rules_to_remove = push_if (minus (with_rule db ids rule) found) rule.id acc.rules_to_remove;
  rules_to_add = push_if (minus found (with_rule db ids rule)) rule.id acc.rules_to_add;
}

abbrev pub no_found : Found
no_found = record { all_exception_ids = []; rules_to_remove = []; rules_to_add = [] }

module _ (rules : Rules) where
  -- `_rule_eval`
  unfoldable pub rule_eval : RuleInfo → ℕ → Result Error Bool
  rule_eval rule rec = elim (rules.failed rule rec) [
    | none ↦ err (eval_error rule.name)
    | some failed ↦ ok failed
  ]

  -- `_detect_exceptions_by_py_code`, the loop over the records
  unfoldable pub detect_by_py_code : RuleInfo → List ℕ → Result Error (List ℕ)
  unfolding rule_eval
  detect_by_py_code rule [] = ok []
  detect_by_py_code rule (rec ∷ recs) = and_then (rule_eval rule rec) (λ failed.
      and_then (detect_by_py_code rule recs) (λ found. ok (if failed then rec ∷ found else found)))

  abbrev pub detect_by : ExceptionType → Db → List ℕ → RuleInfo → Result Error (List ℕ)
  detect_by by_py_code db ids rule = detect_by_py_code rule (checked db ids)
  detect_by by_domain db ids rule =
      ok (keep (λ r. not (db.ignore_exception r) && rules.in_domain rule r) ids)
  detect_by by_method db ids rule = ok (rules.method rule (checked db ids))

  -- `_detect_exceptions`
  unfoldable pub detect : Db → List ℕ → RuleInfo → Result Error (List ℕ)
  unfolding detect_by_py_code
  detect db ids rule = detect_by rule.exception_type db ids rule

  -- `_get_exceptions`
  unfoldable pub get_exceptions : Db → List ℕ → List RuleInfo → Found → Result Error Found
  unfolding add_found detect
  get_exceptions db ids [] acc = ok acc
  get_exceptions db ids (rule ∷ more) acc =
      and_then (detect db ids rule)
        (λ found. get_exceptions db ids more (add_found db ids rule found acc))

-- `records.write({"exception_ids": [(3, rule_id)]})` and `[(4, rule_id)]`
abbrev pub unlink_rule : ℕ → List ℕ → List ℕ
unlink_rule id l = keep (λ k. not (k == id)) l

abbrev pub link_rule : ℕ → List ℕ → List ℕ
link_rule id l = if elem id l then l else l ++ id ∷ []

unfoldable pub remove_links : List (ℕ × List ℕ) → (ℕ → List ℕ) → ℕ → List ℕ
remove_links [] ex = ex
remove_links ((id, recs) ∷ more) ex =
    remove_links more (λ r. if elem r recs then unlink_rule id (ex r) else ex r)

unfoldable pub add_links : List (ℕ × List ℕ) → (ℕ → List ℕ) → ℕ → List ℕ
add_links [] ex = ex
add_links ((id, recs) ∷ more) ex =
    add_links more (λ r. if elem r recs then link_rule id (ex r) else ex r)

abbrev pub name_of : List RuleInfo → ℕ → List String
name_of [] id = []
name_of (rule ∷ more) id = if rule.id == id then rule.name ∷ [] else name_of more id

abbrev pub names_of : List RuleInfo → List ℕ → List String
names_of infos [] = []
names_of infos (id ∷ ids) = name_of infos id ++ names_of infos ids

-- `if exception_ids and raise_exception: raise ValidationError(...)`; else the method ends with `None`.
abbrev pub raise_names : Bool → List RuleInfo → Result Error (List ℕ) → Result Error Bool
raise_names raises infos (err e) = err e
raise_names raises infos (ok []) = ok false
raise_names raises infos (ok (id ∷ ids)) =
    if raises then err (validation_error (names_of infos (id ∷ ids))) else ok false

-- The writes of `detect_exceptions`, once `_get_exceptions` returned.
abbrev pub write_links : Db → Result Error Found → Result Error (List ℕ) × Db
write_links db (err e) = (err e, db)
write_links db (ok found) = (
  ok found.all_exception_ids,
  record db {
    exception_ids =
        add_links found.rules_to_add (remove_links found.rules_to_remove db.exception_ids);
  },
)

module _ (rules : Rules) where
  -- `detect_exceptions`
  unfoldable pub detect_exceptions : List RuleInfo → List ℕ → Action Error Db (List ℕ)
  unfolding get_exceptions remove_links add_links
  detect_exceptions infos ids db = write_links db (get_exceptions rules db ids infos no_found)

  -- `_check_exception`, with the two keys of the context
  unfoldable pub check_exception : Bool → Bool → List RuleInfo → List ℕ → Action Error Db Bool
  unfolding detect_exceptions
  check_exception check raises infos ids db =
      if not check
      then (ok true, db)
      else (let (found, db') = detect_exceptions infos ids db in
          (raise_names raises infos found, db'))

-- `action_ignore_exceptions`: `is_blocking` tells which rules block.
unfoldable pub action_ignore_exceptions : (ℕ → Bool) → List ℕ → Action Error Db Bool
action_ignore_exceptions is_blocking ids db =
    if any (λ r. any is_blocking (db.exception_ids r)) ids then (err ignore_error, db) else (
      ok true,
      record db { ignore_exception = λ r. if elem r ids then true else db.ignore_exception r },
    )

abbrev first : List ℕ → Option ℕ
first [] = none
first (k ∷ ks) = some k

-- `_compute_main_error`
unfoldable pub main_exception : Db → ℕ → Option ℕ
main_exception db r = if not (db.ignore_exception r) then first (db.exception_ids r) else none
