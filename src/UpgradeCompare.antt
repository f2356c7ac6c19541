-- ===== src/UpgradeCompare.antt =====
-- upgrade_analysis: the comparison of the fields of two database layouts (compare.py).
pub mod Sets
pub mod Counts
mod Tests
use oca_server_tools.Common.{
  ℕ, suc, ◌+◌, String, Bool, true, false, not, ◌&&◌, ◌||◌, Option, none, some, List, [], ◌∷◌, ◌++◌,
  str_eq, if◌then◌else◌, or_else,
}
use oca_server_tools.Common.Dict.{Dict, lookup, insert, has}

-- A value of a record: a text, or `False`.
abbrev pub Value : Type 0
Value = Option String

-- A field representation, the `dict` of `field_dump`: the value under each of its keys.
abbrev pub Item : Type 0
Item = String → Value

abbrev pub truthy : Value → Bool
truthy none = false
truthy (some text) = not (str_eq text "")

abbrev pub text_of : Value → String
text_of none = ""
text_of (some text) = text

abbrev pub same_value : Value → Value → Bool
same_value none none = true
same_value none (some b) = false
same_value (some a) none = false
same_value (some a) (some b) = str_eq a b

-- `dict(item, key=value)`
abbrev pub set : String → Value → Item → Item
set key value item k = if str_eq key k then value else item k

-- The module `apriori`
pub record Apriori : Type 0 where
  pub renamed_modules : Dict String
  pub merged_modules : Dict String
  pub renamed_models : Dict String
  pub merged_models : Dict String

abbrev get_or : String → Dict String → String → String
get_or k d default = elim (lookup k d) [ none ↦ default | some v ↦ v ]

abbrev inverse : Dict String → Dict String → Dict String
inverse [] acc = acc
inverse ((k, v) ∷ more) acc = inverse more (insert v k acc)

-- Where a text of the report comes from, before it is formatted.
pub data Text : Type 0 where
  said : String → Text
  now_is :
      (field : String) → (new old : Value) → (table : Option Value) → (nothing_to_do : Bool) → Text
  previously_in : Value → Text
  lists : (what : String) → List (String × Value) → Text

-- `"{:<12} / {:<24} / {:<30}: {}"`
pub record Line : Type 0 where
  pub module_name : Value
  pub model : Value
  pub field : Value
  pub type : Option Value
  pub text : Text

-- The report, a `defaultdict(list)`: its lines with their keys, in the order they are added.
abbrev pub Reprs : Type 0
Reprs = List (String × Line)

-- `IGNORE_FIELDS`
abbrev pub ignore_fields : List String
ignore_fields = "create_date" ∷ "create_uid" ∷ "id" ∷ "write_date" ∷ "write_uid" ∷ []

module _ (apriori : Apriori) where
  -- `module_map`, `model_rename_map`, `model_map` and `inv_model_map`
  unfoldable pub module_map : String → String
  module_map name = get_or name apriori.renamed_modules (get_or name apriori.merged_modules name)

  unfoldable pub model_rename_map : String → String
  model_rename_map model = get_or model apriori.renamed_models model

  unfoldable pub model_map : String → String
  model_map model = get_or model apriori.renamed_models (get_or model apriori.merged_models model)

  unfoldable pub inv_model_map : String → String
  inv_model_map model = get_or model (inverse apriori.renamed_models []) model

  -- The body of the loop of `compare_records`
  unfoldable pub compare_key : Item → Item → String → Bool
  unfolding module_map model_rename_map
  compare_key old new key =
      if str_eq key "module"
      then same_value (some (module_map (text_of (old "module")))) (new "module")
      else if str_eq key "model"
      then same_value (some (model_rename_map (text_of (old "model")))) (new "model")
      else if str_eq key "other_prefix"
      then (same_value (old "module") (old "prefix")
          && same_value (new "module") (new "prefix")
          && not (same_value (old "model") (some "ir.ui.view")))
      else same_value (old key) (new key)

  -- `compare_records`
  unfoldable pub compare_records : Item → Item → List String → Bool
  unfolding compare_key
  compare_records old new [] = true
  compare_records old new (key ∷ more) = compare_key old new key && compare_records old new more

  -- The first loop of `search`, without `get_all`
  unfoldable pub search_same : Item → List Item → List String → Option Item
  unfolding compare_records
  search_same item [] keys = none
  search_same item (other ∷ more) keys =
      if compare_records item other keys then some other else search_same item more keys

  -- The second loop of `search`: the fields that it takes for renamed
  unfoldable pub search_renamed : Item → List Item → List String → Option Item
  unfolding compare_records
  search_renamed item [] keys = none
  search_renamed item (other ∷ more) keys =
      let rest = search_renamed item more keys in
      if not (truthy (item "field")) || true || truthy (item "isproperty")
      then rest
      else if compare_records (set "field" (other "field") item) other keys
      then some other
      else rest

  -- `search` without `get_all`
  unfoldable pub search : Item → List Item → List String → Option Item
  unfolding search_same search_renamed
  search item items keys =
      or_else (search_same item items keys)
        (if has "field" keys then search_renamed item items keys else none)

  -- `search` with `get_all`
  unfoldable pub search_all : Item → List Item → List String → List Item
  unfolding compare_records
  search_all item [] keys = []
  search_all item (other ∷ more) keys =
      let rest = search_all item more keys in
      if compare_records item other keys && not (same_value (other "module") (other "prefix"))
      then other ∷ rest
      else rest

  abbrev type_of : Item → Option Value
  type_of old =
      if has (text_of (old "field")) ("_inherits" ∷ "_order" ∷ []) then none else some (old "type")

  abbrev line : Value → Item → Text → Line
  line module_name old text = record {
    module_name = module_name;
    model = old "model";
    field = old "field";
    type = type_of old;
    text = text;
  }

  abbrev changed_text : Item → Item → String → Text
  changed_text old new field =
      now_is field (new field) (old field)
        (if has field ("column1" ∷ "column2" ∷ []) then some (old "table") else none)
        (str_eq field "relation")

  -- `fieldprint` with a text, where `field` is empty
  unfoldable pub fieldprint : Item → Text → Reprs → Reprs
  unfolding module_map
  fieldprint old text reprs =
      reprs ++ (module_map (text_of (old "module")), line (old "module") old text) ∷ []

  -- `fieldprint` with a field and no text
  unfoldable pub fieldprint_change : Item → Item → String → Reprs → Reprs
  unfolding fieldprint
  fieldprint_change old new field reprs =
      let lines = fieldprint old (changed_text old new field) reprs in
      if str_eq field "module"
      then lines
        ++ (
          module_map (text_of (new "module")),
          line (new "module") old (previously_in (old field)),
        )
          ∷ []
      else lines

  abbrev differs : Item → Item → String → Bool
  differs old new attr = not (same_value (old attr) (new attr))

  abbrev now_or_not : Item → Item → String → String → String → Reprs → Reprs
  now_or_not old new attr now not_now reprs =
      if differs old new attr
      then fieldprint old (said (if truthy (new attr) then now else not_now)) reprs
      else reprs

  abbrev change_of : Item → Item → String → Reprs → Reprs
  change_of old new attr reprs =
      if differs old new attr then fieldprint_change old new attr reprs else reprs

  -- The body of the loop of `report_generic`
  unfoldable pub report_attr : Item → Item → String → Reprs → Reprs
  unfolding fieldprint fieldprint_change
  report_attr new old attr reprs =
      if str_eq attr "required"
      then (if differs old new attr && truthy (new "required")
          then fieldprint old (said "now required") reprs
          else reprs)
      else if str_eq attr "stored"
      then now_or_not old new attr "is now stored" "not stored anymore" reprs
      else if str_eq attr "isfunction"
      then now_or_not old new attr "now a function" "not a function anymore" reprs
      else if str_eq attr "isproperty"
      then now_or_not old new attr "now a property" "not a property anymore" reprs
      else if str_eq attr "isrelated"
      then now_or_not old new attr "now related" "not related anymore" reprs
      else if str_eq attr "table"
      then (let lines = change_of old new attr reprs in
          if truthy (old attr) && truthy (new attr)
          then change_of old new "column2" (change_of old new "column1" lines)
          else lines)
      else change_of old new attr reprs

  -- `report_generic`
  unfoldable pub report_generic : Item → Item → List String → Reprs → Reprs
  unfolding report_attr
  report_generic new old [] reprs = reprs
  report_generic new old (attr ∷ more) reprs =
      report_generic new old more (report_attr new old attr reprs)

-- `==` of two dictionaries with the same keys
unfoldable pub same : List String → Item → Item → Bool
same [] a b = true
same (key ∷ more) a b = same_value (a key) (b key) && same more a b

-- `l.remove(item)`, `none` where it raises
unfoldable pub remove_item : List String → Item → List Item → Option (List Item)
unfolding same
remove_item keys item [] = none
remove_item keys item (other ∷ more) =
    let rest = remove_item keys item more in
    if same keys other item
    then some more
    else elim rest [ none ↦ none | some l ↦ some (other ∷ l) ]
