-- ===== src/Changeset/Rules.antt =====
-- changeset_field_rule.py: which rule applies to which field, and the cache of the answer.
pub mod Precedence
pub mod Cached
use oca_server_tools.Common.{
  ℕ, String, Bool, true, false, not, ◌&&◌, ◌||◌, Option, none, some, List, [], ◌∷◌, ◌==◌, str_eq,
  if◌then◌else◌,
}
use oca_server_tools.Common.Dict.{Dict, lookup, insert}
use oca_server_tools.Common.Action.{Action, Result, ok, err, pure, ◌>>=◌, ◌>>◌}
use oca_server_tools.Changeset.Orm.{Field, Orm, Ref}

-- `_selection_action`
pub data RuleAction : Type 0 where
  auto validate never : RuleAction

pub record Rule : Type 0 where
  pub id : ℕ
  pub field : Field
  pub action : RuleAction
  pub source_model : Option String
  pub prevent_self_validation : Bool
  pub expression : String
  pub validator_groups : List ℕ

unfoldable pub source_is : String → Option String → Bool
source_is name none = true
source_is name (some m) = str_eq m name

-- `_get_rules_search_domain`, as the test that the domain makes on a rule
unfoldable pub in_search_domain : String → String → Rule → Bool
unfolding source_is
in_search_domain source_model_name record_model_name rule =
    str_eq rule.field.model record_model_name && source_is source_model_name rule.source_model

-- `result.get(name)` as a test: a missing key and the id 0 count as false.
abbrev pub truthy_id : Option ℕ → Bool
truthy_id none = false
truthy_id (some n) = not (n == 0)

-- The loop of `_get_rules` over the rules that `search` found.
unfoldable pub first_rules : Dict ℕ → List Rule → Dict ℕ
first_rules result [] = result
first_rules result (rule ∷ rules) =
    first_rules
      (if truthy_id (lookup rule.field.name result)
        then result
        else insert rule.field.name rule.id result)
      rules

-- `search(domain, order="source_model_id ASC")` of the ORM, over the rows of the table.
abbrev pub Search : Type 0
Search = (Rule → Bool) → List Rule → List Rule

-- `_get_rules` without its cache
unfoldable pub compute_rules : Search → List Rule → String → String → Dict ℕ
unfolding first_rules in_search_domain
compute_rules search rows source_model_name record_model_name =
    first_rules [] (search (in_search_domain source_model_name record_model_name) rows)

-- The table with its `ormcache`: the answers kept, by source model and record model.
pub record RuleBase : Type 0 where
  pub rows : List Rule
  pub cache : String → String → Option (Dict ℕ)

abbrev pub cached : Option (Dict ℕ) → Dict ℕ → Dict ℕ
cached none fresh = fresh
cached (some kept) fresh = kept

-- `self.browse(rule_id)`, with the row that its fields are read from.
unfoldable pub browse : List Rule → ℕ → Option Rule
browse [] id = none
browse (rule ∷ rules) id = if rule.id == id then some rule else browse rules id

-- `_get_rules` behind `@ormcache`: a hit is returned as it is, a miss is computed and kept.
unfoldable pub cached_rules : Search → String → String → RuleBase → Dict ℕ × RuleBase
cached_rules search source model base =
    let result = cached (base.cache source model) (compute_rules search base.rows source model) in
    (
      result,
      record base {
        cache = λ s m. if str_eq s source && str_eq m model then some result else base.cache s m;
      },
    )

-- `for field, rule_id in cached_rules.items(): rules[field] = self.browse(rule_id)`
unfoldable pub browse_rules : List Rule → Dict (Option Rule) → Dict ℕ → Dict (Option Rule)
unfolding browse
browse_rules rows rules [] = rules
browse_rules rows rules ((field, rule_id) ∷ items) =
    browse_rules rows (insert field (browse rows rule_id) rules) items

unfoldable pub get_rules : Search → String → String → RuleBase → Dict (Option Rule) × RuleBase
unfolding cached_rules browse_rules
get_rules search source model base =
    let (kept, after) = cached_rules search source model base in
    (browse_rules after.rows [] kept, after)

unfoldable pub clear_caches : Action String RuleBase Unit
clear_caches base = (ok tt, record base { cache = λ s m. none })

abbrev in_rows : {A : Type 0} → Action String (List Rule) A → Action String RuleBase A
in_rows super base = let (result, rows) = super base.rows in (result, record base { rows = rows })

-- The three methods that change rules. The overridden one is a parameter; it may raise.
unfoldable pub create :
    {Vals : Type 0}
    → (List Vals → Action String (List Rule) (List ℕ))
    → List Vals
    → Action String RuleBase (List ℕ)
unfolding clear_caches
create super vals_list = do rules ← in_rows (super vals_list); clear_caches; pure rules

unfoldable pub write :
    {Vals : Type 0}
    → (List ℕ → Vals → Action String (List Rule) Bool)
    → List ℕ
    → Vals
    → Action String RuleBase Bool
unfolding clear_caches
write super ids vals = do result ← in_rows (super ids vals); clear_caches; pure result

unfoldable pub unlink :
    (List ℕ → Action String (List Rule) Bool) → List ℕ → Action String RuleBase Bool
unfolding clear_caches
unlink super ids = do result ← in_rows (super ids); clear_caches; pure result

module _ (o : Orm) where
  -- `_evaluate_expression`
  unfoldable pub evaluate_expression : o.Store → Ref → Rule → Bool
  evaluate_expression store ref rule =
      str_eq rule.expression "" || o.safe_eval rule.expression store ref
