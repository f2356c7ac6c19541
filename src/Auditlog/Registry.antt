-- ===== src/Auditlog/Registry.antt =====
-- The rules and the methods that they patch: `_register_hook`, `_patch_methods`, `_revert_methods`, and the
-- operations of a rule.
use oca_server_tools.Common.{
  ℕ, suc, String, Bool, true, false, not, ◌&&◌, ◌||◌, Option, none, some, List, [], ◌∷◌, ◌++◌, ◌==◌,
  str_eq, elem, all, keep, is_some, if◌then◌else◌,
}
use oca_server_tools.Common.Action.{Result, ok, err, Action, pure, ◌>>◌}
use oca_server_tools.Auditlog.{Method, create, read, write, unlink, export_data, Rule}
use oca_server_tools.Auditlog.Methods.{Patch}

abbrev index : Method → ℕ
index create = 0
index read = 1
index write = 2
index unlink = 3
index export_data = 4

unfoldable pub method_eq : Method → Method → Bool
method_eq a b = index a == index b

-- `auditlog.rule` and the shortcuts of `ir.actions.act_window`
pub record Db : Type 0 where
  pub rule : ℕ → Rule
  pub rule_ids : List ℕ
  pub next_rule : ℕ
  pub actions : List ℕ
  pub next_action : ℕ

-- The registry: the methods that are patched, the attributes `auditlog_ruled_*` of the models,
-- and how often the change of the registry was signalled.
pub record Registry : Type 0 where
  pub patched : String → Method → Option Patch
  pub ruled : String → Method → Bool
  pub model_cache : Option String → Bool
  pub signals : ℕ

pub record Server : Type 0 where
  pub db : Db
  pub registry : Registry

-- `UserError`, the `KeyError` of `self.env[model]`, the error of `delattr`, and the SQL constraint
pub data Error : Type 0 where
  user_error key_error attribute_error model_uniq : Error

abbrev pub M : Type 0 → Type 0
M A = Action Error Server A

-- `rule.model_id.model or rule.model_model`
abbrev pub model_or : Option String → String → String
model_or none model = model
model_or (some model) _ = model

abbrev pub model_of : Rule → String
model_of rule = model_or rule.model_id rule.model_model

abbrev pub patch_of : Rule → Patch
patch_of rule = record { log_type = rule.log_type; users_to_exclude = rule.users_to_exclude_ids }

-- `model._patch_method(...)` and `setattr(type(model), check_attr, True)`
abbrev pub set_patch : String → Method → Option Patch → Registry → Registry
set_patch model k patch reg = record reg {
  patched = λ m j. if str_eq model m && method_eq k j then patch else reg.patched m j;
  ruled = λ m j. if str_eq model m && method_eq k j then is_some patch else reg.ruled m j;
}

-- The test and the patch of one method, with `updated`
unfoldable pub patch_method : Rule → Method → Registry × Bool → Registry × Bool
patch_method rule k (reg, updated) =
    if rule.logs k && not (reg.ruled (model_of rule) k)
    then (set_patch (model_of rule) k (some (patch_of rule)) reg, true)
    else (reg, updated)

abbrev pub all_methods : List Method
all_methods = create ∷ read ∷ write ∷ unlink ∷ export_data ∷ []

unfoldable pub patch_each : Rule → List Method → Registry × Bool → Registry × Bool
unfolding patch_method
patch_each rule [] acc = acc
patch_each rule (k ∷ ks) acc = patch_each rule ks (patch_method rule k acc)

abbrev pub same_model : Option String → Option String → Bool
same_model none b = false
same_model (some a) none = false
same_model (some a) (some b) = str_eq a b

abbrev same_key : Option String → Option String → Bool
same_key none none = true
same_key none (some b) = false
same_key (some a) none = false
same_key (some a) (some b) = str_eq a b

-- `model_cache[rule.model_id.model] = rule.model_id.id`: the key is false where the model is gone.
abbrev pub cache_model : Option String → Registry → Registry
cache_model model reg = record reg {
  model_cache = λ m. if same_key model m then true else reg.model_cache m;
}

-- `if not self: self = self.search([("state", "=", "subscribed")])`
abbrev pub hook_ids : Db → List ℕ → List ℕ
hook_ids db [] = keep (λ id. (db.rule id).subscribed) db.rule_ids
hook_ids db (id ∷ ids) = id ∷ ids

abbrev pub signal : Registry × Bool → Registry
signal (reg, updated) = if updated then record reg { signals = suc reg.signals } else reg

-- The body of the inner loop of `_revert_methods`, with `updated`
unfoldable pub revert_method : Rule → Method → Registry × Bool → Registry × Bool
revert_method rule k (reg, updated) =
    if rule.logs k && is_some (reg.patched (model_of rule) k)
    then (set_patch (model_of rule) k none reg, true)
    else (reg, updated)

unfoldable pub revert_each : Rule → List Method → Registry × Bool → Registry × Bool
unfolding revert_method
revert_each rule [] acc = acc
revert_each rule (k ∷ ks) acc = revert_each rule ks (revert_method rule k acc)

-- The constraint `unique(model_id)`
unfoldable pub is_unique : Db → Bool
is_unique db =
    all
      (λ i.
        all (λ j. i == j || not (same_model (db.rule i).model_id (db.rule j).model_id)) db.rule_ids)
      db.rule_ids

-- What `vals` says: the new model, where `model_id` is given, and the other values.
pub record Vals : Type 0 where
  pub model_id : Option (Option String)
  pub change : Rule → Rule

abbrev pub with_model : Option (Option String) → Rule → Rule
with_model none rule = rule
with_model (some none) rule = record rule { model_id = none }
with_model (some (some model)) rule = record rule { model_id = some model; model_model = model }

abbrev pub is_empty_model : Option (Option String) → Bool
is_empty_model none = false
is_empty_model (some none) = true
is_empty_model (some (some model)) = false

abbrev pub set_rules : List ℕ → (Rule → Rule) → Db → Db
set_rules ids change db = record db {
  rule = λ i. if elem i ids then change (db.rule i) else db.rule i;
}

abbrev pub subscribed_vals : ℕ → Vals
subscribed_vals action = record {
  model_id = none;
  change = λ r. record r { subscribed = true; action_id = some action };
}

abbrev pub new_action : Server → Server
new_action s = record s {
  db = record s.db {
    actions = s.db.actions ++ s.db.next_action ∷ [];
    next_action = suc s.db.next_action;
  };
}

abbrev pub minus_action : Option ℕ → List ℕ → List ℕ
minus_action none actions = actions
minus_action (some a) actions = keep (λ b. not (b == a)) actions

-- `act_window.unlink()` for each rule that has one, and the rule's link is emptied.
unfoldable pub drop_actions : List ℕ → Db → Db
drop_actions [] db = db
drop_actions (id ∷ ids) db = drop_actions ids (record db {
  actions = minus_action (db.rule id).action_id db.actions;
  rule = λ i. if i == id then record (db.rule i) { action_id = none } else db.rule i;
})

abbrev pub draft_vals : Vals
draft_vals = record { model_id = none; change = λ r. record r { subscribed = false } }

abbrev pub signal_if_ok : Result Error Unit → Registry × Bool → Registry
signal_if_ok (ok u) acc = signal acc
signal_if_ok (err e) acc = acc.0

module _ (pool : String → Bool) where
  -- The body of the loop of `_patch_methods`
  unfoldable pub patch_rule : Rule → Registry × Bool → Registry × Bool
  unfolding patch_each
  patch_rule rule (reg, updated) =
      if not rule.subscribed || not (pool (model_of rule))
      then (reg, updated)
      else patch_each rule all_methods (cache_model rule.model_id reg, updated)

  -- `_patch_methods`
  unfoldable pub patch_methods : Db → List ℕ → Registry × Bool → Registry × Bool
  unfolding patch_rule
  patch_methods db [] acc = acc
  patch_methods db (id ∷ ids) acc = patch_methods db ids (patch_rule (db.rule id) acc)

  -- `_register_hook`
  unfoldable pub register_hook : List ℕ → Server → Registry × Bool
  unfolding patch_methods
  register_hook ids s = patch_methods s.db (hook_ids s.db ids) (s.registry, false)

  -- The signal of the change after a hook
  abbrev pub hook_and_signal : List ℕ → Server → Server
  hook_and_signal ids s = record s { registry = signal (register_hook ids s) }

  -- `_revert_methods`: `self.env[model]` raises for a model that is not in the pool.
  unfoldable pub revert_all : Db → List ℕ → Registry × Bool → Result Error Unit × (Registry × Bool)
  unfolding revert_each
  revert_all db [] acc = (ok tt, acc)
  revert_all db (id ∷ ids) acc =
      let rest = revert_all db ids (revert_each (db.rule id) all_methods acc) in
      if pool (model_of (db.rule id)) then rest else (err key_error, acc)

  unfoldable pub revert_methods : List ℕ → M Unit
  unfolding revert_all
  revert_methods ids s =
      let (r, acc) = revert_all s.db ids (s.registry, false) in
      (r, record s { registry = signal_if_ok r acc })

  -- `write`
  unfoldable pub write_rules : List ℕ → Vals → M Unit
  unfolding register_hook is_unique
  write_rules ids vals s =
      if is_empty_model vals.model_id
      then (err user_error, s)
      else (let db = set_rules ids (λ r. vals.change (with_model vals.model_id r)) s.db in
          if is_unique db
          then (ok tt, hook_and_signal ids (record s { db = db }))
          else (err model_uniq, s))

  -- `create` of one rule, whose model is given as `model_id`
  unfoldable pub create_rule : Rule → M ℕ
  unfolding register_hook is_unique
  create_rule rule s =
      if not (is_some rule.model_id)
      then (err user_error, s)
      else (let id = s.db.next_rule in
          let db = record s.db {
            rule =
                λ i. if i == id then record rule { model_model = model_of rule } else s.db.rule i;
            rule_ids = s.db.rule_ids ++ id ∷ [];
            next_rule = suc id;
          } in
          if is_unique db
          then (ok id, hook_and_signal (id ∷ []) (record s { db = db }))
          else (err model_uniq, s))

  -- `subscribe`
  unfoldable pub subscribe : List ℕ → M Unit
  unfolding write_rules
  subscribe [] = pure tt
  subscribe (id ∷ ids) =
      (λ s. write_rules (id ∷ []) (subscribed_vals s.db.next_action) (new_action s))
      >> subscribe ids

  -- `unsubscribe`
  unfoldable pub unsubscribe : List ℕ → M Unit
  unfolding revert_methods drop_actions write_rules
  unsubscribe ids =
      revert_methods ids
      >> (λ s. write_rules ids draft_vals (record s { db = drop_actions ids s.db }))

  -- `unlink`
  unfoldable pub unlink_rules : List ℕ → M Unit
  unfolding unsubscribe
  unlink_rules ids = unsubscribe ids >> (λ s. (
    ok tt,
    record s { db = record s.db { rule_ids = keep (λ i. not (elem i ids)) s.db.rule_ids } },
  ))
