-- ===== src/Changeset/Tests.antt =====
-- Runs of base_changeset on the small state, and the theorems at concrete inputs.
use oca_server_tools.Common.{
  ℕ, String, List, ◌++◌, ◌≡◌, ◌≢◌, refl, true, false, none, some, [], ◌∷◌, map, All, Bool-cases,
  inl, inr, ◌==◌, if◌then◌else◌,
}
use oca_server_tools.Common.Dict.{Dict, lookup, insert, remove}
use oca_server_tools.Common.Action.{ok, err, Result}
use oca_server_tools.Changeset.Orm.{ref_eq, type_to_suffix, Ttype, Suffix}
use oca_server_tools.Changeset.Rules.{
  Rule, RuleAction, compute_rules, in_search_domain, browse, get_rules, create, browse_rules,
  cached_rules, first_rules, RuleBase,
}
use oca_server_tools.Changeset.Rules.Cached.{committed}
use oca_server_tools.Changeset.State.{
  user_can_validate, Change, ChangeState, Db, Env, user_error, missing_record, raised,
}
use oca_server_tools.Changeset.Values.{
  convert_value_for_write, get_field_for_type, prepare_changeset_change,
}
use oca_server_tools.Changeset.Add.{rules_for}
use oca_server_tools.Changeset.Add.WriteValues.{held, expected}
use oca_server_tools.Changeset.Add.Recorded.{Recorded}
use oca_server_tools.Changeset.Base.{write, changeset_disabled}
use oca_server_tools.Changeset.Base.Protected.{write_ends, All-Supported, write-Written}
use oca_server_tools.Changeset.Apply.{apply, cancel_changes}
use oca_server_tools.Changeset.Apply.Approved.{Approved}
use oca_server_tools.Changeset.Apply.Collect.{to_write}
use oca_server_tools.Changeset.Apply.Ended.{ApplyEnds, apply-ApplyEnds}
use oca_server_tools.Changeset.Apply.Rejected.{Rejected, cancel_changes-Rejected}
use oca_server_tools.Changeset.Apply.Refused.{Barred-refused, own_change}
use oca_server_tools.Changeset.Samples.{
  orm, Val, search_rules, sort_ids, sort_ids-IsSorted, rows, rule, partner, db, user, new_values,
  no_change, field, str, no_value,
}

abbrev after_write : Db orm
after_write = (write orm search_rules (user 9) "res.partner" (partner ∷ []) new_values db).1

-- "name" waits for approval, "street" is refused, "email" is written.
write_runs :
    (after_write.store partner "name" ≡ str "Ann")
    × (after_write.store partner "street" ≡ no_value)
    × (after_write.store partner "email" ≡ str "b@x")
    × (map (λ i. (after_write.change i).state) (1 ∷ 2 ∷ 3 ∷ [])
        ≡ ChangeState.draft ∷ ChangeState.cancel ∷ ChangeState.done ∷ [])
unfolding write insert prepare_changeset_change ref_eq remove
write_runs = (refl, refl, refl, refl)

rows_supported : All (λ r. type_to_suffix r.field.ttype ≢ none) rows
unfolding type_to_suffix
rows_supported = (λ e. cc, (λ e. cc, (λ e. cc, (λ e. cc, tt))))

-- The record with the id 99 is deleted: the overridden `write` raises, and so does the tracked one.
write_raises :
    (write orm search_rules
      (user 9)
      "res.partner"
      (record partner { id = 99 } ∷ [])
      (("email", str "b@x") ∷ [])
      db).0
    ≡ err (raised "MissingError")
unfolding write insert prepare_changeset_change
write_raises = refl

write-Written_example :
    (w : Dict Val) × (mid : Db orm) × ((f : String)
      → lookup f w ≡ (
          if held orm db.store partner false
            (rules_for orm search_rules (user 9) db partner)
            f
            new_values
          then none
          else lookup f new_values))
    × Recorded orm
        (user 9)
        partner
        (expected orm db.store partner false
          (rules_for orm search_rules (user 9) db partner)
          new_values)
        db
        mid
    × (write orm search_rules (user 9) "res.partner" (partner ∷ []) new_values db
        ≡ write_ends orm search_rules
            (user 9)
            new_values
            partner
            db
            mid
            (orm.super_write partner w db.store))
unfolding changeset_disabled
write-Written_example =
    write-Written orm search_rules (user 9) new_values partner db refl
      (All-Supported orm search_rules (user 9) db partner false rows_supported)

-- Two pending changes of one changeset, which user 9 asked for: the name and then the street.
abbrev pending_change : ℕ → Change orm
pending_change i =
    if i == 1
    then record no_change { changeset = 1; rule = some 1; new_value = λ s. str "Bob" }
    else record no_change {
      changeset = 1;
      field = field "street" Ttype.char;
      new_value = λ s. str "Main";
    }

abbrev db2 : Db orm
db2 = record db {
  change = pending_change;
  changeset = λ c. record {
    target = partner;
    change_ids = 1 ∷ 2 ∷ [];
    date = 5;
    modified_by = 9;
    source = none;
    company = 1;
  };
  changeset_ids = 1 ∷ [];
}

manager : Env
manager = record (user 8) { is_changeset_user = true }

all_storable : (i : ℕ) → (suffix : Suffix) × (get_field_for_type (db2.change i).field ≡ ok suffix)
unfolding get_field_for_type
all_storable i = (Suffix.char, elim (Bool-cases (i == 1)) [ inl e ↦ rw e | inr e ↦ rw e ])

apply_runs :
    ((apply orm search_rules sort_ids manager (1 ∷ 2 ∷ []) db2).1.store partner "name" ≡ str "Bob")
    × ((apply orm search_rules sort_ids (user 9) (1 ∷ 2 ∷ []) db2).0 ≡ err user_error)
unfolding apply manager insert ref_eq lookup convert_value_for_write get_field_for_type
apply_runs = (refl, refl)

apply-ApplyEnds_example :
    (values : Dict Val) × ((f : String) → lookup f values ≡ to_write db2 (1 ∷ 2 ∷ []) f)
    × ApplyEnds manager
        (1 ∷ 2 ∷ [])
        db2
        values
        (orm.super_write (db2.changeset 1).target values db2.store)
        (apply orm search_rules sort_ids manager (1 ∷ 2 ∷ []) db2)
unfolding user_can_validate manager
apply-ApplyEnds_example =
    apply-ApplyEnds search_rules sort_ids sort_ids-IsSorted manager 1 1 (2 ∷ []) db2 refl refl
      (λ i h. all_storable i) (refl, (refl, tt)) refl

abbrev db_gone : Db orm
db_gone = record db2 {
  changeset = λ c. record (db2.changeset c) { target = record partner { id = 99 } };
}

-- Where the record was deleted, approval and rejection both raise.
deleted_raises :
    ((apply orm search_rules sort_ids manager (1 ∷ 2 ∷ []) db_gone).0 ≡ err missing_record)
    × ((cancel_changes orm manager (1 ∷ 2 ∷ []) db_gone).0 ≡ err missing_record)
unfolding apply cancel_changes manager insert lookup convert_value_for_write get_field_for_type
deleted_raises = (refl, refl)

cancel_changes-Rejected_example :
    (db' : Db orm) × (cancel_changes orm manager (1 ∷ 2 ∷ []) db2 ≡ (ok tt, db'))
    × Rejected manager (1 ∷ 2 ∷ []) db2 db'
unfolding user_can_validate manager
cancel_changes-Rejected_example =
    cancel_changes-Rejected manager (1 ∷ 2 ∷ []) db2 refl refl (λ i h. all_storable i) (λ i h. refl)

-- User 9 made change 1, and its rule prevents self validation.
Barred-refused_example :
    (apply orm search_rules sort_ids (user 9) (2 ∷ 1 ∷ []) db2 ≡ (err user_error, db2))
    × (cancel_changes orm (user 9) (2 ∷ 1 ∷ []) db2 ≡ (err user_error, db2))
unfolding browse
Barred-refused_example =
    Barred-refused search_rules sort_ids (user 9) (2 ∷ 1 ∷ []) db2 1 refl (own_change refl refl)

abbrev base : RuleBase
base = record { rows = rows; cache = λ s m. none }

-- The overridden `create` of the test appends a row.
abbrev adds_rule : List Rule → List Rule → Result String (List ℕ) × List Rule
adds_rule vals_list table = (ok (9 ∷ []), table ++ vals_list)

abbrev phone_rule : Rule
phone_rule = rule 9 "phone" RuleAction.validate none

-- A first answer is cached, then a rule is created.
abbrev looked_up : RuleBase
looked_up = (get_rules search_rules "backend" "res.partner" base).1

abbrev extended : RuleBase
extended = committed looked_up (create adds_rule (phone_rule ∷ []) looked_up)

-- The new rule is answered, and not what was cached.
new_rule_is_found :
    lookup "phone" (get_rules search_rules "backend" "res.partner" extended).0
    ≡ some (some phone_rule)
unfolding get_rules cached_rules browse_rules create compute_rules first_rules in_search_domain
    lookup insert
new_rule_is_found = refl
