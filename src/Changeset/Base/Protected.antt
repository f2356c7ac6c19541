-- ===== src/Changeset/Base/Protected.antt =====
-- What a tracked write hands to the overridden `write`, and how it ends.
use oca_server_tools.Common.{
  ℕ, String, ◌≡◌, ◌≢◌, refl, inl, inr, Bool-cases, Option-cases, All, ◌==◌, subst, ap, Bool, true,
  false, Option, none, some, List, [], ◌∷◌, arith, if◌then◌else◌,
}
use oca_server_tools.Common.Dict.{Dict, lookup}
use oca_server_tools.Common.Action.{Result, ok, err}
use oca_server_tools.Changeset.Orm.{Orm, Ref, type_to_suffix}
use oca_server_tools.Changeset.Rules.{Rule, Search, browse, compute_rules}
use oca_server_tools.Changeset.Values.{ChangeVals, get_field_for_type, prepare_changeset_change}
use oca_server_tools.Changeset.State.{Db, Env, Error, raised}
use oca_server_tools.Changeset.Add.{
  Pending, add_changeset, add_field, add_fields, applies, record_change, rules_for, rule_getter,
  save_changes, source_model_of,
}
use oca_server_tools.Changeset.Add.WriteValues.{held, expected}
use oca_server_tools.Changeset.Add.Recorded.{Recorded, lookup-add_changeset, add_changeset-Recorded}
use oca_server_tools.Changeset.Base.{changeset_disabled, write_record, write}

module _ (o : Orm) (store : o.Store) (ref : Ref) (create : Bool)
    (rule_for : String → Option Rule) where
  -- Every rule that may be met is on a field of a type that a change can hold.
  abbrev pub Supported : Type 0
  Supported =
      (f : String) (rule : Rule) → rule_for f ≡ some rule → type_to_suffix rule.field.ttype ≢ none

  prepare_total :
      (rule : Rule) (field : String) (value : o.Value)
      → type_to_suffix rule.field.ttype ≢ none
      → (p : ChangeVals o × Bool) × (prepare_changeset_change o store ref rule field value create
          ≡ ok p)
  unfolding prepare_changeset_change
  prepare_total rule field value h = elim (Option-cases (type_to_suffix rule.field.ttype)) [
    | inl e ↦ absurd (h e)
    | inr (s, e) ↦ rw (e, get_field_for_type, prepare_changeset_change) (_, refl)
  ]

  add_field_total :
      (field : String) (value : o.Value) (rule : Option Rule) (acc : Pending o)
      → ((r : Rule) → rule ≡ some r → type_to_suffix r.field.ttype ≢ none)
      → (res : Pending o) × (add_field o store ref create field value rule acc ≡ ok res)
  unfolding add_field
  add_field_total field value none acc h = (acc, refl)
  add_field_total field value (some rule) acc h =
      elim (Bool-cases (applies o store ref create rule field value)) [
        | inl e ↦
            let (p, prepared) = prepare_total rule field value (h rule refl) in
            rw (e, prepared) (record_change o ref create field acc p, refl)
        | inr e ↦ rw e (acc, refl)
      ]

  add_fields_total :
      (values : Dict o.Value) (acc : Pending o)
      → Supported
      → (res : Pending o) × (add_fields o store ref create rule_for values acc ≡ ok res)
  unfolding add_fields
  add_fields_total [] acc h = (acc, refl)
  add_fields_total ((field, value) ∷ values) acc h =
      let (mid, first) = add_field_total field value (rule_for field) acc (h field) in
      let (res, rest) = add_fields_total values mid h in rw first (res, rest)

module _ (o : Orm) (search : Search) (env : Env) (values : Dict o.Value) (ref : Ref)
    (db : Db o) where
  add_changeset_total :
      (create : Bool)
      → Supported o db.store ref create (rules_for o search env db ref)
      → (w : Dict o.Value) × (mid : Db o) × (add_changeset o search env ref values create db
          ≡ (ok w, mid))
  unfolding add_changeset
  add_changeset_total create h =
      let (acc, looped) =
        add_fields_total o db.store ref create (rules_for o search env db ref) values
          (record { write_values = values; changes = [] }) h in
      rw looped (acc.write_values, save_changes o env ref acc.changes db, refl)

  -- How a tracked write ends when the overridden `write` ends with `r`: with `True`, or with its error.
  abbrev pub write_ends : Db o → Result String Unit × o.Store → Result Error Bool × Db o
  write_ends mid (ok u, store) = (ok true, record mid { store = store })
  write_ends mid (err e, store) = (err (raised e), record mid { store = store })

  write-ends :
      (w : Dict o.Value) (mid : Db o) (r : Result String Unit × o.Store)
      → changeset_disabled env db.rules ref.model ≡ false
      → add_changeset o search env ref values false db ≡ (ok w, mid)
      → o.super_write ref w mid.store ≡ r
      → write o search env ref.model (ref ∷ []) values db ≡ write_ends mid r
  unfolding write write_record
  write-ends w mid (ok u, store) tracked added e = rw (tracked, added, e) refl
  write-ends w mid (err x, store) tracked added e = rw (tracked, added, e) refl

  -- A tracked write of one record that exists and can be read, where every rule met is on a field of a type
  -- that a change can hold and no expression of a rule raises: exactly one call of the overridden `write` is
  -- made, on the record as it was, with the values given less each field that a rule holds back, after the
  -- expected changes are recorded in one new changeset. The tracked write ends as that call does: it returns
  -- `True` if the call returns, raises the error that the call raises, and leaves the records as the call does.
  pub write-Written :
      changeset_disabled env db.rules ref.model ≡ false
      → Supported o db.store ref false (rules_for o search env db ref)
      → (w : Dict o.Value) × (mid : Db o) × ((f : String)
          → lookup f w ≡ (
              if held o db.store ref false (rules_for o search env db ref) f values
              then none
              else lookup f values))
        × Recorded o env ref
            (expected o db.store ref false (rules_for o search env db ref) values)
            db
            mid
        × (write o search env ref.model (ref ∷ []) values db
            ≡ write_ends mid (o.super_write ref w db.store))
  write-Written tracked h =
      let (w, mid, added) = add_changeset_total false h in
      let recorded = add_changeset-Recorded o search env ref values false db mid added in
      (
        w,
        mid,
        lookup-add_changeset o search env ref values false db mid added,
        recorded,
        write-ends w mid (o.super_write ref w db.store) tracked added
            (ap (o.super_write ref w) recorded.store_kept),
      )

browse-All :
    (P : Rule → Type 0) (rows : List Rule) (id : ℕ) {r : Rule}
    → All P rows
    → browse rows id ≡ some r
    → P r
unfolding browse
browse-All P [] id h e = cc
browse-All P (x ∷ xs) id {r} h e = elim (Bool-cases (x.id == id)) [
  | inl same ↦ let is_x : x ≡ r = ground arith in subst P is_x h.0
  | inr other ↦ browse-All P xs id h.1 (ground arith)
]

-- It is enough that every rule of the table is on a field of a type that a change can hold.
pub All-Supported :
    (o : Orm) (search : Search) (env : Env) (db : Db o) (ref : Ref) (create : Bool)
    → All (λ r. type_to_suffix r.field.ttype ≢ none) db.rules
    → Supported o db.store ref create (rules_for o search env db ref)
unfolding rule_getter
All-Supported o search env db ref create h f r e =
    elim (Option-cases (lookup f (compute_rules search db.rules (source_model_of env) ref.model))) [
      | inl missing ↦ cc (rw (missing, rule_getter) at e)
      | inr (id, found) ↦
          browse-All (λ r. type_to_suffix r.field.ttype ≢ none) db.rules id h
            (rw (found, rule_getter) at e)
    ]
