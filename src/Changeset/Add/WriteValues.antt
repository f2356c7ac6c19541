-- ===== src/Changeset/Add/WriteValues.antt =====
-- The values that `add_changeset` leaves to write, and the changes that it collects.
use oca_server_tools.Common.{
  String, ◌≡◌, sym, ap, ◌∙◌, inl, inr, Bool, true, false, ◌&&◌, ◌||◌, Option, none, some, List, [],
  ◌∷◌, ◌++◌, append_assoc, append-nil, arith, Bool-cases, str_eq, eq_iff, if◌then◌else◌,
}
use oca_server_tools.Common.Dict.{Dict, lookup, remove, lookup-insert, lookup-remove}
use oca_server_tools.Common.Action.{ok, err, and_then-eq-ok}
use oca_server_tools.Changeset.Orm.{Orm, Ref}
use oca_server_tools.Changeset.Rules.{Rule}
use oca_server_tools.Changeset.Values.{ChangeVals, pops, prepare_changeset_change}
use oca_server_tools.Changeset.Add.{
  Pending, applies, default_value, take_out, record_change, add_field, add_fields,
}

module _ (o : Orm) (store : o.Store) (ref : Ref) (create : Bool)
    (rule_for : String → Option Rule) where
  -- A rule holds the value of the field back: it applies, and its action is not "auto".
  abbrev pub held_by : Option Rule → String → o.Value → Bool
  held_by none field value = false
  held_by (some rule) field value = applies o store ref create rule field value && pops rule.action

  -- The field `f` is among the values, and a rule holds it back.
  abbrev pub held : String → Dict o.Value → Bool
  held f [] = false
  held f ((field, value) ∷ values) =
      str_eq field f && held_by (rule_for field) field value || held f values

  -- What is left to write under a field that is held back.
  abbrev pub left_for : String → Option o.Value
  left_for f = if create then some (default_value o ref f) else none

  lookup-take_out :
      (field f : String) (w : Dict o.Value)
      → lookup f (take_out o ref create field w)
        ≡ (if str_eq field f then left_for field else lookup f w)
  unfolding take_out
  lookup-take_out field f w = ground (
    arith,
    lookup-insert field f (default_value o ref field) (remove field w),
    lookup-remove field f w,
  )

  pops-prepare :
      (rule : Rule) (field : String) (value : o.Value) {c : ChangeVals o} {p : Bool}
      → prepare_changeset_change o store ref rule field value create ≡ ok (c, p)
      → p ≡ pops rule.action
  unfolding prepare_changeset_change
  pops-prepare rule field value h = ground arith

  lookup-record_change :
      (field f : String) (acc : Pending o) (c : ChangeVals o) (p : Bool)
      → lookup f (record_change o ref create field acc (c, p)).write_values
        ≡ (if str_eq field f && p then left_for f else lookup f acc.write_values)
  unfolding record_change
  lookup-record_change field f acc c p =
      ground (arith, lookup-take_out field f acc.write_values, eq_iff field f)

  -- A round of the loop that succeeds has prepared a change, or found that the rule does not apply.
  data Round (field : String) (value : o.Value) (rule : Rule) (acc res : Pending o) : Type 0 where
    added :
        (c : ChangeVals o) (p : Bool)
        → applies o store ref create rule field value ≡ true
        → prepare_changeset_change o store ref rule field value create ≡ ok (c, p)
        → res ≡ record_change o ref create field acc (c, p)
        → Round field value rule acc res
    passed :
        applies o store ref create rule field value ≡ false
        → res ≡ acc
        → Round field value rule acc res

  add_field-Round :
      (field : String) (value : o.Value) (rule : Rule) (acc : Pending o) {res : Pending o}
      → add_field o store ref create field value (some rule) acc ≡ ok res
      → Round field value rule acc res
  unfolding add_field
  add_field-Round field value rule acc h =
      elim (Bool-cases (applies o store ref create rule field value)) [
        | inl e ↦
            let ((c, p), prepared, recorded) =
              and_then-eq-ok (prepare_changeset_change o store ref rule field value create)
                (λ prepared. ok (record_change o ref create field acc prepared)) (rw e at h) in
            added c p e prepared (cc recorded)
        | inr e ↦ passed e (cc (rw e at h))
      ]

  lookup-Round :
      (field f : String) (value : o.Value) (rule : Rule) {acc res : Pending o}
      → Round field value rule acc res
      → lookup f res.write_values ≡ (
          if str_eq field f && held_by (some rule) field value
          then left_for f
          else lookup f acc.write_values)
  lookup-Round field f value rule {acc} {res} (added c p e prepared same) = ground (
    arith,
    lookup-record_change field f acc c p,
    pops-prepare rule field value prepared,
    ap (λ r. lookup f r.write_values) same,
  )
  lookup-Round field f value rule {acc} {res} (passed e same) =
      ground (arith, ap (λ r. lookup f r.write_values) same)

  lookup-add_field :
      (field f : String) (value : o.Value) (rule : Option Rule) (acc res : Pending o)
      → add_field o store ref create field value rule acc ≡ ok res
      → lookup f res.write_values ≡ (
          if str_eq field f && held_by rule field value
          then left_for f
          else lookup f acc.write_values)
  unfolding add_field
  lookup-add_field field f value none acc res h = ground arith
  lookup-add_field field f value (some rule) acc res h =
      lookup-Round field f value rule (add_field-Round field value rule acc h)

  -- Where the loop ends with no error, it has taken out of the values exactly the fields that a rule
  -- holds back, and put the default value in the place of each in a create.
  pub lookup-add_fields :
      (f : String) (values : Dict o.Value) (acc res : Pending o)
      → add_fields o store ref create rule_for values acc ≡ ok res
      → lookup f res.write_values
        ≡ (if held f values then left_for f else lookup f acc.write_values)
  unfolding add_fields
  lookup-add_fields f [] acc res h = ground arith
  lookup-add_fields f ((field, value) ∷ values) acc res h =
      let (mid, first, rest) =
        and_then-eq-ok (add_field o store ref create field value (rule_for field) acc)
          (add_fields o store ref create rule_for values) h in
      ground (
        arith,
        lookup-add_fields f values mid res rest,
        lookup-add_field field f value (rule_for field) acc mid first,
      )

  -- The changes that a list of values calls for, in order: one for each field with a rule that applies.
  abbrev pub expected_for : String → o.Value → Option Rule → List (ChangeVals o)
  expected_for field value none = []
  expected_for field value (some rule) =
      if applies o store ref create rule field value
      then elim (prepare_changeset_change o store ref rule field value create) [
        | ok (c, _) ↦ c ∷ []
        | err _ ↦ []
      ]
      else []

  abbrev pub expected : Dict o.Value → List (ChangeVals o)
  expected [] = []
  expected ((field, value) ∷ values) = expected_for field value (rule_for field) ++ expected values

  changes-add_field :
      (field : String) (value : o.Value) (rule : Option Rule) (acc res : Pending o)
      → add_field o store ref create field value rule acc ≡ ok res
      → res.changes ≡ acc.changes ++ expected_for field value rule
  unfolding add_field
  changes-add_field field value none acc res h = ground (arith, append-nil acc.changes)
  changes-add_field field value (some rule) acc res h =
      from_Round (add_field-Round field value rule acc h)
    where
      from_Round :
          Round field value rule acc res
          → res.changes ≡ acc.changes ++ expected_for field value (some rule)
      from_Round (added c p e prepared same) = rw (e, prepared) (ap (λ r. r.changes) same)
      from_Round (passed e same) = rw e (ap (λ r. r.changes) same ∙ sym (append-nil acc.changes))

  -- The changes collected are the expected ones, in the order of the values.
  pub changes-add_fields :
      (values : Dict o.Value) (acc res : Pending o)
      → add_fields o store ref create rule_for values acc ≡ ok res
      → res.changes ≡ acc.changes ++ expected values
  unfolding add_fields
  changes-add_fields [] acc res h = ground (arith, append-nil acc.changes)
  changes-add_fields ((field, value) ∷ values) acc res h =
      let (mid, first, rest) =
        and_then-eq-ok (add_field o store ref create field value (rule_for field) acc)
          (add_fields o store ref create rule_for values) h in
      changes-add_fields values mid res rest
      ∙ ap (λ l. l ++ expected values)
          (changes-add_field field value (rule_for field) acc mid first)
      ∙ append_assoc acc.changes (expected_for field value (rule_for field)) (expected values)
