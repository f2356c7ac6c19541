-- ===== src/Changeset/Add/Recorded.antt =====
-- The changeset that `add_changeset` creates.
use oca_server_tools.Common.{
  ℕ, ◌+◌, ◌<◌, String, ◌≡◌, refl, sym, subst, ap, ap₂, ◌∙◌, Bool, List, [], ◌∷◌, map, arith,
  if◌then◌else◌, ◌==◌, ==_refl,
}
use oca_server_tools.Common.Dict.{Dict, lookup}
use oca_server_tools.Common.Action.{Result, ok, err}
use oca_server_tools.Changeset.Orm.{Orm, Ref}
use oca_server_tools.Changeset.Rules.{Search}
use oca_server_tools.Changeset.Values.{ChangeVals}
use oca_server_tools.Changeset.State.{Change, Db, Env, Error}
use oca_server_tools.Changeset.Add.{
  Pending, add_changeset, finish_add, ids_from, new_change, new_changes, rules_for, save_changes,
}
use oca_server_tools.Changeset.Add.WriteValues.{
  held, left_for, expected, lookup-add_fields, changes-add_fields,
}

module _ (o : Orm) where
  new_changes_below :
      (changeset next : ℕ) (l : List (ChangeVals o)) (change : ℕ → Change o) (i : ℕ)
      → i < next
      → new_changes o changeset next l change i ≡ change i
  unfolding new_changes
  new_changes_below changeset next [] change i h = refl
  new_changes_below changeset next (c ∷ l) change i h =
      new_changes_below changeset (next + 1) l _ i (omega arith) ∙ ground arith

  new_changes_at :
      (changeset next : ℕ) (c : ChangeVals o) (l : List (ChangeVals o)) (change : ℕ → Change o)
      → new_changes o changeset next (c ∷ l) change next ≡ new_change o changeset c
  unfolding new_changes
  new_changes_at changeset next c l change =
      new_changes_below changeset (next + 1) l _ next (omega arith) ∙ ground arith

  abbrev with_next : ℕ → ℕ → ChangeVals o → (ℕ → Change o) → ℕ → Change o
  with_next changeset next c change i = if i == next then new_change o changeset c else change i

  new_changes-cons :
      (changeset next : ℕ) (c : ChangeVals o) (l : List (ChangeVals o)) (change : ℕ → Change o)
      → new_changes o changeset next (c ∷ l) change
        ≡ new_changes o changeset (next + 1) l (with_next changeset next c change)
  unfolding new_changes
  new_changes-cons changeset next c l change = refl

  map-new_changes :
      (changeset next : ℕ) (l : List (ChangeVals o)) (change : ℕ → Change o)
      → map (new_changes o changeset next l change) (ids_from o next l)
        ≡ map (new_change o changeset) l
  unfolding ids_from
  map-new_changes changeset next [] change = refl
  map-new_changes changeset next (c ∷ l) change =
      ap₂ (λ x xs. x ∷ xs) (new_changes_at changeset next c l change)
        (ap (λ f. map f (ids_from o (next + 1) l)) (new_changes-cons changeset next c l change)
          ∙ map-new_changes changeset (next + 1) l (with_next changeset next c change))

  -- What has become of the state when `changes` were collected for the record `ref`.
  pub record Recorded (env : Env) (ref : Ref) (changes : List (ChangeVals o)) (db db' : Db o)
      : Type 0 where
    pub store_kept : db'.store ≡ db.store
    pub rules_kept : db'.rules ≡ db.rules
    pub changes_kept : (i : ℕ) → i < db.next_change → db'.change i ≡ db.change i
    pub changesets_kept : (c : ℕ) → c < db.next_changeset → db'.changeset c ≡ db.changeset c
    pub nothing : changes ≡ [] → db' ≡ db
    pub created :
        (c : ChangeVals o) (cs : List (ChangeVals o))
        → changes ≡ c ∷ cs
        → ((db'.changeset db.next_changeset).target ≡ ref)
          × ((db'.changeset db.next_changeset).modified_by ≡ env.uid)
          × (map db'.change (db'.changeset db.next_changeset).change_ids
              ≡ map (new_change o db.next_changeset) changes)

  save_changes-Recorded :
      (env : Env) (ref : Ref) (changes : List (ChangeVals o)) (db : Db o)
      → Recorded env ref changes db (save_changes o env ref changes db)
  unfolding save_changes
  save_changes-Recorded env ref [] db = record {
    store_kept = refl;
    rules_kept = refl;
    changes_kept = λ i h. refl;
    changesets_kept = λ c h. refl;
    nothing = λ e. refl;
    created = λ c cs e. cc;
  }
  save_changes-Recorded env ref (c ∷ l) db = record {
    store_kept = refl;
    rules_kept = refl;
    changes_kept = λ i h. new_changes_below db.next_changeset db.next_change (c ∷ l) db.change i h;
    changesets_kept = λ i h. ground arith;
    nothing = λ e. cc;
    created = λ x xs e.
        rw (==_refl db.next_changeset)
          (refl, refl, map-new_changes db.next_changeset db.next_change (c ∷ l) db.change);
  }

  finish_add-eq-ok :
      (env : Env) (ref : Ref) (r : Result Error (Pending o)) (db db' : Db o) {w : Dict o.Value}
      → finish_add o env ref r db ≡ (ok w, db')
      → (acc : Pending o) × (r ≡ ok acc)
        × (acc.write_values ≡ w)
        × (save_changes o env ref acc.changes db ≡ db')
  finish_add-eq-ok env ref (ok acc) db db' h = (acc, refl, cc (ap (λ p. p.0) h), ap (λ p. p.1) h)
  finish_add-eq-ok env ref (err e) db db' h = cc (ap (λ p. p.0) h)

  module _ (search : Search) (env : Env) (ref : Ref) (values : Dict o.Value) (create : Bool)
      (db db' : Db o) {w : Dict o.Value}
      (added : add_changeset o search env ref values create db ≡ (ok w, db')) where
    -- Where `add_changeset` returns, the values to write are those given, without the fields that a rule
    -- holds back; in a create these have their default value.
    pub lookup-add_changeset :
        (f : String)
        → lookup f w ≡ (
            if held o db.store ref create (rules_for o search env db ref) f values
            then left_for o db.store ref create (rules_for o search env db ref) f
            else lookup f values)
    unfolding add_changeset
    lookup-add_changeset f =
        let (acc, looped, left, saved) = finish_add-eq-ok env ref _ db db' added in
        ap (lookup f) (sym left)
        ∙ lookup-add_fields o db.store ref create (rules_for o search env db ref) f values _ acc
            looped

    -- Where `add_changeset` returns, it has created one changeset of the expected changes, or none if
    -- there are none, and has touched nothing else.
    pub add_changeset-Recorded :
        Recorded env ref
          (expected o db.store ref create (rules_for o search env db ref) values)
          db
          db'
    unfolding add_changeset
    add_changeset-Recorded =
        let (acc, looped, left, saved) = finish_add-eq-ok env ref _ db db' added in
        subst
          (λ d.
            Recorded env ref (expected o db.store ref create (rules_for o search env db ref) values)
              db d)
          saved
          (subst (λ l. Recorded env ref l db (save_changes o env ref acc.changes db))
            (changes-add_fields o db.store ref create (rules_for o search env db ref) values _ acc
              looped)
            (save_changes-Recorded env ref acc.changes db))
