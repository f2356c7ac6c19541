-- ===== src/Changeset/Apply/Collect.antt =====
-- What an approval that returns has done to the changes.
use oca_server_tools.Common.{
  ℕ, String, ◌≡◌, refl, sym, ap, ap₂, str_eq, Option, some, elem-append, or_else, ◌∙◌, subst, Bool,
  true, false, none, not, ◌&&◌, ◌||◌, List, [], ◌∷◌, ◌++◌, elem, arith, inl, inr, Bool-cases, ◌==◌,
  ==_iff, if◌then◌else◌,
}
use oca_server_tools.Common.Dict.{insert, lookup, lookup-insert}
use oca_server_tools.Common.Action.{ok, err, ok-injective, Result-cases}
use oca_server_tools.Changeset.Orm.{Orm, Suffix}
use oca_server_tools.Changeset.Values.{
  get_field_for_type, value_for_changeset, convert_value_for_write,
}
use oca_server_tools.Changeset.State.{Change, Db, Error, missing_record, write_change, is_closed}
use oca_server_tools.Changeset.Apply.{Batch, set_old_value, collect_change, with_old, target_of}

module _ {o : Orm} where
  -- Two versions of a change that differ in their old values at most.
  pub record Core (c d : Change o) : Type 0 where
    pub changeset : c.changeset ≡ d.changeset
    pub field : c.field ≡ d.field
    pub rule : c.rule ≡ d.rule
    pub state : c.state ≡ d.state
    pub new_value : c.new_value ≡ d.new_value

  pub Core-refl : (c : Change o) → Core c c
  Core-refl c = record {
    changeset = refl;
    field = refl;
    rule = refl;
    state = refl;
    new_value = refl;
  }

  pub Core-trans : {c d e : Change o} → Core d e → Core c d → Core c e
  Core-trans h k = record {
    changeset = k.changeset ∙ h.changeset;
    field = k.field ∙ h.field;
    rule = k.rule ∙ h.rule;
    state = k.state ∙ h.state;
    new_value = k.new_value ∙ h.new_value;
  }

  -- The change `i` is among `ids`, and is pending.
  abbrev pub pending_in : Db o → List ℕ → ℕ → Bool
  pending_in db ids i = elem i ids && not (is_closed (db.change i).state)

  -- From `db` to `db'` only the old values of pending changes among `ids` may have changed.
  pub record Saved (ids : List ℕ) (db db' : Db o) : Type 0 where
    pub core : (i : ℕ) → Core (db'.change i) (db.change i)
    pub others : (i : ℕ) → pending_in db ids i ≡ false → db'.change i ≡ db.change i

  pub Saved-refl : (ids : List ℕ) (db : Db o) → Saved ids db db
  Saved-refl ids db = record { core = λ i. Core-refl (db.change i); others = λ i h. refl }

  pub Saved-append :
      (ids more : List ℕ) {db mid db' : Db o}
      → Saved ids db mid
      → Saved more mid db'
      → Saved (ids ++ more) db db'
  Saved-append ids more {db} {mid} {db'} h k = record {
    core = λ i. Core-trans (h.core i) (k.core i);
    others = λ i e.
        k.others i (ground (arith, (h.core i).state, elem-append i ids more))
        ∙ h.others i (ground (arith, elem-append i ids more));
  }

  pub Core-if :
      (b : Bool) (suffix : Suffix) (v : o.Value) (c : Change o)
      → Core (if b then with_old o suffix v c else c) c
  Core-if true suffix v c = record {
    changeset = refl;
    field = refl;
    rule = refl;
    state = refl;
    new_value = refl;
  }
  Core-if false suffix v c = Core-refl c

  Saved-write_change :
      (id : ℕ) (suffix : Suffix) (v : o.Value) (db : Db o)
      → is_closed (db.change id).state ≡ false
      → Saved (id ∷ []) db (write_change id (with_old o suffix v) db)
  unfolding write_change
  Saved-write_change id suffix v db e = record {
    core = λ i. Core-if (i == id) suffix v (db.change i);
    others = λ i h.
        ground (arith, e, ==_iff id i, ap (λ n. is_closed (db.change n).state) {x = i} {y = id});
  }

  -- What one round of the inner loop has done, if it returned.
  abbrev pub taken : Suffix → Change o → Batch o → ℕ → Batch o
  taken suffix change batch id = record {
    values =
        insert change.field.name
          (convert_value_for_write o change.field (o.column suffix (change.new_value suffix)))
          batch.values;
    changes_ok = batch.changes_ok ++ id ∷ [];
  }

  module _ (id : ℕ) (batch : Batch o) (db : Db o) where
    abbrev pub old_of : o.Value
    old_of =
        value_for_changeset o db.store (target_of o db (db.change id)) (db.change id).field.name
          none

    pub collect_change_closed :
        is_closed (db.change id).state ≡ true → collect_change o id batch db ≡ (ok batch, db)
    unfolding collect_change
    collect_change_closed e = rw e

    pub set_old_value_ok :
        (suffix : Suffix)
        → get_field_for_type (db.change id).field ≡ ok suffix
        → o.exists db.store (target_of o db (db.change id)) ≡ true
        → set_old_value o id db ≡ (ok tt, write_change id (with_old o suffix old_of) db)
    unfolding set_old_value
    set_old_value_ok suffix f there = rw (there, f) refl

    pub collect_change_open :
        (suffix : Suffix)
        → is_closed (db.change id).state ≡ false
        → get_field_for_type (db.change id).field ≡ ok suffix
        → o.exists db.store (target_of o db (db.change id)) ≡ true
        → collect_change o id batch db ≡ (
          ok (taken suffix (db.change id) batch id),
          write_change id (with_old o suffix old_of) db,
        )
    unfolding collect_change
    collect_change_open suffix e f there = rw (e, f, set_old_value_ok suffix f there)

    set_old_value_missing :
        o.exists db.store (target_of o db (db.change id)) ≡ false
        → set_old_value o id db ≡ (err missing_record, db)
    unfolding set_old_value
    set_old_value_missing gone = rw gone refl

    collect_change_missing :
        (suffix : Suffix)
        → is_closed (db.change id).state ≡ false
        → get_field_for_type (db.change id).field ≡ ok suffix
        → o.exists db.store (target_of o db (db.change id)) ≡ false
        → collect_change o id batch db ≡ (err missing_record, db)
    unfolding collect_change
    collect_change_missing suffix e f gone = rw (e, f, set_old_value_missing gone)

    collect_change_err :
        (x : Error)
        → is_closed (db.change id).state ≡ false
        → get_field_for_type (db.change id).field ≡ err x
        → collect_change o id batch db ≡ (err x, db)
    unfolding collect_change
    collect_change_err x e f = rw (e, f)

    -- A round that returns has passed over a closed change, or has taken a pending one.
    pub data Taken (batch' : Batch o) (db' : Db o) : Type 0 where
      passed : is_closed (db.change id).state ≡ true → batch' ≡ batch → db' ≡ db → Taken batch' db'
      took :
          (suffix : Suffix)
          → is_closed (db.change id).state ≡ false
          → get_field_for_type (db.change id).field ≡ ok suffix
          → batch' ≡ taken suffix (db.change id) batch id
          → db' ≡ write_change id (with_old o suffix old_of) db
          → Taken batch' db'

    pub collect_change-Taken :
        {batch' : Batch o} {db' : Db o}
        → collect_change o id batch db ≡ (ok batch', db')
        → Taken batch' db'
    collect_change-Taken h = elim (Bool-cases (is_closed (db.change id).state)) [
      | inl e ↦
          let same = sym h ∙ collect_change_closed e in
          passed e (ok-injective (ap (λ p. p.0) same)) (ap (λ p. p.1) same)
      | inr e ↦ elim (Result-cases (get_field_for_type (db.change id).field)) [
        | inl (suffix, f) ↦ elim (Bool-cases (o.exists db.store (target_of o db (db.change id)))) [
          | inl there ↦
              let same = sym h ∙ collect_change_open suffix e f there in
              took suffix e f (ok-injective (ap (λ p. p.0) same)) (ap (λ p. p.1) same)
          | inr gone ↦ cc (ap (λ p. p.0) (sym h ∙ collect_change_missing suffix e f gone))
        ]
        | inr (x, f) ↦ cc (ap (λ p. p.0) (sym h ∙ collect_change_err x e f))
      ]
    ]

  -- The value that an approval writes to the field `f`: that of the last pending change of `f`.
  abbrev pub write_of : Change o → Option o.Value
  write_of change = elim (get_field_for_type change.field) [
    | ok suffix ↦
        some (convert_value_for_write o change.field (o.column suffix (change.new_value suffix)))
    | err x ↦ none
  ]

  abbrev pub to_write : Db o → List ℕ → String → Option o.Value
  to_write db [] f = none
  to_write db (id ∷ ids) f = or_else (to_write db ids f) (
      if not (is_closed (db.change id).state) && str_eq (db.change id).field.name f
      then write_of (db.change id)
      else none)

  write_of-Core : {c d : Change o} → Core c d → write_of c ≡ write_of d
  write_of-Core h = λ i. elim (get_field_for_type (h.field i)) [
    | ok suffix ↦
        some (convert_value_for_write o (h.field i) (o.column suffix (h.new_value i suffix)))
    | err x ↦ none
  ]

  pub to_write-Core :
      (ids : List ℕ) (f : String) (db db' : Db o)
      → ((i : ℕ) → Core (db'.change i) (db.change i))
      → to_write db' ids f ≡ to_write db ids f
  to_write-Core [] f db db' h = refl
  to_write-Core (id ∷ ids) f db db' h = ap₂ or_else (to_write-Core ids f db db' h) (λ i.
      if not (is_closed ((h id).state i)) && str_eq ((h id).field i).name f
      then write_of-Core (h id) i
      else none)

  -- What the inner loop has done, if it returned: the pending changes of the list are collected, with
  -- their old values saved, and `values` has the value to write for each of their fields.
  pub record Collected (ids : List ℕ) (batch batch' : Batch o) (db db' : Db o) : Type 0 where
    pub saved : Saved ids db db'
    pub store : db'.store ≡ db.store
    pub changeset : db'.changeset ≡ db.changeset
    pub listed :
        (i : ℕ) → elem i batch'.changes_ok ≡ (elem i batch.changes_ok || pending_in db ids i)
    pub values :
        (f : String) → lookup f batch'.values ≡ or_else (to_write db ids f) (lookup f batch.values)

  closed_at :
      (db : Db o) (id i : ℕ)
      → (id == i) ≡ true
      → is_closed (db.change i).state ≡ is_closed (db.change id).state
  closed_at db id i h = ap (λ n. is_closed (db.change n).state) (sym ((==_iff id i).0 h))

  pub Taken-Collected :
      (id : ℕ) (batch : Batch o) (db : Db o) {batch' : Batch o} {db' : Db o}
      → Taken id batch db batch' db'
      → Collected (id ∷ []) batch batch' db db'
  Taken-Collected id batch db {batch'} {db'} (passed e same stay) = record {
    saved = subst (λ d. Saved (id ∷ []) db d) (sym stay) (Saved-refl (id ∷ []) db);
    store = ap (λ (d : Db o). d.store) stay;
    changeset = ap (λ (d : Db o). d.changeset) stay;
    listed = λ i. ground (arith, e, closed_at db id i, ap (λ b. elem i b.changes_ok) same);
    values = λ f. ground (arith, e, ap (λ b. lookup f b.values) same);
  }
  Taken-Collected id batch db {batch'} {db'} (took suffix e typed same moved) = record {
    saved = subst (λ d. Saved (id ∷ []) db d) (sym moved) (Saved-write_change id suffix _ db e);
    store = unfold write_change in ap (λ (d : Db o). d.store) moved;
    changeset = unfold write_change in ap (λ (d : Db o). d.changeset) moved;
    listed = λ i. ground (
      arith,
      e,
      closed_at db id i,
      ap (λ b. elem i b.changes_ok) same,
      elem-append i batch.changes_ok (id ∷ []),
    );
    values = λ f. ground (
      arith,
      e,
      typed,
      ap (λ b. lookup f b.values) same,
      lookup-insert (db.change id).field.name f
          (convert_value_for_write o (db.change id).field
            (o.column suffix ((db.change id).new_value suffix)))
          batch.values,
    );
  }
