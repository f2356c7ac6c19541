-- ===== src/Changeset/Apply/Written.antt =====
-- What the two halves of a round of `apply` have done for a changeset: the inner loop and the write.
use oca_server_tools.Common.{
  ℕ, String, true, false, ◌≡◌, refl, sym, ap, ◌∙◌, subst₂, Bool, ◌&&◌, List, [], ◌∷◌, arith, inl,
  inr, Bool-cases,
}
use oca_server_tools.Common.Dict.{Dict}
use oca_server_tools.Common.Action.{Result, ok, err, pure-eq-ok, >>=-eq-ok}
use oca_server_tools.Changeset.Orm.{Orm}
use oca_server_tools.Changeset.Rules.{Search}
use oca_server_tools.Changeset.State.{Db, Env, Error, user_error, missing_record}
use oca_server_tools.Changeset.Base.{in_tables}
use oca_server_tools.Changeset.Apply.{
  Batch, has_previous, collect_change, collect_changes, write_values,
}
use oca_server_tools.Changeset.Apply.Collect.{
  Saved-refl, Saved-append, Collected, to_write-Core, collect_change-Taken, Taken-Collected,
}

module _ {o : Orm} where
  Collected-nil : (batch : Batch o) (db : Db o) → Collected [] batch batch db db
  Collected-nil batch db = record {
    saved = Saved-refl [] db;
    store = refl;
    changeset = refl;
    listed = λ i. ground arith;
    values = λ f. refl;
  }

  Collected-cons :
      (id : ℕ) (ids : List ℕ) {a b c : Batch o} {db mid db' : Db o}
      → Collected (id ∷ []) a b db mid
      → Collected ids b c mid db'
      → Collected (id ∷ ids) a c db db'
  Collected-cons id ids {a} {b} {c} {db} {mid} {db'} h k = record {
    saved = Saved-append (id ∷ []) ids h.saved k.saved;
    store = k.store ∙ h.store;
    changeset = k.changeset ∙ h.changeset;
    listed = λ i. ground (arith, h.listed i, k.listed i, (h.saved.core i).state);
    values = λ f. ground (arith, h.values f, k.values f, to_write-Core ids f db mid h.saved.core);
  }

  pub collect_changes-Collected :
      (ids : List ℕ) (batch : Batch o) (db : Db o) {batch' : Batch o} {db' : Db o}
      → collect_changes o ids batch db ≡ (ok batch', db')
      → Collected ids batch batch' db db'
  unfolding collect_changes
  collect_changes-Collected [] batch db {batch'} {db'} h =
      let (same, stay) = pure-eq-ok h in
      subst₂ (λ b d. Collected [] batch b db d) same stay (Collected-nil batch db)
  collect_changes-Collected (id ∷ ids) batch db h =
      let (b, mid, first, rest) =
        >>=-eq-ok (collect_change o id batch) (collect_changes o ids) db h in
      Collected-cons id ids (Taken-Collected id batch db (collect_change-Taken id batch db first))
        (collect_changes-Collected ids b mid rest)

  abbrev pub blocked : Env → ℕ → Db o → Bool
  blocked env changeset db = env.require_previous_changesets_done && has_previous o db changeset

  pub write_values-nil :
      (search : Search) (env : Env) (changeset : ℕ) (db : Db o)
      → write_values o search env changeset [] db ≡ (ok tt, db)
  unfolding write_values
  write_values-nil search env changeset db = refl

  pub write_values_lem :
      (search : Search) (env : Env) (changeset : ℕ) (v : String × o.Value) (vs : Dict o.Value)
      (db : Db o) (r : Result String Unit × o.Store)
      → blocked env changeset db ≡ false
      → o.exists db.store (db.changeset changeset).target ≡ true
      → o.super_write (db.changeset changeset).target (v ∷ vs) db.store ≡ r
      → write_values o search env changeset (v ∷ vs) db ≡ in_tables o db r
  unfolding write_values
  write_values_lem search env changeset v vs db (ok u, t) e there w = rw (e, there, w) refl
  write_values_lem search env changeset v vs db (err x, t) e there w = rw (e, there, w) refl

  write_values-blocked :
      (search : Search) (env : Env) (changeset : ℕ) (v : String × o.Value) (vs : Dict o.Value)
      (db : Db o)
      → blocked env changeset db ≡ true
      → write_values o search env changeset (v ∷ vs) db ≡ (err user_error, db)
  unfolding write_values
  write_values-blocked search env changeset v vs db e = rw e refl

  write_values-missing :
      (search : Search) (env : Env) (changeset : ℕ) (v : String × o.Value) (vs : Dict o.Value)
      (db : Db o)
      → blocked env changeset db ≡ false
      → o.exists db.store (db.changeset changeset).target ≡ false
      → write_values o search env changeset (v ∷ vs) db ≡ (err missing_record, db)
  unfolding write_values
  write_values-missing search env changeset v vs db e gone = rw (e, gone) refl

  -- The write that follows the inner loop leaves the tables of the module alone, if it returned.
  pub record Stored (changeset : ℕ) (values : Dict o.Value) (db db' : Db o) : Type 0 where
    pub change : db'.change ≡ db.change
    pub changeset_kept : db'.changeset ≡ db.changeset

  in_tables-Stored :
      (changeset : ℕ) (values : Dict o.Value) (db : Db o) (r : Result String Unit × o.Store)
      {db' : Db o}
      → in_tables o db r ≡ (ok tt, db')
      → Stored changeset values db db'
  in_tables-Stored changeset values db (ok u, t) h = record {
    change = ap (λ (p : Result Error Unit × Db o). p.1.change) (sym h);
    changeset_kept = ap (λ (p : Result Error Unit × Db o). p.1.changeset) (sym h);
  }
  in_tables-Stored changeset values db (err x, t) h = cc (ap (λ p. p.0) h)

  pub write_values-Stored :
      (search : Search) (env : Env) (changeset : ℕ) (values : Dict o.Value) (db : Db o) {db' : Db o}
      → write_values o search env changeset values db ≡ (ok tt, db')
      → Stored changeset values db db'
  write_values-Stored search env changeset [] db {db'} h =
      let (same, stay) = pure-eq-ok (sym (write_values-nil search env changeset db) ∙ h) in
      record {
        change = ap (λ (d : Db o). d.change) (sym stay);
        changeset_kept = ap (λ (d : Db o). d.changeset) (sym stay);
      }
  write_values-Stored search env changeset (v ∷ vs) db {db'} h =
      elim (Bool-cases (blocked env changeset db)) [
        | inl e ↦ cc (ap (λ p. p.0) (sym (write_values-blocked search env changeset v vs db e) ∙ h))
        | inr e ↦ elim (Bool-cases (o.exists db.store (db.changeset changeset).target)) [
          | inl there ↦
              in_tables-Stored changeset (v ∷ vs) db
                (o.super_write (db.changeset changeset).target (v ∷ vs) db.store)
                (sym (
                    write_values_lem search env changeset v vs db
                      (o.super_write (db.changeset changeset).target (v ∷ vs) db.store) e there
                      refl)
                  ∙ h)
          | inr gone ↦
              cc
                (ap (λ p. p.0) (sym (write_values-missing search env changeset v vs db e gone) ∙ h))
        ]
      ]
