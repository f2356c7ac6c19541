-- ===== src/Changeset/Apply/Rounds.antt =====
-- The rounds of `apply` over the groups: they return, and what they have done then.
use oca_server_tools.Common.{
  ℕ, All, ◌≡◌, refl, sym, ap, ◌∙◌, subst, subst₂, true, false, ◌||◌, List, [], ◌∷◌, ◌++◌, elem,
  elem-append, arith, inl, inr, Bool-cases, ==_refl,
}
use oca_server_tools.Common.Dict.{Dict}
use oca_server_tools.Common.Action.{ok, pure-eq-ok, >>=-eq-ok, ◌>>◌}
use oca_server_tools.Changeset.Orm.{Orm, Ref, Suffix}
use oca_server_tools.Changeset.Rules.{Search}
use oca_server_tools.Changeset.Values.{get_field_for_type}
use oca_server_tools.Changeset.State.{Db, Env, is_closed}
use oca_server_tools.Changeset.Apply.{
  Batch, target_of, collect_change, collect_changes, write_values, apply_groups,
}
use oca_server_tools.Changeset.Apply.Collect.{
  Core, Saved, Saved-refl, Saved-append, Collected, pending_in, collect_change_closed,
  collect_change_open, collect_change-Taken, Taken-Collected,
}
use oca_server_tools.Changeset.Apply.Written.{
  Stored, collect_changes-Collected, write_values-Stored, write_values_lem, write_values-nil,
}
use oca_server_tools.Changeset.Apply.Groups.{members}

-- The overridden `write` of a record that exists returns, from a store for which `Good` holds, which it then
-- still does; and no record is gone after it.
pub record Accepts (o : Orm) (Good : o.Store → Type 0) : Type 0 where
  pub writes :
      (ref : Ref) (vals : Dict o.Value) (s : o.Store)
      → Good s
      → o.exists s ref ≡ true
      → (t : o.Store) × (o.super_write ref vals s ≡ (ok tt, t))
        × Good t
        × ((q : Ref) → o.exists s q ≡ true → o.exists t q ≡ true)

module _ {o : Orm} where
  -- What the rounds for some groups have done, if they returned.
  pub record Rounds (ids oks oks' : List ℕ) (db db' : Db o) : Type 0 where
    pub saved : Saved ids db db'
    pub listed : (i : ℕ) → elem i oks' ≡ (elem i oks || pending_in db ids i)

  Rounds-append :
      (ids more : List ℕ) {a b c : List ℕ} {db mid db' : Db o}
      → Rounds ids a b db mid
      → Rounds more b c mid db'
      → Rounds (ids ++ more) a c db db'
  Rounds-append ids more h k = record {
    saved = Saved-append ids more h.saved k.saved;
    listed =
        λ i. ground (arith, h.listed i, k.listed i, (h.saved.core i).state, elem-append i ids more);
  }

  pub Rounds-of :
      (ids : List ℕ) (changeset : ℕ) {a b : Batch o} {db mid db' : Db o}
      → Collected ids a b db mid
      → Stored changeset b.values mid db'
      → Rounds ids a.changes_ok b.changes_ok db db'
  Rounds-of ids changeset {db = db} h k = record {
    saved = record {
      core = λ i. subst (λ c. Core c (db.change i)) (sym (ap (λ f. f i) k.change)) (h.saved.core i);
      others = λ i e. ap (λ f. f i) k.change ∙ h.saved.others i e;
    };
    listed = h.listed;
  }

  pub apply_groups-Rounds :
      (search : Search) (env : Env) (groups : List (ℕ × List ℕ)) (oks : List ℕ) (db : Db o)
      {oks' : List ℕ} {db' : Db o}
      → apply_groups o search env groups oks db ≡ (ok oks', db')
      → Rounds (members groups) oks oks' db db'
  unfolding apply_groups
  apply_groups-Rounds search env [] oks db {oks'} {db'} h =
      let (same, stay) = pure-eq-ok h in
      subst₂ (λ l d. Rounds [] oks l db d) same stay
        (record { saved = Saved-refl [] db; listed = λ i. ground arith })
  apply_groups-Rounds search env ((changeset, ids) ∷ groups) oks db h =
      let (batch, mid, collected, rest) =
        >>=-eq-ok (collect_changes o ids (record { values = []; changes_ok = oks }))
          (λ batch.
            write_values o search env changeset batch.values
            >> apply_groups o search env groups batch.changes_ok)
          db h in
      let (u, mid', wrote, more) =
        >>=-eq-ok (write_values o search env changeset batch.values)
          (λ _. apply_groups o search env groups batch.changes_ok) mid rest in
      Rounds-append ids (members groups)
        (Rounds-of ids changeset
          (collect_changes-Collected ids (record { values = []; changes_ok = oks }) db collected)
          (write_values-Stored search env changeset batch.values mid wrote))
        (apply_groups-Rounds search env groups batch.changes_ok mid' more)

  -- Every pending change among `ids` is of a field type that a change can hold.
  abbrev pub Storable : List ℕ → Db o → Type 0
  Storable ids db =
      (i : ℕ)
      → pending_in db ids i ≡ true
      → (suffix : Suffix) × (get_field_for_type (db.change i).field ≡ ok suffix)

  Storable-Saved :
      (ids more : List ℕ) (db db' : Db o)
      → Saved ids db db'
      → Storable (ids ++ more) db
      → Storable more db'
  Storable-Saved ids more db db' saved h i pending =
      let (suffix, e) = h i (ground (arith, (saved.core i).state, elem-append i ids more)) in
      (suffix, ap get_field_for_type (saved.core i).field ∙ e)

  Storable-append : (ids more : List ℕ) (db : Db o) → Storable (ids ++ more) db → Storable ids db
  Storable-append ids more db h i pending = h i (ground (arith, elem-append i ids more))

  -- The record of every pending change among `ids` exists.
  abbrev pub Present : List ℕ → Db o → Type 0
  Present ids db =
      (i : ℕ) → pending_in db ids i ≡ true → o.exists db.store (target_of o db (db.change i)) ≡ true

  Present-append : (ids more : List ℕ) (db : Db o) → Present (ids ++ more) db → Present ids db
  Present-append ids more db h i pending = h i (ground (arith, elem-append i ids more))

  -- Records that exist before exist after, and no change has moved.
  Present-later :
      (ids more : List ℕ) (db db' : Db o)
      → Saved ids db db'
      → db'.changeset ≡ db.changeset
      → ((q : Ref) → o.exists db.store q ≡ true → o.exists db'.store q ≡ true)
      → Present (ids ++ more) db
      → Present more db'
  Present-later ids more db db' saved same stays h i pending =
      ap (o.exists db'.store) (λ j. (same j ((saved.core i).changeset j)).target)
      ∙ stays (target_of o db (db.change i))
          (h i (ground (arith, (saved.core i).state, elem-append i ids more)))

  collect_change_total :
      (id : ℕ) (batch : Batch o) (db : Db o)
      → Storable (id ∷ []) db
      → Present (id ∷ []) db
      → (batch' : Batch o) × (db' : Db o) × (collect_change o id batch db ≡ (ok batch', db'))
  collect_change_total id batch db h there = elim (Bool-cases (is_closed (db.change id).state)) [
    | inl e ↦ (batch, db, collect_change_closed id batch db e)
    | inr e ↦
        let (suffix, typed) = h id (ground (arith, e, ==_refl id)) in
        (
          _,
          _,
          collect_change_open id batch db suffix e typed (there id (ground (arith, e, ==_refl id))),
        )
  ]

  pub collect_changes_total :
      (ids : List ℕ) (batch : Batch o) (db : Db o)
      → Storable ids db
      → Present ids db
      → (batch' : Batch o) × (db' : Db o) × (collect_changes o ids batch db ≡ (ok batch', db'))
  unfolding collect_changes
  collect_changes_total [] batch db h there = (batch, db, refl)
  collect_changes_total (id ∷ ids) batch db h there =
      let (b, mid, first) =
        collect_change_total id batch db (Storable-append (id ∷ []) ids db h)
          (Present-append (id ∷ []) ids db there) in
      let c = Taken-Collected id batch db (collect_change-Taken id batch db first) in
      let (b', db', rest) =
        collect_changes_total ids b mid (Storable-Saved (id ∷ []) ids db mid c.saved h) (
          Present-later (id ∷ []) ids db mid c.saved c.changeset
            (λ q e. ap (λ s. o.exists s q) c.store ∙ e) there) in
      (b', db', rw first rest)

  module _ (Good : o.Store → Type 0) (accepts : Accepts o Good) where
    write_values_total :
        (search : Search) (env : Env) (changeset : ℕ) (values : Dict o.Value) (db : Db o)
        → env.require_previous_changesets_done ≡ false
        → Good db.store
        → o.exists db.store (db.changeset changeset).target ≡ true
        → (db' : Db o) × (write_values o search env changeset values db ≡ (ok tt, db'))
          × Good db'.store
          × (db'.changeset ≡ db.changeset)
          × ((q : Ref) → o.exists db.store q ≡ true → o.exists db'.store q ≡ true)
    write_values_total search env changeset [] db free good there =
        (db, write_values-nil search env changeset db, good, refl, λ q e. e)
    write_values_total search env changeset (v ∷ vs) db free good there =
        let (t, w, good', stays) =
          accepts.writes (db.changeset changeset).target (v ∷ vs) db.store good there in
        (
          record db { store = t },
          write_values_lem search env changeset v vs db (ok tt, t) (rw free refl) there w,
          good',
          refl,
          stays,
        )

    -- The records of the groups' changesets exist.
    abbrev Kept : List (ℕ × List ℕ) → Db o → Type 0
    Kept groups db = All (λ g. o.exists db.store (db.changeset g.0).target ≡ true) groups

    Kept-later :
        (groups : List (ℕ × List ℕ)) (db db' : Db o)
        → db'.changeset ≡ db.changeset
        → ((q : Ref) → o.exists db.store q ≡ true → o.exists db'.store q ≡ true)
        → Kept groups db
        → Kept groups db'
    Kept-later [] db db' same stays h = tt
    Kept-later (g ∷ groups) db db' same stays (e, h) = (
      ap (λ c. o.exists db'.store (c g.0).target) same ∙ stays (db.changeset g.0).target e,
      Kept-later groups db db' same stays h,
    )

    pub apply_groups_total :
        (search : Search) (env : Env) (groups : List (ℕ × List ℕ)) (oks : List ℕ) (db : Db o)
        → env.require_previous_changesets_done ≡ false
        → Good db.store
        → Storable (members groups) db
        → Present (members groups) db
        → Kept groups db
        → (oks' : List ℕ) × (db' : Db o) × (apply_groups o search env groups oks db
            ≡ (ok oks', db'))
    unfolding apply_groups
    apply_groups_total search env [] oks db free good h there kept = (oks, db, refl)
    apply_groups_total search env ((changeset, ids) ∷ groups) oks db free good h there
          (here, kept) =
        let start : Batch o = record { values = []; changes_ok = oks } in
        let (batch, mid, collected) =
          collect_changes_total ids start db (Storable-append ids (members groups) db h)
            (Present-append ids (members groups) db there) in
        let c = collect_changes-Collected ids start db collected in
        let (mid', wrote, good', same, stays) =
          write_values_total search env changeset batch.values mid free
            (subst Good (sym c.store) good)
            (ap (λ s. o.exists s (mid.changeset changeset).target) c.store
              ∙ ap (λ t. o.exists db.store (t changeset).target) c.changeset
              ∙ here) in
        let round =
          Rounds-of ids changeset c
            (write_values-Stored search env changeset batch.values mid wrote) in
        let stay = λ (q : Ref) (e : o.exists db.store q ≡ true).
          stays q (ap (λ s. o.exists s q) c.store ∙ e) in
        let (oks', db', rest) =
          apply_groups_total search env groups batch.changes_ok mid' free good'
            (Storable-Saved ids (members groups) db mid' round.saved h)
            (Present-later ids (members groups) db mid' round.saved (same ∙ c.changeset) stay there)
            (Kept-later groups db mid' (same ∙ c.changeset) stay kept) in
        (oks', db', rw (collected, wrote) rest)
