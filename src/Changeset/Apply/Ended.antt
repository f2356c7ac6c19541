-- ===== src/Changeset/Apply/Ended.antt =====
-- How an approval of the changes of one changeset ends.
use oca_server_tools.Common.{
  ℕ, String, ◌≡◌, refl, sym, subst, ap, ◌∙◌, Bool-cases, inl, inr, ==_iff, true, false, List, [],
  ◌∷◌, any, elem, All, arith, ◌==◌,
}
use oca_server_tools.Common.Dict.{Dict, lookup}
use oca_server_tools.Common.Action.{Result, ok, err}
use oca_server_tools.Changeset.Orm.{Orm}
use oca_server_tools.Changeset.Rules.{Search}
use oca_server_tools.Changeset.State.{ChangeState, Db, Env, Error, raised}
use oca_server_tools.Changeset.Apply.{
  Batch, Sorted, collect_changes, write_values, apply_groups, apply, finalize, forbidden, groupby,
}
use oca_server_tools.Changeset.Apply.Collect.{Saved, Collected, to_write}
use oca_server_tools.Changeset.Apply.Written.{
  collect_changes-Collected, write_values-nil, write_values_lem,
}
use oca_server_tools.Changeset.Apply.Groups.{groupby_one, IsSorted}
use oca_server_tools.Changeset.Apply.Rounds.{Rounds-of, Storable, Present, collect_changes_total}
use oca_server_tools.Changeset.Base.{in_tables}
use oca_server_tools.Changeset.Apply.Approved.{
  Approved, finalize-Approved, store-finalize, changeset_key,
}

-- How an approval of changes of one changeset ends, for the values collected and what the overridden `write`
-- makes of them: with no values nothing is written; where the write returns, the changes are approved on
-- the tables that it left; where it raises, the call raises the same, and of the changes at most the old values
-- of the pending ones are set.
abbrev pub ApplyEnds :
    {o : Orm}
    → Env
    → List ℕ
    → Db o
    → Dict o.Value
    → Result String Unit × o.Store
    → Result Error Unit × Db o
    → Type 0
ApplyEnds env ids db [] w result =
    (result.0 ≡ ok tt) × Approved env ids db result.1 × (result.1.store ≡ db.store)
ApplyEnds env ids db (v ∷ vs) (ok u, store) result =
    (result.0 ≡ ok tt) × Approved env ids db result.1 × (result.1.store ≡ store)
ApplyEnds env ids db (v ∷ vs) (err e, store) result =
    (result.0 ≡ err (raised e)) × Saved ids db result.1 × (result.1.store ≡ store)

module _ {o : Orm} (search : Search) (sorted : Sorted) (is_sorted : IsSorted sorted) (env : Env)
    (changeset id : ℕ) (ids : List ℕ) (db : Db o)
    (allowed : any (forbidden o env db) (id ∷ ids) ≡ false)
    (free : env.require_previous_changesets_done ≡ false) (storable : Storable (id ∷ ids) db)
    (one : All (λ i. (db.change i).changeset ≡ changeset) (id ∷ ids))
    (there : o.exists db.store (db.changeset changeset).target ≡ true) where
  one_group :
      groupby (changeset_key db) (sorted (changeset_key db) (id ∷ ids)) ≡ (changeset, id ∷ ids) ∷ []
  one_group =
      ap (groupby (changeset_key db)) (is_sorted.stable (changeset_key db) changeset (id ∷ ids) one)
      ∙ groupby_one (changeset_key db) changeset id ids one

  All-at :
      (i : ℕ) (l : List ℕ)
      → All (λ i. (db.change i).changeset ≡ changeset) l
      → elem i l ≡ true
      → (db.change i).changeset ≡ changeset
  All-at i [] h e = cc e
  All-at i (x ∷ xs) (k, h) e = elim (Bool-cases (x == i)) [
    | inl same ↦ ap (λ n. (db.change n).changeset) (sym ((==_iff x i).0 same)) ∙ k
    | inr other ↦ All-at i xs h (ground (arith, e, other))
  ]

  one-Present : Present (id ∷ ids) db
  one-Present i h =
      ap (λ c. o.exists db.store (db.changeset c).target)
        (All-at i (id ∷ ids) one (ground (arith, h)))
      ∙ there

  -- What follows the inner loop
  abbrev finished : List ℕ → Result Error Unit × Db o → Result Error Unit × Db o
  finished oks (ok u, mid) = (ok tt, finalize o env ChangeState.done oks mid)
  finished oks (err e, mid) = (err e, mid)

  apply-finished :
      (batch : Batch o) (mid : Db o) (r : Result Error Unit × Db o)
      → collect_changes o (id ∷ ids) (record { values = []; changes_ok = [] }) db ≡ (ok batch, mid)
      → write_values o search env changeset batch.values mid ≡ r
      → apply o search sorted env (id ∷ ids) db ≡ finished batch.changes_ok r
  unfolding apply apply_groups
  apply-finished batch mid (ok u, m) collected wrote =
      rw (allowed, one_group, collected, wrote) refl
  apply-finished batch mid (err e, m) collected wrote =
      rw (allowed, one_group, collected, wrote) refl

  ends :
      (values : Dict o.Value) (oks : List ℕ) (mid : Db o) (r : Result String Unit × o.Store)
      → Collected
          (id ∷ ids)
          (record { values = []; changes_ok = [] })
          (record { values = values; changes_ok = oks })
          db
          mid
      → o.super_write (db.changeset changeset).target values db.store ≡ r
      → collect_changes o (id ∷ ids) (record { values = []; changes_ok = [] }) db
        ≡ (ok (record { values = values; changes_ok = oks }), mid)
      → ApplyEnds env (id ∷ ids) db values r (apply o search sorted env (id ∷ ids) db)
  ends [] oks mid r c w collected =
      subst (ApplyEnds env (id ∷ ids) db [] r)
        (sym (
          apply-finished (record { values = []; changes_ok = oks }) mid (ok tt, mid) collected
            (write_values-nil search env changeset mid)))
        (
          refl,
          finalize-Approved env (id ∷ ids) oks db mid
              (Rounds-of (id ∷ ids) changeset c (record { change = refl; changeset_kept = refl })),
          store-finalize env ChangeState.done oks mid ∙ c.store,
        )
  ends (v ∷ vs) oks mid r c w collected =
      subst (ApplyEnds env (id ∷ ids) db (v ∷ vs) r)
        (sym (
          apply-finished (record { values = v ∷ vs; changes_ok = oks }) mid (in_tables o mid r)
            collected
            (write_values_lem search env changeset v vs mid r (rw free refl) present (same ∙ w))))
        (by_result r)
    where
      present : o.exists mid.store (mid.changeset changeset).target ≡ true
      present = (λ i. o.exists (c.store i) (c.changeset i changeset).target) ∙ there

      same :
          o.super_write (mid.changeset changeset).target (v ∷ vs) mid.store
          ≡ o.super_write (db.changeset changeset).target (v ∷ vs) db.store
      same = λ i. o.super_write (c.changeset i changeset).target (v ∷ vs) (c.store i)

      by_result :
          (r : Result String Unit × o.Store)
          → ApplyEnds env (id ∷ ids) db (v ∷ vs) r (finished oks (in_tables o mid r))
      by_result (ok u, t) = (
        refl,
        finalize-Approved env (id ∷ ids) oks db (record mid { store = t })
            (Rounds-of (id ∷ ids) changeset c (record { change = refl; changeset_kept = refl })),
        store-finalize env ChangeState.done oks (record mid { store = t }),
      )
      by_result (err e, t) = (refl, record { core = c.saved.core; others = c.saved.others }, refl)

  -- An approval of changes of one changeset, by a user who may validate all of them, where no check of previous
  -- changesets is asked for, the pending changes are of supported field types and the record exists. The
  -- values collected have, for each field, the value of its last pending change, and no other field. With none
  -- the call returns and writes nothing. Else it makes one overridden `write` of them to the record: if that
  -- returns, so does the call, on the tracked records as it left them, and the pending changes are
  -- approved; if it raises, the call raises the same and approves nothing.
  pub apply-ApplyEnds :
      (values : Dict o.Value) × ((f : String) → lookup f values ≡ to_write db (id ∷ ids) f)
      × ApplyEnds env
          (id ∷ ids)
          db
          values
          (o.super_write (db.changeset changeset).target values db.store)
          (apply o search sorted env (id ∷ ids) db)
  unfolding lookup
  apply-ApplyEnds =
      let start : Batch o = record { values = []; changes_ok = [] } in
      let (batch, mid, collected) =
        collect_changes_total (id ∷ ids) start db storable one-Present in
      let c = collect_changes-Collected (id ∷ ids) start db collected in
      (
        batch.values,
        λ f. ground (arith, c.values f),
        ends batch.values batch.changes_ok mid _ c refl collected,
      )
