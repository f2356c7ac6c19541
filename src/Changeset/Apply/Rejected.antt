-- ===== src/Changeset/Apply/Rejected.antt =====
-- What a rejection has done.
use oca_server_tools.Common.{
  ℕ, ◌≡◌, refl, ap, ◌∙◌, true, false, some, List, [], ◌∷◌, any, elem, arith, ◌==◌, ==_refl, ==_iff,
  if◌then◌else◌,
}
use oca_server_tools.Common.Action.{ok}
use oca_server_tools.Changeset.Orm.{Orm, Suffix}
use oca_server_tools.Changeset.Values.{get_field_for_type}
use oca_server_tools.Changeset.State.{Change, cancel, Db, Env, write_change}
use oca_server_tools.Changeset.Apply.{
  target_of, set_old_values, with_old, cancel_changes, forbidden, is_done, finalize, finalized,
}
use oca_server_tools.Changeset.Apply.Collect.{
  Core, Core-refl, Core-trans, Core-if, set_old_value_ok, old_of,
}
use oca_server_tools.Changeset.Apply.Approved.{change-finalize, store-finalize}

module _ {o : Orm} where
  record Olds (ids : List ℕ) (db db' : Db o) : Type 0 where
    core : (i : ℕ) → Core (db'.change i) (db.change i)
    others : (i : ℕ) → elem i ids ≡ false → db'.change i ≡ db.change i
    store : db'.store ≡ db.store

  Olds-cons :
      (id : ℕ) (ids : List ℕ) (suffix : Suffix) (v : o.Value) (db db' : Db o)
      → Olds ids (write_change id (with_old o suffix v) db) db'
      → Olds (id ∷ ids) db db'
  unfolding write_change
  Olds-cons id ids suffix v db db' h = record {
    core = λ i. Core-trans (Core-if (i == id) suffix v (db.change i)) (h.core i);
    others = λ i e. h.others i (ground arith) ∙ ground (arith, ==_iff i id, ==_iff id i);
    store = h.store;
  }

  -- Every change of the list is of a field type that a change can hold.
  abbrev pub AllStorable : List ℕ → Db o → Type 0
  AllStorable ids db =
      (i : ℕ)
      → elem i ids ≡ true
      → (suffix : Suffix) × (get_field_for_type (db.change i).field ≡ ok suffix)

  -- The record of every change of the list exists.
  abbrev pub AllPresent : List ℕ → Db o → Type 0
  AllPresent ids db =
      (i : ℕ) → elem i ids ≡ true → o.exists db.store (target_of o db (db.change i)) ≡ true

  AllPresent-write :
      (id : ℕ) (ids : List ℕ) (suffix : Suffix) (v : o.Value) (db : Db o)
      → AllPresent (id ∷ ids) db
      → AllPresent ids (write_change id (with_old o suffix v) db)
  unfolding write_change
  AllPresent-write id ids suffix v db h i e =
      ap (λ c. o.exists db.store (db.changeset c).target)
        (Core-if (i == id) suffix v (db.change i)).changeset
      ∙ h i (ground arith)

  AllStorable-write :
      (id : ℕ) (ids : List ℕ) (suffix : Suffix) (v : o.Value) (db : Db o)
      → AllStorable (id ∷ ids) db
      → AllStorable ids (write_change id (with_old o suffix v) db)
  unfolding write_change
  AllStorable-write id ids suffix v db h i e =
      let (s, typed) = h i (ground arith) in
      (s, ap get_field_for_type (Core-if (i == id) suffix v (db.change i)).field ∙ typed)

  set_old_values_total :
      (ids : List ℕ) (db : Db o)
      → AllStorable ids db
      → AllPresent ids db
      → (db' : Db o) × (set_old_values o ids db ≡ (ok tt, db')) × Olds ids db db'
  unfolding set_old_values
  set_old_values_total [] db h there =
      (db, refl, record { core = λ i. Core-refl (db.change i); others = λ i e. refl; store = refl })
  set_old_values_total (id ∷ ids) db h there =
      let (suffix, typed) = h id (ground (arith, ==_refl id)) in
      let mid : Db o =
        write_change id (with_old o suffix (old_of id (record { values = []; changes_ok = [] }) db))
          db in
      let (db', rest, olds) =
        set_old_values_total ids mid (AllStorable-write id ids suffix _ db h)
          (AllPresent-write id ids suffix _ db there) in
      (
        db',
        rw
            (set_old_value_ok id (record { values = []; changes_ok = [] }) db suffix typed
              (there id (ground (arith, ==_refl id))))
            rest,
        Olds-cons id ids suffix _ db db' olds,
      )

  -- What a rejection has done: every change of the list is rejected, with who verified it and when, and
  -- otherwise as it was but for its old values; no other change and no tracked record has changed.
  pub record Rejected (env : Env) (ids : List ℕ) (db db' : Db o) : Type 0 where
    pub state : (i : ℕ) → elem i ids ≡ true → (db'.change i).state ≡ cancel
    pub verified_by : (i : ℕ) → elem i ids ≡ true → (db'.change i).verified_by ≡ some env.uid
    pub verified_on : (i : ℕ) → elem i ids ≡ true → (db'.change i).verified_on ≡ some env.now
    pub new_value : (i : ℕ) → (db'.change i).new_value ≡ (db.change i).new_value
    pub others : (i : ℕ) → elem i ids ≡ false → db'.change i ≡ db.change i
    pub store : db'.store ≡ db.store

  finalize-Rejected :
      (env : Env) (ids : List ℕ) (db mid : Db o)
      → Olds ids db mid
      → Rejected env ids db (finalize o env cancel ids mid)
  finalize-Rejected env ids db mid h = record {
    state = λ i e. ap (λ (c : Change o). c.state) (at i) ∙ ground arith;
    verified_by = λ i e. ap (λ (c : Change o). c.verified_by) (at i) ∙ ground arith;
    verified_on = λ i e. ap (λ (c : Change o). c.verified_on) (at i) ∙ ground arith;
    new_value =
        λ i. ap (λ (c : Change o). c.new_value) (at i) ∙ ground (arith, (h.core i).new_value);
    others = λ i e. at i ∙ ground (arith, h.others i e);
    store = store-finalize env cancel ids mid ∙ h.store;
  }
    where
      at :
          (i : ℕ)
          → (finalize o env cancel ids mid).change i
            ≡ (if elem i ids then finalized o env cancel (mid.change i) else mid.change i)
      at i = change-finalize env cancel ids mid i

  -- A rejection by a user who may decide about all of the changes, none of which is done, returns if
  -- their fields are of supported types and their records exist, and it has rejected them all.
  pub cancel_changes-Rejected :
      (env : Env) (ids : List ℕ) (db : Db o)
      → any (forbidden o env db) ids ≡ false
      → any (λ id. is_done (db.change id).state) ids ≡ false
      → AllStorable ids db
      → AllPresent ids db
      → (db' : Db o) × (cancel_changes o env ids db ≡ (ok tt, db')) × Rejected env ids db db'
  unfolding cancel_changes
  cancel_changes-Rejected env ids db allowed undone h there =
      let (mid, ran, olds) = set_old_values_total ids db h there in
      (
        finalize o env cancel ids mid,
        rw (allowed, undone, ran) refl,
        finalize-Rejected env ids db mid olds,
      )
