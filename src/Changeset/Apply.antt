-- ===== src/Changeset/Apply.antt =====
-- record_changeset_change.py: approval (`apply`) and rejection (`cancel`) of changes.
pub mod Collect
pub mod Written
pub mod Groups
pub mod Rounds
pub mod Approved
pub mod Ended
pub mod Refused
pub mod Rejected
use oca_server_tools.Common.{
  ℕ, String, Bool, true, false, not, ◌&&◌, Option, none, some, List, [], ◌∷◌, ◌++◌, any, elem, ltb,
  ◌==◌, if◌then◌else◌,
}
use oca_server_tools.Common.Dict.{Dict, insert}
use oca_server_tools.Common.Action.{
  Result, ok, err, and_then, Action, pure, raise, lift, modify, raise_if, ◌>>=◌, ◌>>◌,
}
use oca_server_tools.Changeset.Orm.{Orm, Ref, ref_eq, Suffix}
use oca_server_tools.Changeset.Rules.{Search}
use oca_server_tools.Changeset.Values.{
  get_field_for_type, value_for_changeset, convert_value_for_write,
}
use oca_server_tools.Changeset.State.{
  Change, ChangeState, ChangesetState, cancel, Db, Env, Error, user_error, missing_record, M,
  write_change, compute_state, is_closed, user_can_validate,
}
use oca_server_tools.Changeset.Add.{suffix_eq}
use oca_server_tools.Changeset.Base.{write}

-- `itertools.groupby`: runs of neighbours with the same key.
unfoldable pub add_to_groups : ℕ → ℕ → List (ℕ × List ℕ) → List (ℕ × List ℕ)
add_to_groups k x [] = (k, x ∷ []) ∷ []
add_to_groups k x ((j, ys) ∷ groups) =
    if k == j then (k, x ∷ ys) ∷ groups else (k, x ∷ []) ∷ (j, ys) ∷ groups

unfoldable pub groupby : (ℕ → ℕ) → List ℕ → List (ℕ × List ℕ)
unfolding add_to_groups
groupby key [] = []
groupby key (x ∷ xs) = add_to_groups (key x) x (groupby key xs)

-- `sorted(key=attrgetter("changeset_id"))` of the ORM
abbrev pub Sorted : Type 0
Sorted = (ℕ → ℕ) → List ℕ → List ℕ

abbrev pub is_done : ChangeState → Bool
is_done ChangeState.done = true
is_done _ = false

abbrev pub is_draft_state : ChangesetState → Bool
is_draft_state ChangesetState.draft = true
is_draft_state ChangesetState.done = false

module _ (o : Orm) where
  abbrev pub target_of : Db o → Change o → Ref
  target_of db change = (db.changeset change.changeset).target

  -- `record_id`: no record where it was deleted.
  abbrev pub record_of : Db o → Ref → Option Ref
  record_of db ref = if o.exists db.store ref then some ref else none

  -- `get_new_value`
  unfoldable pub get_new_value : Change o → Result Error o.Value
  get_new_value change =
      and_then (get_field_for_type change.field)
        (λ suffix. ok (o.column suffix (change.new_value suffix)))

  abbrev pub read_of : Db o → String → Option Ref → Result Error o.Value
  read_of db field none = err missing_record
  read_of db field (some ref) = ok (o.read db.store ref field)

  -- `_compute_origin_values`: the record's value while the change is pending, then the old value.
  unfoldable pub origin_value : Db o → Change o → Result Error o.Value
  unfolding get_field_for_type
  origin_value db change = and_then (get_field_for_type change.field) (λ suffix.
      if is_closed change.state
      then ok (o.column suffix (change.old_value suffix))
      else read_of db change.field.name (record_of db (target_of db change)))

  abbrev pub with_old : Suffix → o.Value → Change o → Change o
  with_old suffix value change = record change {
    old_value = λ s. if suffix_eq s suffix then value else change.old_value s;
  }

  abbrev pub save_old : ℕ → o.Value → Result Error Suffix → M o Unit
  save_old id value (ok suffix) db = (ok tt, write_change id (with_old suffix value) db)
  save_old id value (err e) db = (err e, db)

  -- The old value is read from the record, which is `None` where it was deleted.
  abbrev pub save_old_of : ℕ → Change o → Option Ref → M o Unit
  save_old_of id change none db = (err missing_record, db)
  save_old_of id change (some ref) db =
      save_old id (value_for_changeset o db.store ref change.field.name none)
        (get_field_for_type change.field) db

  -- `set_old_value` on one change
  unfoldable pub set_old_value : ℕ → M o Unit
  set_old_value id db =
      save_old_of id (db.change id) (record_of db (target_of db (db.change id))) db

  -- What the loops of `apply` carry: `values` and `changes_ok`.
  pub record Batch : Type 0 where
    pub values : Dict o.Value
    pub changes_ok : List ℕ

  -- The body of `for change in changes:`
  unfoldable pub collect_change : ℕ → Batch → M o Batch
  unfolding get_new_value set_old_value
  collect_change id batch db =
      let change = db.change id in
      if is_closed change.state
      then (ok batch, db)
      else (do
        new_value ← lift (get_new_value change)
        set_old_value id
        pure (record {
          values =
              insert change.field.name (convert_value_for_write o change.field new_value)
                batch.values;
          changes_ok = batch.changes_ok ++ id ∷ [];
        }))
          db

  unfoldable pub collect_changes : List ℕ → Batch → M o Batch
  unfolding collect_change
  collect_changes [] batch = pure batch
  collect_changes (id ∷ ids) batch = collect_change id batch >>= collect_changes ids

  -- `_check_previous_changesets`
  unfoldable pub has_previous : Db o → ℕ → Bool
  unfolding compute_state ref_eq
  has_previous db changeset =
      any
        (λ c.
          ltb (db.changeset c).date (db.changeset changeset).date
          && is_draft_state (compute_state db c)
          && ref_eq (db.changeset c).target (db.changeset changeset).target)
        db.changeset_ids

  unfoldable pub check_previous_changesets : Env → ℕ → M o Unit
  unfolding has_previous
  check_previous_changesets env changeset db =
      if env.require_previous_changesets_done && has_previous db changeset
      then (err user_error, db)
      else (ok tt, db)

  -- `changeset.record_id.with_context(__no_changeset=disable_changeset).write(values)`
  abbrev pub write_to : Search → Env → Option Ref → Dict o.Value → M o Bool
  write_to search env none values db = (err missing_record, db)
  write_to search env (some ref) values db =
      write o search (record env { no_changeset = true }) ref.model (ref ∷ []) values db

  abbrev write_target : Search → Env → ℕ → Dict o.Value → M o Bool
  write_target search env changeset values db =
      write_to search env (record_of db (db.changeset changeset).target) values db

  -- What follows the inner loop for a changeset: `if not values: continue`, or the write.
  unfoldable pub write_values : Search → Env → ℕ → Dict o.Value → M o Unit
  unfolding check_previous_changesets write
  write_values search env changeset [] = pure tt
  write_values search env changeset (v ∷ vs) = do
    check_previous_changesets env changeset
    write_target search env changeset (v ∷ vs)
    pure tt

  -- `for changeset, changes in groupby(...)`
  unfoldable pub apply_groups : Search → Env → List (ℕ × List ℕ) → List ℕ → M o (List ℕ)
  unfolding collect_changes write_values
  apply_groups search env [] changes_ok = pure changes_ok
  apply_groups search env ((changeset, ids) ∷ groups) changes_ok = do
    batch ← collect_changes ids (record { values = []; changes_ok = changes_ok })
    write_values search env changeset batch.values
    apply_groups search env groups batch.changes_ok

  abbrev pub finalized : Env → ChangeState → Change o → Change o
  finalized env state change = record change {
    state = state;
    verified_by = some env.uid;
    verified_on = some env.now;
  }

  -- `_finalize_change_approval` and `_finalize_change_rejection`
  unfoldable pub finalize : Env → ChangeState → List ℕ → Db o → Db o
  unfolding write_change
  finalize env state [] db = db
  finalize env state (id ∷ ids) db =
      finalize env state ids (write_change id (finalized env state) db)

  abbrev pub forbidden : Env → Db o → ℕ → Bool
  forbidden env db id = not (user_can_validate env db (db.change id))

  -- `apply`
  unfoldable pub apply : Search → Sorted → Env → List ℕ → M o Unit
  unfolding apply_groups groupby finalize user_can_validate
  apply search sorted env ids db =
      if any (forbidden env db) ids
      then (err user_error, db)
      else (do
        let key = λ (id : ℕ). (db.change id).changeset
        changes_ok ← apply_groups search env (groupby key (sorted key ids)) []
        modify (finalize env ChangeState.done changes_ok))
          db

  unfoldable pub set_old_values : List ℕ → M o Unit
  unfolding set_old_value
  set_old_values [] = pure tt
  set_old_values (id ∷ ids) = set_old_value id >> set_old_values ids

  -- `cancel`
  unfoldable pub cancel_changes : Env → List ℕ → M o Unit
  unfolding set_old_values finalize user_can_validate
  cancel_changes env ids db =
      if any (forbidden env db) ids
      then (err user_error, db)
      else if any (λ id. is_done (db.change id).state) ids
      then (err user_error, db)
      else (set_old_values ids >> modify (finalize env cancel ids)) db

  abbrev change_ids_of : Db o → List ℕ → List ℕ
  change_ids_of db [] = []
  change_ids_of db (c ∷ cs) = (db.changeset c).change_ids ++ change_ids_of db cs

  -- `RecordChangeset.apply` and `RecordChangeset.cancel`
  unfoldable pub apply_changesets : Search → Sorted → Env → List ℕ → M o Unit
  unfolding apply
  apply_changesets search sorted env changesets db =
      apply search sorted (record env { skip_pending_status_check = true })
        (change_ids_of db changesets) db

  unfoldable pub cancel_changesets : Env → List ℕ → M o Unit
  unfolding cancel_changes
  cancel_changesets env changesets db =
      cancel_changes (record env { skip_pending_status_check = true }) (change_ids_of db changesets)
        db
