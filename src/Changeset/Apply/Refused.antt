-- ===== src/Changeset/Apply/Refused.antt =====
-- Who may approve or reject a change.
use oca_server_tools.Common.{ℕ, ◌≡◌, ap, true, false, not, List, any, any_at, elem, arith}
use oca_server_tools.Common.Action.{err}
use oca_server_tools.Changeset.Orm.{Orm}
use oca_server_tools.Changeset.Rules.{Search}
use oca_server_tools.Changeset.State.{
  Change, Db, Env, user_error, user_can_validate, is_pending_state, rule_of, validator_groups,
  prevents_self,
}
use oca_server_tools.Changeset.Apply.{Sorted, apply, cancel_changes, forbidden}

module _ {o : Orm} where
  -- A reason why the user may not decide about a change: it is closed and the status check is on; the
  -- user is neither a superuser nor a changeset user nor in a validator group of the rule; or the rule
  -- prevents self validation and the user made the change.
  pub data Barred (env : Env) (db : Db o) (change : Change o) : Type 0 where
    closed :
        env.skip_pending_status_check ≡ false
        → is_pending_state change.state ≡ false
        → Barred env db change
    no_rights :
        env.is_superuser ≡ false
        → env.is_changeset_user ≡ false
        → any (λ g. elem g env.groups) (validator_groups (rule_of db change)) ≡ false
        → Barred env db change
    own_change :
        prevents_self (rule_of db change) ≡ true
        → (db.changeset change.changeset).modified_by ≡ env.uid
        → Barred env db change

  not-Barred :
      (env : Env) (db : Db o) (change : Change o)
      → Barred env db change
      → user_can_validate env db change ≡ false
  unfolding user_can_validate
  not-Barred env db change (closed a b) = ground arith
  not-Barred env db change (no_rights a b c) = ground arith
  not-Barred env db change (own_change a b) = ground arith

  -- Where one of the changes bars the user, approval and rejection both raise and change nothing.
  pub Barred-refused :
      (search : Search) (sorted : Sorted) (env : Env) (ids : List ℕ) (db : Db o) (i : ℕ)
      → elem i ids ≡ true
      → Barred env db (db.change i)
      → (apply o search sorted env ids db ≡ (err user_error, db))
        × (cancel_changes o env ids db ≡ (err user_error, db))
  unfolding apply cancel_changes
  Barred-refused search sorted env ids db i listed bar =
      let refused : any (forbidden o env db) ids ≡ true =
        any_at (forbidden o env db) ids i listed (ap not (not-Barred env db (db.change i) bar)) in
      (rw refused, rw refused)
