-- ===== src/Changeset/State.antt =====
-- The records of record_changeset.py and record_changeset_change.py, and the state that the
-- methods of base_changeset change.
use oca_server_tools.Common.{
  ℕ, String, Bool, true, false, not, ◌&&◌, ◌||◌, Option, none, some, List, [], ◌∷◌, ◌++◌, all, elem,
  keep, any, ◌==◌, str_eq, length, if◌then◌else◌,
}
use oca_server_tools.Common.Action.{Action}
use oca_server_tools.Changeset.Orm.{Field, Orm, Ref, Suffix}
use oca_server_tools.Changeset.Rules.{Rule, browse}

-- The selection of `record.changeset.change.state`
pub data ChangeState : Type 0 where
  draft done cancel : ChangeState

-- The selection of `record.changeset.state`
pub data ChangesetState : Type 0 where
  draft done : ChangesetState

-- What the methods may raise: their own errors, the error of a record that is `None`, and those of
-- the overridden methods.
pub data Error : Type 0 where
  user_error not_implemented missing_record : Error
  raised : String → Error

-- The context and the user of `self.env`, and the clock.
pub record Env : Type 0 where
  pub uid : ℕ
  pub is_superuser : Bool
  pub groups : List ℕ
  pub is_changeset_user : Bool
  pub company : ℕ
  pub now : ℕ
  pub rules_source_model : Option String
  pub rules_source_id : Option ℕ
  pub no_changeset : Bool
  pub test_enable : Bool
  pub test_record_changeset : Bool
  pub skip_pending_status_check : Bool
  pub require_previous_changesets_done : Bool

module _ (o : Orm) where
  -- `record.changeset.change`. The columns `old_value_*` and `new_value_*` are functions of the suffix.
  pub record Change : Type 0 where
    pub changeset : ℕ
    pub field : Field
    pub rule : Option ℕ
    pub state : ChangeState
    pub old_value : Suffix → o.Value
    pub new_value : Suffix → o.Value
    pub verified_by : Option ℕ
    pub verified_on : Option ℕ

  -- `record.changeset`. `target` is the pair of `model` and `res_id`.
  pub record ChangesetRow : Type 0 where
    pub target : Ref
    pub change_ids : List ℕ
    pub date : ℕ
    pub modified_by : ℕ
    pub source : Option (String × ℕ)
    pub company : ℕ

  -- The tracked records, and the tables of the module. The ids in use are those below `next_*`.
  pub record Db : Type 0 where
    pub store : o.Store
    pub rules : List Rule
    pub change : ℕ → Change
    pub changeset : ℕ → ChangesetRow
    pub changeset_ids : List ℕ
    pub next_change : ℕ
    pub next_changeset : ℕ

  abbrev pub M : Type 0 → Type 0
  M A = Action Error Db A

abbrev pub is_pending_state : ChangeState → Bool
is_pending_state draft = true
is_pending_state _ = false

-- `change.state in ("done", "cancel")`
abbrev pub is_closed : ChangeState → Bool
is_closed draft = false
is_closed _ = true

abbrev pub validator_groups : Option Rule → List ℕ
validator_groups none = []
validator_groups (some rule) = rule.validator_groups

abbrev pub prevents_self : Option Rule → Bool
prevents_self none = false
prevents_self (some rule) = rule.prevent_self_validation

abbrev is_draft : ChangesetState → Bool
is_draft ChangesetState.draft = true
is_draft ChangesetState.done = false

module _ {o : Orm} where
  -- `change.write(...)`
  unfoldable pub write_change : ℕ → (Change o → Change o) → Db o → Db o
  write_change id f db = record db {
    change = λ i. if i == id then f (db.change i) else db.change i;
  }

  -- `_compute_state` of a changeset
  unfoldable pub compute_state : Db o → ℕ → ChangesetState
  compute_state db id =
      if all (λ c. is_closed (db.change c).state) (db.changeset id).change_ids then done else draft

  -- `_is_change_pending`
  unfoldable pub is_change_pending : Env → Change o → Bool
  is_change_pending env change = env.skip_pending_status_check || is_pending_state change.state

  -- `change.rule_id`: no record where the rule was deleted.
  abbrev pub rule_of : Db o → Change o → Option Rule
  rule_of db change = elim change.rule [ none ↦ none | some id ↦ browse db.rules id ]

  -- `_compute_user_can_validate_changeset`
  unfoldable pub user_can_validate : Env → Db o → Change o → Bool
  unfolding is_change_pending browse
  user_can_validate env db change =
      let rule = rule_of db change in
      let can_validate =
        is_change_pending env change
        && (env.is_superuser
            || (any (λ g. elem g env.groups) (validator_groups rule) || env.is_changeset_user)) in
      if prevents_self rule
      then can_validate && not ((db.changeset change.changeset).modified_by == env.uid)
      else can_validate

  -- `_compute_changeset_ids` and `_compute_count_pending_changesets` for one tracked record: the
  -- number of its changesets, of those in draft, and of the pending changes in these.
  abbrev changesets_of : Db o → Ref → List ℕ
  changesets_of db ref =
      keep
        (λ c.
          str_eq (db.changeset c).target.model ref.model && (db.changeset c).target.id == ref.id)
        db.changeset_ids

  abbrev changes_of : Db o → List ℕ → List ℕ
  changes_of db [] = []
  changes_of db (c ∷ cs) = (db.changeset c).change_ids ++ changes_of db cs

  unfoldable pub count_pending : Bool → Db o → Ref → ℕ × ℕ × ℕ
  unfolding compute_state
  count_pending tracked db ref =
      if tracked
      then (let all_changesets = changesets_of db ref in
          let pending = keep (λ c. is_draft (compute_state db c)) all_changesets in
          (
            length all_changesets,
            length pending,
            length (keep (λ c. is_pending_state (db.change c).state) (changes_of db pending)),
          ))
      else (0, 0, 0)
