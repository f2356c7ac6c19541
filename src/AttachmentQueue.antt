-- ===== src/AttachmentQueue.antt =====
-- attachment_queue: the processing of one attachment, by a button or by a job (attachment_queue.py).
pub mod Jobs
mod Tests
use oca_server_tools.Common.{
  ℕ, suc, ◌+◌, String, Bool, true, false, not, List, [], ◌∷◌, str_eq, if◌then◌else◌,
}
use oca_server_tools.Common.Action.{Result, ok, err, Action, ◌>>=◌, ◌>>◌, modify, pure}

-- The field `state`
pub data State : Type 0 where
  pending failed done : State

-- `OperationalError`, with the test of its code against `PG_CONCURRENCY_ERRORS_TO_RETRY`,
-- `RetryableJobError`, `UserError` and any other exception.
pub data Exn : Type 0 where
  operational : (retries : Bool) → String → Exn
  retryable user other : String → Exn

abbrev pub message_of : Exn → String
message_of (operational retries text) = text
message_of (retryable text) = text
message_of (user text) = text
message_of (other text) = text

abbrev pub is_done : State → Bool
is_done done = true
is_done pending = false
is_done failed = false

-- The attachment, the jobs and mails that were created, and the rest of the database.
pub record Db {ℓ} (D : Type ℓ) : Type ℓ where
  pub state : State
  pub state_message : String
  pub date_done : ℕ
  pub jobs : ℕ
  pub mails : ℕ
  pub rest : D

-- The transaction and what is committed of it.
pub record Cursor {ℓ} (D : Type ℓ) : Type ℓ where
  pub db : Db D
  pub committed : Db D

abbrev err_running : String
err_running = "The attachment is currently being in processing"

module _ {D : Type 0} where
  abbrev pub on_db : (Db D → Db D) → Action Exn (Cursor D) Unit
  on_db f c = (ok tt, record c { db = f c.db })

  -- `with self.env.cr.savepoint()`
  abbrev undo : Cursor D → Result Exn Unit × Cursor D → Result Exn Unit × Cursor D
  undo before (ok u, c) = (ok u, c)
  undo before (err e, c) = (err e, record c { db = before.db })

  unfoldable pub savepoint : Action Exn (Cursor D) Unit → Action Exn (Cursor D) Unit
  savepoint body c = undo c (body c)

  -- `self.env.cr.commit()`
  unfoldable pub commit : Cursor D → Cursor D
  commit c = record c { committed = c.db }

  -- `_schedule_jobs` on one attachment
  unfoldable pub schedule_jobs : Db D → Db D
  schedule_jobs db = record db { jobs = suc db.jobs }

  -- `create` on one attachment
  unfoldable pub create : Db D → Db D
  unfolding schedule_jobs
  create db = schedule_jobs (record db { state = pending })

  -- `button_reschedule`
  unfoldable pub button_reschedule : Db D → Db D
  unfolding schedule_jobs
  button_reschedule db = schedule_jobs (record db { state = pending; state_message = "" })

  -- `set_done` by the user with this message
  unfoldable pub set_done : String → Db D → Db D
  set_done message db = record db { state_message = message; state = done }

  -- `_set_attachment_failure`, where `failure_emails` are the addresses to notify
  unfoldable pub set_attachment_failure : String → Exn → Db D → Db D
  set_attachment_failure failure_emails error db =
      let written = record db { state = failed; state_message = message_of error } in
      if not (str_eq failure_emails "")
      then record written { mails = suc written.mails }
      else written

  -- The `_run` of the file type, the time, and the addresses to notify.
  module _ (process : Action Exn (Db D) Unit) (now : ℕ) (failure_emails : String) where
    abbrev in_cursor : Cursor D → Result Exn Unit × Db D → Result Exn Unit × Cursor D
    in_cursor c (r, db) = (r, record c { db = db })

    -- `run`
    unfoldable pub run : Action Exn (Cursor D) Unit
    run =
        (λ c. in_cursor c (process c.db))
        >> on_db (λ db. record db { state = done; date_done = now })

    abbrev failure : Exn → Cursor D → Cursor D
    failure error c = record c { db = set_attachment_failure failure_emails error c.db }

    -- The `except` clauses of `run_as_job`
    unfoldable pub handle : Result Exn Unit × Cursor D → Result Exn Unit × Cursor D
    unfolding commit set_attachment_failure
    handle (ok u, c) = (ok u, c)
    handle (err (operational true text), c) = (err (operational true text), c)
    handle (err (operational false text), c) = (ok tt, failure (operational false text) c)
    handle (err (retryable text), c) = (err (retryable text), commit (failure (retryable text) c))
    handle (err (user text), c) = (ok tt, failure (user text) c)
    handle (err (other text), c) = (ok tt, failure (other text) c)

    -- `run_as_job`, where the row may be locked by another transaction
    unfoldable pub run_as_job : Bool → Action Exn (Cursor D) Unit
    unfolding run savepoint handle
    run_as_job locked c =
        if locked
        then (err (retryable err_running), c)
        else if not (is_done c.db.state)
        then handle (savepoint run c)
        else (ok tt, c)

    -- `button_manual_run`
    unfoldable pub button_manual_run : Bool → Action Exn (Cursor D) Unit
    unfolding run
    button_manual_run locked c =
        if locked
        then (err (user err_running), c)
        else if not (is_done c.db.state)
        then run c
        else (ok tt, c)

-- The job runner: it commits after a job that returned, else it rolls back.
abbrev pub finish : {D : Type 0} → Result Exn Unit × Cursor D → Db D
finish (ok u, c) = c.db
finish (err e, c) = c.committed
