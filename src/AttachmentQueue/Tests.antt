-- ===== src/AttachmentQueue/Tests.antt =====
-- An attachment whose processing writes and then fails, and the theorem applied to it.
use oca_server_tools.Common.{ℕ, ◌≡◌, refl, false}
use oca_server_tools.Common.Action.{Action, err}
use oca_server_tools.AttachmentQueue.{
  pending, failed, Exn, retryable, Db, Cursor, run_as_job, run, savepoint, handle, commit,
  set_attachment_failure, finish,
}
use oca_server_tools.AttachmentQueue.Jobs.{JobEnds, run_as_job-JobEnds}

abbrev busy : Action Exn (Db ℕ) Unit
busy db = (err (retryable "busy"), record db { rest = 7 })

abbrev start : Db ℕ
start = record { state = pending; state_message = ""; date_done = 0; jobs = 1; mails = 0; rest = 3 }

abbrev cursor : Cursor ℕ
cursor = record { db = start; committed = start }

abbrev after : Db ℕ
after = record start { state = failed; state_message = "busy"; mails = 1 }

failed_run : finish (run_as_job busy 5 "a@b" false cursor) ≡ after
unfolding run_as_job handle savepoint run commit set_attachment_failure
failed_run = refl

run_as_job-JobEnds_example : JobEnds busy start (err (retryable "busy")) after
unfolding run_as_job handle savepoint run commit set_attachment_failure
run_as_job-JobEnds_example = run_as_job-JobEnds busy 5 "a@b" cursor refl refl
