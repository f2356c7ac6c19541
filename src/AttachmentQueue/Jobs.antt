-- ===== src/AttachmentQueue/Jobs.antt =====
-- What is committed when a job of an attachment is over.
use oca_server_tools.Common.{ℕ, ◌≡◌, refl, String, true, false, ◌⊎◌, inl, inr, Bool-cases, str_eq}
use oca_server_tools.Common.Action.{Result, ok, err, Action}
use oca_server_tools.AttachmentQueue.{
  failed, done, Exn, operational, retryable, user, other, message_of, is_done, Db, Cursor,
  savepoint, commit, set_attachment_failure, run, handle, run_as_job, finish,
}

module _ {D : Type 0} where
  -- The processing ended: its work is kept and the attachment is done.
  abbrev pub Processed : Action Exn (Db D) Unit → Db D → Db D → Type 0
  Processed process before after =
      (db : Db D) × (process before ≡ (ok tt, db)) × (after.state ≡ done) × (after.rest ≡ db.rest)

  -- The processing raised: nothing is kept of it but the failure.
  abbrev pub FailedWith : Action Exn (Db D) Unit → Db D → Db D → Type 0
  FailedWith process before after =
      (error : Exn) × ((process before).0 ≡ err error)
      × ((after.state ≡ failed)
          × (after.state_message ≡ message_of error)
          × (after.rest ≡ before.rest))

  -- A concurrency error was raised again, for the runner to take the job again.
  abbrev pub TakenAgain : Action Exn (Db D) Unit → Db D → Result Exn Unit → Db D → Type 0
  TakenAgain process before result after =
      (text : String) × ((process before).0 ≡ err (operational true text))
      × (result ≡ err (operational true text))
      × (after ≡ before)

  abbrev pub JobEnds : Action Exn (Db D) Unit → Db D → Result Exn Unit → Db D → Type 0
  JobEnds process before result after =
      Processed process before after
      ⊎ (FailedWith process before after ⊎ TakenAgain process before result after)

  failure_fields :
      (emails : String) (error : Exn) (db : Db D)
      → ((set_attachment_failure emails error db).state ≡ failed)
        × ((set_attachment_failure emails error db).state_message ≡ message_of error)
        × ((set_attachment_failure emails error db).rest ≡ db.rest)
  unfolding set_attachment_failure
  failure_fields emails error db = elim (Bool-cases (str_eq emails "")) [
    | inl e ↦ rw e (refl, refl, refl)
    | inr e ↦ rw e (refl, refl, refl)
  ]

  module _ (process : Action Exn (Db D) Unit) (now : ℕ) (emails : String) where
    run_ends :
        (r : Result Exn Unit) (db : Db D) (c : Cursor D)
        → process c.db ≡ (r, db)
        → c.committed ≡ c.db
        → JobEnds process c.db
            (handle process now emails (savepoint (run process now emails) c)).0
            (finish (handle process now emails (savepoint (run process now emails) c)))
    unfolding handle savepoint run commit
    run_ends (ok u) db c e same = rw e (inl (db, refl, refl, refl))
    run_ends (err (operational true text)) db c e same = rw e (inr (inr (text, refl, refl, same)))
    run_ends (err (operational false text)) db c e same = rw e (
        inr
          (inl (operational false text, refl, failure_fields emails (operational false text) c.db)))
    run_ends (err (retryable text)) db c e same =
        rw e (inr (inl (retryable text, refl, failure_fields emails (retryable text) c.db)))
    run_ends (err (user text)) db c e same =
        rw e (inr (inl (user text, refl, failure_fields emails (user text) c.db)))
    run_ends (err (other text)) db c e same =
        rw e (inr (inl (other text, refl, failure_fields emails (other text) c.db)))

    -- A job of an attachment that is not done and that no other transaction holds, once the runner
    -- has committed or rolled back, leaves it in one of three ways: the processing returned, and
    -- the attachment is done with its work kept; or it raised, and the attachment has failed with
    -- the error's message and nothing else of the work is kept; or it raised a concurrency error,
    -- which is raised again with everything as before.
    pub run_as_job-JobEnds :
        (c : Cursor D)
        → is_done c.db.state ≡ false
        → c.committed ≡ c.db
        → JobEnds process c.db
            (run_as_job process now emails false c).0
            (finish (run_as_job process now emails false c))
    unfolding run_as_job
    run_as_job-JobEnds c not_done same =
        rw not_done (run_ends (process c.db).0 (process c.db).1 c refl same)
