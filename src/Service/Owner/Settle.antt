-- ===== src/Service/Owner/Settle.antt =====
-- What the owner of a job writes while its attempt lasts.
use job_queue_service.Prelude.{
  ℕ, String, ◌+◌, ◌≤◌, ◌<◌, ◌≡◌, refl, Option, none, some, arith, true, false, ◌==◌, if◌then◌else◌,
}
use mathlib.Core.Path.{subst₂}
use job_queue_service.Prelude.Int.{ℤ, clamp}
use job_queue_service.Json.{Fields}
use job_queue_service.Job.{Job, Attempt, has_attempts_left, completed, scheduled, failed}
use job_queue_service.Job.Sound.{IsSound}
use job_queue_service.Retry.{seconds}
use job_queue_service.Exec.{Result, ok, after-ok}
use job_queue_service.Config.{Settings}
use job_queue_service.Postgres.{Postgres}
use job_queue_service.Statement.{
  extending, progressing, completing, rescheduling, giving_up, owned_by, lease_deadline, released,
}
use job_queue_service.Statement.Safe.{extending-IsSafe, progressing-IsSafe, completing-IsSafe}
use job_queue_service.Session.{execute_first}
use job_queue_service.Session.Laws.{Rows, OtherRows, execute_first-Wrote}
use job_queue_service.Service.Owner.{
  AttemptOutcome, extend_lease, update_progress, complete_job, fail_attempt,
}
use job_queue_service.Service.Owner.Verdict.{
  IsCounted, verdict, verdict_outcome, verdict-IsSafe, verdict-IsKeyed, apply_failed_attempt_lem,
  extending-IsKeyed, progressing-IsKeyed, completing-IsKeyed,
}

-- The row of a job that completed, that waits for a retry, and that failed for good.
abbrev pub completed_with : Fields → ℕ → Job → Job
completed_with result now j = record (released j) {
  status = completed;
  result = some result;
  progress = 100;
  completed_at = some now;
  error = none;
}

abbrev pub waiting_until : ℕ → String → Job → Job
waiting_until due error j = record (released j) {
  status = scheduled;
  scheduled_at = some due;
  error = some error;
}

abbrev pub failed_with : String → ℕ → Job → Job
failed_with error now j = record (released j) {
  status = failed;
  error = some error;
  completed_at = some now;
}

module _ (db : Postgres) where
  open db use {Table, row}

  -- The call returned `a`, the row of `i` is now `j`, and no other row changed.
  abbrev pub Settled : {A : Type 0} → ℕ → Job → A → Table → Result A × Table → Type 0
  Settled i j a t (r, t') = (r ≡ ok a) × (row t' i ≡ some j) × OtherRows db i t t'

  module _ (a : Attempt) (t : Table) (sound : Rows db IsSound t) (j : Job)
      (found : row t a.job_id ≡ some j) (owns : owned_by a j ≡ true) where
    -- On a table of sound rows, a heartbeat of the owner of a row returns the new deadline, stores
    -- it as the lease and changes nothing else.
    pub extend_lease-Settled :
        (settings : Settings) (now : ℕ) (lease : Option ℕ)
        → let deadline = lease_deadline settings.job_lease_seconds lease now in
          Settled a.job_id
            (record j { lease_expires_at = some deadline })
            deadline
            t
            (extend_lease db settings a now lease t)
    unfolding extend_lease extending
    extend_lease-Settled settings now lease =
        let d = lease_deadline settings.job_lease_seconds lease now in
        let (won, at, others) =
          execute_first-Wrote db (extending a d) (extending-IsSafe a d) t sound a.job_id
            (extending-IsKeyed a d) j found owns in
        rw (after-ok _ (execute_first db (extending a d) t) _ won) (refl, at, others)

    -- On a table of sound rows, a progress report of the owner of a row stores the number moved
    -- into 0 to 100, and changes nothing else.
    pub update_progress-Settled :
        (progress : ℤ)
        → Settled a.job_id
            (record j { progress = clamp 100 progress })
            tt
            t
            (update_progress db a progress t)
    unfolding update_progress progressing
    update_progress-Settled p =
        let (won, at, others) =
          execute_first-Wrote db (progressing a p) (progressing-IsSafe a p) t sound a.job_id
            (progressing-IsKeyed a p) j found owns in
        rw (after-ok _ (execute_first db (progressing a p) t) _ won) (refl, at, others)

    -- On a table of sound rows, completion by the owner of a row returns the row, now released and
    -- COMPLETED with the result, progress 100 and the time, and changes no other row.
    pub complete_job-Settled :
        (result : Fields) (now : ℕ)
        → Settled a.job_id
            (completed_with result now j)
            (completed_with result now j)
            t
            (complete_job db a result now t)
    unfolding complete_job completing
    complete_job-Settled r now =
        let (won, at, others) =
          execute_first-Wrote db (completing a r now) (completing-IsSafe a r now) t sound a.job_id
            (completing-IsKeyed a r now) j found owns in
        rw (after-ok _ (execute_first db (completing a r now) t) _ won) (refl, at, others)

    module _ (c : IsCounted a) (counts : a.attempt_count ≡ j.attempt_count)
        (limits : a.max_attempts ≡ j.max_attempts) (error : String) (now : ℕ) where
      verdict_holds : (verdict a error false now).guard j ≡ true
      unfolding rescheduling giving_up
      verdict_holds = ground arith

      fail_attempt-verdict :
          Settled a.job_id
            ((verdict a error false now).change j)
            (record { outcome = verdict_outcome a; job = (verdict a error false now).change j })
            t
            (fail_attempt db a error now t)
      unfolding fail_attempt
      fail_attempt-verdict =
          let (won, at, others) =
            execute_first-Wrote db (verdict a error false now) (verdict-IsSafe a error false now) t
              sound a.job_id (verdict-IsKeyed a error false now) j found verdict_holds in
          rw (apply_failed_attempt_lem db a error false now c t) (
            rw (after-ok _ (execute_first db (verdict a error false now) t) _ won)
              (refl, at, others))

      abbrev Ends : Job → AttemptOutcome → Type 0
      Ends j' outcome =
          Settled a.job_id j' (record { outcome = outcome; job = j' }) t
            (fail_attempt db a error now t)

      -- On a table of sound rows, a failure that the owner of a row reports with attempts left, for
      -- a counted attempt that agrees with the row, returns a scheduled retry: the row is released
      -- and SCHEDULED 30 seconds later after the first attempt and 120 seconds later after another,
      -- it keeps the error, and no other row changes.
      pub fail_attempt-waits :
          j.attempt_count < j.max_attempts
          → let wait =
              waiting_until (now + seconds (if j.attempt_count == 1 then 30 else 120)) error j in
            Settled a.job_id wait
              (record { outcome = AttemptOutcome.retry_scheduled; job = wait })
              t
              (fail_attempt db a error now t)
      unfolding rescheduling
      fail_attempt-waits left =
          let more : has_attempts_left a ≡ true = ground arith in
          subst₂ Ends (rw (more, counts)) (rw more) fail_attempt-verdict

      -- On a table of sound rows, a failure that the owner of a row reports with no attempts left,
      -- for a counted attempt that agrees with the row, is permanent: the row is released and
      -- FAILED with the error and the time, and no other row changes.
      pub fail_attempt-fails :
          j.max_attempts ≤ j.attempt_count
          → let ended = failed_with error now j in
            Settled a.job_id ended
              (record { outcome = AttemptOutcome.permanently_failed; job = ended })
              t
              (fail_attempt db a error now t)
      unfolding giving_up
      fail_attempt-fails spent =
          let none_left : has_attempts_left a ≡ false = ground arith in
          subst₂ Ends (rw none_left) (rw none_left) fail_attempt-verdict
