-- ===== src/Service/Owner.antt =====
-- The fenced writes of an owner: `extend_lease`, `update_progress`, `complete_job`,
-- `_apply_failed_attempt` and `fail_attempt`.
pub mod Verdict
pub mod Fence
pub mod Settle
pub mod Progress
use job_queue_service.Prelude.{
  ℕ, String, ◌+◌, Bool, true, false, Option, none, some, if◌then◌else◌, head?, is_some,
}
use job_queue_service.Prelude.Int.{ℤ}
use job_queue_service.Json.{Fields}
use job_queue_service.Job.{Job, Attempt, has_attempts_left}
use job_queue_service.Retry.{retry_delay_seconds, seconds}
use job_queue_service.Exec.{Exec, ownership_lost, value_error, pure, raise, or_raise, ◌>>=◌, ◌>>◌}
use job_queue_service.Config.{Settings}
use job_queue_service.Postgres.{Postgres}
use job_queue_service.Statement.{
  extending, progressing, completing, rescheduling, giving_up, lease_deadline,
}
use job_queue_service.Session.{execute_first}

-- `AttemptOutcome` and `AttemptResult`.
pub data AttemptOutcome : Type 0 where
  retry_scheduled permanently_failed : AttemptOutcome

pub record AttemptResult : Type 0 where
  pub outcome : AttemptOutcome
  pub job : Job

-- `.returning(Job.lease_expires_at)`, `.first()`.
abbrev pub returned_lease : Option Job → Option ℕ
returned_lease none = none
returned_lease (some j) = j.lease_expires_at

-- `if not result.rowcount: raise`.
abbrev pub written_or_raise : {S : Type 0} → Attempt → Option Job → Exec S (Unit {0})
written_or_raise a none = raise (ownership_lost a)
written_or_raise a (some _) = pure tt

abbrev pub with_outcome : AttemptOutcome → Option Job → Option AttemptResult
with_outcome outcome none = none
with_outcome outcome (some j) = some (record { outcome = outcome; job = j })

module _ (db : Postgres) where
  open db use {Table}

  unfoldable pub extend_lease : Settings → Attempt → ℕ → Option ℕ → Exec Table ℕ
  extend_lease settings a now lease = do
    extended ← execute_first db (extending a (lease_deadline settings.job_lease_seconds lease now))
    or_raise (returned_lease extended) (ownership_lost a)

  unfoldable pub update_progress : Attempt → ℤ → Exec Table (Unit {0})
  update_progress a progress = do
    result ← execute_first db (progressing a progress)
    written_or_raise a result

  unfoldable pub complete_job : Attempt → Fields → ℕ → Exec Table Job
  complete_job a result now = do
    job ← execute_first db (completing a result now)
    or_raise job (ownership_lost a)

  unfoldable pub schedule_retry : Attempt → String → Bool → ℕ → Exec Table (Option AttemptResult)
  schedule_retry a error expired now = do
    delay ← or_raise (retry_delay_seconds a.attempt_count) value_error
    job ← execute_first db (rescheduling a error (now + seconds delay) expired now)
    pure (with_outcome AttemptOutcome.retry_scheduled job)

  unfoldable pub fail_permanently : Attempt → String → Bool → ℕ → Exec Table (Option AttemptResult)
  fail_permanently a error expired now = do
    job ← execute_first db (giving_up a error expired now)
    pure (with_outcome AttemptOutcome.permanently_failed job)

  -- `_apply_failed_attempt`; `expired` is `require_expired_lease`.
  unfoldable pub apply_failed_attempt :
      Attempt → String → Bool → ℕ → Exec Table (Option AttemptResult)
  unfolding schedule_retry fail_permanently
  apply_failed_attempt a error expired now =
      if has_attempts_left a
      then schedule_retry a error expired now
      else fail_permanently a error expired now

  unfoldable pub fail_attempt : Attempt → String → ℕ → Exec Table AttemptResult
  fail_attempt a error now = do
    result ← apply_failed_attempt a error false now
    or_raise result (ownership_lost a)
