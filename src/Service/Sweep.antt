-- ===== src/Service/Sweep.antt =====
-- The batches of the background loops: `activate_due_scheduled_jobs` and `recover_expired_leases`.
pub mod Activate
pub mod Recover
pub mod Ended
pub mod Earliest
pub mod Taken
use job_queue_service.Prelude.{
  ℕ, String, Bool, true, ◌&&◌, not, Option, none, some, List, [], ◌∷◌, map, is_below,
}
use job_queue_service.Job.{Job, is_processing, attempt_of}
use job_queue_service.Exec.{Exec, value_error, pure, or_raise, transaction, ◌>>=◌}
use job_queue_service.Postgres.{Postgres}
use job_queue_service.Statement.{activating, is_due}
use job_queue_service.Session.{execute}
use job_queue_service.Service.Owner.{AttemptResult, apply_failed_attempt}

abbrev pub lease_expired_error : String
lease_expired_error = "worker lease expired"

-- The rows that recovery looks for.
abbrev pub is_expired : ℕ → Job → Bool
is_expired now j = is_processing j.status && is_below j.lease_expires_at now

abbrev keep_result : Option AttemptResult → List AttemptResult → List AttemptResult
keep_result none rs = rs
keep_result (some r) rs = r ∷ rs

module _ (db : Postgres) where
  open db use {Table, select_ordered}

  -- The rows of the common table expression: `FOR UPDATE SKIP LOCKED` passes over the rows that
  -- another transaction has `locked`.
  abbrev pub due_jobs : (ℕ → Bool) → ℕ → ℕ → Table → List Job
  due_jobs locked limit now =
      select_ordered (λ j. not (locked j.id) && is_due now j) (λ j. j.scheduled_at) limit

  unfoldable pub activate_due_scheduled_jobs : (ℕ → Bool) → ℕ → ℕ → Exec Table (List Job)
  activate_due_scheduled_jobs locked limit now t =
      execute db (activating (map (λ j. j.id) (due_jobs locked limit now t)) now) t

  abbrev pub expired_jobs : (ℕ → Bool) → ℕ → ℕ → Table → List Job
  expired_jobs locked limit now =
      select_ordered (λ j. not (locked j.id) && is_expired now j) (λ j. j.lease_expires_at) limit

  -- One round of the loop: the attempt is read off the selected row.
  unfoldable pub recover_one : ℕ → Job → Exec Table (Option AttemptResult)
  recover_one now job = do
    a ← or_raise (attempt_of job) value_error
    apply_failed_attempt db a lease_expired_error true now

  unfoldable pub recover_each : ℕ → List Job → Exec Table (List AttemptResult)
  recover_each now [] = pure []
  recover_each now (job ∷ jobs) = do
    result ← recover_one now job
    recovered ← recover_each now jobs
    pure (keep_result result recovered)

  -- One transaction for the batch.
  unfoldable pub recover_expired_leases : (ℕ → Bool) → ℕ → ℕ → Exec Table (List AttemptResult)
  recover_expired_leases locked limit now =
      transaction λ t. recover_each now (expired_jobs locked limit now t) t
