-- ===== src/Service/Claim.antt =====
-- `claim_job`: the transition from PENDING to PROCESSING that grants ownership.
pub mod Exclusive
use job_queue_service.Prelude.{ℕ, Option}
use job_queue_service.Job.{Job}
use job_queue_service.Exec.{Exec}
use job_queue_service.Config.{Settings}
use job_queue_service.Postgres.{Postgres}
use job_queue_service.Statement.{claiming, lease_deadline}
use job_queue_service.Session.{execute_first}

module _ (db : Postgres) (settings : Settings) where
  open db use {Table}

  -- `token` is the fresh `uuid4()` that the claim mints.
  unfoldable pub claim_job : ℕ → ℕ → ℕ → ℕ → Option ℕ → Exec Table (Option Job)
  claim_job job_id worker token now lease =
      execute_first db
        (claiming job_id worker token now (lease_deadline settings.job_lease_seconds lease now))
