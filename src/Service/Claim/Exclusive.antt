-- ===== src/Service/Claim/Exclusive.antt =====
-- Who gets a job: a claim of a pending job wins, and from then on no claim of it does.
use job_queue_service.Prelude.{ℕ, ◌+◌, ◌≡◌, ◌≢◌, Option, some, arith}
use job_queue_service.Job.{Job, pending, processing}
use job_queue_service.Job.Sound.{IsSound}
use job_queue_service.Exec.{ok}
use job_queue_service.Config.{Settings}
use job_queue_service.Postgres.{Postgres}
use job_queue_service.Statement.{claiming, lease_deadline}
use job_queue_service.Statement.Safe.{claiming-IsSafe}
use job_queue_service.Session.Laws.{
  Rows, IsKeyed, Wrote, Refused, execute_first-Wrote, execute_first-Refused, execute-IsSound,
  execute_first_safe,
}
use job_queue_service.Service.Claim.{claim_job}

pub claiming-IsKeyed :
    (i worker token now deadline : ℕ) → IsKeyed i (claiming i worker token now deadline)
unfolding claiming
claiming-IsKeyed i worker token now deadline j g = ground arith

-- The row of a job that has been claimed.
abbrev pub claimed : ℕ → ℕ → ℕ → ℕ → Job → Job
claimed worker token now deadline j = record j {
  status = processing;
  worker_id = some worker;
  execution_token = some token;
  lease_expires_at = some deadline;
  started_at = some now;
  attempt_count = j.attempt_count + 1;
}

module _ (db : Postgres) (settings : Settings) where
  open db use {Table, row, row-id}

  module _ (i worker token now : ℕ) (lease : Option ℕ) (t : Table) (sound : Rows db IsSound t) where
    abbrev deadline : ℕ
    deadline = lease_deadline settings.job_lease_seconds lease now

    -- On a table of sound rows, a claim of a pending job returns it PROCESSING, in the hands of the
    -- worker and under the token, with its lease and one attempt more, which is its row now, and
    -- changes no other row.
    pub claim_job-Wrote :
        (j : Job)
        → row t i ≡ some j
        → j.status ≡ pending
        → Wrote db i
            (claimed worker token now deadline j)
            t
            (claim_job db settings i worker token now lease t)
    unfolding claim_job claiming
    claim_job-Wrote j found waits =
        execute_first-Wrote db (claiming i worker token now deadline)
          (claiming-IsSafe i worker token now deadline) t sound i
          (claiming-IsKeyed i worker token now deadline) j found
          (ground (arith, row-id t i j found, sound i j found))

    -- On a table of sound rows, a claim of a job that is missing or not pending returns nothing and
    -- changes no row.
    pub claim_job-Refused :
        ((j : Job) → row t i ≡ some j → j.status ≢ pending)
        → Refused db t (claim_job db settings i worker token now lease t)
    unfolding claim_job claiming
    claim_job-Refused busy =
        execute_first-Refused db (claiming i worker token now deadline)
          (claiming-IsSafe i worker token now deadline) t sound i
          (claiming-IsKeyed i worker token now deadline) (λ j found. ground (arith, busy j found))

    pub claim_job-IsSound : Rows db IsSound (claim_job db settings i worker token now lease t).1
    unfolding claim_job
    claim_job-IsSound =
        simp
          (execute_first_safe db (claiming i worker token now deadline)
            (claiming-IsSafe i worker token now deadline) t sound i
            (claiming-IsKeyed i worker token now deadline))
          (execute-IsSound db (claiming i worker token now deadline)
            (claiming-IsSafe i worker token now deadline) t sound)

  -- On a table of sound rows, a claim of a pending job returns a job, and a second claim of that
  -- job made right after it, by any worker under any token, returns nothing and changes no row.
  pub claim_job-claim_job :
      (i worker token now worker' token' now' : ℕ) (lease lease' : Option ℕ) (t : Table)
      → Rows db IsSound t
      → (j : Job) → row t i ≡ some j
      → j.status ≡ pending
      → let first = claim_job db settings i worker token now lease t in
        ((k : Job) × (first.0 ≡ ok (some k)))
        × Refused db first.1 (claim_job db settings i worker' token' now' lease' first.1)
  claim_job-claim_job i worker token now worker' token' now' lease lease' t sound j found waits =
      let (won, now_at, _) = claim_job-Wrote i worker token now lease t sound j found waits in
      (
        (_, won),
        claim_job-Refused i worker' token' now' lease' _
            (claim_job-IsSound i worker token now lease t sound) λ k at e. ground (arith, now_at),
      )
