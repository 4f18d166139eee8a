-- ===== src/Examples/Ownership.antt =====
-- The theorems on ownership at concrete rows.
use job_queue_service.Prelude.{ℕ, true, ◌⊎◌, ◌≡◌, ◌≢◌, refl, none, some, arith}
use job_queue_service.Prelude.Int.{pos}
use job_queue_service.Job.{Job, pending}
use job_queue_service.Exec.{ok}
use job_queue_service.Config.{Settings, default_settings}
use job_queue_service.Postgres.{find_id}
use job_queue_service.Postgres.Memory.{memory}
use job_queue_service.Session.Laws.{Refused}
use job_queue_service.Service.Claim.{claim_job}
use job_queue_service.Service.Claim.Exclusive.{claim_job-claim_job}
use job_queue_service.Service.Owner.{AttemptOutcome, update_progress, fail_attempt}
use job_queue_service.Service.Owner.Verdict.{IsCounted}
use job_queue_service.Service.Owner.Progress.{IsNearest, update_progress-IsNearest}
use job_queue_service.Service.Owner.Fence.{IsStale, Lost}
use job_queue_service.Statement.{owned_by}
use job_queue_service.Service.Owner.Settle.{
  Settled, waiting_until, failed_with, fail_attempt-waits, fail_attempt-fails,
}
use job_queue_service.Examples.{rows, rows-IsSound, fresh, running, attempt, spent, spent_attempt}

claim_job-claim_job_example :
    let first = claim_job memory default_settings 1 8 41 100 none rows in
    ((k : Job) × (first.0 ≡ ok (some k)))
    × Refused memory first.1 (claim_job memory default_settings 1 9 42 101 none first.1)
claim_job-claim_job_example =
    claim_job-claim_job memory default_settings 1 8 41 100 9 42 101 none none rows rows-IsSound
      (fresh 1) refl refl

running_busy : (j : Job) → find_id 2 rows ≡ some j → j.status ≢ pending
running_busy j e = ground arith

-- A report of 250 of the worker that owns job 2.
update_progress-IsNearest_example :
    ((j : Job) × (n : ℕ) × (find_id 2 rows ≡ some j)
      × (owned_by (attempt 2) j ≡ true)
      × IsNearest (pos 250) n
      × Settled memory 2
          (record j { progress = n })
          tt
          rows
          (update_progress memory (attempt 2) (pos 250) rows))
    ⊎ (IsStale memory (attempt 2) rows
        × Lost memory (attempt 2) rows (update_progress memory (attempt 2) (pos 250) rows))
update_progress-IsNearest_example =
    update_progress-IsNearest memory (attempt 2) rows (pos 250) rows-IsSound

pub attempt-IsCounted : IsCounted (attempt 2)
attempt-IsCounted = record { limited = refl; counted = omega arith }

spent_attempt-IsCounted : IsCounted spent_attempt
spent_attempt-IsCounted = record { limited = refl; counted = omega arith }

fail_attempt-waits_example :
    Settled memory 2
      (waiting_until 120000090 "boom" (running 2))
      (record {
        outcome = AttemptOutcome.retry_scheduled;
        job = waiting_until 120000090 "boom" (running 2);
      })
      rows
      (fail_attempt memory (attempt 2) "boom" 90 rows)
fail_attempt-waits_example =
    fail_attempt-waits memory (attempt 2) rows rows-IsSound (running 2) refl refl attempt-IsCounted
      refl refl "boom" 90 (omega arith)

fail_attempt-fails_example :
    Settled memory 4
      (failed_with "boom" 90 spent)
      (record { outcome = AttemptOutcome.permanently_failed; job = failed_with "boom" 90 spent })
      rows
      (fail_attempt memory spent_attempt "boom" 90 rows)
fail_attempt-fails_example =
    fail_attempt-fails memory spent_attempt rows rows-IsSound spent refl refl
      spent_attempt-IsCounted refl refl "boom" 90 (omega arith)

abbrev impatient : Settings
impatient = record default_settings {
  job_lease_seconds = 31000000;
  job_heartbeat_seconds = 10000000;
}
