-- ===== src/Examples/Crash.antt =====
-- The theorem on a worker that stops after its claim, at one job.
use job_queue_service.Prelude.{
  ℕ, ◌+◌, ◌<◌, ◌≡◌, ◌≢◌, refl, false, none, some, arith, List, [], ◌∷◌, length,
}
use job_queue_service.Prelude.Int.{pos}
use job_queue_service.Json.{end}
use job_queue_service.Job.{Job, pending}
use job_queue_service.Job.Sound.{IsSound}
use job_queue_service.Retry.{seconds}
use job_queue_service.Exec.{ok}
use job_queue_service.Config.{default_settings}
use job_queue_service.Postgres.{find_id}
use job_queue_service.Postgres.Memory.{memory}
use job_queue_service.Session.Laws.{Rows}
use job_queue_service.Service.Claim.{claim_job}
use job_queue_service.Service.Claim.Exclusive.{claimed}
use job_queue_service.Service.Owner.{extend_lease, update_progress, complete_job, fail_attempt}
use job_queue_service.Service.Owner.Fence.{Lost}
use job_queue_service.Service.Owner.Settle.{waiting_until}
use job_queue_service.Service.Sweep.{expired_jobs, activate_due_scheduled_jobs, lease_expired_error}
use job_queue_service.History.Crash.{
  first_attempt, after_claim, after_recovery, after_activation, claim_job-reclaims,
}
use job_queue_service.Examples.{fresh, All-Rows}

abbrev one_row : List Job
one_row = fresh 1 ∷ []

one_row-IsSound : Rows memory IsSound one_row
one_row-IsSound = All-Rows IsSound one_row (ground arith)

-- The row after the sweep that follows the end of the lease, which is over after a minute.
abbrev waiting : Job
waiting =
    waiting_until (seconds 70 + seconds 30) lease_expired_error
      (claimed 7 40 (seconds 1) (seconds 61) (fresh 1))

few :
    length (
      expired_jobs memory
        (λ n. false)
        5
        (seconds 70)
        (after_claim memory default_settings 1 7 40 (seconds 1) none one_row))
    < 5
unfolding job_queue_service.Postgres.Memory.Order.sorted
    job_queue_service.Postgres.Memory.Select.hits job_queue_service.Postgres.Memory.Select.visible
    claim_job job_queue_service.Session.execute_first job_queue_service.Postgres.Memory.rejected
    job_queue_service.Statement.claiming job_queue_service.Postgres.Memory.change_where
few = omega arith

activated :
    (activate_due_scheduled_jobs memory
      (λ n. false)
      5
      (seconds 100)
      (after_recovery memory default_settings 1 7 40
        (seconds 1)
        none
        one_row
        (λ n. false)
        5
        (seconds 70))).0
    ≡ ok (record waiting { status = pending } ∷ [])
unfolding activate_due_scheduled_jobs job_queue_service.Session.execute
    job_queue_service.Service.Sweep.recover_expired_leases
    job_queue_service.Service.Sweep.recover_each job_queue_service.Service.Sweep.recover_one
    job_queue_service.Service.Owner.apply_failed_attempt job_queue_service.Retry.retry_delay_seconds
    job_queue_service.Statement.rescheduling job_queue_service.Statement.activating
    job_queue_service.Postgres.Memory.Select.drop_id
    job_queue_service.Service.Owner.fail_permanently job_queue_service.Service.Owner.schedule_retry
    job_queue_service.Statement.giving_up job_queue_service.Postgres.Memory.Order.sorted
    job_queue_service.Postgres.Memory.Select.hits job_queue_service.Postgres.Memory.Select.visible
    claim_job job_queue_service.Session.execute_first job_queue_service.Postgres.Memory.rejected
    job_queue_service.Statement.claiming job_queue_service.Postgres.Memory.change_where
activated = refl

abbrev last_rows : List Job
last_rows =
    (claim_job memory default_settings 1 8 41 (seconds 102) none (
      after_activation memory default_settings 1 7 40 (seconds 1) none one_row (λ n. false) 5
        (seconds 70) (λ n. false) 5 (seconds 100))).1

fresh_token : ◌≢◌ {A = ℕ} 40 41
fresh_token = ground arith

claim_job-reclaims_example :
    ((k : Job) × ((claim_job memory default_settings 1 8 41 (seconds 102) none (
          after_activation memory default_settings 1 7 40
            (seconds 1)
            none
            one_row
            (λ n. false)
            5
            (seconds 70)
            (λ n. false)
            5
            (seconds 100))).0
        ≡ ok (some k))
      × (find_id 1 last_rows ≡ some k)
      × (k.worker_id ≡ some 8)
      × (k.attempt_count ≡ 2))
    × Lost memory (first_attempt 7 40 (fresh 1)) last_rows (
        extend_lease memory default_settings
          (first_attempt 7 40 (fresh 1))
          (seconds 103)
          none
          last_rows)
    × Lost memory
        (first_attempt 7 40 (fresh 1))
        last_rows
        (update_progress memory (first_attempt 7 40 (fresh 1)) (pos 50) last_rows)
    × Lost memory
        (first_attempt 7 40 (fresh 1))
        last_rows
        (complete_job memory (first_attempt 7 40 (fresh 1)) end (seconds 103) last_rows)
    × Lost memory
        (first_attempt 7 40 (fresh 1))
        last_rows
        (fail_attempt memory (first_attempt 7 40 (fresh 1)) "late" (seconds 103) last_rows)
claim_job-reclaims_example =
    claim_job-reclaims memory default_settings 1 7 40 (seconds 1) none one_row (λ n. false)
      (λ n. false) 5 (seconds 70) 5 (seconds 100) 8 41 (seconds 102) (seconds 103) none none
      (pos 50) end "late" (fresh 1) (record waiting { status = pending } ∷ []) one_row-IsSound refl
      refl (omega arith) (omega arith) refl few (omega arith) refl activated (omega arith)
      fresh_token
