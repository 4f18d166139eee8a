-- ===== src/Examples/Batches.antt =====
-- The theorem on the batches of recovery at concrete rows, whose one lease has expired.
use job_queue_service.Prelude.{◌≡◌, some, false, All}
use job_queue_service.Postgres.{find_id}
use job_queue_service.Postgres.Memory.{memory}
use job_queue_service.Service.Sweep.{expired_jobs, recover_expired_leases}
use job_queue_service.Service.Sweep.Ended.{ended, recover_expired_leases-ended}
use job_queue_service.Examples.{rows, rows-IsSound}

recover_expired_leases-ended_example :
    All
      (λ j.
        find_id j.id (recover_expired_leases memory (λ i. false) 100 501 rows).1
        ≡ some (ended 501 j))
      (expired_jobs memory (λ i. false) 100 501 rows)
recover_expired_leases-ended_example =
    recover_expired_leases-ended memory (λ i. false) 100 501 rows rows-IsSound
