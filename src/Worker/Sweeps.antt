-- ===== src/Worker/Sweeps.antt =====
-- worker/scheduler.py and worker/recovery.py: one cycle of each background loop.
pub mod Queued
use job_queue_service.Prelude.{ℕ, suc, Bool, List, [], ◌∷◌, length, ◌≡◌, refl, ap, ◌∙◌}
use job_queue_service.Job.{Job}
use job_queue_service.Exec.{Result, Exec, ok, pure, after-ok, ◌>>=◌, ◌>>◌}
use job_queue_service.Postgres.{Postgres}
use job_queue_service.Redis.{Redis, Uuids}
use job_queue_service.Queue.{Link, enqueue}
use job_queue_service.Service.Mutate.{Stores, on_table, on_queue, logged}
use job_queue_service.Service.Sweep.{activate_due_scheduled_jobs, recover_expired_leases}

module _ (db : Postgres) (redis : Redis) (uuids : Uuids) where
  open db use {Table}

  -- The loop over the activated rows; a failure of the queue is logged.
  unfoldable pub enqueue_each : (ℕ → Link) → List Job → Exec (Stores db redis uuids) (Unit {0})
  enqueue_each links [] = pure tt
  enqueue_each links (job ∷ jobs) =
      logged (on_queue (enqueue redis uuids (links 0) job.id job.priority))
      >> enqueue_each (λ n. links (suc n)) jobs

  -- `JobScheduler.run_once`.
  unfoldable pub schedule_once : (ℕ → Bool) → ℕ → ℕ → (ℕ → Link) → Exec (Stores db redis uuids) ℕ
  unfolding enqueue_each
  schedule_once locked batch_size now links = do
    activated ← on_table (activate_due_scheduled_jobs db locked batch_size now)
    enqueue_each links activated
    pure (length activated)

  -- `LeaseRecovery.run_once`.
  unfoldable pub recover_once : (ℕ → Bool) → ℕ → ℕ → Exec (Stores db redis uuids) ℕ
  recover_once locked batch_size now = do
    recovered ← on_table (recover_expired_leases db locked batch_size now)
    pure (length recovered)

  enqueue_each-ok :
      (links : ℕ → Link) (jobs : List Job) (s : Stores db redis uuids)
      → ((enqueue_each links jobs s).0 ≡ ok tt) × ((enqueue_each links jobs s).1.0 ≡ s.0)
  unfolding enqueue_each
  enqueue_each-ok links [] s = (refl, refl)
  enqueue_each-ok links (job ∷ jobs) s =
      enqueue_each-ok (λ n. links (suc n)) jobs
        (logged (on_queue (enqueue redis uuids (links 0) job.id job.priority)) s).1

  pub schedule_once_whole :
      (locked : ℕ → Bool) (batch_size now : ℕ) (links : ℕ → Link) (s : Stores db redis uuids)
      (activated : List Job)
      → (activate_due_scheduled_jobs db locked batch_size now s.0).0 ≡ ok activated
      → schedule_once locked batch_size now links s ≡ (
        ok (length activated),
        (enqueue_each links activated
            ((activate_due_scheduled_jobs db locked batch_size now s.0).1, s.1)).1,
      )
  unfolding schedule_once
  schedule_once_whole locked batch_size now links s activated e =
      let s' : Stores db redis uuids =
        ((activate_due_scheduled_jobs db locked batch_size now s.0).1, s.1) in
      after-ok _ (on_table (activate_due_scheduled_jobs db locked batch_size now) s) activated e
      ∙ after-ok (λ _. pure (length activated)) (enqueue_each links activated s') tt
          (enqueue_each-ok links activated s').0
