-- ===== src/Worker/Loops.antt =====
-- worker/loops.py, and the loops of worker/runner.py, worker/scheduler.py and worker/recovery.py
-- around their cycles. A loop reads the stop event before each turn, `stops n` before the turn `n`;
-- it has fuel, and is `none` when that runs out.
pub mod Stops
pub mod Runs
use job_queue_service.Prelude.{ℕ, zero, suc, Bool, true, false, Option, none, some, if◌then◌else◌}
use job_queue_service.Exec.{Result, Exec, ok, err}
use job_queue_service.Config.{Settings}
use job_queue_service.Postgres.{Postgres}
use job_queue_service.Redis.{Redis, Uuids}
use job_queue_service.Queue.{Link}
use job_queue_service.Service.Mutate.{Stores}
use job_queue_service.Worker.Runner.{Round, run_once}
use job_queue_service.Worker.Sweeps.{schedule_once, recover_once}

module _ {S : Type 0} where
  -- `while not stop.is_set(): …`, from the turn `n`.
  unfoldable pub until_stopped : ℕ → (ℕ → Bool) → (ℕ → S → S) → ℕ → S → Option S
  until_stopped zero stops body n s = none
  until_stopped (suc fuel) stops body n s =
      let rest = until_stopped fuel stops body (suc n) (body n s) in
      if stops n then some s else rest

  -- `run_until_stopped`: an error of the cycle is logged. What others do during the sleep that
  -- follows is `sleeping`.
  unfoldable pub run_until_stopped :
      {A : Type 0} → ℕ → (ℕ → Bool) → (ℕ → Exec S A) → (ℕ → S → S) → S → Option S
  run_until_stopped fuel stops cycle sleeping =
      until_stopped fuel stops (λ n s. sleeping n (cycle n s).1) 0

  -- The end of a turn of the worker: it sleeps unless it has executed a job.
  abbrev pub rest_unless_busy : (S → S) → Result Bool × S → S
  rest_unless_busy sleeping (ok true, s) = s
  rest_unless_busy sleeping (ok false, s) = sleeping s
  rest_unless_busy sleeping (err e, s) = sleeping s

module _ (db : Postgres) (redis : Redis) (uuids : Uuids) where
  -- `JobRunner.run_forever`: the rounds of each cycle, and what others do while it sleeps.
  unfoldable pub run_forever :
      ℕ
      → (ℕ → Bool)
      → Settings
      → ℕ
      → (ℕ → ℕ → Round db redis uuids)
      → (ℕ → Stores db redis uuids → Stores db redis uuids)
      → Stores db redis uuids
      → Option (Stores db redis uuids)
  run_forever fuel stops settings worker rounds sleeping =
      until_stopped fuel stops
        (λ n s.
          rest_unless_busy (sleeping n) (run_once db redis uuids settings worker (rounds n) s))
        0

  -- `JobScheduler.run_forever`: the locks that others hold, the clock and the answers of the queue
  -- in each cycle.
  unfoldable pub schedule_forever :
      ℕ
      → (ℕ → Bool)
      → Settings
      → (ℕ → ℕ → Bool)
      → (ℕ → ℕ)
      → (ℕ → ℕ → Link)
      → (ℕ → Stores db redis uuids → Stores db redis uuids)
      → Stores db redis uuids
      → Option (Stores db redis uuids)
  unfolding run_until_stopped
  schedule_forever fuel stops settings locked now links sleeping =
      run_until_stopped fuel stops
        (λ n.
          schedule_once db redis uuids (locked n) settings.scheduler_batch_size (now n) (links n))
        sleeping

  -- `LeaseRecovery.run_forever`.
  unfoldable pub recover_forever :
      ℕ
      → (ℕ → Bool)
      → Settings
      → (ℕ → ℕ → Bool)
      → (ℕ → ℕ)
      → (ℕ → Stores db redis uuids → Stores db redis uuids)
      → Stores db redis uuids
      → Option (Stores db redis uuids)
  unfolding run_until_stopped
  recover_forever fuel stops settings locked now sleeping =
      run_until_stopped fuel stops
        (λ n. recover_once db redis uuids (locked n) settings.recovery_batch_size (now n)) sleeping
