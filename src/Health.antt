-- ===== src/Health.antt =====
-- app/services/health.py and app/schemas/health.py, with the route `/health` of app/main.py.
pub mod Report
use job_queue_service.Prelude.{
  ℕ, String, Bool, true, false, ◌&&◌, Option, none, some, if◌then◌else◌,
}
use text.Mathlib.Text.{◌==◌ as str_eq}
use job_queue_service.Job.{JobStatus, scheduled, pending, processing, completed, failed, cancelled}
use job_queue_service.Exec.{Result, Exec, ok, err, pure, ◌>>=◌, ◌>>◌}
use job_queue_service.Postgres.{Postgres}
use job_queue_service.Postgres.Reports.{Reports}
use job_queue_service.Redis.{Redis, Uuids}
use job_queue_service.Queue.{Link, call, size}
use job_queue_service.Service.Mutate.{Stores, on_table, on_queue}
use job_queue_service.Service.Query.{count_jobs_by_status}

-- `HEALTHY` and `UNHEALTHY`.
abbrev pub healthy : String
healthy = "healthy"

abbrev pub unhealthy : String
unhealthy = "unhealthy"

pub record QueueStats : Type 0 where
  pub ready : Option ℕ
  pub pending : Option ℕ
  pub scheduled : Option ℕ
  pub processing : Option ℕ
  pub completed : Option ℕ
  pub failed : Option ℕ
  pub cancelled : Option ℕ

pub record HealthResponse : Type 0 where
  pub status : String
  pub database : String
  pub redis : String
  pub queue : QueueStats

-- `QueueStats(ready=ready, **counts)`; `counts` is `none` at every status until they are read.
abbrev pub count_of : Option (JobStatus → ℕ) → JobStatus → Option ℕ
count_of none s = none
count_of (some counts) s = some (counts s)

abbrev pub queue_stats : Option ℕ → (JobStatus → Option ℕ) → QueueStats
queue_stats ready counts = record {
  ready = ready;
  pending = counts JobStatus.pending;
  scheduled = counts JobStatus.scheduled;
  processing = counts JobStatus.processing;
  completed = counts JobStatus.completed;
  failed = counts JobStatus.failed;
  cancelled = counts JobStatus.cancelled;
}

-- What stands for a store whose probe was answered, and for one whose probe raised.
abbrev pub state_of : {A : Type 0} → Option A → String
state_of none = unhealthy
state_of (some a) = healthy

abbrev pub response_of : Option (JobStatus → ℕ) → Option ℕ → HealthResponse
response_of counts ready = record {
  status =
      if str_eq (state_of counts) healthy && str_eq (state_of ready) healthy
      then healthy
      else unhealthy;
  database = state_of counts;
  redis = state_of ready;
  queue = queue_stats ready (count_of counts);
}

-- `try … except Exception`, where the handler only logs and a variable keeps its first value.
abbrev pub caught : {S A : Type 0} → Result A × S → Result (Option A) × S
caught (ok a, s) = (ok (some a), s)
caught (err e, s) = (ok none, s)

abbrev pub tried : {S A : Type 0} → Exec S A → Exec S (Option A)
tried m s = caught (m s)

-- The status code of `/health`.
abbrev pub health_code : HealthResponse → ℕ
health_code report = if str_eq report.status healthy then 200 else 503

module _ (db : Postgres) (reports : Reports db) (redis : Redis) (uuids : Uuids) where
  open db use {Table}

  -- The body of the first `try`: `SELECT 1`, and the counts.
  unfoldable pub read_counts : Link → Link → Exec Table (JobStatus → ℕ)
  read_counts probed counted = do
    call probed (pure tt)
    call counted (λ t. (ok (count_jobs_by_status db reports t), t))

  unfoldable pub collect_health : Link → Link → Link → Exec (Stores db redis uuids) HealthResponse
  unfolding read_counts
  collect_health probed counted sized = do
    counts ← on_table (tried (read_counts probed counted))
    ready ← on_queue (tried (size redis uuids sized))
    pure (response_of counts ready)

  -- The route: the status code and the body.
  unfoldable pub health : Link → Link → Link → Exec (Stores db redis uuids) (ℕ × HealthResponse)
  unfolding collect_health
  health probed counted sized = do
    report ← collect_health probed counted sized
    pure (health_code report, report)
