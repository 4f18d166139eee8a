-- ===== src/Health/Report.antt =====
-- What the health report says.
use job_queue_service.Prelude.{
  ℕ, ◌≡◌, refl, Bool, true, false, ◌&&◌, Option, none, some, if◌then◌else◌, ap,
}
use job_queue_service.Job.{
  JobStatus, is_status, scheduled, pending, processing, completed, failed, cancelled,
}
use job_queue_service.Exec.{ok}
use job_queue_service.Postgres.{Postgres}
use job_queue_service.Postgres.Reports.{Reports}
use job_queue_service.Redis.{Redis, Uuids}
use job_queue_service.Queue.{size, Link, answered, lost, timed_out}
use job_queue_service.Service.Mutate.{Stores}
use job_queue_service.Service.Query.{count_jobs_by_status}
use job_queue_service.Service.Query.Counts.{count_jobs_by_status-count}
use job_queue_service.Health.{
  QueueStats, response_of, health_code, HealthResponse, health, healthy, unhealthy,
}

abbrev pub is_answered : Link → Bool
is_answered answered = true
is_answered lost = false
is_answered timed_out = false

-- The count of a status in the report.
abbrev pub stat : JobStatus → QueueStats → Option ℕ
stat JobStatus.pending q = q.pending
stat JobStatus.scheduled q = q.scheduled
stat JobStatus.processing q = q.processing
stat JobStatus.completed q = q.completed
stat JobStatus.failed q = q.failed
stat JobStatus.cancelled q = q.cancelled

module _ (db : Postgres) (reports : Reports db) (redis : Redis) (uuids : Uuids) where
  -- The report of a table and a queue, by whether the database and the queue answer.
  pub record IsReport (database queue : Bool) (s : Stores db redis uuids) (code : ℕ)
      (r : HealthResponse) : Type 0 where
    pub code_is : code ≡ (if database && queue then 200 else 503)
    pub status_is : r.status ≡ (if database && queue then healthy else unhealthy)
    pub database_is : r.database ≡ (if database then healthy else unhealthy)
    pub redis_is : r.redis ≡ (if queue then healthy else unhealthy)
    pub ready_is : r.queue.ready ≡ (if queue then some (redis.zcard s.1.ready) else none)
    pub counts_are :
        (k : JobStatus)
        → stat k r.queue
          ≡ (if database then some (reports.count (λ j. is_status k j.status) s.0) else none)

  counted-stat :
      (ready : Option ℕ) (s : Stores db redis uuids) (k : JobStatus)
      → stat k (response_of (some (count_jobs_by_status db reports s.0)) ready).queue
        ≡ some (reports.count (λ j. is_status k j.status) s.0)
  counted-stat ready s pending = ap some (count_jobs_by_status-count db reports s.0 pending)
  counted-stat ready s scheduled = ap some (count_jobs_by_status-count db reports s.0 scheduled)
  counted-stat ready s processing = ap some (count_jobs_by_status-count db reports s.0 processing)
  counted-stat ready s completed = ap some (count_jobs_by_status-count db reports s.0 completed)
  counted-stat ready s failed = ap some (count_jobs_by_status-count db reports s.0 failed)
  counted-stat ready s cancelled = ap some (count_jobs_by_status-count db reports s.0 cancelled)

  uncounted-stat : (ready : Option ℕ) (k : JobStatus) → stat k (response_of none ready).queue ≡ none
  uncounted-stat ready pending = refl
  uncounted-stat ready scheduled = refl
  uncounted-stat ready processing = refl
  uncounted-stat ready completed = refl
  uncounted-stat ready failed = refl
  uncounted-stat ready cancelled = refl

  -- The counts and the size that were read, if they were.
  abbrev counts_if : Bool → Stores db redis uuids → Option (JobStatus → ℕ)
  counts_if database s = if database then some (count_jobs_by_status db reports s.0) else none

  abbrev ready_if : Bool → Stores db redis uuids → Option ℕ
  ready_if queue s = if queue then some (redis.zcard s.1.ready) else none

  response_of-IsReport :
      (database queue : Bool) (s : Stores db redis uuids)
      → let r = response_of (counts_if database s) (ready_if queue s) in
        IsReport database queue s (health_code r) r
  response_of-IsReport true true s = record {
    code_is = refl;
    status_is = refl;
    database_is = refl;
    redis_is = refl;
    ready_is = refl;
    counts_are = counted-stat (ready_if true s) s;
  }
  response_of-IsReport true false s = record {
    code_is = refl;
    status_is = refl;
    database_is = refl;
    redis_is = refl;
    ready_is = refl;
    counts_are = counted-stat (ready_if false s) s;
  }
  response_of-IsReport false true s = record {
    code_is = refl;
    status_is = refl;
    database_is = refl;
    redis_is = refl;
    ready_is = refl;
    counts_are = uncounted-stat (ready_if true s);
  }
  response_of-IsReport false false s = record {
    code_is = refl;
    status_is = refl;
    database_is = refl;
    redis_is = refl;
    ready_is = refl;
    counts_are = uncounted-stat (ready_if false s);
  }

  health_lem :
      (probed counted sized : Link) (s : Stores db redis uuids)
      → let r =
          response_of
            (counts_if (is_answered probed && is_answered counted) s)
            (ready_if (is_answered sized) s) in
        health db reports redis uuids probed counted sized s ≡ (ok (health_code r, r), s)
  unfolding health size
  health_lem answered answered answered s = refl
  health_lem answered answered lost s = refl
  health_lem answered answered timed_out s = refl
  health_lem answered lost answered s = refl
  health_lem answered lost lost s = refl
  health_lem answered lost timed_out s = refl
  health_lem answered timed_out answered s = refl
  health_lem answered timed_out lost s = refl
  health_lem answered timed_out timed_out s = refl
  health_lem lost counted answered s = refl
  health_lem lost counted lost s = refl
  health_lem lost counted timed_out s = refl
  health_lem timed_out counted answered s = refl
  health_lem timed_out counted lost s = refl
  health_lem timed_out counted timed_out s = refl

  -- The health route never raises and changes neither store; it answers 200 and `healthy` if both
  -- the two statements to the database and the command to the queue were answered, and 503 and
  -- `unhealthy` otherwise; each store is reported by itself, and its numbers, the rows in each
  -- status and the size of the queue, are there exactly if it answered.
  pub health-IsReport :
      (probed counted sized : Link) (s : Stores db redis uuids)
      → (code : ℕ) × (r : HealthResponse) × (health db reports redis uuids probed counted sized s
          ≡ (ok (code, r), s))
        × IsReport (is_answered probed && is_answered counted) (is_answered sized) s code r
  health-IsReport probed counted sized s =
      let r =
        response_of (counts_if (is_answered probed && is_answered counted) s)
          (ready_if (is_answered sized) s) in
      (
        health_code r,
        r,
        health_lem probed counted sized s,
        response_of-IsReport (is_answered probed && is_answered counted) (is_answered sized) s,
      )
