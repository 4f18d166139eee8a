-- ===== src/Config.antt =====
-- app/core/config.py: the settings that the job logic reads. Seconds are held in microseconds.
use job_queue_service.Prelude.{
  ℕ, ◌≤◌, ◌<◌, ◌≡◌, Bool, ◌&&◌, leb, ltb, arith, Option, none, some, if◌then◌else◌,
}
use job_queue_service.Retry.{seconds}

pub record Settings : Type 0 where
  pub worker_poll_interval_seconds : ℕ
  pub job_lease_seconds : ℕ
  pub job_heartbeat_seconds : ℕ
  pub scheduler_interval_seconds : ℕ
  pub scheduler_batch_size : ℕ
  pub recovery_interval_seconds : ℕ
  pub recovery_batch_size : ℕ

abbrev pub default_settings : Settings
default_settings = record {
  worker_poll_interval_seconds = seconds 1;
  job_lease_seconds = seconds 60;
  job_heartbeat_seconds = seconds 20;
  scheduler_interval_seconds = seconds 1;
  scheduler_batch_size = 100;
  recovery_interval_seconds = seconds 5;
  recovery_batch_size = 100;
}

-- The bounds of the fields, `Field(gt=0)` and `Field(ge=1)`.
abbrev within_bounds : Settings → Bool
within_bounds s =
    ltb 0 s.worker_poll_interval_seconds
    && (ltb 0 s.job_lease_seconds
        && (ltb 0 s.job_heartbeat_seconds
            && (ltb 0 s.scheduler_interval_seconds
                && (leb 1 s.scheduler_batch_size
                    && (ltb 0 s.recovery_interval_seconds && leb 1 s.recovery_batch_size)))))

-- Building `Settings`: the fields' bounds, then
-- `_heartbeat_must_beat_before_the_lease_expires`; `none` is a validation error.
unfoldable pub validate : Settings → Option Settings
validate s =
    if within_bounds s
    then (if leb s.job_lease_seconds s.job_heartbeat_seconds then none else some s)
    else none

-- What settings that were accepted promise.
pub record IsUsable (s : Settings) : Type 0 where
  pub beats : 0 < s.job_heartbeat_seconds
  pub beats_in_time : s.job_heartbeat_seconds < s.job_lease_seconds
  pub polls : 0 < s.worker_poll_interval_seconds
  pub schedules : 1 ≤ s.scheduler_batch_size
  pub recovers : 1 ≤ s.recovery_batch_size

-- Settings that are accepted beat before a lease expires, poll at a positive interval, and have
-- batches of at least one row.
pub validate-IsUsable : (s s' : Settings) → validate s ≡ some s' → IsUsable s'
unfolding validate
validate-IsUsable s s' h = ground arith
