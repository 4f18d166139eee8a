-- ===== src/Job/Sound.antt =====
-- What holds of every row of the `jobs` table between two transactions.
use job_queue_service.Prelude.{ℕ, ◌≤◌, ◌<◌, ◌≡◌, Bool, true, false, is_some, arith}
use job_queue_service.Job.{
  JobStatus, scheduled, pending, processing, completed, failed, Job, satisfies_checks,
}

-- `DEFAULT_MAX_ATTEMPTS` of app/services/job_service.py.
abbrev pub default_max_attempts : ℕ
default_max_attempts = 3

-- Whether a job in this status may still be claimed.
abbrev pub is_waiting : JobStatus → Bool
is_waiting scheduled = true
is_waiting pending = true
is_waiting _ = false

-- Whether a job in this status carries `completed_at`.
abbrev pub is_finished : JobStatus → Bool
is_finished completed = true
is_finished failed = true
is_finished _ = false

pub record IsSound (j : Job) : Type 0 where
  pub server_attempts : j.max_attempts ≡ default_max_attempts
  pub attempts_within : j.attempt_count ≤ j.max_attempts
  pub progress_within : j.progress ≤ 100
  pub owned_worker : j.status ≡ processing → is_some j.worker_id ≡ true
  pub owned_token : j.status ≡ processing → is_some j.execution_token ≡ true
  pub owned_lease : j.status ≡ processing → is_some j.lease_expires_at ≡ true
  pub owned_counted : j.status ≡ processing → 1 ≤ j.attempt_count
  pub released_worker : is_some j.worker_id ≡ true → j.status ≡ processing
  pub released_token : is_some j.execution_token ≡ true → j.status ≡ processing
  pub released_lease : is_some j.lease_expires_at ≡ true → j.status ≡ processing
  pub claimable : is_waiting j.status ≡ true → j.attempt_count < j.max_attempts
  pub delayed : j.status ≡ scheduled → is_some j.scheduled_at ≡ true
  pub exhausted : j.status ≡ failed → j.attempt_count ≡ j.max_attempts
  pub finished_at : is_finished j.status ≡ true → is_some j.completed_at ≡ true
  pub unfinished_at : is_some j.completed_at ≡ true → is_finished j.status ≡ true
  pub succeeded : j.status ≡ completed → is_some j.result ≡ true
  pub unsucceeded : is_some j.result ≡ true → j.status ≡ completed

-- A sound row satisfies the CHECK constraints.
pub IsSound-satisfies_checks : (j : Job) → IsSound j → satisfies_checks j ≡ true
IsSound-satisfies_checks j h = ground arith
