-- ===== src/Statement.antt =====
-- The conditional UPDATE statements of app/services/job_service.py, each as the condition of its
-- WHERE clause and the change of its SET clause. `now` is the database's clock.
pub mod Safe
pub mod Moves
use job_queue_service.Prelude.{
  ℕ, String, ◌+◌, ◌==◌, Bool, true, false, ◌&&◌, ◌||◌, Option, none, some, List, [], ◌∷◌, ltb, leb,
  is_at, is_below, is_at_most, if◌then◌else◌,
}
use job_queue_service.Prelude.Int.{ℤ, clamp}
use job_queue_service.Json.{Fields}
use job_queue_service.Job.{
  JobStatus, scheduled, pending, processing, completed, failed, cancelled, is_scheduled, is_pending,
  is_processing, is_failed, Job, Attempt,
}

pub record Statement : Type 0 where
  pub guard : Job → Bool
  pub change : Job → Job

-- `_RELEASED_OWNERSHIP`.
abbrev pub released : Job → Job
released j = record j { worker_id = none; execution_token = none; lease_expires_at = none }

-- `_lease_deadline`: the lease that is asked for, or the configured one.
abbrev pub lease_deadline : ℕ → Option ℕ → ℕ → ℕ
lease_deadline configured none now = now + configured
lease_deadline configured (some lease) now = now + lease

-- The statement of `claim_job`; `token` is the fresh `uuid4()`.
unfoldable pub claiming : ℕ → ℕ → ℕ → ℕ → ℕ → Statement
claiming job_id worker token now deadline = record {
  guard = λ j. j.id == job_id && (is_pending j.status && ltb j.attempt_count j.max_attempts);
  change = λ j. record j {
    status = processing;
    worker_id = some worker;
    execution_token = some token;
    lease_expires_at = some deadline;
    started_at = some now;
    attempt_count = j.attempt_count + 1;
  };
}

-- `_owned_by`, the fence.
abbrev pub owned_by : Attempt → Job → Bool
owned_by a j =
    j.id == a.job_id
    && (is_processing j.status
        && (is_at j.worker_id a.worker_id && is_at j.execution_token a.execution_token))

-- The statement of `extend_lease`.
unfoldable pub extending : Attempt → ℕ → Statement
extending a deadline = record {
  guard = owned_by a;
  change = λ j. record j { lease_expires_at = some deadline };
}

-- The statement of `update_progress`.
unfoldable pub progressing : Attempt → ℤ → Statement
unfolding clamp
progressing a progress = record {
  guard = owned_by a;
  change = λ j. record j { progress = clamp 100 progress };
}

-- The statement of `complete_job`.
unfoldable pub completing : Attempt → Fields → ℕ → Statement
completing a result now = record {
  guard = owned_by a;
  change = λ j. record (released j) {
    status = completed;
    result = some result;
    progress = 100;
    completed_at = some now;
    error = none;
  };
}

-- `require_expired_lease` adds `lease_expires_at < now()`, which is not true of a NULL lease.
abbrev lease_condition : Bool → ℕ → Job → Bool
lease_condition true now j = is_below j.lease_expires_at now
lease_condition false now j = true

-- The two statements of `_apply_failed_attempt`: a delayed retry, and a permanent failure.
unfoldable pub rescheduling : Attempt → String → ℕ → Bool → ℕ → Statement
rescheduling a error due expired now = record {
  guard =
      λ j. owned_by a j && (ltb j.attempt_count j.max_attempts && lease_condition expired now j);
  change =
      λ j. record (released j) { status = scheduled; scheduled_at = some due; error = some error };
}

unfoldable pub giving_up : Attempt → String → Bool → ℕ → Statement
giving_up a error expired now = record {
  guard =
      λ j. owned_by a j && (leb j.max_attempts j.attempt_count && lease_condition expired now j);
  change =
      λ j. record (released j) { status = failed; error = some error; completed_at = some now };
}

abbrev pub contains : ℕ → List ℕ → Bool
contains i [] = false
contains i (k ∷ ks) = i == k || contains i ks

-- The condition that both parts of the statement of `activate_due_scheduled_jobs` state.
abbrev pub is_due : ℕ → Job → Bool
is_due now j = is_scheduled j.status && is_at_most j.scheduled_at now

unfoldable pub activating : List ℕ → ℕ → Statement
activating due now = record {
  guard = λ j. contains j.id due && is_due now j;
  change = λ j. record j { status = pending };
}

-- `_CANCELLABLE`.
abbrev pub is_cancellable : JobStatus → Bool
is_cancellable s = is_pending s || is_scheduled s

-- The statement of `cancel_job`.
unfoldable pub cancelling : ℕ → Statement
cancelling job_id = record {
  guard = λ j. j.id == job_id && is_cancellable j.status;
  change = λ j. record (released j) { status = cancelled };
}

-- The statement of `retry_job`.
unfoldable pub restarting : ℕ → Statement
restarting job_id = record {
  guard = λ j. j.id == job_id && is_failed j.status;
  change = λ j. record (released j) {
    status = pending;
    attempt_count = 0;
    progress = 0;
    error = none;
    result = none;
    completed_at = none;
    started_at = none;
    scheduled_at = none;
  };
}

-- The statement of `_release_expired_key`; `now` is the application's clock.
unfoldable pub releasing_key : ℕ → ℕ → Statement
releasing_key key now = record {
  guard = λ j. is_at j.idempotency_key key && is_at_most j.idempotency_expires_at now;
  change = λ j. record j { idempotency_key = none; idempotency_expires_at = none };
}
