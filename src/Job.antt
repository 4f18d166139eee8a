-- ===== src/Job.antt =====
-- app/db/models.py: the row of the `jobs` table and its CHECK constraints; app/services/attempt.py.
-- Identifiers, tokens, worker names and idempotency keys are only compared, so they are numbers;
-- a time is a number of microseconds. A JSON document is its text.
pub mod Sound
pub mod Lifecycle
use job_queue_service.Prelude.{
  ℕ, String, ◌≡◌, refl, arith, ◌==◌, Bool, true, false, ◌&&◌, Option, none, some, ltb, leb, is_at,
}
use job_queue_service.Prelude.Int.{ℤ}
use job_queue_service.Json.{Fields}

pub data JobStatus : Type 0 where
  scheduled pending processing completed failed cancelled : JobStatus

-- The text of a status.
abbrev pub status_value : JobStatus → String
status_value scheduled = "scheduled"
status_value pending = "pending"
status_value processing = "processing"
status_value completed = "completed"
status_value failed = "failed"
status_value cancelled = "cancelled"

pub JobStatus-discrete : Discrete JobStatus
JobStatus-discrete = hlevel

abbrev pub is_scheduled : JobStatus → Bool
is_scheduled scheduled = true
is_scheduled _ = false

abbrev pub is_pending : JobStatus → Bool
is_pending pending = true
is_pending _ = false

abbrev pub is_processing : JobStatus → Bool
is_processing processing = true
is_processing _ = false

abbrev pub is_failed : JobStatus → Bool
is_failed failed = true
is_failed _ = false

abbrev pub is_cancelled : JobStatus → Bool
is_cancelled cancelled = true
is_cancelled _ = false

abbrev pub is_completed : JobStatus → Bool
is_completed completed = true
is_completed _ = false

-- `status == s`.
abbrev pub is_status : JobStatus → JobStatus → Bool
is_status scheduled s = is_scheduled s
is_status pending s = is_pending s
is_status processing s = is_processing s
is_status completed s = is_completed s
is_status failed s = is_failed s
is_status cancelled s = is_cancelled s

pub is_status→eq : (k s : JobStatus) → is_status k s ≡ true → k ≡ s
is_status→eq scheduled s h = ground arith
is_status→eq pending s h = ground arith
is_status→eq processing s h = ground arith
is_status→eq completed s h = ground arith
is_status→eq failed s h = ground arith
is_status→eq cancelled s h = ground arith

pub is_status_self : (s : JobStatus) → is_status s s ≡ true
is_status_self scheduled = refl
is_status_self pending = refl
is_status_self processing = refl
is_status_self completed = refl
is_status_self failed = refl
is_status_self cancelled = refl

-- `TERMINAL_STATUSES`.
abbrev pub is_terminal : JobStatus → Bool
is_terminal completed = true
is_terminal failed = true
is_terminal cancelled = true
is_terminal _ = false

pub record Job : Type 0 where
  pub id : ℕ
  pub type : String
  pub payload : Fields
  pub status : JobStatus
  pub priority : ℤ
  pub attempt_count : ℕ
  pub max_attempts : ℕ
  pub progress : ℕ
  pub result : Option Fields
  pub error : Option String
  pub scheduled_at : Option ℕ
  pub created_at : ℕ
  pub started_at : Option ℕ
  pub completed_at : Option ℕ
  pub worker_id : Option ℕ
  pub execution_token : Option ℕ
  pub lease_expires_at : Option ℕ
  pub idempotency_key : Option ℕ
  pub idempotency_expires_at : Option ℕ

-- The four CHECK constraints; `attempt_count >= 0` and `progress >= 0` hold of every number here.
abbrev pub satisfies_checks : Job → Bool
satisfies_checks j =
    leb 1 j.max_attempts && (leb j.attempt_count j.max_attempts && leb j.progress 100)

-- `Attempt`: what a claim hands out.
pub record Attempt : Type 0 where
  pub job_id : ℕ
  pub worker_id : ℕ
  pub execution_token : ℕ
  pub attempt_count : ℕ
  pub max_attempts : ℕ

abbrev attempt_from : Job → Option ℕ → Option ℕ → Option Attempt
attempt_from j (some worker) (some token) = some (record {
  job_id = j.id;
  worker_id = worker;
  execution_token = token;
  attempt_count = j.attempt_count;
  max_attempts = j.max_attempts;
})
attempt_from j _ _ = none

-- `Attempt.of`; `none` is its ValueError on a row that carries no owned attempt.
abbrev pub attempt_of : Job → Option Attempt
attempt_of j = attempt_from j j.worker_id j.execution_token

abbrev pub has_attempts_left : Attempt → Bool
has_attempts_left a = ltb a.attempt_count a.max_attempts
