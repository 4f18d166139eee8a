-- ===== src/Service/Owner/Verdict.antt =====
-- What `_apply_failed_attempt` decides: the statement that it sends, and what it then returns.
use job_queue_service.Prelude.{
  ◌==◌, ℕ, String, ◌+◌, ◌≤◌, ◌≡◌, refl, some, arith, Bool, true, Bool-cases, inl, inr,
  if◌then◌else◌,
}
use job_queue_service.Prelude.Int.{ℤ}
use job_queue_service.Json.{Fields}
use job_queue_service.Job.{Attempt, has_attempts_left}
use job_queue_service.Job.Sound.{default_max_attempts}
use job_queue_service.Retry.{retry_delay_seconds, seconds}
use job_queue_service.Exec.{pure, ◌>>=◌}
use job_queue_service.Postgres.{Postgres}
use job_queue_service.Statement.{
  Statement, extending, progressing, completing, rescheduling, giving_up,
}
use job_queue_service.Statement.Safe.{IsSafe, rescheduling-IsSafe, giving_up-IsSafe}
use job_queue_service.Session.{execute_first}
use job_queue_service.Session.Laws.{IsKeyed}
use job_queue_service.Service.Owner.{
  AttemptOutcome, with_outcome, apply_failed_attempt, schedule_retry,
}

-- An attempt as a claim of a sound row hands it out: counted, under the server's limit.
pub record IsCounted (a : Attempt) : Type 0 where
  pub limited : a.max_attempts ≡ default_max_attempts
  pub counted : 1 ≤ a.attempt_count

pub extending-IsKeyed : (a : Attempt) (d : ℕ) → IsKeyed a.job_id (extending a d)
unfolding extending
extending-IsKeyed a d j g = ground arith

pub progressing-IsKeyed : (a : Attempt) (p : ℤ) → IsKeyed a.job_id (progressing a p)
unfolding progressing
progressing-IsKeyed a p j g = ground arith

pub completing-IsKeyed :
    (a : Attempt) (r : Fields) (now : ℕ) → IsKeyed a.job_id (completing a r now)
unfolding completing
completing-IsKeyed a r now j g = ground arith

pub rescheduling-IsKeyed :
    (a : Attempt) (e : String) (due : ℕ) (x : Bool) (now : ℕ)
    → IsKeyed a.job_id (rescheduling a e due x now)
unfolding rescheduling
rescheduling-IsKeyed a e due x now j g = ground arith

pub giving_up-IsKeyed :
    (a : Attempt) (e : String) (x : Bool) (now : ℕ) → IsKeyed a.job_id (giving_up a e x now)
unfolding giving_up
giving_up-IsKeyed a e x now j g = ground arith

-- The delay after the attempt that failed, in seconds.
abbrev pub backoff : ℕ → ℕ
backoff count = if count == 1 then 30 else 120

-- The statement for an attempt that failed: the job waits, or has failed for good.
abbrev pub verdict : Attempt → String → Bool → ℕ → Statement
verdict a e x now =
    if has_attempts_left a
    then rescheduling a e (now + seconds (backoff a.attempt_count)) x now
    else giving_up a e x now

abbrev pub verdict_outcome : Attempt → AttemptOutcome
verdict_outcome a =
    if has_attempts_left a
    then AttemptOutcome.retry_scheduled
    else AttemptOutcome.permanently_failed

pub verdict-IsSafe : (a : Attempt) (e : String) (x : Bool) (now : ℕ) → IsSafe (verdict a e x now)
verdict-IsSafe a e x now = elim (Bool-cases (has_attempts_left a)) [
  | inl left ↦ rw left (rescheduling-IsSafe a e _ x now)
  | inr spent ↦ rw spent (giving_up-IsSafe a e x now)
]

pub verdict-IsKeyed :
    (a : Attempt) (e : String) (x : Bool) (now : ℕ) → IsKeyed a.job_id (verdict a e x now)
verdict-IsKeyed a e x now = elim (Bool-cases (has_attempts_left a)) [
  | inl left ↦ rw left (rescheduling-IsKeyed a e _ x now)
  | inr spent ↦ rw spent (giving_up-IsKeyed a e x now)
]

retry_delay_seconds_lem :
    (a : Attempt)
    → IsCounted a
    → has_attempts_left a ≡ true
    → retry_delay_seconds a.attempt_count ≡ some (backoff a.attempt_count)
unfolding retry_delay_seconds
retry_delay_seconds_lem a c left = ground arith

module _ (db : Postgres) where
  open db use {Table}

  -- `_apply_failed_attempt` never raises, and sends its one statement.
  pub apply_failed_attempt_lem :
      (a : Attempt) (e : String) (x : Bool) (now : ℕ)
      → IsCounted a
      → (t : Table)
      → apply_failed_attempt db a e x now t
        ≡ (execute_first db (verdict a e x now) >>= λ j. pure (with_outcome (verdict_outcome a) j))
            t
  unfolding apply_failed_attempt
  apply_failed_attempt_lem a e x now c t = elim (Bool-cases (has_attempts_left a)) [
    | inl left ↦
        rw (left, apply_failed_attempt) (rw (retry_delay_seconds_lem a c left, schedule_retry) refl)
    | inr spent ↦ rw (spent, apply_failed_attempt) refl
  ]
