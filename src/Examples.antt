-- ===== src/Examples.antt =====
-- Concrete rows and queues, on which the theorems are applied and the model is run.
mod Ownership
mod Queues
mod Histories
mod Cycles
mod Batches
mod Beats
mod Boards
mod Pages
mod Loops
mod Routes
mod Upgrade
mod Handlers
mod Batch
mod Processes
mod Keys
mod Definitions
mod Crash
use job_queue_service.Prelude.{
  ℕ, ◌≡◌, refl, sym, subst, Bool, true, false, Option, none, some, List, [], ◌∷◌, arith, All,
  Bool-cases, inl, inr, ◌==◌,
}
use job_queue_service.Prelude.Int.{pos}
use job_queue_service.Json.{end}
use job_queue_service.Job.{Job, JobStatus, pending, processing, scheduled, Attempt}
use job_queue_service.Job.Sound.{IsSound}
use job_queue_service.Postgres.{find_id}
use job_queue_service.Postgres.Memory.{memory}
use job_queue_service.Session.Laws.{Rows}

-- A job as it is submitted.
abbrev pub fresh : ℕ → Job
fresh id = record {
  id = id;
  type = "email";
  payload = end;
  status = pending;
  priority = pos 5;
  attempt_count = 0;
  max_attempts = 3;
  progress = 0;
  result = none;
  error = none;
  scheduled_at = none;
  created_at = 10;
  started_at = none;
  completed_at = none;
  worker_id = none;
  execution_token = none;
  lease_expires_at = none;
  idempotency_key = none;
  idempotency_expires_at = none;
}

-- A job in the hands of worker 7, on its second attempt under token 40, leased until 500.
abbrev pub running : ℕ → Job
running id = record (fresh id) {
  status = processing;
  attempt_count = 2;
  started_at = some 20;
  worker_id = some 7;
  execution_token = some 40;
  lease_expires_at = some 500;
}

-- A job on its last attempt.
abbrev pub spent : Job
spent = record (running 4) { attempt_count = 3 }

abbrev pub delayed_until : ℕ → ℕ → Job
delayed_until at id = record (fresh id) { status = scheduled; scheduled_at = some at }

abbrev pub attempt : ℕ → Attempt
attempt id = record {
  job_id = id;
  worker_id = 7;
  execution_token = 40;
  attempt_count = 2;
  max_attempts = 3;
}

abbrev pub spent_attempt : Attempt
spent_attempt = record (attempt 4) { attempt_count = 3 }

abbrev pub rows : List Job
rows = fresh 1 ∷ running 2 ∷ delayed_until 30 3 ∷ spent ∷ []

pub All-Rows : (P : Job → Type 0) (l : List Job) → All P l → Rows memory P l
All-Rows P [] h i j e = absurd (cc)
All-Rows P (x ∷ l) h i j e = elim (Bool-cases (x.id == i)) [
  | inl hit ↦ subst P (ground arith) h.0
  | inr miss ↦ All-Rows P l h.1 i j (ground arith)
]

pub rows-IsSound : Rows memory IsSound rows
rows-IsSound = All-Rows IsSound rows (ground arith)
