-- ===== src/Service/Mutate/Outcome.antt =====
-- What a cancellation and a manual retry do to the job's row.
use job_queue_service.Prelude.{ℕ, ◌≡◌, refl, true, none, some, arith}
use job_queue_service.Job.{Job, pending, failed, cancelled}
use job_queue_service.Job.Sound.{IsSound}
use job_queue_service.Exec.{Result, ok}
use job_queue_service.Postgres.{Postgres}
use job_queue_service.Redis.{Redis, Uuids}
use job_queue_service.Queue.{Ready, Link}
use job_queue_service.Statement.{released, cancelling, restarting, is_cancellable}
use job_queue_service.Statement.Safe.{cancelling-IsSafe, restarting-IsSafe}
use job_queue_service.Session.Laws.{Rows, OtherRows, IsKeyed, execute_first-Wrote}
use job_queue_service.Service.Mutate.{Stores, cancel_job, retry_job}

-- The row of a job that was cancelled, and of a failed job that starts over.
abbrev pub cancelled_row : Job → Job
cancelled_row j = record (released j) { status = cancelled }

abbrev pub restarted_row : Job → Job
restarted_row j = record (released j) {
  status = pending;
  attempt_count = 0;
  progress = 0;
  error = none;
  result = none;
  completed_at = none;
  started_at = none;
  scheduled_at = none;
}

pub cancelling-IsKeyed : (i : ℕ) → IsKeyed i (cancelling i)
unfolding cancelling
cancelling-IsKeyed i j g = ground arith

pub restarting-IsKeyed : (i : ℕ) → IsKeyed i (restarting i)
unfolding restarting
restarting-IsKeyed i j g = ground arith

module _ (db : Postgres) (redis : Redis) (uuids : Uuids) where
  open db use {Table, row, row-id}

  -- The call returned the job, whose row is now `j`, and no other row changed.
  abbrev pub Answers : ℕ → Job → Stores db redis uuids → Result Job × Stores db redis uuids → Type 0
  Answers i j s (r, s') = (r ≡ ok j) × (row s'.0 i ≡ some j) × OtherRows db i s.0 s'.0

  module _ (i : ℕ) (s : Stores db redis uuids) (sound : Rows db IsSound s.0) (j : Job)
      (found : row s.0 i ≡ some j) (others : Table → Table) where
    -- On a table of sound rows, the cancellation of a pending or scheduled job returns its row,
    -- released and CANCELLED, and changes no other row, whether or not the queue can be reached.
    pub cancel_job-Answers :
        (first : Link) (between : Ready redis uuids → Ready redis uuids) (second : Link)
        → is_cancellable j.status ≡ true
        → Answers i (cancelled_row j) s (cancel_job db redis uuids others first between second i s)
    unfolding cancel_job cancelling
    cancel_job-Answers first between second can =
        let (won, at, rest) =
          execute_first-Wrote db (cancelling i) (cancelling-IsSafe i) s.0 sound i
            (cancelling-IsKeyed i) j found (ground (arith, row-id s.0 i j found, can)) in
        rw won (refl, at, rest)

    -- On a table of sound rows, the retry of a failed job returns its row, PENDING with no attempt
    -- used and without the outcome of the earlier run, and changes no other row, whether or not the
    -- queue can be reached.
    pub retry_job-Answers :
        (link : Link)
        → j.status ≡ failed
        → Answers i (restarted_row j) s (retry_job db redis uuids others link i s)
    unfolding retry_job restarting
    retry_job-Answers link can =
        let (won, at, rest) =
          execute_first-Wrote db (restarting i) (restarting-IsSafe i) s.0 sound i
            (restarting-IsKeyed i) j found (ground (arith, row-id s.0 i j found, can)) in
        rw won (refl, at, rest)
