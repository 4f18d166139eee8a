-- ===== src/Worker/Execute.antt =====
-- `JobRunner._execute` of worker/runner.py with the handler that it looks up and runs.
pub mod Going
pub mod Batch
pub mod Cycle
pub mod Kept
pub mod Settled
use Prim.Native.String.{◌++◌ as joined}
use job_queue_service.Prelude.{ℕ, String, Bool, Option, none, some, ◌==◌, if◌then◌else◌}
use job_queue_service.Prelude.Int.{pos}
use job_queue_service.Job.{Job, Attempt}
use job_queue_service.Exec.{Result, Exec, ownership_lost}
use job_queue_service.Postgres.{Postgres}
use job_queue_service.Queue.{Link}
use job_queue_service.Redis.{Redis, Uuids}
use job_queue_service.Jobs.{
  Outcome, finished, raised, Raised, job_execution_error, key_error, type_error, reported,
  JobContext, get_handler,
}
use job_queue_service.Service.Owner.{update_progress}
use job_queue_service.Service.Mutate.{Stores, on_table}
use job_queue_service.Worker.Runner.{
  Ending, unregistered, returned, failed_with, crashed, lost_ownership, settle, execute_attempt,
}

-- What Python computes in floats and in texts: `int(processed / total * 100)` for a total that is
-- not 0, and `repr(error)`.
pub record Python : Type 0 where
  pub percentage : ℕ → ℕ → ℕ
  pub repr : Raised → String

-- The clauses of the `try` statement of `_execute`.
abbrev pub ending_of : Python → Outcome → Ending
ending_of python (finished result) = returned result
ending_of python (raised (job_execution_error error)) = failed_with error
ending_of python (raised (reported (ownership_lost a))) = lost_ownership
ending_of python (raised error) = crashed (joined "unexpected error: " (python.repr error))

-- What the run of a handler meets: whether it is done once the race with the heartbeat is, what it
-- has done when it has been cancelled if it is not, what it raises then but for `CancelledError`, and
-- what `JobContext` has beside the payload.
pub record Run (S : Type 0) : Type 0 where
  pub handler_done : Bool
  pub abandoned : S → S
  pub raised_late : Option Raised
  pub context : JobContext S

-- The end of `_run_handler` once the heartbeat has found the attempt lost.
abbrev pub cancelled_with : Attempt → Option Raised → Outcome
cancelled_with a none = raised (reported (ownership_lost a))
cancelled_with a (some error) = raised error

-- `_run_handler`.
unfoldable pub run_handler :
    {S : Type 0} → Attempt → Run S → (JobContext S → S → Outcome × S) → S → Outcome × S
run_handler a run handler s =
    let result = handler run.context s in
    if run.handler_done then result else (cancelled_with a run.raised_late, run.abandoned s)

module _ (db : Postgres) (redis : Redis) (uuids : Uuids) (python : Python) where
  -- `_progress_reporter`.
  unfoldable pub progress_reporter : Attempt → ℕ → ℕ → Exec (Stores db redis uuids) (Unit {0})
  progress_reporter a processed total =
      let percentage = if total == 0 then 100 else python.percentage processed total in
      on_table (update_progress db a (pos percentage))

  -- The context that `_execute` builds.
  abbrev pub context_of :
      Job → Attempt → JobContext (Stores db redis uuids) → JobContext (Stores db redis uuids)
  context_of job a context = record context {
    payload = job.payload;
    report_progress = progress_reporter a;
  }

  abbrev pub ended : Outcome × Stores db redis uuids → Ending × Stores db redis uuids
  ended (outcome, s) = (ending_of python outcome, s)

  abbrev with_handler :
      Job
      → Attempt
      → Run (Stores db redis uuids)
      → Option (
          JobContext (Stores db redis uuids)
          → Stores db redis uuids
          → Outcome × Stores db redis uuids)
      → Stores db redis uuids
      → Ending × Stores db redis uuids
  with_handler job a run none s =
      (unregistered (joined "no handler registered for job type '" (joined job.type "'")), s)
  with_handler job a run (some handler) s =
      ended (run_handler a (record run { context = context_of job a run.context }) handler s)

  -- How the run of the job's handler ends, and the stores that it leaves.
  unfoldable pub run_job :
      Run (Stores db redis uuids)
      → Job
      → Attempt
      → Stores db redis uuids
      → Ending × Stores db redis uuids
  unfolding run_handler progress_reporter
  run_job run job a = with_handler job a run (get_handler job.type)

  unfoldable pub execute :
      Job
      → Attempt
      → Run (Stores db redis uuids)
      → Link
      → ℕ
      → Exec (Stores db redis uuids) (Unit {0})
  unfolding run_job
  execute job a run link now = execute_attempt db redis uuids a (run_job run job a) link now
