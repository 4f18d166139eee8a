-- ===== src/Worker/Execute/Settled.antt =====
-- Whatever a handler does, the run of a job is settled.
use job_queue_service.Prelude.{ℕ, ◌≡◌, ◌==◌, if◌then◌else◌}
use job_queue_service.Prelude.Int.{pos}
use job_queue_service.Job.{Job, Attempt}
use job_queue_service.Job.Sound.{IsSound}
use job_queue_service.Postgres.{Postgres}
use job_queue_service.Redis.{Redis, Uuids}
use job_queue_service.Session.Laws.{Rows}
use job_queue_service.Service.Owner.Verdict.{IsCounted}
use job_queue_service.Service.Mutate.{Stores}
use job_queue_service.History.{Trace-IsSound, here}
use job_queue_service.History.Calls.{update_progress-Leads}
use job_queue_service.Worker.Runner.Settled.{reply, arrived, settle-reply}
use job_queue_service.Worker.Runner.{execute_attempt}
use job_queue_service.Queue.{Link, answered}
use job_queue_service.Worker.Execute.Kept.{run_job-K}
use job_queue_service.Worker.Execute.{run_job, Python, Run, progress_reporter, execute}

module _ (db : Postgres) (redis : Redis) (uuids : Uuids) (python : Python) where
  abbrev pub AreSound : Stores db redis uuids → Type 0
  AreSound s = Rows db IsSound s.0

  -- What a change of the stores by others keeps.
  abbrev pub KeepsSound : (Stores db redis uuids → Stores db redis uuids) → Type 0
  KeepsSound f = (s : Stores db redis uuids) → AreSound s → AreSound (f s)

  progress_reporter-AreSound :
      (a : Attempt) (processed total : ℕ) (s : Stores db redis uuids)
      → AreSound s
      → AreSound (progress_reporter db redis uuids python a processed total s).1
  unfolding progress_reporter
  progress_reporter-AreSound a processed total s h =
      let q = if total == 0 then 100 else python.percentage processed total in
      Trace-IsSound db (λ token. Unit) h
        (update_progress-Leads db (λ token. Unit) s.0 here a (pos q))

  -- However the handler ends, the rows are sound then.
  pub run_job-AreSound :
      (job : Job) (a : Attempt) (run : Run (Stores db redis uuids)) (s : Stores db redis uuids)
      → AreSound s
      → ((n : ℕ) → KeepsSound (run.context.sleep n))
      → KeepsSound run.abandoned
      → AreSound (run_job db redis uuids python run job a s).1
  run_job-AreSound job a run s h sleeps abandons =
      run_job-K db redis uuids python AreSound progress_reporter-AreSound job a run sleeps abandons
        s h

  -- The run of a job under a counted attempt on a table of sound rows, whatever the job's type and
  -- payload, whoever owns the job and whichever side wins the race of handler and heartbeat, raises
  -- only if the database does not answer the settlement: then it raises that error, unless the
  -- attempt was found lost before, when there is nothing to settle. It leaves what the handler's
  -- run left, settled as with an answer if the settlement arrived. What others do meanwhile, and a
  -- handler that is cancelled, must leave the rows sound.
  pub execute-reply :
      (job : Job) (a : Attempt) (run : Run (Stores db redis uuids)) (link : Link) (now : ℕ)
      (s : Stores db redis uuids)
      → AreSound s
      → IsCounted a
      → ((n : ℕ) → KeepsSound (run.context.sleep n))
      → KeepsSound run.abandoned
      → let x = execute db redis uuids python job a run link now s in
        let left = run_job db redis uuids python run job a s in
        (x.0 ≡ reply db redis uuids link left.0)
        × (x.1
            ≡ arrived db redis uuids link
                (execute db redis uuids python job a run answered now s).1
                left.1)
  unfolding execute execute_attempt
  execute-reply job a run link now s h c sleeps abandons =
      let left = run_job db redis uuids python run job a s in
      settle-reply db redis uuids a left.0 link now left.1
        (run_job-AreSound job a run s h sleeps abandons) c
