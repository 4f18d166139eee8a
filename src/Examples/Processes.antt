-- ===== src/Examples/Processes.antt =====
-- The theorems on the processes of the worker at two of them.
use job_queue_service.Prelude.{ℕ, ◌≡◌, ◌≢◌, true, false, none, some, arith, List, [], ◌∷◌, All}
use job_queue_service.Json.{end}
use job_queue_service.Job.{Job}
use job_queue_service.Job.Sound.{IsSound}
use job_queue_service.Job.Lifecycle.{◌⟶*◌}
use job_queue_service.Config.{default_settings}
use job_queue_service.Postgres.{find_id}
use job_queue_service.Postgres.Memory.{memory}
use job_queue_service.Redis.Memory.{store, short_ids}
use job_queue_service.Queue.{answered, lost}
use job_queue_service.Session.Laws.{Rows}
use job_queue_service.Service.Mutate.{Stores}
use job_queue_service.History.Run.{Call, cancels, run_call, run_call-Trace}
use job_queue_service.Worker.Runner.{Round, crashed, settle}
use job_queue_service.Worker.Runner.Settled.{Silent}
use job_queue_service.Worker.Runner.Traces.{IsHonest, IsHonestRound}
use job_queue_service.Worker.Execute.{Run, run_job}
use job_queue_service.Worker.Main.{
  started, Event, runs, schedules, recovers, signal, turn, elsewhere, System, gather,
}
use job_queue_service.Worker.Main.Steps.{IsLaterEvent, gather-⟶*, gather-Silent, run_job-IsHonest}
use job_queue_service.Examples.{rows, rows-IsSound}
use job_queue_service.Examples.Handlers.{python, undisturbed}
use job_queue_service.Examples.Histories.{
  stores, lost_attempt, lost_attempt-IsCounted, lost_attempt-IsStale,
}

abbrev alone : Run (Stores memory store short_ids)
alone = record {
  handler_done = true;
  abandoned = λ s. s;
  raised_late = none;
  context = undisturbed end;
}

abbrev round : Round memory store short_ids
round = record {
  stops_first = false;
  stops_second = false;
  peeked = answered;
  removed = answered;
  before_claim = λ s. s;
  before_read = λ s. s;
  before_remove = λ s. s;
  token = 41;
  claimed_at = 100;
  running = run_job memory store short_ids python alone;
  settled = answered;
  settled_at = 150;
}

round-IsHonestRound :
    IsHonestRound memory store short_ids (λ token. token ≢ lost_attempt.execution_token) round
round-IsHonestRound = record {
  mints = ground arith;
  claims = λ t s h. h;
  reads = λ t s h. h;
  removes = λ t s h. h;
  runs =
      run_job-IsHonest memory store short_ids (λ token. token ≢ lost_attempt.execution_token) python
        alone (λ n t s h. h) (λ t s h. h);
}

abbrev Fresh : ℕ → Type 0
Fresh token = token ≢ lost_attempt.execution_token

-- The cancellation of job 3, while the command to the queue is lost.
abbrev request : Call memory store short_ids default_settings Fresh
request = cancels (λ t. t) (λ t s h. h) answered (λ q. q) lost 3

cancellation :
    IsHonest memory store short_ids Fresh
      (run_call memory store short_ids default_settings Fresh request)
cancellation = run_call-Trace memory store short_ids default_settings Fresh request

-- The processes 7 and 8 work, and 7 receives a signal while it executes a job.
abbrev events : List (Event memory store short_ids)
events =
    turn 8 (schedules (λ i. false) 40 (λ n. lost)) false
    ∷ turn 7 (runs (λ n. round)) true
    ∷ turn 8 (recovers (λ i. false) 600) false
    ∷ turn 7 (schedules (λ i. false) 610 (λ n. answered)) false
    ∷ elsewhere (run_call memory store short_ids default_settings Fresh request)
    ∷ signal 8
    ∷ turn 7 (recovers (λ i. false) 620) false
    ∷ []

abbrev start : System memory store short_ids
start = record { stores = stores; process = λ n. started }

events-AreHonest : All (IsLaterEvent memory store short_ids default_settings lost_attempt) events
events-AreHonest = (tt, ((λ n. round-IsHonestRound), (tt, (tt, (cancellation, (tt, (tt, tt)))))))

abbrev after_events : List Job
after_events = (gather memory store short_ids default_settings events start).stores.0

gather-⟶*_example :
    Rows memory IsSound after_events
    × ((i : ℕ) (j : Job)
        → find_id i rows ≡ some j
        → (j' : Job) × (find_id i after_events ≡ some j') × (j.status ⟶* j'.status))
gather-⟶*_example =
    gather-⟶* memory store short_ids (λ token. token ≢ lost_attempt.execution_token)
      default_settings events start events-AreHonest rows-IsSound

gather-Silent_example :
    let after = (gather memory store short_ids default_settings events start).stores in
    Silent memory store short_ids after
      (settle memory store short_ids lost_attempt (crashed "late") answered 90 after)
gather-Silent_example =
    gather-Silent memory store short_ids default_settings lost_attempt events start events-AreHonest
      rows-IsSound lost_attempt-IsCounted lost_attempt-IsStale (crashed "late") 90
