-- ===== src/Examples/Batch.antt =====
-- A batch that is queued, claimed and completed in one cycle.
use job_queue_service.Prelude.{◌≡◌, refl, none, some, true, false, [], ◌∷◌, arith}
use job_queue_service.Json.{Items, null, array, done, item, field, end, lookup, count}
use job_queue_service.Job.{Job}
use job_queue_service.Job.Sound.{IsSound}
use job_queue_service.Exec.{ok}
use job_queue_service.Config.{default_settings}
use job_queue_service.Postgres.Memory.{memory}
use job_queue_service.Redis.Memory.{store, short_ids}
use job_queue_service.Queue.{answered}
use job_queue_service.Queue.Member.{candidate_at}
use job_queue_service.Session.Laws.{Rows}
use job_queue_service.Jobs.{batch_result}
use job_queue_service.Service.Claim.Exclusive.{claimed}
use job_queue_service.Service.Mutate.{Stores}
use job_queue_service.Service.Owner.Settle.{completed_with}
use job_queue_service.Worker.Runner.{Round, run_once}
use job_queue_service.Worker.Runner.Rounds.{attempt_at}
use job_queue_service.Worker.Execute.{Run, run_job}
use job_queue_service.Worker.Heartbeat.Task.{slept, replied, life}
use job_queue_service.Worker.Heartbeat.Patient.{life-IsPatient}
use job_queue_service.Worker.Execute.Going.{IsPatient}
use job_queue_service.Worker.Execute.Cycle.{deadline, run_once-completes}
use job_queue_service.Examples.{fresh, All-Rows}
use job_queue_service.Examples.Queues.{one_job}
use job_queue_service.Examples.Cycles.{peeks}
use job_queue_service.Examples.Handlers.{python, undisturbed}

abbrev items : Items
items = item null (item null done)

abbrev queued : Job
queued = record (fresh 1) { type = "batch"; payload = field "items" (array items) end }

abbrev queued_stores : Stores memory store short_ids
queued_stores = (queued ∷ [], one_job)

queued_jobs-IsSound : Rows memory IsSound (queued ∷ [])
queued_jobs-IsSound = All-Rows IsSound (queued ∷ []) (ground arith)

-- What the heartbeat of the attempt does while the handler sleeps: one beat, which is answered.
abbrev beating : Stores memory store short_ids → Stores memory store short_ids
beating s = (
  (life memory default_settings (attempt_at memory store short_ids 8 41 queued) none
      (slept ∷ replied answered 120 ∷ []) none s.0).1,
  s.1,
)

abbrev alone : Run (Stores memory store short_ids)
alone = record {
  handler_done = true;
  abandoned = λ s. s;
  raised_late = none;
  context = record (undisturbed end) { sleep = λ n. beating };
}

abbrev round : Round memory store short_ids
round = record {
  stops_first = false;
  stops_second = false;
  peeked = answered;
  removed = answered;
  before_claim = λ s. s;
  before_read = λ s. s;
  before_remove = λ s. s;
  token = 41;
  claimed_at = 100;
  running = run_job memory store short_ids python alone;
  settled = answered;
  settled_at = 150;
}

unmoved-IsPatient :
    IsPatient memory store short_ids (attempt_at memory store short_ids 8 41 queued) (λ s. s)
unmoved-IsPatient = record {
  keeps_sound = λ s h. h;
  keeps_row = λ s k h found owns. (k.lease_expires_at, found);
}

beating-IsPatient :
    IsPatient memory store short_ids (attempt_at memory store short_ids 8 41 queued) beating
beating-IsPatient =
    (life-IsPatient memory store short_ids default_settings
      (attempt_at memory store short_ids 8 41 queued) none (slept ∷ replied answered 120 ∷ [])
      none).0

holds_items : lookup "items" queued.payload ≡ some (array items)
unfolding lookup
holds_items = refl

run_once-completes_example :
    let x = run_once memory store short_ids default_settings 8 (λ n. round) queued_stores in
    (x.0 ≡ ok true)
    × (memory.row x.1.0 1
        ≡ some (
            completed_with (batch_result (count items) (count items)) 150 (
              claimed 8 41 100
                (deadline memory store short_ids python default_settings 8
                  (λ n. round)
                  queued_stores
                  (candidate_at short_ids 1 1)
                  queued)
                queued)))
run_once-completes_example =
    run_once-completes memory store short_ids python default_settings 8 (λ n. round) queued_stores
      (candidate_at short_ids 1 1) queued alone items refl refl peeks queued_jobs-IsSound refl refl
      refl holds_items refl refl refl refl unmoved-IsPatient (λ n. beating-IsPatient)
