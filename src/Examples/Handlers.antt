-- ===== src/Examples/Handlers.antt =====
-- The theorems on handlers at a webhook and at a batch of two items.
use job_queue_service.Prelude.{ℕ, ◌≡◌, refl, some, none, true, [], ◌∷◌, arith}
use job_queue_service.Prelude.Int.{pos}
use job_queue_service.Json.{null, string, array, done, item, Fields, end, field, lookup}
use job_queue_service.Job.{Job}
use job_queue_service.Exec.{ok}
use job_queue_service.Postgres.Memory.{memory}
use job_queue_service.Redis.Memory.{store, short_ids}
use job_queue_service.Session.Laws.{Rows}
use job_queue_service.Schemas.Payload.{FieldTypes, model_dump, webhook_payload}
use job_queue_service.Schemas.Request.{Submission, validate_request}
use job_queue_service.Service.Create.{JobCreateRequest}
use job_queue_service.Service.Mutate.{Stores}
use job_queue_service.Service.Owner.Verdict.{IsCounted}
use job_queue_service.Service.Owner.Settle.{extend_lease-Settled}
use job_queue_service.Jobs.{Outcome, JobContext, get_handler}
use job_queue_service.Jobs.Accepted.{IsExpected, validate_request-IsExpected}
use job_queue_service.Worker.Execute.{Python, Run, execute}
use job_queue_service.Worker.Execute.Going.{IsPatient}
use job_queue_service.Config.{default_settings}
use job_queue_service.Statement.{lease_deadline}
use job_queue_service.Service.Owner.{extend_lease}
use job_queue_service.History.{Trace-IsSound, here}
use job_queue_service.History.Calls.{extend_lease-Leads}
use job_queue_service.Worker.Execute.Settled.{execute-reply}
use job_queue_service.Worker.Runner.{Ending}
use job_queue_service.Worker.Runner.Settled.{reply, arrived}
use job_queue_service.Queue.{answered, timed_out}
use job_queue_service.Worker.Execute.{run_job}
use job_queue_service.Job.Sound.{IsSound}
use job_queue_service.Examples.{running, attempt, All-Rows}
use job_queue_service.Examples.Queues.{one_job}

abbrev types : FieldTypes
types = record { email_text = λ s. some s; url_text = λ s. some s }

abbrev submission : Submission
submission = record {
  type = "webhook";
  payload = field "url" (string "https://example.org/") end;
  priority = some (pos 7);
  scheduled_at = none;
}

abbrev accepted_request : JobCreateRequest
accepted_request = record {
  type = "webhook";
  payload = model_dump (webhook_payload "https://example.org/" none);
  priority = pos 7;
  scheduled_at = none;
}

accepts : validate_request types submission ≡ some accepted_request
unfolding validate_request job_queue_service.Schemas.job_type
    job_queue_service.Schemas.Payload.webhook_model lookup
accepts = refl

-- A context with nothing beside it.
abbrev pub undisturbed : {S : Type 0} → Fields → JobContext S
undisturbed fields = record {
  payload = fields;
  job_id = "6";
  message_hex = "0a";
  draw = 0;
  shown = λ json. "";
  sleep = λ n s. s;
  report_progress = λ processed total s. (ok tt, s);
}

validate_request-IsExpected_example :
    (handler : JobContext ℕ → ℕ → Outcome × ℕ) × (get_handler accepted_request.type ≡ some handler)
    × IsExpected (handler (undisturbed accepted_request.payload) 0).0
validate_request-IsExpected_example =
    validate_request-IsExpected types submission accepted_request accepts
      (undisturbed accepted_request.payload) 0 refl

abbrev batch_job : Job
batch_job = record (running 2) {
  type = "batch";
  payload = field "items" (array (item null (item (string "b") done))) end;
}

abbrev batch_stores : Stores memory store short_ids
batch_stores = (batch_job ∷ [], one_job)

batch_jobs-IsSound : Rows memory IsSound (batch_job ∷ [])
batch_jobs-IsSound = All-Rows IsSound (batch_job ∷ []) (ground arith)

abbrev pub python : Python
python = record { percentage = λ processed total. 50; repr = λ e. "" }

-- While the handler sleeps, the heartbeat extends the lease.
abbrev beaten : Stores memory store short_ids → Stores memory store short_ids
beaten (t, q) = ((extend_lease memory default_settings (attempt 2) 100 none t).1, q)

beaten-IsPatient : IsPatient memory store short_ids (attempt 2) beaten
beaten-IsPatient = record {
  keeps_sound = λ s h.
      Trace-IsSound memory (λ token. Unit) h
        (extend_lease-Leads memory (λ token. Unit) s.0 here default_settings (attempt 2) 100 none);
  keeps_row = λ s k h found owns. (
    some (lease_deadline default_settings.job_lease_seconds none 100),
    (extend_lease-Settled memory (attempt 2) s.0 h k found owns default_settings 100 none).1,
  );
}

abbrev whole_run : Run (Stores memory store short_ids)
whole_run = record {
  handler_done = true;
  abandoned = λ s. s;
  raised_late = none;
  context = record (undisturbed end) { sleep = λ n. beaten };
}

items_there : lookup "items" batch_job.payload ≡ some (array (item null (item (string "b") done)))
unfolding lookup
items_there = refl

-- A webhook without its URL, as no accepted request has it.
abbrev broken_job : Job
broken_job = record (running 2) { type = "webhook" }

abbrev broken_run : Run (Stores memory store short_ids)
broken_run = record whole_run {
  context = record (undisturbed end) { draw = 9000000000000000; sleep = λ n. beaten };
}

attempt-IsCounted : IsCounted (attempt 2)
attempt-IsCounted = record { limited = refl; counted = omega arith }

-- The answer of the database to the settlement is lost.
abbrev left : Ending × Stores memory store short_ids
left = run_job memory store short_ids python broken_run broken_job (attempt 2) batch_stores

execute-reply_example :
    let x =
      execute memory store short_ids python broken_job
        (attempt 2)
        broken_run
        timed_out
        90
        batch_stores in
    (x.0 ≡ reply memory store short_ids timed_out left.0)
    × (x.1
        ≡ arrived memory store short_ids timed_out
            (execute memory store short_ids python broken_job
              (attempt 2)
              broken_run
              answered
              90
              batch_stores).1
            left.1)
execute-reply_example =
    execute-reply memory store short_ids python broken_job (attempt 2) broken_run timed_out 90
      batch_stores batch_jobs-IsSound attempt-IsCounted (λ n. beaten-IsPatient.keeps_sound)
      (λ u h. h)
