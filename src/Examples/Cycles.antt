-- ===== src/Examples/Cycles.antt =====
-- The theorems on the worker's cycles and on the requests at concrete stores.
use job_queue_service.Prelude.{
  All, [], ◌∷◌, ◌+◌, ◌<◌, ◌≤◌, ◌≡◌, refl, some, true, false, arith, List,
}
use job_queue_service.Json.{end}
use job_queue_service.Job.{Job, pending}
use job_queue_service.Exec.{ok}
use job_queue_service.Postgres.{find_id}
use job_queue_service.Postgres.Memory.{memory}
use job_queue_service.Redis.Memory.{store, short_ids}
use job_queue_service.Queue.{
  exact_limit, peek, answered, member_of, enqueue_script, remove_script, from_member,
}
use job_queue_service.Queue.Member.{candidate_at}
use job_queue_service.Queue.Stale.{remove_script-enqueue_script}
use job_queue_service.Service.Create.{Clock, create_job, build_job}
use job_queue_service.Service.Sweep.{activate_due_scheduled_jobs, recover_expired_leases}
use job_queue_service.Service.Sweep.Activate.{Activated, activate_due_scheduled_jobs-Activated}
use job_queue_service.Service.Sweep.Recover.{Recovered, recover_expired_leases-Recovered}
use job_queue_service.Worker.Runner.{Round, returned}
use job_queue_service.Worker.Sweeps.{schedule_once}
use job_queue_service.Worker.Sweeps.Queued.{IsQueued, schedule_once-IsQueued}
use job_queue_service.Examples.{rows, rows-IsSound, delayed_until}
use job_queue_service.Examples.Queues.{one_job, one_job-IsIndexed}
use job_queue_service.Examples.Histories.{clock, stores, request}

abbrev stops : Round memory store short_ids
stops = record {
  stops_first = false;
  stops_second = true;
  peeked = answered;
  removed = answered;
  before_claim = λ s. s;
  before_read = λ s. s;
  before_remove = λ s. s;
  token = 41;
  claimed_at = 100;
  running = λ job a s. (returned end, s);
  settled = answered;
  settled_at = 150;
}

abbrev goes : Round memory store short_ids
goes = record stops { stops_second = false }

pub peeks :
    peek store short_ids answered one_job ≡ (ok (some (candidate_at short_ids 1 1)), one_job)
unfolding peek enqueue_script job_queue_service.Redis.Memory.Range.range
    job_queue_service.Redis.Memory.increase job_queue_service.Redis.Memory.Range.lookup
    job_queue_service.Text.equal job_queue_service.Text.zero_padded from_member
    job_queue_service.Text.partition job_queue_service.Redis.Memory.one_byte
    job_queue_service.Text.decimal
peeks = refl

activate_due_scheduled_jobs-Activated_example :
    Activated memory 40 rows (activate_due_scheduled_jobs memory (λ i. false) 100 40 rows)
activate_due_scheduled_jobs-Activated_example =
    activate_due_scheduled_jobs-Activated memory (λ i. false) 100 40 rows rows-IsSound

recover_expired_leases-Recovered_example :
    Recovered memory 501 rows (recover_expired_leases memory (λ i. false) 100 501 rows)
recover_expired_leases-Recovered_example =
    recover_expired_leases-Recovered memory (λ i. false) 100 501 rows rows-IsSound

enqueued_again : (enqueue_script store short_ids 90 1 one_job).0 ≡ ok (member_of short_ids 2 1)
unfolding enqueue_script job_queue_service.Redis.Memory.increase
enqueued_again = refl

seen : 1 ≤ store.value one_job.sequence
unfolding enqueue_script job_queue_service.Redis.Memory.increase
seen = omega arith

not_full : store.value one_job.sequence + 1 < exact_limit
unfolding enqueue_script job_queue_service.Redis.Memory.increase
not_full = omega arith

remove_script-enqueue_script_example :
    let again = (enqueue_script store short_ids 90 1 one_job).1 in
    let left = (remove_script store short_ids (member_of short_ids 1 1) 1 again).1 in
    (store.zscore left.ready (member_of short_ids 2 1) ≡ some 90)
    × (store.hget left.entries (short_ids.text 1) ≡ some (member_of short_ids 2 1))
remove_script-enqueue_script_example =
    remove_script-enqueue_script store short_ids 90 1 1 (member_of short_ids 2 1) one_job seen
      not_full enqueued_again

abbrev pub later_clock : Clock
later_clock = record { found = 20; released = 21; built = 22; created = 23; reloaded = 24 }

abbrev pub submitted : Job
submitted = build_job 5 13 12 request (some 77)

abbrev pub submitted_rows : List Job
submitted_rows = memory.insert submitted rows

pub created :
    create_job memory clock 5 request (some 77) (λ t. t) (λ t. t) rows
    ≡ (ok (submitted, true), submitted_rows)
unfolding create_job build_job job_queue_service.Postgres.Memory.Select.hits
    job_queue_service.Postgres.Memory.Select.visible job_queue_service.Session.execute
    job_queue_service.Postgres.Memory.rejected job_queue_service.Statement.releasing_key
    job_queue_service.Postgres.Memory.refusal job_queue_service.Postgres.Memory.change_where
created = refl

abbrev due_job : Job
due_job = record (delayed_until 30 3) { status = pending }

activated_one : (activate_due_scheduled_jobs memory (λ i. false) 100 40 rows).0 ≡ ok (due_job ∷ [])
unfolding activate_due_scheduled_jobs job_queue_service.Session.execute
    job_queue_service.Postgres.Memory.Select.hits job_queue_service.Postgres.Memory.Select.visible
    job_queue_service.Postgres.Memory.rejected job_queue_service.Statement.activating
    job_queue_service.Postgres.Memory.refusal job_queue_service.Postgres.Memory.change_where
    job_queue_service.Postgres.Memory.Order.sorted
activated_one = refl

schedule_once-IsQueued_example :
    let x = schedule_once memory store short_ids (λ i. false) 100 40 (λ n. answered) stores in
    (x.0 ≡ ok 1) × All (IsQueued memory store short_ids x.1.1) (due_job ∷ [])
schedule_once-IsQueued_example =
    schedule_once-IsQueued memory store short_ids (λ i. false) 100 40 (λ n. answered) stores
      (due_job ∷ []) activated_one (λ n. refl) one_job-IsIndexed not_full
