-- ===== src/Examples/Keys.antt =====
-- The theorems on submissions under a key, and on the order of the scheduler's batches.
use job_queue_service.Prelude.{
  ℕ, ◌≡◌, ◌≢◌, refl, true, false, none, some, arith, List, [], ◌∷◌, length,
}
use job_queue_service.Job.{Job}
use job_queue_service.Job.Sound.{IsSound}
use job_queue_service.Exec.{ok}
use job_queue_service.Config.{default_settings}
use job_queue_service.Postgres.{find_id, NotAfter}
use job_queue_service.Postgres.Memory.{memory}
use job_queue_service.Redis.Memory.{store, short_ids}
use job_queue_service.Queue.{answered, lost}
use job_queue_service.Session.Laws.{Rows}
use job_queue_service.Service.Create.{create_job, build_job, is_active, find_active_by_key}
use job_queue_service.Service.Create.Race.{create_job_race}
use job_queue_service.Service.Create.Expired.{without_key, create_job-creates}
use job_queue_service.Service.Sweep.{activate_due_scheduled_jobs}
use job_queue_service.Service.Sweep.Earliest.{activate_due_scheduled_jobs-earliest}
use job_queue_service.Worker.Heartbeat.Task.{Wake, slept, replied, wakes, life}
use job_queue_service.Worker.Heartbeat.Patient.{life-IsPatient}
use job_queue_service.Worker.Execute.Going.{IsPatient}
use job_queue_service.Examples.{rows, fresh, attempt, delayed_until, All-Rows}
use job_queue_service.Examples.Histories.{clock, request}
use job_queue_service.Examples.Cycles.{later_clock, submitted, submitted_rows, created}

submitted_rows-IsSound : Rows memory IsSound submitted_rows
unfolding build_job
submitted_rows-IsSound = All-Rows IsSound submitted_rows (ground arith)

not_found : find_active_by_key memory 77 20 rows ≡ none
unfolding find_active_by_key job_queue_service.Postgres.Memory.Select.hits
    job_queue_service.Postgres.Memory.Select.visible
not_found = refl

unused : find_id 6 submitted_rows ≡ none
unfolding build_job
unused = refl

create_job_race_example :
    create_job memory later_clock 6 request (some 77) (λ t. submitted_rows) (λ t. t) rows
    ≡ (ok (submitted, false), submitted_rows)
create_job_race_example =
    create_job_race memory clock later_clock 5 6 77 request request (λ t. t) (λ t. t) rows
      submitted_rows submitted refl created submitted_rows-IsSound unused not_found (omega arith)
      (omega arith)

-- A job whose key was free from the time 5 on.
abbrev old : Job
old = record (fresh 9) { idempotency_key = some 77; idempotency_expires_at = some 5 }

abbrev old_rows : List Job
old_rows = fresh 1 ∷ old ∷ []

old_rows-IsSound : Rows memory IsSound old_rows
old_rows-IsSound = All-Rows IsSound old_rows (ground arith)

create_job-creates_example :
    let made = build_job 6 13 12 request (some 77) in
    let x = create_job memory clock 6 request (some 77) (λ t. t) (λ t. t) old_rows in
    (x.0 ≡ ok (made, true))
    × (find_id 6 x.1 ≡ some made)
    × ((i : ℕ) (j : Job)
        → i ≢ 6
        → find_id i old_rows ≡ some j
        → find_id i x.1 ≡ some (without_key 77 j))
create_job-creates_example =
    create_job-creates memory clock 6 77 request (λ t. t) old_rows refl old_rows-IsSound refl
      (All-Rows (λ j. is_active 77 10 j ≡ false) old_rows (ground arith)) (omega arith)

-- Two jobs that are due at the time 40, and a batch of one.
abbrev due_rows : List Job
due_rows = delayed_until 35 1 ∷ delayed_until 30 2 ∷ []

due_rows-IsSound : Rows memory IsSound due_rows
due_rows-IsSound = All-Rows IsSound due_rows (ground arith)

left :
    find_id 1 (activate_due_scheduled_jobs memory (λ i. false) 1 40 due_rows).1
    ≡ some (delayed_until 35 1)
unfolding activate_due_scheduled_jobs job_queue_service.Session.execute
    job_queue_service.Postgres.Memory.rejected job_queue_service.Postgres.Memory.Select.visible
    job_queue_service.Statement.activating job_queue_service.Postgres.Memory.Order.sorted
    job_queue_service.Postgres.Memory.Select.hits job_queue_service.Postgres.Memory.change_where
left = refl

activate_due_scheduled_jobs-earliest_example :
    (jobs : List Job) × ((activate_due_scheduled_jobs memory (λ i. false) 1 40 due_rows).0
      ≡ ok jobs)
    × (length jobs ≡ 1)
    × ((n : ℕ) (k : Job) → find_id n jobs ≡ some k → NotAfter k.scheduled_at (some 35))
activate_due_scheduled_jobs-earliest_example =
    activate_due_scheduled_jobs-earliest memory (λ i. false) 1 40 due_rows due_rows-IsSound 1
      (delayed_until 35 1) refl refl refl left

-- A beat that is answered, one that is not, and one in flight at the exit.
abbrev waits : List Wake
waits = slept ∷ replied answered 120 ∷ slept ∷ replied lost 140 ∷ slept ∷ []

life-IsPatient_example :
    IsPatient memory store short_ids (attempt 2) (λ s.
      ((life memory default_settings (attempt 2) none waits (some (answered, 160)) s.0).1, s.1))
    × ((later : List Wake) (t : List Job)
        → wakes memory default_settings
            (attempt 2)
            none
            later
            (life memory default_settings (attempt 2) none waits (some (answered, 160)) t)
          ≡ life memory default_settings (attempt 2) none waits (some (answered, 160)) t)
life-IsPatient_example =
    life-IsPatient memory store short_ids default_settings (attempt 2) none waits
      (some (answered, 160))
