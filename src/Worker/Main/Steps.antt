-- ===== src/Worker/Main/Steps.antt =====
-- What any number of worker processes and requests, interleaved in any way, commit is a history.
use job_queue_service.Prelude.{
  ℕ, suc, ◌≡◌, ◌≢◌, Bool, some, List, [], ◌∷◌, All, if◌then◌else◌, ◌==◌,
}
use job_queue_service.Prelude.Int.{pos}
use job_queue_service.Job.{Job, Attempt}
use job_queue_service.Job.Sound.{IsSound}
use job_queue_service.Job.Lifecycle.{◌⟶*◌}
use job_queue_service.Config.{Settings}
use job_queue_service.Postgres.{Postgres}
use job_queue_service.Redis.{Redis, Uuids}
use job_queue_service.Queue.{Link, enqueue}
use job_queue_service.Session.Laws.{Rows}
use job_queue_service.Service.Sweep.{activate_due_scheduled_jobs, recover_expired_leases}
use job_queue_service.Service.Mutate.{Stores, on_table, on_queue, logged}
use job_queue_service.Service.Owner.Fence.{IsStale}
use job_queue_service.Service.Owner.Verdict.{IsCounted}
use job_queue_service.History.{Trace, here, Trace-IsSound, Trace-⟶*, Later-IsStale}
use job_queue_service.History.Calls.{update_progress-Leads, activate_due_scheduled_jobs-Leads}
use job_queue_service.History.Requests.{recover_expired_leases-Leads}
use job_queue_service.Worker.Runner.{Ending}
use job_queue_service.Worker.Runner.Traces.{IsHonest, IsHonestRound, after-Trace, run_once-IsHonest}
use job_queue_service.Worker.Runner.Settled.{Silent, settle-Silent}
use job_queue_service.Queue.{Link, answered}
use job_queue_service.Worker.Runner.{settle}
use job_queue_service.Worker.Sweeps.{enqueue_each, schedule_once, recover_once}
use job_queue_service.Worker.Execute.{Python, Run, progress_reporter, run_job}
use job_queue_service.Worker.Execute.Kept.{run_job-K}
use job_queue_service.Worker.Main.{
  Turn, runs, schedules, recovers, cycle, Event, signal, turn, elsewhere, System, take_turn_cases,
  handle_event, gather,
}

module _ (db : Postgres) (redis : Redis) (uuids : Uuids) (P : ℕ → Type 0) where
  open db use {Table, row}

  enqueue_each-IsHonest :
      (links : ℕ → Link) (jobs : List Job)
      → IsHonest db redis uuids P (λ s. (enqueue_each db redis uuids links jobs s).1)
  unfolding enqueue_each
  enqueue_each-IsHonest links [] t s h = h
  enqueue_each-IsHonest links (job ∷ jobs) t s h =
      enqueue_each-IsHonest (λ n. links (suc n)) jobs t
        (logged (on_queue (enqueue redis uuids (links 0) job.id job.priority)) s).1 h

  schedule_once-IsHonest :
      (locked : ℕ → Bool) (batch_size now : ℕ) (links : ℕ → Link)
      → IsHonest db redis uuids P
          (λ s. (schedule_once db redis uuids locked batch_size now links s).1)
  unfolding schedule_once
  schedule_once-IsHonest locked batch_size now links t s h =
      after-Trace db redis uuids P t _
        (on_table (activate_due_scheduled_jobs db locked batch_size now) s)
        (activate_due_scheduled_jobs-Leads db P s.0 h locked batch_size now)
        λ activated t' s' h'.
          after-Trace db redis uuids P t' _ (enqueue_each db redis uuids links activated s')
            (enqueue_each-IsHonest links activated t' s' h') (λ u t'' s'' h''. h'')

  recover_once-IsHonest :
      (locked : ℕ → Bool) (batch_size now : ℕ)
      → IsHonest db redis uuids P (λ s. (recover_once db redis uuids locked batch_size now s).1)
  unfolding recover_once
  recover_once-IsHonest locked batch_size now t s h =
      after-Trace db redis uuids P t _
        (on_table (recover_expired_leases db locked batch_size now) s)
        (recover_expired_leases-Leads db P locked batch_size now s.0 h) (λ recovered t' s' h'. h')

  -- The run of a handler adds to a history, if what others do during its sleeps does.
  pub run_job-IsHonest :
      (python : Python) (run : Run (Stores db redis uuids))
      → ((n : ℕ) → IsHonest db redis uuids P (run.context.sleep n))
      → IsHonest db redis uuids P run.abandoned
      → (job : Job) (a : Attempt)
      → IsHonest db redis uuids P (λ s. (run_job db redis uuids python run job a s).1)
  unfolding progress_reporter
  run_job-IsHonest python run sleeps abandons job a t s h =
      run_job-K db redis uuids python (λ s. Trace db P t s.0)
        (λ a' processed total s' h'.
          update_progress-Leads db P s'.0 h' a'
            (pos (if total == 0 then 100 else python.percentage processed total)))
        job a run (λ n s' h'. sleeps n t s' h') (λ s' h'. abandons t s' h') s h

  -- Every round of the turn is honest.
  abbrev pub IsHonestTurn : Turn db redis uuids → Type 0
  IsHonestTurn (runs rounds) = (n : ℕ) → IsHonestRound db redis uuids P (rounds n)
  IsHonestTurn (schedules locked now links) = Unit
  IsHonestTurn (recovers locked now) = Unit

  abbrev pub IsHonestEvent : Event db redis uuids → Type 0
  IsHonestEvent (signal n) = Unit
  IsHonestEvent (turn n t signalled) = IsHonestTurn t
  IsHonestEvent (elsewhere others) = IsHonest db redis uuids P others

  module _ (settings : Settings) where
    cycle-IsHonest :
        (worker : ℕ) (u : Turn db redis uuids)
        → IsHonestTurn u
        → IsHonest db redis uuids P (cycle db redis uuids settings worker u)
    unfolding cycle
    cycle-IsHonest worker (runs rounds) honest =
        run_once-IsHonest db redis uuids P settings worker rounds honest
    cycle-IsHonest worker (schedules locked now links) honest =
        schedule_once-IsHonest locked settings.scheduler_batch_size now links
    cycle-IsHonest worker (recovers locked now) honest =
        recover_once-IsHonest locked settings.recovery_batch_size now

    handle_event-Trace :
        (e : Event db redis uuids) (t : Table) (s : System db redis uuids)
        → IsHonestEvent e
        → Trace db P t s.stores.0
        → Trace db P t (handle_event db redis uuids settings e s).stores.0
    unfolding handle_event
    handle_event-Trace (signal n) t s honest h = h
    handle_event-Trace (turn n u signalled) t s honest h =
        take_turn_cases db redis uuids (λ s'. Trace db P t s'.stores.0) settings n u signalled s
          (λ over. h) (λ stop. h) (λ goes. cycle-IsHonest n u honest t s.stores h)
    handle_event-Trace (elsewhere others) t s honest h = honest t s.stores h

    gather-Trace :
        (es : List (Event db redis uuids)) (t : Table) (s : System db redis uuids)
        → All IsHonestEvent es
        → Trace db P t s.stores.0
        → Trace db P t (gather db redis uuids settings es s).stores.0
    unfolding gather
    gather-Trace [] t s honest h = h
    gather-Trace (e ∷ es) t s honest h =
        gather-Trace es t (handle_event db redis uuids settings e s) honest.1
          (handle_event-Trace e t s honest.0 h)

    -- However the loops of any number of worker processes and what others do are interleaved, if
    -- all that handlers and others do is a history, every row of a table of sound rows is sound
    -- afterwards, is still there, and has a status that has moved along the arrows of the life
    -- cycle.
    pub gather-⟶* :
        (es : List (Event db redis uuids)) (s : System db redis uuids)
        → All IsHonestEvent es
        → Rows db IsSound s.stores.0
        → let after = (gather db redis uuids settings es s).stores.0 in
          Rows db IsSound after
          × ((i : ℕ) (j : Job)
              → row s.stores.0 i ≡ some j
              → (j' : Job) × (row after i ≡ some j') × (j.status ⟶* j'.status))
    gather-⟶* es s honest sound =
        let h = gather-Trace es s.stores.0 s honest here in
        (Trace-IsSound db P sound h, Trace-⟶* db P sound h)

module _ (db : Postgres) (redis : Redis) (uuids : Uuids) (settings : Settings) (a : Attempt) where
  -- The events whose claims do not mint the attempt's token again.
  abbrev pub IsLaterEvent : Event db redis uuids → Type 0
  IsLaterEvent = IsHonestEvent db redis uuids (λ token. token ≢ a.execution_token)

  -- However the loops of any number of worker processes and what others do are interleaved on a
  -- table of sound rows, a counted attempt that has lost its job is settled, with an answer of the
  -- database, without raising and without a write to either store, however its handler ends, if all
  -- that handlers and others do is a history and no later claim mints its token.
  pub gather-Silent :
      (es : List (Event db redis uuids)) (s : System db redis uuids)
      → All IsLaterEvent es
      → Rows db IsSound s.stores.0
      → IsCounted a
      → IsStale db a s.stores.0
      → (ending : Ending) (now : ℕ)
      → let after = (gather db redis uuids settings es s).stores in
        Silent db redis uuids after (settle db redis uuids a ending answered now after)
  gather-Silent es s honest sound c stale ending now =
      let Fresh : ℕ → Type 0 = λ token. token ≢ a.execution_token in
      let h = gather-Trace db redis uuids Fresh settings es s.stores.0 s honest here in
      settle-Silent db redis uuids a ending now (gather db redis uuids settings es s).stores
        (Trace-IsSound db Fresh sound h) c (Later-IsStale db a sound stale h)
