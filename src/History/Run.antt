-- ===== src/History/Run.antt =====
-- Any sequence of the calls of app/services/job_service.py that write, on both stores.
use job_queue_service.Prelude.{ℕ, String, ◌≡◌, ◌≢◌, Bool, Option, some, List, [], ◌∷◌}
use job_queue_service.Prelude.Int.{ℤ}
use job_queue_service.Json.{Fields}
use job_queue_service.Job.{Job, Attempt}
use job_queue_service.Job.Sound.{IsSound}
use job_queue_service.Job.Lifecycle.{◌⟶*◌}
use job_queue_service.Config.{Settings}
use job_queue_service.Postgres.{Postgres}
use job_queue_service.Redis.{Redis, Uuids}
use job_queue_service.Queue.{Ready, Link}
use job_queue_service.Session.Laws.{Rows}
use job_queue_service.Service.Claim.{claim_job}
use job_queue_service.Service.Owner.{extend_lease, update_progress, complete_job, fail_attempt}
use job_queue_service.Service.Owner.Verdict.{IsCounted}
use job_queue_service.Service.Owner.Fence.{IsStale, Lost}
use job_queue_service.Service.Sweep.{activate_due_scheduled_jobs, recover_expired_leases}
use job_queue_service.Service.Create.{Clock, JobCreateRequest, create_job}
use job_queue_service.Service.Mutate.{Stores, on_table, cancel_job, retry_job}
use job_queue_service.History.{Trace, here, Trace-IsSound, Trace-⟶*, fenced_forever}
use job_queue_service.History.Calls.{
  claim_job-Leads, extend_lease-Leads, update_progress-Leads, complete_job-Leads,
  fail_attempt-Leads, activate_due_scheduled_jobs-Leads,
}
use job_queue_service.History.Requests.{
  IsHistory, recover_expired_leases-Leads, create_job-Leads, cancel_job-Leads, retry_job-Leads,
}

module _ (db : Postgres) (redis : Redis) (uuids : Uuids) (settings : Settings)
    (P : ℕ → Type 0) where
  open db use {Table, row}

  -- A call with its arguments, the clock it reads, and what others commit where it waits. A claim
  -- mints a token that `P` allows.
  pub data Call : Type 0 where
    claims : (i worker token now : ℕ) (lease : Option ℕ) → P token → Call
    extends : Attempt → (now : ℕ) → Option ℕ → Call
    reports : Attempt → ℤ → Call
    completes : Attempt → Fields → (now : ℕ) → Call
    fails : Attempt → String → (now : ℕ) → Call
    activates : (locked : ℕ → Bool) (limit now : ℕ) → Call
    recovers : (locked : ℕ → Bool) (limit now : ℕ) → Call
    creates :
        (clock : Clock) (id : ℕ) (request : JobCreateRequest) (key : Option ℕ)
        (first second : Table → Table)
        → IsHistory db P first
        → IsHistory db P second
        → Call
    cancels :
        (others : Table → Table)
        → IsHistory db P others
        → (first : Link) (between : Ready redis uuids → Ready redis uuids) (second : Link) (i : ℕ)
        → Call
    retries : (others : Table → Table) → IsHistory db P others → (link : Link) (i : ℕ) → Call

  -- The stores that the call leaves.
  unfoldable pub run_call : Call → Stores db redis uuids → Stores db redis uuids
  run_call (claims i worker token now lease _) s =
      (on_table (claim_job db settings i worker token now lease) s).1
  run_call (extends a now lease) s = (on_table (extend_lease db settings a now lease) s).1
  run_call (reports a p) s = (on_table (update_progress db a p) s).1
  run_call (completes a result now) s = (on_table (complete_job db a result now) s).1
  run_call (fails a error now) s = (on_table (fail_attempt db a error now) s).1
  run_call (activates locked limit now) s =
      (on_table (activate_due_scheduled_jobs db locked limit now) s).1
  run_call (recovers locked limit now) s =
      (on_table (recover_expired_leases db locked limit now) s).1
  run_call (creates clock id request key first second _ _) s =
      (on_table (create_job db clock id request key first second) s).1
  run_call (cancels others _ first between second i) s =
      (cancel_job db redis uuids others first between second i s).1
  run_call (retries others _ link i) s = (retry_job db redis uuids others link i s).1

  -- The calls one after the other, the first of the list last.
  unfoldable pub run_calls : List Call → Stores db redis uuids → Stores db redis uuids
  unfolding run_call
  run_calls [] s = s
  run_calls (c ∷ cs) s = run_call c (run_calls cs s)

  -- A call adds to a history what it commits.
  pub run_call-Trace :
      (c : Call) (t : Table) (s : Stores db redis uuids)
      → Trace db P t s.0
      → Trace db P t (run_call c s).0
  unfolding run_call
  run_call-Trace (claims i worker token now lease p) t s h =
      claim_job-Leads db P s.0 h settings i worker token now lease p
  run_call-Trace (extends a now lease) t s h = extend_lease-Leads db P s.0 h settings a now lease
  run_call-Trace (reports a p) t s h = update_progress-Leads db P s.0 h a p
  run_call-Trace (completes a result now) t s h = complete_job-Leads db P s.0 h a result now
  run_call-Trace (fails a error now) t s h = fail_attempt-Leads db P s.0 h a error now
  run_call-Trace (activates locked limit now) t s h =
      activate_due_scheduled_jobs-Leads db P s.0 h locked limit now
  run_call-Trace (recovers locked limit now) t s h =
      recover_expired_leases-Leads db P locked limit now s.0 h
  run_call-Trace (creates clock id request key first second one two) t s h =
      create_job-Leads db P clock id request first second one two key s.0 h
  run_call-Trace (cancels others honest first between second i) t s h =
      cancel_job-Leads db P redis uuids others honest first between second i t s h
  run_call-Trace (retries others honest link i) t s h =
      retry_job-Leads db P redis uuids others honest link i t s h

  pub run_calls-Trace :
      (cs : List Call) (s : Stores db redis uuids) → Trace db P s.0 (run_calls cs s).0
  unfolding run_calls
  run_calls-Trace [] s = here
  run_calls-Trace (c ∷ cs) s = run_call-Trace c s.0 (run_calls cs s) (run_calls-Trace cs s)

  -- Any sequence of calls, whatever others commit where a call waits, leaves every row of a table
  -- of sound rows sound.
  pub run_calls-IsSound :
      (cs : List Call) (s : Stores db redis uuids)
      → Rows db IsSound s.0
      → Rows db IsSound (run_calls cs s).0
  run_calls-IsSound cs s sound = Trace-IsSound db P sound (run_calls-Trace cs s)

  -- On a table of sound rows, every row is still there after any sequence of calls, and its status
  -- has moved along the arrows of the life cycle.
  pub run_calls-⟶* :
      (cs : List Call) (s : Stores db redis uuids)
      → Rows db IsSound s.0
      → (i : ℕ) (j : Job) → row s.0 i ≡ some j
      → (j' : Job) × (row (run_calls cs s).0 i ≡ some j') × (j.status ⟶* j'.status)
  run_calls-⟶* cs s sound i j found = Trace-⟶* db P sound (run_calls-Trace cs s) i j found

module _ (db : Postgres) (redis : Redis) (uuids : Uuids) (settings : Settings) (a : Attempt) where
  open db use {Table}

  -- The calls whose claims do not mint the attempt's token again.
  abbrev pub LaterCall : Type 0
  LaterCall = Call db redis uuids settings (λ token. token ≢ a.execution_token)

  abbrev pub after_calls : List LaterCall → Stores db redis uuids → Table
  after_calls cs s = (run_calls db redis uuids settings (λ token. token ≢ a.execution_token) cs s).0

  -- On a table of sound rows, a counted attempt that does not own its job writes nothing more:
  -- after any sequence of calls whose claims do not mint its token again, its heartbeat, progress
  -- report, completion and failure each raise `OwnershipLostError` and change no row.
  pub run_calls-Lost :
      (cs : List LaterCall) (s : Stores db redis uuids)
      → Rows db IsSound s.0
      → IsCounted a
      → IsStale db a s.0
      → (now : ℕ) (lease : Option ℕ) (progress : ℤ) (result : Fields) (error : String)
      → Lost db a (after_calls cs s) (extend_lease db settings a now lease (after_calls cs s))
        × Lost db a (after_calls cs s) (update_progress db a progress (after_calls cs s))
        × Lost db a (after_calls cs s) (complete_job db a result now (after_calls cs s))
        × Lost db a (after_calls cs s) (fail_attempt db a error now (after_calls cs s))
  run_calls-Lost cs s sound c stale =
      fenced_forever db a settings s.0 (after_calls cs s) sound c stale
        (run_calls-Trace db redis uuids settings (λ token. token ≢ a.execution_token) cs s)
