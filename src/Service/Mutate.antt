-- ===== src/Service/Mutate.antt =====
-- The calls that work on both stores: `submit_job`, `cancel_job` and `retry_job`.
pub mod Outcome
pub mod Refused
use job_queue_service.Prelude.{ℕ, Bool, ◌&&◌, Option, none, some, if◌then◌else◌}
use job_queue_service.Job.{Job, is_pending, is_cancelled}
use job_queue_service.Exec.{
  Result, Exec, ok, job_not_found, job_conflict, cancel, retry, pure, raise, ◌>>=◌, ◌>>◌,
}
use job_queue_service.Postgres.{Postgres}
use job_queue_service.Redis.{Redis, Uuids}
use job_queue_service.Queue.{Ready, Link, enqueue, remove_current}
use job_queue_service.Statement.{cancelling, restarting}
use job_queue_service.Session.{execute_first, get}
use job_queue_service.Service.Create.{Clock, JobCreateRequest, create_job}

-- A call on one of the two stores.
abbrev pub on_table : {T Q A : Type 0} → Exec T A → Exec (T × Q) A
on_table m (t, q) = let (r, t') = m t in (r, (t', q))

abbrev pub on_queue : {T Q A : Type 0} → Exec Q A → Exec (T × Q) A
on_queue m (t, q) = let (r, q') = m q in (r, (t, q'))

-- A call that finds what others have committed in between.
abbrev pub later : {S A : Type 0} → (S → S) → Exec S A → Exec S A
later others m s = m (others s)

-- `try … except Exception`, where the handler only logs.
abbrev pub swallowed : {S A : Type 0} → Result A × S → Result (Unit {0}) × S
swallowed (_, s) = (ok tt, s)

abbrev pub logged : {S A : Type 0} → Exec S A → Exec S (Unit {0})
logged m s = swallowed (m s)

module _ (db : Postgres) (redis : Redis) (uuids : Uuids) where
  open db use {Table}

  abbrev pub Stores : Type 0
  Stores = Table × Ready redis uuids

  -- The rest of `submit_job`, once the job is there.
  abbrev pub enqueue_created : Link → Job × Bool → Exec Stores (Job × Bool)
  enqueue_created link outcome =
      (if outcome.1 && is_pending outcome.0.status
        then logged (on_queue (enqueue redis uuids link outcome.0.id outcome.0.priority))
        else pure tt)
      >> pure outcome

  unfoldable pub submit_job :
      Clock
      → ℕ
      → JobCreateRequest
      → Option ℕ
      → (Table → Table)
      → (Table → Table)
      → Link
      → Exec Stores (Job × Bool)
  submit_job clock id request key first second link = do
    outcome ← on_table (create_job db clock id request key first second)
    enqueue_created link outcome

  -- `_remove_ready_entry`.
  abbrev remove_ready_entry :
      Link → (Ready redis uuids → Ready redis uuids) → Link → ℕ → Exec Stores (Unit {0})
  remove_ready_entry first between second job_id =
      logged (on_queue (remove_current redis uuids first between second job_id))

  abbrev pub refuse_cancel : ℕ → Option Job → Exec Stores Job
  refuse_cancel job_id none = raise (job_not_found job_id)
  refuse_cancel job_id (some existing) =
      if is_cancelled existing.status
      then pure existing
      else raise (job_conflict job_id cancel existing.status)

  abbrev pub after_cancel :
      (Table → Table)
      → Link
      → (Ready redis uuids → Ready redis uuids)
      → Link
      → ℕ
      → Option Job
      → Exec Stores Job
  after_cancel others first between second job_id (some job) = do
    remove_ready_entry first between second job.id
    pure job
  after_cancel others first between second job_id none = do
    existing ← on_table (later others (get db job_id))
    refuse_cancel job_id existing

  -- `others` is what other transactions commit before a refused call reads the row, and `between`
  -- what others do to the queue during the removal.
  unfoldable pub cancel_job :
      (Table → Table) → Link → (Ready redis uuids → Ready redis uuids) → Link → ℕ → Exec Stores Job
  cancel_job others first between second job_id = do
    job ← on_table (execute_first db (cancelling job_id))
    after_cancel others first between second job_id job

  abbrev pub refuse_retry : ℕ → Option Job → Exec Stores Job
  refuse_retry job_id none = raise (job_not_found job_id)
  refuse_retry job_id (some existing) = raise (job_conflict job_id retry existing.status)

  abbrev pub after_retry : (Table → Table) → Link → ℕ → Option Job → Exec Stores Job
  after_retry others link job_id none = do
    existing ← on_table (later others (get db job_id))
    refuse_retry job_id existing
  after_retry others link job_id (some job) = do
    logged (on_queue (enqueue redis uuids link job.id job.priority))
    pure job

  unfoldable pub retry_job : (Table → Table) → Link → ℕ → Exec Stores Job
  retry_job others link job_id = do
    job ← on_table (execute_first db (restarting job_id))
    after_retry others link job_id job
