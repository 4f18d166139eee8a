-- ===== src/Worker/Execute/Batch.antt =====
-- A batch in the hands of its owner.
use job_queue_service.Prelude.{ℕ, String, ◌≡◌, refl, sym, ap, ◌∙◌, subst, true, some, arith}
use job_queue_service.Json.{Fields, Items, array, lookup, count}
use job_queue_service.Job.{Job, Attempt}
use job_queue_service.Job.Sound.{IsSound}
use job_queue_service.Exec.{ok}
use job_queue_service.Postgres.{Postgres}
use job_queue_service.Redis.{Redis, Uuids}
use job_queue_service.Statement.{owned_by}
use job_queue_service.Session.Laws.{Rows}
use job_queue_service.Jobs.{finished, each_item, batch_result, handle_batch, get_handler}
use job_queue_service.Service.Owner.Settle.{completed_with, complete_job-Settled}
use job_queue_service.Service.Mutate.{Stores}
use job_queue_service.Schemas.{job_type}
use job_queue_service.Queue.{answered}
use job_queue_service.Worker.Runner.{
  Ending, returned, settle, settle_ended, execute_attempt, settle_success,
}
use job_queue_service.Worker.Execute.{Python, Run, run_handler, context_of, run_job, execute}
use job_queue_service.Worker.Execute.Going.{Going, IsPatient, going_row, each_item-Going}

module _ (db : Postgres) (redis : Redis) (uuids : Uuids) (python : Python) (a : Attempt) (j : Job)
    (owns : owned_by a j ≡ true) where
  open db use {row}

  -- What settles a finished run of the job.
  settled :
      (result : Fields) (now : ℕ) (s : Stores db redis uuids)
      → Going db redis uuids python a j owns s
      → let x = settle db redis uuids a (returned result) answered now s in
        (x.0 ≡ ok tt) × (row x.1.0 a.job_id ≡ some (completed_with result now j))
  unfolding settle settle_success
  settled result now s h =
      let (ends, at, rest) =
        complete_job-Settled db a s.0 h.sound
          (going_row db redis uuids python a j owns h.progress h.lease) h.at owns result now in
      rw ends (refl, at)

module _ (db : Postgres) (redis : Redis) (uuids : Uuids) (python : Python) where
  open db use {row}

  batch_handler :
      (type : String)
      → type ≡ "batch"
      → get_handler {S = Stores db redis uuids} type ≡ some handle_batch
  unfolding get_handler job_type
  batch_handler type e = rw e refl

  -- The run of a batch's handler returns.
  run_job-returns :
      (a : Attempt) (j : Job) (run : Run (Stores db redis uuids)) (items : Items)
      (s : Stores db redis uuids) (result : Fields) (s' : Stores db redis uuids)
      → j.type ≡ "batch"
      → lookup "items" j.payload ≡ some (array items)
      → run.handler_done ≡ true
      → each_item (context_of db redis uuids python j a run.context) (count items) 0 (count items) s
        ≡ (finished result, s')
      → run_job db redis uuids python run j a s ≡ (returned result, s')
  unfolding run_job run_handler handle_batch
  run_job-returns a j run items s result s' batch holds done returns =
      rw (batch_handler j.type batch, done, holds, returns) refl

  -- The run and its settling, from stores where the owner is at work.
  pub Going-completes :
      (a : Attempt) (j : Job) (owns : owned_by a j ≡ true) (run : Run (Stores db redis uuids))
      (now : ℕ) (items : Items) (s : Stores db redis uuids)
      → Going db redis uuids python a j owns s
      → j.type ≡ "batch"
      → lookup "items" j.payload ≡ some (array items)
      → run.handler_done ≡ true
      → ((n : ℕ) → IsPatient db redis uuids a (run.context.sleep n))
      → let x =
          execute_attempt db redis uuids a (run_job db redis uuids python run j a) answered now s in
        (x.0 ≡ ok tt)
        × (row x.1.0 a.job_id
            ≡ some (completed_with (batch_result (count items) (count items)) now j))
  unfolding execute_attempt
  Going-completes a j owns run now items s going batch holds done patient =
      let n = count items in
      let (s', returns, last) =
        each_item-Going db redis uuids python a j owns run.context patient n 0 n s going in
      let result = batch_result n n in
      let whole : run_job db redis uuids python run j a s ≡ (returned result, s') =
        run_job-returns a j run items s result s' batch holds done
          (returns ∙ ap (λ k. (finished (batch_result k n), s')) (omega arith)) in
      subst
        (λ (x : Ending × Stores db redis uuids).
          let y = settle_ended db redis uuids a answered now x in
          (y.0 ≡ ok tt) × (row y.1.0 a.job_id ≡ some (completed_with result now j)))
        (sym whole) (settled db redis uuids python a j owns result now s' last)

  -- On a table of sound rows, the run of a batch by the owner of its row, whose handler is done
  -- before the heartbeat finds the job lost, returns, and leaves the row released and COMPLETED at
  -- progress 100 with all its items counted as processed and none as failed, provided that what
  -- others do while it sleeps leaves the rows sound and this row as it is, but for its lease.
  pub execute-completes :
      (a : Attempt) (j : Job) (run : Run (Stores db redis uuids)) (now : ℕ) (items : Items)
      (s : Stores db redis uuids)
      → Rows db IsSound s.0
      → row s.0 a.job_id ≡ some j
      → owned_by a j ≡ true
      → j.type ≡ "batch"
      → lookup "items" j.payload ≡ some (array items)
      → run.handler_done ≡ true
      → ((n : ℕ) → IsPatient db redis uuids a (run.context.sleep n))
      → let x = execute db redis uuids python j a run answered now s in
        (x.0 ≡ ok tt)
        × (row x.1.0 a.job_id
            ≡ some (completed_with (batch_result (count items) (count items)) now j))
  unfolding execute
  execute-completes a j run now items s sound found owns batch holds done patient =
      Going-completes a j owns run now items s
        (record { sound = sound; progress = j.progress; lease = j.lease_expires_at; at = found })
        batch holds done patient
