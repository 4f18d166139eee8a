-- ===== src/Worker/Execute/Kept.antt =====
-- What the run of a handler keeps: whatever each report of progress, each sleep and an abandoned
-- handler keep.
use job_queue_service.Prelude.{
  ℕ, zero, suc, ◌+◌, Option, none, some, Option-cases, Bool-cases, inl, inr,
}
use job_queue_service.Json.{Json, lookup}
use job_queue_service.Job.{Job, Attempt}
use job_queue_service.Exec.{Result, ok, err}
use job_queue_service.Postgres.{Postgres}
use job_queue_service.Redis.{Redis, Uuids}
use job_queue_service.Schemas.{JobType, email, webhook, report, batch, job_type}
use job_queue_service.Jobs.{
  Outcome, JobContext, handle_email, handle_webhook, handle_report, handle_batch, each_item, go_on,
  with_items, length_of, handler_of, get_handler,
}
use job_queue_service.Service.Mutate.{Stores}
use job_queue_service.Worker.Execute.{
  run_job, Python, Run, run_handler, progress_reporter, context_of,
}

module _ (db : Postgres) (redis : Redis) (uuids : Uuids) (python : Python)
    (K : Stores db redis uuids → Type 0) where
  -- What a change of the stores by others keeps.
  abbrev pub Keeps : (Stores db redis uuids → Stores db redis uuids) → Type 0
  Keeps f = (s : Stores db redis uuids) → K s → K (f s)

  -- What every report of progress keeps.
  abbrev pub ReportsKeep : Type 0
  ReportsKeep =
      (a : Attempt) (processed total : ℕ)
      → Keeps (λ s. (progress_reporter db redis uuids python a processed total s).1)

  module _ (reports : ReportsKeep) (job : Job) (a : Attempt)
      (context : JobContext (Stores db redis uuids))
      (sleeps : (n : ℕ) → Keeps (context.sleep n)) where
    abbrev given : JobContext (Stores db redis uuids)
    given = context_of db redis uuids python job a context

    go_on-K :
        (rest : Stores db redis uuids → Outcome × Stores db redis uuids)
        (x : Result (Unit {0}) × Stores db redis uuids)
        → Keeps (λ s. (rest s).1)
        → K x.1
        → K (go_on rest x).1
    go_on-K rest (ok u, s) keeps h = keeps s h
    go_on-K rest (err e, s) keeps h = h

    each_item-K :
        (left processed total : ℕ) → Keeps (λ s. (each_item given left processed total s).1)
    unfolding each_item
    each_item-K zero processed total s h = h
    each_item-K (suc left) processed total s h =
        go_on-K (each_item given left (processed + 1) total)
          (progress_reporter db redis uuids python a (processed + 1) total
            (context.sleep processed s))
          (each_item-K left (processed + 1) total)
          (reports a (processed + 1) total (context.sleep processed s) (sleeps processed s h))

    with_items-K : (items : Option Json) → Keeps (λ s. (with_items given items s).1)
    with_items-K none s h = h
    with_items-K (some items) s h = elim (Option-cases (length_of items)) [
      | inl no_length ↦ rw no_length h
      | inr (n, has_length) ↦ rw has_length (each_item-K n 0 n s h)
    ]

    handler_of-K : (type : JobType) → Keeps (λ s. (handler_of type given s).1)
    unfolding handle_email handle_webhook handle_report handle_batch
    handler_of-K email s h = sleeps 0 s h
    handler_of-K webhook s h = sleeps 0 s h
    handler_of-K report s h = sleeps 0 s h
    handler_of-K batch s h = with_items-K (lookup "items" job.payload) s h

  -- However the handler ends, the stores are kept then.
  pub run_job-K :
      ReportsKeep
      → (job : Job) (a : Attempt) (run : Run (Stores db redis uuids))
      → ((n : ℕ) → Keeps (run.context.sleep n))
      → Keeps run.abandoned
      → Keeps (λ s. (run_job db redis uuids python run job a s).1)
  unfolding run_job run_handler get_handler
  run_job-K reports job a run sleeps abandons s h = elim (Option-cases (job_type job.type)) [
    | inl unknown ↦ rw unknown h
    | inr (type, known) ↦ elim (Bool-cases run.handler_done) [
      | inl first ↦ rw (known, first) (handler_of-K reports job a run.context sleeps type s h)
      | inr late ↦ rw (known, late) (abandons s h)
    ]
  ]
