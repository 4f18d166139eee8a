-- ===== src/Service/Sweep/Activate.antt =====
-- What one batch of the scheduler does to the table.
use job_queue_service.Prelude.{ℕ, ◌≡◌, refl, Bool, true, none, some, List, map, arith, is_at_most}
use job_queue_service.Job.{Job, scheduled, pending}
use job_queue_service.Job.Sound.{IsSound}
use job_queue_service.Exec.{Result, ok}
use job_queue_service.Postgres.{Postgres, find_id}
use job_queue_service.Statement.{activating}
use job_queue_service.Statement.Safe.{activating-IsSafe}
use job_queue_service.Session.Laws.{Rows, execute_safe, find_id-execute_some, find_id-execute_none}
use job_queue_service.Service.Sweep.{due_jobs, activate_due_scheduled_jobs}

module _ (db : Postgres) where
  open db use {Table, row}

  -- The call returned the rows that it activated: each was SCHEDULED and due, is now PENDING and
  -- otherwise the same. A row that it did not return is as it was.
  abbrev pub Activated : ℕ → Table → Result (List Job) × Table → Type 0
  Activated now t (r, t') =
      (jobs : List Job) × (r ≡ ok jobs)
      × ((i : ℕ) (k : Job)
          → find_id i jobs ≡ some k
          → (j : Job) × (row t i ≡ some j)
            × (j.status ≡ scheduled)
            × (is_at_most j.scheduled_at now ≡ true)
            × (k ≡ record j { status = pending })
            × (row t' i ≡ some k))
      × ((i : ℕ) → find_id i jobs ≡ none → row t' i ≡ row t i)

  -- On a table of sound rows, a batch of the scheduler returns rows, each of which was SCHEDULED
  -- and due, is now PENDING and otherwise the same; a row that it does not return is as it was.
  pub activate_due_scheduled_jobs-Activated :
      (locked : ℕ → Bool) (limit now : ℕ) (t : Table)
      → Rows db IsSound t
      → Activated now t (activate_due_scheduled_jobs db locked limit now t)
  unfolding activate_due_scheduled_jobs activating
  activate_due_scheduled_jobs-Activated locked limit now t sound =
      let ids = map (λ j. j.id) (due_jobs db locked limit now t) in
      let s = activating ids now in
      let safe = activating-IsSafe ids now in
      rw (execute_safe db s safe t sound) (
        _,
        refl,
        (λ i k e.
            let (j, found, g, at, new) = find_id-execute_some db s safe t sound i k e in
            (j, found, ground arith, ground arith, at, new)),
        λ i e. find_id-execute_none db s safe t sound i e,
      )
