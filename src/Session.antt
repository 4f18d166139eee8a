-- ===== src/Session.antt =====
-- The calls that app/services/job_service.py makes on its session: one conditional UPDATE with its
-- returned rows, and reads.
pub mod Laws
use job_queue_service.Prelude.{Bool, List, if◌then◌else◌, head?, Option, ℕ}
use job_queue_service.Job.{Job}
use job_queue_service.Exec.{Exec, ok, err, integrity_error, check_constraint, pure, ◌>>=◌}
use job_queue_service.Postgres.{Postgres}
use job_queue_service.Statement.{Statement}

module _ (db : Postgres) where
  open db use {Table, row, rejects_update, update, returning, select}

  -- `session.execute(statement)`, with all the rows that it returns.
  unfoldable pub execute : Statement → Exec Table (List Job)
  execute s t =
      if rejects_update s.guard s.change t
      then (err (integrity_error check_constraint), t)
      else (ok (returning s.guard s.change t), update s.guard s.change t)

  -- `(await session.execute(statement)).scalars().first()`.
  unfoldable pub execute_first : Statement → Exec Table (Option Job)
  unfolding execute
  execute_first s = do rows ← execute s; pure (head? rows)

  -- `session.get(Job, id)`.
  abbrev pub get : ℕ → Exec Table (Option Job)
  get i t = (ok (row t i), t)
