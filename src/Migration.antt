-- ===== src/Migration.antt =====
-- alembic/versions/0002_execution_token.py: the UPDATE that follows the new column, where a row
-- written before has no token. The definitions of both migrations are in Initial.
pub mod Released
pub mod Stranded
pub mod Tables
pub mod Conditions
pub mod Effects
pub mod Checks
pub mod Declared
pub mod Agrees
pub mod Initial
use job_queue_service.Prelude.{ℕ, Bool, true, false, ◌&&◌, Option, none, some, List, is_some, not}
use job_queue_service.Job.{Job, scheduled, is_processing}
use job_queue_service.Exec.{Exec}
use job_queue_service.Postgres.{Postgres}
use job_queue_service.Statement.{Statement, released}
use job_queue_service.Session.{execute}

-- The statement; `now` is the database's clock.
unfoldable pub releasing_unfenced : ℕ → Statement
releasing_unfenced now = record {
  guard = λ j. is_processing j.status && not (is_some j.execution_token);
  change = λ j. record (released j) { status = scheduled; scheduled_at = some now };
}

unfoldable pub upgrade : (db : Postgres) → ℕ → Exec db.Table (List Job)
upgrade db now = execute db (releasing_unfenced now)
