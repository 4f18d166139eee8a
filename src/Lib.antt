-- ===== src/Lib.antt =====
-- A verification library for the job queue service: the jobs that PostgreSQL keeps, the queue of
-- ready jobs that Redis keeps, and the workers between them.
--
-- The program. An HTTP API submits, cancels and retries jobs; every job is a row of the table `jobs`.
-- A pending job has an entry in the ready queue. A worker peeks at the queue, claims the row with a
-- conditional UPDATE that mints a token, removes the entry, runs a handler while a heartbeat extends
-- its lease, and settles the attempt with UPDATEs that are fenced by the worker and the token. A
-- scheduler activates delayed jobs, and a recovery sweep ends the attempts whose lease has expired.
--
-- What models what, with paths from the root of the repository:
--   Job             app/db/models.py, app/services/attempt.py: the row, its constraints, the attempt.
--                   Job/Sound says what a row keeps between transactions, Job/Lifecycle which
--                   statuses follow which
--   Json            the documents of the columns `payload` and `result`
--   Retry, Config   app/services/retry_policy.py, app/core/config.py
--   Schemas         app/schemas/jobs.py: the job types; Schemas/Payload the payload models,
--                   Schemas/Request the validation of a submission
--   Exec            a call on a state that may raise, with the errors of app/core/errors.py
--   Postgres        the interface of PostgreSQL; Postgres/Memory is a list of rows that fills it;
--                   Postgres/Reports is that of ordered and grouped reads, with its Listed
--   Statement       the UPDATE statements of app/services/job_service.py, WHERE and SET
--   Session         what the functions call on their session
--   Service         app/services/job_service.py: Claim is `claim_job`; Owner is `extend_lease`,
--                   `update_progress`, `complete_job` and `fail_attempt`; Sweep is
--                   `activate_due_scheduled_jobs` and `recover_expired_leases`; Create is
--                   `create_job`; Mutate is `submit_job`, `cancel_job` and `retry_job`; Query is
--                   `list_jobs` and `count_jobs_by_status`
--   Redis, Text     the interface of the Redis commands and of UUIDs, and the order and the forms of
--                   byte strings; Redis/Memory fills the interface
--   Queue           app/services/queue_service.py, with its two Lua scripts; Queue/Board is the queue
--                   without its representation, as numbered tickets
--   Jobs            app/jobs/base.py, app/jobs/handlers.py, app/jobs/registry.py
--   Worker          worker/runner.py, worker/heartbeat.py, worker/scheduler.py, worker/recovery.py;
--                   Worker/Execute is the run of a handler, Worker/Loops is worker/loops.py with the
--                   loops around the cycles, Worker/Heartbeat/Task the heartbeat's task from its start
--                   to its exit, and Worker/Main is worker/main.py: any number of processes, the turns
--                   of their loops interleaved over the same stores
--   Health          app/services/health.py, app/schemas/health.py and the route of app/main.py
--   Api             app/api/jobs.py, from a parsed request to the status code and the body
--   Migration       the UPDATE of alembic/versions/0002_execution_token.py; Migration/Initial is every
--                   statement on definitions in both files of alembic/versions, Migration/Effects the
--                   interface of what PostgreSQL does with them, and Migration/Declared the tables of
--                   app/db/models.py under the names of app/db/base.py
--   History         any sequence of the statements that Service sends; History/Run is any sequence of
--                   the calls that send them, History/Crash a worker that stops after its claim
--   Examples        the theorems and the model at concrete stores
--
-- Representation. UUIDs, worker names and idempotency keys are numbers, the empty key being 0. Times
-- are microseconds. JSON documents are trees, and a real number in one is its text. A nullable
-- column is an `Option`, and a condition on NULL is false as in SQL. A function that commits once is one step on the table; where it commits
-- and reads again, or works on both stores, what others do in between is a function argument. A
-- command to Redis is answered, is lost, or takes effect while its answer is lost.
--
-- Parameters. PostgreSQL and Redis are records of operations and of the documented laws that the code
-- relies on: a conditional UPDATE changes exactly the rows that satisfy its condition, a constraint
-- refuses the whole statement, a sorted set is read by score and then by the bytes of the member, and
-- INCR fails at the end of 64 bits. `str(uuid)` is read back by `uuid.UUID`.
--
-- `EmailStr` and `HttpUrl` are functions from a text to the text that is stored or to nothing. The
-- percentage that a progress report computes in floats is any number, as are the times of sleeps. What
-- a statement on definitions does is relied on only under conditions that suffice for it: that a name
-- is new, that the columns it names are there, that what is dropped is not referred to, and that a
-- table has no rows yet when a unique index is created.
--
-- Bounds. A sequence number has at most 19 digits, so that zero-padded members compare as numbers. A
-- number of a Lua script is a double: the number in a member is the answer of INCR rounded to 53
-- significant bits, and what depends on it is stated for numbers below 2^53, which are exact. A worker's cycle has at most ten rounds, as in the source;
-- it needs no other fuel. The endless loops have fuel, one more than the turns before the stop event
-- is found set, and the heartbeat's loop runs for the turns that it is given.
--
-- Not modelled. Routing, headers and the decoding of requests, which FastAPI does, and the texts of
-- validation errors; the registration of signal handlers, the start and stop of the application, the
-- names of workers, logging and connections; the rows of job_logs, which no code writes. A cycle of
-- the worker takes the run of a handler as a function, which Worker/Execute gives; there, the
-- heartbeat is among the others that act while a handler sleeps, and what it does to the stores is in
-- its modules. In Worker/Main a turn of a loop is one event: what others do to the stores while it
-- waits, what it reads of the stop event and a signal that comes meanwhile are part of it. The answer
-- of the database is modelled where a heartbeat beats and where an attempt is settled; elsewhere it
-- answers.
pub mod Prelude
pub mod Json
pub mod Job
pub mod Retry
pub mod Schemas
pub mod Config
pub mod Exec
pub mod Text
pub mod Postgres
pub mod Statement
pub mod Session
pub mod Redis
pub mod Queue
pub mod Service
pub mod Jobs
pub mod Worker
pub mod Migration
pub mod Health
pub mod Api
pub mod History
mod Examples
