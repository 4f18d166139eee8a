-- ===== src/Service/Create.antt =====
-- `create_job` and `submit_job`, and the request of app/schemas/jobs.py that they take.
pub mod Built
pub mod Replay
pub mod Expired
pub mod Race
use job_queue_service.Prelude.{
  ℕ, String, ◌+◌, ◌*◌, ◌==◌, Bool, true, false, ◌&&◌, not, Option, none, some, is_at, ltb, head?,
  if◌then◌else◌,
}
use job_queue_service.Prelude.Int.{ℤ}
use job_queue_service.Json.{Fields}
use job_queue_service.Job.{Job, scheduled, pending}
use job_queue_service.Job.Sound.{default_max_attempts}
use job_queue_service.Retry.{seconds}
use job_queue_service.Exec.{
  Result, Exec, ok, err, Constraint, idempotency_index, integrity_error, ◌>>=◌,
}
use job_queue_service.Postgres.{Postgres}
use job_queue_service.Statement.{releasing_key}
use job_queue_service.Session.{execute}

-- A request that validation has accepted; its payload is the canonical one, and a time with a zone
-- is an instant.
pub record JobCreateRequest : Type 0 where
  pub type : String
  pub payload : Fields
  pub priority : ℤ
  pub scheduled_at : Option ℕ

-- `IDEMPOTENCY_TTL`, 24 hours.
abbrev pub idempotency_ttl : ℕ
idempotency_ttl = seconds (24 * 3600)

-- A key is true in Python unless it is `None` or empty; the empty text is the number 0.
abbrev pub is_given : Option ℕ → Bool
is_given none = false
is_given (some k) = not (k == 0)

-- `scheduled_at is not None and scheduled_at > now`.
abbrev pub is_future : ℕ → Option ℕ → Bool
is_future now none = false
is_future now (some at) = ltb now at

-- `_build_job`, with the primary key and the creation time that the row gets.
unfoldable pub build_job : ℕ → ℕ → ℕ → JobCreateRequest → Option ℕ → Job
build_job id created_at now request key = record {
  id = id;
  type = request.type;
  payload = request.payload;
  status = if is_future now request.scheduled_at then scheduled else pending;
  priority = request.priority;
  attempt_count = 0;
  max_attempts = default_max_attempts;
  progress = 0;
  result = none;
  error = none;
  scheduled_at = request.scheduled_at;
  created_at = created_at;
  started_at = none;
  completed_at = none;
  worker_id = none;
  execution_token = none;
  lease_expires_at = none;
  idempotency_key = key;
  idempotency_expires_at = if is_given key then some (now + idempotency_ttl) else none;
}

-- The row holds the key and has not expired: the condition of `_find_active_by_key`.
abbrev unexpired : ℕ → Option ℕ → Bool
unexpired now none = true
unexpired now (some expiry) = ltb now expiry

abbrev pub is_active : ℕ → ℕ → Job → Bool
is_active key now j = is_at j.idempotency_key key && unexpired now j.idempotency_expires_at

-- The readings of the clock that one call makes, in their order.
pub record Clock : Type 0 where
  pub found : ℕ
  pub released : ℕ
  pub built : ℕ
  pub created : ℕ
  pub reloaded : ℕ

-- `_is_idempotency_conflict`.
abbrev is_idempotency_conflict : Constraint → Bool
is_idempotency_conflict idempotency_index = true
is_idempotency_conflict _ = false

module _ (db : Postgres) where
  open db use {Table, select, rejects_insert, insert}

  unfoldable pub find_active_by_key : ℕ → ℕ → Table → Option Job
  find_active_by_key key now t = head? (select (is_active key now) t)

  -- The handler of `IntegrityError`, after the rollback.
  abbrev pub reload : Constraint → Option Job → Table → Result (Job × Bool) × Table
  reload c none t = (err (integrity_error c), t)
  reload c (some winner) t = (ok (winner, false), t)

  -- `others` is what other transactions commit before the winner is looked up.
  unfoldable pub resolve_conflict :
      Clock → Option ℕ → (Table → Table) → Constraint → Exec Table (Job × Bool)
  resolve_conflict clock none others c t = (err (integrity_error c), t)
  resolve_conflict clock (some key) others c t =
      if is_given (some key) && is_idempotency_conflict c
      then reload c (find_active_by_key key clock.reloaded (others t)) (others t)
      else (err (integrity_error c), t)

  -- The insert and its commit, on the table `t`; a failed insert rolls back to `before`.
  abbrev settle_insert :
      Clock
      → Job
      → Option ℕ
      → (Table → Table)
      → Option Constraint
      → Table
      → Table
      → Result (Job × Bool) × Table
  settle_insert clock job key others none before t = (ok (job, true), insert job t)
  settle_insert clock job key others (some c) before t = resolve_conflict clock key others c before

  unfoldable pub insert_job :
      Clock → Job → Option ℕ → (Table → Table) → Table → Exec Table (Job × Bool)
  unfolding resolve_conflict
  insert_job clock job key others before t =
      settle_insert clock job key others (rejects_insert job t) before t

  -- The part under `if idempotency_key`: what other transactions commit between the look-up and
  -- the release is `others`.
  abbrev release_then :
      (Table → Table → Result (Job × Bool) × Table) → ℕ → ℕ → Table → Result (Job × Bool) × Table
  release_then next key now t = (do released ← execute db (releasing_key key now); next t) t

  abbrev reuse_or : Result (Job × Bool) × Table → Option Job → Table → Result (Job × Bool) × Table
  reuse_or fresh none t = fresh
  reuse_or fresh (some existing) t = (ok (existing, false), t)

  abbrev with_key :
      Clock
      → ℕ
      → (Table → Table)
      → (Table → Table → Result (Job × Bool) × Table)
      → Exec Table (Job × Bool)
  with_key clock key others next t =
      reuse_or (release_then next key clock.released (others t))
        (find_active_by_key key clock.found t) t

  -- `create_job`: `id` and `clock.created` are what the server generates for the row. `first` and
  -- `second` are what other transactions commit while this one waits.
  unfoldable pub create_job :
      Clock
      → ℕ
      → JobCreateRequest
      → Option ℕ
      → (Table → Table)
      → (Table → Table)
      → Exec Table (Job × Bool)
  unfolding insert_job find_active_by_key
  create_job clock id request none first second t =
      insert_job clock (build_job id clock.created clock.built request none) none second t t
  create_job clock id request (some key) first second t =
      let fresh =
        insert_job clock (build_job id clock.created clock.built request (some key)) (some key)
          second in
      if is_given (some key) then with_key clock key first fresh t else fresh t t
