-- ===== src/Worker/Runner.antt =====
-- worker/runner.py: one cycle of a worker. Where a cycle waits for a store, other workers and
-- requests may change both, by the functions of the round.

pub mod Settled
pub mod Rounds
pub mod Traces
use job_queue_service.Prelude.{
  ℕ, zero, suc, String, ◌-◌, Bool, true, false, ◌&&◌, not, Option, none, some, if◌then◌else◌, ltb,
}
use job_queue_service.Json.{Fields}
use job_queue_service.Job.{Job, Attempt, attempt_of, is_pending}
use job_queue_service.Exec.{
  Result, Exec, ok, err, Error, ownership_lost, value_error, pure, or_raise, ◌>>=◌, ◌>>◌,
}
use job_queue_service.Config.{Settings}
use job_queue_service.Postgres.{Postgres}
use job_queue_service.Redis.{Redis, Uuids}
use job_queue_service.Queue.{call, Link, QueueCandidate, peek, remove}
use job_queue_service.Session.{get}
use job_queue_service.Service.Claim.{claim_job}
use job_queue_service.Service.Owner.{complete_job, fail_attempt}
use job_queue_service.Service.Mutate.{Stores, on_table, on_queue, later}

-- `MAX_CANDIDATES_PER_CYCLE`.
abbrev pub max_candidates_per_cycle : ℕ
max_candidates_per_cycle = 10

-- How the run of a handler ends: no handler has the type (with the text that is stored), the
-- handler returns, raises `JobExecutionError` or another error (with the text), or the heartbeat
-- or a progress report finds the job lost.
pub data Ending : Type 0 where
  unregistered : String → Ending
  returned : Fields → Ending
  failed_with : String → Ending
  crashed : String → Ending
  lost_ownership : Ending

-- `except OwnershipLostError`, where the handler only logs.
abbrev pub unless_lost : {S A : Type 0} → Result A × S → Result (Unit {0}) × S
unless_lost (ok _, s) = (ok tt, s)
unless_lost (err (ownership_lost a), s) = (ok tt, s)
unless_lost (err e, s) = (err e, s)

-- The condition under which `_discard_unclaimable` leaves the entry in the queue.
abbrev pub still_claimable : Option Job → Bool
still_claimable none = false
still_claimable (some job) = is_pending job.status && ltb job.attempt_count job.max_attempts

module _ (db : Postgres) (redis : Redis) (uuids : Uuids) where
  open db use {Table}

  -- What one round of the loop meets: the two readings of the stop event, the answers of the
  -- queue, the clock and the token of the claim, what the run of the handler does and how it ends,
  -- how the database answers when the attempt is settled,
  -- and what all others do to the stores before the claim, before the re-read and before the
  -- removals.
  pub record Round : Type 0 where
    pub stops_first : Bool
    pub stops_second : Bool
    pub peeked : Link
    pub removed : Link
    pub before_claim : Stores db redis uuids → Stores db redis uuids
    pub before_read : Stores db redis uuids → Stores db redis uuids
    pub before_remove : Stores db redis uuids → Stores db redis uuids
    pub token : ℕ
    pub claimed_at : ℕ
    pub running : Job → Attempt → Stores db redis uuids → Ending × Stores db redis uuids
    pub settled : Link
    pub settled_at : ℕ

  -- `_settle_success` and `_settle_failure`, and how the database answers them: an error of the
  -- database is not caught.
  unfoldable pub settle_success :
      Attempt → Fields → Link → ℕ → Exec (Stores db redis uuids) (Unit {0})
  settle_success a result link now s =
      unless_lost (on_table (call link (complete_job db a result now)) s)

  unfoldable pub settle_failure :
      Attempt → String → Link → ℕ → Exec (Stores db redis uuids) (Unit {0})
  settle_failure a error link now s =
      unless_lost (on_table (call link (fail_attempt db a error now)) s)

  -- How `_execute` settles the attempt once the handler's run has ended.
  unfoldable pub settle : Attempt → Ending → Link → ℕ → Exec (Stores db redis uuids) (Unit {0})
  unfolding settle_success settle_failure
  settle a (unregistered error) link now = settle_failure a error link now
  settle a (returned result) link now = settle_success a result link now
  settle a (failed_with error) link now = settle_failure a error link now
  settle a (crashed error) link now = settle_failure a error link now
  settle a lost_ownership link now = pure tt

  abbrev pub settle_ended :
      Attempt
      → Link
      → ℕ
      → Ending × Stores db redis uuids
      → Result (Unit {0}) × Stores db redis uuids
  settle_ended a link now (ending, s) = settle a ending link now s

  -- `_execute`: how the run of the handler ends, with the stores that it leaves, is `running`.
  unfoldable pub execute_attempt :
      Attempt
      → (Stores db redis uuids → Ending × Stores db redis uuids)
      → Link
      → ℕ
      → Exec (Stores db redis uuids) (Unit {0})
  unfolding settle
  execute_attempt a running link now s = settle_ended a link now (running s)

  -- `_discard_unclaimable`.
  abbrev pub drop_unless : Link → QueueCandidate → Option Job → Exec (Stores db redis uuids) Bool
  drop_unless link c job =
      let dropped = on_queue (remove redis uuids link c) in
      if still_claimable job then pure false else dropped

  unfoldable pub discard_unclaimable : Round → QueueCandidate → Exec (Stores db redis uuids) Bool
  discard_unclaimable r c = do
    job ← later r.before_read (on_table (get db c.job_id))
    later r.before_remove (drop_unless r.removed c job)

  -- The rest of a round, once the claim has returned the row.
  abbrev pub run_claimed : Round → QueueCandidate → Job → Exec (Stores db redis uuids) Bool
  run_claimed r c job = do
    removed ← later r.before_remove (on_queue (remove redis uuids r.removed c))
    a ← or_raise (attempt_of job) value_error
    execute_attempt a (r.running job a) r.settled r.settled_at >> pure true

  -- What follows the claim: the next round, `rest`, or the execution.
  abbrev pub after_claim :
      Round
      → QueueCandidate
      → Exec (Stores db redis uuids) Bool
      → Option Job
      → Exec (Stores db redis uuids) Bool
  after_claim r c rest none = discard_unclaimable r c >> rest
  after_claim r c rest (some job) = run_claimed r c job

  abbrev pub after_peek :
      Settings
      → ℕ
      → Round
      → Exec (Stores db redis uuids) Bool
      → Option QueueCandidate
      → Exec (Stores db redis uuids) Bool
  after_peek settings worker r rest none = pure false
  after_peek settings worker r rest (some c) =
      if r.stops_second
      then pure false
      else later r.before_claim (
          on_table (
            claim_job db settings c.job_id worker r.token r.claimed_at
              (some settings.job_lease_seconds)))
        >>= after_claim r c rest

  -- `count` rounds of the loop.
  unfoldable pub run_rounds : Settings → ℕ → ℕ → (ℕ → Round) → Exec (Stores db redis uuids) Bool
  unfolding discard_unclaimable execute_attempt
  run_rounds settings worker zero rounds = pure false
  run_rounds settings worker (suc count) rounds =
      let rest = run_rounds settings worker count (λ n. rounds (suc n)) in
      let r = rounds 0 in
      if r.stops_first
      then pure false
      else on_queue (peek redis uuids r.peeked) >>= after_peek settings worker r rest

  -- `run_once`: whether a job was executed.
  unfoldable pub run_once : Settings → ℕ → (ℕ → Round) → Exec (Stores db redis uuids) Bool
  unfolding run_rounds
  run_once settings worker rounds = run_rounds settings worker max_candidates_per_cycle rounds
