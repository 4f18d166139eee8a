-- ===== src/Worker/Runner/Traces.antt =====
-- Every cycle of a loop of the worker adds to a history what it commits.
use job_queue_service.Prelude.{
  ℕ, zero, suc, Bool, true, false, if◌then◌else◌, Option, none, some, String, Bool-cases, inl, inr,
}
use job_queue_service.Job.{Job, Attempt, attempt_of}
use job_queue_service.Exec.{
  Result, Exec, ok, err, job_not_found, job_conflict, ownership_lost, integrity_error, value_error,
  unavailable, after, or_raise, pure, ◌>>=◌,
}
use job_queue_service.Config.{Settings}
use job_queue_service.Postgres.{Postgres}
use job_queue_service.Redis.{Redis, Uuids}
use job_queue_service.Queue.{Link, answered, lost, timed_out, call, QueueCandidate, peek, remove}
use job_queue_service.Session.{get}
use job_queue_service.Service.Claim.{claim_job}
use job_queue_service.Service.Owner.{complete_job, fail_attempt}
use job_queue_service.Service.Mutate.{Stores, on_table, on_queue, later}
use job_queue_service.History.{Trace}
use job_queue_service.History.Calls.{claim_job-Leads, complete_job-Leads, fail_attempt-Leads}
use job_queue_service.Worker.Runner.{
  Round, Ending, unregistered, returned, failed_with, crashed, lost_ownership, unless_lost, settle,
  settle_success, settle_failure, execute_attempt, still_claimable, drop_unless,
  discard_unclaimable, run_claimed, after_claim, after_peek, run_rounds, run_once,
  max_candidates_per_cycle,
}

module _ (db : Postgres) (redis : Redis) (uuids : Uuids) (P : ℕ → Type 0) where
  open db use {Table}

  -- What others do to the stores is, on the table, a history too.
  abbrev pub IsHonest : (Stores db redis uuids → Stores db redis uuids) → Type 0
  IsHonest others =
      (t : Table) (s : Stores db redis uuids) → Trace db P t s.0 → Trace db P t (others s).0

  -- The token of the round is one that `P` allows, and all that others and the handler do meanwhile
  -- is a history.
  pub record IsHonestRound (r : Round db redis uuids) : Type 0 where
    pub mints : P r.token
    pub claims : IsHonest r.before_claim
    pub reads : IsHonest r.before_read
    pub removes : IsHonest r.before_remove
    pub runs : (j : Job) (a : Attempt) → IsHonest (λ s. (r.running j a s).1)

  pub after-Trace :
      {A B : Type 0} (t : Table) (f : A → Exec (Stores db redis uuids) B)
      (x : Result A × Stores db redis uuids)
      → Trace db P t x.1.0
      → ((a : A) → IsHonest (λ s. (f a s).1))
      → Trace db P t (after f x).1.0
  after-Trace t f (ok a, s) h next = next a t s h
  after-Trace t f (err e, s) h next = h

  unless_lost-Trace :
      {A : Type 0} (t : Table) (x : Result A × Stores db redis uuids)
      → Trace db P t x.1.0
      → Trace db P t (unless_lost x).1.0
  unless_lost-Trace t (ok a, s) h = h
  unless_lost-Trace t (err (job_not_found i), s) h = h
  unless_lost-Trace t (err (job_conflict i m j), s) h = h
  unless_lost-Trace t (err (ownership_lost a), s) h = h
  unless_lost-Trace t (err (integrity_error c), s) h = h
  unless_lost-Trace t (err value_error, s) h = h
  unless_lost-Trace t (err unavailable, s) h = h

  on_table-Trace :
      {A : Type 0} (link : Link) (t : Table) (m : Exec Table A) (s : Stores db redis uuids)
      → Trace db P t s.0
      → Trace db P t (m s.0).1
      → Trace db P t (unless_lost (on_table (call link m) s)).1.0
  on_table-Trace answered t m s h k = unless_lost-Trace t (on_table m s) k
  on_table-Trace lost t m s h k = h
  on_table-Trace timed_out t m s h k = k

  settle_failure-IsHonest :
      (a : Attempt) (error : String) (link : Link) (now : ℕ)
      → IsHonest (λ s. (settle_failure db redis uuids a error link now s).1)
  unfolding settle_failure
  settle_failure-IsHonest a error link now t s h =
      on_table-Trace link t (fail_attempt db a error now) s h
        (fail_attempt-Leads db P s.0 h a error now)

  settle-IsHonest :
      (a : Attempt) (ending : Ending) (link : Link) (now : ℕ)
      → IsHonest (λ s. (settle db redis uuids a ending link now s).1)
  unfolding settle settle_success
  settle-IsHonest a (unregistered error) link now = settle_failure-IsHonest a error link now
  settle-IsHonest a (returned result) link now = λ t s h.
      on_table-Trace link t (complete_job db a result now) s h
        (complete_job-Leads db P s.0 h a result now)
  settle-IsHonest a (failed_with error) link now = settle_failure-IsHonest a error link now
  settle-IsHonest a (crashed error) link now = settle_failure-IsHonest a error link now
  settle-IsHonest a lost_ownership link now = λ t s h. h

  pub execute_attempt-IsHonest :
      (a : Attempt) (running : Stores db redis uuids → Ending × Stores db redis uuids) (link : Link)
      (now : ℕ)
      → IsHonest (λ s. (running s).1)
      → IsHonest (λ s. (execute_attempt db redis uuids a running link now s).1)
  unfolding execute_attempt
  execute_attempt-IsHonest a running link now runs t s h =
      settle-IsHonest a (running s).0 link now t (running s).1 (runs t s h)

  module _ (r : Round db redis uuids) (honest : IsHonestRound r) (c : QueueCandidate) where
    drop_unless-IsHonest :
        (job : Option Job) → IsHonest (λ s. (drop_unless db redis uuids r.removed c job s).1)
    drop_unless-IsHonest job t s h = elim (Bool-cases (still_claimable job)) [
      | inl waits ↦ rw waits h
      | inr gone ↦ rw gone h
    ]

    discard_unclaimable-IsHonest : IsHonest (λ s. (discard_unclaimable db redis uuids r c s).1)
    unfolding discard_unclaimable
    discard_unclaimable-IsHonest t s h =
        after-Trace t (λ job. later r.before_remove (drop_unless db redis uuids r.removed c job))
          (later r.before_read (on_table (get db c.job_id)) s) (honest.reads t s h)
          (λ job t' s' h'.
            drop_unless-IsHonest job t' (r.before_remove s') (honest.removes t' s' h'))

    run_claimed-IsHonest : (job : Job) → IsHonest (λ s. (run_claimed db redis uuids r c job s).1)
    run_claimed-IsHonest job t s h =
        after-Trace t _ (on_queue (remove redis uuids r.removed c) (r.before_remove s))
          (honest.removes t s h)
          λ removed t' s' h'.
            after-Trace t' _ (or_raise (attempt_of job) value_error s')
              (or_raise-Trace (attempt_of job) t' s' h')
              λ a t'' s'' h''.
                after-Trace t'' (λ u. pure true)
                  (execute_attempt db redis uuids a (r.running job a) r.settled r.settled_at s'')
                  (execute_attempt-IsHonest a (r.running job a) r.settled r.settled_at
                    (honest.runs job a) t'' s'' h'')
                  (λ u t''' s''' h'''. h''')
      where
        or_raise-Trace :
            (o : Option Attempt) (t : Table) (s : Stores db redis uuids)
            → Trace db P t s.0
            → Trace db P t (or_raise o value_error s).1.0
        or_raise-Trace none t s h = h
        or_raise-Trace (some a) t s h = h

    module _ (rest : Exec (Stores db redis uuids) Bool) (goes : IsHonest (λ s. (rest s).1)) where
      after_claim-IsHonest :
          (job : Option Job) → IsHonest (λ s. (after_claim db redis uuids r c rest job s).1)
      after_claim-IsHonest none t s h =
          after-Trace t (λ dropped. rest) (discard_unclaimable db redis uuids r c s)
            (discard_unclaimable-IsHonest t s h) (λ dropped. goes)
      after_claim-IsHonest (some job) t s h = run_claimed-IsHonest job t s h

  unless_stopped-IsHonest :
      (stop : Bool) (m : Exec (Stores db redis uuids) Bool)
      → IsHonest (λ s. (m s).1)
      → IsHonest (λ s. ((if stop then pure false else m) s).1)
  unless_stopped-IsHonest true m goes t s h = h
  unless_stopped-IsHonest false m goes t s h = goes t s h

  after_peek-IsHonest :
      (settings : Settings) (worker : ℕ) (r : Round db redis uuids)
      (rest : Exec (Stores db redis uuids) Bool)
      → IsHonestRound r
      → IsHonest (λ s. (rest s).1)
      → (c : Option QueueCandidate)
      → IsHonest (λ s. (after_peek db redis uuids settings worker r rest c s).1)
  after_peek-IsHonest settings worker r rest honest goes none t s h = h
  after_peek-IsHonest settings worker r rest honest goes (some c) t s h =
      let lease = some settings.job_lease_seconds in
      unless_stopped-IsHonest r.stops_second
        (later r.before_claim
            (on_table (claim_job db settings c.job_id worker r.token r.claimed_at lease))
          >>= after_claim db redis uuids r c rest)
        (λ t s h.
          after-Trace t (after_claim db redis uuids r c rest)
            (on_table (claim_job db settings c.job_id worker r.token r.claimed_at lease)
              (r.before_claim s))
            (claim_job-Leads db P (r.before_claim s).0 (honest.claims t s h) settings c.job_id
              worker r.token r.claimed_at lease honest.mints)
            (after_claim-IsHonest r honest c rest goes))
        t s h

  run_rounds-IsHonest :
      (settings : Settings) (worker count : ℕ) (rounds : ℕ → Round db redis uuids)
      → ((n : ℕ) → IsHonestRound (rounds n))
      → IsHonest (λ s. (run_rounds db redis uuids settings worker count rounds s).1)
  unfolding run_rounds
  run_rounds-IsHonest settings worker zero rounds honest t s h = h
  run_rounds-IsHonest settings worker (suc count) rounds honest t s h =
      let rest = run_rounds db redis uuids settings worker count (λ n. rounds (suc n)) in
      unless_stopped-IsHonest (rounds 0).stops_first
        (on_queue (peek redis uuids (rounds 0).peeked)
          >>= after_peek db redis uuids settings worker (rounds 0) rest)
        (λ t s h.
          after-Trace t (after_peek db redis uuids settings worker (rounds 0) rest)
            (on_queue (peek redis uuids (rounds 0).peeked) s) h
            (after_peek-IsHonest settings worker (rounds 0) rest (honest 0) (
              run_rounds-IsHonest settings worker count (λ n. rounds (suc n))
                (λ n. honest (suc n)))))
        t s h

  -- A cycle of the runner adds to a history.
  pub run_once-IsHonest :
      (settings : Settings) (worker : ℕ) (rounds : ℕ → Round db redis uuids)
      → ((n : ℕ) → IsHonestRound (rounds n))
      → IsHonest (λ s. (run_once db redis uuids settings worker rounds s).1)
  unfolding run_once
  run_once-IsHonest settings worker rounds honest =
      run_rounds-IsHonest settings worker max_candidates_per_cycle rounds honest
