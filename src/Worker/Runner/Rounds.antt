-- ===== src/Worker/Runner/Rounds.antt =====
-- What a cycle of the worker does to the stores.
use job_queue_service.Prelude.{
  ℕ, zero, suc, ◌+◌, ◌≡◌, refl, ap, Bool, true, Option, none, some, Bool-cases, inl, inr,
}
use job_queue_service.Job.{Job, Attempt}
use job_queue_service.Job.Sound.{IsSound}
use job_queue_service.Exec.{after_same, or_raise-same, Result, Exec, ok, value_error}
use job_queue_service.Config.{Settings}
use job_queue_service.Postgres.{Postgres}
use job_queue_service.Redis.{Redis, Uuids}
use job_queue_service.Queue.{
  Ready, QueueCandidate, Link, answered, lost, timed_out, peek, peek_many, remove,
}
use job_queue_service.Session.Laws.{Rows, OtherRows}
use job_queue_service.Service.Claim.Exclusive.{claimed}
use job_queue_service.Service.Mutate.{Stores, on_queue}
use job_queue_service.Statement.{lease_deadline}
use job_queue_service.Worker.Runner.{
  Round, run_rounds, run_once, after_peek, settle, max_candidates_per_cycle,
}

module _ (db : Postgres) (redis : Redis) (uuids : Uuids) where
  open db use {Table, row}

  peek-same : (link : Link) (q : Ready redis uuids) → (peek redis uuids link q).1 ≡ q
  unfolding peek
  peek-same answered q =
      after_same _ (peek_many redis uuids answered 1 q) q (or_raise-same _ value_error q)
        (λ cs t. refl)
  peek-same lost q = refl
  peek-same timed_out q = refl

  -- The attempt that a claim hands out.
  abbrev pub attempt_at : ℕ → ℕ → Job → Attempt
  attempt_at worker token j = record {
    job_id = j.id;
    worker_id = worker;
    execution_token = token;
    attempt_count = j.attempt_count + 1;
    max_attempts = j.max_attempts;
  }

  after_peek-stopped :
      (settings : Settings) (worker : ℕ) (r : Round db redis uuids)
      (rest : Exec (Stores db redis uuids) Bool) (c : Option QueueCandidate)
      (s : Stores db redis uuids)
      → r.stops_second ≡ true
      → (after_peek db redis uuids settings worker r rest c s).1 ≡ s
  after_peek-stopped settings worker r rest none s stop = refl
  after_peek-stopped settings worker r rest (some c) s stop = rw stop refl

  run_rounds-stopped :
      (settings : Settings) (worker count : ℕ) (rounds : ℕ → Round db redis uuids)
      (s : Stores db redis uuids)
      → (rounds 0).stops_second ≡ true
      → (run_rounds db redis uuids settings worker count rounds s).1 ≡ s
  unfolding run_rounds
  run_rounds-stopped settings worker zero rounds s stop = refl
  run_rounds-stopped settings worker (suc count) rounds s stop =
      let rest = run_rounds db redis uuids settings worker count (λ n. rounds (suc n)) in
      elim (Bool-cases (rounds 0).stops_first) [
        | inl now ↦ rw now refl
        | inr later ↦ rw later (
            after_same (after_peek db redis uuids settings worker (rounds 0) rest)
              (on_queue (peek redis uuids (rounds 0).peeked) s) s
              (ap (λ q. (s.0, q)) (peek-same (rounds 0).peeked s.1))
              (λ c t. after_peek-stopped settings worker (rounds 0) rest c t stop))
      ]

  -- A cycle whose second reading of the stop event in its first round finds it set leaves both
  -- stores as they were.
  pub run_once-stopped :
      (settings : Settings) (worker : ℕ) (rounds : ℕ → Round db redis uuids)
      (s : Stores db redis uuids)
      → (rounds 0).stops_second ≡ true
      → (run_once db redis uuids settings worker rounds s).1 ≡ s
  unfolding run_once
  run_once-stopped settings worker rounds s stop =
      run_rounds-stopped settings worker max_candidates_per_cycle rounds s stop

  -- What others do meanwhile leaves the rows sound.
  abbrev pub KeepsSound : (Stores db redis uuids → Stores db redis uuids) → Type 0
  KeepsSound others =
      (t : Stores db redis uuids) → Rows db IsSound t.0 → Rows db IsSound (others t).0

  -- The run of a handler leaves the rows sound.
  abbrev pub RunsSound : Round db redis uuids → Type 0
  RunsSound r = (j : Job) (a : Attempt) → KeepsSound (λ t. (r.running j a t).1)

  -- The run of the handler on the row, and the settlement by its ending, when it is answered.
  abbrev pub handled :
      Round db redis uuids
      → Attempt
      → Job
      → Stores db redis uuids
      → Result (Unit {0}) × Stores db redis uuids
  handled r a job t =
      let left = r.running job a t in settle db redis uuids a left.0 answered r.settled_at left.1

  module _ (settings : Settings) (worker : ℕ) (rounds : ℕ → Round db redis uuids)
      (s : Stores db redis uuids) (c : QueueCandidate) (j : Job) where
    abbrev first : Round db redis uuids
    first = rounds 0

    -- The row of the job once it is claimed.
    abbrev pub claimed_row : Job
    claimed_row =
        claimed worker first.token first.claimed_at
          (lease_deadline settings.job_lease_seconds (some settings.job_lease_seconds)
            first.claimed_at)
          j

    -- The cycle returned true; in between the row of the job was claimed, the entry was removed,
    -- and the handler was run on the claimed row and settled by its ending.
    abbrev pub Executes : Result Bool × Stores db redis uuids → Type 0
    Executes x =
        (t : Table) × (row t c.job_id ≡ some claimed_row)
        × OtherRows db c.job_id (first.before_claim s).0 t
        × (x ≡ (
          ok true,
          (handled first (attempt_at worker first.token j) claimed_row
              (on_queue (remove redis uuids answered c)
                (first.before_remove (t, (first.before_claim s).1))).1).1,
        ))
