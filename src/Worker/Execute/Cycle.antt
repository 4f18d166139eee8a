-- ===== src/Worker/Execute/Cycle.antt =====
-- A cycle of a worker that finds a batch.
use job_queue_service.Prelude.{ℕ, suc, ◌≡◌, refl, sym, subst, Bool, true, false, some, arith}
use job_queue_service.Json.{Items, array, lookup, count}
use job_queue_service.Job.{Job, pending}
use job_queue_service.Job.Sound.{IsSound}
use job_queue_service.Exec.{Result, ok, after, after-ok, pure}
use job_queue_service.Config.{Settings}
use job_queue_service.Postgres.{Postgres}
use job_queue_service.Redis.{Redis, Uuids}
use job_queue_service.Queue.{QueueCandidate, answered, peek, remove}
use job_queue_service.Statement.{owned_by, lease_deadline}
use job_queue_service.Session.Laws.{Rows}
use job_queue_service.Jobs.{batch_result}
use job_queue_service.Service.Claim.{claim_job}
use job_queue_service.Service.Claim.Exclusive.{claimed, claim_job-Wrote, claim_job-IsSound}
use job_queue_service.Service.Mutate.{Stores, on_queue}
use job_queue_service.Service.Owner.Settle.{completed_with}
use job_queue_service.Worker.Runner.{
  Round, run_rounds, run_once, run_claimed, after_claim, execute_attempt,
}
use job_queue_service.Worker.Runner.Rounds.{attempt_at}
use job_queue_service.Worker.Execute.{Python, Run, run_job}
use job_queue_service.Worker.Execute.Going.{Going, IsPatient}
use job_queue_service.Worker.Execute.Batch.{Going-completes}

module _ (db : Postgres) (redis : Redis) (uuids : Uuids) (python : Python) where
  open db use {Table, row, row-id}

  claimed_owned :
      (worker token now deadline : ℕ) (j : Job)
      → owned_by (attempt_at db redis uuids worker token j) (claimed worker token now deadline j)
        ≡ true
  claimed_owned worker token now deadline j = ground arith

  -- The call returned true, and this is the row of the job.
  abbrev pub Executed : Job → Result Bool × Stores db redis uuids → Type 0
  Executed j (r, s) = (r ≡ ok true) × (row s.0 j.id ≡ some j)

  after-Executed :
      (j : Job) (x : Result (Unit {0}) × Stores db redis uuids)
      → x.0 ≡ ok tt
      → row x.1.0 j.id ≡ some j
      → Executed j (after (λ _. pure true) x)
  after-Executed j x e at = rw e (refl, at)

  module _ (run : Run (Stores db redis uuids)) (items : Items) (worker : ℕ)
      (r : Round db redis uuids) (j : Job) (runs : r.running ≡ run_job db redis uuids python run)
      (works : r.removed ≡ answered) (settles : r.settled ≡ answered) (batch : j.type ≡ "batch")
      (holds : lookup "items" j.payload ≡ some (array items)) (done : run.handler_done ≡ true)
      (removes : IsPatient db redis uuids
        (attempt_at db redis uuids worker r.token j)
        r.before_remove)
      (sleeps : (n : ℕ)
        → IsPatient db redis uuids
            (attempt_at db redis uuids worker r.token j)
            (run.context.sleep n)) where
    -- The row that the cycle leaves.
    abbrev final_row : ℕ → Job
    final_row deadline =
        completed_with (batch_result (count items) (count items)) r.settled_at
          (claimed worker r.token r.claimed_at deadline j)

    run_claimed-Executed :
        (deadline : ℕ) (c : QueueCandidate) (t : Stores db redis uuids)
        → Rows db IsSound t.0
        → row t.0 j.id ≡ some (claimed worker r.token r.claimed_at deadline j)
        → Executed
            (final_row deadline)
            (run_claimed db redis uuids r c (claimed worker r.token r.claimed_at deadline j) t)
    unfolding remove
    run_claimed-Executed deadline c t sound at =
        let a = attempt_at db redis uuids worker r.token j in
        let job = claimed worker r.token r.claimed_at deadline j in
        let t' = (on_queue (remove redis uuids answered c) (r.before_remove t)).1 in
        let owns = claimed_owned worker r.token r.claimed_at deadline j in
        let (lease, at') = removes.keeps_row t job sound at owns in
        let going : Going db redis uuids python a job owns t' = record {
          sound = removes.keeps_sound t sound;
          progress = job.progress;
          lease = lease;
          at = at';
        } in
        let (ends, ended) =
          Going-completes db redis uuids python a job owns run r.settled_at items t' going batch
            holds done sleeps in
        rw (works, runs, settles)
          (after-Executed (final_row deadline)
            (execute_attempt db redis uuids a (run_job db redis uuids python run job a) answered
              r.settled_at t')
            ends ended)

  module _ (settings : Settings) (worker : ℕ) (rounds : ℕ → Round db redis uuids)
      (s : Stores db redis uuids) (c : QueueCandidate) (j : Job) where
    abbrev first : Round db redis uuids
    first = rounds 0

    abbrev pub deadline : ℕ
    deadline =
        lease_deadline settings.job_lease_seconds (some settings.job_lease_seconds) first.claimed_at

    -- A cycle that is not stopped, and that finds in the queue a batch that is pending when it
    -- claims it, executes it and leaves its row COMPLETED at progress 100, released, with all its
    -- items counted as processed, provided that the rows are sound at the claim, that the queue
    -- answers the removal and the database the settlement, that the handler is done before the
    -- heartbeat finds the job lost, and that what others do before the removal and during the
    -- sleeps leaves the rows sound and this row as it is, but for its lease.
    pub run_once-completes :
        (run : Run (Stores db redis uuids)) (items : Items)
        → first.stops_first ≡ false
        → first.stops_second ≡ false
        → peek redis uuids first.peeked s.1 ≡ (ok (some c), s.1)
        → Rows db IsSound (first.before_claim s).0
        → row (first.before_claim s).0 c.job_id ≡ some j
        → j.status ≡ pending
        → j.type ≡ "batch"
        → lookup "items" j.payload ≡ some (array items)
        → first.running ≡ run_job db redis uuids python run
        → first.removed ≡ answered
        → first.settled ≡ answered
        → run.handler_done ≡ true
        → IsPatient db redis uuids
            (attempt_at db redis uuids worker first.token j)
            first.before_remove
        → ((n : ℕ)
            → IsPatient db redis uuids
                (attempt_at db redis uuids worker first.token j)
                (run.context.sleep n))
        → let x = run_once db redis uuids settings worker rounds s in
          (x.0 ≡ ok true)
          × (row x.1.0 j.id
              ≡ some (
                  completed_with
                    (batch_result (count items) (count items))
                    first.settled_at
                    (claimed worker first.token first.claimed_at deadline j)))
    unfolding run_once run_rounds
    run_once-completes run items goes on_ sees sound found waits batch holds runs works settles done
          removes sleeps =
        let r = first in
        let t = r.before_claim s in
        let lease = some settings.job_lease_seconds in
        let x = claim_job db settings c.job_id worker r.token r.claimed_at lease t.0 in
        let (won, at, _) =
          claim_job-Wrote db settings c.job_id worker r.token r.claimed_at lease t.0 sound j found
            waits in
        let here : row x.1 j.id ≡ some (claimed worker r.token r.claimed_at deadline j) =
          subst (λ i. row x.1 i ≡ some (claimed worker r.token r.claimed_at deadline j))
            (sym (row-id t.0 c.job_id j found)) at in
        let rest = run_rounds db redis uuids settings worker 9 (λ n. rounds (suc n)) in
        let final =
          completed_with (batch_result (count items) (count items)) r.settled_at
            (claimed worker r.token r.claimed_at deadline j) in
        rw (goes, sees, on_)
          (subst (Executed final)
            (sym (after-ok (after_claim db redis uuids r c rest) (x.0, (x.1, t.1)) _ won))
            (run_claimed-Executed run items worker r j runs works settles batch holds done removes
              sleeps deadline c (x.1, t.1)
              (claim_job-IsSound db settings c.job_id worker r.token r.claimed_at lease t.0 sound)
              here))
