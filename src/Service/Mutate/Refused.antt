-- ===== src/Service/Mutate/Refused.antt =====
-- How a cancellation and a manual retry are refused.
use job_queue_service.Prelude.{
  ℕ, ◌≡◌, refl, false, Option, none, some, arith, Option-cases, Bool-cases, inl, inr, if◌then◌else◌,
}
use job_queue_service.Job.{Job, is_cancelled, is_failed}
use job_queue_service.Job.Sound.{IsSound}
use job_queue_service.Exec.{Result, ok, err, job_not_found, job_conflict, cancel, retry}
use job_queue_service.Postgres.{Postgres}
use job_queue_service.Redis.{Redis, Uuids}
use job_queue_service.Queue.{Ready, Link}
use job_queue_service.Statement.{cancelling, restarting, is_cancellable}
use job_queue_service.Statement.Safe.{cancelling-IsSafe, restarting-IsSafe}
use job_queue_service.Session.Laws.{Rows, SameRows, execute_first-Refused}
use job_queue_service.Service.Mutate.{Stores, cancel_job, retry_job}
use job_queue_service.Service.Mutate.Outcome.{cancelling-IsKeyed, restarting-IsKeyed}

-- The answers to a cancellation and to a retry that change nothing, by the row that is there.
abbrev pub cancel_answer : ℕ → Option Job → Result Job
cancel_answer i none = err (job_not_found i)
cancel_answer i (some j) =
    if is_cancelled j.status then ok j else err (job_conflict i cancel j.status)

abbrev pub retry_answer : ℕ → Option Job → Result Job
retry_answer i none = err (job_not_found i)
retry_answer i (some j) = err (job_conflict i retry j.status)

module _ (db : Postgres) (redis : Redis) (uuids : Uuids) where
  open db use {Table, row}

  -- The call ended with `r`, no row changed, and the queue is as it was.
  abbrev pub Refuses :
      Result Job → Stores db redis uuids → Result Job × Stores db redis uuids → Type 0
  Refuses r s (r', s') = (r' ≡ r) × SameRows db s.0 s'.0 × (s'.1 ≡ s.1)

  module _ (i : ℕ) (s : Stores db redis uuids) (sound : Rows db IsSound s.0) where
    -- On a table of sound rows, and with nothing else committed meanwhile, the cancellation of a
    -- job that is neither pending nor scheduled changes neither store: it returns a job that is
    -- already cancelled, and raises `JobNotFoundError` on a missing one and `JobConflictError` with
    -- the status on any other.
    pub cancel_job-Refuses :
        (first : Link) (between : Ready redis uuids → Ready redis uuids) (second : Link)
        → ((j : Job) → row s.0 i ≡ some j → is_cancellable j.status ≡ false)
        → Refuses
            (cancel_answer i (row s.0 i))
            s
            (cancel_job db redis uuids (λ t. t) first between second i s)
    unfolding cancel_job cancelling
    cancel_job-Refuses first between second other =
        let (missed, same) =
          execute_first-Refused db (cancelling i) (cancelling-IsSafe i) s.0 sound i
            (cancelling-IsKeyed i) (λ j found. ground (arith, other j found)) in
        elim (Option-cases (row s.0 i)) [
          | inl gone ↦ rw (missed, same i, gone) (refl, same, refl)
          | inr (j, found) ↦ elim (Bool-cases (is_cancelled j.status)) [
            | inl again ↦ rw (missed, same i, found, again) (refl, same, refl)
            | inr not_again ↦ rw (missed, same i, found, not_again) (refl, same, refl)
          ]
        ]

    -- On a table of sound rows, and with nothing else committed meanwhile, the retry of a job that
    -- has not failed changes neither store: it raises `JobNotFoundError` on a missing one and
    -- `JobConflictError` with the status on any other.
    pub retry_job-Refuses :
        (link : Link)
        → ((j : Job) → row s.0 i ≡ some j → is_failed j.status ≡ false)
        → Refuses (retry_answer i (row s.0 i)) s (retry_job db redis uuids (λ t. t) link i s)
    unfolding retry_job restarting
    retry_job-Refuses link other =
        let (missed, same) =
          execute_first-Refused db (restarting i) (restarting-IsSafe i) s.0 sound i
            (restarting-IsKeyed i) (λ j found. ground (arith, other j found)) in
        elim (Option-cases (row s.0 i)) [
          | inl gone ↦ rw (missed, same i, gone) (refl, same, refl)
          | inr (j, found) ↦ rw (missed, same i, found) (refl, same, refl)
        ]
