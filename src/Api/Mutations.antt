-- ===== src/Api/Mutations.antt =====
-- How the routes that cancel and retry a job answer, by the row that is there.
use job_queue_service.Prelude.{
  ℕ, ◌≡◌, refl, ◌∙◌, Option, none, some, if◌then◌else◌, Option-cases, Bool-cases, inl, inr, arith,
}
use job_queue_service.Job.{Job, is_cancelled, is_failed}
use job_queue_service.Job.Sound.{IsSound}
use job_queue_service.Exec.{Result, ok, cancel, retry}
use job_queue_service.Postgres.{Postgres}
use job_queue_service.Redis.{Redis, Uuids}
use job_queue_service.Queue.{Ready, Link}
use job_queue_service.Statement.{is_cancellable}
use job_queue_service.Session.Laws.{Rows, OtherRows}
use job_queue_service.Service.Mutate.{Stores}
use job_queue_service.Service.Mutate.Outcome.{
  cancelled_row, restarted_row, cancel_job-Answers, retry_job-Answers,
}
use job_queue_service.Service.Mutate.Refused.{cancel_job-Refuses, retry_job-Refuses}
use job_queue_service.Api.{
  Answer, JobResponse, replied, not_found, conflict, job_response, cancel_job_route,
  retry_job_route,
}

-- The row after a cancellation, and after a retry.
abbrev pub cancels_to : Option Job → Option Job
cancels_to none = none
cancels_to (some j) = some (if is_cancellable j.status then cancelled_row j else j)

abbrev pub retries_to : Option Job → Option Job
retries_to none = none
retries_to (some j) = some (if is_failed j.status then restarted_row j else j)

abbrev pub cancel_reply : Option Job → Answer JobResponse
cancel_reply none = not_found
cancel_reply (some j) =
    if is_cancellable j.status
    then replied 200 (job_response (cancelled_row j))
    else if is_cancelled j.status
    then replied 200 (job_response j)
    else conflict cancel j.status

abbrev pub retry_reply : Option Job → Answer JobResponse
retry_reply none = not_found
retry_reply (some j) =
    if is_failed j.status
    then replied 200 (job_response (restarted_row j))
    else conflict retry j.status

module _ (db : Postgres) (redis : Redis) (uuids : Uuids) where
  open db use {Table, row}

  -- The route answered, job `i` has this row now, and no other row changed.
  abbrev pub Answered :
      ℕ
      → Answer JobResponse
      → Option Job
      → Stores db redis uuids
      → Result (Answer JobResponse) × Stores db redis uuids
      → Type 0
  Answered i answer o s (r, s') = (r ≡ ok answer) × (row s'.0 i ≡ o) × OtherRows db i s.0 s'.0

  module _ (i : ℕ) (s : Stores db redis uuids) (sound : Rows db IsSound s.0) where
    -- On a table of sound rows, and with nothing else committed meanwhile, the route that cancels a
    -- job answers 404 if there is none, 200 with the row if it was pending or scheduled, which is
    -- then released and CANCELLED, 200 with the unchanged row if it was cancelled before, and 409
    -- otherwise, with the row unchanged; no other row changes, whether or not the queue can be
    -- reached.
    pub cancel_job_route-Answered :
        (first : Link) (between : Ready redis uuids → Ready redis uuids) (second : Link)
        → Answered i
            (cancel_reply (row s.0 i))
            (cancels_to (row s.0 i))
            s
            (cancel_job_route db redis uuids (λ t. t) first between second i s)
    unfolding cancel_job_route
    cancel_job_route-Answered first between second = elim (Option-cases (row s.0 i)) [
      | inl gone ↦
          let (ends, same, queue) =
            cancel_job-Refuses db redis uuids i s sound first between second (λ j e. absurd (cc)) in
          rw (ends, gone) (refl, same i ∙ gone, λ k ne. same k)
      | inr (j, found) ↦ elim (Bool-cases (is_cancellable j.status)) [
        | inl can ↦
            let (ends, at, rest) =
              cancel_job-Answers db redis uuids i s sound j found (λ t. t) first between second
                can in
            rw (ends, found, can) (refl, at, rest)
        | inr cannot ↦
            let (ends, same, queue) =
              cancel_job-Refuses db redis uuids i s sound first between second
                (λ k e. ground (arith, e, found, cannot)) in
            elim (Bool-cases (is_cancelled j.status)) [
              | inl again ↦ rw (ends, found, cannot, again) (refl, same i ∙ found, λ k ne. same k)
              | inr not_again ↦
                  rw (ends, found, cannot, not_again) (refl, same i ∙ found, λ k ne. same k)
            ]
      ]
    ]

    -- On a table of sound rows, and with nothing else committed meanwhile, the route that retries a
    -- job answers 404 if there is none, 200 with the row if it had failed, which is then PENDING
    -- with no attempt used and without the outcome of the earlier run, and 409 otherwise, with the
    -- row unchanged; no other row changes, whether or not the queue can be reached.
    pub retry_job_route-Answered :
        (link : Link)
        → Answered i
            (retry_reply (row s.0 i))
            (retries_to (row s.0 i))
            s
            (retry_job_route db redis uuids (λ t. t) link i s)
    unfolding retry_job_route
    retry_job_route-Answered link = elim (Option-cases (row s.0 i)) [
      | inl gone ↦
          let (ends, same, queue) =
            retry_job-Refuses db redis uuids i s sound link (λ j e. absurd (cc)) in
          rw (ends, gone) (refl, same i ∙ gone, λ k ne. same k)
      | inr (j, found) ↦ elim (Bool-cases (is_failed j.status)) [
        | inl can ↦
            let (ends, at, rest) =
              retry_job-Answers db redis uuids i s sound j found (λ t. t) link
                (ground (arith, can)) in
            rw (ends, found, can) (refl, at, rest)
        | inr cannot ↦
            let (ends, same, queue) =
              retry_job-Refuses db redis uuids i s sound link
                (λ k e. ground (arith, e, found, cannot)) in
            rw (ends, found, cannot) (refl, same i ∙ found, λ k ne. same k)
      ]
    ]
