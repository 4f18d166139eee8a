-- ===== src/Examples/Routes.antt =====
-- The theorems on the routes at concrete stores.
use job_queue_service.Prelude.{ℕ, ◌≡◌, refl, some, arith, ◌&&◌}
use job_queue_service.Job.{Job}
use job_queue_service.Exec.{ok}
use job_queue_service.Postgres.{find_id}
use job_queue_service.Postgres.Memory.{memory}
use job_queue_service.Postgres.Reports.Listed.{listed}
use job_queue_service.Redis.Memory.{store, short_ids}
use job_queue_service.Queue.{answered, lost}
use job_queue_service.Service.Create.{build_job, Clock}
use job_queue_service.Service.Mutate.{Stores}
use job_queue_service.Health.{HealthResponse, health}
use job_queue_service.Health.Report.{IsReport, is_answered, health-IsReport}
use job_queue_service.Api.{
  JobResponse, replied, job_response, create_job_route, cancel_job_route, retry_job_route,
}
use job_queue_service.Api.Mutations.{
  Answered, cancel_reply, cancels_to, retry_reply, retries_to, cancel_job_route-Answered,
  retry_job_route-Answered,
}
use job_queue_service.Api.Submissions.{create_job_route-create_job_route}
use job_queue_service.Examples.{rows, rows-IsSound}
use job_queue_service.Examples.Histories.{stores, request, clock}

health-IsReport_example :
    (code : ℕ) × (r : HealthResponse) × (health memory listed store short_ids answered answered lost
        stores
      ≡ (ok (code, r), stores))
    × IsReport memory listed store short_ids
        (is_answered answered && is_answered answered)
        (is_answered lost)
        stores
        code
        r
health-IsReport_example =
    health-IsReport memory listed store short_ids answered answered lost stores

-- Job 3 is cancelled, and job 2, which runs, is not retried.
cancel_job_route-Answered_example :
    Answered memory store short_ids 3
      (cancel_reply (find_id 3 rows))
      (cancels_to (find_id 3 rows))
      stores
      (cancel_job_route memory store short_ids (λ t. t) answered (λ q. q) lost 3 stores)
cancel_job_route-Answered_example =
    cancel_job_route-Answered memory store short_ids 3 stores rows-IsSound answered (λ q. q) lost

retry_job_route-Answered_example :
    Answered memory store short_ids 2
      (retry_reply (find_id 2 rows))
      (retries_to (find_id 2 rows))
      stores
      (retry_job_route memory store short_ids (λ t. t) answered 2 stores)
retry_job_route-Answered_example =
    retry_job_route-Answered memory store short_ids 2 stores rows-IsSound answered

abbrev body : JobResponse
body = job_response (build_job 5 13 12 request (some 77))

abbrev after_submission : Stores memory store short_ids
after_submission =
    (create_job_route memory store short_ids clock 5 request (some 77) (λ t. t) (λ t. t) answered
      stores).1

answers_created :
    create_job_route memory store short_ids clock 5 request
      (some 77)
      (λ t. t)
      (λ t. t)
      answered
      stores
    ≡ (ok (replied 201 body), after_submission)
unfolding create_job_route job_queue_service.Service.Mutate.submit_job
    job_queue_service.Service.Create.create_job job_queue_service.Postgres.Memory.Select.hits
    job_queue_service.Postgres.Memory.Select.visible job_queue_service.Session.execute
    job_queue_service.Postgres.Memory.rejected job_queue_service.Statement.releasing_key
    job_queue_service.Postgres.Memory.refusal job_queue_service.Postgres.Memory.change_where
    build_job
answers_created = refl

abbrev later_clock : Clock
later_clock = record { found = 20; released = 21; built = 22; created = 23; reloaded = 24 }

create_job_route-create_job_route_example :
    create_job_route memory store short_ids later_clock 6 request
      (some 77)
      (λ t. t)
      (λ t. t)
      lost
      after_submission
    ≡ (ok (replied 200 body), after_submission)
create_job_route-create_job_route_example =
    create_job_route-create_job_route memory store short_ids clock later_clock 5 6 77 request
      request (λ t. t) (λ t. t) (λ t. t) (λ t. t) answered lost stores after_submission body refl
      answers_created (omega arith)
