-- ===== src/Examples/Histories.antt =====
-- The theorems on sequences of calls at three calls.
use job_queue_service.Prelude.{◌≡◌, ◌≢◌, refl, none, some, arith, List, [], ◌∷◌}
use job_queue_service.Prelude.Int.{pos}
use job_queue_service.Json.{end}
use job_queue_service.Job.{Job, Attempt}
use job_queue_service.Job.Sound.{IsSound}
use job_queue_service.Job.Lifecycle.{◌⟶*◌}
use job_queue_service.Config.{default_settings}
use job_queue_service.Postgres.{find_id}
use job_queue_service.Postgres.Memory.{memory}
use job_queue_service.Redis.Memory.{store, short_ids}
use job_queue_service.Queue.{answered, lost}
use job_queue_service.Session.Laws.{Rows}
use job_queue_service.Service.Create.{JobCreateRequest, Clock}
use job_queue_service.Service.Mutate.{Stores}
use job_queue_service.Service.Owner.{extend_lease, update_progress, complete_job, fail_attempt}
use job_queue_service.Service.Owner.Fence.{Lost, IsStale}
use job_queue_service.Service.Owner.Verdict.{IsCounted}
use job_queue_service.History.Run.{
  LaterCall, claims, cancels, creates, after_calls, run_calls-IsSound, run_calls-⟶*, run_calls-Lost,
}
use job_queue_service.Examples.{rows, rows-IsSound, fresh, attempt}
use job_queue_service.Examples.Queues.{one_job}

abbrev pub stores : Stores memory store short_ids
stores = (rows, one_job)

-- The first attempt of job 2, which another worker's claim has replaced.
abbrev pub lost_attempt : Attempt
lost_attempt = record (attempt 2) { worker_id = 6; execution_token = 39; attempt_count = 1 }

pub lost_attempt-IsCounted : IsCounted lost_attempt
lost_attempt-IsCounted = record { limited = refl; counted = omega arith }

pub lost_attempt-IsStale : IsStale memory lost_attempt rows
lost_attempt-IsStale j e = ground arith

abbrev pub request : JobCreateRequest
request = record { type = "report"; payload = end; priority = pos 3; scheduled_at = none }

abbrev pub clock : Clock
clock = record { found = 10; released = 11; built = 12; created = 13; reloaded = 14 }

fresh_token : 41 ≢ lost_attempt.execution_token
fresh_token = ground arith

-- A claim of job 1, the cancellation of job 3, and a submission.
abbrev calls : List (LaterCall memory store short_ids default_settings lost_attempt)
calls =
    creates clock 5 request none (λ t. t) (λ t. t) (λ t s h. h) (λ t s h. h)
    ∷ cancels (λ t. t) (λ t s h. h) answered (λ q. q) lost 3
    ∷ claims 1 8 41 100 none fresh_token
    ∷ []

abbrev final_rows : List Job
final_rows = after_calls memory store short_ids default_settings lost_attempt calls stores

run_calls-Lost_example :
    Lost memory lost_attempt final_rows
      (extend_lease memory default_settings lost_attempt 130 none final_rows)
    × Lost memory lost_attempt final_rows (update_progress memory lost_attempt (pos 50) final_rows)
    × Lost memory lost_attempt final_rows (complete_job memory lost_attempt end 130 final_rows)
    × Lost memory lost_attempt final_rows (fail_attempt memory lost_attempt "late" 130 final_rows)
run_calls-Lost_example =
    run_calls-Lost memory store short_ids default_settings lost_attempt calls stores rows-IsSound
      lost_attempt-IsCounted lost_attempt-IsStale 130 none (pos 50) end "late"

run_calls-IsSound_example : Rows memory IsSound final_rows
run_calls-IsSound_example =
    run_calls-IsSound memory store short_ids default_settings
      (λ token. token ≢ lost_attempt.execution_token) calls stores rows-IsSound

run_calls-⟶*_example : (j : Job) × (find_id 1 final_rows ≡ some j) × ((fresh 1).status ⟶* j.status)
run_calls-⟶*_example =
    run_calls-⟶* memory store short_ids default_settings
      (λ token. token ≢ lost_attempt.execution_token) calls stores rows-IsSound 1 (fresh 1) refl
