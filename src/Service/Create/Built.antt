-- ===== src/Service/Create/Built.antt =====
-- The row that a submission inserts.
use job_queue_service.Prelude.{ℕ, ◌≡◌, refl, some, Option, arith, false}
use job_queue_service.Job.{Attempt}
use job_queue_service.Job.Sound.{IsSound}
use job_queue_service.Statement.{owned_by}
use job_queue_service.Service.Create.{JobCreateRequest, build_job}

-- It is sound.
pub build_job-IsSound :
    (id created now : ℕ) (request : JobCreateRequest) (key : Option ℕ)
    → IsSound (build_job id created now request key)
unfolding build_job
build_job-IsSound id created now request key = ground arith

pub build_job-stale :
    (id created now : ℕ) (request : JobCreateRequest) (key : Option ℕ) (a : Attempt)
    → owned_by a (build_job id created now request key) ≡ false
unfolding build_job
build_job-stale id created now request key a = ground arith

pub build_job-id :
    (id created now key : ℕ) (request : JobCreateRequest)
    → (build_job id created now request (some key)).id ≡ id
unfolding build_job
build_job-id id created now key request = refl
