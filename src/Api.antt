-- ===== src/Api.antt =====
-- app/api/jobs.py: the routes, each as the answer that it gives to a request that FastAPI has
-- parsed, and the response schemas of app/schemas/jobs.py.
pub mod Mutations
pub mod Submissions
pub mod Listings
use Prim.Native.String.{◌++◌ as joined}
use job_queue_service.Prelude.{
  ℕ, String, Bool, true, false, ◌&&◌, Option, none, some, List, map, leb, if◌then◌else◌,
}
use job_queue_service.Prelude.Int.{ℤ, pos, negsuc}
use job_queue_service.Json.{Fields}
use job_queue_service.Job.{Job, JobStatus, status_value}
use job_queue_service.Schemas.{JobType}
use job_queue_service.Exec.{
  Result, Exec, ok, err, Error, job_not_found, job_conflict, Mutation, cancel, retry, pure, ◌>>=◌,
}
use job_queue_service.Postgres.{Postgres}
use job_queue_service.Postgres.Reports.{Reports}
use job_queue_service.Redis.{Redis, Uuids}
use job_queue_service.Queue.{Ready, Link}
use job_queue_service.Session.{get}
use job_queue_service.Service.Create.{Clock, JobCreateRequest}
use job_queue_service.Service.Mutate.{Stores, on_table, submit_job, cancel_job, retry_job}
use job_queue_service.Service.Query.{list_jobs}

-- `JobResponse`; `job_response` is its `model_validate` on a row.
pub record JobResponse : Type 0 where
  pub id : ℕ
  pub type : String
  pub payload : Fields
  pub status : JobStatus
  pub priority : ℤ
  pub attempt_count : ℕ
  pub max_attempts : ℕ
  pub progress : ℕ
  pub result : Option Fields
  pub error : Option String
  pub scheduled_at : Option ℕ
  pub created_at : ℕ
  pub started_at : Option ℕ
  pub completed_at : Option ℕ

unfoldable pub job_response : Job → JobResponse
job_response j = record {
  id = j.id;
  type = j.type;
  payload = j.payload;
  status = j.status;
  priority = j.priority;
  attempt_count = j.attempt_count;
  max_attempts = j.max_attempts;
  progress = j.progress;
  result = j.result;
  error = j.error;
  scheduled_at = j.scheduled_at;
  created_at = j.created_at;
  started_at = j.started_at;
  completed_at = j.completed_at;
}

pub record JobListResponse : Type 0 where
  pub items : List JobResponse
  pub total : ℕ
  pub limit : ℕ
  pub offset : ℕ

-- What a route answers: a status code with a body, an `HTTPException`, or the refusal of a
-- parameter out of its bounds, with code 422. An error that escapes from a route is an `err`.
pub data Answer (A : Type 0) : Type 0 where
  replied : ℕ → A → Answer A
  http_exception : ℕ → String → Answer A
  unprocessable : Answer A

abbrev pub default_page_size : ℕ
default_page_size = 50

abbrev pub max_page_size : ℕ
max_page_size = 100

-- The bounds on the query parameters `limit` and `offset`.
unfoldable pub page_limit : Option ℤ → Option ℕ
page_limit none = some default_page_size
page_limit (some (pos n)) = if leb 1 n && leb n max_page_size then some n else none
page_limit (some (negsuc n)) = none

unfoldable pub page_offset : Option ℤ → Option ℕ
page_offset none = some 0
page_offset (some (pos n)) = some n
page_offset (some (negsuc n)) = none

-- The texts of the exceptions.
abbrev pub action_text : Mutation → String
action_text cancel = "cancel"
action_text retry = "retry"

abbrev pub not_found : {A : Type 0} → Answer A
not_found = http_exception 404 "job not found"

unfoldable pub conflict : {A : Type 0} → Mutation → JobStatus → Answer A
conflict action status = http_exception 409 (
    joined (joined "cannot " (action_text action)) (joined " a job that is " (status_value status)))

-- The `except` clause of a mutation with `_translate_mutation`: `none` is an error that it does not
-- catch.
abbrev pub translate_mutation : {A : Type 0} → Error → Option (Answer A)
translate_mutation (job_not_found i) = some not_found
translate_mutation (job_conflict i action status) = some (conflict action status)
translate_mutation _ = none

abbrev answer_or_raise : {S A : Type 0} → Error → S → Option (Answer A) → Result (Answer A) × S
answer_or_raise e s none = (err e, s)
answer_or_raise e s (some answer) = (ok answer, s)

abbrev pub translated : {S : Type 0} → Result Job × S → Result (Answer JobResponse) × S
translated (ok job, s) = (ok (replied 200 (job_response job)), s)
translated (err e, s) = answer_or_raise e s (translate_mutation e)

-- `create_job`: 201, or 200 for a job that was there.
abbrev pub create_answer : Job × Bool → Answer JobResponse
create_answer (job, true) = replied 201 (job_response job)
create_answer (job, false) = replied 200 (job_response job)

abbrev pub get_answer : Option Job → Answer JobResponse
get_answer none = not_found
get_answer (some job) = replied 200 (job_response job)

module _ (db : Postgres) (redis : Redis) (uuids : Uuids) where
  open db use {Table}

  unfoldable pub create_job_route :
      Clock
      → ℕ
      → JobCreateRequest
      → Option ℕ
      → (Table → Table)
      → (Table → Table)
      → Link
      → Exec (Stores db redis uuids) (Answer JobResponse)
  create_job_route clock id request key first second link = do
    outcome ← submit_job db redis uuids clock id request key first second link
    pure (create_answer outcome)

  unfoldable pub get_job_route : ℕ → Exec (Stores db redis uuids) (Answer JobResponse)
  get_job_route job_id = do job ← on_table (get db job_id); pure (get_answer job)

  unfoldable pub cancel_job_route :
      (Table → Table)
      → Link
      → (Ready redis uuids → Ready redis uuids)
      → Link
      → ℕ
      → Exec (Stores db redis uuids) (Answer JobResponse)
  cancel_job_route others first between second job_id s =
      translated (cancel_job db redis uuids others first between second job_id s)

  unfoldable pub retry_job_route :
      (Table → Table) → Link → ℕ → Exec (Stores db redis uuids) (Answer JobResponse)
  retry_job_route others link job_id s = translated (retry_job db redis uuids others link job_id s)

module _ (db : Postgres) (reports : Reports db) where
  open db use {Table}

  abbrev pub list_response : ℕ → ℕ → List Job × ℕ → JobListResponse
  list_response limit offset (jobs, total) = record {
    items = map job_response jobs;
    total = total;
    limit = limit;
    offset = offset;
  }

  abbrev pub list_answer :
      Option JobStatus
      → Option JobType
      → (Table → Table)
      → Table
      → Option ℕ
      → Option ℕ
      → Answer JobListResponse
  list_answer status type others t (some limit) (some offset) =
      replied 200
        (list_response limit offset (list_jobs db reports status type limit offset others t))
  list_answer status type others t _ _ = unprocessable

  unfoldable pub list_jobs_route :
      Option JobStatus
      → Option JobType
      → Option ℤ
      → Option ℤ
      → (Table → Table)
      → Table
      → Answer JobListResponse
  unfolding page_limit page_offset
  list_jobs_route status type limit offset others t =
      list_answer status type others t (page_limit limit) (page_offset offset)
