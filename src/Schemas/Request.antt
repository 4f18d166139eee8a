-- ===== src/Schemas/Request.antt =====
-- `JobCreateRequest` of app/schemas/jobs.py: how a submission is validated.
use job_queue_service.Prelude.{ℕ, String, Option, none, some, leb, if◌then◌else◌}
use job_queue_service.Prelude.Int.{ℤ, pos, negsuc}
use job_queue_service.Json.{Fields}
use job_queue_service.Schemas.{JobType, job_type, value}
use job_queue_service.Schemas.Payload.{FieldTypes, Payload, model_validate, model_dump}
use job_queue_service.Service.Create.{JobCreateRequest}

-- The body of a request, with the types of its fields.
pub record Submission : Type 0 where
  pub type : String
  pub payload : Fields
  pub priority : Option ℤ
  pub scheduled_at : Option ℕ

abbrev pub max_priority : ℕ
max_priority = 100

-- The priority, 0 if there is none; `none` if it is out of its bounds.
unfoldable pub bounded_priority : Option ℤ → Option ℤ
bounded_priority none = some (pos 0)
bounded_priority (some (pos n)) = if leb n max_priority then some (pos n) else none
bounded_priority (some (negsuc n)) = none

-- `validate_payload_for_type` puts the canonical payload in place of the one that was sent.
abbrev pub with_payload : Submission → JobType → Option ℤ → Option Payload → Option JobCreateRequest
with_payload s type (some priority) (some payload) = some (record {
  type = value type;
  payload = model_dump payload;
  priority = priority;
  scheduled_at = s.scheduled_at;
})
with_payload s type _ _ = none

abbrev pub with_type : FieldTypes → Submission → Option JobType → Option JobCreateRequest
with_type types s none = none
with_type types s (some type) =
    with_payload s type (bounded_priority s.priority) (model_validate types type s.payload)

-- `none` is the ValidationError.
unfoldable pub validate_request : FieldTypes → Submission → Option JobCreateRequest
unfolding bounded_priority
validate_request types s = with_type types s (job_type s.type)
