-- ===== src/Schemas.antt =====
-- app/schemas/jobs.py: the job types, the payloads of each, and the validation of a request.
pub mod Payload
pub mod Request
use job_queue_service.Prelude.{
  ℕ, String, ◌≡◌, refl, Bool, true, false, Option, none, some, arith, if◌then◌else◌,
}
use text.Mathlib.Text.{◌==◌ as str_eq}
use text.Mathlib.TextEquality.{eq_iff}

-- `JobType`, and the text that each stands for.
pub data JobType : Type 0 where
  email webhook report batch : JobType

abbrev pub value : JobType → String
value email = "email"
value webhook = "webhook"
value report = "report"
value batch = "batch"

-- `JobType(text)`; `none` is its ValueError.
unfoldable pub job_type : String → Option JobType
job_type text =
    if str_eq text "email"
    then some email
    else if str_eq text "webhook"
    then some webhook
    else if str_eq text "report"
    then some report
    else if str_eq text "batch"
    then some batch
    else none

-- Every type is read back from its text.
pub job_type-value : (t : JobType) → job_type (value t) ≡ some t
unfolding job_type
job_type-value email = refl
job_type-value webhook = refl
job_type-value report = refl
job_type-value batch = refl

pub value-job_type : (text : String) (t : JobType) → job_type text ≡ some t → text ≡ value t
unfolding job_type
value-job_type text t e = ground (
  arith,
  e,
  eq_iff text "email",
  eq_iff text "webhook",
  eq_iff text "report",
  eq_iff text "batch",
)
