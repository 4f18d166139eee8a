-- ===== src/Schemas/Payload.antt =====
-- The payload models of app/schemas/jobs.py. The field types of pydantic that normalise a text,
-- `EmailStr` and `HttpUrl`, are parameters.
use job_queue_service.Prelude.{
  String, Bool, true, false, ◌&&◌, ◌||◌, Option, none, some, List, [], ◌∷◌, if◌then◌else◌, leb,
}
use text.Mathlib.Text.{◌==◌ as str_eq}
use Prim.Native.String.{count as characters}
use job_queue_service.Json.{Json, null, string, array, Items, Fields, end, field, lookup, count}
use job_queue_service.Schemas.{JobType, email, webhook, report, batch}

-- `none` is the ValidationError of a text; otherwise the text that is stored.
pub record FieldTypes : Type 0 where
  pub email_text : String → Option String
  pub url_text : String → Option String

pub data ReportFormat : Type 0 where
  pdf csv : ReportFormat

abbrev pub format_value : ReportFormat → String
format_value pdf = "pdf"
format_value csv = "csv"

abbrev pub report_format : String → Option ReportFormat
report_format text =
    if str_eq text "pdf" then some pdf else if str_eq text "csv" then some csv else none

-- `EmailPayload`, `WebhookPayload`, `ReportPayload` and `BatchPayload`.
pub data Payload : Type 0 where
  email_payload : (to subject : String) → (body : Option String) → Payload
  webhook_payload : (url : String) → (event : Option String) → Payload
  report_payload : (report_type : String) → ReportFormat → Payload
  batch_payload : Items → Payload

infixl 5 ◌>>=◌
abbrev ◌>>=◌ : {A B : Type 0} → Option A → (A → Option B) → Option B
none >>= f = none
some a >>= f = f a

abbrev only_if : {A : Type 0} → Bool → A → Option A
only_if true a = some a
only_if false a = none

-- A required text, an optional one, and a required list.
abbrev as_text : Json → Option String
as_text (string s) = some s
as_text _ = none

abbrev as_optional : Option Json → Option (Option String)
as_optional none = some none
as_optional (some null) = some none
as_optional (some (string s)) = some (some s)
as_optional (some _) = none

abbrev as_items : Json → Option Items
as_items (array xs) = some xs
as_items _ = none

-- `min_length=1, max_length=255`.
abbrev pub bounded : String → Bool
bounded s = leb 1 (characters s) && leb (characters s) 255

abbrev pub bounded_optional : Option String → Bool
bounded_optional none = true
bounded_optional (some s) = bounded s

-- `extra="forbid"`: every member has one of the names.
abbrev names : String → List String → Bool
names key [] = false
names key (n ∷ ns) = str_eq key n || names key ns

unfoldable pub only_names : List String → Fields → Bool
only_names ns end = true
only_names ns (field key value fields) = names key ns && only_names ns fields

module _ (types : FieldTypes) where
  open types use {email_text, url_text}

  unfoldable pub email_model : Fields → Option Payload
  unfolding only_names
  email_model fields = do
    given ← lookup "to" fields >>= as_text
    to ← email_text given
    subject ← lookup "subject" fields >>= as_text
    body ← as_optional (lookup "body" fields)
    only_if (bounded subject && only_names ("to" ∷ "subject" ∷ "body" ∷ []) fields)
        (email_payload to subject body)

  unfoldable pub webhook_model : Fields → Option Payload
  unfolding only_names
  webhook_model fields = do
    given ← lookup "url" fields >>= as_text
    url ← url_text given
    event ← as_optional (lookup "event" fields)
    only_if (bounded_optional event && only_names ("url" ∷ "event" ∷ []) fields)
        (webhook_payload url event)

  unfoldable pub report_model : Fields → Option Payload
  unfolding only_names
  report_model fields = do
    report_type ← lookup "report_type" fields >>= as_text
    given ← lookup "format" fields >>= as_text
    format ← report_format given
    only_if (bounded report_type && only_names ("report_type" ∷ "format" ∷ []) fields)
        (report_payload report_type format)

  unfoldable pub batch_model : Fields → Option Payload
  unfolding only_names
  batch_model fields = do
    items ← lookup "items" fields >>= as_items
    only_if (leb 1 (count items) && only_names ("items" ∷ []) fields) (batch_payload items)

  -- `PAYLOAD_MODELS[type].model_validate`.
  abbrev pub model_validate : JobType → Fields → Option Payload
  model_validate email fields = email_model fields
  model_validate webhook fields = webhook_model fields
  model_validate report fields = report_model fields
  model_validate batch fields = batch_model fields

abbrev optional_text : Option String → Json
optional_text none = null
optional_text (some s) = string s

-- `validated.model_dump(mode="json")`.
unfoldable pub model_dump : Payload → Fields
model_dump (email_payload to subject body) =
    field "to" (string to)
      (field "subject" (string subject) (field "body" (optional_text body) end))
model_dump (webhook_payload url event) =
    field "url" (string url) (field "event" (optional_text event) end)
model_dump (report_payload report_type format) =
    field "report_type" (string report_type) (field "format" (string (format_value format)) end)
model_dump (batch_payload items) = field "items" (array items) end
