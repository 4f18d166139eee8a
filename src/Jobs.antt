-- ===== src/Jobs.antt =====
-- app/jobs/base.py, app/jobs/handlers.py and app/jobs/registry.py: the context of a handler, the four
-- handlers and the look-up of a handler by the type of a job.
pub mod Accepted
use Prim.Native.String.{◌++◌ as joined, count as characters}
use job_queue_service.Prelude.{
  ℕ, zero, suc, ◌+◌, String, true, Option, none, some, leb, if◌then◌else◌,
}
use job_queue_service.Prelude.Int.{pos}
use job_queue_service.Json.{
  Json, null, boolean, integer, real, string, array, object, Fields, end, field, lookup, count,
  field_count,
}
use job_queue_service.Exec.{Result, Exec, ok, err, Error}
use job_queue_service.Schemas.{JobType, email, webhook, report, batch, job_type}

-- What a handler raises: `JobExecutionError`, a KeyError or a TypeError on its payload, or what a
-- progress report raises.
pub data Raised : Type 0 where
  job_execution_error : String → Raised
  key_error : String → Raised
  type_error : Raised
  reported : Error → Raised

pub data Outcome : Type 0 where
  finished : Fields → Outcome
  raised : Raised → Outcome

-- `WEBHOOK_SUCCESS_RATE`, a float, as a multiple of 2⁻⁵³.
abbrev pub webhook_success_rate : ℕ
webhook_success_rate = 7205759403792794

abbrev pub report_base_url : String
report_base_url = "https://example.local/reports"

-- The text of a value in an f-string; `shown` is that of a value that is no text.
abbrev pub formatted : (Json → String) → Json → String
formatted shown (string s) = s
formatted shown json = shown json

-- `len(items)`; `none` is its TypeError.
abbrev pub length_of : Json → Option ℕ
length_of (array items) = some (count items)
length_of (object fields) = some (field_count fields)
length_of (string s) = some (characters s)
length_of _ = none

abbrev pub batch_result : ℕ → ℕ → Fields
batch_result processed total =
    field "processed" (integer (pos processed))
      (field "failed" (integer (pos 0)) (field "total" (integer (pos total)) end))

-- `JobContext`, as far as handlers use it: the payload, the text of the job's id, the hexadecimal
-- digits of the id that `uuid4` makes, the second draw of `random` as a multiple of 2⁻⁵³ (the first
-- is for the length of a sleep), what others do during each sleep, and `report_progress`.
pub record JobContext (S : Type 0) : Type 0 where
  pub payload : Fields
  pub job_id : String
  pub message_hex : String
  pub draw : ℕ
  pub shown : Json → String
  pub sleep : ℕ → S → S
  pub report_progress : ℕ → ℕ → Exec S (Unit {0})

module _ {S : Type 0} where
  unfoldable pub handle_email : JobContext S → S → Outcome × S
  handle_email context s = (
    finished (
        field "message_id" (string (joined "msg_" context.message_hex))
          (field "status" (string "sent") end)),
    context.sleep 0 s,
  )

  abbrev undelivered : JobContext S → Option Json → Outcome
  undelivered context none = raised (key_error "url")
  undelivered context (some url) = raised (
      job_execution_error (
        joined "webhook delivery to "
          (joined (formatted context.shown url) " failed with status 503")))

  unfoldable pub handle_webhook : JobContext S → S → Outcome × S
  handle_webhook context s = (
    if leb webhook_success_rate context.draw
        then undelivered context (lookup "url" context.payload)
        else finished
            (field "status_code" (integer (pos 200)) (field "delivered" (boolean true) end)),
    context.sleep 0 s,
  )

  abbrev file_of : JobContext S → Option Json → Outcome
  file_of context none = raised (key_error "format")
  file_of context (some file_format) = finished (
      field "file_url"
        (string (
          joined report_base_url (
            joined "/" (joined context.job_id (joined "." (formatted context.shown file_format))))))
        end)

  unfoldable pub handle_report : JobContext S → S → Outcome × S
  handle_report context s = (file_of context (lookup "format" context.payload), context.sleep 0 s)

  -- The loop of `handle_batch`, with `left` items to go.
  abbrev pub go_on : (S → Outcome × S) → Result (Unit {0}) × S → Outcome × S
  go_on rest (ok _, s) = rest s
  go_on rest (err e, s) = (raised (reported e), s)

  unfoldable pub each_item : JobContext S → (left processed total : ℕ) → S → Outcome × S
  each_item context zero processed total s = (finished (batch_result processed total), s)
  each_item context (suc left) processed total s =
      go_on (each_item context left (processed + 1) total)
        (context.report_progress (processed + 1) total (context.sleep processed s))

  abbrev pub over_items : JobContext S → Option ℕ → S → Outcome × S
  over_items context none s = (raised type_error, s)
  over_items context (some total) s = each_item context total 0 total s

  abbrev pub with_items : JobContext S → Option Json → S → Outcome × S
  with_items context none s = (raised (key_error "items"), s)
  with_items context (some items) s = over_items context (length_of items) s

  unfoldable pub handle_batch : JobContext S → S → Outcome × S
  unfolding each_item
  handle_batch context s = with_items context (lookup "items" context.payload) s

  -- `HANDLERS` and `get_handler`.
  abbrev pub handler_of : JobType → JobContext S → S → Outcome × S
  handler_of email = handle_email
  handler_of webhook = handle_webhook
  handler_of report = handle_report
  handler_of batch = handle_batch

  abbrev registered : Option JobType → Option (JobContext S → S → Outcome × S)
  registered none = none
  registered (some type) = some (handler_of type)

  unfoldable pub get_handler : String → Option (JobContext S → S → Outcome × S)
  unfolding handle_email handle_webhook handle_report handle_batch
  get_handler type = registered (job_type type)
