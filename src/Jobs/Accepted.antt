-- ===== src/Jobs/Accepted.antt =====
-- A job that was accepted does not crash its handler.
use job_queue_service.Prelude.{
  ℕ, String, zero, suc, ◌+◌, ◌≡◌, refl, sym, subst, some, Option-cases, Bool-cases, inl, inr, arith,
  leb,
}
use job_queue_service.Json.{Fields, Items, done, string, array, lookup, count}
use job_queue_service.Exec.{Result, ok, err}
use job_queue_service.Schemas.{
  JobType, email, webhook, report, batch, value, job_type, job_type-value,
}
use job_queue_service.Schemas.Payload.{
  FieldTypes, Payload, webhook_payload, report_payload, batch_payload, model_dump, model_validate,
  email_model, webhook_model, report_model, batch_model, format_value,
}
use job_queue_service.Schemas.Request.{Submission, bounded_priority, validate_request}
use job_queue_service.Service.Create.{JobCreateRequest}
use job_queue_service.Jobs.{
  Outcome, finished, raised, job_execution_error, key_error, type_error, reported, JobContext,
  handle_email, handle_webhook, handle_report, handle_batch, each_item, go_on, get_handler,
  handler_of, webhook_success_rate,
}

-- The handler returned, or raised `JobExecutionError`, or a progress report raised.
abbrev pub IsExpected : Outcome → Type 0
IsExpected (finished fields) = Unit
IsExpected (raised (job_execution_error s)) = Unit
IsExpected (raised (reported e)) = Unit
IsExpected (raised (key_error key)) = ⊥
IsExpected (raised type_error) = ⊥

-- The payload has what the handler of the type reads.
abbrev Fits : JobType → Fields → Type 0
Fits email fields = Unit
Fits webhook fields = (s : String) × (lookup "url" fields ≡ some (string s))
Fits report fields = (s : String) × (lookup "format" fields ≡ some (string s))
Fits batch fields = (items : Items) × (lookup "items" fields ≡ some (array items))

module _ {S : Type 0} (context : JobContext S) where
  go_on-IsExpected :
      (rest : S → Outcome × S) (x : Result (Unit {0}) × S)
      → ((s : S) → IsExpected (rest s).0)
      → IsExpected (go_on rest x).0
  go_on-IsExpected rest (ok u, s) h = h s
  go_on-IsExpected rest (err e, s) h = tt

  each_item-IsExpected :
      (left processed total : ℕ) (s : S) → IsExpected (each_item context left processed total s).0
  unfolding each_item
  each_item-IsExpected zero processed total s = tt
  each_item-IsExpected (suc left) processed total s =
      go_on-IsExpected (each_item context left (processed + 1) total)
        (context.report_progress (processed + 1) total (context.sleep processed s))
        (each_item-IsExpected left (processed + 1) total)

  handler_of-IsExpected :
      (type : JobType)
      → Fits type context.payload
      → (s : S) → IsExpected (handler_of type context s).0
  unfolding handle_email handle_webhook handle_report handle_batch
  handler_of-IsExpected email fits s = tt
  handler_of-IsExpected webhook (url, e) s =
      elim (Bool-cases (leb webhook_success_rate context.draw)) [
        | inl fails ↦ rw (fails, e) tt
        | inr delivers ↦ rw delivers tt
      ]
  handler_of-IsExpected report (format, e) s = rw e tt
  handler_of-IsExpected batch (items, e) s =
      rw e (each_item-IsExpected (count items) 0 (count items) s)

-- What a handler reads of a validated payload.
abbrev text_of : Payload → String
text_of (webhook_payload url event) = url
text_of (report_payload report_type format) = format_value format
text_of _ = ""

abbrev items_of : Payload → Items
items_of (batch_payload items) = items
items_of _ = done

module _ (types : FieldTypes) where
  validated-Fits :
      (type : JobType) (fields : Fields) (p : Payload)
      → model_validate types type fields ≡ some p
      → Fits type (model_dump p)
  unfolding email_model webhook_model report_model batch_model model_dump lookup
  validated-Fits email fields p e = tt
  validated-Fits webhook fields p e = (text_of p, ground (arith, e))
  validated-Fits report fields p e = (text_of p, ground (arith, e))
  validated-Fits batch fields p e = (items_of p, ground (arith, e))

  accepted :
      (s : Submission) (request : JobCreateRequest)
      → validate_request types s ≡ some request
      → (type : JobType) × (request.type ≡ value type) × Fits type request.payload
  unfolding validate_request
  accepted s request e = elim (Option-cases (job_type s.type)) [
    | inl unknown ↦ absurd (cc (e, unknown))
    | inr (type, known) ↦ elim (Option-cases (bounded_priority s.priority)) [
      | inl out ↦ absurd (ground (arith, e, known, out))
      | inr (priority, within) ↦ elim (Option-cases (model_validate types type s.payload)) [
        | inl invalid ↦ absurd (ground (arith, e, known, within, invalid))
        | inr (p, valid) ↦ (
          type,
          ground (arith, e, known, within, valid),
          subst (Fits type) (ground (arith, e, known, within, valid))
              (validated-Fits type s.payload p valid),
        )
      ]
    ]
  ]

  -- If a submission is accepted, its type has a handler, and this handler, on the payload that is
  -- stored, returns, raises `JobExecutionError` or stops at an error of a progress report: it
  -- raises no KeyError and no TypeError.
  pub validate_request-IsExpected :
      (submission : Submission) (request : JobCreateRequest)
      → validate_request types submission ≡ some request
      → {S : Type 0} (context : JobContext S) (s : S) → context.payload ≡ request.payload
      → (handler : JobContext S → S → Outcome × S) × (get_handler request.type ≡ some handler)
        × IsExpected (handler context s).0
  unfolding get_handler
  validate_request-IsExpected submission request e context s same =
      let (type, at, fits) = accepted submission request e in
      (
        handler_of type,
        rw (at, job_type-value type) refl,
        handler_of-IsExpected context type (subst (Fits type) (sym same) fits) s,
      )
