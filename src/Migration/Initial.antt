-- ===== src/Migration/Initial.antt =====
-- The definitions in alembic/versions/0001_initial_schema.py and 0002_execution_token.py, statement
-- by statement. The UPDATE of 0002, which is on rows, is in Migration.
use job_queue_service.Prelude.{String, true, false, none, some, List, [], ◌∷◌}
use job_queue_service.Migration.Tables.{
  ColumnType, uuid, unbounded, integer, jsonb, timestamp_with_zone, varchar, enumeration,
  gen_random_uuid, now, literal, ServerDefault, Column, at_least, within_column, between,
  is_not_null, is_text, Index, TableDefinition, Operation, create_type, drop_type, create_table,
  drop_table, create_index, drop_index, add_column, drop_column,
}
use job_queue_service.Migration.Declared.{check_name}

-- `JOB_STATUS_VALUES`.
abbrev pub job_status_values : List String
job_status_values =
    "scheduled" ∷ "pending" ∷ "processing" ∷ "completed" ∷ "failed" ∷ "cancelled" ∷ []

abbrev required : String → ColumnType → Column
required name type = record { name = name; type = type; nullable = false; server_default = none }

abbrev optional : String → ColumnType → Column
optional name type = record (required name type) { nullable = true }

abbrev defaulted : String → ColumnType → ServerDefault → Column
defaulted name type value = record (required name type) { server_default = some value }

abbrev pub initial_jobs : TableDefinition
initial_jobs = record {
  columns =
      defaulted "id" uuid gen_random_uuid
      ∷ required "type" (varchar 128)
      ∷ required "payload" jsonb
      ∷ required "status" (enumeration "job_status")
      ∷ defaulted "priority" integer (literal 0)
      ∷ defaulted "attempt_count" integer (literal 0)
      ∷ defaulted "max_attempts" integer (literal 3)
      ∷ defaulted "progress" integer (literal 0)
      ∷ optional "result" jsonb
      ∷ optional "error" unbounded
      ∷ optional "scheduled_at" timestamp_with_zone
      ∷ defaulted "created_at" timestamp_with_zone now
      ∷ optional "started_at" timestamp_with_zone
      ∷ optional "completed_at" timestamp_with_zone
      ∷ optional "worker_id" (varchar 128)
      ∷ optional "lease_expires_at" timestamp_with_zone
      ∷ optional "idempotency_key" (varchar 255)
      ∷ optional "idempotency_expires_at" timestamp_with_zone
      ∷ [];
  checks =
      (check_name "jobs" "attempt_count_non_negative", at_least "attempt_count" 0)
      ∷ (check_name "jobs" "max_attempts_positive", at_least "max_attempts" 1)
      ∷ (check_name "jobs" "attempt_count_within_max", within_column "attempt_count" "max_attempts")
      ∷ (check_name "jobs" "progress_percentage_range", between "progress" 0 100)
      ∷ [];
  foreign_keys = [];
  primary_key = ("pk_jobs", "id");
  indexes = [];
}

abbrev pub initial_logs : TableDefinition
initial_logs = record {
  columns =
      defaulted "id" uuid gen_random_uuid
      ∷ required "job_id" uuid
      ∷ required "level" (varchar 16)
      ∷ required "message" unbounded
      ∷ optional "metadata" jsonb
      ∷ defaulted "created_at" timestamp_with_zone now
      ∷ [];
  checks = [];
  foreign_keys =
      record {
        name = "fk_job_logs_job_id_jobs";
        column = "job_id";
        referred_table = "jobs";
        referred_column = "id";
        cascades = true;
      }
      ∷ [];
  primary_key = ("pk_job_logs", "id");
  indexes = [];
}

abbrev plain : String → List String → Index
plain name columns = record { name = name; columns = columns; unique = false; condition = none }

-- `upgrade` of 0001.
unfoldable pub initial_upgrade : List Operation
initial_upgrade =
    create_type "job_status" job_status_values
    ∷ create_table "jobs" initial_jobs
    ∷ create_index "jobs"
        (record (plain "uq_jobs_idempotency_key_active" ("idempotency_key" ∷ [])) {
          unique = true;
          condition = some (is_not_null "idempotency_key");
        })
    ∷ create_index "jobs"
        (record (plain "ix_jobs_idempotency_expires_at" ("idempotency_expires_at" ∷ [])) {
          condition = some (is_not_null "idempotency_key");
        })
    ∷ create_index "jobs" (record (plain "ix_jobs_scheduled_due" ("scheduled_at" ∷ [])) {
      condition = some (is_text "status" "scheduled");
    })
    ∷ create_index "jobs" (record (plain "ix_jobs_processing_lease" ("lease_expires_at" ∷ [])) {
      condition = some (is_text "status" "processing");
    })
    ∷ create_index "jobs" (plain "ix_jobs_status_created_at" ("status" ∷ "created_at" ∷ []))
    ∷ create_index "jobs" (plain "ix_jobs_type_created_at" ("type" ∷ "created_at" ∷ []))
    ∷ create_index "jobs" (plain "ix_jobs_created_at" ("created_at" ∷ []))
    ∷ create_table "job_logs" initial_logs
    ∷ create_index "job_logs" (plain "ix_job_logs_job_id_created_at" ("job_id" ∷ "created_at" ∷ []))
    ∷ []

-- `downgrade` of 0001.
unfoldable pub initial_downgrade : List Operation
initial_downgrade =
    drop_index "job_logs" "ix_job_logs_job_id_created_at"
    ∷ drop_table "job_logs"
    ∷ drop_index "jobs" "ix_jobs_created_at"
    ∷ drop_index "jobs" "ix_jobs_type_created_at"
    ∷ drop_index "jobs" "ix_jobs_status_created_at"
    ∷ drop_index "jobs" "ix_jobs_processing_lease"
    ∷ drop_index "jobs" "ix_jobs_scheduled_due"
    ∷ drop_index "jobs" "ix_jobs_idempotency_expires_at"
    ∷ drop_index "jobs" "uq_jobs_idempotency_key_active"
    ∷ drop_table "jobs"
    ∷ drop_type "job_status"
    ∷ []

-- The definitions of 0002, up and down.
unfoldable pub token_upgrade : List Operation
token_upgrade = add_column "jobs" (optional "execution_token" uuid) ∷ []

unfoldable pub token_downgrade : List Operation
token_downgrade = drop_column "jobs" "execution_token" ∷ []
