-- ===== src/Migration/Declared.antt =====
-- The tables that app/db/models.py declares, under the naming convention of app/db/base.py.
use Prim.Native.String.{◌++◌ as joined}
use job_queue_service.Prelude.{String, Bool, true, false, none, some, List, [], ◌∷◌}
use job_queue_service.Migration.Tables.{
  ColumnType, uuid, unbounded, integer, jsonb, timestamp_with_zone, varchar, enumeration,
  gen_random_uuid, now, literal, Column, at_least, within_column, between, is_not_null, is_text,
  Index, TableDefinition,
}

-- `NAMING_CONVENTION`.
abbrev pub check_name : String → String → String
check_name table constraint = joined "ck_" (joined table (joined "_" constraint))

abbrev pub primary_key_name : String → String
primary_key_name table = joined "pk_" table

abbrev pub foreign_key_name : String → String → String → String
foreign_key_name table column referred =
    joined "fk_" (joined table (joined "_" (joined column (joined "_" referred))))

abbrev mapped_column : String → ColumnType → Bool → Column
mapped_column name type nullable = record {
  name = name;
  type = type;
  nullable = nullable;
  server_default = none;
}

abbrev index : String → List String → Index
index name columns = record { name = name; columns = columns; unique = false; condition = none }

-- `Job`.
abbrev pub declared_jobs : TableDefinition
declared_jobs = record {
  columns =
      record (mapped_column "id" uuid false) { server_default = some gen_random_uuid }
      ∷ mapped_column "type" (varchar 128) false
      ∷ mapped_column "payload" jsonb false
      ∷ mapped_column "status" (enumeration "job_status") false
      ∷ record (mapped_column "priority" integer false) { server_default = some (literal 0) }
      ∷ record (mapped_column "attempt_count" integer false) { server_default = some (literal 0) }
      ∷ record (mapped_column "max_attempts" integer false) { server_default = some (literal 3) }
      ∷ record (mapped_column "progress" integer false) { server_default = some (literal 0) }
      ∷ mapped_column "result" jsonb true
      ∷ mapped_column "error" unbounded true
      ∷ mapped_column "scheduled_at" timestamp_with_zone true
      ∷ record (mapped_column "created_at" timestamp_with_zone false) { server_default = some now }
      ∷ mapped_column "started_at" timestamp_with_zone true
      ∷ mapped_column "completed_at" timestamp_with_zone true
      ∷ mapped_column "worker_id" (varchar 128) true
      ∷ mapped_column "execution_token" uuid true
      ∷ mapped_column "lease_expires_at" timestamp_with_zone true
      ∷ mapped_column "idempotency_key" (varchar 255) true
      ∷ mapped_column "idempotency_expires_at" timestamp_with_zone true
      ∷ [];
  checks =
      (check_name "jobs" "attempt_count_non_negative", at_least "attempt_count" 0)
      ∷ (check_name "jobs" "max_attempts_positive", at_least "max_attempts" 1)
      ∷ (check_name "jobs" "attempt_count_within_max", within_column "attempt_count" "max_attempts")
      ∷ (check_name "jobs" "progress_percentage_range", between "progress" 0 100)
      ∷ [];
  foreign_keys = [];
  primary_key = (primary_key_name "jobs", "id");
  indexes =
      record (index "uq_jobs_idempotency_key_active" ("idempotency_key" ∷ [])) {
        unique = true;
        condition = some (is_not_null "idempotency_key");
      }
      ∷ record (index "ix_jobs_idempotency_expires_at" ("idempotency_expires_at" ∷ [])) {
        condition = some (is_not_null "idempotency_key");
      }
      ∷ record (index "ix_jobs_scheduled_due" ("scheduled_at" ∷ [])) {
        condition = some (is_text "status" "scheduled");
      }
      ∷ record (index "ix_jobs_processing_lease" ("lease_expires_at" ∷ [])) {
        condition = some (is_text "status" "processing");
      }
      ∷ index "ix_jobs_status_created_at" ("status" ∷ "created_at" ∷ [])
      ∷ index "ix_jobs_type_created_at" ("type" ∷ "created_at" ∷ [])
      ∷ index "ix_jobs_created_at" ("created_at" ∷ [])
      ∷ [];
}

-- `JobLog`.
abbrev pub declared_logs : TableDefinition
declared_logs = record {
  columns =
      record (mapped_column "id" uuid false) { server_default = some gen_random_uuid }
      ∷ mapped_column "job_id" uuid false
      ∷ mapped_column "level" (varchar 16) false
      ∷ mapped_column "message" unbounded false
      ∷ mapped_column "metadata" jsonb true
      ∷ record (mapped_column "created_at" timestamp_with_zone false) { server_default = some now }
      ∷ [];
  checks = [];
  foreign_keys =
      record {
        name = foreign_key_name "job_logs" "job_id" "jobs";
        column = "job_id";
        referred_table = "jobs";
        referred_column = "id";
        cascades = true;
      }
      ∷ [];
  primary_key = (primary_key_name "job_logs", "id");
  indexes = index "ix_job_logs_job_id_created_at" ("job_id" ∷ "created_at" ∷ []) ∷ [];
}
