-- ===== src/Migration/Agrees.antt =====
-- The migrations build the tables that the models declare, and take them down again.
use package.text.Mathlib.Text.{◌==◌ as str_eq}
use package.text.Mathlib.TextEquality.{eq_iff}
use job_queue_service.Job.{
  Job, JobStatus, status_value, satisfies_checks, scheduled, pending, processing, completed, failed,
  cancelled,
}
use job_queue_service.Prelude.{
  Bool-cases, inl, inr, subst, map, String, ◌≡◌, refl, ◌∙◌, true, false, none, some, List, [], ◌∷◌,
  ◌++◌, All,
}
use job_queue_service.Migration.Tables.{
  uuid, TableDefinition, Catalog, Operation, find, find_column, any, uses_type, refers_to,
}
use job_queue_service.Migration.Conditions.{takes_name}
use job_queue_service.Migration.Effects.{
  effects, catalog_of, Definable, migrate, migrate-effects, effects-append,
}
use job_queue_service.Migration.Checks.{admits_all, passes}
use job_queue_service.Migration.Declared.{declared_jobs, declared_logs}
use job_queue_service.Migration.Initial.{
  job_status_values, initial_jobs, initial_logs, initial_upgrade, initial_downgrade, token_upgrade,
  token_downgrade,
}

-- Nothing in the catalog has this name.
abbrev pub IsFreeName : Catalog → String → Type 0
IsFreeName c name = (any (takes_name name) c.tables ≡ false) × (find name c.types ≡ none)

abbrev pub migrated_names : List String
migrated_names =
    "job_status" ∷ "jobs" ∷ "pk_jobs" ∷ "uq_jobs_idempotency_key_active"
    ∷ "ix_jobs_idempotency_expires_at" ∷ "ix_jobs_scheduled_due" ∷ "ix_jobs_processing_lease"
    ∷ "ix_jobs_status_created_at" ∷ "ix_jobs_type_created_at" ∷ "ix_jobs_created_at" ∷ "job_logs"
    ∷ "pk_job_logs" ∷ "ix_job_logs_job_id_created_at" ∷ []

abbrev pub AreFree : Catalog → Type 0
AreFree c = All (IsFreeName c) migrated_names

-- The tables after 0001.
abbrev initial_tables : Catalog → Catalog
initial_tables c = record {
  tables =
      ("job_logs", record initial_logs { indexes = declared_logs.indexes })
      ∷ ("jobs", record initial_jobs { indexes = declared_jobs.indexes })
      ∷ c.tables;
  types = ("job_status", job_status_values) ∷ c.types;
  rowless = "job_logs" ∷ "jobs" ∷ c.rowless;
}

initial_upgrade-effects :
    (c : Catalog) → AreFree c → effects initial_upgrade c ≡ some (initial_tables c)
unfolding effects initial_upgrade
initial_upgrade-effects v (a, (b, (c, (d, (e, (f, (g, (h, (i, (j, (k, (l, (m, u))))))))))))) =
    rw
      (
        a.0, a.1, b.0, b.1, c.0, c.1, d.0, d.1, e.0, e.1, f.0, f.1, g.0, g.1, h.0, h.1, i.0, i.1,
        j.0, j.1, k.0, k.1, l.0, l.1, m.0, m.1,
      )
      refl

-- The definitions agree, but for the order of the columns.
pub record SameDefinition (t u : TableDefinition) : Type 0 where
  pub columns : (name : String) → find_column name t.columns ≡ find_column name u.columns
  pub checks : t.checks ≡ u.checks
  pub foreign_keys : t.foreign_keys ≡ u.foreign_keys
  pub primary_key : t.primary_key ≡ u.primary_key
  pub indexes : t.indexes ≡ u.indexes

-- The table `jobs` after 0002.
abbrev pub migrated_jobs : TableDefinition
migrated_jobs = record initial_jobs {
  columns =
      initial_jobs.columns
      ++ (record { name = "execution_token"; type = uuid; nullable = true; server_default = none }
          ∷ []);
  indexes = declared_jobs.indexes;
}

abbrev token_tables : Catalog → Catalog
token_tables c = record {
  tables =
      ("job_logs", record initial_logs { indexes = declared_logs.indexes })
      ∷ ("jobs", migrated_jobs)
      ∷ c.tables;
  types = ("job_status", job_status_values) ∷ c.types;
  rowless = "job_logs" ∷ "jobs" ∷ c.rowless;
}

-- Both migrations, up and down.
abbrev pub upgrades : List Operation
upgrades = initial_upgrade ++ token_upgrade

abbrev pub downgrades : List Operation
downgrades = token_downgrade ++ initial_downgrade

upgrade-effects : (c : Catalog) → AreFree c → effects upgrades c ≡ some (token_tables c)
unfolding effects token_upgrade
upgrade-effects c free =
    effects-append initial_upgrade token_upgrade c (initial_tables c)
      (initial_upgrade-effects c free)
    ∙ refl

same_columns :
    (name : String)
    → find_column name migrated_jobs.columns ≡ find_column name declared_jobs.columns
same_columns name = elim (Bool-cases (str_eq "execution_token" name)) [
  | inl hit ↦
      subst (λ n. find_column n migrated_jobs.columns ≡ find_column n declared_jobs.columns)
        ((eq_iff "execution_token" name).0 hit) refl
  | inr miss ↦ rw miss refl
]

-- The statuses in the order of the enumeration.
abbrev pub statuses : List JobStatus
statuses = scheduled ∷ pending ∷ processing ∷ completed ∷ failed ∷ cancelled ∷ []

module _ (d : Definable) (s : d.Database) (free : AreFree (d.catalog s)) where
  open d use {catalog}

  -- On a database in which nothing has a name that the migrations use, the two upgrades are
  -- accepted, and leave the tables that the models declare, with the names of the naming
  -- convention: `jobs`, but for the order of its columns, and `job_logs`; the enumeration has the
  -- values of the statuses, and the CHECK constraints of `jobs` admit exactly the rows that the
  -- model of the table accepts.
  pub migrate-SameDefinition :
      (c : Catalog) × (jobs : TableDefinition) × (catalog_of catalog (migrate d upgrades s)
        ≡ some c)
      × (find "jobs" c.tables ≡ some jobs)
      × SameDefinition jobs declared_jobs
      × (find "job_logs" c.tables ≡ some declared_logs)
      × (find "job_status" c.types ≡ some (map status_value statuses))
      × ((j : Job) → admits_all jobs.checks j ≡ satisfies_checks j)
  migrate-SameDefinition = (
    token_tables (catalog s),
    migrated_jobs,
    migrate-effects d upgrades s (token_tables (catalog s)) (upgrade-effects (catalog s) free),
    refl,
    record {
      columns = same_columns;
      checks = refl;
      foreign_keys = refl;
      primary_key = refl;
      indexes = refl;
    },
    refl,
    refl,
    passes,
  )

  down-effects :
      any (refers_to "jobs") (catalog s).tables ≡ false
      → any (refers_to "job_logs") (catalog s).tables ≡ false
      → any (uses_type "job_status") (catalog s).tables ≡ false
      → effects downgrades (token_tables (catalog s)) ≡ some (catalog s)
  unfolding effects token_downgrade initial_downgrade
  down-effects jobs logs type = rw (logs, jobs, type) refl

  -- On a database in which nothing has or refers to a name that the migrations use, the two
  -- upgrades followed by the two downgrades are accepted, and leave the definitions as they were.
  pub migrate-migrate :
      any (refers_to "jobs") (catalog s).tables ≡ false
      → any (refers_to "job_logs") (catalog s).tables ≡ false
      → any (uses_type "job_status") (catalog s).tables ≡ false
      → catalog_of catalog (migrate d (upgrades ++ downgrades) s) ≡ some (catalog s)
  migrate-migrate jobs logs type = migrate-effects d (upgrades ++ downgrades) s (catalog s) (
      effects-append upgrades downgrades (catalog s) (token_tables (catalog s))
        (upgrade-effects (catalog s) free)
      ∙ down-effects jobs logs type)
