-- ===== src/Examples/Definitions.antt =====
-- The theorems on the definitions of tables at an empty database.
use job_queue_service.Prelude.{◌≡◌, refl, ◌∙◌, Option, none, some, [], ◌∷◌, ◌++◌, map}
use job_queue_service.Job.{Job, satisfies_checks, status_value}
use job_queue_service.Migration.Tables.{TableDefinition, Catalog, find}
use job_queue_service.Migration.Effects.{effect, catalog_of, Definable, migrate}
use job_queue_service.Migration.Checks.{admits_all}
use job_queue_service.Migration.Declared.{declared_jobs, declared_logs}
use job_queue_service.Migration.Agrees.{
  upgrades, downgrades, AreFree, SameDefinition, statuses, migrate-SameDefinition, migrate-migrate,
}

catalog_of_self : (x : Option Catalog) → catalog_of (λ c. c) x ≡ x
catalog_of_self none = refl
catalog_of_self (some c) = refl

-- A database that is its catalog.
abbrev described : Definable
described = record {
  Database = Catalog;
  catalog = λ c. c;
  apply = effect;
  apply-effect = λ o s c e. catalog_of_self (effect o s) ∙ e;
}

-- One table that has nothing to do with the service.
abbrev before : Catalog
before = record {
  tables =
      (
        "alembic_version",
        record {
          columns = [];
          checks = [];
          foreign_keys = [];
          primary_key = ("alembic_version_pkc", "version_num");
          indexes = [];
        },
      )
      ∷ [];
  types = [];
  rowless = [];
}

before-AreFree : AreFree before
before-AreFree = (
  (refl, refl),
  (
    (refl, refl),
    (
      (refl, refl),
      (
        (refl, refl),
        (
          (refl, refl),
          (
            (refl, refl),
            (
              (refl, refl),
              (
                (refl, refl),
                ((refl, refl), ((refl, refl), ((refl, refl), ((refl, refl), ((refl, refl), tt))))),
              ),
            ),
          ),
        ),
      ),
    ),
  ),
)

migrate-SameDefinition_example :
    (c : Catalog) × (jobs : TableDefinition) × (catalog_of
        (λ c. c)
        (migrate described upgrades before)
      ≡ some c)
    × (find "jobs" c.tables ≡ some jobs)
    × SameDefinition jobs declared_jobs
    × (find "job_logs" c.tables ≡ some declared_logs)
    × (find "job_status" c.types ≡ some (map status_value statuses))
    × ((j : Job) → admits_all jobs.checks j ≡ satisfies_checks j)
migrate-SameDefinition_example = migrate-SameDefinition described before before-AreFree

migrate-migrate_example :
    catalog_of (λ c. c) (migrate described (upgrades ++ downgrades) before) ≡ some before
migrate-migrate_example = migrate-migrate described before before-AreFree refl refl refl
