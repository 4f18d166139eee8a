-- ===== src/Migration/Checks.antt =====
-- What the CHECK constraints of a table definition admit.
use package.text.Mathlib.Text.{◌==◌ as str_eq}
use job_queue_service.Job.{Job, satisfies_checks}
use job_queue_service.Prelude.{
  ℕ, ◌&&◌, leb, if◌then◌else◌, arith, String, ◌≡◌, Bool, true, false, Option, none, some, List, [],
  ◌∷◌,
}
use job_queue_service.Migration.Tables.{Check, at_least, within_column, between}
use job_queue_service.Migration.Declared.{declared_jobs}

-- The value of a column of small numbers.
abbrev pub number_in : String → Job → Option ℕ
number_in name j =
    if str_eq name "attempt_count"
    then some j.attempt_count
    else if str_eq name "max_attempts"
    then some j.max_attempts
    else if str_eq name "progress"
    then some j.progress
    else none

abbrev pub compared : (ℕ → ℕ → Bool) → Option ℕ → Option ℕ → Bool
compared test (some a) (some b) = test a b
compared test _ _ = false

-- Whether a row passes the constraint.
abbrev pub admits : Check → Job → Bool
admits (at_least name low) j = compared leb (some low) (number_in name j)
admits (within_column name other) j = compared leb (number_in name j) (number_in other j)
admits (between name low high) j =
    compared leb (some low) (number_in name j) && compared leb (number_in name j) (some high)

abbrev pub admits_all : List (String × Check) → Job → Bool
admits_all [] j = true
admits_all (c ∷ cs) j = admits c.1 j && admits_all cs j

-- The constraints that are declared admit exactly the rows that the model of the table accepts.
pub passes : (j : Job) → admits_all declared_jobs.checks j ≡ satisfies_checks j
passes j = ground arith
