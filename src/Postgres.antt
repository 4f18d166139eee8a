-- ===== src/Postgres.antt =====
-- What the program relies on of PostgreSQL: the `jobs` table as a partial map from primary keys to
-- rows, and the documented effect of single statements on it. The order in which an unordered
-- statement yields its rows is left open. Every implementation is a value of `Postgres`.
pub mod Rows
pub mod Memory
pub mod Reports
use job_queue_service.Prelude.{
  ℕ, ◌≤◌, ◌≡◌, ◌==◌, Bool, true, false, ◌&&◌, Option, none, some, List, [], ◌∷◌, if◌then◌else◌,
  is_some, length, All,
}
use job_queue_service.Job.{Job, satisfies_checks}
use job_queue_service.Exec.{Constraint, primary_key, check_constraint, idempotency_index}

abbrev pub find_id : ℕ → List Job → Option Job
find_id i [] = none
find_id i (j ∷ js) = if j.id == i then some j else find_id i js

-- No two rows of a result have one primary key.
abbrev pub IsUnique : List Job → Type 0
IsUnique [] = Unit
IsUnique (j ∷ js) = (find_id j.id js ≡ none) × IsUnique js

-- A row after `UPDATE … SET f WHERE w`.
abbrev pub updated : (Job → Bool) → (Job → Job) → Option Job → Option Job
updated w f none = none
updated w f (some j) = some (if w j then f j else j)

-- The row that `UPDATE … SET f WHERE w RETURNING` yields, if it yields one.
abbrev pub matched : (Job → Bool) → (Job → Job) → Option Job → Option Job
matched w f none = none
matched w f (some j) = if w j then some (f j) else none

abbrev same_key : Option ℕ → Option ℕ → Bool
same_key (some a) (some b) = a == b
same_key _ _ = false

-- Both rows hold one idempotency key, which the partial unique index forbids.
abbrev pub shares_key : Job → Job → Bool
shares_key j k = same_key j.idempotency_key k.idempotency_key

-- The key of the row is kept, or set to NULL.
abbrev pub keeps_key : Option ℕ → Option ℕ → Bool
keeps_key (some a) (some b) = a == b
keeps_key none (some b) = false
keeps_key _ none = true

-- An ascending order, with NULL last.
abbrev pub NotAfter : Option ℕ → Option ℕ → Type 0
NotAfter (some a) (some b) = a ≤ b
NotAfter none (some b) = ⊥
NotAfter _ none = Unit

-- The UPDATE keeps primary keys.
abbrev pub KeepsId : (Job → Job) → Type 0
KeepsId f = (j : Job) → (f j).id ≡ j.id

pub record Postgres : Type 1 where
  pub Table : Type 0
  pub row : Table → ℕ → Option Job
  -- `UPDATE … SET f WHERE w RETURNING *`: whether a constraint refuses it, the table after it and
  -- the rows that it yields
  pub rejects_update : (Job → Bool) → (Job → Job) → Table → Bool
  pub update : (Job → Bool) → (Job → Job) → Table → Table
  pub returning : (Job → Bool) → (Job → Job) → Table → List Job
  pub rejects_insert : Job → Table → Option Constraint
  pub insert : Job → Table → Table
  -- `SELECT … WHERE w`, and the same with `ORDER BY key LIMIT n`
  pub select : (Job → Bool) → Table → List Job
  pub select_ordered : (Job → Bool) → (Job → Option ℕ) → ℕ → Table → List Job
  pub row-id : (t : Table) (i : ℕ) (j : Job) → row t i ≡ some j → j.id ≡ i
  pub row-update :
      (w : Job → Bool) (f : Job → Job) (t : Table) (i : ℕ)
      → KeepsId f
      → rejects_update w f t ≡ false
      → row (update w f t) i ≡ updated w f (row t i)
  pub find_id-returning :
      (w : Job → Bool) (f : Job → Job) (t : Table) (i : ℕ)
      → KeepsId f
      → rejects_update w f t ≡ false
      → find_id i (returning w f t) ≡ matched w f (row t i)
  pub returning-IsUnique :
      (w : Job → Bool) (f : Job → Job) (t : Table)
      → KeepsId f
      → rejects_update w f t ≡ false
      → IsUnique (returning w f t)
  pub update_accepted :
      (w : Job → Bool) (f : Job → Job) (t : Table)
      → ((i : ℕ) (j : Job)
          → row t i ≡ some j
          → w j ≡ true
          → (satisfies_checks (f j) ≡ true)
            × (keeps_key j.idempotency_key (f j).idempotency_key ≡ true))
      → rejects_update w f t ≡ false
  pub row-insert :
      (j : Job) (t : Table) (i : ℕ)
      → rejects_insert j t ≡ none
      → row (insert j t) i ≡ (if j.id == i then some j else row t i)
  pub insert_new : (j : Job) (t : Table) → rejects_insert j t ≡ none → row t j.id ≡ none
  pub insert_accepted :
      (j : Job) (t : Table)
      → row t j.id ≡ none
      → satisfies_checks j ≡ true
      → ((i : ℕ) (k : Job) → row t i ≡ some k → shares_key j k ≡ false)
      → rejects_insert j t ≡ none
  pub insert_duplicate :
      (j : Job) (t : Table) (i : ℕ) (k : Job)
      → row t j.id ≡ none
      → satisfies_checks j ≡ true
      → row t i ≡ some k
      → shares_key j k ≡ true
      → rejects_insert j t ≡ some idempotency_index
  pub find_id-select :
      (w : Job → Bool) (t : Table) (i : ℕ) → find_id i (select w t) ≡ matched w (λ j. j) (row t i)
  pub selected :
      (w : Job → Bool) (key : Job → Option ℕ) (n : ℕ) (t : Table) (i : ℕ) (j : Job)
      → find_id i (select_ordered w key n t) ≡ some j
      → (row t i ≡ some j) × (w j ≡ true)
  pub select_ordered-IsUnique :
      (w : Job → Bool) (key : Job → Option ℕ) (n : ℕ) (t : Table)
      → IsUnique (select_ordered w key n t)
  pub length-select_ordered :
      (w : Job → Bool) (key : Job → Option ℕ) (n : ℕ) (t : Table)
      → length (select_ordered w key n t) ≤ n
  pub left_out :
      (w : Job → Bool) (key : Job → Option ℕ) (n : ℕ) (t : Table) (i : ℕ) (j : Job)
      → row t i ≡ some j
      → w j ≡ true
      → find_id i (select_ordered w key n t) ≡ none
      → (length (select_ordered w key n t) ≡ n)
        × All (λ x. NotAfter (key x) (key j)) (select_ordered w key n t)
