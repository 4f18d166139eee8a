-- ===== src/Postgres/Reports.antt =====
-- What the read-only calls rely on of PostgreSQL: a result in the order of a list of keys, and two aggregates.
pub mod Listed
use job_queue_service.Prelude.{
  ℕ, ◌+◌, ◌<◌, ◌≤◌, ◌≡◌, ◌⊎◌, Bool, true, false, ◌||◌, List, [], ◌∷◌, length, All, if◌then◌else◌,
}
use job_queue_service.Job.{Job, JobStatus, is_status}
use job_queue_service.Postgres.{Postgres, find_id, IsUnique, matched}

-- An expression of `ORDER BY`, and its direction.
pub data Direction : Type 0 where
  asc desc : Direction

abbrev pub Key : Type 0
Key = Direction × (Job → ℕ)

abbrev pub Precedes : Direction → ℕ → ℕ → Type 0
Precedes asc x y = x < y
Precedes desc x y = y < x

-- `a` may stand before `b` under `ORDER BY` these keys: rows that agree on all of them stand in any
-- order.
abbrev pub InOrder : List Key → Job → Job → Type 0
InOrder [] a b = Unit
InOrder ((d, k) ∷ keys) a b = Precedes d (k a) (k b) ⊎ ((k a ≡ k b) × InOrder keys a b)

abbrev pub IsOrdered : List Key → List Job → Type 0
IsOrdered keys [] = Unit
IsOrdered keys (j ∷ js) = All (InOrder keys j) js × IsOrdered keys js

-- What a grouped count says of one status; a status of no row has no group.
abbrev pub total_of : JobStatus → List (JobStatus × ℕ) → ℕ
total_of s [] = 0
total_of s ((k, n) ∷ groups) = if is_status k s then n else total_of s groups

abbrev pub has_group : JobStatus → List (JobStatus × ℕ) → Bool
has_group s [] = false
has_group s ((k, n) ∷ groups) = is_status k s || has_group s groups

-- No two groups have one status.
abbrev pub AreGroups : List (JobStatus × ℕ) → Type 0
AreGroups [] = Unit
AreGroups ((k, n) ∷ groups) = (has_group k groups ≡ false) × AreGroups groups

pub record Reports (db : Postgres) : Type 0 where
  -- `SELECT … WHERE w ORDER BY keys`, `SELECT count(*) … WHERE w` and
  -- `SELECT status, count(*) … GROUP BY status`
  pub select : List Key → (Job → Bool) → db.Table → List Job
  pub count : (Job → Bool) → db.Table → ℕ
  pub status_groups : db.Table → List (JobStatus × ℕ)
  pub find_id-select :
      (keys : List Key) (w : Job → Bool) (t : db.Table) (i : ℕ)
      → find_id i (select keys w t) ≡ matched w (λ j. j) (db.row t i)
  pub select-IsUnique :
      (keys : List Key) (w : Job → Bool) (t : db.Table) → IsUnique (select keys w t)
  pub select-IsOrdered :
      (keys : List Key) (w : Job → Bool) (t : db.Table) → IsOrdered keys (select keys w t)
  pub length-select :
      (keys : List Key) (w : Job → Bool) (t : db.Table) → length (select keys w t) ≡ count w t
  pub total_of-status_groups :
      (t : db.Table) (s : JobStatus)
      → total_of s (status_groups t) ≡ count (λ j. is_status s j.status) t
  pub status_groups-AreGroups : (t : db.Table) → AreGroups (status_groups t)
