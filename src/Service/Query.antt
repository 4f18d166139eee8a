-- ===== src/Service/Query.antt =====
-- The calls of app/services/job_service.py that only read: `list_jobs` and `count_jobs_by_status`.
pub mod Pages
pub mod Counts
use job_queue_service.Prelude.{
  ℕ, suc, ◌+◌, ◌*◌, String, Bool, true, ◌&&◌, Option, none, some, List, [], ◌∷◌, ◌++◌, take, drop,
  if◌then◌else◌,
}
use text.Mathlib.Text.{◌==◌ as str_eq}
use job_queue_service.Job.{Job, JobStatus, is_status}
use job_queue_service.Postgres.{Postgres}
use job_queue_service.Postgres.Reports.{Reports, Key, desc}
use job_queue_service.Schemas.{JobType, value}

-- The two filters of `_apply_filters`, as a condition on rows.
abbrev filter_status : Option JobStatus → Job → Bool
filter_status none j = true
filter_status (some s) j = is_status s j.status

abbrev filter_type : Option JobType → Job → Bool
filter_type none j = true
filter_type (some t) j = str_eq j.type (value t)

abbrev pub apply_filters : Option JobStatus → Option JobType → Job → Bool
apply_filters status type j = filter_status status j && filter_type type j

-- `order_by(Job.created_at.desc(), Job.id.desc())`.
unfoldable pub newest_first : List Key
newest_first = (desc, λ j. j.created_at) ∷ (desc, λ j. j.id) ∷ []

-- `counts`, a dictionary from every status to a number, and one assignment to it.
abbrev pub set_count : JobStatus → ℕ → (JobStatus → ℕ) → JobStatus → ℕ
set_count k n counts s = if is_status k s then n else counts s

unfoldable pub set_counts : List (JobStatus × ℕ) → (JobStatus → ℕ) → JobStatus → ℕ
set_counts [] counts = counts
set_counts ((k, n) ∷ rows) counts = set_counts rows (set_count k n counts)

module _ (db : Postgres) (reports : Reports db) where
  open db use {Table}
  open reports use {select, count, status_groups}

  -- `list_jobs`: the rows of the page, and how many rows match. What others commit between the
  -- count and the page is `others`.
  unfoldable pub list_jobs :
      Option JobStatus → Option JobType → ℕ → ℕ → (Table → Table) → Table → List Job × ℕ
  list_jobs status type limit offset others t =
      let matching = apply_filters status type in
      (take limit (drop offset (select newest_first matching (others t))), count matching t)

  unfoldable pub count_jobs_by_status : Table → JobStatus → ℕ
  unfolding set_counts
  count_jobs_by_status t = set_counts (status_groups t) (λ s. 0)
