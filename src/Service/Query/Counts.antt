-- ===== src/Service/Query/Counts.antt =====
-- The counts by status agree with the rows.
use job_queue_service.Prelude.{ℕ, ◌≡◌, refl, ◌∙◌, List, [], ◌∷◌, Bool-cases, false, inl, inr, arith}
use job_queue_service.Job.{JobStatus, is_status, is_status→eq}
use job_queue_service.Postgres.{Postgres}
use job_queue_service.Postgres.Reports.{Reports, total_of, has_group, AreGroups}
use job_queue_service.Service.Query.{set_count, set_counts, count_jobs_by_status}

set_counts-missing :
    (g : List (JobStatus × ℕ)) (counts : JobStatus → ℕ) (s : JobStatus)
    → has_group s g ≡ false
    → set_counts g counts s ≡ counts s
unfolding set_counts
set_counts-missing [] counts s h = refl
set_counts-missing ((k, n) ∷ g) counts s h =
    ground (arith, set_counts-missing g (set_count k n counts) s)

set_counts-total_of :
    (g : List (JobStatus × ℕ)) (s : JobStatus)
    → AreGroups g
    → (counts : JobStatus → ℕ) → counts s ≡ 0
    → set_counts g counts s ≡ total_of s g
unfolding set_counts
set_counts-total_of [] s h counts zero_there = zero_there
set_counts-total_of ((k, n) ∷ g) s h counts zero_there = elim (Bool-cases (is_status k s)) [
  | inl same ↦ rw same (
      set_counts-missing g (set_count k n counts) s (rw (is_status→eq k s same) at h.0)
      ∙ rw same refl)
  | inr other ↦ rw other (set_counts-total_of g s h.1 (set_count k n counts) (rw other zero_there))
]

module _ (db : Postgres) (reports : Reports db) where
  open db use {Table}
  open reports use {count, status_groups, total_of-status_groups, status_groups-AreGroups}

  -- For every status, the dictionary of counts, filled from the groups, has the number of rows in
  -- that status, and 0 where no row is.
  pub count_jobs_by_status-count :
      (t : Table) (s : JobStatus)
      → count_jobs_by_status db reports t s ≡ count (λ j. is_status s j.status) t
  unfolding count_jobs_by_status
  count_jobs_by_status-count t s =
      set_counts-total_of (status_groups t) s (status_groups-AreGroups t) (λ k. 0) refl
      ∙ total_of-status_groups t s
