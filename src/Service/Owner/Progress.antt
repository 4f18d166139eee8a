-- ===== src/Service/Owner/Progress.antt =====
-- What a progress report stores, of a worker that owns its job and of one that has lost it.
use job_queue_service.Prelude.{
  some_injective, sym, ◌∙◌, ℕ, ◌≤◌, ◌≡◌, ◌⊎◌, inl, inr, refl, true, some, arith, Bool-cases,
  Option-cases,
}
use job_queue_service.Prelude.Int.{ℤ, pos, negsuc, clamp}
use job_queue_service.Job.{Job, Attempt}
use job_queue_service.Job.Sound.{IsSound}
use job_queue_service.Postgres.{Postgres}
use job_queue_service.Statement.{owned_by}
use job_queue_service.Session.Laws.{Rows}
use job_queue_service.Service.Owner.{update_progress}
use job_queue_service.Service.Owner.Fence.{Lost, IsStale, update_progress-Lost}
use job_queue_service.Service.Owner.Settle.{Settled, update_progress-Settled}

-- Of the numbers from 0 to 100, `n` is the nearest to `p`.
abbrev pub IsNearest : ℤ → ℕ → Type 0
IsNearest (pos m) n = (n ≤ 100) × (n ≤ m) × ((n ≡ m) ⊎ (n ≡ 100))
IsNearest (negsuc m) n = n ≡ 0

clamp-IsNearest : (p : ℤ) → IsNearest p (clamp 100 p)
unfolding clamp
clamp-IsNearest (pos m) = (omega arith, omega arith, ground arith)
clamp-IsNearest (negsuc m) = refl

module _ (db : Postgres) where
  open db use {Table, row}

  -- On a table of sound rows, a progress report returns if the attempt owns its job: the row then
  -- has, of the numbers from 0 to 100, the one that is nearest to the report, is otherwise as
  -- before, and no other row changes. If the attempt does not own its job, the report raises
  -- `OwnershipLostError` and changes no row.
  pub update_progress-IsNearest :
      (a : Attempt) (t : Table) (progress : ℤ)
      → Rows db IsSound t
      → ((j : Job) × (n : ℕ) × (row t a.job_id ≡ some j)
          × (owned_by a j ≡ true)
          × IsNearest progress n
          × Settled db a.job_id (record j { progress = n }) tt t (update_progress db a progress t))
        ⊎ (IsStale db a t × Lost db a t (update_progress db a progress t))
  update_progress-IsNearest a t progress sound = elim (Option-cases (row t a.job_id)) [
    | inl gone ↦
        let stale : IsStale db a t = λ j e. absurd (cc (gone, e)) in
        inr (stale, update_progress-Lost db a t sound stale progress)
    | inr (j, found) ↦ elim (Bool-cases (owned_by a j)) [
      | inl owns ↦ inl (
        j,
        clamp 100 progress,
        found,
        owns,
        clamp-IsNearest progress,
        update_progress-Settled db a t sound j found owns progress,
      )
      | inr other ↦
          let stale : IsStale db a t = λ k e. rw (some_injective (sym found ∙ e)) at other in
          inr (stale, update_progress-Lost db a t sound stale progress)
    ]
  ]
