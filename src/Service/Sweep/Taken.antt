-- ===== src/Service/Sweep/Taken.antt =====
-- Batches that are not full: they take every row that waits for them.
use job_queue_service.Prelude.{
  ℕ, ◌<◌, ◌≡◌, sym, subst, ap, ◌∙◌, Bool, true, false, ◌&&◌, not, some, some_injective, List,
  length, arith, Option-cases, inl, inr,
}
use job_queue_service.Job.{Job, pending}
use job_queue_service.Job.Sound.{IsSound}
use job_queue_service.Exec.{ok}
use job_queue_service.Postgres.{Postgres, find_id}
use job_queue_service.Postgres.Rows.{All-find_id}
use job_queue_service.Statement.{is_due}
use job_queue_service.Session.Laws.{Rows}
use job_queue_service.Service.Sweep.{
  is_expired, expired_jobs, recover_expired_leases, activate_due_scheduled_jobs,
}
use job_queue_service.Service.Sweep.Ended.{ended, recover_expired_leases-ended}
use job_queue_service.Service.Sweep.Activate.{activate_due_scheduled_jobs-Activated}
use job_queue_service.Service.Sweep.Earliest.{activate_due_scheduled_jobs-earliest}

module _ (db : Postgres) where
  open db use {Table, row, row-id, selected, left_out}

  -- A job whose lease has expired, and that nobody has locked, is ended by a batch that is not full.
  pub recover_expired_leases-ends :
      (locked : ℕ → Bool) (limit now i : ℕ) (t : Table) (j : Job)
      → Rows db IsSound t
      → row t i ≡ some j
      → is_expired now j ≡ true
      → locked i ≡ false
      → length (expired_jobs db locked limit now t) < limit
      → row (recover_expired_leases db locked limit now t).1 i ≡ some (ended now j)
  recover_expired_leases-ends locked limit now i t j sound found late unlocked few =
      let w = λ (k : Job). not (locked k.id) && is_expired now k in
      let at_id : j.id ≡ i = row-id t i j found in
      let wanted : (not (locked j.id) && is_expired now j) ≡ true =
        ground (arith, late, ap locked at_id, unlocked) in
      elim (Option-cases (find_id i (expired_jobs db locked limit now t))) [
        | inl out ↦
            let (full, _) = left_out w (λ k. k.lease_expires_at) limit t i j found wanted out in
            absurd (omega (arith, full, few))
        | inr (k, picked) ↦
            let (at, _) = selected w (λ k. k.lease_expires_at) limit t i k picked in
            let same : k ≡ j = some_injective (sym at ∙ found) in
            let done =
              All-find_id
                (λ x.
                  row (recover_expired_leases db locked limit now t).1 x.id ≡ some (ended now x))
                (expired_jobs db locked limit now t) i k
                (recover_expired_leases-ended db locked limit now t sound) picked in
            let t' = (recover_expired_leases db locked limit now t).1 in
            subst (λ n. row t' n ≡ some (ended now j)) at_id
              (subst (λ x. row t' x.id ≡ some (ended now x)) same done)
      ]

  -- A row that is due, and that nobody has locked, is activated by a batch that is not full.
  pub activate_due_scheduled_jobs-activates :
      (locked : ℕ → Bool) (limit now i : ℕ) (t : Table) (j : Job) (activated : List Job)
      → Rows db IsSound t
      → row t i ≡ some j
      → is_due now j ≡ true
      → locked i ≡ false
      → (activate_due_scheduled_jobs db locked limit now t).0 ≡ ok activated
      → length activated < limit
      → row (activate_due_scheduled_jobs db locked limit now t).1 i
        ≡ some (record j { status = pending })
  activate_due_scheduled_jobs-activates locked limit now i t j activated sound found due unlocked
        returns few =
      let (jobs, _, taken, others) =
        activate_due_scheduled_jobs-Activated db locked limit now t sound in
      elim (Option-cases (find_id i jobs)) [
        | inl out ↦
            let (jobs', returns', full, _) =
              activate_due_scheduled_jobs-earliest db locked limit now t sound i j found unlocked
                due (others i out ∙ found) in
            let same : activated ≡ jobs' = cc (returns, returns') in
            absurd (omega (arith, ap (λ (xs : List Job). length xs) same, full, few))
        | inr (k, picked) ↦
            let (j', at, _, _, new, now_at) = taken i k picked in
            now_at
            ∙ ap some new
            ∙ ap (λ (x : Job). some (record x { status = pending }))
                (some_injective (sym at ∙ found))
      ]
