-- ===== src/Service/Sweep/Ended.antt =====
-- How a batch of lease recovery ends the attempts that it selects.
use job_queue_service.Prelude.{
  ℕ, ◌+◌, ◌==◌, ◌≡◌, ◌≢◌, sym, ◌∙◌, ap, subst, Bool, true, false, none, some, List, [], ◌∷◌, All,
  arith, Bool-cases, inl, inr, if◌then◌else◌, not, ◌&&◌, ltb, All-map,
}
use job_queue_service.Job.{Job, Attempt, attempt_of, processing}
use job_queue_service.Job.Sound.{IsSound}
use job_queue_service.Retry.{seconds}
use job_queue_service.Exec.{Result}
use job_queue_service.Postgres.{Postgres, find_id, IsUnique}
use job_queue_service.Statement.{rescheduling, giving_up}
use job_queue_service.Session.Laws.{Rows, execute_first_safe, row-execute_hit, row-execute_other}
use job_queue_service.Service.Owner.Verdict.{
  backoff, verdict, verdict-IsSafe, verdict-IsKeyed, apply_failed_attempt_lem,
}
use job_queue_service.Service.Owner.Settle.{waiting_until, failed_with}
use job_queue_service.Service.Sweep.{
  is_expired, expired_jobs, recover_one, recover_each, recover_expired_leases, lease_expired_error,
}
use job_queue_service.Service.Owner.{AttemptResult}
use job_queue_service.Service.Sweep.Recover.{
  attempt_of-IsCounted, recover_one-Recovered, recover_each-Recovered, recover_each_cons,
  All-find_id,
}

-- The row of a job whose lease had expired: it waits for a retry, or has failed for good.
abbrev pub ended : ℕ → Job → Job
ended now j =
    if ltb j.attempt_count j.max_attempts
    then waiting_until (now + seconds (backoff j.attempt_count)) lease_expired_error j
    else failed_with lease_expired_error now j

ended_live : (now : ℕ) (j : Job) → is_expired now (ended now j) ≡ false
ended_live now j = ground arith

verdict-ended :
    (a : Attempt) (now : ℕ) (j : Job)
    → attempt_of j ≡ some a
    → (verdict a lease_expired_error true now).change j ≡ ended now j
unfolding rescheduling giving_up
verdict-ended a now j e = ground (arith, e)

verdict_holds :
    (a : Attempt) (now : ℕ) (j : Job)
    → attempt_of j ≡ some a
    → is_expired now j ≡ true
    → (verdict a lease_expired_error true now).guard j ≡ true
unfolding rescheduling giving_up
verdict_holds a now j e x = ground (arith, e, x)

attempt_of_id : (a : Attempt) (j : Job) → attempt_of j ≡ some a → a.job_id ≡ j.id
attempt_of_id a j e = ground (arith, e)

-- No member has an id that is not found.
ids_differ : (i : ℕ) (l : List Job) → find_id i l ≡ none → All (λ j. j.id ≢ i) l
ids_differ i [] e = tt
ids_differ i (x ∷ l) e = elim (Bool-cases (x.id == i)) [
  | inl hit ↦ absurd (ground (arith, e))
  | inr miss ↦ (ground arith, ids_differ i l (ground arith))
]

module _ (db : Postgres) where
  open db use {Table, row, row-id, update, selected, select_ordered-IsUnique}

  -- What selection under the row locks says of each row of the batch.
  abbrev Chosen : ℕ → Table → Job → Type 0
  Chosen now t j =
      IsSound j × (j.status ≡ processing) × (row t j.id ≡ some j) × (is_expired now j ≡ true)

  recover_one-ended :
      (now : ℕ) (job : Job) (t : Table)
      → Rows db IsSound t
      → Chosen now t job
      → (row (recover_one db now job t).1 job.id ≡ some (ended now job))
        × ((k : ℕ) → k ≢ job.id → row (recover_one db now job t).1 k ≡ row t k)
  unfolding recover_one
  recover_one-ended now job t sound (h, runs, found, late) =
      let (a, at, c) = attempt_of-IsCounted job h runs in
      let v = verdict a lease_expired_error true now in
      let safe = verdict-IsSafe a lease_expired_error true now in
      let keyed = verdict-IsKeyed a lease_expired_error true now in
      rw
        (
          at,
          apply_failed_attempt_lem db a lease_expired_error true now c t,
          execute_first_safe db v safe t sound a.job_id keyed,
        )
        (
          row-execute_hit db v safe t sound job.id job found (verdict_holds a now job at late)
              ∙ ap some (verdict-ended a now job at),
          λ k ne.
              row-execute_other db v safe t sound a.job_id keyed k
                (λ e. ne (e ∙ attempt_of_id a job at)),
        )

  -- Writing one row leaves the others chosen.
  All-Chosen :
      (now i : ℕ) (t t' : Table) (l : List Job)
      → ((k : ℕ) → k ≢ i → row t' k ≡ row t k)
      → All (λ j. j.id ≢ i) l
      → All (Chosen now t) l
      → All (Chosen now t') l
  All-Chosen now i t t' [] same apart h = tt
  All-Chosen now i t t' (x ∷ l) same apart ((sound, runs, found, late), h) =
      ((sound, runs, same x.id apart.0 ∙ found, late), All-Chosen now i t t' l same apart.1 h)

  recover_each-ended :
      (now : ℕ) (jobs : List Job) (t : Table)
      → Rows db IsSound t
      → IsUnique jobs
      → All (Chosen now t) jobs
      → All (λ j. row (recover_each db now jobs t).1 j.id ≡ some (ended now j)) jobs
  recover_each-ended now [] t sound u h = tt
  recover_each-ended now (job ∷ jobs) t sound u (c, h) =
      let t1 = (recover_one db now job t).1 in
      let ((r, one), sound', kept) = recover_one-Recovered db now job t sound c.0 c.1 in
      let (at, same) = recover_one-ended now job t sound c in
      let later = All-Chosen now job.id t t1 jobs same (ids_differ job.id jobs u.0) h in
      let ((rs, rest), sound'', kept') =
        recover_each-Recovered db now jobs t1 sound'
          (All-map jobs (λ j (p : Chosen now t1 j). (p.0, p.1)) later) in
      let ends = recover_each_cons db now job jobs t r rs one rest in
      subst
        (λ (x : Result (List AttemptResult) × Table).
          All (λ j. row x.1 j.id ≡ some (ended now j)) (job ∷ jobs))
        (sym ends)
        (
          kept' job.id (ended now job) at (ended_live now job),
          recover_each-ended now jobs t1 sound' u.1 later,
        )

  -- On a table of sound rows, a batch of recovery leaves every job that it selected released,
  -- SCHEDULED 30 or 120 seconds later while attempts are left and FAILED otherwise, with the error
  -- that the lease expired.
  pub recover_expired_leases-ended :
      (locked : ℕ → Bool) (limit now : ℕ) (t : Table)
      → Rows db IsSound t
      → All
          (λ j. row (recover_expired_leases db locked limit now t).1 j.id ≡ some (ended now j))
          (expired_jobs db locked limit now t)
  unfolding recover_expired_leases
  recover_expired_leases-ended locked limit now t sound =
      let unique =
        select_ordered-IsUnique (λ j. not (locked j.id) && is_expired now j)
          (λ j. j.lease_expires_at) limit t in
      let jobs = expired_jobs db locked limit now t in
      let chosen : All (Chosen now t) jobs = All-find_id (Chosen now t) jobs unique λ i j e.
        let (found, w) =
          selected (λ j. not (locked j.id) && is_expired now j) (λ j. j.lease_expires_at) limit t i
            j e in
        (
          sound i j found,
          ground arith,
          subst (λ k. row t k ≡ some j) (sym (row-id t i j found)) found,
          ground arith,
        ) in
      let ((rs, e), _, _) =
        recover_each-Recovered db now jobs t sound
          (All-map jobs (λ j (p : Chosen now t j). (p.0, p.1)) chosen) in
      rw e (recover_each-ended now jobs t sound unique chosen)
