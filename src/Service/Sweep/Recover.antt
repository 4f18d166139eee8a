-- ===== src/Service/Sweep/Recover.antt =====
-- What one batch of lease recovery does to the table.
use job_queue_service.Prelude.{
  Option, ℕ, ◌≡◌, ◌==◌, String, refl, sym, ◌∙◌, subst, Bool, true, false, some, List, [], ◌∷◌, All,
  arith, not, ◌&&◌, Option-cases, Bool-cases, inl, inr,
}
use job_queue_service.Job.{Job, Attempt, attempt_of, processing}
use job_queue_service.Job.Sound.{IsSound}
use job_queue_service.Exec.{Result, ok, after-ok, pure}
use job_queue_service.Postgres.{Postgres, find_id, IsUnique}
use job_queue_service.Postgres.Rows.{find_id-head}
use job_queue_service.Statement.{rescheduling, giving_up}
use job_queue_service.Service.Owner.{AttemptResult}
use job_queue_service.Session.Laws.{Rows, execute_first_safe, execute-IsSound, row-execute_miss}
use job_queue_service.Service.Owner.Verdict.{
  IsCounted, verdict, verdict-IsSafe, verdict-IsKeyed, apply_failed_attempt_lem,
}
use job_queue_service.Service.Sweep.{
  is_expired, expired_jobs, recover_one, recover_each, keep_result, recover_expired_leases,
  lease_expired_error,
}

-- A predicate of all that are found by primary key holds of every member.
pub All-find_id :
    (P : Job → Type 0) (l : List Job)
    → IsUnique l
    → ((i : ℕ) (j : Job) → find_id i l ≡ some j → P j)
    → All P l
All-find_id P [] u h = tt
All-find_id P (x ∷ l) u h = (
  h x.id x (find_id-head x l),
  All-find_id P l u.1 λ i j e. h i j (elim (Bool-cases (x.id == i)) [
    | inl hit ↦ absurd (ground (arith, u.0, e))
    | inr miss ↦ ground arith
  ]),
)

pub attempt_of-IsCounted :
    (j : Job)
    → IsSound j
    → j.status ≡ processing
    → (a : Attempt) × (attempt_of j ≡ some a) × IsCounted a
attempt_of-IsCounted j h runs = elim (Option-cases j.worker_id) [
  | inl none_there ↦ absurd (ground (arith, h.owned_worker runs, none_there))
  | inr (worker, w) ↦ elim (Option-cases j.execution_token) [
    | inl none_there ↦ absurd (ground (arith, h.owned_token runs, none_there))
    | inr (token, t) ↦ (
      record {
        job_id = j.id;
        worker_id = worker;
        execution_token = token;
        attempt_count = j.attempt_count;
        max_attempts = j.max_attempts;
      },
      rw (w, t) refl,
      record { limited = h.server_attempts; counted = h.owned_counted runs },
    )
  ]
]

verdict-expired :
    (a : Attempt) (e : String) (now : ℕ) (j : Job)
    → is_expired now j ≡ false
    → (verdict a e true now).guard j ≡ false
unfolding rescheduling giving_up
verdict-expired a e now j live = ground arith

module _ (db : Postgres) where
  open db use {Table, row, update, selected, select_ordered-IsUnique}

  -- The call returned, the rows are still sound, and every row whose lease has not expired is as it
  -- was.
  abbrev pub Recovered : {A : Type 0} → ℕ → Table → Result A × Table → Type 0
  Recovered {A} now t (r, t') =
      ((a : A) × (r ≡ ok a))
      × Rows db IsSound t'
      × ((i : ℕ) (j : Job) → row t i ≡ some j → is_expired now j ≡ false → row t' i ≡ some j)

  pub recover_one-Recovered :
      (now : ℕ) (job : Job) (t : Table)
      → Rows db IsSound t
      → IsSound job
      → job.status ≡ processing
      → Recovered now t (recover_one db now job t)
  unfolding recover_one
  recover_one-Recovered now job t sound h runs =
      let (a, at, c) = attempt_of-IsCounted job h runs in
      let v = verdict a lease_expired_error true now in
      let safe = verdict-IsSafe a lease_expired_error true now in
      rw
        (
          at,
          apply_failed_attempt_lem db a lease_expired_error true now c t,
          execute_first_safe db v safe t sound a.job_id
              (verdict-IsKeyed a lease_expired_error true now),
        )
        (
          (_, refl),
          execute-IsSound db v safe t sound,
          λ i j found live.
              row-execute_miss db v safe t sound i j found
                (verdict-expired a lease_expired_error now j live),
        )

  -- The loop over the batch, once each round of it has returned.
  pub recover_each_cons :
      (now : ℕ) (job : Job) (jobs : List Job) (t : Table) (r : Option AttemptResult)
      (rs : List AttemptResult)
      → (recover_one db now job t).0 ≡ ok r
      → (recover_each db now jobs (recover_one db now job t).1).0 ≡ ok rs
      → recover_each db now (job ∷ jobs) t
        ≡ (ok (keep_result r rs), (recover_each db now jobs (recover_one db now job t).1).1)
  unfolding recover_each
  recover_each_cons now job jobs t r rs one rest =
      after-ok _ (recover_one db now job t) r one
      ∙ after-ok (λ recovered. pure (keep_result r recovered))
          (recover_each db now jobs (recover_one db now job t).1) rs rest

  pub recover_each-Recovered :
      (now : ℕ) (jobs : List Job) (t : Table)
      → Rows db IsSound t
      → All (λ j. IsSound j × (j.status ≡ processing)) jobs
      → Recovered now t (recover_each db now jobs t)
  unfolding recover_each
  recover_each-Recovered now [] t sound h = (([], refl), sound, λ i j found live. found)
  recover_each-Recovered now (job ∷ jobs) t sound h =
      let ((r, one), sound', kept) = recover_one-Recovered now job t sound h.0.0 h.0.1 in
      let ((rs, rest), sound'', kept') = recover_each-Recovered now jobs _ sound' h.1 in
      let ends = recover_each_cons now job jobs t r rs one rest in
      subst (Recovered now t) (sym ends)
        ((_, refl), sound'', λ i j found live. kept' i j (kept i j found live) live)

  -- On a table of sound rows, a batch of recovery returns without raising, keeps the rows sound,
  -- and leaves every row that is not a processing job with an expired lease as it was.
  pub recover_expired_leases-Recovered :
      (locked : ℕ → Bool) (limit now : ℕ) (t : Table)
      → Rows db IsSound t
      → Recovered now t (recover_expired_leases db locked limit now t)
  unfolding recover_expired_leases
  recover_expired_leases-Recovered locked limit now t sound =
      let chosen =
        All-find_id (λ j. IsSound j × (j.status ≡ processing)) (expired_jobs db locked limit now t)
          (select_ordered-IsUnique (λ j. not (locked j.id) && is_expired now j)
            (λ j. j.lease_expires_at) limit t)
          (λ i j e.
            let (found, w) =
              selected (λ j. not (locked j.id) && is_expired now j) (λ j. j.lease_expires_at) limit
                t i j e in
            (sound i j found, ground arith)) in
      let ((rs, e), sound', kept) =
        recover_each-Recovered now (expired_jobs db locked limit now t) t sound chosen in
      rw e ((rs, refl), sound', kept)
