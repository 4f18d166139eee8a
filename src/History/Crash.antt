-- ===== src/History/Crash.antt =====
-- What becomes of a job whose worker stops after its claim: recovery, the scheduler and a later claim.
use job_queue_service.Prelude.{
  ℕ, String, ltb, leb, ◌+◌, ◌≤◌, ◌<◌, ◌≡◌, ◌≢◌, refl, sym, subst, ap, ◌∙◌, Bool, true, false,
  Option, some, some_injective, List, length, arith,
}
use job_queue_service.Prelude.Int.{ℤ}
use job_queue_service.Json.{Fields}
use job_queue_service.Job.{Job, Attempt, pending}
use job_queue_service.Job.Sound.{IsSound}
use job_queue_service.Retry.{seconds}
use job_queue_service.Exec.{ok}
use job_queue_service.Config.{Settings}
use job_queue_service.Postgres.{Postgres}
use job_queue_service.Statement.{lease_deadline, owned_by}
use job_queue_service.Session.Laws.{Rows}
use job_queue_service.Service.Claim.{claim_job}
use job_queue_service.Service.Claim.Exclusive.{claimed, claim_job-Wrote, claim_job-IsSound}
use job_queue_service.Service.Owner.{extend_lease, update_progress, complete_job, fail_attempt}
use job_queue_service.Service.Owner.Fence.{IsStale, Lost, stale_writes_rejected}
use job_queue_service.Service.Owner.Settle.{waiting_until}
use job_queue_service.Service.Owner.Verdict.{IsCounted, backoff}
use job_queue_service.Service.Sweep.{
  expired_jobs, recover_expired_leases, activate_due_scheduled_jobs, lease_expired_error,
}
use job_queue_service.Service.Sweep.Ended.{ended}
use job_queue_service.Service.Sweep.Taken.{
  recover_expired_leases-ends, activate_due_scheduled_jobs-activates,
}
use job_queue_service.History.{Trace-IsSound, here}
use job_queue_service.History.Calls.{activate_due_scheduled_jobs-Leads}
use job_queue_service.History.Requests.{recover_expired_leases-Leads}

-- The attempt that a claim of the job hands out.
abbrev pub first_attempt : ℕ → ℕ → Job → Attempt
first_attempt worker token j = record {
  job_id = j.id;
  worker_id = worker;
  execution_token = token;
  attempt_count = j.attempt_count + 1;
  max_attempts = j.max_attempts;
}

first_attempt-IsCounted :
    (worker token : ℕ) (j : Job)
    → IsSound j
    → j.status ≡ pending
    → IsCounted (first_attempt worker token j)
first_attempt-IsCounted worker token j h waits = record {
  limited = ground arith;
  counted = omega arith;
}

module _ (db : Postgres) (settings : Settings) (i worker token now : ℕ) (lease : Option ℕ)
    (t : db.Table) where
  open db use {Table, row, row-id}

  -- The table after a claim, after the sweep of recovery that follows, and after the batch of the
  -- scheduler that follows that one.
  abbrev pub after_claim : Table
  after_claim = (claim_job db settings i worker token now lease t).1

  abbrev pub after_recovery : (ℕ → Bool) → ℕ → ℕ → Table
  after_recovery locked limit late = (recover_expired_leases db locked limit late after_claim).1

  abbrev pub after_activation : (ℕ → Bool) → ℕ → ℕ → (ℕ → Bool) → ℕ → ℕ → Table
  after_activation locked limit late locked' limit' due =
      (activate_due_scheduled_jobs db locked' limit' due (after_recovery locked limit late)).1

  -- The row that the claim leaves, and what recovery and the scheduler make of it.
  abbrev crashed : Job → Job
  crashed = claimed worker token now (lease_deadline settings.job_lease_seconds lease now)

  abbrev resting : ℕ → Job → Job
  resting late j =
      waiting_until (late + seconds (backoff (j.attempt_count + 1))) lease_expired_error (crashed j)

  abbrev revived : ℕ → Job → Job
  revived late j = record (resting late j) { status = pending }

  ended-resting :
      (late : ℕ) (j : Job)
      → j.attempt_count + 1 < j.max_attempts
      → ended late (crashed j) ≡ resting late j
  ended-resting late j left =
      let more : ltb (j.attempt_count + 1) j.max_attempts ≡ true = ground (arith, left) in
      rw more refl

  after_recovery-IsSound :
      (locked : ℕ → Bool) (limit late : ℕ)
      → Rows db IsSound t
      → Rows db IsSound (after_recovery locked limit late)
  after_recovery-IsSound locked limit late sound =
      Trace-IsSound db (λ n. Unit) (claim_job-IsSound db settings i worker token now lease t sound)
        (recover_expired_leases-Leads db (λ n. Unit) locked limit late after_claim here)

  after_activation-IsSound :
      (locked : ℕ → Bool) (limit late : ℕ) (locked' : ℕ → Bool) (limit' due : ℕ)
      → Rows db IsSound t
      → Rows db IsSound (after_activation locked limit late locked' limit' due)
  after_activation-IsSound locked limit late locked' limit' due sound =
      Trace-IsSound db (λ n. Unit) (after_recovery-IsSound locked limit late sound)
        (activate_due_scheduled_jobs-Leads db (λ n. Unit) (after_recovery locked limit late) here
          locked' limit' due)

  -- The row is pending again.
  row-revived :
      (locked locked' : ℕ → Bool) (limit late limit' due : ℕ) (j : Job) (activated : List Job)
      → Rows db IsSound t
      → row t i ≡ some j
      → j.status ≡ pending
      → j.attempt_count + 1 < j.max_attempts
      → lease_deadline settings.job_lease_seconds lease now < late
      → locked i ≡ false
      → length (expired_jobs db locked limit late after_claim) < limit
      → late + seconds (backoff (j.attempt_count + 1)) ≤ due
      → locked' i ≡ false
      → (activate_due_scheduled_jobs db locked' limit' due (after_recovery locked limit late)).0
        ≡ ok activated
      → length activated < limit'
      → row (after_activation locked limit late locked' limit' due) i ≡ some (revived late j)
  row-revived locked locked' limit late limit' due j activated sound found waits left expires free
        few waited free' returns few' =
      let (_, claims, _) =
        claim_job-Wrote db settings i worker token now lease t sound j found waits in
      let sound' = claim_job-IsSound db settings i worker token now lease t sound in
      let ends =
        recover_expired_leases-ends db locked limit late i after_claim (crashed j) sound' claims
          (ltb_true expires) free few in
      let rests : row (after_recovery locked limit late) i ≡ some (resting late j) =
        ends ∙ ap some (ended-resting late j left) in
      activate_due_scheduled_jobs-activates db locked' limit' due i
        (after_recovery locked limit late) (resting late j) activated
        (after_recovery-IsSound locked limit late sound) rests (leb_true waited) free' returns few'
    where
      ltb_true : {a b : ℕ} → a < b → ltb a b ≡ true
      ltb_true h = ground (arith, h)

      leb_true : {a b : ℕ} → a ≤ b → leb a b ≡ true
      leb_true h = ground (arith, h)

  refused :
      (worker' token' now' deadline : ℕ) (j k : Job)
      → token ≢ token'
      → owned_by (first_attempt worker token j) (claimed worker' token' now' deadline k) ≡ false
  refused worker' token' now' deadline j k fresh = ground (arith, fresh)

  -- A worker stops after its claim of a pending job that has two attempts left, on a table of sound
  -- rows. Once the lease is over, a batch of recovery that is not full and finds the row unlocked,
  -- then a batch of the scheduler, 30 or 120 seconds later, that is not full and finds it unlocked,
  -- and then another claim give the job to the next worker, with one attempt more; and the
  -- heartbeat, the progress report, the completion and the failure of the first attempt, if its
  -- worker comes back, each raise `OwnershipLostError` and change no row, provided that the second
  -- claim mints another token. Nothing else is written in between.
  pub claim_job-reclaims :
      (locked locked' : ℕ → Bool) (limit late limit' due worker' token' now' again : ℕ)
      (lease' lease'' : Option ℕ) (progress : ℤ) (result : Fields) (error : String) (j : Job)
      (activated : List Job)
      → Rows db IsSound t
      → row t i ≡ some j
      → j.status ≡ pending
      → j.attempt_count + 1 < j.max_attempts
      → lease_deadline settings.job_lease_seconds lease now < late
      → locked i ≡ false
      → length (expired_jobs db locked limit late after_claim) < limit
      → late + seconds (backoff (j.attempt_count + 1)) ≤ due
      → locked' i ≡ false
      → (activate_due_scheduled_jobs db locked' limit' due (after_recovery locked limit late)).0
        ≡ ok activated
      → length activated < limit'
      → token ≢ token'
      → let a = first_attempt worker token j in
        let x =
          claim_job db settings i worker' token' now' lease'
            (after_activation locked limit late locked' limit' due) in
        ((k : Job) × (x.0 ≡ ok (some k))
          × (row x.1 i ≡ some k)
          × (k.worker_id ≡ some worker')
          × (k.attempt_count ≡ j.attempt_count + 2))
        × Lost db a x.1 (extend_lease db settings a again lease'' x.1)
        × Lost db a x.1 (update_progress db a progress x.1)
        × Lost db a x.1 (complete_job db a result again x.1)
        × Lost db a x.1 (fail_attempt db a error again x.1)
  claim_job-reclaims locked locked' limit late limit' due worker' token' now' again lease' lease''
        progress result error j activated sound found waits left expires free few waited free'
        returns few' fresh =
      let t' = after_activation locked limit late locked' limit' due in
      let sound' = after_activation-IsSound locked limit late locked' limit' due sound in
      let again_pending =
        row-revived locked locked' limit late limit' due j activated sound found waits left expires
          free few waited free' returns few' in
      let (won, at, _) =
        claim_job-Wrote db settings i worker' token' now' lease' t' sound' (revived late j)
          again_pending refl in
      let stale : IsStale db (first_attempt worker token j)
          (claim_job db settings i worker' token' now' lease' t').1 =
        λ k held.
          let here : row (claim_job db settings i worker' token' now' lease' t').1 i ≡ some k =
            subst (λ n. row (claim_job db settings i worker' token' now' lease' t').1 n ≡ some k)
              (row-id t i j found) held in
          subst (λ x. owned_by (first_attempt worker token j) x ≡ false)
            (some_injective (sym at ∙ here))
            (refused worker' token' now' (lease_deadline settings.job_lease_seconds lease' now') j
              (revived late j) fresh) in
      let (beats, reports, completes, fails) =
        stale_writes_rejected db settings (first_attempt worker token j)
          (claim_job db settings i worker' token' now' lease' t').1
          (claim_job-IsSound db settings i worker' token' now' lease' t' sound')
          (first_attempt-IsCounted worker token j (sound i j found) waits) stale again lease''
          progress result error in
      ((_, won, at, refl, omega arith), beats, reports, completes, fails)
