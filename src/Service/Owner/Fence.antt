-- ===== src/Service/Owner/Fence.antt =====
-- The fence: a worker whose attempt is no longer the owner writes nothing.
use job_queue_service.Prelude.{ℕ, String, ◌≡◌, refl, Option, none, some, arith, Bool, false, ◌∙◌}
use job_queue_service.Prelude.Int.{ℤ}
use job_queue_service.Json.{Fields}
use job_queue_service.Job.{Job, Attempt}
use job_queue_service.Job.Sound.{IsSound}
use job_queue_service.Exec.{after-ok, Result, Exec, err, ownership_lost, ◌>>=◌}
use job_queue_service.Config.{Settings}
use job_queue_service.Postgres.{Postgres}
use job_queue_service.Statement.{
  extending, progressing, completing, rescheduling, giving_up, owned_by, lease_deadline,
}
use job_queue_service.Statement.Safe.{extending-IsSafe, progressing-IsSafe, completing-IsSafe}
use job_queue_service.Session.{execute_first}
use job_queue_service.Session.Laws.{Rows, Refused, SameRows, execute_first-Refused}
use job_queue_service.Service.Owner.Verdict.{
  IsCounted, verdict, verdict-IsSafe, verdict-IsKeyed, apply_failed_attempt_lem, extending-IsKeyed,
  progressing-IsKeyed, completing-IsKeyed,
}
use job_queue_service.Service.Owner.{extend_lease, update_progress, complete_job, fail_attempt}

module _ (db : Postgres) where
  open db use {Table, row}

  -- The call raised `OwnershipLostError` and changed no row.
  abbrev pub Lost : {A : Type 0} → Attempt → Table → Result A × Table → Type 0
  Lost a t (r, t') = (r ≡ err (ownership_lost a)) × SameRows db t t'

  -- The attempt does not own its job.
  abbrev pub IsStale : Attempt → Table → Type 0
  IsStale a t = (j : Job) → row t a.job_id ≡ some j → owned_by a j ≡ false

  raise-Lost :
      {A : Type 0} (a : Attempt) (t : Table) (m : Exec Table (Option Job))
      (next : Option Job → Exec Table A)
      → ((t' : Table) → next none t' ≡ (err (ownership_lost a), t'))
      → Refused db t (m t)
      → Lost a t ((m >>= next) t)
  raise-Lost a t m next raises (e, same) =
      rw (after-ok next (m t) none e ∙ raises (m t).1) (refl, same)

  module _ (a : Attempt) (t : Table) (sound : Rows db IsSound t) (stale : IsStale a t) where
    pub extend_lease-Lost :
        (settings : Settings) (now : ℕ) (lease : Option ℕ)
        → Lost a t (extend_lease db settings a now lease t)
    unfolding extend_lease extending
    extend_lease-Lost settings now lease =
        let d = lease_deadline settings.job_lease_seconds lease now in
        raise-Lost a t (execute_first db (extending a d)) _ (λ t'. refl)
          (execute_first-Refused db (extending a d) (extending-IsSafe a d) t sound a.job_id
            (extending-IsKeyed a d) stale)

    pub update_progress-Lost : (p : ℤ) → Lost a t (update_progress db a p t)
    unfolding update_progress progressing
    update_progress-Lost p =
        raise-Lost a t (execute_first db (progressing a p)) _ (λ t'. refl)
          (execute_first-Refused db (progressing a p) (progressing-IsSafe a p) t sound a.job_id
            (progressing-IsKeyed a p) stale)

    pub complete_job-Lost : (r : Fields) (now : ℕ) → Lost a t (complete_job db a r now t)
    unfolding complete_job completing
    complete_job-Lost r now =
        raise-Lost a t (execute_first db (completing a r now)) _ (λ t'. refl)
          (execute_first-Refused db (completing a r now) (completing-IsSafe a r now) t sound
            a.job_id (completing-IsKeyed a r now) stale)

    verdict_refused :
        (e : String) (x : Bool) (now : ℕ) (j : Job)
        → row t a.job_id ≡ some j
        → (verdict a e x now).guard j ≡ false
    unfolding rescheduling giving_up
    verdict_refused e x now j found = ground (arith, stale j found)

    pub fail_attempt-Lost :
        IsCounted a → (e : String) (now : ℕ) → Lost a t (fail_attempt db a e now t)
    unfolding fail_attempt
    fail_attempt-Lost c e now =
        let (missed, same) =
          execute_first-Refused db (verdict a e false now) (verdict-IsSafe a e false now) t sound
            a.job_id (verdict-IsKeyed a e false now) (verdict_refused e false now) in
        rw (apply_failed_attempt_lem db a e false now c t)
          (rw (after-ok _ (execute_first db (verdict a e false now) t) none missed) (refl, same))

  -- Every write of a worker that has lost its job, the heartbeat's, the progress report's, the
  -- completion and the failure, raises `OwnershipLostError` and changes no row.
  pub stale_writes_rejected :
      (settings : Settings) (a : Attempt) (t : Table)
      → Rows db IsSound t
      → IsCounted a
      → IsStale a t
      → (now : ℕ) (lease : Option ℕ) (progress : ℤ) (result : Fields) (error : String)
      → Lost a t (extend_lease db settings a now lease t)
        × Lost a t (update_progress db a progress t)
        × Lost a t (complete_job db a result now t)
        × Lost a t (fail_attempt db a error now t)
  stale_writes_rejected settings a t sound c stale now lease progress result error = (
    extend_lease-Lost a t sound stale settings now lease,
    update_progress-Lost a t sound stale progress,
    complete_job-Lost a t sound stale result now,
    fail_attempt-Lost a t sound stale c error now,
  )
