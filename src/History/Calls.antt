-- ===== src/History/Calls.antt =====
-- Every function of app/services/job_service.py that writes adds to a history what it commits.
use job_queue_service.Prelude.{
  ℕ, String, Bool, false, Option, none, some, map, Bool-cases, inl, inr, ◌+◌,
}
use job_queue_service.Prelude.Int.{ℤ}
use job_queue_service.Json.{Fields}
use job_queue_service.Job.{Job, Attempt, has_attempts_left}
use job_queue_service.Retry.{seconds, retry_delay_seconds}
use job_queue_service.Exec.{
  Result, ok, err, Exec, Error, after, or_raise, value_error, ownership_lost,
}
use job_queue_service.Config.{Settings}
use job_queue_service.Postgres.{Postgres}
use job_queue_service.Statement.{
  Statement, lease_deadline, extending, progressing, completing, rescheduling, giving_up,
}
use job_queue_service.Statement.Safe.{
  Issued, claim, extend, report, complete, reschedule, give_up, activate,
}
use job_queue_service.Statement.Moves.{Mints}
use job_queue_service.Session.{execute, execute_first}
use job_queue_service.Service.Claim.{claim_job}
use job_queue_service.Service.Owner.{
  written_or_raise, extend_lease, update_progress, complete_job, schedule_retry, fail_permanently,
  apply_failed_attempt, fail_attempt,
}
use job_queue_service.Service.Sweep.{due_jobs, activate_due_scheduled_jobs}
use job_queue_service.History.{Trace, sent}

module _ (db : Postgres) (P : ℕ → Type 0) where
  open db use {Table, rejects_update}

  -- What the call leaves in the table goes on from the history.
  abbrev pub Leads : {A : Type 0} → Table → Result A × Table → Type 0
  Leads t x = Trace db P t x.1

  pub after-Leads :
      {A B : Type 0} {t : Table} (f : A → Exec Table B) (x : Result A × Table)
      → Leads t x
      → ((a : A) (s : Table) → Trace db P t s → Leads t (f a s))
      → Leads t (after f x)
  after-Leads f (ok a, s) h next = next a s h
  after-Leads f (err e, s) h next = h

  pub or_raise-Leads :
      {A : Type 0} {t : Table} (o : Option A) (e : Error) (s : Table)
      → Trace db P t s
      → Leads t (or_raise o e s)
  or_raise-Leads none e s h = h
  or_raise-Leads (some a) e s h = h

  pub execute-Leads :
      {t : Table} {s : Statement} (issued : Issued s) (now : Table)
      → Mints P issued
      → Trace db P t now
      → Leads t (execute db s now)
  unfolding execute
  execute-Leads {t} {s} issued now minted h =
      elim (Bool-cases (rejects_update s.guard s.change now)) [
        | inl refused ↦ rw refused h
        | inr goes ↦ rw goes (sent h issued minted goes)
      ]

  pub execute_first-Leads :
      {t : Table} {s : Statement} (issued : Issued s) (now : Table)
      → Mints P issued
      → Trace db P t now
      → Leads t (execute_first db s now)
  unfolding execute_first
  execute_first-Leads {t} {s} issued now minted h =
      after-Leads _ (execute db s now) (execute-Leads issued now minted h) (λ rows t' h'. h')

  module _ {t : Table} (s : Table) (h : Trace db P t s) where
    pub claim_job-Leads :
        (settings : Settings) (i worker token now : ℕ) (lease : Option ℕ)
        → P token
        → Leads t (claim_job db settings i worker token now lease s)
    unfolding claim_job
    claim_job-Leads settings i worker token now lease p =
        execute_first-Leads
          (claim i worker token now (lease_deadline settings.job_lease_seconds lease now)) s p h

    pub extend_lease-Leads :
        (settings : Settings) (a : Attempt) (now : ℕ) (lease : Option ℕ)
        → Leads t (extend_lease db settings a now lease s)
    unfolding extend_lease
    extend_lease-Leads settings a now lease =
        after-Leads _
          (execute_first db (extending a (lease_deadline settings.job_lease_seconds lease now)) s)
          (execute_first-Leads (extend a (lease_deadline settings.job_lease_seconds lease now)) s tt
            h)
          (λ j s' h'. or_raise-Leads _ (ownership_lost a) s' h')

    written-Leads :
        (a : Attempt) (j : Option Job) (s' : Table)
        → Trace db P t s'
        → Leads t (written_or_raise a j s')
    written-Leads a none s' h' = h'
    written-Leads a (some j) s' h' = h'

    pub update_progress-Leads : (a : Attempt) (p : ℤ) → Leads t (update_progress db a p s)
    unfolding update_progress
    update_progress-Leads a p =
        after-Leads _ (execute_first db (progressing a p) s)
          (execute_first-Leads (report a p) s tt h) (written-Leads a)

    pub complete_job-Leads :
        (a : Attempt) (r : Fields) (now : ℕ) → Leads t (complete_job db a r now s)
    unfolding complete_job
    complete_job-Leads a r now =
        after-Leads _ (execute_first db (completing a r now) s)
          (execute_first-Leads (complete a r now) s tt h)
          (λ j s' h'. or_raise-Leads j (ownership_lost a) s' h')

    schedule_retry-Leads :
        (a : Attempt) (e : String) (x : Bool) (now : ℕ) → Leads t (schedule_retry db a e x now s)
    unfolding schedule_retry
    schedule_retry-Leads a e x now =
        after-Leads _ (or_raise (retry_delay_seconds a.attempt_count) value_error s)
          (or_raise-Leads (retry_delay_seconds a.attempt_count) value_error s h)
          λ delay s' h'.
            after-Leads _ (execute_first db (rescheduling a e (now + seconds delay) x now) s')
              (execute_first-Leads (reschedule a e (now + seconds delay) x now) s' tt h')
              (λ j s'' h''. h'')

    fail_permanently-Leads :
        (a : Attempt) (e : String) (x : Bool) (now : ℕ) → Leads t (fail_permanently db a e x now s)
    unfolding fail_permanently
    fail_permanently-Leads a e x now =
        after-Leads _ (execute_first db (giving_up a e x now) s)
          (execute_first-Leads (give_up a e x now) s tt h) (λ j s' h'. h')

    pub apply_failed_attempt-Leads :
        (a : Attempt) (e : String) (x : Bool) (now : ℕ)
        → Leads t (apply_failed_attempt db a e x now s)
    unfolding apply_failed_attempt
    apply_failed_attempt-Leads a e x now = elim (Bool-cases (has_attempts_left a)) [
      | inl left ↦ rw left (schedule_retry-Leads a e x now)
      | inr spent ↦ rw spent (fail_permanently-Leads a e x now)
    ]

    pub fail_attempt-Leads :
        (a : Attempt) (e : String) (now : ℕ) → Leads t (fail_attempt db a e now s)
    unfolding fail_attempt
    fail_attempt-Leads a e now =
        after-Leads _ (apply_failed_attempt db a e false now s)
          (apply_failed_attempt-Leads a e false now)
          (λ r s' h'. or_raise-Leads r (ownership_lost a) s' h')

    pub activate_due_scheduled_jobs-Leads :
        (locked : ℕ → Bool) (limit now : ℕ)
        → Leads t (activate_due_scheduled_jobs db locked limit now s)
    unfolding activate_due_scheduled_jobs
    activate_due_scheduled_jobs-Leads locked limit now =
        execute-Leads (activate (map (λ j. j.id) (due_jobs db locked limit now s)) now) s tt h
