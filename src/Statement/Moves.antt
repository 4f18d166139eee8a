-- ===== src/Statement/Moves.antt =====
-- What one statement does to one row: the status it moves the row to, and whose attempt it ends.
use job_queue_service.Prelude.{ℕ, ◌≡◌, true, false, ◌≢◌, arith}
use job_queue_service.Job.{Job, Attempt}
use job_queue_service.Job.Lifecycle.{◌⟶◌, transitions}
use job_queue_service.Statement.{
  Statement, owned_by, claiming, extending, progressing, completing, rescheduling, giving_up,
  activating, cancelling, restarting, releasing_key,
}
use job_queue_service.Statement.Safe.{
  Issued, claim, extend, report, complete, reschedule, give_up, activate, cancel, restart,
  release_key,
}

-- Every statement moves the status of a row along the diagram.
pub Issued-⟶ :
    {s : Statement} → Issued s → (j : Job) → s.guard j ≡ true → j.status ⟶ (s.change j).status
unfolding claiming extending progressing completing rescheduling giving_up activating cancelling
    restarting releasing_key
Issued-⟶ (claim i worker token now deadline) j g = grind (arith, transitions)
Issued-⟶ (extend a deadline) j g = grind (arith, transitions)
Issued-⟶ (report a p) j g = grind (arith, transitions)
Issued-⟶ (complete a result now) j g = grind (arith, transitions)
Issued-⟶ (reschedule a error due expired now) j g = grind (arith, transitions)
Issued-⟶ (give_up a error expired now) j g = grind (arith, transitions)
Issued-⟶ (activate due now) j g = grind (arith, transitions)
Issued-⟶ (cancel i) j g = grind (arith, transitions)
Issued-⟶ (restart i) j g = grind (arith, transitions)
Issued-⟶ (release_key key now) j g = grind (arith, transitions)

-- The tokens that a statement mints, a claim's, are among those that `P` allows.
abbrev pub Mints : (ℕ → Type 0) → {s : Statement} → Issued s → Type 0
Mints P (claim i worker token now deadline) = P token
Mints P _ = Unit

-- A statement that does not mint the attempt's token does not make it an owner.
pub Issued-stale :
    {s : Statement} (i : Issued s) (a : Attempt) (j : Job)
    → Mints (λ token. token ≢ a.execution_token) i
    → owned_by a j ≡ false
    → owned_by a (s.change j) ≡ false
unfolding claiming extending progressing completing rescheduling giving_up activating cancelling
    restarting releasing_key
Issued-stale (claim i worker token now deadline) a j f h = ground arith
Issued-stale (extend b deadline) a j f h = ground arith
Issued-stale (report b p) a j f h = ground arith
Issued-stale (complete b result now) a j f h = ground arith
Issued-stale (reschedule b error due expired now) a j f h = ground arith
Issued-stale (give_up b error expired now) a j f h = ground arith
Issued-stale (activate due now) a j f h = ground arith
Issued-stale (cancel i) a j f h = ground arith
Issued-stale (restart i) a j f h = ground arith
Issued-stale (release_key key now) a j f h = ground arith
