-- ===== src/Migration/Stranded.antt =====
-- A row that the upgrade released on its last attempt is never worked on again.
use job_queue_service.Prelude.{
  ℕ, ◌≤◌, ◌≡◌, ◌⊎◌, inl, inr, refl, ap, ◌∙◌, true, false, some, is_some, Bool-cases, arith,
}
use job_queue_service.Job.{Job, processing, cancelled}
use job_queue_service.Job.Sound.{is_waiting}
use job_queue_service.Postgres.{Postgres, updated}
use job_queue_service.Statement.{
  Statement, claiming, extending, progressing, completing, rescheduling, giving_up, activating,
  cancelling, restarting, releasing_key,
}
use job_queue_service.Statement.Safe.{
  Issued, Issued-IsSafe, claim, extend, report, complete, reschedule, give_up, activate, cancel,
  restart, release_key,
}
use job_queue_service.Service.Create.{build_job}
use job_queue_service.History.{Trace, here, sent, added, row-kept}
use job_queue_service.Session.{execute}
use job_queue_service.Migration.{releasing_unfenced, upgrade}
use job_queue_service.Migration.Released.{releasing_unfenced-KeepsId}

-- The job waits, with no attempt left, or has been cancelled.
abbrev pub IsStranded : Job → Type 0
IsStranded j =
    ((is_waiting j.status ≡ true) × (j.max_attempts ≤ j.attempt_count)) ⊎ (j.status ≡ cancelled)

Issued-IsStranded :
    {s : Statement}
    → Issued s
    → (j : Job) → IsStranded j
    → s.guard j ≡ true
    → IsStranded (s.change j)
unfolding claiming extending progressing completing rescheduling giving_up activating cancelling
    restarting releasing_key
Issued-IsStranded (claim i worker token now deadline) j h g = ground arith
Issued-IsStranded (extend a deadline) j h g = ground arith
Issued-IsStranded (report a p) j h g = ground arith
Issued-IsStranded (complete a result now) j h g = ground arith
Issued-IsStranded (reschedule a error due expired now) j h g = ground arith
Issued-IsStranded (give_up a error expired now) j h g = ground arith
Issued-IsStranded (activate due now) j h g = ground arith
Issued-IsStranded (cancel i) j h g = ground arith
Issued-IsStranded (restart i) j h g = ground arith
Issued-IsStranded (release_key key now) j h g = ground arith

-- What the upgrade makes of a row on its last attempt.
releasing_unfenced-IsStranded :
    (now : ℕ) (j : Job)
    → j.status ≡ processing
    → is_some j.execution_token ≡ false
    → j.attempt_count ≡ j.max_attempts
    → ((releasing_unfenced now).guard j ≡ true) × IsStranded ((releasing_unfenced now).change j)
unfolding releasing_unfenced
releasing_unfenced-IsStranded now j e e' e'' = (ground arith, inl (refl, omega arith))

module _ (db : Postgres) (P : ℕ → Type 0) (i : ℕ) where
  open db use {Table, row, row-update, rejects_update, update}

  -- A row that is stranded.
  abbrev pub Stays : Table → Type 0
  Stays t = (j : Job) × (row t i ≡ some j) × IsStranded j

  Trace-Stays : {t t' : Table} → Stays t → Trace db P t t' → Stays t'
  Trace-Stays h here = h
  Trace-Stays h (sent {t} {s} past issued minted ok) =
      let (j, found, stranded) = Trace-Stays h past in
      let at =
        row-update s.guard s.change t i (Issued-IsSafe issued).keeps_id ok
        ∙ ap (updated s.guard s.change) found in
      elim (Bool-cases (s.guard j)) [
        | inl g ↦ (s.change j, rw g at at, Issued-IsStranded issued j stranded g)
        | inr g ↦ (j, rw g at at, stranded)
      ]
  Trace-Stays h (added {t} id created now request key past new) =
      let (j, found, stranded) = Trace-Stays h past in
      (j, row-kept db P (build_job id created now request key) t i j new found, stranded)

  -- A job that was being processed without a token on its last attempt is never processed again
  -- after the upgrade, if no constraint refuses that: after any history of statements that the
  -- service sends and of rows that it inserts, it is still waiting, with no attempt left, or has
  -- been cancelled.
  pub upgrade-Stays :
      (now : ℕ) (t t' : Table) (j : Job)
      → row t i ≡ some j
      → j.status ≡ processing
      → is_some j.execution_token ≡ false
      → j.attempt_count ≡ j.max_attempts
      → rejects_update (releasing_unfenced now).guard (releasing_unfenced now).change t ≡ false
      → Trace db P (upgrade db now t).1 t'
      → Stays t'
  unfolding upgrade execute
  upgrade-Stays now t t' j found claimed unfenced last goes past =
      let (g, stranded) = releasing_unfenced-IsStranded now j claimed unfenced last in
      let at =
        row-update (releasing_unfenced now).guard (releasing_unfenced now).change t i
          (releasing_unfenced-KeepsId now) goes
        ∙ ap (updated (releasing_unfenced now).guard (releasing_unfenced now).change) found in
      Trace-Stays ((releasing_unfenced now).change j, rw g at at, stranded) (rw goes at past)
