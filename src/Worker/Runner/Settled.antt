-- ===== src/Worker/Runner/Settled.antt =====
-- How an attempt ends: the worker settles it without raising, and silently once it has lost it.
use job_queue_service.Prelude.{ℕ, String, ◌≡◌, refl, sym, false, Option-cases, inl, inr}
use job_queue_service.Json.{Fields}
use job_queue_service.Job.{Attempt}
use job_queue_service.Job.Sound.{IsSound}
use job_queue_service.Exec.{
  Result, ok, err, Exec, job_not_found, job_conflict, ownership_lost, integrity_error, value_error,
  unavailable,
}
use job_queue_service.Postgres.{Postgres, matched}
use job_queue_service.Redis.{Redis, Uuids}
use job_queue_service.Statement.{completing}
use job_queue_service.Statement.Safe.{completing-IsSafe}
use job_queue_service.Session.Laws.{Rows, SameRows, execute_first_safe}
use job_queue_service.Service.Mutate.{Stores, on_table}
use job_queue_service.Service.Owner.{complete_job, fail_attempt}
use job_queue_service.Service.Owner.Verdict.{
  IsCounted, verdict, verdict-IsSafe, verdict-IsKeyed, apply_failed_attempt_lem, completing-IsKeyed,
}
use job_queue_service.Service.Owner.Fence.{IsStale, Lost, complete_job-Lost, fail_attempt-Lost}
use job_queue_service.Queue.{Link, answered, lost, timed_out}
use job_queue_service.Worker.Runner.{
  Ending, unregistered, returned, failed_with, crashed, lost_ownership, unless_lost,
  execute_attempt, settle, settle_success, settle_failure,
}

module _ (db : Postgres) (redis : Redis) (uuids : Uuids) where
  open db use {Table, row}

  -- The call returned and left both stores as they were.
  abbrev pub Silent : Stores db redis uuids → Result (Unit {0}) × Stores db redis uuids → Type 0
  Silent s (r, s') = (r ≡ ok tt) × SameRows db s.0 s'.0 × (s'.1 ≡ s.1)

  unless_lost-Silent :
      {A : Type 0} (a : Attempt) (s : Stores db redis uuids) (m : Exec Table A)
      → Lost db a s.0 (m s.0)
      → Silent s (unless_lost (on_table m s))
  unless_lost-Silent a s m (missed, same) = rw missed (refl, same, refl)

  pub settle-Silent :
      (a : Attempt) (ending : Ending) (now : ℕ) (s : Stores db redis uuids)
      → Rows db IsSound s.0
      → IsCounted a
      → IsStale db a s.0
      → Silent s (settle db redis uuids a ending answered now s)
  unfolding settle settle_success settle_failure
  settle-Silent a (unregistered error) now s sound c stale =
      unless_lost-Silent a s (fail_attempt db a error now)
        (fail_attempt-Lost db a s.0 sound stale c error now)
  settle-Silent a (returned result) now s sound c stale =
      unless_lost-Silent a s (complete_job db a result now)
        (complete_job-Lost db a s.0 sound stale result now)
  settle-Silent a (failed_with error) now s sound c stale =
      unless_lost-Silent a s (fail_attempt db a error now)
        (fail_attempt-Lost db a s.0 sound stale c error now)
  settle-Silent a (crashed error) now s sound c stale =
      unless_lost-Silent a s (fail_attempt db a error now)
        (fail_attempt-Lost db a s.0 sound stale c error now)
  settle-Silent a lost_ownership now s sound c stale = (refl, λ k. refl, refl)

  -- A counted attempt that no longer owns its job by the time its handler has ended, on a table of
  -- sound rows, is settled without raising and without a write to either store, however the handler
  -- ended.
  pub execute_attempt-Silent :
      (a : Attempt) (running : Stores db redis uuids → Ending × Stores db redis uuids) (now : ℕ)
      (s : Stores db redis uuids)
      → Rows db IsSound (running s).1.0
      → IsCounted a
      → IsStale db a (running s).1.0
      → Silent (running s).1 (execute_attempt db redis uuids a running answered now s)
  unfolding execute_attempt
  execute_attempt-Silent a running now s sound c stale =
      settle-Silent a (running s).0 now (running s).1 sound c stale

  module _ (a : Attempt) (s : Stores db redis uuids) (sound : Rows db IsSound s.0) where
    settle_success-ok :
        (result : Fields) (now : ℕ)
        → (settle_success db redis uuids a result answered now s).0 ≡ ok tt
    unfolding settle_success complete_job
    settle_success-ok result now =
        rw
          (execute_first_safe db (completing a result now) (completing-IsSafe a result now) s.0
            sound a.job_id (completing-IsKeyed a result now))
          (elim (Option-cases (
            matched (completing a result now).guard (completing a result now).change
              (row s.0 a.job_id))) [ inl gone ↦ rw gone refl | inr (j, found) ↦ rw found refl ])

    settle_failure-ok :
        IsCounted a
        → (error : String) (now : ℕ)
        → (settle_failure db redis uuids a error answered now s).0 ≡ ok tt
    unfolding settle_failure fail_attempt
    settle_failure-ok c error now =
        let v = verdict a error false now in
        rw
          (
            apply_failed_attempt_lem db a error false now c s.0,
            execute_first_safe db v (verdict-IsSafe a error false now) s.0 sound a.job_id
                (verdict-IsKeyed a error false now),
          )
          (elim (Option-cases (matched v.guard v.change (row s.0 a.job_id))) [
            | inl gone ↦ rw gone refl
            | inr (j, found) ↦ rw found refl
          ])

  pub settle-ok :
      (a : Attempt) (ending : Ending) (now : ℕ) (s : Stores db redis uuids)
      → Rows db IsSound s.0
      → IsCounted a
      → (settle db redis uuids a ending answered now s).0 ≡ ok tt
  unfolding settle
  settle-ok a (unregistered error) now s sound c = settle_failure-ok a s sound c error now
  settle-ok a (returned result) now s sound c = settle_success-ok a s sound result now
  settle-ok a (failed_with error) now s sound c = settle_failure-ok a s sound c error now
  settle-ok a (crashed error) now s sound c = settle_failure-ok a s sound c error now
  settle-ok a lost_ownership now s sound c = refl

  unless_lost-same : {A : Type 0} (x : Result A × Stores db redis uuids) → (unless_lost x).1 ≡ x.1
  unless_lost-same (ok a, s) = refl
  unless_lost-same (err (job_not_found i), s) = refl
  unless_lost-same (err (job_conflict i m j), s) = refl
  unless_lost-same (err (ownership_lost a), s) = refl
  unless_lost-same (err (integrity_error c), s) = refl
  unless_lost-same (err value_error, s) = refl
  unless_lost-same (err unavailable, s) = refl

  -- What the settlement of an attempt returns: without an answer, the error of the database, unless
  -- there is nothing to write.
  abbrev pub reply : Link → Ending → Result (Unit {0})
  reply answered ending = ok tt
  reply link lost_ownership = ok tt
  reply link ending = err unavailable

  -- What it leaves is what it leaves when it is answered, if it arrives.
  abbrev pub arrived : Link → Stores db redis uuids → Stores db redis uuids → Stores db redis uuids
  arrived answered after before = after
  arrived lost after before = before
  arrived timed_out after before = after

  pub settle-reply :
      (a : Attempt) (ending : Ending) (link : Link) (now : ℕ) (s : Stores db redis uuids)
      → Rows db IsSound s.0
      → IsCounted a
      → ((settle db redis uuids a ending link now s).0 ≡ reply link ending)
        × ((settle db redis uuids a ending link now s).1
            ≡ arrived link (settle db redis uuids a ending answered now s).1 s)
  unfolding settle settle_success settle_failure
  settle-reply a ending answered now s sound c = (settle-ok a ending now s sound c, refl)
  settle-reply a (unregistered error) lost now s sound c = (refl, refl)
  settle-reply a (returned result) lost now s sound c = (refl, refl)
  settle-reply a (failed_with error) lost now s sound c = (refl, refl)
  settle-reply a (crashed error) lost now s sound c = (refl, refl)
  settle-reply a lost_ownership lost now s sound c = (refl, refl)
  settle-reply a (unregistered error) timed_out now s sound c =
      (refl, sym (unless_lost-same (on_table (fail_attempt db a error now) s)))
  settle-reply a (returned result) timed_out now s sound c =
      (refl, sym (unless_lost-same (on_table (complete_job db a result now) s)))
  settle-reply a (failed_with error) timed_out now s sound c =
      (refl, sym (unless_lost-same (on_table (fail_attempt db a error now) s)))
  settle-reply a (crashed error) timed_out now s sound c =
      (refl, sym (unless_lost-same (on_table (fail_attempt db a error now) s)))
  settle-reply a lost_ownership timed_out now s sound c = (refl, refl)

  -- Settling a counted attempt on a table of sound rows, with an answer of the database, never
  -- raises, whatever the handler did and
  -- whoever owns the job by then.
  pub execute_attempt-ok :
      (a : Attempt) (running : Stores db redis uuids → Ending × Stores db redis uuids) (now : ℕ)
      (s : Stores db redis uuids)
      → Rows db IsSound (running s).1.0
      → IsCounted a
      → (execute_attempt db redis uuids a running answered now s).0 ≡ ok tt
  unfolding execute_attempt
  execute_attempt-ok a running now s sound c = settle-ok a (running s).0 now (running s).1 sound c
