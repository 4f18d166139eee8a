-- ===== src/Worker/Heartbeat/Loss.antt =====
-- The loop of beats sets its event only on a job that is lost.
use job_queue_service.Prelude.{
  ℕ, ◌≡◌, ◌⊎◌, refl, sym, ap, subst, ◌∙◌, Bool, true, false, Option, List, [], ◌∷◌, All, Bool-cases,
  inl, inr, arith,
}
use job_queue_service.Job.{Attempt}
use job_queue_service.Job.Sound.{IsSound}
use job_queue_service.Exec.{
  Result, ok, err, unavailable, job_not_found, job_conflict, ownership_lost, integrity_error,
  value_error, after-ok,
}
use job_queue_service.Config.{Settings}
use job_queue_service.Postgres.{Postgres}
use job_queue_service.Queue.{answered, lost, timed_out, Link}
use job_queue_service.Session.Laws.{Rows}
use job_queue_service.Service.Owner.{extend_lease}
use job_queue_service.Service.Owner.Fence.{IsStale, extend_lease-Lost}
use job_queue_service.Service.Owner.Settle.{extend_lease-Settled}
use job_queue_service.History.{here, Trace-IsSound}
use job_queue_service.History.Calls.{extend_lease-Leads}
use job_queue_service.Worker.Heartbeat.{Turn, beat, run, owns, owned_row, go_on, noted}

module _ (db : Postgres) (settings : Settings) (a : Attempt) (lease : Option ℕ) where
  open db use {Table, row}

  noted-IsSound :
      (event : Bool) (x : Result ℕ × Table)
      → Rows db IsSound x.1
      → Rows db IsSound (noted db event x).1.0
  noted-IsSound event (ok deadline, t) h = h
  noted-IsSound event (err (job_not_found i), t) h = h
  noted-IsSound event (err (job_conflict i m s), t) h = h
  noted-IsSound event (err (ownership_lost b), t) h = h
  noted-IsSound event (err (integrity_error c), t) h = h
  noted-IsSound event (err value_error, t) h = h
  noted-IsSound event (err unavailable, t) h = h

  pub beat-IsSound :
      (link : Link) (now : ℕ) (t : Table) (event : Bool)
      → Rows db IsSound t
      → Rows db IsSound (beat db settings a lease link now (t, event)).1.0
  unfolding beat
  beat-IsSound answered now t event sound =
      noted-IsSound event (extend_lease db settings a now lease t) (
        Trace-IsSound db (λ token. ⊥) sound
          (extend_lease-Leads db (λ token. ⊥) t here settings a now lease))
  beat-IsSound lost now t event sound = sound
  beat-IsSound timed_out now t event sound =
      Trace-IsSound db (λ token. ⊥) sound
        (extend_lease-Leads db (λ token. ⊥) t here settings a now lease)

  -- A beat that sets the event has found the job lost, and one that does not returns `True`.
  beat_event :
      (link : Link) (now : ℕ) (t : Table)
      → Rows db IsSound t
      → let x = beat db settings a lease link now (t, false) in
        ((x.0 ≡ ok true) × (x.1.1 ≡ false)) ⊎ ((x.0 ≡ ok false) × IsStale db a x.1.0)
  unfolding beat
  beat_event answered now t sound = elim (Bool-cases (owns db a (row t a.job_id))) [
    | inl g ↦
        let (j, found, holds) = owned_row db a (row t a.job_id) g in
        let (extended, _, _) = extend_lease-Settled db a t sound j found holds settings now lease in
        rw extended (inl (refl, refl))
    | inr g ↦
        let stale : IsStale db a t = λ j found. rw found at g in
        let (refused, same) = extend_lease-Lost db a t sound stale settings now lease in
        rw refused (inr (refl, λ j found. stale j (sym (same a.job_id) ∙ found)))
  ]
  beat_event lost now t sound = inl (refl, refl)
  beat_event timed_out now t sound = inl (refl, refl)

  -- If the event is set at the end, the attempt does not own the job.
  abbrev Reported : Result (Unit {0}) × (Table × Bool) → Type 0
  Reported x = x.1.1 ≡ true → IsStale db a x.1.0

  -- If the heartbeat's loop, started with its event unset on a table of sound rows, ends with the
  -- event set, where what others write meanwhile leaves the rows sound, then its attempt does not
  -- own the job in the table that it leaves.
  pub run-IsStale :
      (turns : List (Turn db)) (t : Table)
      → All (λ turn. (t' : Table) → Rows db IsSound t' → Rows db IsSound (turn.others t')) turns
      → Rows db IsSound t
      → (run db settings a lease turns (t, false)).1.1 ≡ true
      → IsStale db a (run db settings a lease turns (t, false)).1.0
  unfolding run
  run-IsStale [] t keeps sound e = absurd (cc)
  run-IsStale (turn ∷ turns) t keeps sound e = elim (Bool-cases turn.stops_first) [
    | inl stop ↦ absurd (ground (arith, e, stop))
    | inr goes ↦ elim (Bool-cases turn.stops_second) [
      | inl stop ↦ absurd (ground (arith, e, goes, stop))
      | inr beats ↦ elim (beat_event turn.link turn.now (turn.others t) (keeps.0 t sound)) [
        | inl (fine, unset) ↦
            let x = beat db settings a lease turn.link turn.now (turn.others t, false) in
            let step : run db settings a lease (turn ∷ turns) (t, false)
                ≡ run db settings a lease turns (x.1.0, false) =
              rw (goes, beats)
                (after-ok (go_on db (run db settings a lease turns)) x true fine
                  ∙ ap (λ b. run db settings a lease turns (x.1.0, b)) unset) in
            subst Reported (sym step)
              (run-IsStale turns x.1.0 keeps.1
                (beat-IsSound turn.link turn.now (turn.others t) false (keeps.0 t sound)))
              e
        | inr (over, stale) ↦
            let x = beat db settings a lease turn.link turn.now (turn.others t, false) in
            let step : run db settings a lease (turn ∷ turns) (t, false) ≡ (ok tt, x.1) =
              rw (goes, beats) (after-ok (go_on db (run db settings a lease turns)) x false over) in
            subst Reported (sym step) (λ _. stale) e
      ]
    ]
  ]
