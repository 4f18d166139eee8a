-- ===== src/Worker/Heartbeat/Patient.antt =====
-- What a heartbeat does to the stores from its start to its exit.
use job_queue_service.Prelude.{
  ℕ, ◌≡◌, refl, ap, ◌∙◌, ◌⊎◌, inl, inr, Bool, true, false, Bool-cases, Option, none, some, List, [],
  ◌∷◌,
}
use job_queue_service.Job.{Job, Attempt}
use job_queue_service.Job.Sound.{IsSound}
use job_queue_service.Exec.{Result, ok, err}
use job_queue_service.Config.{Settings}
use job_queue_service.Postgres.{Postgres}
use job_queue_service.Redis.{Redis, Uuids}
use job_queue_service.Queue.{Link, answered, lost, timed_out}
use job_queue_service.Statement.{owned_by, lease_deadline}
use job_queue_service.Session.Laws.{Rows}
use job_queue_service.Service.Owner.Settle.{extend_lease-Settled}
use job_queue_service.Worker.Heartbeat.{beat}
use job_queue_service.Worker.Heartbeat.Loss.{beat-IsSound}
use job_queue_service.Worker.Heartbeat.Task.{
  Phase, sleeping, beating, ended, LeaseHeartbeat, new_heartbeat, enter, Wake, slept, replied, wake,
  wakes, life, exit, resume, drain, after_beat, beaten,
}
use job_queue_service.Worker.Execute.Going.{IsPatient}

module _ (db : Postgres) (settings : Settings) (a : Attempt) (lease : Option ℕ) where
  open db use {Table, row}

  -- The rows are sound, and the row of the job is `k` but for its lease.
  pub record Leased (k : Job) (t : Table) : Type 0 where
    pub sound : Rows db IsSound t
    pub deadline : Option ℕ
    pub at : row t a.job_id ≡ some (record k { lease_expires_at = deadline })

  module _ (k : Job) (owns : owned_by a k ≡ true) where
    beat-Leased :
        (link : Link) (now : ℕ) (t : Table) (event : Bool)
        → Leased k t
        → Leased k (beat db settings a lease link now (t, event)).1.0
    unfolding beat
    beat-Leased answered now t event h =
        let (ends, at, _) =
          extend_lease-Settled db a t h.sound (record k { lease_expires_at = h.deadline }) h.at owns
            settings now lease in
        record {
          sound = beat-IsSound db settings a lease answered now t event h.sound;
          deadline = some (lease_deadline settings.job_lease_seconds lease now);
          at = rw ends at;
        }
    beat-Leased lost now t event h = h
    beat-Leased timed_out now t event h =
        let (_, at, _) =
          extend_lease-Settled db a t h.sound (record k { lease_expires_at = h.deadline }) h.at owns
            settings now lease in
        record {
          sound = beat-IsSound db settings a lease timed_out now t event h.sound;
          deadline = some (lease_deadline settings.job_lease_seconds lease now);
          at = at;
        }

  -- What every beat keeps, the heartbeat keeps.
  module _ (K : Table → Type 0)
      (beats : (link : Link) (now : ℕ) (t : Table) (event : Bool)
        → K t
        → K (beat db settings a lease link now (t, event)).1.0) where
    resume-K :
        (task : Option Phase) (w : Wake) (h : LeaseHeartbeat) (t : Table)
        → K t
        → K (resume db settings a lease task w (h, t)).1
    resume-K (some sleeping) slept h t kept = kept
    resume-K (some beating) (replied link now) h t kept = beats link now t h.ownership_lost kept
    resume-K none w h t kept = kept
    resume-K (some sleeping) (replied link now) h t kept = kept
    resume-K (some beating) slept h t kept = kept
    resume-K (some ended) w h t kept = kept

    drain-K :
        (task : Option Phase) (reply : Option (Link × ℕ)) (h : LeaseHeartbeat) (t : Table)
        → K t
        → K (drain db settings a lease task reply (h, t)).1
    drain-K (some beating) (some (link, now)) h t kept = beats link now t h.ownership_lost kept
    drain-K (some beating) none h t kept = kept
    drain-K (some sleeping) reply h t kept = kept
    drain-K (some ended) reply h t kept = kept
    drain-K none reply h t kept = kept

    wakes-K :
        (ws : List Wake) (s : LeaseHeartbeat × Table) → K s.1 → K (wakes db settings a lease ws s).1
    unfolding wakes wake
    wakes-K [] s kept = kept
    wakes-K (w ∷ ws) s kept =
        wakes-K ws (wake db settings a lease w s) (resume-K s.0.task w s.0 s.1 kept)

    exit-K :
        (reply : Option (Link × ℕ)) (s : LeaseHeartbeat × Table)
        → K s.1
        → K (exit db settings a lease reply s).1
    unfolding exit
    exit-K reply (h, t) kept = elim (Bool-cases h.holds_task) [
      | inl held ↦
          rw held (drain-K h.task reply (record h { stop = true; holds_task = false }) t kept)
      | inr free ↦ rw free kept
    ]

    life-K :
        (ws : List Wake) (reply : Option (Link × ℕ)) (t : Table)
        → K t
        → K (life db settings a lease ws reply t).1
    unfolding life
    life-K ws reply t kept =
        exit-K reply (wakes db settings a lease ws (enter new_heartbeat, t))
          (wakes-K ws (enter new_heartbeat, t) kept)

  -- The task has ended.
  abbrev IsOver : Option Phase → Type 0
  IsOver o = (o ≡ none) ⊎ (o ≡ some ended)

  after_beat-stopped : (r : Result Bool) → after_beat true r ≡ ended
  after_beat-stopped (ok true) = refl
  after_beat-stopped (ok false) = refl
  after_beat-stopped (err e) = refl

  drained :
      (task : Option Phase) (reply : Option (Link × ℕ)) (h : LeaseHeartbeat) (t : Table)
      → h.task ≡ task
      → h.stop ≡ true
      → IsOver (drain db settings a lease task reply (h, t)).0.task
  drained (some beating) (some (link, now)) h t at stop = inr (
      ap (λ b. some (after_beat b (beaten db settings a lease link now (h, t)).0)) stop
      ∙ ap some (after_beat-stopped (beaten db settings a lease link now (h, t)).0))
  drained (some beating) none h t at stop = inr refl
  drained (some sleeping) reply h t at stop = rw stop (inr refl)
  drained (some ended) reply h t at stop = inr at
  drained none reply h t at stop = inl at

  resume-holds :
      (task : Option Phase) (w : Wake) (h : LeaseHeartbeat) (t : Table)
      → (resume db settings a lease task w (h, t)).0.holds_task ≡ h.holds_task
  resume-holds (some sleeping) slept h t = refl
  resume-holds (some beating) (replied link now) h t = refl
  resume-holds none w h t = refl
  resume-holds (some sleeping) (replied link now) h t = refl
  resume-holds (some beating) slept h t = refl
  resume-holds (some ended) w h t = refl

  wakes-holds :
      (ws : List Wake) (s : LeaseHeartbeat × Table)
      → (wakes db settings a lease ws s).0.holds_task ≡ s.0.holds_task
  unfolding wakes wake
  wakes-holds [] s = refl
  wakes-holds (w ∷ ws) s =
      wakes-holds ws (wake db settings a lease w s) ∙ resume-holds s.0.task w s.0 s.1

  -- The exit of a heartbeat that has been entered ends its task.
  exit-IsOver :
      (reply : Option (Link × ℕ)) (s : LeaseHeartbeat × Table)
      → s.0.holds_task ≡ true
      → IsOver (exit db settings a lease reply s).0.task
  unfolding exit
  exit-IsOver reply (h, t) held =
      rw held (drained h.task reply (record h { stop = true; holds_task = false }) t refl refl)

  resume-over :
      (task : Option Phase) (w : Wake) (s : LeaseHeartbeat × Table)
      → IsOver task
      → resume db settings a lease task w s ≡ s
  resume-over none w s over = refl
  resume-over (some ended) w s over = refl
  resume-over (some sleeping) w s over = elim over [
    | inl e ↦ absurd (cc (e))
    | inr e ↦ absurd (cc (e))
  ]
  resume-over (some beating) w s over = elim over [
    | inl e ↦ absurd (cc (e))
    | inr e ↦ absurd (cc (e))
  ]

  wakes_ended :
      (ws : List Wake) (s : LeaseHeartbeat × Table)
      → IsOver s.0.task
      → wakes db settings a lease ws s ≡ s
  unfolding wakes wake
  wakes_ended [] s over = refl
  wakes_ended (w ∷ ws) s over =
      ap (wakes db settings a lease ws) (resume-over s.0.task w s over) ∙ wakes_ended ws s over

module _ (db : Postgres) (redis : Redis) (uuids : Uuids) (settings : Settings) (a : Attempt)
    (lease : Option ℕ) where
  open db use {Table, row}

  -- What a heartbeat does from its start to its exit, however its beats are answered, leaves sound
  -- rows sound, and leaves the row of a job that the attempt owns as it is, but for its lease; and
  -- after the exit the task has ended, so that nothing it waits for changes the stores or the
  -- heartbeat any more.
  pub life-IsPatient :
      (ws : List Wake) (reply : Option (Link × ℕ))
      → IsPatient db redis uuids a (λ s. ((life db settings a lease ws reply s.0).1, s.1))
        × ((later : List Wake) (t : Table)
            → wakes db settings a lease later (life db settings a lease ws reply t)
              ≡ life db settings a lease ws reply t)
  unfolding life enter
  life-IsPatient ws reply = (
    record {
      keeps_sound = λ s sound.
          life-K db settings a lease (Rows db IsSound) (beat-IsSound db settings a lease) ws reply
            s.0 sound;
      keeps_row = λ s k sound at owns.
          let kept =
            life-K db settings a lease (Leased db settings a lease k)
              (beat-Leased db settings a lease k owns) ws reply s.0
              (record { sound = sound; deadline = k.lease_expires_at; at = at }) in
          (kept.deadline, kept.at);
    },
    λ later t.
        let s = wakes db settings a lease ws (enter new_heartbeat, t) in
        wakes_ended db settings a lease later (exit db settings a lease reply s) (
          exit-IsOver db settings a lease reply s
            (wakes-holds db settings a lease ws (enter new_heartbeat, t))),
  )
