-- ===== src/Worker/Heartbeat.antt =====
-- worker/heartbeat.py: the beats that extend one attempt's lease, and the event that they set once
-- the attempt is lost.
pub mod Loss
pub mod Task
pub mod Patient
use job_queue_service.Prelude.{
  ℕ, ◌≡◌, refl, Bool, true, false, Option, none, some, List, [], ◌∷◌, if◌then◌else◌, Bool-cases,
  inl, inr, not, ◌||◌,
}
use job_queue_service.Job.{Job, Attempt}
use job_queue_service.Job.Sound.{IsSound}
use job_queue_service.Exec.{Result, Exec, ok, err, ownership_lost, pure, ◌>>=◌}
use job_queue_service.Config.{Settings}
use job_queue_service.Postgres.{Postgres}
use job_queue_service.Queue.{Link, answered, call}
use job_queue_service.Statement.{owned_by}
use job_queue_service.Session.Laws.{Rows}
use job_queue_service.Service.Owner.{extend_lease}
use job_queue_service.Service.Owner.Fence.{extend_lease-Lost}
use job_queue_service.Service.Owner.Settle.{extend_lease-Settled}

or_false : (b : Bool) → b ≡ (b || false)
or_false true = refl
or_false false = refl

or_true : (b : Bool) → true ≡ (b || true)
or_true true = refl
or_true false = refl

module _ (db : Postgres) where
  open db use {Table, row}

  -- What one turn of `_run` meets: the readings of the stop event around the sleep, how the
  -- database answers, its clock, and what others write during the sleep.
  pub record Turn : Type 0 where
    pub stops_first : Bool
    pub stops_second : Bool
    pub link : Link
    pub now : ℕ
    pub others : Table → Table

  -- The end of `beat`: the event `ownership_lost` is the second part of the state.
  abbrev pub noted : Bool → Result ℕ × Table → Result Bool × (Table × Bool)
  noted event (ok _, t) = (ok true, (t, event))
  noted event (err (ownership_lost a), t) = (ok false, (t, true))
  noted event (err _, t) = (ok true, (t, event))

  unfoldable pub beat : Settings → Attempt → Option ℕ → Link → ℕ → Exec (Table × Bool) Bool
  beat settings a lease link now (t, event) =
      noted event (call link (extend_lease db settings a now lease) t)

  abbrev pub sleeping : (Table → Table) → Table × Bool → Table × Bool
  sleeping others (t, event) = (others t, event)

  abbrev pub go_on : Exec (Table × Bool) (Unit {0}) → Bool → Exec (Table × Bool) (Unit {0})
  go_on rest true = rest
  go_on rest false = pure tt

  -- `_run`, for as many turns as are given.
  unfoldable pub run : Settings → Attempt → Option ℕ → List Turn → Exec (Table × Bool) (Unit {0})
  unfolding beat
  run settings a lease [] s = (ok tt, s)
  run settings a lease (turn ∷ turns) s =
      let rest = run settings a lease turns in
      if turn.stops_first
      then (ok tt, s)
      else if turn.stops_second
      then (ok tt, sleeping turn.others s)
      else (beat settings a lease turn.link turn.now >>= go_on rest) (sleeping turn.others s)

  -- Whether the attempt owns the row.
  abbrev pub owns : Attempt → Option Job → Bool
  owns a none = false
  owns a (some j) = owned_by a j

  pub owned_row :
      (a : Attempt) (o : Option Job)
      → owns a o ≡ true
      → (j : Job) × (o ≡ some j) × (owned_by a j ≡ true)
  owned_row a none g = absurd (cc)
  owned_row a (some j) g = (j, refl, g)

  -- On a table of sound rows, a beat that is answered returns whether the attempt owns its job, and
  -- sets the event exactly if it does not.
  pub beat-answered :
      (settings : Settings) (a : Attempt) (lease : Option ℕ) (now : ℕ) (t : Table) (event : Bool)
      → Rows db IsSound t
      → let x = beat settings a lease answered now (t, event) in
        (x.0 ≡ ok (owns a (row t a.job_id))) × (x.1.1 ≡ (event || not (owns a (row t a.job_id))))
  unfolding beat
  beat-answered settings a lease now t event sound = elim (Bool-cases (owns a (row t a.job_id))) [
    | inl g ↦
        let (j, found, holds) = owned_row a (row t a.job_id) g in
        let (extended, _, _) = extend_lease-Settled db a t sound j found holds settings now lease in
        rw (g, extended) (refl, or_false event)
    | inr g ↦
        let (refused, _) =
          extend_lease-Lost db a t sound (λ j found. rw found at g) settings now lease in
        rw (g, refused) (refl, or_true event)
  ]
