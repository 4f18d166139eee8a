-- ===== src/Worker/Heartbeat/Task.antt =====
-- `LeaseHeartbeat` of worker/heartbeat.py as a context manager: the background task from its start
-- to the exit, a wait at a time.
use job_queue_service.Prelude.{
  ℕ, Bool, true, false, Option, none, some, List, [], ◌∷◌, if◌then◌else◌,
}
use job_queue_service.Job.{Attempt}
use job_queue_service.Exec.{Result, ok, err}
use job_queue_service.Config.{Settings}
use job_queue_service.Postgres.{Postgres}
use job_queue_service.Queue.{Link}
use job_queue_service.Worker.Heartbeat.{beat}

-- Where the task waits: for the end of the interval or the stop event, or for the answer to a beat.
pub data Phase : Type 0 where
  sleeping beating ended : Phase

-- The members that change: `holds_task` is whether `_task` refers to the background task, and `task`
-- is how far that task is, wherever it is referred to; `none` is a task that is not started.
pub record LeaseHeartbeat : Type 0 where
  pub stop : Bool
  pub holds_task : Bool
  pub task : Option Phase
  pub ownership_lost : Bool

-- `__init__`.
abbrev pub new_heartbeat : LeaseHeartbeat
new_heartbeat = record { stop = false; holds_task = false; task = none; ownership_lost = false }

-- The test of the loop of `_run`.
abbrev pub at_loop : Bool → Phase
at_loop stop = if stop then ended else sleeping

-- `__aenter__`.
unfoldable pub enter : LeaseHeartbeat → LeaseHeartbeat
enter h = record h { holds_task = true; task = some (at_loop h.stop) }

-- The end of a wait of the task: of a sleep, or of a beat with its answer and the clock.
pub data Wake : Type 0 where
  slept : Wake
  replied : Link → ℕ → Wake

-- What the task does once the beat has returned.
abbrev pub after_beat : Bool → Result Bool → Phase
after_beat stop (ok true) = at_loop stop
after_beat stop (ok false) = ended
after_beat stop (err e) = ended

module _ (db : Postgres) (settings : Settings) (a : Attempt) (lease : Option ℕ) where
  open db use {Table}

  -- The beat on the table, and the event that it leaves.
  abbrev pub beaten : Link → ℕ → LeaseHeartbeat × Table → Result Bool × (Table × Bool)
  beaten link now (h, t) = beat db settings a lease link now (t, h.ownership_lost)

  abbrev pub with_beat : LeaseHeartbeat → Option Phase → Table × Bool → LeaseHeartbeat × Table
  with_beat h task (t, lost) = (record h { task = task; ownership_lost = lost }, t)

  -- `_run` from one wait to the next.
  abbrev pub resume : Option Phase → Wake → LeaseHeartbeat × Table → LeaseHeartbeat × Table
  resume (some sleeping) slept (h, t) =
      (record h { task = some (if h.stop then ended else beating) }, t)
  resume (some beating) (replied link now) (h, t) =
      let x = beaten link now (h, t) in with_beat h (some (after_beat h.stop x.0)) x.1
  resume _ _ s = s

  unfoldable pub wake : Wake → LeaseHeartbeat × Table → LeaseHeartbeat × Table
  wake w (h, t) = resume h.task w (h, t)

  -- The wait of `__aexit__` for the task, with the stop event set: the sleep of the task ends, a beat
  -- in flight is answered in time, or else the task is cancelled. The task itself goes on from there.
  abbrev pub drain :
      Option Phase → Option (Link × ℕ) → LeaseHeartbeat × Table → LeaseHeartbeat × Table
  drain (some sleeping) reply s = resume (some sleeping) slept s
  drain (some beating) (some (link, now)) s = resume (some beating) (replied link now) s
  drain (some beating) none (h, t) = (record h { task = some ended }, t)
  drain _ _ s = s

  -- `__aexit__`.
  unfoldable pub exit : Option (Link × ℕ) → LeaseHeartbeat × Table → LeaseHeartbeat × Table
  exit reply (h, t) =
      let s : LeaseHeartbeat × Table = (record h { stop = true; holds_task = false }, t) in
      if h.holds_task then drain h.task reply s else s

  -- Several waits, one after the other.
  unfoldable pub wakes : List Wake → LeaseHeartbeat × Table → LeaseHeartbeat × Table
  unfolding wake
  wakes [] s = s
  wakes (w ∷ ws) s = wakes ws (wake w s)

  -- The `async with` block, while the handler runs.
  unfoldable pub life : List Wake → Option (Link × ℕ) → Table → LeaseHeartbeat × Table
  unfolding wakes enter exit
  life ws reply t = exit reply (wakes ws (enter new_heartbeat, t))
