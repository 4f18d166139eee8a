-- ===== src/Worker/Main.antt =====
-- worker/main.py: the processes that run the loops of the worker, any number of them over the same
-- stores, and the requests beside them. A turn of a loop is one run of its body; what happens to the
-- stores while a turn waits, what the body reads of the stop event meanwhile, and a signal that comes
-- meanwhile are part of the turn: the loop finds the event set at its next test, once the body has
-- written what it had begun. The loops log what a body raises and go on.
pub mod Steps
use job_queue_service.Prelude.{
  ℕ, ◌≡◌, refl, subst, Bool, true, false, ◌&&◌, ◌==◌, List, [], ◌∷◌, if◌then◌else◌,
}
use job_queue_service.Config.{Settings}
use job_queue_service.Postgres.{Postgres}
use job_queue_service.Redis.{Redis, Uuids}
use job_queue_service.Queue.{Link}
use job_queue_service.Service.Mutate.{Stores}
use job_queue_service.Worker.Runner.{Round, run_once}
use job_queue_service.Worker.Sweeps.{schedule_once, recover_once}

-- The loops that `run` gathers.
pub data Loop : Type 0 where
  runner scheduler recovery : Loop

-- A process: its stop event, and which of its loops have returned.
pub record Process : Type 0 where
  pub stop : Bool
  pub runner_over : Bool
  pub scheduler_over : Bool
  pub recovery_over : Bool

-- A process after its start.
abbrev pub started : Process
started = record {
  stop = false;
  runner_over = false;
  scheduler_over = false;
  recovery_over = false;
}

abbrev pub is_over : Loop → Process → Bool
is_over runner p = p.runner_over
is_over scheduler p = p.scheduler_over
is_over recovery p = p.recovery_over

abbrev pub return_from : Loop → Process → Process
return_from runner p = record p { runner_over = true }
return_from scheduler p = record p { scheduler_over = true }
return_from recovery p = record p { recovery_over = true }

-- `request_stop`.
unfoldable pub request_stop : Process → Process
request_stop p = record p { stop = true }

-- The processes, one of them changed.
abbrev pub set_process : ℕ → Process → (ℕ → Process) → ℕ → Process
set_process n p ps m = if n == m then p else ps m

module _ (db : Postgres) (redis : Redis) (uuids : Uuids) where
  -- The body of a loop, with what it meets.
  pub data Turn : Type 0 where
    runs : (ℕ → Round db redis uuids) → Turn
    schedules : (locked : ℕ → Bool) (now : ℕ) (links : ℕ → Link) → Turn
    recovers : (locked : ℕ → Bool) (now : ℕ) → Turn

  abbrev pub loop_of : Turn → Loop
  loop_of (runs rounds) = runner
  loop_of (schedules locked now links) = scheduler
  loop_of (recovers locked now) = recovery

  -- What the turn of a process, whose worker has this identity, does to the stores.
  unfoldable pub cycle : Settings → ℕ → Turn → Stores db redis uuids → Stores db redis uuids
  cycle settings worker (runs rounds) s = (run_once db redis uuids settings worker rounds s).1
  cycle settings worker (schedules locked now links) s =
      (schedule_once db redis uuids locked settings.scheduler_batch_size now links s).1
  cycle settings worker (recovers locked now) s =
      (recover_once db redis uuids locked settings.recovery_batch_size now s).1

  -- A signal to a process, the turn of one of its loops, during which it may be signalled, or
  -- something that others do.
  pub data Event : Type 0 where
    signal : ℕ → Event
    turn : ℕ → Turn → (signalled : Bool) → Event
    elsewhere : (Stores db redis uuids → Stores db redis uuids) → Event

  pub record System : Type 0 where
    pub stores : Stores db redis uuids
    pub process : ℕ → Process

  -- `while not stop.is_set():` around the body: the turn of a loop that has returned is none.
  unfoldable pub take_turn : Settings → ℕ → Turn → Bool → System → System
  unfolding cycle request_stop
  take_turn settings n t signalled s =
      let p = s.process n in
      if is_over (loop_of t) p
      then s
      else if p.stop
      then record s { process = set_process n (return_from (loop_of t) p) s.process }
      else record s {
        stores = cycle settings n t s.stores;
        process = if signalled then set_process n (request_stop p) s.process else s.process;
      }

  either_branch :
      {A : Type 0} (K : A → Type 0) (over stop : Bool) (a b c : A)
      → (over ≡ true → K a)
      → (stop ≡ true → K b)
      → (stop ≡ false → K c)
      → K (if over then a else if stop then b else c)
  either_branch K true stop a b c x y z = x refl
  either_branch K false true a b c x y z = y refl
  either_branch K false false a b c x y z = z refl

  -- A turn has one of three outcomes.
  pub take_turn_cases :
      (K : System → Type 0) (settings : Settings) (n : ℕ) (t : Turn) (signalled : Bool) (s : System)
      → (is_over (loop_of t) (s.process n) ≡ true → K s)
      → ((s.process n).stop ≡ true
          → K (record s {
            process = set_process n (return_from (loop_of t) (s.process n)) s.process;
          }))
      → ((s.process n).stop ≡ false
          → K (record s {
            stores = cycle settings n t s.stores;
            process =
                if signalled
                then set_process n (request_stop (s.process n)) s.process
                else s.process;
          }))
      → K (take_turn settings n t signalled s)
  unfolding take_turn
  take_turn_cases K settings n t signalled s =
      either_branch K (is_over (loop_of t) (s.process n)) (s.process n).stop _ _ _

  unfoldable pub handle_event : Settings → Event → System → System
  unfolding take_turn request_stop
  handle_event settings (signal n) s = record s {
    process = set_process n (request_stop (s.process n)) s.process;
  }
  handle_event settings (turn n t signalled) s = take_turn settings n t signalled s
  handle_event settings (elsewhere others) s = record s { stores = others s.stores }

  -- The events one after the other.
  unfoldable pub gather : Settings → List Event → System → System
  unfolding handle_event
  gather settings [] s = s
  gather settings (e ∷ es) s = gather settings es (handle_event settings e s)
