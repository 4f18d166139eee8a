-- ===== src/Worker/Loops/Runs.antt =====
-- `JobRunner.run_forever` as a relation: what a turn that works, one that finds nothing to do and one
-- that raises lead to.
use job_queue_service.Prelude.{
  ℕ, zero, suc, ◌+◌, ◌<◌, ◌≡◌, refl, Bool, true, false, Option, some, arith, Bool-cases, inl, inr,
}
use job_queue_service.Exec.{Result, ok, err, Error}
use job_queue_service.Config.{Settings}
use job_queue_service.Postgres.{Postgres}
use job_queue_service.Redis.{Redis, Uuids}
use job_queue_service.Service.Mutate.{Stores}
use job_queue_service.Worker.Runner.{Round, run_once}
use job_queue_service.Worker.Loops.{until_stopped, rest_unless_busy, run_forever}
use job_queue_service.Worker.Loops.Stops.{at}

module _ (db : Postgres) (redis : Redis) (uuids : Uuids) (stops : ℕ → Bool) (settings : Settings)
    (worker : ℕ) (rounds : ℕ → ℕ → Round db redis uuids)
    (sleeping : ℕ → Stores db redis uuids → Stores db redis uuids) where
  -- What the cycle of the turn `n` returns, with the stores that it leaves.
  abbrev pub cycle_at : ℕ → Stores db redis uuids → Result Bool × Stores db redis uuids
  cycle_at n s = run_once db redis uuids settings worker (rounds n) s

  -- From the turn `n` on, the loop leads from one state of the stores to another: it returns where
  -- it finds the stop event set; it goes on at once after a cycle that has executed a job; and it
  -- sleeps after a cycle that has found none and after one that has raised.
  pub data Runs : ℕ → Stores db redis uuids → Stores db redis uuids → Type 0 where
    returns : {n : ℕ} {s s' : Stores db redis uuids} → stops n ≡ true → s ≡ s' → Runs n s s'
    works :
        {n : ℕ} {s s' s'' : Stores db redis uuids}
        → stops n ≡ false
        → cycle_at n s ≡ (ok true, s')
        → Runs (suc n) s' s''
        → Runs n s s''
    idles :
        {n : ℕ} {s s' s'' : Stores db redis uuids}
        → stops n ≡ false
        → cycle_at n s ≡ (ok false, s')
        → Runs (suc n) (sleeping n s') s''
        → Runs n s s''
    fails :
        {n : ℕ} {s s' s'' : Stores db redis uuids} {e : Error}
        → stops n ≡ false
        → cycle_at n s ≡ (err e, s')
        → Runs (suc n) (sleeping n s') s''
        → Runs n s s''

  -- The loop has returned, with the stores that it leads to.
  abbrev pub Ended : ℕ → Stores db redis uuids → Option (Stores db redis uuids) → Type 0
  Ended n s r = (s' : Stores db redis uuids) × (r ≡ some s') × Runs n s s'

  turn :
      (n : ℕ) (s s' : Stores db redis uuids) (x : Result Bool × Stores db redis uuids)
      → stops n ≡ false
      → cycle_at n s ≡ x
      → Runs (suc n) (rest_unless_busy (sleeping n) x) s'
      → Runs n s s'
  turn n s s' (ok true, t) later e rest = works later e rest
  turn n s s' (ok false, t) later e rest = idles later e rest
  turn n s s' (err error, t) later e rest = fails later e rest

  until_stopped-Ended :
      (fuel n bound : ℕ) (s : Stores db redis uuids)
      → stops (n + bound) ≡ true
      → bound < fuel
      → Ended n s
          (until_stopped fuel stops (λ k t. rest_unless_busy (sleeping k) (cycle_at k t)) n s)
  unfolding until_stopped
  until_stopped-Ended zero n bound s e h = absurd (omega arith)
  until_stopped-Ended (suc fuel) n zero s e h =
      let now : stops n ≡ true = at stops e (omega arith) in (s, rw now refl, returns now refl)
  until_stopped-Ended (suc fuel) n (suc bound) s e h = elim (Bool-cases (stops n)) [
    | inl now ↦ (s, rw now refl, returns now refl)
    | inr later ↦
        let (s', ends, runs) =
          until_stopped-Ended fuel (suc n) bound (rest_unless_busy (sleeping n) (cycle_at n s))
            (at stops e (omega arith)) (omega arith) in
        (s', rw later ends, turn n s s' (cycle_at n s) later refl runs)
  ]

  -- If the reading of the stop event before some turn finds it set, and there is fuel for more
  -- turns than come before, the worker's loop returns: it has gone on at once after each cycle that
  -- executed a job, has slept after each cycle that found none or raised, and has returned at the
  -- first reading that found the event set.
  pub run_forever-Ended :
      (fuel bound : ℕ) (s : Stores db redis uuids)
      → stops bound ≡ true
      → bound < fuel
      → Ended 0 s (run_forever db redis uuids fuel stops settings worker rounds sleeping s)
  unfolding run_forever
  run_forever-Ended fuel bound s e h =
      until_stopped-Ended fuel 0 bound s (at stops e (omega arith)) h
