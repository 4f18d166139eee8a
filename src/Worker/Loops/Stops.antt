-- ===== src/Worker/Loops/Stops.antt =====
-- The loops end once they find the stop event set.
use job_queue_service.Prelude.{
  ℕ, zero, suc, ◌+◌, ◌≤◌, ◌<◌, ◌≡◌, refl, subst, Bool, true, false, Option, some, arith, Bool-cases,
  inl, inr,
}
use job_queue_service.Exec.{Exec}
use job_queue_service.Worker.Loops.{until_stopped, run_until_stopped}

pub at : (stops : ℕ → Bool) {n k : ℕ} {b : Bool} → stops n ≡ b → n ≡ k → stops k ≡ b
at stops {b} e same = subst (λ m. stops m ≡ b) same e

module _ {S : Type 0} where
  -- The state after the turns from `n` on.
  abbrev pub turns : (ℕ → S → S) → ℕ → ℕ → S → S
  turns body n zero s = s
  turns body n (suc count) s = turns body (suc n) count (body n s)

  -- The loop has returned after the turns before the first reading that found the event set, and
  -- that reading is not after `bound`.
  abbrev pub Stopped : (ℕ → Bool) → (ℕ → S → S) → ℕ → ℕ → S → Option S → Type 0
  Stopped stops body n bound s r =
      (count : ℕ) × (count ≤ bound)
      × (r ≡ some (turns body n count s))
      × (stops (n + count) ≡ true)
      × ((k : ℕ) → k < count → stops (n + k) ≡ false)

  pub until_stopped-Stopped :
      (stops : ℕ → Bool) (body : ℕ → S → S) (fuel n bound : ℕ) (s : S)
      → stops (n + bound) ≡ true
      → bound < fuel
      → Stopped stops body n bound s (until_stopped fuel stops body n s)
  unfolding until_stopped
  until_stopped-Stopped stops body zero n bound s e h = absurd (omega arith)
  until_stopped-Stopped stops body (suc fuel) n zero s e h =
      let now : stops n ≡ true = at stops e (omega arith) in
      (0, omega arith, rw now refl, e, λ k lt. absurd (omega arith))
  until_stopped-Stopped stops body (suc fuel) n (suc bound) s e h = elim (Bool-cases (stops n)) [
    | inl now ↦
        (0, omega arith, rw now refl, at stops now (omega arith), λ k lt. absurd (omega arith))
    | inr later ↦
        let (count, le, ends, found, before) =
          until_stopped-Stopped stops body fuel (suc n) bound (body n s) (at stops e (omega arith))
            (omega arith) in
        (
          suc count,
          omega arith,
          rw later ends,
          at stops found (omega arith),
          earlier n count later before,
        )
  ]
    where
      earlier :
          (n count : ℕ)
          → stops n ≡ false
          → ((k : ℕ) → k < count → stops (suc n + k) ≡ false)
          → (k : ℕ) → k < suc count
          → stops (n + k) ≡ false
      earlier n count first before zero lt = at stops first (omega arith)
      earlier n count first before (suc k) lt = at stops (before k (omega arith)) (omega arith)

  -- A loop over a cycle that may raise: once a reading finds the stop event set, the loop has
  -- returned, after the cycles and sleeps before the first such reading.
  pub run_until_stopped-Stopped :
      {A : Type 0} (fuel bound : ℕ) (stops : ℕ → Bool) (cycle : ℕ → Exec S A) (sleeping : ℕ → S → S)
      (s : S)
      → stops bound ≡ true
      → bound < fuel
      → Stopped stops
          (λ n s. sleeping n (cycle n s).1)
          0
          bound
          s
          (run_until_stopped fuel stops cycle sleeping s)
  unfolding run_until_stopped
  run_until_stopped-Stopped fuel bound stops cycle sleeping s e h =
      until_stopped-Stopped stops (λ n s. sleeping n (cycle n s).1) fuel 0 bound s
        (at stops e (omega arith)) h
