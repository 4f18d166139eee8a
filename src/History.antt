-- ===== src/History.antt =====
-- Histories of the `jobs` table: the statements that the service commits, by any workers and
-- requests in any order, and what holds after every such history.

pub mod Calls
pub mod Requests
pub mod Run
pub mod Crash
use job_queue_service.Prelude.{
  String, ◌≢◌, ◌⊎◌, ap, ℕ, ◌≡◌, ◌==◌, sym, subst, false, Option, none, some, arith, Bool-cases, inl,
  inr,
}
use native.Mathlib.Decide.{ℕ_discrete}
use job_queue_service.Job.{Job, Attempt}
use job_queue_service.Job.Sound.{IsSound}
use job_queue_service.Job.Lifecycle.{◌⟶*◌, same, step}
use job_queue_service.Postgres.{Postgres}
use job_queue_service.Statement.{Statement, owned_by}
use job_queue_service.Statement.Safe.{Issued, Issued-IsSafe}
use job_queue_service.Statement.Moves.{Issued-⟶, Mints, Issued-stale}
use job_queue_service.Session.Laws.{
  Rows, row-execute_hit, row-execute_miss, row-execute_from, execute-IsSound,
}
use job_queue_service.Service.Create.{JobCreateRequest, build_job}
use job_queue_service.Service.Create.Built.{build_job-IsSound, build_job-stale}
use job_queue_service.Service.Owner.Fence.{IsStale, Lost, stale_writes_rejected}
use job_queue_service.Service.Owner.Verdict.{IsCounted}
use job_queue_service.Service.Owner.{extend_lease, update_progress, complete_job, fail_attempt}
use job_queue_service.Prelude.Int.{ℤ}
use job_queue_service.Json.{Fields}
use job_queue_service.Config.{Settings}

module _ (db : Postgres) (P : ℕ → Type 0) where
  open db use {Table, row, rejects_update, update, rejects_insert, insert, row-insert, insert_new}

  -- What the service may have committed since the table was `start`, with tokens that `P` allows
  -- for the claims.
  pub data Trace (start : Table) : Table → Type 0 where
    here : Trace start start
    sent :
        {t : Table} {s : Statement}
        → Trace start t
        → (issued : Issued s) → Mints P issued
        → rejects_update s.guard s.change t ≡ false
        → Trace start (update s.guard s.change t)
    added :
        {t : Table} (id created now : ℕ) (request : JobCreateRequest) (key : Option ℕ)
        → Trace start t
        → rejects_insert (build_job id created now request key) t ≡ none
        → Trace start (insert (build_job id created now request key) t)

  row-added :
      (j : Job) (t : Table) (i : ℕ) (k : Job)
      → rejects_insert j t ≡ none
      → row (insert j t) i ≡ some k
      → (k ≡ j) ⊎ (row t i ≡ some k)
  row-added j t i k new e = elim (Bool-cases (j.id == i)) [
    | inl hit ↦ inl (ground (arith, row-insert j t i new))
    | inr miss ↦ inr (ground (arith, row-insert j t i new))
  ]

  pub row-kept :
      (j : Job) (t : Table) (i : ℕ) (k : Job)
      → rejects_insert j t ≡ none
      → row t i ≡ some k
      → row (insert j t) i ≡ some k
  row-kept j t i k new e = elim (ℕ_discrete j.id i) [
    | yes hit ↦ absurd (cc (insert_new j t new, ap (row t) hit))
    | no miss ↦ ground (arith, row-insert j t i new)
  ]

  added-IsSound :
      (j : Job) (t : Table)
      → rejects_insert j t ≡ none
      → IsSound j
      → Rows db IsSound t
      → Rows db IsSound (insert j t)
  added-IsSound j t new h sound i k e = elim (row-added j t i k new e) [
    | inl at ↦ subst IsSound (sym at) h
    | inr old ↦ sound i k old
  ]

  -- On a table of sound rows, every history of statements that the service sends and of rows that
  -- it inserts leaves every row sound.
  pub Trace-IsSound : {t t' : Table} → Rows db IsSound t → Trace t t' → Rows db IsSound t'
  Trace-IsSound h here = h
  Trace-IsSound h (sent {t} {s} tr i minted ok) =
      execute-IsSound db s (Issued-IsSafe i) t (Trace-IsSound h tr)
  Trace-IsSound h (added {t} id created now request key tr new) =
      added-IsSound _ t new (build_job-IsSound id created now request key) (Trace-IsSound h tr)

  -- On a table of sound rows, every row is still there after any history, and its status has moved
  -- along the arrows of the life cycle.
  pub Trace-⟶* :
      {t t' : Table}
      → Rows db IsSound t
      → Trace t t'
      → (i : ℕ) (j : Job) → row t i ≡ some j
      → (j' : Job) × (row t' i ≡ some j') × (j.status ⟶* j'.status)
  Trace-⟶* h here i j e = (j, e, same)
  Trace-⟶* h (sent {t} {s} tr issued minted ok) i j e =
      let (k, at, path) = Trace-⟶* h tr i j e in
      let sound = Trace-IsSound h tr in
      elim (Bool-cases (s.guard k)) [
        | inl g ↦ (
          s.change k,
          row-execute_hit db s (Issued-IsSafe issued) t sound i k at g,
          step path (Issued-⟶ issued k g),
        )
        | inr g ↦ (k, row-execute_miss db s (Issued-IsSafe issued) t sound i k at g, path)
      ]
  Trace-⟶* h (added {t} id created now request key tr new) i j e =
      let (k, at, path) = Trace-⟶* h tr i j e in (k, row-kept _ t i k new at, path)

module _ (db : Postgres) (a : Attempt) where
  open db use {Table}

  -- Histories whose claims do not reuse the attempt's token.
  abbrev pub Later : Table → Table → Type 0
  Later = Trace db (λ token. token ≢ a.execution_token)

  -- An attempt that does not own its job does not own it after any such history.
  pub Later-IsStale :
      {t t' : Table} → Rows db IsSound t → IsStale db a t → Later t t' → IsStale db a t'
  Later-IsStale h stale here j e = stale j e
  Later-IsStale h stale (sent {t} {s} tr issued minted ok) j' e =
      let (k, found, from) =
        row-execute_from db s (Issued-IsSafe issued) t
          (Trace-IsSound db (λ token. token ≢ a.execution_token) h tr) a.job_id j' e in
      let before : owned_by a k ≡ false = Later-IsStale h stale tr k found in
      elim (Bool-cases (s.guard k)) [
        | inl g ↦
            subst (λ x. owned_by a x ≡ false) (sym (rw g at from))
              (Issued-stale issued a k minted before)
        | inr g ↦ subst (λ x. owned_by a x ≡ false) (sym (rw g at from)) before
      ]
  Later-IsStale h stale (added {t} id created now request key tr new) j' e =
      elim (row-added db (λ token. token ≢ a.execution_token) (build_job id created now request key)
        t a.job_id j' new e) [
          | inl at ↦
              subst (λ x. owned_by a x ≡ false) (sym at)
                (build_job-stale id created now request key a)
          | inr old ↦ Later-IsStale h stale tr j' old
        ]

  -- On a table of sound rows, a counted attempt that does not own its job writes nothing more:
  -- after any history whose claims do not reuse its token, its heartbeat, progress report,
  -- completion and failure each raise `OwnershipLostError` and change no row.
  pub fenced_forever :
      (settings : Settings) (t t' : Table)
      → Rows db IsSound t
      → IsCounted a
      → IsStale db a t
      → Later t t'
      → (now : ℕ) (lease : Option ℕ) (progress : ℤ) (result : Fields) (error : String)
      → Lost db a t' (extend_lease db settings a now lease t')
        × Lost db a t' (update_progress db a progress t')
        × Lost db a t' (complete_job db a result now t')
        × Lost db a t' (fail_attempt db a error now t')
  fenced_forever settings t t' h c stale tr =
      stale_writes_rejected db settings a t'
        (Trace-IsSound db (λ token. token ≢ a.execution_token) h tr) c (Later-IsStale h stale tr)
