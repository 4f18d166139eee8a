-- ===== src/History/Requests.antt =====
-- The calls that read before they write: recovery, submission, cancellation and manual retry.
use job_queue_service.Prelude.{
  ℕ, Bool, true, false, Option, none, some, List, [], ◌∷◌, Bool-cases, Option-cases, inl, inr,
  if◌then◌else◌,
}
use job_queue_service.Job.{Job, attempt_of, is_cancelled}
use job_queue_service.Exec.{Result, ok, err, after, or_raise, value_error, Constraint, rolled_back}
use job_queue_service.Postgres.{Postgres}
use job_queue_service.Redis.{Redis, Uuids}
use job_queue_service.Queue.{Ready, Link}
use job_queue_service.Session.{execute, execute_first}
use job_queue_service.Statement.{cancelling, restarting, releasing_key}
use job_queue_service.Statement.Safe.{cancel, restart, release_key}
use job_queue_service.Service.Create.{
  Clock, JobCreateRequest, build_job, is_given, find_active_by_key, resolve_conflict, reload,
  insert_job, create_job,
}
use job_queue_service.Service.Sweep.{
  recover_one, recover_each, recover_expired_leases, expired_jobs, lease_expired_error,
}
use job_queue_service.Service.Mutate.{
  Stores, after_cancel, after_retry, refuse_cancel, refuse_retry, cancel_job, retry_job,
}
use job_queue_service.History.{Trace, added}
use job_queue_service.History.Calls.{
  Leads, after-Leads, or_raise-Leads, execute-Leads, execute_first-Leads,
  apply_failed_attempt-Leads,
}

module _ (db : Postgres) (P : ℕ → Type 0) where
  open db use {Table, row, rejects_insert}

  module _ {t : Table} where
    recover_one-Leads :
        (now : ℕ) (job : Job) (s : Table) → Trace db P t s → Leads db P t (recover_one db now job s)
    unfolding recover_one
    recover_one-Leads now job s h =
        after-Leads db P _ (or_raise (attempt_of job) value_error s)
          (or_raise-Leads db P (attempt_of job) value_error s h)
          (λ a s' h'. apply_failed_attempt-Leads db P s' h' a lease_expired_error true now)

    recover_each-Leads :
        (now : ℕ) (jobs : List Job) (s : Table)
        → Trace db P t s
        → Leads db P t (recover_each db now jobs s)
    unfolding recover_each
    recover_each-Leads now [] s h = h
    recover_each-Leads now (job ∷ jobs) s h =
        after-Leads db P _ (recover_one db now job s) (recover_one-Leads now job s h) λ r s' h'.
          after-Leads db P _ (recover_each db now jobs s') (recover_each-Leads now jobs s' h')
            (λ rs s'' h''. h'')

  -- A transaction that fails leaves the table as it was.
  rolled_back-Leads :
      {A : Type 0} {t : Table} (s : Table) (x : Result A × Table)
      → Trace db P t s
      → Leads db P t x
      → Leads db P t (rolled_back s x)
  rolled_back-Leads s (ok a, s') h h' = h'
  rolled_back-Leads s (err e, s') h h' = h

  pub recover_expired_leases-Leads :
      {t : Table} (locked : ℕ → Bool) (limit now : ℕ) (s : Table)
      → Trace db P t s
      → Leads db P t (recover_expired_leases db locked limit now s)
  unfolding recover_expired_leases
  recover_expired_leases-Leads locked limit now s h =
      rolled_back-Leads s (recover_each db now (expired_jobs db locked limit now s) s) h
        (recover_each-Leads now (expired_jobs db locked limit now s) s h)

  -- What others do in between is a history too.
  abbrev pub IsHistory : (Table → Table) → Type 0
  IsHistory others = (t s : Table) → Trace db P t s → Trace db P t (others s)

  module _ (clock : Clock) (id : ℕ) (request : JobCreateRequest) (first second : Table → Table)
      (one : IsHistory first) (two : IsHistory second) {t : Table} where
    reload-Leads :
        (c : Constraint) (winner : Option Job) (s : Table)
        → Trace db P t s
        → Leads db P t (reload db c winner s)
    reload-Leads c none s h = h
    reload-Leads c (some winner) s h = h

    either :
        {A : Type 0} (b : Bool) (x y : Result A × Table)
        → Leads db P t x
        → Leads db P t y
        → Leads db P t (if b then x else y)
    either true x y h k = h
    either false x y h k = k

    resolve_conflict-Leads :
        (key : Option ℕ) (c : Constraint) (s : Table)
        → Trace db P t s
        → Leads db P t (resolve_conflict db clock key second c s)
    unfolding resolve_conflict
    resolve_conflict-Leads none c s h = h
    resolve_conflict-Leads (some key) c s h =
        either _ _ _
          (reload-Leads c (find_active_by_key db key clock.reloaded (second s)) (second s)
            (two t s h))
          h

    insert_job-Leads :
        (key : Option ℕ) (before s : Table)
        → Trace db P t before
        → Trace db P t s
        → Leads db P t (
            insert_job db clock
              (build_job id clock.created clock.built request key)
              key
              second
              before
              s)
    unfolding insert_job
    insert_job-Leads key before s hb h =
        let job = build_job id clock.created clock.built request key in
        elim (Option-cases (rejects_insert job s)) [
          | inl accepted ↦ rw accepted (added id clock.created clock.built request key h accepted)
          | inr (c, refused) ↦ rw refused (resolve_conflict-Leads key c before hb)
        ]

    pub create_job-Leads :
        (key : Option ℕ) (s : Table)
        → Trace db P t s
        → Leads db P t (create_job db clock id request key first second s)
    unfolding create_job
    create_job-Leads none s h = insert_job-Leads none s s h h
    create_job-Leads (some key) s h = elim (Bool-cases (is_given (some key))) [
      | inl given ↦ elim (Option-cases (find_active_by_key db key clock.found s)) [
        | inr (j, found) ↦ rw (given, found) h
        | inl gone ↦
            rw (given, gone)
              (after-Leads db P
                (λ released.
                  insert_job db clock (build_job id clock.created clock.built request (some key))
                    (some key) second (first s))
                (execute db (releasing_key key clock.released) (first s))
                (execute-Leads db P (release_key key clock.released) (first s) tt (one t s h))
                (λ rows s' h'. insert_job-Leads (some key) (first s) s' (one t s h) h'))
      ]
      | inr empty ↦ rw empty (insert_job-Leads (some key) s s h h)
    ]

  module _ (redis : Redis) (uuids : Uuids) where
    -- The same of a call on both stores.
    abbrev pub LeadsBoth : {A : Type 0} → Table → Result A × Stores db redis uuids → Type 0
    LeadsBoth t x = Trace db P t x.1.0

    pub cancel_job-Leads :
        (others : Table → Table)
        → IsHistory others
        → (first : Link) (between : Ready redis uuids → Ready redis uuids) (second : Link) (i : ℕ)
          (t : Table) (s : Stores db redis uuids)
        → Trace db P t s.0
        → LeadsBoth t (cancel_job db redis uuids others first between second i s)
    unfolding cancel_job
    cancel_job-Leads others honest first between second i t s h =
        after_cancel-Leads (execute_first db (cancelling i) s.0)
          (execute_first-Leads db P (cancel i) s.0 tt h)
      where
        refused-Leads :
            (job : Option Job) (s' : Stores db redis uuids)
            → Trace db P t s'.0
            → LeadsBoth t (refuse_cancel db redis uuids i job s')
        refused-Leads none s' h' = h'
        refused-Leads (some job) s' h' = elim (Bool-cases (is_cancelled job.status)) [
          | inl again ↦ rw again h'
          | inr other ↦ rw other h'
        ]

        after_cancel-Leads :
            (x : Result (Option Job) × Table)
            → Leads db P t x
            → LeadsBoth t (
                after (after_cancel db redis uuids others first between second i) (x.0, (x.1, s.1)))
        after_cancel-Leads (ok none, t') h' =
            refused-Leads (row (others t') i) (others t', s.1) (honest t t' h')
        after_cancel-Leads (ok (some job), t') h' = h'
        after_cancel-Leads (err e, t') h' = h'

    pub retry_job-Leads :
        (others : Table → Table)
        → IsHistory others
        → (link : Link) (i : ℕ) (t : Table) (s : Stores db redis uuids) → Trace db P t s.0
        → LeadsBoth t (retry_job db redis uuids others link i s)
    unfolding retry_job
    retry_job-Leads others honest link i t s h =
        after_retry-Leads (execute_first db (restarting i) s.0)
          (execute_first-Leads db P (restart i) s.0 tt h)
      where
        refused-Leads :
            (job : Option Job) (s' : Stores db redis uuids)
            → Trace db P t s'.0
            → LeadsBoth t (refuse_retry db redis uuids i job s')
        refused-Leads none s' h' = h'
        refused-Leads (some job) s' h' = h'

        after_retry-Leads :
            (x : Result (Option Job) × Table)
            → Leads db P t x
            → LeadsBoth t (after (after_retry db redis uuids others link i) (x.0, (x.1, s.1)))
        after_retry-Leads (ok none, t') h' =
            refused-Leads (row (others t') i) (others t', s.1) (honest t t' h')
        after_retry-Leads (ok (some job), t') h' = h'
        after_retry-Leads (err e, t') h' = h'
