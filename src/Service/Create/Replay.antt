-- ===== src/Service/Create/Replay.antt =====
-- A submission that is sent again under its idempotency key.
use job_queue_service.Prelude.{
  ℕ, ◌+◌, ◌<◌, ◌≡◌, refl, sym, ap, ◌∙◌, Bool, true, false, Option, none, some, List, [], ◌∷◌, arith,
  Option-cases, Bool-cases, inl, inr, head?, ◌==◌,
}
use job_queue_service.Job.{Job}
use job_queue_service.Job.Sound.{IsSound, IsSound-satisfies_checks}
use job_queue_service.Exec.{Result, ok, Constraint}
use job_queue_service.Postgres.{Postgres, find_id}
use job_queue_service.Postgres.Rows.{find_id-head}
use job_queue_service.Session.{execute}
use job_queue_service.Session.Laws.{matched-some}
use job_queue_service.Statement.{releasing_key}
use job_queue_service.Service.Create.{
  JobCreateRequest, Clock, build_job, is_given, is_active, idempotency_ttl, find_active_by_key,
  resolve_conflict, insert_job, create_job,
}
use job_queue_service.Service.Create.Built.{build_job-IsSound}

pub build_job_active :
    (id created now later key : ℕ) (request : JobCreateRequest)
    → is_given (some key) ≡ true
    → later < now + idempotency_ttl
    → is_active key later (build_job id created now request (some key)) ≡ true
unfolding build_job
build_job_active id created now later key request given soon = ground arith

module _ (db : Postgres) where
  open db use {
    Table, row, rejects_update, update, rejects_insert, insert, select, row-insert, insert_new,
    insert_duplicate, find_id-select,
  }

  -- What a call that created the job has done.
  abbrev Inserted : Job → Table → Result (Job × Bool) × Table → Type 0
  Inserted job t x =
      (job' : Job) (t' : Table)
      → x ≡ (ok (job', true), t')
      → (job' ≡ job) × (t' ≡ insert job t) × (rejects_insert job t ≡ none)

  resolved_not_created :
      (clock : Clock) (key : Option ℕ) (others : Table → Table) (c : Constraint) (t : Table)
      (job' : Job) (t' : Table)
      → resolve_conflict db clock key others c t ≡ (ok (job', true), t')
      → ⊥
  unfolding resolve_conflict
  resolved_not_created clock none others c t job' t' e = ground (arith, e)
  resolved_not_created clock (some key) others c t job' t' e =
      elim (Option-cases (find_active_by_key db key clock.reloaded (others t))) [
        | inl gone ↦ ground (arith, e, gone)
        | inr (j, found) ↦ ground (arith, e, found)
      ]

  insert_job-Inserted :
      (clock : Clock) (job : Job) (key : Option ℕ) (others : Table → Table) (before t : Table)
      → Inserted job t (insert_job db clock job key others before t)
  unfolding insert_job
  insert_job-Inserted clock job key others before t job' t' e =
      elim (Option-cases (rejects_insert job t)) [
        | inl accepted ↦ ground (arith, e, accepted)
        | inr (c, refused) ↦
            absurd
              (resolved_not_created clock key others c before job' t' (sym (rw refused refl) ∙ e))
      ]

  module _ (job : Job) (key now : ℕ) (t : Table) (new : rejects_insert job t ≡ none)
      (sound : IsSound job) (active : is_active key now job ≡ true) where
    first_is :
        (js : List Job) → select (is_active key now) (insert job t) ≡ js → head? js ≡ some job
    first_is [] e =
        let there : row (insert job t) job.id ≡ some job =
          rw (row-insert job t job.id new) (ground arith) in
        absurd (
          ground
            (arith, there, e, active, find_id-select (is_active key now) (insert job t) job.id))
    first_is (x ∷ js) e =
        let (j, found, holds, same) =
          matched-some (is_active key now) (λ j. j) (row (insert job t) x.id) x
            (sym (find_id-select (is_active key now) (insert job t) x.id)
              ∙ ap (find_id x.id) e
              ∙ find_id-head x js) in
        elim (Bool-cases (job.id == x.id)) [
          | inl hit ↦ ground (arith, found, row-insert job t x.id new, hit, same)
          | inr miss ↦
              let before : row t x.id ≡ some j =
                ground (arith, found, row-insert job t x.id new, miss) in
              absurd (
                cc (
                  new,
                  insert_duplicate job t x.id j (insert_new job t new)
                      (IsSound-satisfies_checks job sound) before (ground (arith, holds, active)),
                ))
        ]

    -- The row that is found under the key is the one that was inserted.
    pub find_active_by_key-insert : find_active_by_key db key now (insert job t) ≡ some job
    unfolding find_active_by_key
    find_active_by_key-insert = first_is _ refl

  module _ (clock : Clock) (id key : ℕ) (request : JobCreateRequest) (first second : Table → Table)
      (t : Table) where
    abbrev pub row_of : Job
    row_of = build_job id clock.created clock.built request (some key)

    -- A call that created a job has inserted its row, which no constraint refused.
    pub created_by :
        (job : Job) (t' : Table)
        → is_given (some key) ≡ true
        → create_job db clock id request (some key) first second t ≡ (ok (job, true), t')
        → (before : Table) × (job ≡ row_of)
          × (t' ≡ insert row_of before)
          × (rejects_insert row_of before ≡ none)
    unfolding create_job execute
    created_by job t' given created =
        elim (Option-cases (find_active_by_key db key clock.found t)) [
          | inr (j, found) ↦ absurd (ground (arith, given, created, found))
          | inl gone ↦
              let s = releasing_key key clock.released in
              elim (Bool-cases (rejects_update s.guard s.change (first t))) [
                | inl refused ↦ absurd (ground (arith, given, created, gone, refused))
                | inr sent ↦
                    let (at, inserted, new) =
                      insert_job-Inserted clock row_of (some key) second t
                        (update s.guard s.change (first t)) job t'
                        (ground (arith, given, created, gone, sent)) in
                    (update s.guard s.change (first t), at, inserted, new)
              ]
        ]

  create_job_found :
      (clock : Clock) (id key : ℕ) (request : JobCreateRequest) (first second : Table → Table)
      (t : Table) (job : Job)
      → is_given (some key) ≡ true
      → find_active_by_key db key clock.found t ≡ some job
      → create_job db clock id request (some key) first second t ≡ (ok (job, false), t)
  unfolding create_job
  create_job_found clock id key request first second t job given found = rw (given, found) refl

  -- A submission that created a job under a key that is not empty, sent again under that key within
  -- 24 hours and before anything else was written, returns that job, reports that it was not
  -- created, and writes nothing, whatever it asks for.
  pub create_job-create_job :
      (clock clock' : Clock) (id id' key : ℕ) (request request' : JobCreateRequest)
      (first second first' second' : Table → Table) (t t' : Table) (job : Job)
      → is_given (some key) ≡ true
      → create_job db clock id request (some key) first second t ≡ (ok (job, true), t')
      → clock'.found < clock.built + idempotency_ttl
      → create_job db clock' id' request' (some key) first' second' t' ≡ (ok (job, false), t')
  create_job-create_job clock clock' id id' key request request' first second first' second' t t'
        job given created soon =
      let (before, at, inserted, new) =
        created_by clock id key request first second t job t' given created in
      let made = build_job id clock.created clock.built request (some key) in
      let active =
        build_job_active id clock.created clock.built clock'.found key request given soon in
      let found =
        find_active_by_key-insert made key clock'.found before new
          (build_job-IsSound id clock.created clock.built request (some key)) active in
      create_job_found clock' id' key request' first' second' t' job given (rw (at, inserted) found)
