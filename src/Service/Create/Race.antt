-- ===== src/Service/Create/Race.antt =====
-- Two submissions of one idempotency key at once.
use job_queue_service.Prelude.{ℕ, ◌+◌, ◌<◌, ◌≡◌, refl, sym, subst, true, false, none, some, arith}
use job_queue_service.Job.{Job}
use job_queue_service.Job.Sound.{IsSound, IsSound-satisfies_checks}
use job_queue_service.Exec.{ok, idempotency_index}
use job_queue_service.Postgres.{Postgres, shares_key}
use job_queue_service.Session.Laws.{Rows, execute_safe, row-execute_miss, row-execute_none}
use job_queue_service.Statement.{releasing_key}
use job_queue_service.Statement.Safe.{releasing_key-IsSafe}
use job_queue_service.Service.Create.{
  JobCreateRequest, Clock, build_job, is_given, idempotency_ttl, find_active_by_key,
  resolve_conflict, insert_job, create_job,
}
use job_queue_service.Service.Create.Built.{build_job-IsSound, build_job-id}
use job_queue_service.Service.Create.Replay.{
  created_by, find_active_by_key-insert, build_job_active,
}

-- The row of a submission keeps its key when an expired one is released, within 24 hours.
build_job_unreleased :
    (id created now later key : ℕ) (request : JobCreateRequest)
    → is_given (some key) ≡ true
    → later < now + idempotency_ttl
    → (releasing_key key later).guard (build_job id created now request (some key)) ≡ false
unfolding build_job releasing_key
build_job_unreleased id created now later key request given soon = ground arith

build_job-key :
    (id created now key : ℕ) (request : JobCreateRequest)
    → (build_job id created now request (some key)).idempotency_key ≡ some key
unfolding build_job
build_job-key id created now key request = refl

-- It shares its key with every row that holds it.
shares :
    (id created now key : ℕ) (request : JobCreateRequest) (job : Job)
    → job.idempotency_key ≡ some key
    → shares_key (build_job id created now request (some key)) job ≡ true
unfolding build_job
shares id created now key request job holds = ground (arith, holds)

module _ (db : Postgres) where
  open db use {
    Table, row, rejects_update, update, rejects_insert, insert, row-insert, insert_duplicate,
  }

  insert_job_lost :
      (clock : Clock) (job winner : Job) (key : ℕ) (others : Table → Table) (before t : Table)
      → is_given (some key) ≡ true
      → rejects_insert job t ≡ some idempotency_index
      → find_active_by_key db key clock.reloaded (others before) ≡ some winner
      → insert_job db clock job (some key) others before t ≡ (ok (winner, false), others before)
  unfolding insert_job resolve_conflict
  insert_job_lost clock job winner key others before t given refused found =
      rw (refused, given, found) refl

  -- What an insert of a second row under the key of a row meets.
  duplicate :
      (key later id created now : ℕ) (request : JobCreateRequest) (job : Job) (t : Table)
      → Rows db IsSound t
      → row t id ≡ none
      → row t job.id ≡ some job
      → job.idempotency_key ≡ some key
      → (releasing_key key later).guard job ≡ false
      → rejects_insert
          (build_job id created now request (some key))
          (update (releasing_key key later).guard (releasing_key key later).change t)
        ≡ some idempotency_index
  duplicate key later id created now request job t sound new found holds kept =
      let s = releasing_key key later in
      let safe = releasing_key-IsSafe key later in
      let made = build_job id created now request (some key) in
      insert_duplicate made (update s.guard s.change t) job.id job
        (subst (λ i. row (update s.guard s.change t) i ≡ none)
          (sym (build_job-id id created now key request))
          (row-execute_none db s safe t sound id new))
        (IsSound-satisfies_checks made (build_job-IsSound id created now request (some key)))
        (row-execute_miss db s safe t sound job.id job found kept)
        (shares id created now key request job holds)

  -- Two submissions under one key that is not empty, both of which found it free: if the first one
  -- created its job on a table of sound rows after the second one's look-up, and less than 24 hours
  -- ago, then the second one returns the first one's job, reports that it was not created, and
  -- changes no row, whatever it asks for.
  pub create_job_race :
      (clock clock' : Clock) (id id' key : ℕ) (request request' : JobCreateRequest)
      (first second : Table → Table) (t t' : Table) (job : Job)
      → is_given (some key) ≡ true
      → create_job db clock id request (some key) first second t ≡ (ok (job, true), t')
      → Rows db IsSound t'
      → row t' id' ≡ none
      → find_active_by_key db key clock'.found t ≡ none
      → clock'.released < clock.built + idempotency_ttl
      → clock'.reloaded < clock.built + idempotency_ttl
      → create_job db clock' id' request' (some key) (λ s. t') (λ s. s) t ≡ (ok (job, false), t')
  unfolding create_job
  create_job_race clock clock' id id' key request request' first second t t' job given created sound
        new free soon soon' =
      let (before, at, inserted, accepted) =
        created_by db clock id key request first second t job t' given created in
      let made = build_job id clock.created clock.built request (some key) in
      let made-IsSound = build_job-IsSound id clock.created clock.built request (some key) in
      let found : row t' job.id ≡ some job =
        rw (at, inserted) (rw (row-insert made before made.id accepted) (ground arith)) in
      let kept : (releasing_key key clock'.released).guard job ≡ false = rw at (
        build_job_unreleased id clock.created clock.built clock'.released key request given soon) in
      let holds : job.idempotency_key ≡ some key =
        rw at (build_job-key id clock.created clock.built key request) in
      let refused =
        duplicate key clock'.released id' clock'.created clock'.built request' job t' sound new
          found holds kept in
      let winner : find_active_by_key db key clock'.reloaded t' ≡ some job =
        rw (at, inserted)
          (find_active_by_key-insert db made key clock'.reloaded before accepted made-IsSound (
            build_job_active id clock.created clock.built clock'.reloaded key request given
              soon')) in
      let s = releasing_key key clock'.released in
      let sent = execute_safe db s (releasing_key-IsSafe key clock'.released) t' sound in
      rw (given, free, sent)
        (insert_job_lost clock' (build_job id' clock'.created clock'.built request' (some key)) job
          key (λ s. s) t' (update s.guard s.change t') given refused winner)
