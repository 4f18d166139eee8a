-- ===== src/Service/Create/Expired.antt =====
-- A submission under an idempotency key that no row holds, or only a row whose time is over.
use job_queue_service.Prelude.{
  ℕ, ◌≤◌, ◌≡◌, ◌≢◌, refl, sym, subst, ap, ◌∙◌, true, false, none, some, List, [], ◌∷◌, arith, head?,
  is_at, if◌then◌else◌, ◌==◌,
}
use job_queue_service.Job.{Job}
use job_queue_service.Job.Sound.{IsSound, IsSound-satisfies_checks}
use job_queue_service.Exec.{ok}
use job_queue_service.Postgres.{Postgres, shares_key, find_id}
use job_queue_service.Postgres.Rows.{find_id-head}
use job_queue_service.Session.Laws.{
  Rows, execute_safe, row-execute, row-execute_none, row-execute_from, matched-some,
}
use job_queue_service.Statement.{releasing_key}
use job_queue_service.Statement.Safe.{releasing_key-IsSafe}
use job_queue_service.Service.Create.{
  JobCreateRequest, Clock, build_job, is_given, is_active, find_active_by_key, insert_job,
  create_job,
}
use job_queue_service.Service.Create.Built.{build_job-IsSound, build_job-id}

-- The row without the key.
abbrev pub without_key : ℕ → Job → Job
without_key key j =
    if is_at j.idempotency_key key
    then record j { idempotency_key = none; idempotency_expires_at = none }
    else j

-- The release takes the key from every row that does not hold it any more.
release_lem :
    (key found released : ℕ) (j : Job)
    → found ≤ released
    → is_active key found j ≡ false
    → (if (releasing_key key released).guard j then (releasing_key key released).change j else j)
      ≡ without_key key j
unfolding releasing_key
release_lem key found released j later idle = ground (arith, later, idle)

not_shared :
    (id created now key : ℕ) (request : JobCreateRequest) (j : Job)
    → shares_key (build_job id created now request (some key)) (without_key key j) ≡ false
unfolding build_job
not_shared id created now key request j = ground arith

module _ (db : Postgres) where
  open db use {
    Table, row, update, rejects_insert, insert, row-insert, insert_accepted, select, find_id-select,
  }

  none_active :
      (key now : ℕ) (t : Table)
      → ((i : ℕ) (j : Job) → row t i ≡ some j → is_active key now j ≡ false)
      → find_active_by_key db key now t ≡ none
  unfolding find_active_by_key
  none_active key now t idle = first (select (is_active key now) t) refl
    where
      first : (js : List Job) → select (is_active key now) t ≡ js → head? js ≡ none
      first [] e = refl
      first (x ∷ js) e =
          let (j, found, holds, same) =
            matched-some (is_active key now) (λ j. j) (row t x.id) x
              (sym (find_id-select (is_active key now) t x.id)
                ∙ ap (find_id x.id) e
                ∙ find_id-head x js) in
          absurd (cc (idle x.id j found, holds))

  module _ (clock : Clock) (id key : ℕ) (request : JobCreateRequest) (second : Table → Table)
      (t : Table) where
    abbrev pub made : Job
    made = build_job id clock.created clock.built request (some key)

    -- On a table of sound rows none of which holds the key, which is not empty, at the time of the
    -- look-up, with nothing else committed before the insert and a fresh id, a submission under
    -- that key creates the job, stores its row with the key, and takes the key from the rows whose
    -- time is over; nothing else changes.
    pub create_job-creates :
        is_given (some key) ≡ true
        → Rows db IsSound t
        → row t id ≡ none
        → ((i : ℕ) (j : Job) → row t i ≡ some j → is_active key clock.found j ≡ false)
        → clock.found ≤ clock.released
        → let x = create_job db clock id request (some key) (λ s. s) second t in
          (x.0 ≡ ok (made, true))
          × (row x.1 id ≡ some made)
          × ((i : ℕ) (j : Job) → i ≢ id → row t i ≡ some j → row x.1 i ≡ some (without_key key j))
    unfolding create_job insert_job
    create_job-creates given sound new idle later =
        let s = releasing_key key clock.released in
        let safe = releasing_key-IsSafe key clock.released in
        let u = update s.guard s.change t in
        let fresh : row u made.id ≡ none =
          subst (λ i. row u i ≡ none) (sym (build_job-id id clock.created clock.built key request))
            (row-execute_none db s safe t sound id new) in
        let accepted : rejects_insert made u ≡ none =
          insert_accepted made u fresh
            (IsSound-satisfies_checks made
              (build_job-IsSound id clock.created clock.built request (some key)))
            (λ i k at.
              let (j, found, from) = row-execute_from db s safe t sound i k at in
              subst (λ x. shares_key made x ≡ false)
                (sym (from ∙ release_lem key clock.found clock.released j later (idle i j found)))
                (not_shared id clock.created clock.built key request j)) in
        let here : row (insert made u) id ≡ some made =
          let hit : (made.id == id) ≡ true =
            ground (arith, build_job-id id clock.created clock.built key request) in
          rw (row-insert made u id accepted, hit) refl in
        rw (given, none_active key clock.found t idle, execute_safe db s safe t sound, accepted)
          (
            refl,
            here,
            λ i j ne found.
                let kept : row u i ≡ some (without_key key j) =
                  row-execute db s safe t sound i
                  ∙ rw found (
                      ap some
                        (release_lem key clock.found clock.released j later (idle i j found))) in
                let miss : (made.id == i) ≡ false =
                  ground (arith, ne, build_job-id id clock.created clock.built key request) in
                rw (row-insert made u i accepted, miss) kept,
          )
