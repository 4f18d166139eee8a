-- ===== src/Api/Submissions.antt =====
-- How the route that submits a job answers when a request is sent again.
use job_queue_service.Prelude.{
  ℕ, ◌≡◌, ◌<◌, ◌+◌, refl, sym, ap, ◌∙◌, Bool, true, false, Bool-cases, inl, inr, Option, some,
  arith,
}
use job_queue_service.Job.{Job, is_pending}
use job_queue_service.Exec.{Result, ok, err, after, pure}
use job_queue_service.Postgres.{Postgres}
use job_queue_service.Redis.{Redis, Uuids}
use job_queue_service.Queue.{Link}
use job_queue_service.Service.Create.{
  Clock, JobCreateRequest, create_job, is_given, idempotency_ttl,
}
use job_queue_service.Service.Create.Replay.{create_job-create_job}
use job_queue_service.Service.Mutate.{Stores, submit_job, enqueue_created}
use job_queue_service.Api.{
  JobResponse, Answer, replied, job_response, create_job_route, create_answer,
}

module _ (db : Postgres) (redis : Redis) (uuids : Uuids) where
  open db use {Table}

  module _ (clock : Clock) (id : ℕ) (request : JobCreateRequest) (key : Option ℕ)
      (first second : Table → Table) (link : Link) (s : Stores db redis uuids) where
    -- The route once `create_job` has ended with `x`.
    abbrev answered :
        Result (Job × Bool) × Table → Result (Answer JobResponse) × Stores db redis uuids
    answered x =
        after (λ outcome. pure (create_answer outcome))
          (after (enqueue_created db redis uuids link) (x.0, (x.1, s.1)))

    route-answered :
        create_job_route db redis uuids clock id request key first second link s
        ≡ answered (create_job db clock id request key first second s.0)
    unfolding create_job_route submit_job
    route-answered = refl

    answer_and_table :
        (u u' : Stores db redis uuids) (a b : JobResponse)
        → ◌≡◌ {A = Result (Answer JobResponse) × Stores db redis uuids}
            (ok (replied 201 a), u)
            (ok (replied 201 b), u')
        → (b ≡ a) × (u.0 ≡ u'.0)
    answer_and_table u u' a b e = (cc, cc)

    -- A route that answers 201 has created the job, in the table that it leaves.
    answered_created :
        (x : Result (Job × Bool) × Table) (s' : Stores db redis uuids) (body : JobResponse)
        → answered x ≡ (ok (replied 201 body), s')
        → (job : Job) × (body ≡ job_response job) × (x ≡ (ok (job, true), s'.0))
    answered_created (ok (job, true), t) s' body e = elim (Bool-cases (is_pending job.status)) [
      | inl ready ↦
          let (same, left) = answer_and_table _ s' (job_response job) body (rw ready at e) in
          (job, same, ap (λ u. (ok (job, true), u)) left)
      | inr waits ↦
          let (same, left) = answer_and_table _ s' (job_response job) body (rw waits at e) in
          (job, same, ap (λ u. (ok (job, true), u)) left)
    ]
    answered_created (ok (job, false), t) s' body e = absurd (ground (arith, e))
    answered_created (err x, t) s' body e = absurd (cc)

  -- If the route that submits a job answered 201 under a key that is not empty, then the route,
  -- called again under that key within 24 hours and before anything else was written, answers 200
  -- with the same body, whatever it is asked for, and changes neither store.
  pub create_job_route-create_job_route :
      (clock clock' : Clock) (id id' key : ℕ) (request request' : JobCreateRequest)
      (first second first' second' : Table → Table) (link link' : Link)
      (s s' : Stores db redis uuids) (body : JobResponse)
      → is_given (some key) ≡ true
      → create_job_route db redis uuids clock id request (some key) first second link s
        ≡ (ok (replied 201 body), s')
      → clock'.found < clock.built + idempotency_ttl
      → create_job_route db redis uuids clock' id' request' (some key) first' second' link' s'
        ≡ (ok (replied 200 body), s')
  create_job_route-create_job_route clock clock' id id' key request request' first second first'
        second' link link' s s' body given e soon =
      let (job, same, made) =
        answered_created clock id request (some key) first second link s
          (create_job db clock id request (some key) first second s.0) s' body
          (sym (route-answered clock id request (some key) first second link s) ∙ e) in
      let again =
        create_job-create_job db clock clock' id id' key request request' first second first'
          second' s.0 s'.0 job given made soon in
      route-answered clock' id' request' (some key) first' second' link' s'
      ∙ ap (answered clock' id' request' (some key) first' second' link' s') again
      ∙ ap (λ (r : JobResponse). (ok (replied 200 r), s')) (sym same)
