-- ===== src/Worker/Sweeps/Queued.antt =====
-- What the scheduler's cycle puts into the ready queue.
use job_queue_service.Prelude.{
  ℕ, suc, ◌+◌, ◌<◌, ◌≡◌, refl, sym, ap, ◌∙◌, subst, true, Bool, Bool-cases, Option-cases, inl, inr,
  some, List, [], ◌∷◌, All, All-map, arith, is_some, length,
}
use job_queue_service.Prelude.Int.{ℤ}
use job_queue_service.Text.{equal}
use job_queue_service.Text.Laws.{equal_self}
use job_queue_service.Job.{Job}
use job_queue_service.Exec.{ok, after_same, or_raise-same, value_error}
use job_queue_service.Postgres.{Postgres}
use job_queue_service.Redis.{Redis, Uuids}
use job_queue_service.Queue.{
  exact_limit, Ready, Link, answered, enqueue, enqueue_script, entry_score, write_entry,
  from_member, member_of,
}
use job_queue_service.Queue.Index.{IsIndexed}
use job_queue_service.Queue.Enqueue.{enqueue_script-IsIndexed, enqueue_next}
use job_queue_service.Service.Mutate.{Stores, on_queue, logged}
use job_queue_service.Service.Sweep.{activate_due_scheduled_jobs}
use job_queue_service.Worker.Sweeps.{enqueue_each, schedule_once, schedule_once_whole}

module _ (redis : Redis) (uuids : Uuids) where
  open redis use {hget, value, zscore, hget-hset}
  open uuids use {text}

  -- The map has an entry of the job.
  abbrev pub Has : Ready redis uuids → ℕ → Type 0
  Has q i = is_some (hget q.entries (text i)) ≡ true

  record Steps (i : ℕ) (q q' : Ready redis uuids) : Type 0 where
    indexed : IsIndexed redis uuids q'
    counted : value q'.sequence ≡ value q.sequence + 1
    added : Has q' i
    kept : (k : ℕ) → Has q k → Has q' k

  write_entry-Steps :
      (score i : ℕ) (q : Ready redis uuids)
      → IsIndexed redis uuids q
      → value q.sequence + 1 < exact_limit
      → Steps i q (enqueue_script redis uuids score i q).1
  unfolding write_entry
  write_entry-Steps score i q h room =
      let (c, shown, e) =
        enqueue_next redis uuids score i (value q.sequence + 1) q refl (omega arith) in
      let indexed = enqueue_script-IsIndexed redis uuids score i q h room in
      record {
        indexed = indexed;
        counted = rw e shown;
        added = rw (e, hget-hset, equal_self (text i)) refl;
        kept = λ k has. elim (Bool-cases (equal (text i) (text k))) [
          | inl same ↦ rw (e, hget-hset, same) refl
          | inr other ↦ rw (e, hget-hset, other) has
        ];
      }

  enqueue-Steps :
      (link : Link) (i : ℕ) (priority : ℤ) (q : Ready redis uuids)
      → link ≡ answered
      → IsIndexed redis uuids q
      → value q.sequence + 1 < exact_limit
      → Steps i q (enqueue redis uuids link i priority q).1
  unfolding enqueue
  enqueue-Steps link i priority q works h room = rw works (
      subst (Steps i q)
        (sym (
          after_same _ (enqueue_script redis uuids (entry_score priority) i q) _ refl
            (λ m s. or_raise-same (from_member uuids m) value_error s)))
        (write_entry-Steps (entry_score priority) i q h room))

module _ (db : Postgres) (redis : Redis) (uuids : Uuids) where
  open redis use {hget, value, zscore}
  open uuids use {text}

  enqueue_each-Has :
      (jobs : List Job) (links : ℕ → Link) (s : Stores db redis uuids)
      → ((n : ℕ) → links n ≡ answered)
      → IsIndexed redis uuids s.1
      → value s.1.sequence + length jobs < exact_limit
      → let q = (enqueue_each db redis uuids links jobs s).1.1 in
        IsIndexed redis uuids q
        × ((k : ℕ) → Has redis uuids s.1 k → Has redis uuids q k)
        × All (λ j. Has redis uuids q j.id) jobs
  unfolding enqueue_each
  enqueue_each-Has [] links s works h room = (h, (λ k has. has), tt)
  enqueue_each-Has (job ∷ jobs) links s works h room =
      let one =
        enqueue-Steps redis uuids (links 0) job.id job.priority s.1 (works 0) h (omega arith) in
      let s' = (logged (on_queue (enqueue redis uuids (links 0) job.id job.priority)) s).1 in
      let (indexed, kept, all) =
        enqueue_each-Has jobs (λ n. links (suc n)) s' (λ n. works (suc n)) one.indexed
          (omega (arith, one.counted)) in
      (indexed, (λ k has. kept k (one.kept k has)), (kept job.id one.added, all))

  -- The job has an entry in the map, which is in the ready set and was formed for this job.
  abbrev pub IsQueued : Ready redis uuids → Job → Type 0
  IsQueued q j =
      (n : ℕ) × (hget q.entries (text j.id) ≡ some (member_of uuids n j.id))
      × (is_some (zscore q.ready (member_of uuids n j.id)) ≡ true)

  Has-IsQueued :
      (q : Ready redis uuids) (j : Job)
      → IsIndexed redis uuids q
      → Has redis uuids q j.id
      → IsQueued q j
  Has-IsQueued q j h has = elim (Option-cases (hget q.entries (text j.id))) [
    | inl gone ↦ absurd (cc (gone, has))
    | inr (m, found) ↦
        let (n, le, at, scored) = h.queued j.id m found in
        (n, found ∙ ap some at, subst (λ x. is_some (zscore q.ready x) ≡ true) at scored)
  ]

  -- If the activation returns rows, the queue answers, the index agrees and the counter has room
  -- below 2^53 for these rows, then a cycle of the scheduler returns their number, and each of them
  -- is in the ready queue then.
  pub schedule_once-IsQueued :
      (locked : ℕ → Bool) (batch_size now : ℕ) (links : ℕ → Link) (s : Stores db redis uuids)
      (activated : List Job)
      → (activate_due_scheduled_jobs db locked batch_size now s.0).0 ≡ ok activated
      → ((n : ℕ) → links n ≡ answered)
      → IsIndexed redis uuids s.1
      → value s.1.sequence + length activated < exact_limit
      → let x = schedule_once db redis uuids locked batch_size now links s in
        (x.0 ≡ ok (length activated)) × All (IsQueued x.1.1) activated
  schedule_once-IsQueued locked batch_size now links s activated e works h room =
      let t = (activate_due_scheduled_jobs db locked batch_size now s.0).1 in
      let s' : Stores db redis uuids = (t, s.1) in
      let (indexed, kept, all) = enqueue_each-Has activated links s' works h room in
      let queued =
        All-map activated
          (λ j has. Has-IsQueued (enqueue_each db redis uuids links activated s').1.1 j indexed has)
          all in
      let whole = schedule_once_whole db redis uuids locked batch_size now links s activated e in
      rw whole (refl, queued)
