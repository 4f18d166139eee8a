-- ===== src/Worker/Execute/Going.antt =====
-- The stores while the owner of a job works on it.
use job_queue_service.Prelude.{
  Option, ℕ, zero, suc, ◌+◌, ◌≡◌, refl, sym, ap, ◌∙◌, subst, true, some, arith, some_injective,
  ◌==◌, if◌then◌else◌,
}
use native.Mathlib.Decide.{ℕ_discrete}
use job_queue_service.Prelude.Int.{pos, clamp}
use job_queue_service.Job.{Job, Attempt}
use job_queue_service.Job.Sound.{IsSound}
use job_queue_service.Exec.{Result, ok}
use job_queue_service.Postgres.{Postgres}
use job_queue_service.Redis.{Redis, Uuids}
use job_queue_service.Statement.{owned_by, progressing}
use job_queue_service.Statement.Safe.{progressing-IsSafe}
use job_queue_service.Session.Laws.{Rows, OtherRows}
use job_queue_service.Jobs.{Outcome, finished, JobContext, each_item, go_on, batch_result}
use job_queue_service.Service.Owner.{update_progress}
use job_queue_service.Service.Owner.Settle.{update_progress-Settled}
use job_queue_service.Service.Mutate.{Stores}
use job_queue_service.Worker.Execute.{Python, progress_reporter, context_of}

-- What others may do to the stores while the owner of a job sleeps: they leave the rows sound and the
-- row of the job as it is, but for its lease, which the heartbeat extends.
module _ (db : Postgres) (redis : Redis) (uuids : Uuids) (a : Attempt) where
  pub record IsPatient (f : Stores db redis uuids → Stores db redis uuids) : Type 0 where
    pub keeps_sound : (s : Stores db redis uuids) → Rows db IsSound s.0 → Rows db IsSound (f s).0
    pub keeps_row :
        (s : Stores db redis uuids) (k : Job)
        → Rows db IsSound s.0
        → db.row s.0 a.job_id ≡ some k
        → owned_by a k ≡ true
        → (lease : Option ℕ) × (db.row (f s).0 a.job_id
            ≡ some (record k { lease_expires_at = lease }))

module _ (db : Postgres) (redis : Redis) (uuids : Uuids) (python : Python) (a : Attempt) (j : Job)
    (owns : owned_by a j ≡ true) where
  open db use {Table, row}

  -- The row of the job at this progress, under this lease.
  abbrev pub going_row : ℕ → Option ℕ → Job
  going_row progress lease = record j { progress = progress; lease_expires_at = lease }

  -- The row of the job is `j`, but for its progress and its lease.
  pub record Going (s : Stores db redis uuids) : Type 0 where
    pub sound : Rows db IsSound s.0
    pub progress : ℕ
    pub lease : Option ℕ
    pub at : row s.0 a.job_id ≡ some (going_row progress lease)

  -- The table after a report of progress.
  reported-IsSound :
      (p q : ℕ) (lease : Option ℕ) (before after : Table)
      → Rows db IsSound before
      → row before a.job_id ≡ some (going_row p lease)
      → row after a.job_id ≡ some (going_row (clamp 100 (pos q)) lease)
      → OtherRows db a.job_id before after
      → Rows db IsSound after
  unfolding progressing
  reported-IsSound p q lease before after sound found at rest i k e = elim (ℕ_discrete i a.job_id) [
    | yes same ↦
        let kept =
          (progressing-IsSafe a (pos q)).keeps_sound (going_row p lease) owns
            (sound a.job_id (going_row p lease) found) in
        subst IsSound (some_injective (sym at ∙ subst (λ n. row after n ≡ some k) same e)) kept
    | no other ↦ sound i k (sym (rest i other) ∙ e)
  ]

  Going-progress_reporter :
      (processed total : ℕ) (s : Stores db redis uuids)
      → Going s
      → let x = progress_reporter db redis uuids python a processed total s in
        (x.0 ≡ ok tt) × Going x.1
  unfolding progress_reporter
  Going-progress_reporter processed total s h =
      let q = if total == 0 then 100 else python.percentage processed total in
      let (ends, at, rest) =
        update_progress-Settled db a s.0 h.sound (going_row h.progress h.lease) h.at owns (pos q) in
      (
        ends,
        record {
          sound =
              reported-IsSound h.progress q h.lease s.0 (update_progress db a (pos q) s.0).1 h.sound
                h.at at rest;
          progress = clamp 100 (pos q);
          lease = h.lease;
          at = at;
        },
      )

  Going-slept :
      (f : Stores db redis uuids → Stores db redis uuids) (s : Stores db redis uuids)
      → IsPatient db redis uuids a f
      → Going s
      → Going (f s)
  Going-slept f s patient h =
      let (lease, at) = patient.keeps_row s (going_row h.progress h.lease) h.sound h.at owns in
      record {
        sound = patient.keeps_sound s h.sound;
        progress = h.progress;
        lease = lease;
        at = at;
      }

  went :
      (rest : Stores db redis uuids → Outcome × Stores db redis uuids)
      (x : Result (Unit {0}) × Stores db redis uuids)
      → x.0 ≡ ok tt
      → go_on rest x ≡ rest x.1
  went rest x e = rw e refl

  module _ (context : JobContext (Stores db redis uuids))
      (patient : (n : ℕ) → IsPatient db redis uuids a (context.sleep n)) where
    abbrev pub here : JobContext (Stores db redis uuids)
    here = context_of db redis uuids python j a context

    -- The loop over the items returns.
    pub each_item-Going :
        (left processed total : ℕ) (s : Stores db redis uuids)
        → Going s
        → (s' : Stores db redis uuids) × (each_item here left processed total s
            ≡ (finished (batch_result (processed + left) total), s'))
          × Going s'
    unfolding each_item
    each_item-Going zero processed total s h =
        (s, ap (λ n. (finished (batch_result n total), s)) (omega arith), h)
    each_item-Going (suc left) processed total s h =
        let slept = Going-slept (context.sleep processed) s (patient processed) h in
        let (ends, going) =
          Going-progress_reporter (processed + 1) total (context.sleep processed s) slept in
        let (s', returns, last) = each_item-Going left (processed + 1) total _ going in
        (
          s',
          went (each_item here left (processed + 1) total)
                (progress_reporter db redis uuids python a (processed + 1) total
                  (context.sleep processed s))
                ends
              ∙ returns
              ∙ ap (λ n. (finished (batch_result n total), s')) (omega arith),
          last,
        )
