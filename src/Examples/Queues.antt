-- ===== src/Examples/Queues.antt =====
-- The theorems on the ready queue at a queue of two jobs.
use job_queue_service.Prelude.{ℕ, ◌+◌, ◌<◌, ◌≡◌, ◌≢◌, refl, none, some, arith, []}
use job_queue_service.Text.{Bytes, precedes}
use job_queue_service.Exec.{ok}
use job_queue_service.Redis.Memory.{store, short_ids}
use job_queue_service.Queue.Collapse.{remove_script-collapses}
use job_queue_service.Queue.{
  exact_limit, Ready, enqueue_script, remove_script, member_of, from_member, peek, answered,
}
use job_queue_service.Queue.Member.{candidate_at, from_member-member_of}
use job_queue_service.Queue.Index.{IsIndexed}
use job_queue_service.Queue.Enqueue.{enqueue_script-IsIndexed}
use job_queue_service.Queue.Order.{Best, peek-Best}

abbrev pub no_jobs : Ready store short_ids
no_jobs = record { ready = []; sequence = 0; entries = [] }

nothing : (m : Bytes) (s : ℕ) → store.zscore no_jobs.ready m ≢ some s
unfolding job_queue_service.Redis.Memory.Range.lookup
nothing m s e = ground arith

no_entry : (i : ℕ) (m : Bytes) → store.hget no_jobs.entries (short_ids.text i) ≢ some m
unfolding job_queue_service.Redis.Memory.Range.lookup
no_entry i m e = ground arith

pub no_jobs-IsIndexed : IsIndexed store short_ids no_jobs
no_jobs-IsIndexed = record {
  counted = omega arith;
  entry_of = λ m s e. absurd (nothing m s e);
  queued = λ i m e. absurd (no_entry i m e);
}

abbrev pub one_job : Ready store short_ids
one_job = (enqueue_script store short_ids 95 1 no_jobs).1

pub one_job-IsIndexed : IsIndexed store short_ids one_job
one_job-IsIndexed =
    enqueue_script-IsIndexed store short_ids 95 1 no_jobs no_jobs-IsIndexed (omega arith)

abbrev two_jobs : Ready store short_ids
two_jobs = (enqueue_script store short_ids 20 2 one_job).1

one_counted : store.value one_job.sequence + 1 < exact_limit
unfolding enqueue_script job_queue_service.Redis.Memory.increase
one_counted = omega arith

two_jobs-IsIndexed : IsIndexed store short_ids two_jobs
two_jobs-IsIndexed =
    enqueue_script-IsIndexed store short_ids 20 2 one_job one_job-IsIndexed one_counted

-- The job of the lower score comes out first.
peek-two_jobs : (peek store short_ids answered two_jobs).0 ≡ ok (some (candidate_at short_ids 2 2))
unfolding peek enqueue_script job_queue_service.Redis.Memory.Range.range
    job_queue_service.Redis.Memory.increase job_queue_service.Redis.Memory.Range.lookup
    job_queue_service.Text.equal job_queue_service.Text.zero_padded from_member
    job_queue_service.Text.partition job_queue_service.Redis.Memory.one_byte
    job_queue_service.Text.decimal
peek-two_jobs = refl

peek-Best_example :
    Best store short_ids two_jobs (peek store short_ids answered two_jobs).0
    × ((peek store short_ids answered two_jobs).1 ≡ two_jobs)
peek-Best_example = peek-Best store short_ids two_jobs two_jobs-IsIndexed

candidate-two : from_member short_ids (member_of short_ids 2 2) ≡ some (candidate_at short_ids 2 2)
candidate-two = from_member-member_of short_ids 2 2 (omega arith)

from_member-member_of_example :
    from_member short_ids (member_of short_ids 7 3) ≡ some (candidate_at short_ids 7 3)
from_member-member_of_example = from_member-member_of short_ids 7 3 (omega arith)

-- The queue whose next number is 2^53.
abbrev late_jobs : Ready store short_ids
late_jobs = record no_jobs { sequence = 9007199254740991 }

remove_script-collapses_example :
    let first = enqueue_script store short_ids 20 1 late_jobs in
    let second = enqueue_script store short_ids 90 1 first.1 in
    let left =
      (remove_script store short_ids (member_of short_ids 9007199254740992 1) 1 second.1).1 in
    (first.0 ≡ ok (member_of short_ids 9007199254740992 1))
    × (second.0 ≡ ok (member_of short_ids 9007199254740992 1))
    × (store.zscore second.1.ready (member_of short_ids 9007199254740992 1) ≡ some 90)
    × (store.zscore left.ready (member_of short_ids 9007199254740992 1) ≡ none)
remove_script-collapses_example =
    remove_script-collapses store short_ids 9007199254740992 1 20 90 late_jobs (omega arith)
      (omega arith) (omega arith) (omega arith)
