-- ===== src/Queue/Stale.antt =====
-- A removal that comes late: the job has been enqueued again since the entry was seen.
use job_queue_service.Prelude.{
  some_injective, ℕ, ◌+◌, ◌<◌, ◌≤◌, ◌≡◌, ◌≢◌, refl, sym, false, some, arith, Option-cases, inl, inr,
}
use job_queue_service.Text.{Bytes, equal}
use job_queue_service.Redis.{Redis, Uuids}
use job_queue_service.Exec.{ok}
use job_queue_service.Queue.{
  exact_limit, Ready, member_of, write_entry, enqueue_script, remove_script,
}
use job_queue_service.Queue.Member.{member_of_injective}
use job_queue_service.Queue.Index.{not_equal}
use job_queue_service.Text.Laws.{equal_self}

module _ (redis : Redis) (uuids : Uuids) where
  open redis use {
    zscore, hget, value, incr, incr_next, zscore-zadd, zscore-zrem, hget-hset, hget-hdel,
  }
  open uuids use {text}

  kept_entry :
      (score i : ℕ) (old new : Bytes) (again : Ready redis uuids)
      → equal old new ≡ false
      → equal new old ≡ false
      → zscore again.ready new ≡ some score
      → hget again.entries (text i) ≡ some new
      → let left = (remove_script redis uuids old i again).1 in
        (zscore left.ready new ≡ some score) × (hget left.entries (text i) ≡ some new)
  unfolding remove_script
  kept_entry score i old new again once twice there entry =
      (rw (zscore-zrem, once) there, rw (entry, twice) entry)

  -- Once a job has been enqueued again, under a sequence number below 2^53, the removal of an entry
  -- with a sequence number that the counter had reached before leaves the new entry in the queue
  -- and in the map.
  pub remove_script-enqueue_script :
      (score n i : ℕ) (m : Bytes) (q : Ready redis uuids)
      → n ≤ value q.sequence
      → value q.sequence + 1 < exact_limit
      → (enqueue_script redis uuids score i q).0 ≡ ok m
      → let again = (enqueue_script redis uuids score i q).1 in
        let left = (remove_script redis uuids (member_of uuids n i) i again).1 in
        (zscore left.ready m ≡ some score) × (hget left.entries (text i) ≡ some m)
  unfolding enqueue_script remove_script
  remove_script-enqueue_script score n i m q seen left e = elim (Option-cases (incr q.sequence)) [
    | inl full ↦ absurd (ground (arith, e, full))
    | inr ((k, c), next) ↦
        let (is_next, shown, _) = incr_next q.sequence k c next in
        let room : k < exact_limit = omega (arith, is_next) in
        let new = member_of uuids k i in
        let old = member_of uuids n i in
        let apart : n ≢ k = λ p. omega (arith, p) in
        let differ : old ≢ new =
          λ p. apart (member_of_injective uuids n k i i (omega (arith, room)) room p).0 in
        let once : equal old new ≡ false = not_equal old new differ in
        let twice : equal new old ≡ false = not_equal new old (λ p. differ (sym p)) in
        let is_new : m ≡ new = some_injective (ground (arith, e, next)) in
        rw (is_new, next, enqueue_script)
          (kept_entry score i old new (write_entry redis uuids score i (k, c) q).1 once twice
            (rw (zscore-zadd, equal_self new) refl) (rw (hget-hset, equal_self (text i)) refl))
  ]
