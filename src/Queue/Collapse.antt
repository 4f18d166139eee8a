-- ===== src/Queue/Collapse.antt =====
-- Where the numbers of the enqueue script stop being exact: two answers of `INCR`, one member.
use job_queue_service.Prelude.{
  ℕ, ◌+◌, ◌*◌, ◌%◌, ◌≤◌, ◌<◌, ◌≡◌, refl, sym, ◌∙◌, true, false, arith, ltb, none, some,
}
use job_queue_service.Text.Laws.{equal_self}
use job_queue_service.Redis.{Redis, Uuids}
use job_queue_service.Exec.{ok}
use job_queue_service.Queue.Enqueue.{enqueue_next}
use job_queue_service.Queue.{
  Ready, exact_limit, nearest, script_number, member_of, write_entry, enqueue_script, remove_script,
}

nearest-two : (n : ℕ) → n % 4 ≡ 0 → nearest 2 n ≡ n
unfolding nearest
nearest-two n h = ground arith

nearest-two_next : (n : ℕ) → n % 4 ≡ 0 → nearest 2 (n + 1) ≡ n
unfolding nearest
nearest-two_next n h = ground arith

-- The number of a script for an answer between 2^53 and 2^54.
script_number-double :
    (n : ℕ) → exact_limit ≤ n → n < 2 * exact_limit → script_number n ≡ nearest 2 n
unfolding script_number
script_number-double n low high =
    let beyond : ltb n (exact_limit * 1) ≡ false = ground arith in
    let within : ltb n (exact_limit * (2 * 1)) ≡ true = ground arith in rw (beyond, within)

script_number-collapses :
    (n : ℕ)
    → exact_limit ≤ n
    → n + 1 < 2 * exact_limit
    → n % 4 ≡ 0
    → script_number (n + 1) ≡ script_number n
script_number-collapses n low high even =
    script_number-double (n + 1) (omega arith) high
    ∙ nearest-two_next n even
    ∙ sym (script_number-double n low (omega arith) ∙ nearest-two n even)

module _ (redis : Redis) (uuids : Uuids) where
  open redis use {Counter, value, incr, incr_next, incr_room, zscore, zscore-zadd, zscore-zrem}

  member_of-collapses :
      (n i : ℕ)
      → exact_limit ≤ n
      → n + 1 < 2 * exact_limit
      → n % 4 ≡ 0
      → member_of uuids (n + 1) i ≡ member_of uuids n i
  unfolding member_of
  member_of-collapses n i low high even = rw (script_number-collapses n low high even) refl

  -- If the next number of the counter is a multiple of 4 between 2^53 and 2^54, then two enqueues
  -- of one job, one after the other, return the same member, and the removal of the first entry,
  -- when it comes after the second enqueue, takes the second entry out of the queue.
  pub remove_script-collapses :
      (n i a b : ℕ) (q : Ready redis uuids)
      → value q.sequence + 1 ≡ n
      → exact_limit ≤ n
      → n + 1 < 2 * exact_limit
      → n % 4 ≡ 0
      → let first = enqueue_script redis uuids a i q in
        let second = enqueue_script redis uuids b i first.1 in
        let left = (remove_script redis uuids (member_of uuids n i) i second.1).1 in
        (first.0 ≡ ok (member_of uuids n i))
        × (second.0 ≡ ok (member_of uuids n i))
        × (zscore second.1.ready (member_of uuids n i) ≡ some b)
        × (zscore left.ready (member_of uuids n i) ≡ none)
  unfolding write_entry remove_script
  remove_script-collapses n i a b q at low high even =
      let (c, shown, first) = enqueue_next redis uuids a i n q at (omega arith) in
      let once = (write_entry redis uuids a i (n, c) q).1 in
      let (c', _, second) =
        enqueue_next redis uuids b i (n + 1) once (omega (arith, shown)) (omega arith) in
      let same = member_of-collapses n i low high even in
      rw (first, second, same)
        (
          refl,
          refl,
          rw (zscore-zadd, equal_self (member_of uuids n i)) refl,
          rw (zscore-zrem, equal_self (member_of uuids n i)) refl,
        )
