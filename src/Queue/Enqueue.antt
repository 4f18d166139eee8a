-- ===== src/Queue/Enqueue.antt =====
-- `enqueue` keeps the index of the ready queue.
use job_queue_service.Prelude.{
  some_injective, ℕ, ◌+◌, ◌≤◌, ◌<◌, ◌≡◌, ◌≢◌, refl, sym, ap, ◌∙◌, subst, true, false, none, some,
  arith, is_some, Bool-cases, Option-cases, inl, inr, if◌then◌else◌,
}
use job_queue_service.Text.{Bytes, equal}
use job_queue_service.Text.Laws.{equal_self, equal→eq}
use native.Mathlib.Decide.{ℕ_discrete}
use job_queue_service.Redis.{Redis, Uuids, counter_limit}
use job_queue_service.Queue.{exact_limit, Ready, member_of, enqueue_script, write_entry, points_at}
use job_queue_service.Queue.Member.{member_of_injective}
use job_queue_service.Queue.Index.{not_equal, text_ne, not_pointed, zscore-drop_previous, IsIndexed}

module _ (redis : Redis) (uuids : Uuids) where
  open redis use {
    ZSet, Counter, zscore, hget, value, zscore-zadd, zscore-zrem, hget-hset, hget-hdel, incr_next,
    incr, incr_room,
  }
  open uuids use {text, parse, parse-text}

  -- A new entry for job `i`, under the number `n` that the counter now shows.
  module _ (q q' : Ready redis uuids) (h : IsIndexed redis uuids q) (score i n : ℕ)
      (shown : value q'.sequence ≡ n) (next : n ≡ value q.sequence + 1) (room : n < exact_limit)
      (scores : (m : Bytes)
        → zscore q'.ready m ≡ (
            if equal (member_of uuids n i) m
            then some score
            else (if points_at m (hget q.entries (text i)) then none else zscore q.ready m)))
      (entries : (m : Bytes)
        → hget q'.entries m
          ≡ (if equal (text i) m then some (member_of uuids n i) else hget q.entries m)) where
    hit : hget q'.entries (text i) ≡ some (member_of uuids n i)
    hit = rw (entries (text i), equal_self (text i))

    miss : (k : ℕ) → i ≢ k → hget q'.entries (text k) ≡ hget q.entries (text k)
    miss k ne = rw (entries (text k), text_ne redis uuids i k ne)

    added_entry_of :
        (m : Bytes) (s : ℕ)
        → zscore q'.ready m ≡ some s
        → (x : ℕ) × (k : ℕ) × (x ≤ value q'.sequence)
          × (m ≡ member_of uuids x k)
          × (hget q'.entries (text k) ≡ some m)
    added_entry_of m s e = elim (Bool-cases (equal (member_of uuids n i) m)) [
      | inl same ↦ let at = equal→eq _ m same in (n, i, omega arith, sym at, hit ∙ ap some at)
      | inr other ↦ elim (Bool-cases (points_at m (hget q.entries (text i)))) [
        | inl gone ↦ absurd (ground (arith, scores m))
        | inr kept ↦
            let (n', k, le, at, entry) = h.entry_of m s (ground (arith, scores m)) in
            elim (ℕ_discrete i k) [
              | yes here ↦ absurd (ground (arith, equal_self m))
              | no there ↦ (n', k, omega arith, at, miss k there ∙ entry)
            ]
      ]
    ]

    added_queued :
        (k : ℕ) (m : Bytes)
        → hget q'.entries (text k) ≡ some m
        → (x : ℕ) × (x ≤ value q'.sequence)
          × (m ≡ member_of uuids x k)
          × (is_some (zscore q'.ready m) ≡ true)
    added_queued k m e = elim (ℕ_discrete i k) [
      | yes here ↦
          let at : member_of uuids n i ≡ m =
            some_injective (sym hit ∙ ap (λ j. hget q'.entries (text j)) here ∙ e) in
          (
            n,
            omega arith,
            sym at ∙ ap (member_of uuids n) here,
            ground (arith, scores m, subst (λ x. equal x m ≡ true) (sym at) (equal_self m)),
          )
      | no there ↦
          let (n', le, at, scored) = h.queued k m (sym (miss k there) ∙ e) in
          let other : equal (member_of uuids n i) m ≡ false = not_equal _ _ λ same. absurd (
            omega (
              arith,
              (member_of_injective uuids n n' i k room (omega (arith, h.counted)) (same ∙ at)).0,
            )) in
          let kept : points_at m (hget q.entries (text i)) ≡ false =
            not_pointed redis uuids i k m h (λ same. there same) (sym (miss k there) ∙ e) in
          (n', omega arith, at, ground (arith, scores m))
    ]

    added-IsIndexed : IsIndexed redis uuids q'
    added-IsIndexed = record {
      counted = rw shown room;
      entry_of = added_entry_of;
      queued = added_queued;
    }

  -- An enqueue under a number that the script reads exactly keeps the ready set and the map in
  -- agreement.
  pub enqueue_script-IsIndexed :
      (score i : ℕ) (q : Ready redis uuids)
      → IsIndexed redis uuids q
      → value q.sequence + 1 < exact_limit
      → IsIndexed redis uuids (enqueue_script redis uuids score i q).1
  unfolding enqueue_script
  enqueue_script-IsIndexed score i q h left = elim (Option-cases (incr q.sequence)) [
    | inl full ↦ rw (full, enqueue_script) h
    | inr ((n, c), e) ↦
        let (next, shown, _) = incr_next q.sequence n c e in
        let room : n < exact_limit = omega (arith, next) in
        rw (e, enqueue_script)
          (added-IsIndexed q _ h score i n shown next room
            (λ m.
              rw (zscore-zadd, zscore-drop_previous redis uuids (hget q.entries (text i)) q.ready m)
                refl)
            (λ m. hget-hset (text i) (member_of uuids n i) q.entries m))
  ]

  -- While the counter has room, an enqueue writes the entry of its next number.
  pub enqueue_next :
      (score i n : ℕ) (q : Ready redis uuids)
      → value q.sequence + 1 ≡ n
      → n < counter_limit
      → (c : Counter) × (value c ≡ n)
        × (enqueue_script redis uuids score i q ≡ write_entry redis uuids score i (n, c) q)
  unfolding enqueue_script
  enqueue_next score i n q at room = elim (Option-cases (incr q.sequence)) [
    | inl full ↦
        let goes : is_some (incr q.sequence) ≡ true = incr_room q.sequence (omega arith) in
        absurd (cc (goes, full))
    | inr ((k, c), e) ↦
        let (next, shown, _) = incr_next q.sequence k c e in
        let same : k ≡ n = omega (arith, next) in (c, shown ∙ same, rw (e, ← same) refl)
  ]
