-- ===== src/Queue/Remove.antt =====
-- `remove` keeps the index of the ready queue.
use job_queue_service.Prelude.{
  some_injective, ◌&&◌, ◌<◌, sym, ◌∙◌, ap, ℕ, ◌≤◌, ◌≡◌, true, false, none, some, arith, is_some,
  if◌then◌else◌,
}
use job_queue_service.Text.{Bytes, equal}
use job_queue_service.Text.Laws.{equal_self}
use native.Mathlib.Decide.{ℕ_discrete}
use job_queue_service.Redis.{Redis, Uuids}
use job_queue_service.Queue.{
  exact_limit, QueueCandidate, Ready, member_of, from_member, remove_script, points_at,
}
use job_queue_service.Queue.Member.{from_member-member_of, candidate_at}
use job_queue_service.Queue.Index.{not_equal, points_at→eq, text_ne, IsIndexed}

module _ (redis : Redis) (uuids : Uuids) where
  open redis use {
    ZSet, Counter, zscore, hget, value, zscore-zadd, zscore-zrem, hget-hset, hget-hdel, incr_next,
    incr,
  }
  open uuids use {text, parse, parse-text}

  -- The candidate was read off a member.
  abbrev pub IsRead : QueueCandidate → Type 0
  IsRead c = from_member uuids c.member ≡ some c

  module _ (q : Ready redis uuids) (h : IsIndexed redis uuids q) (c : QueueCandidate)
      (read : IsRead c) where
    removed : Ready redis uuids
    unfolding remove_script
    removed = (remove_script redis uuids c.member c.job_id q).1

    hget-removed :
        (k : Bytes)
        → hget removed.entries k ≡ (
            if points_at c.member (hget q.entries (text c.job_id)) && equal (text c.job_id) k
            then none
            else hget q.entries k)
    unfolding removed
    hget-removed k = ground (arith, hget-hdel (text c.job_id) q.entries k)

    removed_entry_of :
        (m : Bytes) (s : ℕ)
        → zscore removed.ready m ≡ some s
        → (n : ℕ) × (k : ℕ) × (n ≤ value removed.sequence)
          × (m ≡ member_of uuids n k)
          × (hget removed.entries (text k) ≡ some m)
    unfolding removed
    removed_entry_of m s e =
        let other : equal c.member m ≡ false = ground (arith, zscore-zrem c.member q.ready m) in
        let (n, k, le, at, entry) =
          h.entry_of m s (ground (arith, zscore-zrem c.member q.ready m)) in
        (n, k, le, at, kept k other entry)
      where
        kept :
            (k : ℕ)
            → equal c.member m ≡ false
            → hget q.entries (text k) ≡ some m
            → hget removed.entries (text k) ≡ some m
        kept k other entry = elim (ℕ_discrete c.job_id k) [
          | yes here ↦ ground (
            arith,
            hget-removed (text k),
            equal_self m,
            points_at→eq c.member (hget q.entries (text c.job_id)),
          )
          | no there ↦ ground (arith, hget-removed (text k), text_ne redis uuids c.job_id k there)
        ]

    -- What the map still holds is not the member that was removed.
    still_there :
        (k : ℕ) (m : Bytes) (n : ℕ)
        → n < exact_limit
        → m ≡ member_of uuids n k
        → c.member ≡ m
        → hget q.entries (text k) ≡ some m
        → hget removed.entries (text k) ≡ some m
        → ⊥
    still_there k m n room at same old e =
        let found : some c ≡ some (candidate_at uuids n k) =
          sym read ∙ ap (from_member uuids) (same ∙ at) ∙ from_member-member_of uuids n k room in
        let here : c.job_id ≡ k = ap (λ (x : QueueCandidate). x.job_id) (some_injective found) in
        ground (
          arith,
          hget-removed (text k),
          equal_self (text k),
          equal_self m,
          ap text here,
          ap (λ j. hget q.entries (text j)) here,
          ap (λ j. equal (text j) (text k)) here,
        )

    removed_queued :
        (k : ℕ) (m : Bytes)
        → hget removed.entries (text k) ≡ some m
        → (n : ℕ) × (n ≤ value removed.sequence)
          × (m ≡ member_of uuids n k)
          × (is_some (zscore removed.ready m) ≡ true)
    unfolding removed
    removed_queued k m e =
        let old : hget q.entries (text k) ≡ some m = ground (arith, hget-removed (text k)) in
        let (n, le, at, scored) = h.queued k m old in
        let other : equal c.member m ≡ false =
          not_equal _ _ λ same. still_there k m n (omega (arith, h.counted)) at same old e in
        (n, le, at, ground (arith, zscore-zrem c.member q.ready m))

    -- The removal of a candidate that was read from a member keeps the ready set and the map in
    -- agreement.
    pub remove_script-IsIndexed :
        IsIndexed redis uuids (remove_script redis uuids c.member c.job_id q).1
    unfolding removed
    remove_script-IsIndexed = record {
      counted = h.counted;
      entry_of = removed_entry_of;
      queued = removed_queued;
    }
