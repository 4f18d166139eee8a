-- ===== src/Queue/Board/Shows.antt =====
-- The queue shows a board: the entry of every job is its ticket.
use job_queue_service.Prelude.{
  ℕ, ◌+◌, ◌≤◌, ◌<◌, ◌≡◌, ◌≢◌, refl, sym, ◌∙◌, subst, true, false, is_some, Option, none, some,
  arith, ==_self, Option-cases, inl, inr, ◌==◌, if◌then◌else◌,
}
use native.Mathlib.Decide.{ℕ_discrete}
use job_queue_service.Text.{Bytes, equal}
use job_queue_service.Text.Laws.{equal_self}
use job_queue_service.Redis.{Redis, Uuids, counter_limit}
use job_queue_service.Queue.{exact_limit, Ready, member_of, points_at, enqueue_script, write_entry}
use job_queue_service.Queue.Member.{member_of_injective}
use job_queue_service.Queue.Index.{IsIndexed, not_equal, text_ne, not_pointed, zscore-drop_previous}
use job_queue_service.Queue.Enqueue.{enqueue_script-IsIndexed}
use job_queue_service.Queue.Board.{Board, Ticket, take_ticket}

-- The board once job `i` holds the ticket of number `n`.
abbrev ticketed : Board → ℕ → ℕ → ℕ → Board
ticketed b score i n = record {
  ticket = λ j. if i == j then some (record { score = score; number = n }) else b.ticket j;
  last = n;
}

module _ (redis : Redis) (uuids : Uuids) where
  open redis use {
    zscore, hget, value, incr, incr_next, incr_room, zscore-zadd, zscore-zrem, hget-hset, hget-hdel,
  }
  open uuids use {text}

  -- The entry of job `i` in the queue is the ticket.
  abbrev pub Holds : Ready redis uuids → ℕ → Option Ticket → Type 0
  Holds q i none = hget q.entries (text i) ≡ none
  Holds q i (some t) =
      (hget q.entries (text i) ≡ some (member_of uuids t.number i))
      × (zscore q.ready (member_of uuids t.number i) ≡ some t.score)
      × (t.number ≤ value q.sequence)

  pub record Shows (q : Ready redis uuids) (b : Board) : Type 0 where
    pub indexed : IsIndexed redis uuids q
    pub last_shown : value q.sequence ≡ b.last
    pub holds : (i : ℕ) → Holds q i (b.ticket i)

  pub Holds-moved :
      (q q' : Ready redis uuids) (j : ℕ) (o : Option Ticket)
      → hget q'.entries (text j) ≡ hget q.entries (text j)
      → ((n : ℕ)
          → n ≤ value q.sequence
          → hget q.entries (text j) ≡ some (member_of uuids n j)
          → zscore q'.ready (member_of uuids n j) ≡ zscore q.ready (member_of uuids n j))
      → value q.sequence ≤ value q'.sequence
      → Holds q j o
      → Holds q' j o
  Holds-moved q q' j none entry scores le h = entry ∙ h
  Holds-moved q q' j (some t) entry scores le h =
      (entry ∙ h.0, scores t.number h.2 h.0 ∙ h.1, omega (arith, h.2))

  -- Another job's member is not the one at hand.
  pub other_member :
      (q : Ready redis uuids) (n i k j : ℕ)
      → IsIndexed redis uuids q
      → n < exact_limit
      → k ≤ value q.sequence
      → i ≢ j
      → equal (member_of uuids n i) (member_of uuids k j) ≡ false
  other_member q n i k j h room le ne =
      not_equal _ _
        λ same. ne (member_of_injective uuids n k i j room (omega (arith, h.counted)) same).1

  module _ (q : Ready redis uuids) (b : Board) (shows : Shows q b) (score i n : ℕ)
      (q' : Ready redis uuids) (next : n ≡ value q.sequence + 1) (shown : value q'.sequence ≡ n)
      (room : n < exact_limit)
      (scores : (m : Bytes)
        → zscore q'.ready m ≡ (
            if equal (member_of uuids n i) m
            then some score
            else (if points_at m (hget q.entries (text i)) then none else zscore q.ready m)))
      (entries : (m : Bytes)
        → hget q'.entries m
          ≡ (if equal (text i) m then some (member_of uuids n i) else hget q.entries m)) where
    taken_self : Holds q' i (some (record { score = score; number = n }))
    taken_self = (
      rw (entries (text i), equal_self (text i)) refl,
      rw (scores (member_of uuids n i), equal_self (member_of uuids n i)) refl,
      omega arith,
    )

    taken_other : (j : ℕ) → i ≢ j → Holds q' j (b.ticket j)
    taken_other j ne =
        Holds-moved q q' j (b.ticket j) (rw (entries (text j), text_ne redis uuids i j ne) refl)
          (λ k le entry.
            rw
              (
                scores (member_of uuids k j),
                other_member q n i k j shows.indexed room le ne,
                not_pointed redis uuids i j (member_of uuids k j) shows.indexed ne entry,
              )
              refl)
          (omega arith) (shows.holds j)

    taken-Holds :
        (j : ℕ)
        → Holds q' j (if i == j then some (record { score = score; number = n }) else b.ticket j)
    taken-Holds j = elim (ℕ_discrete i j) [
      | yes e ↦
          subst
            (λ k.
              Holds q' k
                (if i == k then some (record { score = score; number = n }) else b.ticket k))
            e (rw (==_self i) taken_self)
      | no ne ↦ let apart : (i == j) ≡ false = ground arith in rw apart (taken_other j ne)
    ]

  -- An enqueue hands out a ticket, as long as the script reads its number exactly.
  pub enqueue_script-Shows :
      (q : Ready redis uuids) (b : Board) (score i : ℕ)
      → Shows q b
      → b.last + 1 < exact_limit
      → Shows (enqueue_script redis uuids score i q).1 (take_ticket score i b)
  unfolding enqueue_script take_ticket
  enqueue_script-Shows q b score i shows left = elim (Option-cases (incr q.sequence)) [
    | inl full ↦
        let room : value q.sequence + 1 < counter_limit = omega (arith, shows.last_shown) in
        let goes : is_some (incr q.sequence) ≡ true = incr_room q.sequence room in
        absurd (cc (goes, full))
    | inr ((n, c), e) ↦
        let (next, shown, _) = incr_next q.sequence n c e in
        let room : n < exact_limit = omega (arith, next, shows.last_shown) in
        let at : n ≡ b.last + 1 = omega (arith, next, shows.last_shown) in
        let indexed =
          enqueue_script-IsIndexed redis uuids score i q shows.indexed
            (omega (arith, shows.last_shown)) in
        let q' = (write_entry redis uuids score i (n, c) q).1 in
        let enqueued : (enqueue_script redis uuids score i q).1 ≡ q' =
          rw (e, enqueue_script) refl in
        let holds' =
          taken-Holds q b shows score i n q' next shown room
            (λ m.
              rw (zscore-zadd, zscore-drop_previous redis uuids (hget q.entries (text i)) q.ready m)
                refl)
            (λ m. hget-hset (text i) (member_of uuids n i) q.entries m) in
        rw (← at) (
          subst (λ x. Shows x (ticketed b score i n)) (sym enqueued)
            (record {
              indexed = subst (IsIndexed redis uuids) enqueued indexed;
              last_shown = shown;
              holds = holds';
            }))
  ]
