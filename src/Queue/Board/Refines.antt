-- ===== src/Queue/Board/Refines.antt =====
-- The queue implements its board, whatever sequence of calls its clients make.
use job_queue_service.Prelude.{
  some_injective, ℕ, ◌+◌, ◌≤◌, ◌<◌, ◌≡◌, sym, ap, ◌∙◌, subst, some, List, All, arith, Option-cases,
  inl, inr,
}
use job_queue_service.Redis.{Redis, Uuids}
use job_queue_service.Queue.{exact_limit, Ready, answered, member_of, peek}
use job_queue_service.Queue.Member.{member_of_injective}
use job_queue_service.Queue.Order.{peek-Best}
use job_queue_service.Queue.Board.{ops_taking, Board, Ticket, Op, on_boards, on_queues, Serves}
use job_queue_service.Queue.Board.Shows.{Holds, Shows}
use job_queue_service.Queue.Board.Steps.{InRange, on_queues-Shows}

ticket_eq :
    (t : Ticket) {a n : ℕ} → t.score ≡ a → t.number ≡ n → t ≡ record { score = a; number = n }
ticket_eq t points number = cc

module _ (redis : Redis) (uuids : Uuids) where
  open redis use {hget, value, zscore}
  open uuids use {text}

  -- The ticket of an entry that is queued.
  ticket_of :
      (q : Ready redis uuids) (b : Board) (n i a : ℕ)
      → Shows redis uuids q b
      → n < exact_limit
      → zscore q.ready (member_of uuids n i) ≡ some a
      → b.ticket i ≡ some (record { score = a; number = n })
  ticket_of q b n i a h room scored = elim (Option-cases (b.ticket i)) [
    | inl e ↦
        let held = subst (Holds redis uuids q i) e (h.holds i) in
        absurd (
          cc (
            held,
            subst (λ k. hget q.entries (text k) ≡ some (member_of uuids n i)) (sym job) entry,
          ))
    | inr (t, e) ↦
        let (found, score, le) = subst (Holds redis uuids q i) e (h.holds i) in
        let same = some_injective (
          sym found
          ∙ subst (λ k. hget q.entries (text k) ≡ some (member_of uuids n i)) (sym job) entry) in
        let number =
          (member_of_injective uuids t.number n i i (omega (arith, h.indexed.counted)) room
            same).0 in
        let points : t.score ≡ a = some_injective (
          sym (subst (λ k. zscore q.ready (member_of uuids k i) ≡ some t.score) number score)
          ∙ scored) in
        e ∙ ap some (ticket_eq t points number)
  ]
    where
      source :
          (n' : ℕ) × (i' : ℕ) × (n' ≤ value q.sequence)
          × (member_of uuids n i ≡ member_of uuids n' i')
          × (hget q.entries (text i') ≡ some (member_of uuids n i))
      source = h.indexed.entry_of (member_of uuids n i) a scored

      job : i ≡ source.1
      job =
          (member_of_injective uuids n source.0 i source.1 room
            (omega (arith, source.2, h.indexed.counted)) source.3).1

      entry : hget q.entries (text source.1) ≡ some (member_of uuids n i)
      entry = source.4

  -- `peek` serves the board that is shown.
  pub peek-Serves :
      (q : Ready redis uuids) (b : Board)
      → Shows redis uuids q b
      → Serves uuids b (peek redis uuids answered q).0
  peek-Serves q b h = elim (peek-Best redis uuids q h.indexed).0 [
    | inl (empty, nobody) ↦ inl (
      empty,
      λ i. elim (Option-cases (b.ticket i)) [
        | inl e ↦ e
        | inr (t, e) ↦
            let (_, score, _) = subst (Holds redis uuids q i) e (h.holds i) in
            absurd (cc (score, nobody (member_of uuids t.number i)))
      ],
    )
    | inr (n, i, a, e, room, scored, best) ↦ inr (
      i,
      record { score = a; number = n },
      e,
      ticket_of q b n i a h room scored,
      λ j u holds.
          let (_, score, le) = subst (Holds redis uuids q j) holds (h.holds j) in
          best u.number j u.score (omega (arith, h.indexed.counted)) score,
    )
  ]

  -- Whatever sequence of enqueues, removals and removals by job the clients make, with commands
  -- answered, lost or timed out, and with other calls between the two commands of a removal by job,
  -- on a queue that shows a board: the queue that they leave shows the board on which the same
  -- tickets were taken and handed back, a removal by job handing back the ticket that it has looked
  -- up and no newer one, and `peek` on it serves a job with the least ticket of that board, or
  -- nothing if nobody holds one. The removed entries have sequence numbers below 2^53, and the
  -- calls take no ticket with a number from there on.
  pub on_queues-Serves :
      (q : Ready redis uuids) (b : Board) (ops : List Op)
      → All InRange ops
      → b.last + ops_taking ops < exact_limit
      → Shows redis uuids q b
      → Shows redis uuids (on_queues redis uuids ops q) (on_boards ops b)
        × Serves uuids (on_boards ops b) (peek redis uuids answered (on_queues redis uuids ops q)).0
  on_queues-Serves q b ops r left h =
      let shown = on_queues-Shows redis uuids q b ops r left h in
      (shown, peek-Serves (on_queues redis uuids ops q) (on_boards ops b) shown)
