-- ===== src/Queue/Board/Steps.antt =====
-- Every call of a client keeps the queue in step with its board.
use job_queue_service.Prelude.{
  ℕ, ◌+◌, ◌<◌, ◌≤◌, ◌≡◌, refl, sym, subst, Option, none, some, List, [], ◌∷◌, All, arith,
}
use job_queue_service.Prelude.Int.{ℤ}
use job_queue_service.Exec.{after_same, or_raise-same, value_error}
use job_queue_service.Redis.{Redis, Uuids}
use job_queue_service.Queue.{
  exact_limit, from_member, Ready, Link, answered, lost, timed_out, enqueue_script, entry_score,
  enqueue, remove, remove_current,
}
use job_queue_service.Queue.Member.{candidate_at, from_member-member_of}
use job_queue_service.Queue.Board.{
  Board, Ticket, Call, Op, enqueues, removes, calls, removes_current, call_board, calls_board,
  call_queue, calls_queue, on_board, on_boards, on_queue, on_queues, take_ticket, hand_back,
  hand_back_seen, calls_taking, ops_taking,
}
use job_queue_service.Queue.Board.Shows.{Holds, Shows, enqueue_script-Shows}
use job_queue_service.Queue.Board.Removed.{remove_script-Shows}

-- The entries that clients name have numbers that the script has read exactly.
abbrev pub InRangeCall : Call → Type 0
InRangeCall (enqueues link i priority) = Unit
InRangeCall (removes link n i) = n < exact_limit

abbrev pub InRange : Op → Type 0
InRange (calls c) = InRangeCall c
InRange (removes_current first between second i) = All InRangeCall between

call_board-last : (c : Call) (b : Board) → (call_board c b).last ≤ b.last + calls_taking (c ∷ [])
unfolding take_ticket hand_back
call_board-last (enqueues answered i priority) b = omega arith
call_board-last (enqueues lost i priority) b = omega arith
call_board-last (enqueues timed_out i priority) b = omega arith
call_board-last (removes answered n i) b = omega arith
call_board-last (removes lost n i) b = omega arith
call_board-last (removes timed_out n i) b = omega arith

calls_taking-cons :
    (c : Call) (cs : List Call) → calls_taking (c ∷ cs) ≡ calls_taking (c ∷ []) + calls_taking cs
calls_taking-cons (enqueues link i priority) cs = omega arith
calls_taking-cons (removes link n i) cs = omega arith

calls_board-last : (cs : List Call) (b : Board) → (calls_board cs b).last ≤ b.last + calls_taking cs
calls_board-last [] b = omega arith
calls_board-last (c ∷ cs) b =
    omega (arith, calls_taking-cons c cs, call_board-last c b, calls_board-last cs (call_board c b))

hand_back_seen-last :
    (link : Link) (i : ℕ) (o : Option Ticket) (b : Board)
    → (hand_back_seen link i o b).last ≡ b.last
unfolding hand_back
hand_back_seen-last link i none b = refl
hand_back_seen-last answered i (some t) b = refl
hand_back_seen-last lost i (some t) b = refl
hand_back_seen-last timed_out i (some t) b = refl

on_board-last :
    (op : Op) (ops : List Op) (b : Board)
    → (on_board op b).last + ops_taking ops ≤ b.last + ops_taking (op ∷ ops)
on_board-last (calls c) ops b = omega (arith, call_board-last c b)
on_board-last (removes_current answered between second i) ops b = omega (
  arith,
  calls_board-last between b,
  hand_back_seen-last second i (b.ticket i) (calls_board between b),
)
on_board-last (removes_current lost between second i) ops b = omega arith
on_board-last (removes_current timed_out between second i) ops b = omega arith

module _ (redis : Redis) (uuids : Uuids) where
  open redis use {hget, value, zscore}
  open uuids use {text}

  call_queue-enqueues :
      (q : Ready redis uuids) (b : Board) (link : Link) (i : ℕ) (priority : ℤ)
      → Shows redis uuids q b
      → b.last + 1 < exact_limit
      → Shows redis uuids
          (enqueue redis uuids link i priority q).1
          (call_board (enqueues link i priority) b)
  unfolding enqueue
  call_queue-enqueues q b answered i priority h left =
      subst (λ x. Shows redis uuids x (take_ticket (entry_score priority) i b))
        (sym (
          after_same _ (enqueue_script redis uuids (entry_score priority) i q) _ refl
            (λ m s. or_raise-same (from_member uuids m) value_error s)))
        (enqueue_script-Shows redis uuids q b (entry_score priority) i h left)
  call_queue-enqueues q b lost i priority h left = h
  call_queue-enqueues q b timed_out i priority h left =
      enqueue_script-Shows redis uuids q b (entry_score priority) i h left

  call_queue-removes :
      (q : Ready redis uuids) (b : Board) (link : Link) (n i : ℕ)
      → n < exact_limit
      → Shows redis uuids q b
      → Shows redis uuids
          (remove redis uuids link (candidate_at uuids n i) q).1
          (call_board (removes link n i) b)
  unfolding remove
  call_queue-removes q b answered n i r h = remove_script-Shows redis uuids q b h n i r
  call_queue-removes q b lost n i r h = h
  call_queue-removes q b timed_out n i r h = remove_script-Shows redis uuids q b h n i r

  calls_queue-Shows :
      (q : Ready redis uuids) (b : Board) (cs : List Call)
      → All InRangeCall cs
      → b.last + calls_taking cs < exact_limit
      → Shows redis uuids q b
      → Shows redis uuids (calls_queue redis uuids cs q) (calls_board cs b)
  calls_queue-Shows q b [] r left h = h
  calls_queue-Shows q b (enqueues link i priority ∷ cs) r left h =
      calls_queue-Shows (call_queue redis uuids (enqueues link i priority) q)
        (call_board (enqueues link i priority) b) cs r.1
        (omega (arith, call_board-last (enqueues link i priority) b))
        (call_queue-enqueues q b link i priority h (omega arith))
  calls_queue-Shows q b (removes link n i ∷ cs) r left h =
      calls_queue-Shows (call_queue redis uuids (removes link n i) q)
        (call_board (removes link n i) b) cs r.1
        (omega (arith, call_board-last (removes link n i) b))
        (call_queue-removes q b link n i r.0 h)

  -- The look-up finds the ticket, and the removal takes that ticket and no newer one.
  on_queue-found :
      (q : Ready redis uuids) (b : Board) (between : List Call) (second : Link) (i : ℕ)
      (o : Option Ticket)
      → b.ticket i ≡ o
      → All InRangeCall between
      → b.last + calls_taking between < exact_limit
      → Shows redis uuids q b
      → Shows redis uuids
          (remove_current redis uuids answered (calls_queue redis uuids between) second i q).1
          (hand_back_seen second i o (calls_board between b))
  unfolding remove_current
  on_queue-found q b between second i none e r left h =
      let held = subst (Holds redis uuids q i) e (h.holds i) in
      rw held (calls_queue-Shows q b between r left h)
  on_queue-found q b between second i (some t) e r left h =
      let (entry, scored, le) = subst (Holds redis uuids q i) e (h.holds i) in
      let room : t.number < exact_limit = omega (arith, h.indexed.counted) in
      rw (entry, from_member-member_of uuids t.number i room)
        (call_queue-removes _ (calls_board between b) second t.number i room
          (calls_queue-Shows q b between r left h))

  on_queue-Shows :
      (q : Ready redis uuids) (b : Board) (op : Op)
      → InRange op
      → b.last + ops_taking (op ∷ []) < exact_limit
      → Shows redis uuids q b
      → Shows redis uuids (on_queue redis uuids op q) (on_board op b)
  unfolding remove_current
  on_queue-Shows q b (calls c) r left h = calls_queue-Shows q b (c ∷ []) (r, tt) (omega arith) h
  on_queue-Shows q b (removes_current answered between second i) r left h =
      on_queue-found q b between second i (b.ticket i) refl r (omega arith) h
  on_queue-Shows q b (removes_current lost between second i) r left h = h
  on_queue-Shows q b (removes_current timed_out between second i) r left h = h

  ops_taking-cons : (op : Op) (ops : List Op) → ops_taking (op ∷ []) ≤ ops_taking (op ∷ ops)
  ops_taking-cons (calls c) ops = omega arith
  ops_taking-cons (removes_current first between second i) ops = omega arith

  -- From a queue that shows a board, any sequence of calls leaves a queue that shows the board's.
  pub on_queues-Shows :
      (q : Ready redis uuids) (b : Board) (ops : List Op)
      → All InRange ops
      → b.last + ops_taking ops < exact_limit
      → Shows redis uuids q b
      → Shows redis uuids (on_queues redis uuids ops q) (on_boards ops b)
  on_queues-Shows q b [] r left h = h
  on_queues-Shows q b (op ∷ ops) r left h =
      on_queues-Shows (on_queue redis uuids op q) (on_board op b) ops r.1
        (omega (arith, on_board-last op ops b))
        (on_queue-Shows q b op r.0 (omega (arith, ops_taking-cons op ops)) h)
