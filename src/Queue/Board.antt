-- ===== src/Queue/Board.antt =====
-- What the ready queue promises, without its representation: each job holds at most one ticket, of
-- a score and a number, numbers are given out in order, and the least ticket is served.
pub mod Shows
pub mod Removed
pub mod Steps
pub mod Refines
use job_queue_service.Prelude.{
  ℕ, ◌+◌, ◌≤◌, ◌≡◌, ◌⊎◌, ◌==◌, Option, none, some, List, [], ◌∷◌, ltb, if◌then◌else◌,
}
use job_queue_service.Prelude.Int.{ℤ}
use job_queue_service.Exec.{Result, ok}
use job_queue_service.Redis.{Redis, Uuids}
use job_queue_service.Queue.{
  Ready, Link, answered, lost, timed_out, QueueCandidate, entry_score, enqueue, remove,
  remove_current,
}
use job_queue_service.Queue.Member.{candidate_at}

pub record Ticket : Type 0 where
  pub score : ℕ
  pub number : ℕ

pub record Board : Type 0 where
  pub ticket : ℕ → Option Ticket
  pub last : ℕ

-- A fresh ticket for the job.
unfoldable pub take_ticket : ℕ → ℕ → Board → Board
take_ticket score i b = record {
  ticket = λ j. if i == j then some (record { score = score; number = b.last + 1 }) else b.ticket j;
  last = b.last + 1;
}

abbrev pub unless_number : ℕ → Option Ticket → Option Ticket
unless_number n none = none
unless_number n (some t) = if t.number == n then none else some t

-- The job hands back its ticket, if that has the number.
unfoldable pub hand_back : ℕ → ℕ → Board → Board
hand_back n i b = record b {
  ticket = λ j. if i == j then unless_number n (b.ticket j) else b.ticket j;
}

-- The calls of the queue's clients that send one command, with what becomes of it.
pub data Call : Type 0 where
  enqueues : Link → (i : ℕ) → ℤ → Call
  removes : Link → (n i : ℕ) → Call

-- All calls: a removal by job sends two commands, and others call in between.
pub data Op : Type 0 where
  calls : Call → Op
  removes_current : (first : Link) → (between : List Call) → (second : Link) → (i : ℕ) → Op

-- A command that never arrives has no effect.
abbrev pub arriving : {S : Type 0} → Link → (S → S) → S → S
arriving answered f s = f s
arriving lost f s = s
arriving timed_out f s = f s

abbrev pub heard : {S : Type 0} → Link → (S → S) → S → S
heard answered f s = f s
heard lost f s = s
heard timed_out f s = s

abbrev pub call_board : Call → Board → Board
call_board (enqueues link i priority) b = arriving link (take_ticket (entry_score priority) i) b
call_board (removes link n i) b = arriving link (hand_back n i) b

abbrev pub calls_board : List Call → Board → Board
calls_board [] b = b
calls_board (c ∷ cs) b = calls_board cs (call_board c b)

-- The job hands back the ticket that was seen, unless it has a newer one.
abbrev pub hand_back_seen : Link → ℕ → Option Ticket → Board → Board
hand_back_seen link i none b = b
hand_back_seen link i (some t) b = arriving link (hand_back t.number i) b

abbrev pub on_board : Op → Board → Board
on_board (calls c) b = call_board c b
on_board (removes_current first between second i) b =
    heard first (hand_back_seen second i (b.ticket i)) (heard first (calls_board between) b)

abbrev pub on_boards : List Op → Board → Board
on_boards [] b = b
on_boards (op ∷ ops) b = on_boards ops (on_board op b)

-- How many tickets calls take at most.
abbrev pub calls_taking : List Call → ℕ
calls_taking [] = 0
calls_taking (enqueues link i priority ∷ cs) = 1 + calls_taking cs
calls_taking (removes link n i ∷ cs) = calls_taking cs

abbrev pub ops_taking : List Op → ℕ
ops_taking [] = 0
ops_taking (calls c ∷ ops) = calls_taking (c ∷ []) + ops_taking ops
ops_taking (removes_current first between second i ∷ ops) = calls_taking between + ops_taking ops

-- `peek` may answer nothing where nobody holds a ticket, and otherwise a job with a least one.
abbrev pub Serves : Uuids → Board → Result (Option QueueCandidate) → Type 0
Serves uuids b r =
    ((r ≡ ok none) × ((i : ℕ) → b.ticket i ≡ none))
    ⊎ ((i : ℕ) × (t : Ticket) × (r ≡ ok (some (candidate_at uuids t.number i)))
        × (b.ticket i ≡ some t)
        × ((j : ℕ) (u : Ticket)
            → b.ticket j ≡ some u
            → (t.score ≤ u.score) × (t.score ≡ u.score → t.number ≤ u.number)))

module _ (redis : Redis) (uuids : Uuids) where
  abbrev pub call_queue : Call → Ready redis uuids → Ready redis uuids
  call_queue (enqueues link i priority) q = (enqueue redis uuids link i priority q).1
  call_queue (removes link n i) q = (remove redis uuids link (candidate_at uuids n i) q).1

  abbrev pub calls_queue : List Call → Ready redis uuids → Ready redis uuids
  calls_queue [] q = q
  calls_queue (c ∷ cs) q = calls_queue cs (call_queue c q)

  abbrev pub on_queue : Op → Ready redis uuids → Ready redis uuids
  on_queue (calls c) q = call_queue c q
  on_queue (removes_current first between second i) q =
      (remove_current redis uuids first (calls_queue between) second i q).1

  abbrev pub on_queues : List Op → Ready redis uuids → Ready redis uuids
  on_queues [] q = q
  on_queues (op ∷ ops) q = on_queues ops (on_queue op q)
