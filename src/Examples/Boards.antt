-- ===== src/Examples/Boards.antt =====
-- The queue and its board, from the empty queue on.
use job_queue_service.Prelude.{◌≡◌, refl, none, some, List, [], ◌∷◌, arith}
use job_queue_service.Prelude.Int.{pos}
use job_queue_service.Redis.Memory.{store, short_ids}
use job_queue_service.Queue.{Ready, answered, lost, timed_out, peek}
use job_queue_service.Queue.Board.{
  Board, Op, enqueues, removes, calls, removes_current, on_boards, on_queues, Serves,
}
use job_queue_service.Queue.Board.Shows.{Shows}
use job_queue_service.Queue.Board.Refines.{on_queues-Serves}
use job_queue_service.Examples.Queues.{no_jobs, no_jobs-IsIndexed}

abbrev nobody : Board
nobody = record { ticket = λ i. none; last = 0 }

no_jobs-Shows : Shows store short_ids no_jobs nobody
unfolding job_queue_service.Redis.Memory.Range.lookup
no_jobs-Shows = record { indexed = no_jobs-IsIndexed; last_shown = refl; holds = λ i. refl }

-- Two jobs are enqueued, the first once more with its answer lost, the second is removed, and the
-- first is enqueued again while it is removed by job.
abbrev ops : List Op
ops =
    calls (enqueues answered 1 (pos 5))
    ∷ calls (enqueues answered 2 (pos 80))
    ∷ calls (enqueues timed_out 1 (pos 5))
    ∷ calls (removes answered 1 1)
    ∷ removes_current answered [] answered 2
    ∷ removes_current answered (enqueues answered 1 (pos 5) ∷ []) answered 1
    ∷ calls (enqueues lost 3 (pos 9))
    ∷ []

abbrev after_ops : Ready store short_ids
after_ops = on_queues store short_ids ops no_jobs

-- Job 1 is left, with its third ticket.
last_ticket : (on_boards ops nobody).ticket 1 ≡ some (record { score = 95; number = 4 })
unfolding job_queue_service.Queue.Board.take_ticket job_queue_service.Queue.Board.hand_back
    job_queue_service.Queue.entry_score
last_ticket = refl

on_queues-Serves_example :
    Shows store short_ids after_ops (on_boards ops nobody)
    × Serves short_ids (on_boards ops nobody) (peek store short_ids answered after_ops).0
on_queues-Serves_example =
    on_queues-Serves store short_ids no_jobs nobody ops
      (tt, (tt, (tt, (omega arith, (tt, ((tt, tt), (tt, tt))))))) (omega arith) no_jobs-Shows
