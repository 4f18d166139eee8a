-- ===== src/Examples/Loops.antt =====
-- The worker's loop, stopped before its third turn.
use job_queue_service.Prelude.{ℕ, ◌+◌, refl, Bool, arith, leb}
use job_queue_service.Json.{end}
use job_queue_service.Config.{default_settings}
use job_queue_service.Postgres.Memory.{memory}
use job_queue_service.Redis.Memory.{store, short_ids}
use job_queue_service.Queue.{answered}
use job_queue_service.Worker.Runner.{Round, returned}
use job_queue_service.Worker.Loops.{run_forever}
use job_queue_service.Worker.Loops.Runs.{Ended, run_forever-Ended}
use job_queue_service.Examples.Histories.{stores}

abbrev stops : ℕ → Bool
stops n = leb 2 n

abbrev round : ℕ → ℕ → Round memory store short_ids
round n k = record {
  stops_first = stops n;
  stops_second = stops n;
  peeked = answered;
  removed = answered;
  before_claim = λ s. s;
  before_read = λ s. s;
  before_remove = λ s. s;
  token = 50 + n;
  claimed_at = 100;
  running = λ job a s. (returned end, s);
  settled = answered;
  settled_at = 110;
}

run_forever-Ended_example :
    Ended memory store short_ids stops default_settings 7 round
      (λ n s. s)
      0
      stores
      (run_forever memory store short_ids 3 stops default_settings 7 round (λ n s. s) stores)
run_forever-Ended_example =
    run_forever-Ended memory store short_ids stops default_settings 7 round (λ n s. s) 3 2 stores
      refl (omega arith)
