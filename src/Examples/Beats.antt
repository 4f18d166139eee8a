-- ===== src/Examples/Beats.antt =====
-- The theorem on the heartbeat's loop at a job that another worker has claimed.
use job_queue_service.Prelude.{◌≡◌, refl, true, false, none, List, [], ◌∷◌}
use job_queue_service.Config.{default_settings}
use job_queue_service.Postgres.Memory.{memory}
use job_queue_service.Queue.{answered, lost}
use job_queue_service.Service.Owner.Fence.{IsStale}
use job_queue_service.Worker.Heartbeat.{Turn, run}
use job_queue_service.Worker.Heartbeat.Loss.{run-IsStale}
use job_queue_service.Examples.{rows, rows-IsSound}
use job_queue_service.Examples.Histories.{lost_attempt}

abbrev unanswered : Turn memory
unanswered = record {
  stops_first = false;
  stops_second = false;
  link = lost;
  now = 100;
  others = λ t. t;
}

abbrev turns : List (Turn memory)
turns = unanswered ∷ record unanswered { link = answered; now = 120 } ∷ []

event_set : (run memory default_settings lost_attempt none turns (rows, false)).1.1 ≡ true
unfolding run job_queue_service.Service.Owner.extend_lease job_queue_service.Session.execute_first
    job_queue_service.Postgres.Memory.rejected job_queue_service.Postgres.Memory.Select.visible
    job_queue_service.Statement.extending job_queue_service.Postgres.Memory.Select.hits
event_set = refl

run-IsStale_example :
    IsStale memory lost_attempt
      (run memory default_settings lost_attempt none turns (rows, false)).1.0
run-IsStale_example =
    run-IsStale memory default_settings lost_attempt none turns rows ((λ t h. h), ((λ t h. h), tt))
      rows-IsSound event_set
