-- ===== src/Job/Lifecycle.antt =====
-- The diagram of job statuses that the service is meant to follow.
use job_queue_service.Job.{JobStatus, scheduled, pending, processing, completed, failed, cancelled}

-- One transition of a job's status.
infix 40 ◌⟶◌
pub data ◌⟶◌ : JobStatus → JobStatus → Type 0 where
  stay : {s : JobStatus} → s ⟶ s
  activate : scheduled ⟶ pending
  claim : pending ⟶ processing
  complete : processing ⟶ completed
  reschedule : processing ⟶ scheduled
  give_up : processing ⟶ failed
  cancel_pending : pending ⟶ cancelled
  cancel_scheduled : scheduled ⟶ cancelled
  restart : failed ⟶ pending

pub ruleset transitions = (
  stay, activate, claim, complete, reschedule, give_up, cancel_pending, cancel_scheduled, restart,
)

-- Any number of transitions.
infix 40 ◌⟶*◌
pub data ◌⟶*◌ (s : JobStatus) : JobStatus → Type 0 where
  same : s ⟶* s
  step : {t u : JobStatus} → s ⟶* t → t ⟶ u → s ⟶* u
