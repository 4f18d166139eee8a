-- ===== src/Retry.antt =====
-- app/services/retry_policy.py. Times are in microseconds.
use job_queue_service.Prelude.{ℕ, ◌*◌, ◌==◌, Option, none, some, if◌then◌else◌}

-- `timedelta(seconds=…)`.
abbrev pub seconds : ℕ → ℕ
seconds n = n * 1000000

-- `RETRY_DELAYS_SECONDS`; `none` is the ValueError for an attempt with no delay.
unfoldable pub retry_delay_seconds : ℕ → Option ℕ
retry_delay_seconds attempt_count =
    if attempt_count == 1 then some 30 else if attempt_count == 2 then some 120 else none
