-- ===== src/Api/Listings.antt =====
-- How many jobs the route that lists them answers with.
use job_queue_service.Prelude.{◌⊎◌, ◌<◌, ℕ, ◌-◌, ◌≤◌, ◌≡◌, Option, none, some, length, min}
use job_queue_service.Prelude.Int.{ℤ, pos, negsuc}
use job_queue_service.Job.{JobStatus}
use job_queue_service.Schemas.{JobType}
use job_queue_service.Postgres.{Postgres}
use job_queue_service.Postgres.Reports.{Reports}
use job_queue_service.Service.Query.{apply_filters}
use job_queue_service.Api.{Answer, JobListResponse, replied, unprocessable}

-- A limit and an offset that are out of their bounds.
abbrev pub IsBadLimit : Option ℤ → Type 0
IsBadLimit none = ⊥
IsBadLimit (some (pos n)) = (n ≡ 0) ⊎ (100 < n)
IsBadLimit (some (negsuc n)) = Unit

abbrev pub IsBadOffset : Option ℤ → Type 0
IsBadOffset none = ⊥
IsBadOffset (some (pos n)) = ⊥
IsBadOffset (some (negsuc n)) = Unit

-- The number that is asked for is `n`, which is `default` if none is given.
abbrev pub Asks : ℕ → Option ℤ → ℕ → Type 0
Asks default none n = n ≡ default
Asks default (some p) n = p ≡ pos n

module _ (db : Postgres) (reports : Reports db) (status : Option JobStatus) (type : Option JobType)
    (others : db.Table → db.Table) (t : db.Table) where
  open reports use {select, count, length-select}

  -- The reply has as many jobs as a page of this limit and offset holds.
  abbrev pub IsPage : ℕ → ℕ → Answer JobListResponse → Type 0
  IsPage limit offset answer =
      (body : JobListResponse) × (answer ≡ replied 200 body)
      × (body.total ≡ count (apply_filters status type) t)
      × (length body.items ≡ min limit (count (apply_filters status type) (others t) - offset))
      × (body.limit ≡ limit)
      × (body.offset ≡ offset)

  -- The answer to a request for this limit and offset.
  abbrev pub IsPaged : Option ℤ → Option ℤ → Answer JobListResponse → Type 0
  IsPaged limit offset answer =
      ((IsBadLimit limit ⊎ IsBadOffset offset) × (answer ≡ unprocessable))
      ⊎ ((l : ℕ) × (n : ℕ) × Asks 50 limit l
          × Asks 0 offset n
          × (1 ≤ l)
          × (l ≤ 100)
          × IsPage l n answer)
