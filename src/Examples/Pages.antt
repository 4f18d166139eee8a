-- ===== src/Examples/Pages.antt =====
-- The theorems on reads at a table of four rows.
use job_queue_service.Prelude.{ℕ, ◌≡◌, refl, none, some, List, length, arith}
use job_queue_service.Job.{Job, pending, is_status}
use job_queue_service.Postgres.{find_id, IsUnique, matched}
use job_queue_service.Postgres.Memory.{memory}
use job_queue_service.Postgres.Reports.{Reports}
use job_queue_service.Postgres.Reports.Listed.{listed}
use job_queue_service.Schemas.{email}
use job_queue_service.Service.Query.{apply_filters, list_jobs, count_jobs_by_status}
use job_queue_service.Service.Query.Counts.{count_jobs_by_status-count}
use job_queue_service.Service.Query.Pages.{IsNewestFirst, read_pages, read_pages-newest}
use job_queue_service.Examples.{rows}

abbrev total : ℕ
total = (list_jobs memory listed none (some email) 3 0 (λ t. t) rows).1

count_jobs_by_status-count_example :
    count_jobs_by_status memory listed rows pending
    ≡ listed.count (λ j. is_status pending j.status) rows
count_jobs_by_status-count_example = count_jobs_by_status-count memory listed rows pending

total_four : total ≡ 4
unfolding list_jobs job_queue_service.Postgres.Reports.Listed.count_rows
    job_queue_service.Postgres.Memory.Select.visible
total_four = refl

abbrev pages : List Job
pages = read_pages memory listed none (some email) 3 rows 2 0

read_pages-newest_example :
    (length pages ≡ total)
    × ((i : ℕ)
        → find_id i pages ≡ matched (apply_filters none (some email)) (λ j. j) (memory.row rows i))
    × IsUnique pages
    × IsNewestFirst pages
read_pages-newest_example =
    read_pages-newest memory listed none (some email) 3 rows 2 (omega (arith, total_four))
