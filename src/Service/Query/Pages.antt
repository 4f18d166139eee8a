-- ===== src/Service/Query/Pages.antt =====
-- Reading the list of jobs page by page.
use job_queue_service.Prelude.{
  All, none, ◌<◌, ◌⊎◌, ◌∷◌, ℕ, zero, suc, ◌+◌, ◌*◌, ◌≤◌, ◌≡◌, Bool, refl, sym, ap, ◌∙◌, List, [],
  ◌++◌, Option, arith, length, take, drop, take-add, drop-drop, take_all,
}
use native.Mathlib.Nat.{zero-mul, suc-mul}
use job_queue_service.Job.{Job, JobStatus}
use job_queue_service.Postgres.{Postgres, find_id, IsUnique, matched}
use job_queue_service.Postgres.Reports.{Reports, InOrder, IsOrdered}
use job_queue_service.Schemas.{JobType}
use job_queue_service.Service.Query.{apply_filters, list_jobs, newest_first}

-- `a` was created after `b`, or at the same time and has the greater id.
abbrev pub IsNewer : Job → Job → Type 0
IsNewer a b = (b.created_at < a.created_at) ⊎ ((a.created_at ≡ b.created_at) × (b.id < a.id))

abbrev pub IsNewestFirst : List Job → Type 0
IsNewestFirst [] = Unit
IsNewestFirst (j ∷ js) = All (IsNewer j) js × IsNewestFirst js

-- The order of the statement has no ties, since no two rows have one id.
newest_first-IsNewer :
    (x : Job) (l : List Job)
    → find_id x.id l ≡ none
    → All (InOrder newest_first x) l
    → All (IsNewer x) l
unfolding newest_first
newest_first-IsNewer x [] apart h = tt
newest_first-IsNewer x (y ∷ l) apart h =
    (ground (arith, h.0, apart), newest_first-IsNewer x l (ground (arith, apart)) h.1)

newest_first-IsNewestFirst :
    (l : List Job) → IsUnique l → IsOrdered newest_first l → IsNewestFirst l
newest_first-IsNewestFirst [] unique h = tt
newest_first-IsNewestFirst (x ∷ l) unique h =
    (newest_first-IsNewer x l unique.0 h.0, newest_first-IsNewestFirst l unique.1 h.1)

module _ (db : Postgres) (reports : Reports db) (status : Option JobStatus) (type : Option JobType)
    (limit : ℕ) (t : db.Table) where
  open db use {row}
  open reports use {select, find_id-select, select-IsUnique, select-IsOrdered, length-select}

  abbrev matching : Job → Bool
  matching = apply_filters status type

  -- A client that asks for `count` pages, one after the other.
  unfoldable pub read_pages : ℕ → ℕ → List Job
  unfolding list_jobs
  read_pages zero offset = []
  read_pages (suc count) offset =
      (list_jobs db reports status type limit offset (λ u. u) t).0
      ++ read_pages count (offset + limit)

  -- The pages together are one large page.
  read_pages-take :
      (count offset : ℕ)
      → read_pages count offset
        ≡ take (count * limit) (drop offset (select newest_first matching t))
  unfolding read_pages
  read_pages-take zero offset = rw zero-mul refl
  read_pages-take (suc count) offset =
      let rows = drop offset (select newest_first matching t) in
      ap (λ js. take limit rows ++ js)
        (read_pages-take count (offset + limit)
          ∙ ap (take (count * limit))
              (sym (drop-drop offset limit (select newest_first matching t))))
      ∙ sym (take-add limit (count * limit) rows)
      ∙ ap (λ n. take n rows) (omega (arith, suc-mul count limit))

  -- If the pages that a client reads of a table that nobody changes have room for the total that
  -- the first one reports, then together they have as many rows as that total, every row that
  -- matches the filters exactly once and no other, and each was created after the next or at the
  -- same time with a greater id.
  pub read_pages-newest :
      (count : ℕ)
      → (list_jobs db reports status type limit 0 (λ u. u) t).1 ≤ count * limit
      → (length (read_pages count 0) ≡ (list_jobs db reports status type limit 0 (λ u. u) t).1)
        × ((i : ℕ) → find_id i (read_pages count 0) ≡ matched matching (λ j. j) (row t i))
        × IsUnique (read_pages count 0)
        × IsNewestFirst (read_pages count 0)
  unfolding list_jobs
  read_pages-newest count enough =
      let whole : read_pages count 0 ≡ select newest_first matching t =
        read_pages-take count 0
        ∙ take_all (count * limit) (select newest_first matching t)
            (omega (arith, length-select newest_first matching t)) in
      let unique = select-IsUnique newest_first matching t in
      let ordered = select-IsOrdered newest_first matching t in
      rw whole (
        length-select newest_first matching t,
        find_id-select newest_first matching t,
        unique,
        newest_first-IsNewestFirst (select newest_first matching t) unique ordered,
      )
