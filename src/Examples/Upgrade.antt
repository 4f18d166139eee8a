-- ===== src/Examples/Upgrade.antt =====
-- The theorems on the migration at rows that were claimed before there were tokens.
use job_queue_service.Prelude.{ℕ, ◌≡◌, refl, some, none, false, List, [], ◌∷◌, arith, inl, inr}
use job_queue_service.Job.{Job}
use job_queue_service.Job.Sound.{IsSound}
use job_queue_service.Exec.{ok}
use job_queue_service.Postgres.{find_id}
use job_queue_service.Postgres.Memory.{memory}
use job_queue_service.Session.Laws.{Rows}
use job_queue_service.Migration.{upgrade, releasing_unfenced}
use job_queue_service.Migration.Released.{IsUnfenced, IsEarlier, upgrade-IsSound}
use job_queue_service.Migration.Stranded.{Stays, upgrade-Stays}
use job_queue_service.History.{here}
use job_queue_service.Examples.{fresh, running, spent, All-Rows}

abbrev unfenced : ℕ → Job
unfenced id = record (running id) { execution_token = none; lease_expires_at = none }

abbrev earlier_rows : List Job
earlier_rows = fresh 1 ∷ unfenced 2 ∷ []

unfenced-IsUnfenced : IsUnfenced (unfenced 2)
unfenced-IsUnfenced = ground arith

fresh-IsSound : IsSound (fresh 1)
fresh-IsSound = ground arith

earlier : Rows memory IsEarlier earlier_rows
earlier = All-Rows IsEarlier earlier_rows (inl fresh-IsSound, (inr unfenced-IsUnfenced, tt))

upgrade-IsSound_example :
    ((jobs : List Job) × ((upgrade memory 90 earlier_rows).0 ≡ ok jobs))
    × Rows memory IsSound (upgrade memory 90 earlier_rows).1
    × ((i : ℕ) (j : Job)
        → memory.row earlier_rows i ≡ some j
        → IsSound j
        → memory.row (upgrade memory 90 earlier_rows).1 i ≡ some j)
upgrade-IsSound_example = upgrade-IsSound memory 90 earlier_rows earlier

abbrev last_row : Job
last_row = record spent { execution_token = none; lease_expires_at = none }

accepted :
    memory.rejects_update
      (releasing_unfenced 90).guard
      (releasing_unfenced 90).change
      (last_row ∷ [])
    ≡ false
unfolding job_queue_service.Postgres.Memory.rejected
    job_queue_service.Postgres.Memory.Select.visible releasing_unfenced
accepted = refl

upgrade-Stays_example : Stays memory (λ token. Unit) 4 (upgrade memory 90 (last_row ∷ [])).1
upgrade-Stays_example =
    upgrade-Stays memory (λ token. Unit) 4 90 (last_row ∷ []) (upgrade memory 90 (last_row ∷ [])).1
      last_row refl refl refl refl accepted here
