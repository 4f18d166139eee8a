-- ===== src/Service/Sweep/Earliest.antt =====
-- Which rows a batch of the scheduler takes.
use job_queue_service.Prelude.{
  ℕ, ◌≡◌, refl, sym, subst, ap, ◌∙◌, Bool, true, false, ◌&&◌, not, Option, none, some, List, [],
  ◌∷◌, map, length, arith, Bool-cases, Option-cases, some_injective, inl, inr, ◌==◌,
}
use job_queue_service.Job.{Job, pending}
use job_queue_service.Job.Sound.{IsSound}
use job_queue_service.Exec.{ok}
use job_queue_service.Postgres.{Postgres, find_id, NotAfter}
use job_queue_service.Postgres.Rows.{length-le, All-find_id}
use job_queue_service.Statement.{activating, contains, is_due}
use job_queue_service.Statement.Safe.{activating-IsSafe}
use job_queue_service.Session.Laws.{
  Rows, execute_safe, execute-IsUnique, find_id-execute, find_id-execute_some,
}
use job_queue_service.Service.Sweep.{due_jobs, activate_due_scheduled_jobs}

contains-find_id :
    (i : ℕ) (js : List Job) (j : Job)
    → find_id i js ≡ some j
    → contains i (map (λ j. j.id) js) ≡ true
contains-find_id i [] j e = absurd (cc)
contains-find_id i (x ∷ js) j e = elim (Bool-cases (x.id == i)) [
  | inl hit ↦ let same : (i == x.id) ≡ true = ground (arith, hit) in rw same refl
  | inr miss ↦
      let other : (i == x.id) ≡ false = ground (arith, miss) in
      rw other (contains-find_id i js j (ground (arith, e, miss)))
]

find_id-contains :
    (i : ℕ) (js : List Job)
    → contains i (map (λ j. j.id) js) ≡ true
    → (j : Job) × (find_id i js ≡ some j)
find_id-contains i [] e = absurd (cc)
find_id-contains i (x ∷ js) e = elim (Bool-cases (x.id == i)) [
  | inl hit ↦ (x, rw hit refl)
  | inr miss ↦
      let other : (i == x.id) ≡ false = ground (arith, miss) in
      let (j, found) = find_id-contains i js (rw other at e) in (j, rw miss found)
]

module _ (db : Postgres) (locked : ℕ → Bool) (limit now : ℕ) (t : db.Table)
    (sound : Rows db IsSound t) where
  open db use {
    Table, row, row-id, update, selected, select_ordered-IsUnique, length-select_ordered, left_out,
    returning,
  }

  abbrev ids : List ℕ
  ids = map (λ j. j.id) (due_jobs db locked limit now t)

  -- The rows that the UPDATE returns.
  abbrev taken : List Job
  taken = returning (activating ids now).guard (activating ids now).change t

  taken-due :
      (i : ℕ) (k : Job)
      → find_id i taken ≡ some k
      → (j : Job) × (find_id i (due_jobs db locked limit now t) ≡ some j)
        × (k.scheduled_at ≡ j.scheduled_at)
  unfolding activating
  taken-due i k e =
      let (j, found, g, at, new) =
        find_id-execute_some db (activating ids now) (activating-IsSafe ids now) t sound i k e in
      let same : j.id ≡ i = row-id t i j found in
      let (d, picked) =
        find_id-contains i (due_jobs db locked limit now t)
          (subst (λ n. contains n ids ≡ true) same (ground (arith, g))) in
      let (at_d, _) = selected _ (λ j. j.scheduled_at) limit t i d picked in
      (
        d,
        picked,
        ap (λ (x : Job). x.scheduled_at) at
            ∙ ap (λ (x : Job). x.scheduled_at) (some_injective (sym found ∙ at_d)),
      )

  due-taken :
      (i : ℕ) (j : Job)
      → find_id i (due_jobs db locked limit now t) ≡ some j
      → (k : Job) × (find_id i taken ≡ some k)
  unfolding activating
  due-taken i j e =
      let s = activating ids now in
      let (found, wanted) = selected _ (λ j. j.scheduled_at) limit t i j e in
      let listed : contains j.id ids ≡ true =
        subst (λ n. contains n ids ≡ true) (sym (row-id t i j found))
          (contains-find_id i (due_jobs db locked limit now t) j e) in
      let holds : s.guard j ≡ true = ground (arith, listed, wanted) in
      (
        s.change j,
        find_id-execute db s (activating-IsSafe ids now) t sound i ∙ rw (found, holds) refl,
      )

  length-taken : length taken ≡ length (due_jobs db locked limit now t)
  length-taken =
      let more =
        length-le taken (due_jobs db locked limit now t)
          (execute-IsUnique db (activating ids now) (activating-IsSafe ids now) t sound)
          (λ i k e. let (j, found, same) = taken-due i k e in (j, found)) in
      let less =
        length-le (due_jobs db locked limit now t) taken
          (select_ordered-IsUnique _ (λ j. j.scheduled_at) limit t) due-taken in
      omega (arith, more, less)

  not_pending : (j j' : Job) → j ≡ (activating ids now).change j' → is_due now j ≡ true → ⊥
  unfolding activating
  not_pending j j' e due =
      let status : j.status ≡ pending = ap (λ (x : Job). x.status) e in ground (arith, status, due)

  -- The row is left as it was only if it was not selected.
  left_unselected :
      (i : ℕ) (j : Job)
      → row t i ≡ some j
      → is_due now j ≡ true
      → row (update (activating ids now).guard (activating ids now).change t) i ≡ some j
      → find_id i (due_jobs db locked limit now t) ≡ none
  left_unselected i j found due left =
      elim (Option-cases (find_id i (due_jobs db locked limit now t))) [
        | inl out ↦ out
        | inr (k, picked) ↦
            let (k', e) = due-taken i k picked in
            let (j', _, _, new, now_at) =
              find_id-execute_some db (activating ids now) (activating-IsSafe ids now) t sound i k'
                e in
            absurd (not_pending j j' (some_injective (sym left ∙ now_at) ∙ new) due)
      ]

  -- On a table of sound rows, if a batch of the scheduler leaves a row as it was that is SCHEDULED,
  -- due and locked by nobody, then the batch returns as many rows as its limit allows, and none of
  -- them was due later than that row.
  pub activate_due_scheduled_jobs-earliest :
      (i : ℕ) (j : Job)
      → row t i ≡ some j
      → locked i ≡ false
      → is_due now j ≡ true
      → row (activate_due_scheduled_jobs db locked limit now t).1 i ≡ some j
      → (jobs : List Job) × ((activate_due_scheduled_jobs db locked limit now t).0 ≡ ok jobs)
        × (length jobs ≡ limit)
        × ((n : ℕ) (k : Job) → find_id n jobs ≡ some k → NotAfter k.scheduled_at j.scheduled_at)
  unfolding activate_due_scheduled_jobs
  activate_due_scheduled_jobs-earliest i j found free due left =
      let whole = execute_safe db (activating ids now) (activating-IsSafe ids now) t sound in
      let out = left_unselected i j found due (rw whole at left) in
      let open_ : locked j.id ≡ false = ap locked (row-id t i j found) ∙ free in
      let (full, earlier) =
        left_out (λ j. not (locked j.id) && is_due now j) (λ j. j.scheduled_at) limit t i j found
          (rw (open_, due) refl) out in
      rw whole (
        taken,
        refl,
        length-taken ∙ full,
        λ n k e.
            let (d, picked, same) = taken-due n k e in
            subst (λ (at : Option ℕ). NotAfter at j.scheduled_at) (sym same)
              (All-find_id (λ x. NotAfter x.scheduled_at j.scheduled_at)
                (due_jobs db locked limit now t) n d earlier picked),
      )
