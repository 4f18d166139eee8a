-- ===== src/Migration/Released.antt =====
-- The upgrade leaves rows that the service works on.
use job_queue_service.Prelude.{
  ℕ, ◌≤◌, ◌<◌, ◌≡◌, ◌⊎◌, inl, inr, refl, sym, ap, ◌∙◌, subst, true, false, some, List, is_some,
  Option-cases, some_injective, arith, if◌then◌else◌,
}
use job_queue_service.Job.{Job, processing}
use job_queue_service.Job.Sound.{IsSound, default_max_attempts, IsSound-satisfies_checks}
use job_queue_service.Exec.{ok}
use job_queue_service.Postgres.{Postgres, KeepsId, updated}
use job_queue_service.Session.{execute}
use job_queue_service.Session.Laws.{Rows}
use job_queue_service.Migration.{releasing_unfenced, upgrade}

-- A row that a worker claimed before there were tokens, with an attempt left.
pub record IsUnfenced (j : Job) : Type 0 where
  pub claimed : j.status ≡ processing
  pub unfenced : is_some j.execution_token ≡ false
  pub server_attempts : j.max_attempts ≡ default_max_attempts
  pub attempts_left : j.attempt_count < j.max_attempts
  pub progress_within : j.progress ≤ 100
  pub unfinished : is_some j.completed_at ≡ false
  pub no_result : is_some j.result ≡ false

-- Rows as the service wrote them before the upgrade.
abbrev pub IsEarlier : Job → Type 0
IsEarlier j = IsSound j ⊎ IsUnfenced j

sound_kept : (now : ℕ) (j : Job) → IsSound j → (releasing_unfenced now).guard j ≡ false
unfolding releasing_unfenced
sound_kept now j h = ground arith

unfenced_released :
    (now : ℕ) (j : Job)
    → IsUnfenced j
    → ((releasing_unfenced now).guard j ≡ true) × IsSound ((releasing_unfenced now).change j)
unfolding releasing_unfenced
unfenced_released now j h = (ground arith, ground arith)

earlier-guard :
    (now : ℕ) (j : Job)
    → IsEarlier j
    → (releasing_unfenced now).guard j ≡ true
    → IsSound ((releasing_unfenced now).change j)
earlier-guard now j (inl sound) g = absurd (cc (sound_kept now j sound, g))
earlier-guard now j (inr old) g = (unfenced_released now j old).1

earlier-IsSound :
    (now : ℕ) (j : Job)
    → IsEarlier j
    → IsSound (if (releasing_unfenced now).guard j then (releasing_unfenced now).change j else j)
earlier-IsSound now j (inl sound) = rw (sound_kept now j sound) sound
earlier-IsSound now j (inr old) = let (g, sound) = unfenced_released now j old in rw g sound

pub releasing_unfenced-KeepsId : (now : ℕ) → KeepsId (releasing_unfenced now).change
unfolding releasing_unfenced
releasing_unfenced-KeepsId now j = refl

module _ (db : Postgres) (now : ℕ) (t : db.Table) (earlier : Rows db IsEarlier t) where
  open db use {Table, row, rejects_update, row-update, update_accepted, update}

  accepted : rejects_update (releasing_unfenced now).guard (releasing_unfenced now).change t ≡ false
  unfolding releasing_unfenced
  accepted =
      update_accepted (releasing_unfenced now).guard (releasing_unfenced now).change t λ i j e g.
        (IsSound-satisfies_checks _ (earlier-guard now j (earlier i j e) g), ground arith)

  -- On a table whose rows are sound, or were claimed without a token and have an attempt left, the
  -- upgrade is not refused and leaves every row sound, and the rows that were sound as they were.
  pub upgrade-IsSound :
      ((jobs : List Job) × ((upgrade db now t).0 ≡ ok jobs))
      × Rows db IsSound (upgrade db now t).1
      × ((i : ℕ) (j : Job) → row t i ≡ some j → IsSound j → row (upgrade db now t).1 i ≡ some j)
  unfolding upgrade execute
  upgrade-IsSound =
      let at : (i : ℕ)
          → row (update (releasing_unfenced now).guard (releasing_unfenced now).change t) i
            ≡ updated (releasing_unfenced now).guard (releasing_unfenced now).change (row t i) =
        λ i.
          row-update (releasing_unfenced now).guard (releasing_unfenced now).change t i
            (releasing_unfenced-KeepsId now) accepted in
      rw accepted (
        (_, refl),
        λ i k e. elim (Option-cases (row t i)) [
          | inl gone ↦ absurd (ground (arith, e, at i, gone))
          | inr (j, found) ↦
              subst IsSound
                (some_injective (
                  sym (
                    ap (updated (releasing_unfenced now).guard (releasing_unfenced now).change)
                      found)
                  ∙ sym (at i)
                  ∙ e))
                (earlier-IsSound now j (earlier i j found))
        ],
        λ i j found sound.
            at i
            ∙ ap (updated (releasing_unfenced now).guard (releasing_unfenced now).change) found
            ∙ rw (sound_kept now j sound) refl,
      )
