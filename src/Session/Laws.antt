-- ===== src/Session/Laws.antt =====
-- What a statement that is safe does to a table whose rows are sound.
use job_queue_service.Prelude.{
  ℕ, ◌≡◌, ◌≢◌, refl, subst, sym, ◌∙◌, ap, Bool, true, false, Option, none, some, List, [], ◌∷◌, inl,
  inr, if◌then◌else◌, head?, Bool-cases, Option-cases, arith,
}
use native.Mathlib.Decide.{ℕ_discrete}
use job_queue_service.Job.{Job}
use job_queue_service.Job.Sound.{IsSound, IsSound-satisfies_checks}
use job_queue_service.Exec.{Result, ok, ◌>>=◌}
use job_queue_service.Postgres.{Postgres, find_id, matched, updated, IsUnique}
use job_queue_service.Postgres.Rows.{find_id-head}
use job_queue_service.Statement.{Statement}
use job_queue_service.Statement.Safe.{IsSafe}
use job_queue_service.Session.{execute, execute_first}

-- The statement names one primary key.
abbrev pub IsKeyed : ℕ → Statement → Type 0
IsKeyed i s = (j : Job) → s.guard j ≡ true → j.id ≡ i

pub matched-some :
    (w : Job → Bool) (f : Job → Job) (o : Option Job) (j' : Job)
    → matched w f o ≡ some j'
    → (j : Job) × (o ≡ some j) × (w j ≡ true) × (j' ≡ f j)
matched-some w f none j' h = absurd (cc)
matched-some w f (some j) j' h = (j, refl, ground arith, ground arith)

head-find_id :
    (w : Job → Bool) (f : Job → Job) (r : ℕ → Option Job) (i : ℕ) (js : List Job)
    → ((j : Job) → (f j).id ≡ j.id)
    → ((j : Job) → w j ≡ true → j.id ≡ i)
    → ((k : ℕ) (j : Job) → r k ≡ some j → j.id ≡ k)
    → ((k : ℕ) → find_id k js ≡ matched w f (r k))
    → head? js ≡ matched w f (r i)
head-find_id w f r i [] keep keyed ids found = found i
head-find_id w f r i (x ∷ js) keep keyed ids found =
    let (j, e, g, same) = matched-some w f (r x.id) x (sym (found x.id) ∙ find_id-head x js) in
    let at : x.id ≡ i = sym (ids x.id j e) ∙ keyed j g in
    sym (find_id-head x js) ∙ found x.id ∙ ap (λ k. matched w f (r k)) at

module _ (db : Postgres) where
  open db use {
    Table, row, rejects_update, update, returning, row-id, row-update, find_id-returning,
    returning-IsUnique, update_accepted,
  }

  -- Every row of the table has the property.
  abbrev pub Rows : (Job → Type 0) → Table → Type 0
  Rows P t = (i : ℕ) (j : Job) → row t i ≡ some j → P j

  -- No row changes, and no row but that of `i` changes.
  abbrev pub SameRows : Table → Table → Type 0
  SameRows t t' = (k : ℕ) → row t' k ≡ row t k

  abbrev pub OtherRows : ℕ → Table → Table → Type 0
  OtherRows i t t' = (k : ℕ) → k ≢ i → row t' k ≡ row t k

  -- The call returned the row `j'`, which is now the row of `i`.
  abbrev pub Wrote : ℕ → Job → Table → Result (Option Job) × Table → Type 0
  Wrote i j' t (r, t') = (r ≡ ok (some j')) × (row t' i ≡ some j') × OtherRows i t t'

  -- The call returned no row and changed none.
  abbrev pub Refused : Table → Result (Option Job) × Table → Type 0
  Refused t (r, t') = (r ≡ ok none) × SameRows t t'

  module _ (s : Statement) (safe : IsSafe s) (t : Table) (sound : Rows IsSound t) where
    accepted : rejects_update s.guard s.change t ≡ false
    accepted = update_accepted s.guard s.change t λ i j e g.
        (IsSound-satisfies_checks _ (safe.keeps_sound j g (sound i j e)), safe.keeps_idempotency j)

    -- The statement is not refused by a constraint.
    pub execute_safe :
        execute db s t ≡ (ok (returning s.guard s.change t), update s.guard s.change t)
    unfolding execute
    execute_safe = rw accepted

    pub row-execute :
        (i : ℕ) → row (update s.guard s.change t) i ≡ updated s.guard s.change (row t i)
    row-execute i = row-update s.guard s.change t i safe.keeps_id accepted

    pub find_id-execute :
        (i : ℕ) → find_id i (returning s.guard s.change t) ≡ matched s.guard s.change (row t i)
    find_id-execute i = find_id-returning s.guard s.change t i safe.keeps_id accepted

    pub execute-IsUnique : IsUnique (returning s.guard s.change t)
    execute-IsUnique = returning-IsUnique s.guard s.change t safe.keeps_id accepted

    pub row-execute_miss :
        (i : ℕ) (j : Job)
        → row t i ≡ some j
        → s.guard j ≡ false
        → row (update s.guard s.change t) i ≡ some j
    row-execute_miss i j e g = rw (row-execute i, e, g)

    pub row-execute_hit :
        (i : ℕ) (j : Job)
        → row t i ≡ some j
        → s.guard j ≡ true
        → row (update s.guard s.change t) i ≡ some (s.change j)
    row-execute_hit i j e g = rw (row-execute i, e, g)

    pub row-execute_none : (i : ℕ) → row t i ≡ none → row (update s.guard s.change t) i ≡ none
    row-execute_none i e = rw (row-execute i, e)

    -- A row that the statement returns held the condition, and is the new row.
    pub find_id-execute_some :
        (i : ℕ) (k : Job)
        → find_id i (returning s.guard s.change t) ≡ some k
        → (j : Job) × (row t i ≡ some j)
          × (s.guard j ≡ true)
          × (k ≡ s.change j)
          × (row (update s.guard s.change t) i ≡ some k)
    find_id-execute_some i k e =
        let (j, found, g, at) =
          matched-some s.guard s.change (row t i) k (sym (find_id-execute i) ∙ e) in
        (j, found, g, at, row-execute_hit i j found g ∙ ap some (sym at))

    pub find_id-execute_none :
        (i : ℕ)
        → find_id i (returning s.guard s.change t) ≡ none
        → row (update s.guard s.change t) i ≡ row t i
    find_id-execute_none i e = elim (Option-cases (row t i)) [
      | inl gone ↦ row-execute_none i gone ∙ sym gone
      | inr (j, found) ↦ elim (Bool-cases (s.guard j)) [
        | inl g ↦ absurd (ground (arith, e, find_id-execute i, found, g))
        | inr g ↦ row-execute_miss i j found g ∙ sym found
      ]
    ]

    -- Every row of the new table comes from one of the old.
    pub row-execute_from :
        (i : ℕ) (j' : Job)
        → row (update s.guard s.change t) i ≡ some j'
        → (j : Job) × (row t i ≡ some j) × (j' ≡ (if s.guard j then s.change j else j))
    row-execute_from i j' e = elim (Option-cases (row t i)) [
      | inl gone ↦ absurd (cc (e, row-execute_none i gone))
      | inr (j, found) ↦ (j, found, ground (arith, e, row-execute i, found))
    ]

    -- A statement that is safe keeps the rows sound.
    pub execute-IsSound : Rows IsSound (update s.guard s.change t)
    execute-IsSound i j' e =
        let (j, found, from) = row-execute_from i j' e in
        elim (Bool-cases (s.guard j)) [
          | inl g ↦ subst IsSound (sym (rw g at from)) (safe.keeps_sound j g (sound i j found))
          | inr g ↦ subst IsSound (sym (rw g at from)) (sound i j found)
        ]

    module _ (i : ℕ) (keyed : IsKeyed i s) where
      -- The first returned row is the changed row of the named key, if the condition held of it.
      pub execute_first_safe :
          execute_first db s t
          ≡ (ok (matched s.guard s.change (row t i)), update s.guard s.change t)
      unfolding execute_first
      execute_first_safe =
          rw (execute_safe, ◌>>=◌)
            (ap (λ (o : Option Job). (ok o, update s.guard s.change t))
              (head-find_id s.guard s.change (row t) i (returning s.guard s.change t) safe.keeps_id
                keyed (row-id t) find_id-execute))

      -- No other row changes.
      pub row-execute_other : (k : ℕ) → k ≢ i → row (update s.guard s.change t) k ≡ row t k
      row-execute_other k ne = elim (Option-cases (row t k)) [
        | inl gone ↦ row-execute_none k gone ∙ sym gone
        | inr (j, found) ↦ elim (Bool-cases (s.guard j)) [
          | inl g ↦ absurd (ne (sym (row-id t k j found) ∙ keyed j g))
          | inr g ↦ row-execute_miss k j found g ∙ sym found
        ]
      ]

      pub execute_first-Wrote :
          (j : Job)
          → row t i ≡ some j
          → s.guard j ≡ true
          → Wrote i (s.change j) t (execute_first db s t)
      execute_first-Wrote j found g =
          rw execute_first_safe (rw (found, g), row-execute_hit i j found g, row-execute_other)

      pub execute_first-Refused :
          ((j : Job) → row t i ≡ some j → s.guard j ≡ false) → Refused t (execute_first db s t)
      execute_first-Refused missed = rw execute_first_safe (elim (Option-cases (row t i)) [
        | inl gone ↦ (rw gone, unmissed)
        | inr (j, found) ↦ (rw (found, missed j found), unmissed)
      ])
        where
          unmissed : SameRows t (update s.guard s.change t)
          unmissed k = elim (ℕ_discrete k i) [
            | yes here ↦ elim (Option-cases (row t i)) [
              | inl gone ↦ rw here (row-execute_none i gone ∙ sym gone)
              | inr (j, found) ↦ rw here (row-execute_miss i j found (missed j found) ∙ sym found)
            ]
            | no there ↦ row-execute_other k there
          ]
