-- ===== src/Exec.antt =====
-- A call that works on a state and may raise. The state comes back beside the error too: what was
-- committed before a raise stays. The errors are those of app/core/errors.py and of the libraries.
use job_queue_service.Prelude.{ℕ, Option, none, some, ◌≡◌, ap, refl, ◌∙◌}
use job_queue_service.Job.{JobStatus, Attempt}

-- What rejects a row: the primary key, a CHECK constraint, or `uq_jobs_idempotency_key_active`.
pub data Constraint : Type 0 where
  primary_key check_constraint idempotency_index : Constraint

pub data Mutation : Type 0 where
  cancel retry : Mutation

pub data Error : Type 0 where
  -- `JobNotFoundError`
  job_not_found : ℕ → Error
  -- `JobConflictError`
  job_conflict : ℕ → Mutation → JobStatus → Error
  -- `OwnershipLostError`
  ownership_lost : Attempt → Error
  -- `IntegrityError`
  integrity_error : Constraint → Error
  value_error : Error
  -- a store that cannot be reached
  unavailable : Error

pub data Result (A : Type 0) : Type 0 where
  ok : A → Result A
  err : Error → Result A

abbrev pub Exec : Type 0 → Type 0 → Type 0
Exec S A = S → Result A × S

module _ {S A : Type 0} where
  abbrev pub pure : A → Exec S A
  pure a s = (ok a, s)

  abbrev pub raise : Error → Exec S A
  raise e s = (err e, s)

  -- A value that a lookup must have found.
  abbrev pub or_raise : Option A → Error → Exec S A
  or_raise none e s = (err e, s)
  or_raise (some a) e s = (ok a, s)

  -- A transaction: an error rolls back what the block wrote.
  abbrev pub rolled_back : S → Result A × S → Result A × S
  rolled_back s (ok a, s') = (ok a, s')
  rolled_back s (err e, s') = (err e, s)

  abbrev pub transaction : Exec S A → Exec S A
  transaction m s = rolled_back s (m s)

module _ {S A B : Type 0} where
  abbrev pub after : (A → Exec S B) → Result A × S → Result B × S
  after f (ok a, s) = f a s
  after f (err e, s) = (err e, s)

infixl 5 ◌>>=◌ ◌>>◌
abbrev pub ◌>>=◌ : {S A B : Type 0} → Exec S A → (A → Exec S B) → Exec S B
◌>>=◌ m f s = after f (m s)

abbrev pub ◌>>◌ : {S A B : Type 0} → Exec S A → Exec S B → Exec S B
m >> n = m >>= λ _. n

-- A call that returned goes on with what it returned.
pub after-ok :
    {S A B : Type 0} (f : A → Exec S B) (x : Result A × S) (a : A)
    → x.0 ≡ ok a
    → after f x ≡ f a x.1
after-ok f (ok b, s) a h = ap (λ y. f y s) (ok_injective h)
  where
    ok_injective : {A : Type 0} {a b : A} → ok a ≡ ok b → a ≡ b
    ok_injective e = cc
after-ok f (err e, s) a h = absurd (cc)

-- A call that keeps the state, followed by one that does.
pub after_same :
    {S A B : Type 0} (f : A → Exec S B) (x : Result A × S) (s : S)
    → x.1 ≡ s
    → ((a : A) (t : S) → (f a t).1 ≡ t)
    → (after f x).1 ≡ s
after_same f (ok a, t) s e keeps = keeps a t ∙ e
after_same f (err e', t) s e keeps = e

pub or_raise-same : {S A : Type 0} (o : Option A) (e : Error) (s : S) → (or_raise o e s).1 ≡ s
or_raise-same none e s = refl
or_raise-same (some a) e s = refl
