-- ===== src/Statement/Safe.antt =====
-- What a statement must keep, and that every statement of the service does.
use job_queue_service.Prelude.{ℕ, String, ◌≡◌, refl, Bool, true, Option, List, arith}
use job_queue_service.Prelude.Int.{ℤ}
use job_queue_service.Json.{Fields}
use job_queue_service.Job.{Job, Attempt}
use job_queue_service.Job.Sound.{IsSound}
use job_queue_service.Postgres.{keeps_key}
use job_queue_service.Statement.{
  Statement, claiming, extending, progressing, completing, rescheduling, giving_up, activating,
  cancelling, restarting, releasing_key,
}

pub record IsSafe (s : Statement) : Type 0 where
  pub keeps_id : (j : Job) → (s.change j).id ≡ j.id
  pub keeps_idempotency :
      (j : Job) → keeps_key j.idempotency_key (s.change j).idempotency_key ≡ true
  pub keeps_sound : (j : Job) → s.guard j ≡ true → IsSound j → IsSound (s.change j)

keeps_key_self : (k : Option ℕ) → keeps_key k k ≡ true
keeps_key_self k = ground arith

pub claiming-IsSafe :
    (i worker token now deadline : ℕ) → IsSafe (claiming i worker token now deadline)
unfolding claiming
claiming-IsSafe i worker token now deadline = record {
  keeps_id = λ j. refl;
  keeps_idempotency = λ j. keeps_key_self j.idempotency_key;
  keeps_sound = λ j g h. ground arith;
}

pub extending-IsSafe : (a : Attempt) (deadline : ℕ) → IsSafe (extending a deadline)
unfolding extending
extending-IsSafe a deadline = record {
  keeps_id = λ j. refl;
  keeps_idempotency = λ j. keeps_key_self j.idempotency_key;
  keeps_sound = λ j g h. ground arith;
}

pub progressing-IsSafe : (a : Attempt) (progress : ℤ) → IsSafe (progressing a progress)
unfolding progressing
progressing-IsSafe a progress = record {
  keeps_id = λ j. refl;
  keeps_idempotency = λ j. keeps_key_self j.idempotency_key;
  keeps_sound = λ j g h. ground arith;
}

pub completing-IsSafe : (a : Attempt) (result : Fields) (now : ℕ) → IsSafe (completing a result now)
unfolding completing
completing-IsSafe a result now = record {
  keeps_id = λ j. refl;
  keeps_idempotency = λ j. keeps_key_self j.idempotency_key;
  keeps_sound = λ j g h. ground arith;
}

pub rescheduling-IsSafe :
    (a : Attempt) (error : String) (due : ℕ) (expired : Bool) (now : ℕ)
    → IsSafe (rescheduling a error due expired now)
unfolding rescheduling
rescheduling-IsSafe a error due expired now = record {
  keeps_id = λ j. refl;
  keeps_idempotency = λ j. keeps_key_self j.idempotency_key;
  keeps_sound = λ j g h. ground arith;
}

pub giving_up-IsSafe :
    (a : Attempt) (error : String) (expired : Bool) (now : ℕ)
    → IsSafe (giving_up a error expired now)
unfolding giving_up
giving_up-IsSafe a error expired now = record {
  keeps_id = λ j. refl;
  keeps_idempotency = λ j. keeps_key_self j.idempotency_key;
  keeps_sound = λ j g h. ground arith;
}

pub activating-IsSafe : (due : List ℕ) (now : ℕ) → IsSafe (activating due now)
unfolding activating
activating-IsSafe due now = record {
  keeps_id = λ j. refl;
  keeps_idempotency = λ j. keeps_key_self j.idempotency_key;
  keeps_sound = λ j g h. ground arith;
}

pub cancelling-IsSafe : (i : ℕ) → IsSafe (cancelling i)
unfolding cancelling
cancelling-IsSafe i = record {
  keeps_id = λ j. refl;
  keeps_idempotency = λ j. keeps_key_self j.idempotency_key;
  keeps_sound = λ j g h. ground arith;
}

pub restarting-IsSafe : (i : ℕ) → IsSafe (restarting i)
unfolding restarting
restarting-IsSafe i = record {
  keeps_id = λ j. refl;
  keeps_idempotency = λ j. keeps_key_self j.idempotency_key;
  keeps_sound = λ j g h. ground arith;
}

pub releasing_key-IsSafe : (key now : ℕ) → IsSafe (releasing_key key now)
unfolding releasing_key
releasing_key-IsSafe key now = record {
  keeps_id = λ j. refl;
  keeps_idempotency = λ j. refl;
  keeps_sound = λ j g h. ground arith;
}

-- The statements that the service sends.
pub data Issued : Statement → Type 0 where
  claim : (i worker token now deadline : ℕ) → Issued (claiming i worker token now deadline)
  extend : (a : Attempt) (deadline : ℕ) → Issued (extending a deadline)
  report : (a : Attempt) (progress : ℤ) → Issued (progressing a progress)
  complete : (a : Attempt) (result : Fields) (now : ℕ) → Issued (completing a result now)
  reschedule :
      (a : Attempt) (error : String) (due : ℕ) (expired : Bool) (now : ℕ)
      → Issued (rescheduling a error due expired now)
  give_up :
      (a : Attempt) (error : String) (expired : Bool) (now : ℕ)
      → Issued (giving_up a error expired now)
  activate : (due : List ℕ) (now : ℕ) → Issued (activating due now)
  cancel : (i : ℕ) → Issued (cancelling i)
  restart : (i : ℕ) → Issued (restarting i)
  release_key : (key now : ℕ) → Issued (releasing_key key now)

pub Issued-IsSafe : {s : Statement} → Issued s → IsSafe s
Issued-IsSafe (claim i worker token now deadline) = claiming-IsSafe i worker token now deadline
Issued-IsSafe (extend a deadline) = extending-IsSafe a deadline
Issued-IsSafe (report a progress) = progressing-IsSafe a progress
Issued-IsSafe (complete a result now) = completing-IsSafe a result now
Issued-IsSafe (reschedule a error due expired now) = rescheduling-IsSafe a error due expired now
Issued-IsSafe (give_up a error expired now) = giving_up-IsSafe a error expired now
Issued-IsSafe (activate due now) = activating-IsSafe due now
Issued-IsSafe (cancel i) = cancelling-IsSafe i
Issued-IsSafe (restart i) = restarting-IsSafe i
Issued-IsSafe (release_key key now) = releasing_key-IsSafe key now
