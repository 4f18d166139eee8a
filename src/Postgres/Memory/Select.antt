-- ===== src/Postgres/Memory/Select.antt =====
-- The rows of a list that count as the table's, and those that meet a condition.
use job_queue_service.Prelude.{ℕ, ◌≡◌, refl, ◌==◌, Bool, none, List, [], ◌∷◌, arith, if◌then◌else◌}
use job_queue_service.Job.{Job}
use job_queue_service.Postgres.{find_id, IsUnique, matched, KeepsId}

unfoldable pub drop_id : ℕ → List Job → List Job
drop_id i [] = []
drop_id i (x ∷ l) = if x.id == i then drop_id i l else x ∷ drop_id i l

unfoldable pub visible : List Job → List Job
unfolding drop_id
visible [] = []
visible (x ∷ l) = x ∷ drop_id x.id (visible l)

unfoldable pub hits : (Job → Bool) → (Job → Job) → List Job → List Job
hits w f [] = []
hits w f (x ∷ l) = if w x then f x ∷ hits w f l else hits w f l

find_id-drop_id :
    (i k : ℕ) (l : List Job) → find_id i (drop_id k l) ≡ (if k == i then none else find_id i l)
unfolding drop_id
find_id-drop_id i k [] = ground arith
find_id-drop_id i k (x ∷ l) = ground (arith, find_id-drop_id i k l)

pub find_id-visible : (i : ℕ) (l : List Job) → find_id i (visible l) ≡ find_id i l
unfolding visible
find_id-visible i [] = refl
find_id-visible i (x ∷ l) = ground (arith, find_id-drop_id i x.id (visible l), find_id-visible i l)

drop_id-IsUnique : (k : ℕ) (l : List Job) → IsUnique l → IsUnique (drop_id k l)
unfolding drop_id
drop_id-IsUnique k [] u = tt
drop_id-IsUnique k (x ∷ l) u = ground (arith, drop_id-IsUnique k l u.1, find_id-drop_id x.id k l)

pub visible-IsUnique : (l : List Job) → IsUnique (visible l)
unfolding visible
visible-IsUnique [] = tt
visible-IsUnique (x ∷ l) = (
  ground (arith, find_id-drop_id x.id x.id (visible l)),
  drop_id-IsUnique x.id (visible l) (visible-IsUnique l),
)

pub find_id-hits :
    (w : Job → Bool) (f : Job → Job) (l : List Job) (i : ℕ)
    → KeepsId f
    → IsUnique l
    → find_id i (hits w f l) ≡ matched w f (find_id i l)
unfolding hits
find_id-hits w f [] i keep u = refl
find_id-hits w f (x ∷ l) i keep u = ground (arith, find_id-hits w f l i keep u.1, keep x)

pub hits-IsUnique :
    (w : Job → Bool) (f : Job → Job) (l : List Job) → KeepsId f → IsUnique l → IsUnique (hits w f l)
unfolding hits
hits-IsUnique w f [] keep u = tt
hits-IsUnique w f (x ∷ l) keep u =
    ground (arith, hits-IsUnique w f l keep u.1, find_id-hits w f l (f x).id keep u.1, keep x)
