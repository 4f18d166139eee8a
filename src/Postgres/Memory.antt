-- ===== src/Postgres/Memory.antt =====
-- A table held as a list: a value of `Postgres`, which shows that its laws can be met and lets the
-- model run on concrete rows.
pub mod Select
pub mod Order
use job_queue_service.Prelude.{
  ℕ, ◌≡◌, refl, ap, sym, ◌∙◌, ◌==◌, Bool, true, false, ◌&&◌, ◌||◌, not, Option, none, some, List,
  [], ◌∷◌, arith, if◌then◌else◌, is_some, take, Bool-cases, inl, inr,
}
use native.Mathlib.Decide.{ℕ_discrete}
use job_queue_service.Job.{Job, satisfies_checks}
use job_queue_service.Exec.{Constraint, primary_key, check_constraint, idempotency_index}
use job_queue_service.Postgres.{
  Postgres, find_id, IsUnique, updated, matched, KeepsId, keeps_key, shares_key,
}
use job_queue_service.Postgres.Rows.{find_id-id, find_id-head}
use job_queue_service.Postgres.Memory.Select.{
  visible, hits, find_id-visible, visible-IsUnique, find_id-hits, hits-IsUnique,
}
use job_queue_service.Postgres.Memory.Order.{
  sorted, find_id-sorted, sorted-IsUnique, sorted-IsSorted, find_id-take, take-IsUnique,
  length-take-le, take_left_out,
}

unfoldable pub change_where : (Job → Bool) → (Job → Job) → List Job → List Job
change_where w f [] = []
change_where w f (x ∷ l) = (if w x then f x else x) ∷ change_where w f l

any : (Job → Bool) → List Job → Bool
any p [] = false
any p (x ∷ l) = p x || any p l

breaks : (Job → Bool) → (Job → Job) → Job → Bool
breaks w f j =
    w j && not (satisfies_checks (f j) && keeps_key j.idempotency_key (f j).idempotency_key)

unfoldable pub refusal : Job → List Job → Option Constraint
unfolding any
refusal j t =
    if is_some (find_id j.id t)
    then some primary_key
    else (if satisfies_checks j
        then (if any (shares_key j) (visible t) then some idempotency_index else none)
        else some check_constraint)

pub find_id-change_where :
    (w : Job → Bool) (f : Job → Job) (t : List Job) (i : ℕ)
    → KeepsId f
    → find_id i (change_where w f t) ≡ updated w f (find_id i t)
unfolding change_where
find_id-change_where w f [] i keep = refl
find_id-change_where w f (x ∷ t) i keep = ground (arith, find_id-change_where w f t i keep, keep x)

-- A later row is still found.
find_id-tail :
    (x : Job) (i : ℕ) (j : Job) (l : List Job)
    → find_id x.id l ≡ none
    → find_id i l ≡ some j
    → find_id i (x ∷ l) ≡ some j
find_id-tail x i j l h e = elim (ℕ_discrete x.id i) [
  | yes hit ↦ absurd (cc (ap (λ k. find_id k l) hit))
  | no miss ↦ ground arith
]

any-false :
    (p : Job → Bool) (l : List Job)
    → IsUnique l
    → ((i : ℕ) (j : Job) → find_id i l ≡ some j → p j ≡ false)
    → any p l ≡ false
unfolding any
any-false p [] u h = refl
any-false p (x ∷ l) u h =
    rw (h x.id x (find_id-head x l)) (any-false p l u.1 λ i j e. h i j (find_id-tail x i j l u.0 e))

any-true :
    (p : Job → Bool) (l : List Job) (i : ℕ) (j : Job)
    → find_id i l ≡ some j
    → p j ≡ true
    → any p l ≡ true
unfolding any
any-true p [] i j e h = cc
any-true p (x ∷ l) i j e h = ground (arith, any-true p l i j)

unfoldable pub rejected : (Job → Bool) → (Job → Job) → List Job → Bool
unfolding any breaks
rejected w f t = any (breaks w f) (visible t)

pub rejected_none :
    (w : Job → Bool) (f : Job → Job) (t : List Job)
    → ((i : ℕ) (j : Job)
        → find_id i t ≡ some j
        → w j ≡ true
        → (satisfies_checks (f j) ≡ true)
          × (keeps_key j.idempotency_key (f j).idempotency_key ≡ true))
    → rejected w f t ≡ false
unfolding rejected
rejected_none w f t h =
    any-false (breaks w f) (visible t) (visible-IsUnique t)
      λ i j e. kept j (h i j (sym (find_id-visible i t) ∙ e))
  where
    kept :
        (j : Job)
        → (w j ≡ true
            → (satisfies_checks (f j) ≡ true)
              × (keeps_key j.idempotency_key (f j).idempotency_key ≡ true))
        → breaks w f j ≡ false
    kept j h = elim (Bool-cases (w j)) [ inl e ↦ rw (e, (h e).0, (h e).1) | inr e ↦ rw e ]

pub refusal_insert :
    (j : Job) (t : List Job)
    → find_id j.id t ≡ none
    → satisfies_checks j ≡ true
    → ((i : ℕ) (k : Job) → find_id i t ≡ some k → shares_key j k ≡ false)
    → refusal j t ≡ none
unfolding refusal
refusal_insert j t new checks h = rw (
  new,
  checks,
  any-false (shares_key j) (visible t) (visible-IsUnique t)
      (λ i k e. h i k (sym (find_id-visible i t) ∙ e)),
)

pub refusal-none : (j : Job) (t : List Job) → refusal j t ≡ none → find_id j.id t ≡ none
unfolding refusal
refusal-none j t e = ground arith

pub refusal_duplicate :
    (j : Job) (t : List Job) (i : ℕ) (k : Job)
    → find_id j.id t ≡ none
    → satisfies_checks j ≡ true
    → find_id i t ≡ some k
    → shares_key j k ≡ true
    → refusal j t ≡ some idempotency_index
unfolding refusal
refusal_duplicate j t i k new checks e same =
    rw (new, checks, any-true (shares_key j) (visible t) i k (find_id-visible i t ∙ e) same)

pub found-IsUnique : (w : Job → Bool) (t : List Job) → IsUnique (hits w (λ j. j) (visible t))
found-IsUnique w t = hits-IsUnique w (λ j. j) (visible t) (λ j. refl) (visible-IsUnique t)

find_id-matching :
    (w : Job → Bool) (key : Job → Option ℕ) (t : List Job) (i : ℕ)
    → find_id i (sorted key (hits w (λ j. j) (visible t))) ≡ matched w (λ j. j) (find_id i t)
find_id-matching w key t i =
    find_id-sorted key i _ (found-IsUnique w t)
    ∙ find_id-hits w (λ j. j) (visible t) i (λ j. refl) (visible-IsUnique t)
    ∙ ap (matched w (λ j. j)) (find_id-visible i t)

pub find_id-found :
    (w : Job → Bool) (key : Job → Option ℕ) (t : List Job) (i : ℕ) (j : Job)
    → find_id i t ≡ some j
    → w j ≡ true
    → find_id i (sorted key (hits w (λ j. j) (visible t))) ≡ some j
find_id-found w key t i j e g = find_id-matching w key t i ∙ rw (e, g)

matched_back :
    (w : Job → Bool) (o : Option Job) (j : Job)
    → matched w (λ j. j) o ≡ some j
    → (o ≡ some j) × (w j ≡ true)
matched_back w none j e = absurd (cc)
matched_back w (some k) j e = elim (Bool-cases (w k)) [
  | inl g ↦ (ground arith, ground arith)
  | inr g ↦ absurd (ground arith)
]

pub selected_lem :
    (w : Job → Bool) (key : Job → Option ℕ) (n : ℕ) (t : List Job) (i : ℕ) (j : Job)
    → find_id i (take n (sorted key (hits w (λ j. j) (visible t)))) ≡ some j
    → (find_id i t ≡ some j) × (w j ≡ true)
selected_lem w key n t i j e =
    matched_back w (find_id i t) j (sym (find_id-matching w key t i) ∙ find_id-take n i j _ e)

abbrev pub memory : Postgres
memory = record {
  Table = List Job;
  row = λ t i. find_id i t;
  rejects_update = rejected;
  update = change_where;
  returning = λ w f t. hits w f (visible t);
  rejects_insert = refusal;
  insert = λ j t. j ∷ t;
  select = λ w t. hits w (λ j. j) (visible t);
  select_ordered = λ w key n t. take n (sorted key (hits w (λ j. j) (visible t)));
  row-id = λ t i j e. find_id-id i t j e;
  row-update = λ w f t i keep _. find_id-change_where w f t i keep;
  find_id-returning = λ w f t i keep _.
      find_id-hits w f (visible t) i keep (visible-IsUnique t)
      ∙ ap (matched w f) (find_id-visible i t);
  returning-IsUnique = λ w f t keep _. hits-IsUnique w f (visible t) keep (visible-IsUnique t);
  update_accepted = rejected_none;
  row-insert = λ j t i _. refl;
  insert_new = refusal-none;
  insert_accepted = refusal_insert;
  insert_duplicate = refusal_duplicate;
  find_id-select = λ w t i.
      find_id-hits w (λ j. j) (visible t) i (λ j. refl) (visible-IsUnique t)
      ∙ ap (matched w (λ j. j)) (find_id-visible i t);
  selected = selected_lem;
  select_ordered-IsUnique =
      λ w key n t. take-IsUnique n _ (sorted-IsUnique key _ (found-IsUnique w t));
  length-select_ordered = λ w key n t. length-take-le n _;
  left_out = λ w key n t i j e g out.
      take_left_out key n i j _ (sorted-IsSorted key _) (find_id-found w key t i j e g) out;
}
