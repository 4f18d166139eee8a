-- ===== src/Postgres/Rows.antt =====
-- Results of statements, found by primary key.
use job_queue_service.Prelude.{
  ℕ, suc, ◌≤◌, ◌≡◌, ◌≢◌, refl, subst, ap, ◌∙◌, false, some, List, [], ◌∷◌, length, All, arith,
  Bool-cases, inl, inr, if◌then◌else◌, ◌==◌,
}
use job_queue_service.Job.{Job}
use job_queue_service.Postgres.{find_id, IsUnique}

pub find_id-head : (j : Job) (js : List Job) → find_id j.id (j ∷ js) ≡ some j
find_id-head j js = ground arith

pub find_id-id : (i : ℕ) (js : List Job) (j : Job) → find_id i js ≡ some j → j.id ≡ i
find_id-id i [] j h = cc
find_id-id i (x ∷ js) j h = ground (arith, find_id-id i js j)

abbrev without : ℕ → List Job → List Job
without i [] = []
without i (y ∷ ys) = let rest = without i ys in if y.id == i then ys else y ∷ rest

length-without :
    (i : ℕ) (ys : List Job) (y : Job)
    → find_id i ys ≡ some y
    → length ys ≡ suc (length (without i ys))
length-without i [] y e = absurd (cc)
length-without i (x ∷ ys) y e = elim (Bool-cases (x.id == i)) [
  | inl hit ↦ rw hit refl
  | inr miss ↦ rw miss (ap suc (length-without i ys y (ground (arith, e, miss))))
]

find_id-without : (i k : ℕ) (ys : List Job) → k ≢ i → find_id k (without i ys) ≡ find_id k ys
find_id-without i k [] ne = refl
find_id-without i k (x ∷ ys) ne = elim (Bool-cases (x.id == i)) [
  | inl hit ↦ let miss : (x.id == k) ≡ false = ground (arith, ne, hit) in rw (hit, miss) refl
  | inr other ↦ rw other (elim (Bool-cases (x.id == k)) [
    | inl hit ↦ rw hit refl
    | inr miss ↦ rw miss (find_id-without i k ys ne)
  ])
]

-- A result without repetitions is no longer than a result with all its rows.
pub length-le :
    (xs ys : List Job)
    → IsUnique xs
    → ((i : ℕ) (x : Job) → find_id i xs ≡ some x → (y : Job) × (find_id i ys ≡ some y))
    → length xs ≤ length ys
length-le [] ys unique covers = omega arith
length-le (x ∷ xs) ys unique covers =
    let (y, found) = covers x.id x (find_id-head x xs) in
    let shorter = length-le xs (without x.id ys) unique.1 λ i k e.
      let apart : i ≢ x.id =
        λ same. absurd (cc (unique.0, subst (λ n. find_id n xs ≡ some k) same e)) in
      let miss : (x.id == i) ≡ false = ground (arith, apart) in
      let (z, at) = covers i k (rw miss e) in (z, find_id-without x.id i ys apart ∙ at) in
    omega (arith, length-without x.id ys y found, shorter)

pub All-find_id :
    (P : Job → Type 0) (js : List Job) (i : ℕ) (j : Job) → All P js → find_id i js ≡ some j → P j
All-find_id P [] i j h e = absurd (cc)
All-find_id P (x ∷ js) i j h e = elim (Bool-cases (x.id == i)) [
  | inl hit ↦ subst P (ground (arith, e, hit)) h.0
  | inr miss ↦ All-find_id P js i j h.1 (ground (arith, e, miss))
]
