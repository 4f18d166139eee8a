-- ===== src/Postgres/Memory/Order.antt =====
-- Sorting rows by a key, and the first rows of the sorted list.
use job_queue_service.Prelude.{
  ℕ, zero, suc, ◌≤◌, ◌≡◌, refl, ◌==◌, Bool, true, false, Option, none, some, List, [], ◌∷◌, arith,
  if◌then◌else◌, leb, take, length, All, All-map, Bool-cases, inl, inr,
}
use job_queue_service.Job.{Job}
use job_queue_service.Postgres.{find_id, IsUnique, NotAfter}

abbrev not_after : Option ℕ → Option ℕ → Bool
not_after (some a) (some b) = leb a b
not_after none (some b) = false
not_after _ none = true

not_after→NotAfter : (a b : Option ℕ) → not_after a b ≡ true → NotAfter a b
not_after→NotAfter (some a) (some b) h = ground arith
not_after→NotAfter none (some b) h = cc
not_after→NotAfter (some a) none h = tt
not_after→NotAfter none none h = tt

not_after_total : (a b : Option ℕ) → not_after a b ≡ false → NotAfter b a
not_after_total (some a) (some b) h = ground arith
not_after_total none (some b) h = tt
not_after_total (some a) none h = cc
not_after_total none none h = tt

NotAfter-trans : (a b c : Option ℕ) → NotAfter a b → NotAfter b c → NotAfter a c
NotAfter-trans a b none h k = top a
  where
    top : (a : Option ℕ) → NotAfter a none
    top none = tt
    top (some a) = tt
NotAfter-trans (some a) (some b) (some c) h k = omega arith
NotAfter-trans none (some b) (some c) h k = elim h [ ]
NotAfter-trans a none (some c) h k = elim k [ ]

module _ (key : Job → Option ℕ) where
  insert_by : Job → List Job → List Job
  insert_by x [] = x ∷ []
  insert_by x (y ∷ l) = if not_after (key x) (key y) then x ∷ y ∷ l else y ∷ insert_by x l

  unfoldable pub sorted : List Job → List Job
  unfolding insert_by
  sorted [] = []
  sorted (x ∷ l) = insert_by x (sorted l)

  abbrev pub IsSorted : List Job → Type 0
  IsSorted [] = Unit
  IsSorted (x ∷ l) = All (λ y. NotAfter (key x) (key y)) l × IsSorted l

  All-insert_by :
      (P : Job → Type 0) (x : Job) (l : List Job) → P x → All P l → All P (insert_by x l)
  unfolding insert_by
  All-insert_by P x [] p h = (p, tt)
  All-insert_by P x (y ∷ l) p h = elim (Bool-cases (not_after (key x) (key y))) [
    | inl e ↦ rw e (p, h)
    | inr e ↦ rw e (h.0, All-insert_by P x l p h.1)
  ]

  insert_by-IsSorted : (x : Job) (l : List Job) → IsSorted l → IsSorted (insert_by x l)
  unfolding insert_by
  insert_by-IsSorted x [] h = (tt, tt)
  insert_by-IsSorted x (y ∷ l) h = elim (Bool-cases (not_after (key x) (key y))) [
    | inl e ↦
        let le = not_after→NotAfter (key x) (key y) e in
        rw e ((le, All-map l (λ z k. NotAfter-trans (key x) (key y) (key z) le k) h.0), h)
    | inr e ↦ rw e (
      All-insert_by (λ z. NotAfter (key y) (key z)) x l (not_after_total (key x) (key y) e) h.0,
      insert_by-IsSorted x l h.1,
    )
  ]

  pub sorted-IsSorted : (l : List Job) → IsSorted (sorted l)
  unfolding sorted
  sorted-IsSorted [] = tt
  sorted-IsSorted (x ∷ l) = insert_by-IsSorted x (sorted l) (sorted-IsSorted l)

  find_id-insert_by :
      (i : ℕ) (x : Job) (l : List Job)
      → find_id x.id l ≡ none
      → find_id i (insert_by x l) ≡ (if x.id == i then some x else find_id i l)
  unfolding insert_by
  find_id-insert_by i x [] h = refl
  find_id-insert_by i x (y ∷ l) h = ground (arith, find_id-insert_by i x l)

  insert_by-IsUnique :
      (x : Job) (l : List Job) → find_id x.id l ≡ none → IsUnique l → IsUnique (insert_by x l)
  unfolding insert_by
  insert_by-IsUnique x [] h u = (refl, tt)
  insert_by-IsUnique x (y ∷ l) h u =
      ground (arith, insert_by-IsUnique x l, find_id-insert_by y.id x l)

  pub find_id-sorted : (i : ℕ) (l : List Job) → IsUnique l → find_id i (sorted l) ≡ find_id i l
  unfolding sorted
  find_id-sorted i [] u = refl
  find_id-sorted i (x ∷ l) u =
      ground
        (arith, find_id-insert_by i x (sorted l), find_id-sorted i l u.1, find_id-sorted x.id l u.1)

  pub sorted-IsUnique : (l : List Job) → IsUnique l → IsUnique (sorted l)
  unfolding sorted
  sorted-IsUnique [] u = tt
  sorted-IsUnique (x ∷ l) u =
      insert_by-IsUnique x (sorted l) (rw (find_id-sorted x.id l u.1) u.0) (sorted-IsUnique l u.1)

  pub take_left_out :
      (n i : ℕ) (j : Job) (l : List Job)
      → IsSorted l
      → find_id i l ≡ some j
      → find_id i (take n l) ≡ none
      → (length (take n l) ≡ n) × All (λ x. NotAfter (key x) (key j)) (take n l)
  take_left_out zero i j l s e h = (refl, tt)
  take_left_out (suc n) i j [] s e h = absurd (cc)
  take_left_out (suc n) i j (x ∷ l) s e h =
      let (full, before) = take_left_out n i j l s.1 (ground arith) (ground arith) in
      (omega arith, (all_found i j l s.0 (ground arith), before))
    where
      all_found :
          (i : ℕ) (j : Job) (l : List Job)
          → All (λ y. NotAfter (key x) (key y)) l
          → find_id i l ≡ some j
          → NotAfter (key x) (key j)
      all_found i j [] h e = absurd (cc)
      all_found i j (y ∷ l) h e = elim (Bool-cases (y.id == i)) [
        | inl hit ↦ ground arith
        | inr miss ↦ all_found i j l h.1 (ground arith)
      ]

pub find_id-take :
    (n i : ℕ) (j : Job) (l : List Job) → find_id i (take n l) ≡ some j → find_id i l ≡ some j
find_id-take zero i j l e = cc
find_id-take (suc n) i j [] e = cc
find_id-take (suc n) i j (x ∷ l) e = ground (arith, find_id-take n i j l)

find_id-take-none : (n i : ℕ) (l : List Job) → find_id i l ≡ none → find_id i (take n l) ≡ none
find_id-take-none zero i l e = refl
find_id-take-none (suc n) i [] e = refl
find_id-take-none (suc n) i (x ∷ l) e = ground (arith, find_id-take-none n i l)

pub take-IsUnique : (n : ℕ) (l : List Job) → IsUnique l → IsUnique (take n l)
take-IsUnique zero l u = tt
take-IsUnique (suc n) [] u = tt
take-IsUnique (suc n) (x ∷ l) u = (find_id-take-none n x.id l u.0, take-IsUnique n l u.1)

pub length-take-le : (n : ℕ) (l : List Job) → length (take n l) ≤ n
length-take-le zero l = omega arith
length-take-le (suc n) [] = omega arith
length-take-le (suc n) (x ∷ l) = omega (arith, length-take-le n l)
