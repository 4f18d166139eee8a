-- ===== src/Postgres/Reports/Listed.antt =====
-- The reports of a table that is held as a list: a value of `Reports`.
use job_queue_service.Prelude.{
  ℕ, suc, ◌+◌, ◌≡◌, inl, inr, refl, ◌∙◌, ap, sym, subst, ◌⊎◌, ◌==◌, Bool, true, false, ◌&&◌, ◌||◌,
  none, some, List, [], ◌∷◌, length, All, All-map, arith, ltb, if◌then◌else◌, Bool-cases,
}
use job_queue_service.Job.{Job, JobStatus, is_status, is_status→eq, is_status_self}
use job_queue_service.Postgres.{find_id, IsUnique, matched}
use job_queue_service.Postgres.Memory.{memory, found-IsUnique}
use job_queue_service.Postgres.Memory.Select.{
  visible, hits, find_id-visible, visible-IsUnique, find_id-hits,
}
use job_queue_service.Postgres.Reports.{
  Reports, Direction, asc, desc, Key, Precedes, InOrder, IsOrdered, total_of, has_group, AreGroups,
}

precedes : Direction → ℕ → ℕ → Bool
precedes asc x y = ltb x y
precedes desc x y = ltb y x

leads : List Key → Job → Job → Bool
unfolding precedes
leads [] a b = true
leads ((d, k) ∷ keys) a b = precedes d (k a) (k b) || (k a == k b && leads keys a b)

-- Of two numbers one precedes, or they are equal.
precedes→Precedes : (d : Direction) (x y : ℕ) → precedes d x y ≡ true → Precedes d x y
unfolding precedes
precedes→Precedes asc x y h = ground arith
precedes→Precedes desc x y h = ground arith

not-precedes : (d : Direction) (x y : ℕ) → precedes d x y ≡ false → Precedes d y x ⊎ (y ≡ x)
unfolding precedes
not-precedes asc x y h = ground arith
not-precedes desc x y h = ground arith

Precedes-trans : (d : Direction) (x y z : ℕ) → Precedes d x y → Precedes d y z → Precedes d x z
Precedes-trans asc x y z h k = omega arith
Precedes-trans desc x y z h k = omega arith

leads→InOrder : (keys : List Key) (a b : Job) → leads keys a b ≡ true → InOrder keys a b
unfolding leads
leads→InOrder [] a b h = tt
leads→InOrder ((d, k) ∷ keys) a b h = elim (Bool-cases (precedes d (k a) (k b))) [
  | inl now ↦ inl (precedes→Precedes d (k a) (k b) now)
  | inr later ↦ inr (ground (arith, h, later), leads→InOrder keys a b (ground (arith, h, later)))
]

not-leads : (keys : List Key) (a b : Job) → leads keys a b ≡ false → InOrder keys b a
unfolding leads
not-leads [] a b h = tt
not-leads ((d, k) ∷ keys) a b h = elim (not-precedes d (k a) (k b) (ground (arith, h))) [
  | inl before ↦ inl before
  | inr same ↦ inr (same, not-leads keys a b (ground (arith, h, same)))
]

InOrder-trans :
    (keys : List Key) (a b c : Job) → InOrder keys a b → InOrder keys b c → InOrder keys a c
InOrder-trans [] a b c h k = tt
InOrder-trans ((d, f) ∷ keys) a b c (inl h) (inl k) = inl (Precedes-trans d (f a) (f b) (f c) h k)
InOrder-trans ((d, f) ∷ keys) a b c (inl h) (inr (e, k)) = inl (subst (λ n. Precedes d (f a) n) e h)
InOrder-trans ((d, f) ∷ keys) a b c (inr (e, h)) (inl k) =
    inl (subst (λ n. Precedes d n (f c)) (sym e) k)
InOrder-trans ((d, f) ∷ keys) a b c (inr (e, h)) (inr (e', k)) =
    inr (e ∙ e', InOrder-trans keys a b c h k)

insert_by : List Key → Job → List Job → List Job
unfolding leads
insert_by keys x [] = x ∷ []
insert_by keys x (y ∷ l) = if leads keys x y then x ∷ y ∷ l else y ∷ insert_by keys x l

unfoldable pub order_by : List Key → List Job → List Job
unfolding insert_by
order_by keys [] = []
order_by keys (x ∷ l) = insert_by keys x (order_by keys l)

-- The groups, built row by row.
bump : JobStatus → List (JobStatus × ℕ) → List (JobStatus × ℕ)
bump s [] = (s, 1) ∷ []
bump s ((k, n) ∷ groups) = if is_status k s then (k, n + 1) ∷ groups else (k, n) ∷ bump s groups

unfoldable pub groups_of : List Job → List (JobStatus × ℕ)
unfolding bump
groups_of [] = []
groups_of (x ∷ l) = bump x.status (groups_of l)

unfoldable pub count_rows : (Job → Bool) → List Job → ℕ
count_rows w [] = 0
count_rows w (x ∷ l) = (if w x then 1 else 0) + count_rows w l

or_idem : (a b : Bool) → (a || b) ≡ (a || (a || b))
or_idem true b = refl
or_idem false b = refl

or_swap : (a b c : Bool) → (a || (b || c)) ≡ (b || (a || c))
or_swap true true c = refl
or_swap true false c = refl
or_swap false b c = refl

total_of-bump :
    (s k : JobStatus) (g : List (JobStatus × ℕ))
    → total_of s (bump k g) ≡ (if is_status s k then 1 else 0) + total_of s g
unfolding bump
total_of-bump s k [] = ground (arith, is_status→eq k s)
total_of-bump s k ((j, n) ∷ g) = ground (
  arith,
  is_status→eq j k,
  is_status→eq j s,
  is_status→eq k s,
  is_status_self j,
  total_of-bump s k g,
)

has_group-bump :
    (s k : JobStatus) (g : List (JobStatus × ℕ))
    → has_group s (bump k g) ≡ (is_status k s || has_group s g)
unfolding bump
has_group-bump s k [] = refl
has_group-bump s k ((j, n) ∷ g) = elim (Bool-cases (is_status j k)) [
  | inl same ↦ rw (same, is_status→eq j k same) (or_idem (is_status k s) (has_group s g))
  | inr other ↦
      rw (other, has_group-bump s k g) (or_swap (is_status j s) (is_status k s) (has_group s g))
]

apart :
    (j k : JobStatus) (g : List (JobStatus × ℕ))
    → is_status j k ≡ false
    → has_group j g ≡ false
    → (is_status k j || has_group j g) ≡ false
apart j k g other h = elim (Bool-cases (is_status k j)) [
  | inl same ↦
      absurd (cc (other, ap (λ i. is_status j i) (is_status→eq k j same), is_status_self j))
  | inr differ ↦ rw (differ, h) refl
]

bump-AreGroups : (k : JobStatus) (g : List (JobStatus × ℕ)) → AreGroups g → AreGroups (bump k g)
unfolding bump
bump-AreGroups k [] h = (refl, tt)
bump-AreGroups k ((j, n) ∷ g) h = elim (Bool-cases (is_status j k)) [
  | inl same ↦ rw same h
  | inr other ↦ rw other (has_group-bump j k g ∙ apart j k g other h.0, bump-AreGroups k g h.1)
]

pub groups_of-AreGroups : (l : List Job) → AreGroups (groups_of l)
unfolding groups_of
groups_of-AreGroups [] = tt
groups_of-AreGroups (x ∷ l) = bump-AreGroups x.status (groups_of l) (groups_of-AreGroups l)

pub total_of-groups_of :
    (s : JobStatus) (l : List Job)
    → total_of s (groups_of l) ≡ count_rows (λ j. is_status s j.status) l
unfolding groups_of count_rows
total_of-groups_of s [] = refl
total_of-groups_of s (x ∷ l) =
    total_of-bump s x.status (groups_of l) ∙ omega (arith, total_of-groups_of s l)

length-insert_by :
    (keys : List Key) (x : Job) (l : List Job) → length (insert_by keys x l) ≡ suc (length l)
unfolding insert_by
length-insert_by keys x [] = refl
length-insert_by keys x (y ∷ l) = ground (arith, length-insert_by keys x l)

pub length-order_by : (keys : List Key) (l : List Job) → length (order_by keys l) ≡ length l
unfolding order_by
length-order_by keys [] = refl
length-order_by keys (x ∷ l) =
    omega (arith, length-insert_by keys x (order_by keys l), length-order_by keys l)

pub length-hits : (w : Job → Bool) (l : List Job) → length (hits w (λ j. j) l) ≡ count_rows w l
unfolding hits count_rows
length-hits w [] = refl
length-hits w (x ∷ l) = ground (arith, length-hits w l)

find_id-insert_by :
    (keys : List Key) (i : ℕ) (x : Job) (l : List Job)
    → find_id x.id l ≡ none
    → find_id i (insert_by keys x l) ≡ (if x.id == i then some x else find_id i l)
unfolding insert_by
find_id-insert_by keys i x [] h = refl
find_id-insert_by keys i x (y ∷ l) h = ground (arith, find_id-insert_by keys i x l)

insert_by-IsUnique :
    (keys : List Key) (x : Job) (l : List Job)
    → find_id x.id l ≡ none
    → IsUnique l
    → IsUnique (insert_by keys x l)
unfolding insert_by
insert_by-IsUnique keys x [] h u = (refl, tt)
insert_by-IsUnique keys x (y ∷ l) h u =
    ground (arith, insert_by-IsUnique keys x l, find_id-insert_by keys y.id x l)

pub find_id-order_by :
    (keys : List Key) (i : ℕ) (l : List Job)
    → IsUnique l
    → find_id i (order_by keys l) ≡ find_id i l
unfolding order_by
find_id-order_by keys i [] u = refl
find_id-order_by keys i (x ∷ l) u = ground (
  arith,
  find_id-insert_by keys i x (order_by keys l),
  find_id-order_by keys i l u.1,
  find_id-order_by keys x.id l u.1,
)

pub order_by-IsUnique : (keys : List Key) (l : List Job) → IsUnique l → IsUnique (order_by keys l)
unfolding order_by
order_by-IsUnique keys [] u = tt
order_by-IsUnique keys (x ∷ l) u =
    insert_by-IsUnique keys x (order_by keys l) (rw (find_id-order_by keys x.id l u.1) u.0)
      (order_by-IsUnique keys l u.1)

All-insert_by :
    (P : Job → Type 0) (keys : List Key) (x : Job) (l : List Job)
    → P x
    → All P l
    → All P (insert_by keys x l)
unfolding insert_by
All-insert_by P keys x [] p h = (p, tt)
All-insert_by P keys x (y ∷ l) p h = elim (Bool-cases (leads keys x y)) [
  | inl e ↦ rw e (p, h)
  | inr e ↦ rw e (h.0, All-insert_by P keys x l p h.1)
]

insert_by-IsOrdered :
    (keys : List Key) (x : Job) (l : List Job)
    → IsOrdered keys l
    → IsOrdered keys (insert_by keys x l)
unfolding insert_by
insert_by-IsOrdered keys x [] h = (tt, tt)
insert_by-IsOrdered keys x (y ∷ l) h = elim (Bool-cases (leads keys x y)) [
  | inl e ↦
      let le = leads→InOrder keys x y e in
      rw e ((le, All-map l (λ z k. InOrder-trans keys x y z le k) h.0), h)
  | inr e ↦ rw e (
    All-insert_by (InOrder keys y) keys x l (not-leads keys x y e) h.0,
    insert_by-IsOrdered keys x l h.1,
  )
]

pub order_by-IsOrdered : (keys : List Key) (l : List Job) → IsOrdered keys (order_by keys l)
unfolding order_by
order_by-IsOrdered keys [] = tt
order_by-IsOrdered keys (x ∷ l) =
    insert_by-IsOrdered keys x (order_by keys l) (order_by-IsOrdered keys l)

abbrev pub listed : Reports memory
listed = record {
  select = λ keys w t. order_by keys (hits w (λ j. j) (visible t));
  count = λ w t. count_rows w (visible t);
  status_groups = λ t. groups_of (visible t);
  find_id-select = λ keys w t i.
      find_id-order_by keys i _ (found-IsUnique w t)
      ∙ find_id-hits w (λ j. j) (visible t) i (λ j. refl) (visible-IsUnique t)
      ∙ ap (matched w (λ j. j)) (find_id-visible i t);
  select-IsUnique = λ keys w t. order_by-IsUnique keys _ (found-IsUnique w t);
  select-IsOrdered = λ keys w t. order_by-IsOrdered keys (hits w (λ j. j) (visible t));
  length-select = λ keys w t. length-order_by keys _ ∙ length-hits w (visible t);
  total_of-status_groups = λ t s. total_of-groups_of s (visible t);
  status_groups-AreGroups = λ t. groups_of-AreGroups (visible t);
}
