-- ===== src/Redis/Memory/Range.antt =====
-- The members of a sorted set in their order.
use job_queue_service.Prelude.{
  ℕ, zero, suc, ◌+◌, ◌≤◌, ◌≡◌, refl, true, false, Option, none, some, List, [], ◌∷◌, arith,
  if◌then◌else◌, is_some, length, take, All, All-map, Bool-cases, inl, inr,
}
use job_queue_service.Text.{Bytes, equal}
use job_queue_service.Text.Laws.{precedes_asym, not_precedes_trans, equal_self, equal→eq}
use job_queue_service.Redis.{comes_first, lists}

comes_first_asym :
    (a : ℕ) (s : Bytes) (b : ℕ) (t : Bytes)
    → comes_first a s b t ≡ true
    → comes_first b t a s ≡ false
comes_first_asym a s b t h = ground (arith, precedes_asym s t)

not_comes_first_trans :
    (a : ℕ) (s : Bytes) (b : ℕ) (t : Bytes) (c : ℕ) (u : Bytes)
    → comes_first b t a s ≡ false
    → comes_first c u b t ≡ false
    → comes_first c u a s ≡ false
not_comes_first_trans a s b t c u h k = ground (arith, not_precedes_trans s t u)

module _ {V : Type 0} where
  unfoldable pub lookup : List (Bytes × V) → Bytes → Option V
  lookup [] k = none
  lookup ((m, s) ∷ z) k = if equal m k then some s else lookup z k

  pub lookup-cons :
      (m : Bytes) (s : V) (z : List (Bytes × V)) (k : Bytes)
      → lookup ((m, s) ∷ z) k ≡ (if equal m k then some s else lookup z k)
  unfolding lookup
  lookup-cons m s z k = refl

-- The score of a member, and 0 without one.
or_zero : Option ℕ → ℕ
or_zero none = 0
or_zero (some s) = s

module _ (score : Bytes → ℕ) where
  insert_by : Bytes → List Bytes → List Bytes
  insert_by x [] = x ∷ []
  insert_by x (y ∷ l) = if comes_first (score y) y (score x) x then y ∷ insert_by x l else x ∷ y ∷ l

  members : List (Bytes × ℕ) → List Bytes
  unfolding insert_by
  members [] = []
  members ((m, _) ∷ z) = insert_by m (members z)

  -- No later member comes before an earlier one.
  abbrev NotBefore : Bytes → Bytes → Type 0
  NotBefore x y = comes_first (score y) y (score x) x ≡ false

  abbrev IsSorted : List Bytes → Type 0
  IsSorted [] = Unit
  IsSorted (x ∷ l) = All (NotBefore x) l × IsSorted l

  All-insert_by :
      (P : Bytes → Type 0) (x : Bytes) (l : List Bytes) → P x → All P l → All P (insert_by x l)
  unfolding insert_by
  All-insert_by P x [] p h = (p, tt)
  All-insert_by P x (y ∷ l) p h = elim (Bool-cases (comes_first (score y) y (score x) x)) [
    | inl e ↦ rw e (h.0, All-insert_by P x l p h.1)
    | inr e ↦ rw e (p, h)
  ]

  insert_by-IsSorted : (x : Bytes) (l : List Bytes) → IsSorted l → IsSorted (insert_by x l)
  unfolding insert_by
  insert_by-IsSorted x [] h = (tt, tt)
  insert_by-IsSorted x (y ∷ l) h = elim (Bool-cases (comes_first (score y) y (score x) x)) [
    | inl e ↦ rw e (
      All-insert_by (NotBefore y) x l (comes_first_asym (score y) y (score x) x e) h.0,
      insert_by-IsSorted x l h.1,
    )
    | inr e ↦ rw e (
      (e, All-map l (λ z k. not_comes_first_trans (score x) x (score y) y (score z) z e k) h.0),
      h,
    )
  ]

  members-IsSorted : (z : List (Bytes × ℕ)) → IsSorted (members z)
  unfolding members
  members-IsSorted [] = tt
  members-IsSorted ((m, s) ∷ z) = insert_by-IsSorted m (members z) (members-IsSorted z)

  lists-insert_by :
      (k x : Bytes) (l : List Bytes) → lists k l ≡ true → lists k (insert_by x l) ≡ true
  unfolding insert_by
  lists-insert_by k x [] h = cc
  lists-insert_by k x (y ∷ l) h = ground (arith, lists-insert_by k x l)

  lists-insert_by_self : (x : Bytes) (l : List Bytes) → lists x (insert_by x l) ≡ true
  unfolding insert_by
  lists-insert_by_self x [] = ground (arith, equal_self x)
  lists-insert_by_self x (y ∷ l) = ground (arith, lists-insert_by_self x l, equal_self x)

  lists-members :
      (k : Bytes) (z : List (Bytes × ℕ)) → is_some (lookup z k) ≡ true → lists k (members z) ≡ true
  unfolding members lookup
  lists-members k [] h = cc
  lists-members k ((m, s) ∷ z) h = ground (
    arith,
    lists-members k z,
    lists-insert_by k m (members z),
    lists-insert_by_self m (members z),
    equal→eq m k,
  )

  All-members : (P : Bytes → Type 0) (z : List (Bytes × ℕ)) → All (λ e. P e.0) z → All P (members z)
  unfolding members
  All-members P [] h = tt
  All-members P ((m, s) ∷ z) h = All-insert_by P m (members z) h.0 (All-members P z h.1)

  pub take_left_out :
      (n : ℕ) (k : Bytes) (l : List Bytes)
      → IsSorted l
      → lists k l ≡ true
      → lists k (take n l) ≡ false
      → (length (take n l) ≡ n) × All (λ m. NotBefore m k) (take n l)
  take_left_out zero k l s e h = (refl, tt)
  take_left_out (suc n) k [] s e h = absurd (cc)
  take_left_out (suc n) k (x ∷ l) s e h =
      let (full, before) = take_left_out n k l s.1 (ground arith) (ground arith) in
      (omega arith, (listed l s.0 (ground arith), before))
    where
      listed : (l : List Bytes) → All (NotBefore x) l → lists k l ≡ true → NotBefore x k
      listed [] h e = absurd (cc)
      listed (y ∷ l) h e = elim (Bool-cases (equal y k)) [
        | inl same ↦ ground (arith, equal→eq y k same)
        | inr other ↦ listed l h.1 (ground arith)
      ]

All-take : {A : Type 0} (P : A → Type 0) (n : ℕ) (l : List A) → All P l → All P (take n l)
All-take P zero l h = tt
All-take P (suc n) [] h = tt
All-take P (suc n) (x ∷ l) h = (h.0, All-take P n l h.1)

abbrev score_in : List (Bytes × ℕ) → Bytes → ℕ
score_in z m = or_zero (lookup z m)

unfoldable pub range : ℕ → List (Bytes × ℕ) → List Bytes
unfolding members insert_by or_zero
range stop z = take (suc stop) (members (score_in z) z)

scored :
    (z z' : List (Bytes × ℕ))
    → ((m : Bytes) → is_some (lookup z m) ≡ true → is_some (lookup z' m) ≡ true)
    → All (λ e. is_some (lookup z' e.0) ≡ true) z
unfolding lookup
scored [] z' h = tt
scored ((m, s) ∷ z) z' h =
    (h m (ground (arith, equal_self m)), scored z z' (λ k e. h k (ground arith)))

pub range_scored :
    (stop : ℕ) (z : List (Bytes × ℕ)) → All (λ m. is_some (lookup z m) ≡ true) (range stop z)
unfolding range
range_scored stop z =
    All-take (λ m. is_some (lookup z m) ≡ true) (suc stop) _
      (All-members (score_in z) (λ m. is_some (lookup z m) ≡ true) z (scored z z (λ m e. e)))

length-take-le : {A : Type 0} (n : ℕ) (l : List A) → length (take n l) ≤ n
length-take-le zero l = omega arith
length-take-le (suc n) [] = omega arith
length-take-le (suc n) (x ∷ l) = omega (arith, length-take-le n l)

pub length-range : (stop : ℕ) (z : List (Bytes × ℕ)) → length (range stop z) ≤ stop + 1
unfolding range
length-range stop z = omega (arith, length-take-le (suc stop) (members (score_in z) z))

pub range_left_out :
    (stop : ℕ) (z : List (Bytes × ℕ)) (k : Bytes) (b : ℕ)
    → lookup z k ≡ some b
    → lists k (range stop z) ≡ false
    → (length (range stop z) ≡ stop + 1)
      × All (λ m. (a : ℕ) → lookup z m ≡ some a → comes_first b k a m ≡ false) (range stop z)
unfolding range or_zero
range_left_out stop z k b e h =
    let (full, before) =
      take_left_out (score_in z) (suc stop) k (members (score_in z) z)
        (members-IsSorted (score_in z) z) (lists-members (score_in z) k z (ground arith)) h in
    (omega arith, All-map _ later before)
  where
    later :
        (m : Bytes)
        → comes_first (score_in z k) k (score_in z m) m ≡ false
        → (a : ℕ) → lookup z m ≡ some a
        → comes_first b k a m ≡ false
    later m n a f = rw (e, f) at n
