-- ===== src/Queue/Index.antt =====
-- The ready set and the map from jobs to members agree, whatever is enqueued and removed.
use job_queue_service.Prelude.{
  some_injective, ℕ, ◌≤◌, ◌<◌, ◌≡◌, ◌≢◌, refl, sym, ap, ◌∙◌, true, false, Option, none, some, arith,
  is_some, Bool-cases, inl, inr, if◌then◌else◌,
}
use job_queue_service.Text.{Bytes, equal}
use job_queue_service.Text.Laws.{equal→eq}
use job_queue_service.Redis.{Redis, Uuids}
use job_queue_service.Queue.{exact_limit, Ready, member_of, points_at, drop_previous}
use job_queue_service.Queue.Member.{member_of_injective}

pub not_equal : (s t : Bytes) → s ≢ t → equal s t ≡ false
not_equal s t ne = elim (Bool-cases (equal s t)) [
  | inl e ↦ absurd (ne (equal→eq s t e))
  | inr e ↦ e
]

pub points_at→eq : (m : Bytes) (o : Option Bytes) → points_at m o ≡ true → o ≡ some m
points_at→eq m none e = cc
points_at→eq m (some x) e = ap some (equal→eq x m e)

module _ (redis : Redis) (uuids : Uuids) where
  open redis use {
    ZSet, Counter, zscore, hget, value, zscore-zadd, zscore-zrem, hget-hset, hget-hdel, incr_next,
    incr,
  }
  open uuids use {text, parse, parse-text}

  -- Two jobs have two texts.
  pub text_ne : (i j : ℕ) → i ≢ j → equal (text i) (text j) ≡ false
  text_ne i j ne =
      not_equal (text i) (text j)
        λ e. ne (let same : some i ≡ some j = sym (parse-text i) ∙ ap parse e ∙ parse-text j in cc)

  -- Every member of the ready set is the current entry of the job that it names, and every entry
  -- of the map is in the ready set, with a sequence number that the counter has passed; the
  -- script has read all of these exactly.
  pub record IsIndexed (q : Ready redis uuids) : Type 0 where
    pub counted : value q.sequence < exact_limit
    pub entry_of :
        (m : Bytes) (s : ℕ)
        → zscore q.ready m ≡ some s
        → (n : ℕ) × (i : ℕ) × (n ≤ value q.sequence)
          × (m ≡ member_of uuids n i)
          × (hget q.entries (text i) ≡ some m)
    pub queued :
        (i : ℕ) (m : Bytes)
        → hget q.entries (text i) ≡ some m
        → (n : ℕ) × (n ≤ value q.sequence)
          × (m ≡ member_of uuids n i)
          × (is_some (zscore q.ready m) ≡ true)

  -- On an index that agrees, two entries of one job, with exact sequence numbers, are one
  -- entry.
  pub queued_once :
      (q : Ready redis uuids)
      → IsIndexed q
      → (n k i s t : ℕ) → n < exact_limit
      → k < exact_limit
      → zscore q.ready (member_of uuids n i) ≡ some s
      → zscore q.ready (member_of uuids k i) ≡ some t
      → n ≡ k
  queued_once q h n k i s t bn bk e f =
      let (n', i', le, same, entry) = h.entry_of _ s e in
      let (k', j', le', same', entry') = h.entry_of _ t f in
      let here : i ≡ i' =
        (member_of_injective uuids n n' i i' bn (omega (arith, h.counted)) same).1 in
      let there : i ≡ j' =
        (member_of_injective uuids k k' i j' bk (omega (arith, h.counted)) same').1 in
      (member_of_injective uuids n k i i bn bk
        (some_injective (sym (rw (← here) at entry) ∙ (rw (← there) at entry')))).0

  -- Two jobs do not have one entry.
  pub not_pointed :
      (i k : ℕ) (m : Bytes) {q : Ready redis uuids}
      → IsIndexed q
      → i ≢ k
      → hget q.entries (text k) ≡ some m
      → points_at m (hget q.entries (text i)) ≡ false
  not_pointed i k m {q} h ne e = elim (Bool-cases (points_at m (hget q.entries (text i)))) [
    | inl pointed ↦
        let (n, le, at, _) = h.queued i m (points_at→eq m _ pointed) in
        let (n', le', at', _) = h.queued k m e in
        absurd (
          ne
            (member_of_injective uuids n n' i k (omega (arith, h.counted))
              (omega (arith, h.counted)) (sym at ∙ at')).1)
    | inr other ↦ other
  ]

  pub zscore-drop_previous :
      (previous : Option Bytes) (z : ZSet) (m : Bytes)
      → zscore (drop_previous redis uuids previous z) m
        ≡ (if points_at m previous then none else zscore z m)
  zscore-drop_previous none z m = refl
  zscore-drop_previous (some p) z m = zscore-zrem p z m
