-- ===== src/Queue/Order.antt =====
-- What `peek` finds: the entry of the highest priority, and among those the one enqueued first.
use job_queue_service.Prelude.{
  some_injective, ℕ, ◌≤◌, ◌<◌, ◌≡◌, ◌⊎◌, refl, sym, ap, ◌∙◌, subst, true, false, Option, none, some,
  arith, is_some, Bool-cases, Option-cases, inl, inr, List, [], ◌∷◌, length,
}
use native.Mathlib.Decide.{dec_lt}
use job_queue_service.Text.{Bytes, equal}
use job_queue_service.Text.Laws.{equal→eq}
use job_queue_service.Redis.{Redis, Uuids, comes_first}
use job_queue_service.Exec.{Result, ok}
use job_queue_service.Queue.{
  exact_limit, QueueCandidate, Ready, member_of, from_member, peek, answered,
}
use job_queue_service.Queue.Member.{
  candidate_at, from_member-member_of, member_of_injective, precedes-member_of,
}
use job_queue_service.Queue.Index.{IsIndexed}

module _ (redis : Redis) (uuids : Uuids) where
  open redis use {ZSet, zscore, value, zrange, zrange_scored, length-zrange, zrange_left_out}

  -- What `peek` may answer on the queue `q`: nothing where nothing is queued, and otherwise an entry
  -- such that no other has a lower score, or the same score and a lower sequence number.
  abbrev pub Best : Ready redis uuids → Result (Option QueueCandidate) → Type 0
  Best q r =
      ((r ≡ ok none) × ((m : Bytes) → zscore q.ready m ≡ none))
      ⊎ ((n : ℕ) × (i : ℕ) × (a : ℕ) × (r ≡ ok (some (candidate_at uuids n i)))
          × (n < exact_limit)
          × (zscore q.ready (member_of uuids n i) ≡ some a)
          × ((k j b : ℕ)
              → k < exact_limit
              → zscore q.ready (member_of uuids k j) ≡ some b
              → (a ≤ b) × (a ≡ b → n ≤ k)))

  some_of : {A : Type 0} (o : Option A) → is_some o ≡ true → (a : A) × (o ≡ some a)
  some_of none e = absurd (cc)
  some_of (some a) e = (a, refl)

  not_before :
      (n i a k j b : ℕ)
      → n < exact_limit
      → comes_first b (member_of uuids k j) a (member_of uuids n i) ≡ false
      → (a ≤ b) × (a ≡ b → n ≤ k)
  not_before n i a k j b room e = (
    ground arith,
    λ same. elim (dec_lt k n) [
      | yes lower ↦ absurd (ground (arith, precedes-member_of uuids k n j i lower room))
      | no other ↦ omega arith
    ],
  )

  peek_from :
      (q : Ready redis uuids) (ms : List Bytes)
      → IsIndexed redis uuids q
      → zrange 0 q.ready ≡ ms
      → Best q (peek redis uuids answered q).0
  unfolding peek
  peek_from q [] h e = inl (
    ground (arith, e),
    λ m. elim (Option-cases (zscore q.ready m)) [
      | inl gone ↦ gone
      | inr (s, found) ↦
          absurd (omega (arith, (zrange_left_out 0 q.ready m s found (rw e)).0, ap length e))
    ],
  )
  peek_from q (m ∷ []) h e =
      let (a, scored) = some_of (zscore q.ready m) (rw e at (zrange_scored 0 q.ready)).0 in
      let (n, i, le, at, entry) = h.entry_of m a scored in
      let room : n < exact_limit = omega (arith, h.counted) in
      inr (
        n,
        i,
        a,
        ground (arith, e, at, ap (from_member uuids) at, from_member-member_of uuids n i room),
        room,
        subst (λ x. zscore q.ready x ≡ some a) at scored,
        λ k j b below other. elim (Bool-cases (equal m (member_of uuids k j))) [
          | inl same ↦
              let one = member_of_injective uuids n k i j room below (sym at ∙ equal→eq m _ same) in
              let score : some a ≡ some b =
                sym scored ∙ ap (zscore q.ready) (equal→eq m _ same) ∙ other in
              (omega (arith, some_injective score), λ _. omega (arith, one.0))
          | inr ne ↦ not_before n i a k j b room (
              subst (λ x. comes_first b (member_of uuids k j) a x ≡ false) at
                ((rw e at (
                    zrange_left_out 0 q.ready (member_of uuids k j) b other
                      (rw e (ground arith)))).1.0
                  a scored))
        ],
      )
  peek_from q (m ∷ m' ∷ ms) h e = absurd (omega (arith, length-zrange 0 q.ready, ap length e))

  -- On an index that agrees, `peek` returns nothing if nothing is queued, and otherwise an entry
  -- such that no other with a sequence number below 2^53 has a lower score, or the same score and a
  -- lower sequence number; it leaves the queue as it was.
  pub peek-Best :
      (q : Ready redis uuids)
      → IsIndexed redis uuids q
      → Best q (peek redis uuids answered q).0 × ((peek redis uuids answered q).1 ≡ q)
  unfolding peek
  peek-Best q h = (peek_from q _ h refl, ground arith)
