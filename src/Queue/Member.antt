-- ===== src/Queue/Member.antt =====
-- Members of the ready queue: they are read back, and those with an earlier sequence number come
-- first.
use job_queue_service.Prelude.{
  ℕ, ◌<◌, ◌≡◌, sym, ap, ◌∙◌, true, ltb, ◌*◌, Option, none, some, arith, ◌∷◌,
}
use job_queue_service.Text.{precedes}
use job_queue_service.Text.Laws.{decimal-zero_padded, partition-zero_padded, precedes-zero_padded}
use job_queue_service.Redis.{Uuids}
use job_queue_service.Queue.{
  QueueCandidate, member_of, from_member, sequence_width, exact_limit, script_number, nearest,
}

abbrev get_sequence : Option QueueCandidate → ℕ
get_sequence none = 0
get_sequence (some c) = c.sequence

abbrev get_job_id : Option QueueCandidate → ℕ
get_job_id none = 0
get_job_id (some c) = c.job_id

nearest-one : (n : ℕ) → nearest 1 n ≡ n
unfolding nearest
nearest-one n = ground arith

-- Up to 2^53 a script has the number that `INCR` answers.
script_number-exact : (n : ℕ) → n < exact_limit → script_number n ≡ n
unfolding script_number
script_number-exact n h =
    let fits : ltb n (exact_limit * 1) ≡ true = ground arith in rw fits (nearest-one n)

module _ (uuids : Uuids) where
  open uuids use {text, parse, parse-text}

  abbrev pub candidate_at : ℕ → ℕ → QueueCandidate
  candidate_at n i = record { job_id = i; member = member_of uuids n i; sequence = n }

  -- A member is read back as the job and the sequence number that it was formed from, for every
  -- number that the script has exactly, which are those below 2^53.
  pub from_member-member_of :
      (n i : ℕ)
      → n < exact_limit
      → from_member uuids (member_of uuids n i) ≡ some (candidate_at n i)
  unfolding from_member member_of
  from_member-member_of n i h = rw (
    script_number-exact n h,
    partition-zero_padded sequence_width n (text i),
    parse-text i,
    decimal-zero_padded 18 n (omega arith),
  )

  pub member_of_injective :
      (n k i j : ℕ)
      → n < exact_limit
      → k < exact_limit
      → member_of uuids n i ≡ member_of uuids k j
      → (n ≡ k) × (i ≡ j)
  member_of_injective n k i j h l e =
      let same : some (candidate_at n i) ≡ some (candidate_at k j) =
        sym (from_member-member_of n i h)
        ∙ ap (from_member uuids) e
        ∙ from_member-member_of k j l in
      (ap get_sequence same, ap get_job_id same)

  -- Of two members whose sequence numbers the script reads exactly, that of the lower number
  -- comes first in the order of bytes, whatever the jobs.
  pub precedes-member_of :
      (n k i j : ℕ)
      → n < k
      → k < exact_limit
      → precedes (member_of uuids n i) (member_of uuids k j) ≡ true
  unfolding member_of
  precedes-member_of n k i j h l =
      rw (script_number-exact n (omega arith), script_number-exact k l)
        (precedes-zero_padded sequence_width n k (b':' ∷ text i) (b':' ∷ text j) h (omega arith))
