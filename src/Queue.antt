-- ===== src/Queue.antt =====
-- app/services/queue_service.py: the ready queue, over the commands of Redis.
pub mod Member
pub mod Index
pub mod Enqueue
pub mod Remove
pub mod Order
pub mod Stale
pub mod Collapse
pub mod Board
use job_queue_service.Prelude.{
  ℕ, zero, suc, ◌+◌, ◌*◌, ◌/◌, ◌%◌, ◌^◌, ◌==◌, ◌||◌, ◌&&◌, ltb, ◌-◌, ◌≡◌, Bool, true, false, Option,
  none, some, List, [], ◌∷◌, ◌++◌, if◌then◌else◌, is_some, head?,
}
use job_queue_service.Prelude.Int.{ℤ, clamp}
use job_queue_service.Text.{Bytes, equal, zero_padded, decimal, partition}
use job_queue_service.Exec.{
  Result, Exec, ok, err, Error, value_error, unavailable, pure, raise, or_raise, ◌>>=◌,
}
use job_queue_service.Redis.{Redis, Uuids}

abbrev pub max_priority : ℕ
max_priority = 100

abbrev pub sequence_width : ℕ
sequence_width = 19

pub record QueueCandidate : Type 0 where
  pub job_id : ℕ
  pub member : Bytes
  pub sequence : ℕ

-- `entry_score`.
unfoldable pub entry_score : ℤ → ℕ
unfolding clamp
entry_score priority = max_priority - clamp max_priority priority

-- How a command sent to the server ends: it is answered, it never arrives, or it takes effect and
-- its answer is lost.
pub data Link : Type 0 where
  answered lost timed_out : Link

abbrev pub call : {S A : Type 0} → Link → Exec S A → Exec S A
call answered m s = m s
call lost m s = (err unavailable, s)
call timed_out m s = (err unavailable, (m s).1)

-- The map still points at this member.
abbrev pub points_at : Bytes → Option Bytes → Bool
points_at member none = false
points_at member (some m) = equal m member

abbrev prepend : Option QueueCandidate → Option (List QueueCandidate) → Option (List QueueCandidate)
prepend (some c) (some cs) = some (c ∷ cs)
prepend _ _ = none

-- Up to here a number of a script, which is a double, is the integer that a command has answered.
abbrev pub exact_limit : ℕ
exact_limit = 2 ^ 53

-- The multiple of a unit that is nearest, and of two the even one.
unfoldable pub nearest : ℕ → ℕ → ℕ
nearest unit n =
    let quotient = n / unit in
    let rest = n % unit in
    if ltb (2 * rest) unit || (2 * rest == unit && quotient % 2 == 0)
    then quotient * unit
    else (quotient + 1) * unit

-- The double that is nearest, its significand having 53 bits: the unit is doubled until it has.
unfoldable pub rounded : ℕ → ℕ → ℕ → ℕ
unfolding nearest
rounded zero unit n = nearest unit n
rounded (suc doublings) unit n =
    let coarser = rounded doublings (2 * unit) n in
    if ltb n (exact_limit * unit) then nearest unit n else coarser

-- The number that a script has of the answer of `INCR`.
unfoldable pub script_number : ℕ → ℕ
unfolding rounded
script_number n = rounded 11 1 n

module _ (uuids : Uuids) where
  open uuids use {text, parse}

  -- The member that `_ENQUEUE_SCRIPT` forms when `INCR` answers `sequence`.
  unfoldable pub member_of : ℕ → ℕ → Bytes
  unfolding script_number
  member_of sequence job_id =
      zero_padded sequence_width (script_number sequence) ++ b':' ∷ text job_id

  abbrev candidate_of : Bytes → Option ℕ → Option ℕ → Option QueueCandidate
  candidate_of member (some job_id) (some sequence) =
      some (record { job_id = job_id; member = member; sequence = sequence })
  candidate_of member _ _ = none

  abbrev from_parts : Bytes → Option (Bytes × Bytes) → Option QueueCandidate
  from_parts member none = none
  from_parts member (some (sequence_text, job_id_text)) =
      candidate_of member (parse job_id_text) (decimal sequence_text)

  -- `QueueCandidate.from_member`; `none` is its ValueError.
  unfoldable pub from_member : Bytes → Option QueueCandidate
  from_member member = from_parts member (partition member)

module _ (redis : Redis) (uuids : Uuids) where
  open redis use {ZSet, Hash, Counter, zscore, zadd, zrem, zrange, zcard, hget, hset, hdel, incr}
  open uuids use {text}

  -- The values at `READY_QUEUE_KEY`, `SEQUENCE_KEY` and `ENTRIES_KEY`.
  pub record Ready : Type 0 where
    pub ready : ZSet
    pub sequence : Counter
    pub entries : Hash

  abbrev pub drop_previous : Option Bytes → ZSet → ZSet
  drop_previous none z = z
  drop_previous (some previous) z = zrem previous z

  -- What `_ENQUEUE_SCRIPT` writes once the counter has been increased.
  unfoldable pub write_entry : ℕ → ℕ → ℕ × Counter → Exec Ready Bytes
  unfolding member_of
  write_entry score job_id (n, counter) q =
      let member = member_of uuids n job_id in
      (
        ok member,
        record {
          ready = zadd score member (drop_previous (hget q.entries (text job_id)) q.ready);
          sequence = counter;
          entries = hset (text job_id) member q.entries;
        },
      )

  -- `_ENQUEUE_SCRIPT`; an overflow of the counter ends it before it writes.
  unfoldable pub enqueue_script : ℕ → ℕ → Exec Ready Bytes
  unfolding write_entry
  enqueue_script score job_id q =
      (do next ← or_raise (incr q.sequence) unavailable; write_entry score job_id next) q

  -- `_REMOVE_SCRIPT`.
  unfoldable pub remove_script : Bytes → ℕ → Exec Ready Bool
  remove_script member job_id q = (
    ok (is_some (zscore q.ready member)),
    record q {
      ready = zrem member q.ready;
      entries =
          if points_at member (hget q.entries (text job_id))
          then hdel (text job_id) q.entries
          else q.entries;
    },
  )

  -- The methods of `ReadyQueue`.
  unfoldable pub enqueue : Link → ℕ → ℤ → Exec Ready QueueCandidate
  unfolding enqueue_script
  enqueue link job_id priority = do
    member ← call link (enqueue_script (entry_score priority) job_id)
    or_raise (from_member uuids member) value_error

  abbrev parse_members : List Bytes → Option (List QueueCandidate)
  parse_members [] = some []
  parse_members (m ∷ ms) = prepend (from_member uuids m) (parse_members ms)

  -- `peek_many(count)` for a count of at least one.
  unfoldable pub peek_many : Link → ℕ → Exec Ready (List QueueCandidate)
  peek_many link count = do
    members ← call link (λ q. (ok (zrange (count - 1) q.ready), q))
    or_raise (parse_members members) value_error

  unfoldable pub peek : Link → Exec Ready (Option QueueCandidate)
  unfolding peek_many
  peek link = do candidates ← peek_many link 1; pure (head? candidates)

  unfoldable pub remove : Link → QueueCandidate → Exec Ready Bool
  unfolding remove_script
  remove link c = call link (remove_script c.member c.job_id)

  abbrev remove_found : Link → Option Bytes → Exec Ready Bool
  remove_found link none = pure false
  remove_found link (some member) = do
    c ← or_raise (from_member uuids member) value_error
    remove link c

  abbrev pub current_member : Link → ℕ → Exec Ready (Option Bytes)
  current_member link job_id = call link (λ q. (ok (hget q.entries (text job_id)), q))

  unfoldable pub score : Link → QueueCandidate → Exec Ready (Option ℕ)
  score link c = call link (λ q. (ok (zscore q.ready c.member), q))

  -- The look-up and the removal are two commands; what other clients send in between is `between`.
  unfoldable pub remove_current : Link → (Ready → Ready) → Link → ℕ → Exec Ready Bool
  unfolding remove
  remove_current first between second job_id =
      current_member first job_id >>= λ member. λ q. remove_found second member (between q)

  unfoldable pub size : Link → Exec Ready ℕ
  size link = call link (λ q. (ok (zcard q.ready), q))
