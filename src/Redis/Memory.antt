-- ===== src/Redis/Memory.antt =====
-- Association lists and a number: values of `Redis` and `Uuids`, which show that their laws can be
-- met and let the model run.
pub mod Range
use job_queue_service.Prelude.{
  ℕ, suc, ◌+◌, ◌<◌, ◌≡◌, refl, Bool, true, false, Option, none, some, List, [], ◌∷◌, arith,
  if◌then◌else◌, is_some, ltb, length,
}
use job_queue_service.Text.{Bytes, equal}
use job_queue_service.Text.Laws.{equal_self, equal→eq}
use job_queue_service.Redis.{Redis, Uuids, counter_limit}
use job_queue_service.Redis.Memory.Range.{
  range, range_scored, length-range, range_left_out, lookup, lookup-cons,
}

equal_left : (s t u : Bytes) → equal s t ≡ true → equal s u ≡ equal t u
equal_left s t u h = ground (arith, equal→eq s t h)

module _ {V : Type 0} where
  unfoldable pub remove : Bytes → List (Bytes × V) → List (Bytes × V)
  remove m [] = []
  remove m ((k, v) ∷ z) = if equal k m then remove m z else (k, v) ∷ remove m z

  pub lookup-remove :
      (m : Bytes) (z : List (Bytes × V)) (k : Bytes)
      → lookup (remove m z) k ≡ (if equal m k then none else lookup z k)
  unfolding remove lookup
  lookup-remove m [] k = ground arith
  lookup-remove m ((j, v) ∷ z) k =
      ground
        (arith, lookup-remove m z k, equal_left j m k, equal→eq m k, equal→eq j k, equal_self m)

unfoldable pub increase : ℕ → Option (ℕ × ℕ)
increase c = if ltb (suc c) counter_limit then some (suc c, suc c) else none

pub increase_next :
    (c n c' : ℕ) → increase c ≡ some (n, c') → (n ≡ c + 1) × (c' ≡ n) × (n < counter_limit)
unfolding increase
increase_next c n c' e = ground arith

pub increase_room : (c : ℕ) → c + 1 < counter_limit → is_some (increase c) ≡ true
unfolding increase
increase_room c h = ground arith

abbrev pub store : Redis
store = record {
  ZSet = List (Bytes × ℕ);
  Hash = List (Bytes × Bytes);
  Counter = ℕ;
  zscore = lookup;
  zadd = λ s m z. (m, s) ∷ z;
  zrem = remove;
  zcard = λ z. length z;
  zrange = range;
  hget = lookup;
  hset = λ k v h. (k, v) ∷ h;
  hdel = remove;
  value = λ c. c;
  incr = increase;
  zscore-zadd = λ s m z k. lookup-cons m s z k;
  zscore-zrem = lookup-remove;
  zrange_scored = range_scored;
  length-zrange = length-range;
  zrange_left_out = range_left_out;
  hget-hset = λ k v h j. lookup-cons k v h j;
  hget-hdel = lookup-remove;
  incr_next = increase_next;
  incr_room = increase_room;
}

unfoldable pub one_byte : Bytes → Option ℕ
one_byte (c ∷ []) = some c
one_byte _ = none

pub one_byte_lem : (i : ℕ) → one_byte (i ∷ []) ≡ some i
unfolding one_byte
one_byte_lem i = refl

-- A job's identifier as a text of one character.
abbrev pub short_ids : Uuids
short_ids = record { text = λ i. i ∷ []; parse = one_byte; parse-text = one_byte_lem }
