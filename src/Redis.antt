-- ===== src/Redis.antt =====
-- What the program relies on of Redis and of Python's `uuid`: a sorted set, a hash and a counter,
-- each as it stands at one key, with the documented effect of single commands.
pub mod Memory
use job_queue_service.Prelude.{
  ℕ, ◌+◌, ◌-◌, ◌^◌, ◌≤◌, ◌<◌, ◌≡◌, ◌==◌, Bool, true, false, ◌||◌, Option, none, some, List, [], ◌∷◌,
  if◌then◌else◌, is_some, length, All, ltb,
}
use job_queue_service.Text.{Bytes, equal, precedes}

-- The order of a sorted set: by score, and by member where scores are equal.
abbrev pub comes_first : ℕ → Bytes → ℕ → Bytes → Bool
comes_first a s b t = if a == b then precedes s t else ltb a b

abbrev pub lists : Bytes → List Bytes → Bool
lists m [] = false
lists m (x ∷ xs) = equal x m || lists m xs

-- A counter is a signed number of 64 bits.
abbrev pub counter_limit : ℕ
counter_limit = 2 ^ 63

pub record Redis : Type 1 where
  pub ZSet : Type 0
  pub Hash : Type 0
  pub Counter : Type 0
  pub zscore : ZSet → Bytes → Option ℕ
  pub zadd : ℕ → Bytes → ZSet → ZSet
  pub zrem : Bytes → ZSet → ZSet
  pub zcard : ZSet → ℕ
  -- `ZRANGE key 0 stop` for a `stop` that is not negative
  pub zrange : ℕ → ZSet → List Bytes
  pub hget : Hash → Bytes → Option Bytes
  pub hset : Bytes → Bytes → Hash → Hash
  pub hdel : Bytes → Hash → Hash
  pub value : Counter → ℕ
  -- `none` is the error of an increment that would overflow
  pub incr : Counter → Option (ℕ × Counter)
  pub zscore-zadd :
      (s : ℕ) (m : Bytes) (z : ZSet) (k : Bytes)
      → zscore (zadd s m z) k ≡ (if equal m k then some s else zscore z k)
  pub zscore-zrem :
      (m : Bytes) (z : ZSet) (k : Bytes)
      → zscore (zrem m z) k ≡ (if equal m k then none else zscore z k)
  pub zrange_scored : (stop : ℕ) (z : ZSet) → All (λ m. is_some (zscore z m) ≡ true) (zrange stop z)
  pub length-zrange : (stop : ℕ) (z : ZSet) → length (zrange stop z) ≤ stop + 1
  -- the members that a range leaves out come after those in it
  pub zrange_left_out :
      (stop : ℕ) (z : ZSet) (k : Bytes) (b : ℕ)
      → zscore z k ≡ some b
      → lists k (zrange stop z) ≡ false
      → (length (zrange stop z) ≡ stop + 1)
        × All (λ m. (a : ℕ) → zscore z m ≡ some a → comes_first b k a m ≡ false) (zrange stop z)
  pub hget-hset :
      (k v : Bytes) (h : Hash) (j : Bytes)
      → hget (hset k v h) j ≡ (if equal k j then some v else hget h j)
  pub hget-hdel :
      (k : Bytes) (h : Hash) (j : Bytes)
      → hget (hdel k h) j ≡ (if equal k j then none else hget h j)
  pub incr_next :
      (c : Counter) (n : ℕ) (c' : Counter)
      → incr c ≡ some (n, c')
      → (n ≡ value c + 1) × (value c' ≡ n) × (n < counter_limit)
  pub incr_room : (c : Counter) → value c + 1 < counter_limit → is_some (incr c) ≡ true

-- `str(job_id)` and `uuid.UUID(text)`; `none` is the ValueError of a malformed text.
pub record Uuids : Type 0 where
  pub text : ℕ → Bytes
  pub parse : Bytes → Option ℕ
  pub parse-text : (i : ℕ) → parse (text i) ≡ some i
