-- ===== src/Text/Laws.antt =====
-- Laws of byte texts: the order of padded numbers is the order of the numbers, and they are read
-- back.
use job_queue_service.Prelude.{
  ℕ, zero, suc, ◌+◌, ◌-◌, ◌*◌, ◌/◌, ◌%◌, ◌^◌, ◌<◌, ◌≤◌, ◌≡◌, refl, ap, ◌∙◌, true, false, some, [],
  ◌∷◌, ◌++◌, arith, length, length-append, All, All-append,
}
use native.Mathlib.Nat.{pow-suc}
use native.Mathlib.Decide.{dec_lt}
use mathlib.Core.List.{append_assoc}
use job_queue_service.Text.{Bytes, equal, precedes, zero_padded, decimal_from, decimal, partition}

pub equal_self : (s : Bytes) → equal s s ≡ true
unfolding equal
equal_self [] = refl
equal_self (a ∷ s) = ground (arith, equal_self s)

pub equal→eq : (s t : Bytes) → equal s t ≡ true → s ≡ t
unfolding equal
equal→eq [] [] h = refl
equal→eq [] (b ∷ t) h = cc
equal→eq (a ∷ s) [] h = cc
equal→eq (a ∷ s) (b ∷ t) h = ground (arith, equal→eq s t)

pub length-zero_padded : (width n : ℕ) → length (zero_padded width n) ≡ width
unfolding zero_padded
length-zero_padded zero n = refl
length-zero_padded (suc width) n = omega (
  arith,
  length-append (zero_padded width (n / 10)) ((b'0' + n % 10) ∷ []),
  length-zero_padded width (n / 10),
)

-- Texts of one length are told apart before what follows them.
precedes-append :
    (s t u v : Bytes)
    → length s ≡ length t
    → precedes s t ≡ true
    → precedes (s ++ u) (t ++ v) ≡ true
unfolding precedes
precedes-append [] [] u v e h = cc
precedes-append [] (b ∷ t) u v e h = absurd (omega arith)
precedes-append (a ∷ s) [] u v e h = absurd (omega arith)
precedes-append (a ∷ s) (b ∷ t) u v e h = ground (arith, precedes-append s t u v (omega arith))

precedes-append_same : (s u v : Bytes) → precedes (s ++ u) (s ++ v) ≡ precedes u v
unfolding precedes
precedes-append_same [] u v = refl
precedes-append_same (a ∷ s) u v = ground (arith, precedes-append_same s u v)

-- Padded to one width, numbers are in byte order when they are in order.
pub precedes-zero_padded :
    (width m n : ℕ) (u v : Bytes)
    → m < n
    → n < 10 ^ width
    → precedes (zero_padded width m ++ u) (zero_padded width n ++ v) ≡ true
unfolding zero_padded
precedes-zero_padded zero m n u v h k = absurd (omega arith)
precedes-zero_padded (suc width) m n u v h k =
    rw (append_assoc (zero_padded width (m / 10)), append_assoc (zero_padded width (n / 10)))
      (elim (dec_lt (m / 10) (n / 10)) [
        | yes lower ↦
            precedes-zero_padded width (m / 10) (n / 10) _ _ lower (omega (arith, pow-suc 10 width))
        | no same ↦
            let e : m / 10 ≡ n / 10 = omega arith in
            rw (e, precedes-append_same (zero_padded width (n / 10)))
              (unfold precedes in ground arith)
      ])

decimal_from-append :
    (s t : Bytes) (acc n : ℕ)
    → decimal_from acc s ≡ some n
    → decimal_from acc (s ++ t) ≡ decimal_from n t
unfolding decimal_from
decimal_from-append [] t acc n h = ground arith
decimal_from-append (c ∷ s) t acc n h =
    ground (arith, decimal_from-append s t (acc * 10 + (c - b'0')) n)

decimal_from-zero_padded :
    (width n : ℕ) → n < 10 ^ width → decimal_from 0 (zero_padded width n) ≡ some n
unfolding zero_padded
decimal_from-zero_padded zero n h = unfold decimal_from in ap some (omega arith)
decimal_from-zero_padded (suc width) n h =
    rw
      (decimal_from-append (zero_padded width (n / 10)) ((b'0' + n % 10) ∷ []) 0 (n / 10)
        (decimal_from-zero_padded width (n / 10) (omega (arith, pow-suc 10 width))))
      (unfold decimal_from in ground arith)

decimal_nonempty : (s : Bytes) → 0 < length s → decimal s ≡ decimal_from 0 s
unfolding decimal
decimal_nonempty [] h = absurd (omega arith)
decimal_nonempty (c ∷ s) h = refl

-- A padded number is read back.
pub decimal-zero_padded :
    (width n : ℕ) → n < 10 ^ suc width → decimal (zero_padded (suc width) n) ≡ some n
decimal-zero_padded width n h =
    decimal_nonempty (zero_padded (suc width) n) (omega (arith, length-zero_padded (suc width) n))
    ∙ decimal_from-zero_padded (suc width) n h

abbrev IsDigit : ℕ → Type 0
IsDigit c = (b'0' ≤ c) × (c ≤ b'9')

zero_padded-IsDigit : (width n : ℕ) → All IsDigit (zero_padded width n)
unfolding zero_padded
zero_padded-IsDigit zero n = tt
zero_padded-IsDigit (suc width) n =
    All-append IsDigit (zero_padded width (n / 10)) _ (zero_padded-IsDigit width (n / 10))
      (omega arith)

pub partition-append : (s t : Bytes) → All IsDigit s → partition (s ++ b':' ∷ t) ≡ some (s, t)
unfolding partition
partition-append [] t h = refl
partition-append (c ∷ s) t h = ground (arith, partition-append s t h.1)

-- The part before the colon of a padded number and a text.
pub partition-zero_padded :
    (width n : ℕ) (t : Bytes)
    → partition (zero_padded width n ++ b':' ∷ t) ≡ some (zero_padded width n, t)
partition-zero_padded width n t =
    partition-append (zero_padded width n) t (zero_padded-IsDigit width n)

-- `precedes` is a strict order whose negation is transitive.
pub precedes_asym : (s t : Bytes) → precedes s t ≡ true → precedes t s ≡ false
unfolding precedes
precedes_asym [] [] h = refl
precedes_asym [] (b ∷ t) h = refl
precedes_asym (a ∷ s) [] h = cc
precedes_asym (a ∷ s) (b ∷ t) h = ground (arith, precedes_asym s t)

pub not_precedes_trans :
    (s t u : Bytes) → precedes t s ≡ false → precedes u t ≡ false → precedes u s ≡ false
unfolding precedes
not_precedes_trans [] [] [] h k = refl
not_precedes_trans [] [] (c ∷ u) h k = k
not_precedes_trans [] (b ∷ t) [] h k = cc
not_precedes_trans [] (b ∷ t) (c ∷ u) h k = refl
not_precedes_trans (a ∷ s) [] u h k = cc
not_precedes_trans (a ∷ s) (b ∷ t) [] h k = k
not_precedes_trans (a ∷ s) (b ∷ t) (c ∷ u) h k = ground (arith, not_precedes_trans s t u)
