-- ===== src/Text.antt =====
-- Texts as lists of bytes: equality and order byte by byte, and decimal numbers of a fixed width,
-- which app/services/queue_service.py forms in Lua and reads back in Python.
pub mod Laws
use job_queue_service.Prelude.{
  ℕ, zero, suc, ◌+◌, ◌-◌, ◌*◌, ◌/◌, ◌%◌, ◌==◌, Bool, true, false, ◌&&◌, Option, none, some, List,
  [], ◌∷◌, ◌++◌, ltb, leb, if◌then◌else◌,
}

abbrev pub Bytes : Type 0
Bytes = List ℕ

unfoldable pub equal : Bytes → Bytes → Bool
equal [] [] = true
equal (a ∷ s) (b ∷ t) = a == b && equal s t
equal _ _ = false

-- `memcmp` order, in which Redis breaks ties of the score: `precedes s t` where `s` comes first.
pub precedes : Bytes → Bytes → Bool
precedes [] [] = false
precedes [] (b ∷ t) = true
precedes (a ∷ s) [] = false
precedes (a ∷ s) (b ∷ t) = let rest = precedes s t in if a == b then rest else ltb a b

-- `string.format('%0<width>d', n)` for a number of at most `width` digits.
unfoldable pub zero_padded : ℕ → ℕ → Bytes
zero_padded zero n = []
zero_padded (suc width) n = zero_padded width (n / 10) ++ (b'0' + n % 10) ∷ []

-- The digits of a decimal text, most significant first; `none` at any other character.
unfoldable pub decimal_from : ℕ → Bytes → Option ℕ
decimal_from acc [] = some acc
decimal_from acc (c ∷ s) =
    let rest = decimal_from (acc * 10 + (c - b'0')) s in
    if leb b'0' c && leb c b'9' then rest else none

-- Python's `int(text)` on a text of digits; a sign, a space or `_` is refused here.
unfoldable pub decimal : Bytes → Option ℕ
unfolding decimal_from
decimal [] = none
decimal (c ∷ s) = decimal_from 0 (c ∷ s)

-- Python's `text.partition(":")`: the parts around the first colon; `none` without one.
abbrev prepend : ℕ → Option (Bytes × Bytes) → Option (Bytes × Bytes)
prepend c none = none
prepend c (some (s, t)) = some (c ∷ s, t)

unfoldable pub partition : Bytes → Option (Bytes × Bytes)
partition [] = none
partition (c ∷ s) = let rest = prepend c (partition s) in if c == b':' then some ([], s) else rest
