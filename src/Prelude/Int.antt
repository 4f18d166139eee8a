-- ===== src/Prelude/Int.antt =====
-- Python's integers, as far as the program clamps them.
use Prim.Native.Nat.{ℕ, min}

-- `negsuc n` is -(n + 1).
pub data ℤ : Type 0 where
  pos : ℕ → ℤ
  negsuc : ℕ → ℤ

-- `max(0, min(high, value))`.
unfoldable pub clamp : ℕ → ℤ → ℕ
clamp high (pos n) = min high n
clamp high (negsuc n) = 0
