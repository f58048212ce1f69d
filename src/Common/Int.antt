-- ===== src/Common/Int.antt =====
-- Signed integers over the native numbers, as far as amounts from JSON need them.
use Prim.Native.Nat.{ℕ}
use mathlib.Core.Bool.{Bool, true}
use karta_cards_vera.Common.Tests.{leb}

-- `negsuc n` is -(n + 1).
pub data ℤ : Type 0 where
  pos : ℕ → ℤ
  negsuc : ℕ → ℤ

-- `x <= 0`
abbrev pub is_nonpositive : ℤ → Bool
is_nonpositive (pos n) = leb n 0
is_nonpositive (negsuc n) = true
