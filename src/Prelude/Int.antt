-- ===== src/Prelude/Int.antt =====
-- `int` results: a code is 0, positive, or negative (`negsuc n` is -(n + 1)).
use Prim.Native.Nat.{ℕ}
use mathlib.Core.Bool.{Bool, true, false}

pub data ℤ : Type 0 where
  pos : ℕ → ℤ
  negsuc : ℕ → ℤ

-- `code < 0`
abbrev pub is_negative : ℤ → Bool
is_negative (pos n) = false
is_negative (negsuc n) = true
