-- ===== src/Base/Int.antt =====
-- The signed numbers that a client may send, and the tests by which a service takes them.
use Prim.Native.Nat.{ℕ, zero, suc}
use mathlib.Core.Option.{Option, none, some}

-- `negsuc n` is -(n + 1).
pub data ℤ : Type 0 where
  pos : ℕ → ℤ
  negsuc : ℕ → ℤ

-- The number, unless it is <= 0.
abbrev pub positive? : ℤ → Option ℕ
positive? (pos zero) = none
positive? (pos (suc n)) = some (suc n)
positive? (negsuc n) = none

-- The number, unless it is < 0.
abbrev pub natural? : ℤ → Option ℕ
natural? (pos n) = some n
natural? (negsuc n) = none
