-- ===== src/Base/Integers.antt =====
-- The signed integers of C, before any wrapping.
use Prim.Native.Nat.{ℕ, ◌+◌, ◌-◌}
use mathlib.Core.Bool.{Bool, false}
use tangle_accelerator.Base.Tests.{ltb, if◌then◌else◌}

-- `negsuc n` is -(n + 1).
pub data ℤ : Type 0 where
  pos : ℕ → ℤ
  negsuc : ℕ → ℤ

abbrev nat_difference : ℕ → ℕ → ℤ
nat_difference a b = if ltb a b then negsuc (b - a - 1) else pos (a - b)

abbrev pub difference : ℤ → ℤ → ℤ
difference (pos a) (pos b) = nat_difference a b
difference (pos a) (negsuc b) = pos (a + b + 1)
difference (negsuc a) (pos b) = negsuc (a + b)
difference (negsuc a) (negsuc b) = nat_difference b a

-- Whether an integer is above a natural number.
abbrev pub is_above : ℕ → ℤ → Bool
is_above n (pos k) = ltb n k
is_above n (negsuc k) = false
