-- ===== src/Common/Int.antt =====
-- Signed integers over the native numbers, as far as an int32 of the program can be negative.
use Prim.Native.Nat.{ℕ, ◌-◌, ◌%◌, ◌^◌}
use mathlib.Core.Bool.{Bool, true, false}
use kahuna_k8s_operator.Common.Tests.{ltb, if◌then◌else◌}

-- `negsuc n` is -(n + 1).
pub data ℤ : Type 0 where
  pos : ℕ → ℤ
  negsuc : ℕ → ℤ

-- The int32 that a nonnegative int64 converts to.
abbrev pub to_int32 : ℕ → ℤ
to_int32 n = let w = n % 2 ^ 32 in if ltb w (2 ^ 31) then pos w else negsuc (2 ^ 32 - 1 - w)

abbrev pub lt_ℤ : ℤ → ℤ → Bool
lt_ℤ (pos a) (pos b) = ltb a b
lt_ℤ (pos a) (negsuc b) = false
lt_ℤ (negsuc a) (pos b) = true
lt_ℤ (negsuc a) (negsuc b) = ltb b a

-- `max(z, lo)` for a lower bound that is not negative.
abbrev pub at_least : ℤ → ℕ → ℕ
at_least (pos a) lo = if ltb a lo then lo else a
at_least (negsuc a) lo = lo
