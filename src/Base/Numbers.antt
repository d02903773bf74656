-- ===== src/Base/Numbers.antt =====
-- The results of C comparison functions: a signed difference, and its sign.
use Prim.Native.Nat.{ℕ, zero, suc, ◌-◌, compare, Ordering}
use mathlib.Core.Path.{◌≡◌}
use native.Mathlib.Omega.{arith}
use radmind.Base.Tests.{leb, if◌then◌else◌}

-- `negsuc n` is -(n + 1).
pub data ℤ : Type 0 where
  pos : ℕ → ℤ
  negsuc : ℕ → ℤ

-- a - b, as an int.
abbrev pub sub_ℕ : ℕ → ℕ → ℤ
sub_ℕ a b = if leb b a then pos (a - b) else negsuc (b - a - 1)

-- The sign of an int, as an ordering of the operands it was computed from.
abbrev pub sign : ℤ → Ordering
sign (pos zero) = Ordering.eq
sign (pos (suc n)) = Ordering.gt
sign (negsuc n) = Ordering.lt

pub sign-sub_ℕ : (a b : ℕ) → sign (sub_ℕ a b) ≡ compare a b
sign-sub_ℕ a b = ground arith
