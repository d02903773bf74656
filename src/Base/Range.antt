-- ===== src/Base/Range.antt =====
-- A test of the table entries 0, ..., size - 1, one by one.
use Prim.Native.Nat.{ℕ, zero, suc, ◌<◌}
use mathlib.Core.Path.{◌≡◌}
use mathlib.Core.Bool.{Bool, true, false}
use native.Mathlib.Omega.{arith}
use radmind.Base.Tests.{if◌then◌else◌}

unfoldable pub check_entries : (ℕ → Bool) → ℕ → Bool
check_entries test zero = true
check_entries test (suc size) = if test size then check_entries test size else false

pub entry_passes :
    (test : ℕ → Bool) (size i : ℕ) → i < size → check_entries test size ≡ true → test i ≡ true
unfolding check_entries
entry_passes test zero i inside passed = elim inside [ ]
entry_passes test (suc size) i inside passed = ground (arith, entry_passes test size i)
