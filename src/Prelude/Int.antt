-- ===== src/Prelude/Int.antt =====
-- Go's `int` where it may be negative. `negsuc n` is -(n + 1).
use Prim.Native.Nat.{ℕ, suc, ◌+◌, ◌-◌}
use mathlib.Core.Bool.{Bool, true, false}
use x_mesh.Prelude.Tests.{ltb, leb, ◌==◌, if◌then◌else◌}

pub data ℤ : Type 0 where
  pos : ℕ → ℤ
  negsuc : ℕ → ℤ

-- a - b, as an integer.
abbrev pub sub_ℕ : ℕ → ℕ → ℤ
sub_ℕ a b = if leb b a then pos (a - b) else negsuc (b - a - 1)

-- n == 0 and n < k
abbrev pub is_zero : ℤ → Bool
is_zero (pos n) = n == 0
is_zero (negsuc n) = false

abbrev pub lt_ℕ : ℤ → ℕ → Bool
lt_ℕ (pos n) k = ltb n k
lt_ℕ (negsuc n) k = true

-- k + n, where the sum is not negative.
abbrev pub shift : ℕ → ℤ → ℕ
shift k (pos n) = k + n
shift k (negsuc n) = k - suc n
