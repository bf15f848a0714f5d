-- ===== src/Base/Int.antt =====
-- The integers over the native numbers, as far as differences of bytes need them.
use Prim.Native.Nat.{ℕ, ◌-◌}
use os.Base.Tests.{leb, if◌then◌else◌}

pub data ℤ : Type 0 where
  pos : ℕ → ℤ
  negsuc : ℕ → ℤ

-- `a - b` on `int`, for two bytes
unfoldable pub byte_diff : ℕ → ℕ → ℤ
byte_diff a b = if leb b a then pos (a - b) else negsuc (b - a - 1)
