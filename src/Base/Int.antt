-- ===== src/Base/Int.antt =====
-- Signed integers, as far as ranks and their sentinel -1 need them.
use Prim.Native.Nat.{ℕ}
use mathlib.Core.Bool.{Bool, false}
use rp_maksym_zaveriukha.Base.Tests.{ltb, ◌==◌}

-- `negsuc n` is -(n + 1).
pub data ℤ : Type 0 where
  pos : ℕ → ℤ
  negsuc : ℕ → ℤ

abbrev pub minus_one : ℤ
minus_one = negsuc 0

abbrev pub is_minus_one : ℤ → Bool
is_minus_one (pos n) = false
is_minus_one (negsuc n) = n == 0

-- `0 <= r && r < n`
abbrev pub is_rank_below : ℤ → ℕ → Bool
is_rank_below (pos r) n = ltb r n
is_rank_below (negsuc r) n = false

-- the index that a rank names in an array (only read where the rank is not negative)
abbrev pub index : ℤ → ℕ
index (pos r) = r
index (negsuc r) = 0
