-- ===== src/Base/Int.antt =====
-- Go's `int`, as far as the code tests it.
use Prim.Native.Nat.{ℕ}
use mathlib.Core.Bool.{Bool, true, false}
use dockprox.Base.Tests.{ltb, ◌==◌}

-- `negsuc n` is -(n + 1).
pub data ℤ : Type 0 where
  pos : ℕ → ℤ
  negsuc : ℕ → ℤ

-- `i == n`, `i < n` and `i > n`.
abbrev pub eq_ℕ : ℤ → ℕ → Bool
eq_ℕ (pos i) n = i == n
eq_ℕ (negsuc i) n = false

abbrev pub lt_ℕ : ℤ → ℕ → Bool
lt_ℕ (pos i) n = ltb i n
lt_ℕ (negsuc i) n = true

abbrev pub gt_ℕ : ℤ → ℕ → Bool
gt_ℕ (pos i) n = ltb n i
gt_ℕ (negsuc i) n = false
