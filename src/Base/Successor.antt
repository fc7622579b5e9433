-- ===== src/Base/Successor.antt =====
-- The successor beside sums, which do not compute on variables.
use Prim.Native.Nat.{ℕ, suc, ◌+◌}
use mathlib.Core.Path.{◌≡◌}
use native.Mathlib.Omega.{arith}

pub suc_left : (m n : ℕ) → suc (m + n) ≡ suc m + n
suc_left m n = omega arith

pub suc_right : (m n : ℕ) → suc (m + n) ≡ m + suc n
suc_right m n = omega arith
