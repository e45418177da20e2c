-- ===== src/Prelude/Numbers.antt =====
-- Powers of two.
use Prim.Native.Nat.{ℕ, zero, suc, ◌+◌, ◌*◌, ◌^◌, ◌≤◌}
use mathlib.Core.Path.{◌≡◌}
use native.Mathlib.Nat.{pow-suc, zero-add, suc-add}
use native.Mathlib.Omega.{arith}

pub two_pow-suc : (n : ℕ) → 2 ^ suc n ≡ 2 * 2 ^ n
two_pow-suc n = rw pow-suc (omega arith)

pub two_pow-pos : (n : ℕ) → 1 ≤ 2 ^ n
two_pow-pos zero = omega arith
two_pow-pos (suc n) = omega (arith, two_pow-pos n, two_pow-suc n)

pub two_pow-le-add : (m n : ℕ) → 2 ^ n ≤ 2 ^ (m + n)
two_pow-le-add zero n = rw zero-add (omega arith)
two_pow-le-add (suc m) n = rw suc-add (omega (arith, two_pow-suc (m + n), two_pow-le-add m n))
