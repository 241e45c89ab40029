-- ===== src/Prelude/Powers.antt =====
-- Powers of two.
use Prim.Native.Nat.{ℕ, zero, suc, ◌*◌, ◌^◌, ◌≤◌}
use mathlib.Core.Path.{◌≡◌}
use native.Mathlib.Nat.{pow-succ', pow-le-pow_right}
use native.Mathlib.Omega.{arith}

pub two_pow_suc : (d : ℕ) → 2 ^ suc d ≡ 2 * 2 ^ d
two_pow_suc d = pow-succ' 2 d

pub two_pow_pos : (d : ℕ) → 1 ≤ 2 ^ d
two_pow_pos zero = omega arith
two_pow_pos (suc d) = omega (arith, two_pow_suc d, two_pow_pos d)

pub two_pow_mono : {d e : ℕ} → d ≤ e → 2 ^ d ≤ 2 ^ e
two_pow_mono h = pow-le-pow_right (omega arith) h
