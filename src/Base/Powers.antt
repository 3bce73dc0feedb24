-- ===== src/Base/Powers.antt =====
-- Powers of two.
use Prim.Native.Nat.{ℕ, zero, suc, ◌+◌, ◌*◌, ◌^◌, ◌≤◌}
use mathlib.Core.Path.{◌≡◌}
use native.Mathlib.Omega.{arith}
use native.Mathlib.Numerals.{towards_suc}
use native.Mathlib.Nat.{pow-suc}

pub pow_add8 : (n : ℕ) → 2 ^ (n + 8) ≡ 256 * 2 ^ n
pow_add8 n = simp towards_suc (omega arith)

pub pow_add32 : (n : ℕ) → 2 ^ (n + 32) ≡ 4294967296 * 2 ^ n
pow_add32 n =
    rw (shift n)
      (omega (arith, pow_add8 (n + 8 + 8 + 8), pow_add8 (n + 8 + 8), pow_add8 (n + 8), pow_add8 n))
  where
    shift : (k : ℕ) → k + 32 ≡ k + 8 + 8 + 8 + 8
    shift k = omega arith

pub pow_pos : (n : ℕ) → 1 ≤ 2 ^ n
pow_pos zero = omega arith
pow_pos (suc n) = omega (arith, pow_pos n, pow-suc 2 n)

pub pow_mono : (m n : ℕ) → m ≤ n → 2 ^ m ≤ 2 ^ n
pow_mono zero n h = pow_pos n
pow_mono (suc m) zero h = elim h [ ]
pow_mono (suc m) (suc n) h = omega (arith, pow_mono m n (omega arith), pow-suc 2 m, pow-suc 2 n)

pub pow-add : (m n : ℕ) → 2 ^ (m + n) ≡ 2 ^ m * 2 ^ n
pow-add zero n = rw (zero_add n) (omega arith)
  where
    zero_add : (k : ℕ) → 0 + k ≡ k
    zero_add k = omega arith
pow-add (suc m) n = rw (suc_add m n, pow-suc 2 (m + n), pow-suc 2 m, pow-add m n) (omega arith)
  where
    suc_add : (j k : ℕ) → suc j + k ≡ suc (j + k)
    suc_add j k = omega arith
