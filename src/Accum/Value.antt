-- ===== src/Accum/Value.antt =====
-- The number that the limbs stand for, and the well-formed limbs.
use askcoin_core.Base.{
  ℕ, zero, suc, ◌+◌, ◌*◌, ◌^◌, ◌<◌, ◌≡◌, refl, List, [], ◌∷◌, arith, length, All,
}
use askcoin_core.Base.Powers.{pow_add32}
use mathlib.Core.Path.{ap₂}

-- The number with the limbs `xs`, least first.
abbrev pub val : List ℕ → ℕ
val [] = 0
val (x ∷ xs) = x + 4294967296 * val xs

-- Every limb is below 2 ^ 32.
abbrev pub IsNorm : List ℕ → Type 0
IsNorm = All (λ x. x < 4294967296)

-- 2 ^ (32 * i), the weight of limb `i`.
abbrev pub weight : ℕ → ℕ
weight zero = 1
weight (suc i) = 4294967296 * weight i

-- 2 ^ (32 * n), for `n` limbs.
abbrev pub capacity : List ℕ → ℕ
capacity [] = 1
capacity (x ∷ xs) = 4294967296 * capacity xs

zero_times : (r : ℕ) → 32 * 0 + r ≡ r
zero_times r = omega arith

times_suc : (i r : ℕ) → 32 * suc i + r ≡ 32 * i + r + 32
times_suc i r = omega arith

pub weight_pow : (i r : ℕ) → 2 ^ (32 * i + r) ≡ weight i * 2 ^ r
weight_pow zero r = rw (zero_times r) (omega arith)
weight_pow (suc i) r = rw (times_suc i r) (omega (arith, pow_add32 (32 * i + r), weight_pow i r))

pub val-lt-capacity : (xs : List ℕ) → IsNorm xs → val xs < capacity xs
val-lt-capacity [] h = omega arith
val-lt-capacity (x ∷ xs) h = omega (arith, val-lt-capacity xs h.1)

-- Limbs in range are determined by their number.
pub val-injective :
    (xs ys : List ℕ) → length xs ≡ length ys → IsNorm xs → IsNorm ys → val xs ≡ val ys → xs ≡ ys
val-injective [] [] e hx hy v = refl
val-injective [] (y ∷ ys) e hx hy v = absurd (omega arith)
val-injective (x ∷ xs) [] e hx hy v = absurd (omega arith)
val-injective (x ∷ xs) (y ∷ ys) e hx hy v =
    ap₂ ◌∷◌ (omega arith) (val-injective xs ys (omega arith) hx.1 hy.1 (omega arith))
