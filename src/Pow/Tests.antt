-- ===== src/Pow/Tests.antt =====
-- Runs of the proof-of-work tests, and the laws at those inputs.
use askcoin_core.Base.{
  ℕ, ◌+◌, ◌-◌, ◌*◌, ◌^◌, ◌<◌, ◌≤◌, ◌≡◌, refl, ◌↔◌, ◌⊎◌, true, false, List, [], ◌∷◌, arith, length,
}
use askcoin_core.Pow.{hash_pow, next_zero_bits, zero_bits_in_range, zero_bits_ok, mix_rows}
use askcoin_core.Pow.Leading.{big_endian, hash_pow_iff}
use askcoin_core.Pow.Target.{zero_bits_ok_iff, zero_bits_ok_bounds}

-- Eleven leading zero bits.
abbrev sample : List ℕ
sample = 0 ∷ 31 ∷ 255 ∷ 7 ∷ []

hash_pow_passes : hash_pow sample 11 ≡ true
unfolding hash_pow
hash_pow_passes = refl

hash_pow_refuses : hash_pow sample 12 ≡ false
unfolding hash_pow
hash_pow_refuses = refl

mix_run : mix_rows 1 (λ i. i + 1) 0 (5 ∷ 9 ∷ []) ≡ 24 ∷ 121 ∷ []
unfolding mix_rows
mix_run = refl

accepts : zero_bits_ok 40 8 7 ≡ true
unfolding zero_bits_ok
accepts = refl

hash_pow_iff_example :
    (hash_pow sample 11 ≡ true) ↔ (big_endian sample < 2 ^ (8 * length sample - 11))
hash_pow_iff_example = hash_pow_iff sample 11 (omega arith) (omega arith)

zero_bits_ok_iff_example :
    (((zero_bits_in_range 7 ≡ true) × (zero_bits_ok 40 8 7 ≡ true))
      ↔ ((◌≡◌ {A = ℕ} 7 (next_zero_bits 40 8)) × ((8 < 255) ⊎ (10 ≤ 40))))
    × (((◌≡◌ {A = ℕ} 8 255) × (40 < 10)) ↔ (next_zero_bits 40 8 ≡ 256))
zero_bits_ok_iff_example = zero_bits_ok_iff 40 8 7 (omega arith) (omega arith)

-- The target that `mine_tx` computes after 255 in less than 10 seconds is refused.
refused : zero_bits_in_range (next_zero_bits 9 255) ≡ false
unfolding zero_bits_in_range next_zero_bits
refused = refl

zero_bits_ok_bounds_example :
    (◌≤◌ 1 7) × (7 ≤ 8 + 1) × (8 ≤ 7 + 1) × ((7 ≤ 8) ⊎ (40 < 10)) × ((8 ≤ 7) ⊎ (30 < 40))
zero_bits_ok_bounds_example = zero_bits_ok_bounds 40 8 7 (omega arith) (omega arith) accepts
