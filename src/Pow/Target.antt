-- ===== src/Pow/Target.antt =====
-- The retargeting of `zero_bits`: the miner's value against the tests of the validation.
use askcoin_core.Base.{ℕ, ◌+◌, ◌≤◌, ◌<◌, ◌≡◌, ◌↔◌, ◌⊎◌, true, arith}
use askcoin_core.Pow.{next_zero_bits, zero_bits_in_range, zero_bits_ok}

pub zero_bits_ok-next_zero_bits :
    (utc_diff parent zero_bits : ℕ)
    → (zero_bits_ok utc_diff parent zero_bits ≡ true) ↔ (zero_bits ≡ next_zero_bits utc_diff parent)
unfolding zero_bits_ok next_zero_bits
zero_bits_ok-next_zero_bits d p z = ground arith

-- After a block whose `zero_bits` is from 1 to 255, `mined_new_block` takes exactly the `zero_bits` that `mine_tx`
-- computes, of the two tests that it makes, on the range and against the parent; but if the parent has 255 and was
-- found in less than 10 seconds, `mine_tx` computes 256, and `mined_new_block` takes no `zero_bits` at all.
pub zero_bits_ok_iff :
    (utc_diff parent zero_bits : ℕ)
    → 1 ≤ parent
    → parent ≤ 255
    → (((zero_bits_in_range zero_bits ≡ true) × (zero_bits_ok utc_diff parent zero_bits ≡ true))
        ↔ ((zero_bits ≡ next_zero_bits utc_diff parent) × ((parent < 255) ⊎ (10 ≤ utc_diff))))
      × (((parent ≡ 255) × (utc_diff < 10)) ↔ (next_zero_bits utc_diff parent ≡ 256))
unfolding zero_bits_in_range zero_bits_ok next_zero_bits
zero_bits_ok_iff d p z lo hi = (ground arith, ground arith)

-- From `zero_bits` between 1 and 254 an accepted block has `zero_bits` between 1 and 255, at most
-- one away, higher only after less than 10 seconds, and lower only after more than 30.
pub zero_bits_ok_bounds :
    (utc_diff parent zero_bits : ℕ)
    → 1 ≤ parent
    → parent ≤ 254
    → zero_bits_ok utc_diff parent zero_bits ≡ true
    → (1 ≤ zero_bits)
      × (zero_bits ≤ parent + 1)
      × (parent ≤ zero_bits + 1)
      × ((zero_bits ≤ parent) ⊎ (utc_diff < 10))
      × ((parent ≤ zero_bits) ⊎ (30 < utc_diff))
unfolding zero_bits_ok
zero_bits_ok_bounds d p z lo hi ok = ground arith
