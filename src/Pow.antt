-- ===== src/Pow.antt =====
-- blockchain.cpp, `Blockchain::hash_pow` and `Blockchain::verify_hash`, and the retargeting of
-- `zero_bits` (mined_new_block and mine_tx).
mod Tests
pub mod Leading
pub mod Target
use Prim.Native.Nat.{bit_xor}
use askcoin_core.Base.{
  ℕ, zero, suc, ◌+◌, ◌-◌, ◌*◌, ◌/◌, ◌%◌, ◌^◌, Bool, true, false, Option, none, some, List, [], ◌∷◌,
  ◌++◌, ltb, leb, ◌==◌, if◌then◌else◌, get_or, set, not, ◌||◌,
}

-- The `for` of `hash_pow`: are the bytes `i`, ..., `i + n - 1` all 0?
pub zero_bytes : ℕ → ℕ → List ℕ → Bool
zero_bytes zero i h = true
zero_bytes (suc n) i h =
    let rest = zero_bytes n (i + 1) h in if get_or h i 0 == 0 then rest else false

-- `hash_pow`; a byte is read as `uint8`.
unfoldable pub hash_pow : List ℕ → ℕ → Bool
unfolding zero_bytes
hash_pow h zero_bits =
    let zero_char_num = zero_bits / 8 in
    let zero_remain_bit = zero_bits % 8 in
    if zero_bytes zero_char_num 0 h
    then (if zero_remain_bit == 0
        then true
        else ltb (get_or h zero_char_num 0) (2 ^ (8 - zero_remain_bit)))
    else false

abbrev pub u32_mod : ℕ
u32_mod = 4294967296

-- One word of the memory-loading loop of `verify_hash`, in uint32 arithmetic.
pub mix : ℕ → ℕ → ℕ
mix w d = ((w + d) % u32_mod * bit_xor w d) % u32_mod

-- `for(int j = 0; j < 16; ++j)`: word `j` of `arr_16` is mixed with entry `i + j` of the table.
pub mix_row : (ℕ → ℕ) → ℕ → List ℕ → List ℕ
unfolding mix
mix_row table i [] = []
mix_row table i (w ∷ ws) = mix w (table i) ∷ mix_row table (i + 1) ws

-- The outer `for`: `rounds` rows of 16 table entries, from entry `i` on.
pub mix_rows : ℕ → (ℕ → ℕ) → ℕ → List ℕ → List ℕ
unfolding mix_row
mix_rows zero table i ws = ws
mix_rows (suc n) table i ws = mix_rows n table (i + 16) (mix_row table i ws)

-- `ASIC_RESISTANT_DATA_NUM / 16` rows.
abbrev pub asic_rows : ℕ
asic_rows = 327680

-- `zero_bits` of a block after a block with `parent_zero_bits` found `utc_diff` seconds after its
-- own parent: the end of `mine_tx`, in uint32 arithmetic.
pub next_zero_bits : ℕ → ℕ → ℕ
next_zero_bits utc_diff parent =
    if ltb utc_diff 10
    then (parent + 1) % u32_mod
    else if ltb 30 utc_diff
    then (if ltb 1 parent then parent - 1 else 1)
    else parent

-- `mined_new_block` takes no other `zero_bits` from a block.
unfoldable pub zero_bits_in_range : ℕ → Bool
zero_bits_in_range zero_bits = not (zero_bits == 0 || leb 256 zero_bits)

-- The test of `mined_new_block` on the `zero_bits` of a block.
unfoldable pub zero_bits_ok : ℕ → ℕ → ℕ → Bool
zero_bits_ok utc_diff parent zero_bits =
    if ltb utc_diff 10
    then zero_bits == (parent + 1) % u32_mod
    else if ltb 30 utc_diff
    then (if ltb 1 parent then zero_bits == (parent - 1) else zero_bits == 1)
    else zero_bits == parent
