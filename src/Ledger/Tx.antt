-- ===== src/Ledger/Tx.antt =====
-- blockchain.cpp, `mined_new_block`: the transactions of a block. The children follow the branches of
-- the loop over the transactions; here are the signature check and the reading of fields.
pub mod Register
pub mod Fee
pub mod Send
pub mod Post
pub mod Reward
pub mod Apply
use Prim.Native.String.{String}
use askcoin_core.Base.{
  u64_mod, ℕ, ◌+◌, ◌%◌, Bool, true, false, not, ◌||◌, Option, none, some, List, [], ◌∷◌, Run, ok,
  exit, ◌>>=◌, ◌>>◌, guard, require, length, ltb, leb, ◌==◌, if◌then◌else◌,
}
use askcoin_core.Base.Text.{Str, is_base64_char}
use askcoin_core.External.{External}

-- The block that the transactions stand in.
pub record BlockInfo : Type 0 where
  pub block_id : ℕ
  pub block_hash : Str
  pub utc : ℕ

-- A transaction may stand in the 100 blocks before and after the block that it names.
unfoldable pub in_window : ℕ → ℕ → Bool
in_window cur_block_id block_id =
    not (
      ltb ((block_id + 100) % u64_mod) cur_block_id
      || ltb ((cur_block_id + 100) % u64_mod) block_id)

-- Every transaction costs two coins.
abbrev pub tx_fee : ℕ
tx_fee = 2

module _ (x : External) where
  open x use {Value, member, as_string, as_uint, as_uint64}

  -- `Blockchain::verify_sign`.
  unfoldable pub verify_sign : Str → Str → Str → Bool
  verify_sign pubk_b64 hash_b64 sign_b64 =
      if ltb (length sign_b64) 80 || ltb 108 (length sign_b64)
      then false
      else x.ecdsa_verify (x.base64_decode pubk_b64 65) (x.base64_decode hash_b64 32)
          (x.base64_decode sign_b64 80)

  -- `HasMember`, the type test, and the value.
  unfoldable pub string_field : String → Value → Run Str
  string_field name v = do m ← require (member name v); require (as_string m)

  unfoldable pub uint_field : String → Value → Run ℕ
  uint_field name v = do m ← require (member name v); require (as_uint m)

  unfoldable pub uint64_field : String → Value → Run ℕ
  uint64_field name v = do m ← require (member name v); require (as_uint64 m)

  -- A string that passes `is_base64_char`, with a length from `lo` to `hi`.
  unfoldable pub base64_field : String → ℕ → ℕ → Value → Run Str
  unfolding string_field
  base64_field name lo hi v = do
    s ← string_field name v
    guard (is_base64_char s)
    guard (not (ltb (length s) lo || ltb hi (length s)))
    ok s
