-- ===== src/Chain/Hash.antt =====
-- blockchain.cpp, `verify_hash`: the hash of a block is that of its text and of 64 bytes that a pass
-- over a large table mixes from two hashes of the text.
use askcoin_core.Base.{
  ℕ, ◌+◌, ◌*◌, ◌/◌, ◌%◌, Bool, false, List, [], ◌∷◌, ◌++◌, ◌==◌, if◌then◌else◌, length,
}
use askcoin_core.Base.Text.{Str, codes, str_eq}
use askcoin_core.External.{External}
use askcoin_core.Pow.{hash_pow, mix_rows, asic_rows}

-- `ntohl` of each word of the buffer: four bytes, the highest first.
pub words_of : List ℕ → List ℕ
words_of (a ∷ b ∷ c ∷ d ∷ bs) = (a * 16777216 + b * 65536 + c * 256 + d) ∷ words_of bs
words_of _ = []

-- `htonl` of each word.
pub bytes_of : List ℕ → List ℕ
bytes_of [] = []
bytes_of (w ∷ ws) = w / 16777216 % 256 ∷ w / 65536 % 256 ∷ w / 256 % 256 ∷ w % 256 ∷ bytes_of ws

module _ (x : External) where
  open x use {base64_decode, base64_encode, coin_hash, coin_hash_b64, asic_data}

  unfoldable pub verify_hash : Str → Str → ℕ → Bool
  unfolding words_of bytes_of
  verify_hash block_hash block_data zero_bits =
      let hash_raw = base64_decode block_hash 32 in
      let longer = block_data ++ codes "another_32_bytes" in
      let mixed =
        mix_rows asic_rows asic_data 0 (words_of (coin_hash block_data ++ coin_hash longer)) in
      let hash_data = longer ++ base64_encode (bytes_of mixed) in
      if length hash_raw == 32
      then (if str_eq block_hash (coin_hash_b64 hash_data)
          then hash_pow hash_raw zero_bits
          else false)
      else false
