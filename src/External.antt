-- ===== src/External.antt =====
-- What blockchain.cpp calls and does not implement itself: rapidjson, the base64, hash and
-- signature functions, the table of the proof of work, the character class and the database.
use Prim.Native.String.{String}
use askcoin_core.Base.{ℕ, Bool, Option, List, Run}
use askcoin_core.Base.Text.{Str}

pub record External : Type 1 where
  -- rapidjson: `member` is `HasMember` with `operator[]`; the `as_` functions are a type test, such
  -- as `IsUint64`, with the value; `write` is `Accept` with a `Writer`; `parse` fails on an error.
  pub Value : Type 0
  pub member : String → Value → Option Value
  pub is_object : Value → Bool
  pub as_string : Value → Option Str
  pub as_uint : Value → Option ℕ
  pub as_uint64 : Value → Option ℕ
  pub as_array : Value → Option (List Value)
  pub write : Value → Str
  pub parse : Str → Option Value
  -- fly::base: the bytes that `base64_decode` writes into a buffer of the given size.
  pub base64_decode : Str → ℕ → List ℕ
  pub base64_encode : List ℕ → Str
  -- hash.cpp and pubkey.cpp.
  pub coin_hash : Str → List ℕ
  pub coin_hash_b64 : Str → Str
  pub ecdsa_verify : List ℕ → List ℕ → List ℕ → Bool
  -- asic_resistant.data.
  pub asic_data : ℕ → ℕ
  -- std::isspace.
  pub is_space : ℕ → Bool
  -- leveldb: `Get` by key, `none` is NotFound; on any other error the callers exit.
  pub db_get : Str → Run (Option Str)
